-- ===== src/Voucher/Manager/Amount.antt =====
-- What a signed voucher commits to, and the tests that it has passed.
use connect_lib.Base.{
  String, ℕ, ◌+◌, ◌*◌, ◌≤◌, ◌<◌, ◌≡◌, refl, Bool, true, false, not, Option, none, some, arith, leb,
}
use connect_lib.Base.Text.{Text, text_eq, text_eq_iff}
use connect_lib.Voucher.Message.{u64_max}
use connect_lib.Voucher.Types.{
  KeyStatus, BoundChannel, StoredKey, Crypto, Failure, Result, ok, err, ◌>>=◌, fail_if, refuse_if,
  or_fail,
}
use connect_lib.Voucher.Manager.{
  check_amount, sign_bound, sign_change, sign_channel_voucher, SignedVoucher, next_voucher,
  is_active, unseal,
}

pub >>=-eq-ok :
    {S T : Type 0} (first : Result S) (next : S → Result T) {final : T}
    → (first >>= next) ≡ ok final
    → (s : S) × (first ≡ ok s) × (next s ≡ ok final)
>>=-eq-ok (err failure) next gave = cc
>>=-eq-ok (ok s) next gave = (s, refl, gave)

pub refuse_if-eq-ok :
    {B : Type 0} (b : Bool) (m : String) (r : Result B) {v : B}
    → (refuse_if b m >>= λ _. r) ≡ ok v
    → (b ≡ false) × (r ≡ ok v)
refuse_if-eq-ok true m r h = cc
refuse_if-eq-ok false m r h = (refl, h)

pub fail_if-eq-ok :
    {B : Type 0} (b : Bool) (m : String) (r : Result B) {v : B}
    → (fail_if b m >>= λ _. r) ≡ ok v
    → (b ≡ false) × (r ≡ ok v)
fail_if-eq-ok true m r h = cc
fail_if-eq-ok false m r h = (refl, h)

pub or_fail-eq-ok :
    {A : Type 0} (o : Option A) (e : Failure) {a : A} → or_fail o e ≡ ok a → o ≡ some a
or_fail-eq-ok none e h = cc
or_fail-eq-ok (some a) e h = cc

is_active_lem : (s : KeyStatus) → not (is_active s) ≡ false → s ≡ KeyStatus.active
unfolding is_active
is_active_lem KeyStatus.active h = refl
is_active_lem KeyStatus.revoked h = cc
is_active_lem KeyStatus.expired h = cc

-- An accepted amount adds the price of the units to the last one, rises, and stays within the
-- limits of the policy, the channel and the 64-bit word.
pub record IsNext (k : StoredKey) (c : BoundChannel) (units amount : ℕ) : Type 0 where
  pub sum : amount ≡ k.last_cumulative + units * k.policy.price_per_unit
  pub rises : k.last_cumulative < amount
  pub delta : units * k.policy.price_per_unit ≤ k.policy.max_delta
  pub budget : amount ≤ c.max_cumulative
  pub deposit : c.max_cumulative ≤ c.deposit
  pub word : amount ≤ u64_max

pub check_amount_lem :
    (k : StoredKey) (c : BoundChannel) (units amount : ℕ)
    → check_amount k c units ≡ ok amount
    → IsNext k c units amount
unfolding check_amount
check_amount_lem k c units amount h = ground arith

-- All that a signature says: the key is active and unexpired, bound to the requested channel, and
-- the voucher carries the next amount, which is what the key remembers.
pub record IsSigned (k k' : StoredKey) (s : SignedVoucher) (channel_id : Text) (units now : ℕ)
    : Type 0 where
  pub channel : BoundChannel
  pub bound : k.channel ≡ some channel
  pub named : channel_id ≡ channel.channel_id
  pub active : k.status ≡ KeyStatus.active
  pub unexpired : now < k.policy.expiry * 1000
  pub amount : ℕ
  pub next : IsNext k channel units amount
  pub voucher : s.voucher ≡ next_voucher k channel amount
  pub kept : k' ≡ record k { last_cumulative = amount }

sign_bound_lem :
    (x : Crypto) (channel_id : Text) (units : ℕ) (k : StoredKey) (c : BoundChannel)
    (s : SignedVoucher) (k' : StoredKey)
    → sign_bound x channel_id units k c ≡ ok (s, k')
    → (amount : ℕ) × (channel_id ≡ c.channel_id)
      × IsNext k c units amount
      × (s.voucher ≡ next_voucher k c amount)
      × (k' ≡ record k { last_cumulative = amount })
unfolding sign_bound
sign_bound_lem x channel_id units k c s k' h =
    let (named, h₁) = refuse_if-eq-ok (not (text_eq channel_id c.channel_id)) _ _ h in
    let (amount, checked, h₂) = >>=-eq-ok (check_amount k c units) _ h₁ in
    let (secret, opened, h₃) = >>=-eq-ok (unseal x k) _ h₂ in
    let (_, h₄) =
      fail_if-eq-ok (not (text_eq (x.encode58 (x.get_public_key secret)) k.address)) _ _ h₃ in
    let (signature, signed, h₅) =
      >>=-eq-ok (sign_channel_voucher x secret (next_voucher k c amount)) _ h₄ in
    (
      amount,
      ground (arith, named, text_eq_iff channel_id c.channel_id),
      check_amount_lem k c units amount checked,
      ground (arith, h₅),
      ground (arith, h₅),
    )

-- A key signs only when active, unexpired and bound to the channel asked for, and only the next
-- amount, which it then remembers; nothing else of it changes.
pub sign_change_lem :
    (x : Crypto) (channel_id : Text) (units now : ℕ) (k : StoredKey) (s : SignedVoucher)
    (k' : StoredKey)
    → sign_change x channel_id units now k ≡ ok (s, k')
    → IsSigned k k' s channel_id units now
unfolding sign_change is_active
sign_change_lem x channel_id units now k s k' h =
    let (active, h₁) = refuse_if-eq-ok (not (is_active k.status)) _ _ h in
    let (fresh, h₂) = refuse_if-eq-ok (leb (k.policy.expiry * 1000) now) _ _ h₁ in
    let (c, bound, h₃) = >>=-eq-ok (or_fail k.channel _) _ h₂ in
    let (amount, named, next, voucher, kept) = sign_bound_lem x channel_id units k c s k' h₃ in
    record {
      channel = c;
      bound = or_fail-eq-ok k.channel _ bound;
      named = named;
      active = is_active_lem k.status active;
      unexpired = ground (arith, fresh);
      amount = amount;
      next = next;
      voucher = voucher;
      kept = kept;
    }
