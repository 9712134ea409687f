-- ===== src/Voucher/Manager/Signs.antt =====
-- channel-voucher-keys.ts: when `signVoucher` gives a voucher.
use connect_lib.Base.{
  String, ◌||◌, leb, ℕ, ◌+◌, ◌*◌, ◌/◌, ◌≤◌, ◌<◌, min, ◌≡◌, ◌++◌, refl, Bool, true, false, not, some,
  [], ◌∷◌, arith, length, ltb, ◌==◌, ap, ◌∙◌,
}
use connect_lib.Base.Text.{Text, text_eq, text_eq_iff}
use connect_lib.Base.Bytes.{Bytes}
use connect_lib.Base.Bytes.{le_bytes}
use connect_lib.Voucher.Message.{u64, ChannelVoucher, u64_max, i64_max, key, encode_channel_voucher}
use connect_lib.Voucher.Types.{
  ChannelBinding, BoundChannel, StoredKey, Sealed, Crypto, Result, ok, ◌>>=◌, refuse_if,
  ChannelVoucherPolicy,
}
use connect_lib.Voucher.Manager.{
  new_key, bound, sign_change, sign_bound, check_amount, sign_channel_voucher, unseal, is_active,
  SignedVoucher, next_voucher, sealed,
}

-- What the cryptography promises: a sealed secret opens again under the record it was sealed with.
abbrev pub Unseals : Crypto → Type 0
Unseals x = (secret : Bytes) (r : Sealed) → x.decrypt (x.encrypt secret r) r ≡ some secret

-- A request that the limits of the policy and of the channel allow as the first one.
pub record Fits (p : ChannelVoucherPolicy) (b : ChannelBinding) (units now : ℕ) : Type 0 where
  pub some_units : 0 < units
  pub some_price : 0 < p.price_per_unit
  pub word : units ≤ u64_max / p.price_per_unit
  pub amount : units * p.price_per_unit ≤ p.max_delta
  pub policy : units * p.price_per_unit ≤ p.max_cumulative
  pub deposit : units * p.price_per_unit ≤ b.deposit
  pub small : p.max_cumulative ≤ u64_max
  pub unexpired : now < p.expiry * 1000
  pub expiry : p.expiry ≤ i64_max

pub pos_product : (a b : ℕ) → 0 < a → 0 < b → 0 < a * b
pos_product a b h k = grind arith

le_quotient : (a n d : ℕ) → a ≤ n / d → a ≤ n
le_quotient a n d h = omega arith

pass :
    {B : Type 0} (b : Bool) (m : String) (r : Result B) → b ≡ false → (refuse_if b m >>= λ _. r) ≡ r
pass true m r h = cc
pass false m r h = refl

check_amount-ok :
    (k : StoredKey) (c : BoundChannel) (units : ℕ)
    → 0 < units
    → units ≤ u64_max
    → units ≤ u64_max / k.policy.price_per_unit
    → units * k.policy.price_per_unit ≤ k.policy.max_delta
    → 0 < units * k.policy.price_per_unit
    → k.last_cumulative + units * k.policy.price_per_unit ≤ c.max_cumulative
    → c.max_cumulative ≤ c.deposit
    → c.max_cumulative ≤ u64_max
    → check_amount k c units ≡ ok (k.last_cumulative + units * k.policy.price_per_unit)
unfolding check_amount
check_amount-ok k c units h₁ h₂ h₃ h₄ h₅ h₆ h₇ h₈ =
    let delta = units * k.policy.price_per_unit in
    let t₁ : (units == 0 || ltb u64_max units) ≡ false = ground arith in
    let t₂ : ltb (u64_max / k.policy.price_per_unit) units ≡ false = ground arith in
    let t₃ : ltb k.policy.max_delta delta ≡ false = ground arith in
    let t₄ : ltb u64_max (k.last_cumulative + delta) ≡ false = ground arith in
    let t₅ : leb (k.last_cumulative + delta) k.last_cumulative ≡ false = ground arith in
    let t₆ : (ltb c.max_cumulative (k.last_cumulative + delta) || ltb c.deposit c.max_cumulative)
        ≡ false =
      ground arith in
    rw (t₁, t₂, t₃, t₄, t₅, t₆) refl

module _ (x : Crypto) (opens : Unseals x) (p : ChannelVoucherPolicy) (b : ChannelBinding)
    (secret : Bytes) (id : Text) (created now units : ℕ) (sized : length secret ≡ 32)
    (fits : Fits p b units now) (channel : Bytes) (named : x.decode58 b.channel_id ≡ some channel)
    (whole : length channel ≡ 32) where
  abbrev k : StoredKey
  k = bound x (new_key x p secret id created) b secret

  abbrev c : BoundChannel
  c = record { binding = b; max_cumulative = min p.max_cumulative b.deposit }

  checked : check_amount k c units ≡ ok (units * p.price_per_unit)
  unfolding new_key
  checked =
      let product : 0 < units * p.price_per_unit =
        pos_product units p.price_per_unit fits.some_units fits.some_price in
      check_amount-ok k c units fits.some_units
        (le_quotient units u64_max p.price_per_unit fits.word) fits.word fits.amount product
        (omega arith) (omega arith) (omega arith)
      ∙ ap ok (omega arith)

  abbrev v : ChannelVoucher
  v = next_voucher k c (units * p.price_per_unit)

  keyed : key x.decode58 b.channel_id ≡ some channel
  unfolding key
  keyed = rw (named, whole, key) refl

  small : units * p.price_per_unit ≤ u64_max
  small = omega (arith, fits.policy, fits.small)

  amounts : u64 (units * p.price_per_unit) ≡ some (le_bytes 8 (units * p.price_per_unit))
  unfolding u64
  amounts =
      let t : ltb u64_max (units * p.price_per_unit) ≡ false = ground (arith, small) in rw t refl

  message : Bytes
  message =
      (0x56 ∷ 0x01 ∷ [])
      ++ (channel ++ (le_bytes 8 (units * p.price_per_unit) ++ le_bytes 8 p.expiry))

  encoded : encode_channel_voucher x.decode58 v ≡ some message
  unfolding encode_channel_voucher message new_key
  encoded =
      let t : ltb i64_max p.expiry ≡ false = ground (arith, fits.expiry) in
      rw (t, keyed, amounts) refl

  signed : sign_channel_voucher x secret v ≡ ok (x.sign message secret)
  unfolding sign_channel_voucher
  signed = let t : not (length secret == 32) ≡ false = ground (arith, sized) in rw (t, encoded) refl

  -- A key that was created and bound signs a first voucher for any units within the limits.
  pub sign_change-first :
      (s : SignedVoucher) × (sign_change x b.channel_id units now k
        ≡ ok (s, record k { last_cumulative = units * p.price_per_unit }))
      × (s.voucher ≡ v)
  unfolding sign_change is_active sign_bound unseal new_key
  sign_change-first =
      let fresh : leb (p.expiry * 1000) now ≡ false = ground (arith, fits.unexpired) in
      let named_self : text_eq b.channel_id b.channel_id ≡ true =
        (text_eq_iff b.channel_id b.channel_id).1 refl in
      let own : text_eq (x.encode58 (x.get_public_key secret))
            (x.encode58 (x.get_public_key secret))
          ≡ true =
        (text_eq_iff (x.encode58 (x.get_public_key secret))
            (x.encode58 (x.get_public_key secret))).1
          refl in
      (
        record { voucher = v; signature = x.sign message secret },
        rw (fresh, named_self, checked, opens secret (sealed k), own, signed) refl,
        refl,
      )
