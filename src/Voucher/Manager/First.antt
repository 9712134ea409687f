-- ===== src/Voucher/Manager/First.antt =====
-- channel-voucher-keys.ts: a first voucher, from the creation of its key on.
use connect_lib.Base.{
  String, ℕ, ◌*◌, ◌/◌, ◌≤◌, ◌<◌, ◌≡◌, ◌++◌, refl, Bool, false, not, ◌||◌, none, some, List, [], ◌∷◌,
  arith, length, leb, ltb, ◌==◌, ap, ◌∙◌,
}
use connect_lib.Authorization.Names.{is_safe}
use connect_lib.Base.Text.{Text}
use connect_lib.Base.Bytes.{Bytes}
use connect_lib.Voucher.Address.{is_valid_solana_address, is_solana_caip2}
use connect_lib.Voucher.Message.{ChannelVoucher, u64_max, i64_max}
use connect_lib.Voucher.Types.{
  ChannelVoucherPolicy, ChannelBinding, StoredKey, Crypto, ok, ManagerConfig, fail_if, Result,
}
use connect_lib.Voucher.Manager.{
  check_policy, expected_program, is_pinned, create, bind_channel, sign_voucher, new_key, bound,
  pda_input, find_key, SignedVoucher,
}
use connect_lib.Voucher.Manager.Amount.{fail_if-eq-ok}
use connect_lib.Voucher.Manager.Signs.{Unseals, Fits, pos_product, sign_change-first}
use connect_lib.Voucher.Manager.Updates.{
  create-ok, bind_channel-new, find_key-append_self, find_key-put_self, sign_voucher-found,
}

-- The bounds that an accepted policy keeps.
record IsBounded (p : ChannelVoucherPolicy) : Type 0 where
  price : 0 < p.price_per_unit
  limit : p.max_cumulative ≤ u64_max
  expiry : p.expiry ≤ i64_max

last_check : (b : Bool) (m : String) → fail_if b m ≡ ok tt → b ≡ false
last_check b m h = ground arith

either : (a b : Bool) → (a || b) ≡ false → (a ≡ false) × (b ≡ false)
either a b h = ground arith

check_policy-IsBounded :
    (config : ManagerConfig) (p : ChannelVoucherPolicy) (now : ℕ)
    → check_policy config p now ≡ ok tt
    → IsBounded p
unfolding check_policy
check_policy-IsBounded config p now h =
    let (_, h₁) = fail_if-eq-ok (not (is_solana_caip2 p.cluster)) _ _ h in
    let (_, h₂) = fail_if-eq-ok (not (is_valid_solana_address p.channel_program)) _ _ h₁ in
    let (_, h₃) = fail_if-eq-ok (not (is_valid_solana_address p.payer)) _ _ h₂ in
    let (_, h₄) = fail_if-eq-ok (not (is_valid_solana_address p.mint)) _ _ h₃ in
    let (_, h₅) = fail_if-eq-ok (not (is_valid_solana_address p.payee)) _ _ h₄ in
    let (_, h₆) =
      fail_if-eq-ok (not (is_pinned (expected_program config p.cluster) p.channel_program)) _ _
        h₅ in
    let (price, h₇) =
      fail_if-eq-ok (p.price_per_unit == 0 || ltb u64_max p.price_per_unit) _ _ h₆ in
    let (limit, h₈) =
      fail_if-eq-ok (p.max_cumulative == 0 || ltb u64_max p.max_cumulative) _ _ h₇ in
    let (_, h₉) = fail_if-eq-ok (p.max_delta == 0 || ltb p.max_cumulative p.max_delta) _ _ h₈ in
    let late =
      last_check (not (is_safe p.expiry) || leb p.expiry (now / 1000) || ltb i64_max p.expiry) _
        h₉ in
    let (_, word) = either _ (ltb i64_max p.expiry) late in
    record { price = ground arith; limit = ground arith; expiry = ground arith }

units_word : (units price limit : ℕ) → 0 < price → units * price ≤ limit → units ≤ limit / price
units_word units price limit h k = grind arith

new_key-id :
    (x : Crypto) (p : ChannelVoucherPolicy) (secret : Bytes) (id : Text) (now : ℕ)
    → (new_key x p secret id now).id ≡ id
unfolding new_key
new_key-id x p secret id now = refl

module _ (x : Crypto) (config : ManagerConfig) (p : ChannelVoucherPolicy) (b : ChannelBinding)
    (secret : Bytes) (id : Text) (created now units : ℕ) (keys : List StoredKey)
    (channel : Bytes) where
  -- The stored keys after the creation, and after the binding.
  abbrev pub created_keys : List StoredKey
  created_keys = (create x config p secret id created keys).1

  abbrev pub bound_keys : List StoredKey
  bound_keys = (bind_channel x id b created_keys).1

  -- Under a policy that `create` accepts, with a fresh id and a secret of 32 bytes, and for the
  -- channel that the policy derives, of 32 bytes, with a deposit that is a u64: the creation and the
  -- binding succeed, and the bound key signs a first voucher, while it has not expired, for any
  -- units whose price is within the limits of the policy and the deposit. The voucher is for that
  -- price.
  pub sign_voucher-first :
      Unseals x
      → check_policy config p created ≡ ok tt
      → find_key id keys ≡ none
      → length secret ≡ 32
      → x.derive_channel_pda (pda_input (new_key x p secret id created) b) ≡ b.channel_id
      → x.decode58 b.channel_id ≡ some channel
      → length channel ≡ 32
      → b.deposit ≤ u64_max
      → 0 < units
      → units * p.price_per_unit ≤ p.max_delta
      → units * p.price_per_unit ≤ p.max_cumulative
      → units * p.price_per_unit ≤ b.deposit
      → now < p.expiry * 1000
      → ((create x config p secret id created keys).0 ≡ ok (new_key x p secret id created))
        × ((bind_channel x id b created_keys).0 ≡ ok tt)
        × ((s : SignedVoucher) × ((sign_voucher x id b.channel_id units now bound_keys).0 ≡ ok s)
            × (s.voucher.channel_id ≡ b.channel_id)
            × (s.voucher.cumulative_amount ≡ units * p.price_per_unit)
            × (s.voucher.expires_at ≡ p.expiry))
  unfolding new_key
  sign_voucher-first opens accepted fresh sized derived named whole word some_units delta limit
        covered live =
      let bounds : IsBounded p = check_policy-IsBounded config p created accepted in
      let k : StoredKey = new_key x p secret id created in
      let product : 0 < units * p.price_per_unit =
        pos_product units p.price_per_unit some_units bounds.price in
      let fits : Fits p b units now = record {
        some_units = some_units;
        some_price = bounds.price;
        word =
            units_word units p.price_per_unit u64_max bounds.price
              (omega (arith, limit, bounds.limit));
        amount = delta;
        policy = limit;
        deposit = covered;
        small = bounds.limit;
        unexpired = live;
        expiry = bounds.expiry;
      } in
      let made = create-ok x config p secret id created keys accepted in
      let there : find_key id (keys ++ k ∷ []) ≡ some k =
        find_key-append_self id k keys (new_key-id x p secret id created) fresh in
      let binds =
        bind_channel-new x p secret id created b (keys ++ k ∷ []) opens
          (omega (arith, product, covered)) word derived there in
      let (s, signed, is) =
        sign_change-first x opens p b secret id created now units sized fits channel named whole in
      let found = find_key-put_self id k (bound x k b secret) (keys ++ k ∷ []) refl there in
      let gives = sign_voucher-found x id b.channel_id units now _ _ _ s found signed in
      let keys₁ : created_keys ≡ keys ++ k ∷ [] =
        ap (λ (u : Result StoredKey × List StoredKey). u.1) made in
      let bound₁ = ap (bind_channel x id b) keys₁ ∙ binds in
      let keys₂ = ap (λ (u : Result (Unit {0}) × List StoredKey). u.1) bound₁ in
      let signed₂ = ap (sign_voucher x id b.channel_id units now) keys₂ ∙ gives in
      (
        ap (λ (u : Result StoredKey × List StoredKey). u.0) made,
        ap (λ (u : Result (Unit {0}) × List StoredKey). u.0) bound₁,
        (
          s,
          ap (λ (u : Result SignedVoucher × List StoredKey). u.0) signed₂,
          ap (λ (v : ChannelVoucher). v.channel_id) is,
          ap (λ (v : ChannelVoucher). v.cumulative_amount) is,
          ap (λ (v : ChannelVoucher). v.expires_at) is,
        ),
      )
