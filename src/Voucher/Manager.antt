-- ===== src/Voucher/Manager.antt =====
-- channel-voucher-keys.ts: `ChannelVoucherKeyManager`.
--
-- The stored keys are one list. The adapter's locks make each update one step over the whole list,
-- and an update that throws saves nothing. Times are milliseconds, as `Date.now()` gives them.
-- A `bigint` is a natural number here: wherever one is taken, the test that refuses 0 refuses what
-- is below it.
pub mod Amount
pub mod Found
pub mod Keys
pub mod Run
pub mod Signs
pub mod Updates
pub mod Later
pub mod First
mod Tests
use connect_lib.Base.{
  ℕ, ◌+◌, ◌-◌, ◌*◌, ◌/◌, min, Bool, true, false, not, ◌&&◌, ◌||◌, Option, none, some, List, [], ◌∷◌,
  ◌++◌, leb, ltb, ◌==◌, if◌then◌else◌, is_some, or_else, length,
}
use connect_lib.Authorization.Names.{is_safe}
use connect_lib.Base.Bytes.{Bytes}
use connect_lib.Base.Dict.{lookup}
use connect_lib.Base.Text.{Text, codes, text_eq, text_eq_of}
use connect_lib.Voucher.Address.{is_valid_solana_address, is_solana_caip2}
use connect_lib.Voucher.Message.{ChannelVoucher, u64_max, i64_max, encode_channel_voucher}
use connect_lib.Voucher.Types.{
  ChannelVoucherPolicy, KeyStatus, ChannelBinding, BoundChannel, StoredKey, Sealed, ChannelPdaInput,
  Crypto, Failure, invalid_input, session_scope_exceeded, Result, ok, err, ◌>>=◌, ◌>>◌, fail_if,
  refuse_if, or_fail, ManagerConfig,
}

abbrev pub solana_channel_program : Text
solana_channel_program = codes "CHNLxYvVA28MJP9PrFuDXccuoGXAx7jBacfLEkahyGsX"

abbrev pub solana_mainnet : Text
solana_mainnet = codes "solana:5eykt4UsFv8P8NJdTREpY1vzqKqZKvdp"

abbrev pub solana_devnet : Text
solana_devnet = codes "solana:EtWTRABZaYq6iMfeYKouRu166VU2xqa1"

-- `TRUSTED_CHANNEL_PROGRAMS[cluster]?.address`
trusted_program : Text → Option Text
trusted_program cluster =
    if text_eq cluster solana_mainnet || text_eq cluster solana_devnet
    then some solana_channel_program
    else none

-- The program that a policy must name: the app's override, else the built-in pin.
unfoldable pub expected_program : ManagerConfig → Text → Option Text
unfolding trusted_program
expected_program config cluster = elim (lookup cluster config.channel_program_overrides) [
  | none ↦ trusted_program cluster
  | some address ↦ some address
]

-- `!expected || policy.channelProgram !== expected`
is_pinned : Option Text → Text → Bool
is_pinned none program = false
is_pinned (some []) program = false
is_pinned (some (c ∷ expected)) program = text_eq program (c ∷ expected)

unfoldable pub find_key : Text → List StoredKey → Option StoredKey
find_key id [] = none
find_key id (k ∷ ks) = if text_eq k.id id then some k else find_key id ks

-- The list with the object that `find` gave replaced.
unfoldable pub put_key : Text → StoredKey → List StoredKey → List StoredKey
put_key id k' [] = []
put_key id k' (k ∷ ks) = if text_eq k.id id then k' ∷ ks else k ∷ put_key id k' ks

unfoldable pub saved :
    {T : Type 0} → Text → List StoredKey → Result (T × StoredKey) → Result T × List StoredKey
saved id keys (err e) = (err e, keys)
saved id keys (ok (result, key)) = (ok result, put_key id key keys)

-- `update`: a change of one key under the locks
unfoldable pub update :
    {T : Type 0}
    → Text
    → (StoredKey → Result (T × StoredKey))
    → List StoredKey
    → Result T × List StoredKey
update id change keys = elim (find_key id keys) [
  | none ↦ (err (invalid_input "Channel voucher key not found."), keys)
  | some key ↦ saved id keys (change key)
]

abbrev pub sealed : StoredKey → Sealed
sealed k = record { id = k.id; address = k.address; policy = k.policy; channel = k.channel }

-- `info`: the status that the key shows
unfoldable pub shown_status : StoredKey → ℕ → KeyStatus
shown_status k now = elim k.status [
  | KeyStatus.active ↦
      if leb (k.policy.expiry * 1000) now then KeyStatus.expired else KeyStatus.active
  | KeyStatus.revoked ↦ KeyStatus.revoked
  | KeyStatus.expired ↦ KeyStatus.expired
]

is_active : KeyStatus → Bool
is_active KeyStatus.active = true
is_active _ = false

-- `open`
unfoldable pub unseal : Crypto → StoredKey → Result Bytes
unseal x k =
    or_fail (x.decrypt k.key_pair (sealed k))
      (invalid_input "The stored voucher key does not open: wrong password or altered record.")

abbrev pub pda_input : StoredKey → ChannelBinding → ChannelPdaInput
pda_input k b = record {
  payer = k.policy.payer;
  payee = k.policy.payee;
  mint = k.policy.mint;
  authorized_signer = k.address;
  salt = b.salt;
  open_slot = b.open_slot;
  program_address = k.policy.channel_program;
}

-- The limits that `create` checks of a policy.
unfoldable pub check_policy : ManagerConfig → ChannelVoucherPolicy → ℕ → Result (Unit {0})
unfolding is_pinned
check_policy config p now = do
  fail_if (not (is_solana_caip2 p.cluster)) "cluster is not a Solana CAIP-2 id."
  fail_if (not (is_valid_solana_address p.channel_program))
      "channelProgram is not a Solana address."
  fail_if (not (is_valid_solana_address p.payer)) "payer is not a Solana address."
  fail_if (not (is_valid_solana_address p.mint)) "mint is not a Solana address."
  fail_if (not (is_valid_solana_address p.payee)) "payee is not a Solana address."
  fail_if (not (is_pinned (expected_program config p.cluster) p.channel_program))
      "channelProgram is not pinned for this cluster."
  fail_if (p.price_per_unit == 0 || ltb u64_max p.price_per_unit)
      "pricePerUnit is not a positive u64."
  fail_if (p.max_cumulative == 0 || ltb u64_max p.max_cumulative)
      "maxCumulative is not a positive u64."
  fail_if (p.max_delta == 0 || ltb p.max_cumulative p.max_delta)
      "maxDelta must be positive and within maxCumulative."
  fail_if (not (is_safe p.expiry) || leb p.expiry (now / 1000) || ltb i64_max p.expiry)
      "expiry must be a future i64 Unix timestamp."

-- The key that `create` stores, for a fresh secret and a fresh id.
unfoldable pub new_key : Crypto → ChannelVoucherPolicy → Bytes → Text → ℕ → StoredKey
new_key x p secret id now =
    let address = x.encode58 (x.get_public_key secret) in
    record {
      id = id;
      address = address;
      policy = p;
      key_pair =
          x.encrypt secret (record { id = id; address = address; policy = p; channel = none });
      status = KeyStatus.active;
      channel = none;
      last_cumulative = 0;
      created_at = now;
    }

-- `create`
unfoldable pub create :
    Crypto
    → ManagerConfig
    → ChannelVoucherPolicy
    → Bytes
    → Text
    → ℕ
    → List StoredKey
    → Result StoredKey × List StoredKey
create x config p secret id now keys = elim (check_policy config p now) [
  | err e ↦ (err e, keys)
  | ok _ ↦ (ok (new_key x p secret id now), keys ++ new_key x p secret id now ∷ [])
]

-- The key once it is bound, with its secret sealed again.
abbrev pub bound : Crypto → StoredKey → ChannelBinding → Bytes → StoredKey
bound x k b secret =
    let channel : BoundChannel = record {
      binding = b;
      max_cumulative = min k.policy.max_cumulative b.deposit;
    } in
    record k {
      channel = some channel;
      key_pair =
          x.encrypt secret
            (record { id = k.id; address = k.address; policy = k.policy; channel = some channel });
    }

-- the change that `bindChannel` makes
unfoldable pub bind_change : Crypto → ChannelBinding → StoredKey → Result (Unit {0} × StoredKey)
bind_change x b k = do
  refuse_if (is_some k.channel) "The voucher key is already bound to a channel."
  fail_if (b.deposit == 0 || ltb u64_max b.deposit) "deposit is not a positive u64."
  refuse_if (not (text_eq (x.derive_channel_pda (pda_input k b)) b.channel_id))
      "channelId does not match the sealed channel identity."
  secret ← unseal x k
  ok (tt, bound x k b secret)

-- `bindChannel`
unfoldable pub bind_channel :
    Crypto → Text → ChannelBinding → List StoredKey → Result (Unit {0}) × List StoredKey
bind_channel x id b keys = update id (bind_change x b) keys

-- `SignedChannelVoucher`
pub record SignedVoucher : Type 0 where
  pub voucher : ChannelVoucher
  pub signature : Bytes

-- `signVoucher` of solana-channel.ts
unfoldable pub sign_channel_voucher : Crypto → Bytes → ChannelVoucher → Result Bytes
sign_channel_voucher x secret v = do
  fail_if (not (length secret == 32)) "voucher secretKey must be 32 bytes."
  message ← or_fail (encode_channel_voucher x.decode58 v) (invalid_input "voucher fields")
  ok (x.sign message secret)

abbrev pub next_voucher : StoredKey → BoundChannel → ℕ → ChannelVoucher
next_voucher k c amount = record {
  channel_id = c.channel_id;
  cumulative_amount = amount;
  expires_at = k.policy.expiry;
}

-- The tests on an amount: it must rise, and stay within the channel's budget. The source's
-- `lastCumulative > U64_MAX - delta` is over signed integers, so the difference is moved over.
unfoldable pub check_amount : StoredKey → BoundChannel → ℕ → Result ℕ
check_amount k c units = do
  refuse_if (units == 0 || ltb u64_max units) "units must be a positive u64."
  refuse_if (ltb (u64_max / k.policy.price_per_unit) units) "The voucher delta overflows u64."
  let delta = units * k.policy.price_per_unit
  refuse_if (ltb k.policy.max_delta delta) "The voucher delta exceeds maxDelta."
  refuse_if (ltb u64_max (k.last_cumulative + delta)) "The cumulative amount overflows u64."
  let amount = k.last_cumulative + delta
  refuse_if (leb amount k.last_cumulative) "The cumulative amount must strictly increase."
  refuse_if (ltb c.max_cumulative amount || ltb c.deposit c.max_cumulative)
      "The cumulative amount exceeds the channel budget."
  ok amount

-- the change that `signVoucher` makes to a bound key
unfoldable pub sign_bound :
    Crypto → Text → ℕ → StoredKey → BoundChannel → Result (SignedVoucher × StoredKey)
sign_bound x channel_id units k c = do
  refuse_if (not (text_eq channel_id c.channel_id)) "channelId does not match the bound channel."
  amount ← check_amount k c units
  secret ← unseal x k
  fail_if (not (text_eq (x.encode58 (x.get_public_key secret)) k.address))
      "The stored voucher key does not match its address."
  signature ← sign_channel_voucher x secret (next_voucher k c amount)
  ok (
    record { voucher = next_voucher k c amount; signature = signature },
    record k { last_cumulative = amount },
  )

-- the change that `signVoucher` makes
unfoldable pub sign_change : Crypto → Text → ℕ → ℕ → StoredKey → Result (SignedVoucher × StoredKey)
unfolding is_active
sign_change x channel_id units now k = do
  refuse_if (not (is_active k.status)) "The voucher key is not active."
  refuse_if (leb (k.policy.expiry * 1000) now) "The voucher key has expired."
  c ← or_fail k.channel (session_scope_exceeded "The voucher key is not bound to a channel.")
  sign_bound x channel_id units k c

-- `signVoucher`
unfoldable pub sign_voucher :
    Crypto → Text → Text → ℕ → ℕ → List StoredKey → Result SignedVoucher × List StoredKey
sign_voucher x id channel_id units now keys = update id (sign_change x channel_id units now) keys

-- `revoke`
unfoldable pub revoke : Text → List StoredKey → Result (Unit {0}) × List StoredKey
revoke id keys = update id (λ k. ok (tt, record k { status = KeyStatus.revoked })) keys
