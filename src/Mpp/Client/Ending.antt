-- ===== src/Mpp/Client/Ending.antt =====
-- session.ts: `close`, `forceClose` and the withdrawal that follows a forced close.
use connect_lib.Base.{
  ℕ, ◌+◌, ◌^◌, Bool, true, false, ◌&&◌, Option, none, some, List, [], ◌∷◌, ltb, leb, ◌==◌,
  if◌then◌else◌, length, take, drop, get_elem?, or_else,
}
use connect_lib.Base.Bytes.{Bytes, from_le}
use connect_lib.Base.Text.{Text}
use connect_lib.Session.Types.{passed, thrown, ◌>>=◌}
use connect_lib.Voucher.Types.{StoredKey, Result, ok, err}
use connect_lib.Voucher.Manager.{SignedVoucher, revoke}
use connect_lib.Mpp.Types.{
  MppOpenChannel, MppSessionSettlementBinding, PaidResponse, Outcome, key_manager, outside, failed,
  answered, present, invalid_input,
}
use connect_lib.Mpp.Client.{Active, Client, FetchResult, paid_request, without_channel}

-- What a channel should settle for, by the last voucher.
unfoldable pub settlement_binding :
    MppOpenChannel → Option SignedVoucher → Bool → MppSessionSettlementBinding
settlement_binding ch last forced = record {
  cluster = ch.cluster;
  channel_id = ch.channel_id;
  channel_program = ch.channel_program;
  expected_settled = elim last [ none ↦ 0 | some signed ↦ signed.voucher.cumulative_amount ];
  after_forced_close = forced;
}

-- The client once a channel has ended. A channel leaves the list by its object, which is the only
-- one with its id.
abbrev pub ended : MppOpenChannel → List StoredKey → Client → Client
ended ch keys c = record c {
  active = none;
  channels = without_channel ch.channel_id c.channels;
  keys = keys;
}

-- what follows on the manager's answer to the revocation
unfoldable pub after_revocation :
    {A : Type 0}
    → MppOpenChannel
    → A
    → Client
    → Result (Unit {0}) × List StoredKey
    → Outcome A × Client
after_revocation ch result c (err e, keys) = (thrown (key_manager e), record c { keys = keys })
after_revocation ch result c (ok _, keys) = (passed result, ended ch keys c)

-- The revocation of the channel's key, and the end of the channel unless that throws.
unfoldable pub revoke_and_end :
    {A : Type 0} → Text → MppOpenChannel → A → Client → Outcome A × Client
unfolding after_revocation
revoke_and_end id ch result c = after_revocation ch result c (revoke id c.keys)

-- What may be closed: an acknowledged channel that has a voucher.
unfoldable pub closable : Option Active → Outcome (Active × Text × SignedVoucher)
closable none = failed invalid_input "There is no open channel."
closable (some a) = do
  id ←
      present a.key_id invalid_input
        "The channel open was not acknowledged; use forceClose for recovery."
  final ← present a.last_voucher invalid_input "A final voucher is required before close."
  passed (a, id, final)

-- the end of a channel whose server has acknowledged the final voucher
unfoldable pub end_paid :
    Active
    → Text
    → SignedVoucher
    → Client
    → Outcome FetchResult
    → Outcome (FetchResult × MppSessionSettlementBinding) × Client
unfolding settlement_binding revoke_and_end
end_paid a id final c (thrown e) = (thrown e, c)
end_paid a id final c (passed result) =
    revoke_and_end id a.channel (result, settlement_binding a.channel (some final) false) c

-- `close` of what may be closed
unfoldable pub close_chosen :
    Option PaidResponse
    → Client
    → Outcome (Active × Text × SignedVoucher)
    → Outcome (FetchResult × MppSessionSettlementBinding) × Client
unfolding end_paid paid_request
close_chosen answer c (thrown e) = (thrown e, c)
close_chosen answer c (passed (a, id, final)) =
    end_paid a id final c (paid_request answer a.channel)

-- `close`
unfoldable pub close :
    Option PaidResponse → Client → Outcome (FetchResult × MppSessionSettlementBinding) × Client
unfolding closable close_chosen
close answer c = close_chosen answer c (closable c.active)

-- What follows the closing transaction: a key that is left is revoked, and the channel ends.
unfoldable pub end_forced :
    Option Text
    → MppOpenChannel
    → Text × MppSessionSettlementBinding
    → Client
    → Outcome (Text × MppSessionSettlementBinding) × Client
unfolding revoke_and_end
end_forced none ch result c = (passed result, ended ch c.keys c)
end_forced (some id) ch result c = revoke_and_end id ch result c

-- `forceClose` of an open channel
unfoldable pub force_active :
    Bool → Option Text → Active → Client → Outcome (Text × MppSessionSettlementBinding) × Client
unfolding end_forced settlement_binding
force_active false hash a c =
    (failed invalid_input "forceClose requires app-supplied sendTransaction.", c)
force_active true none a c = (thrown outside, c)
force_active true (some h) a c =
    end_forced a.key_id a.channel (h, settlement_binding a.channel a.last_voucher true) c

-- `forceClose`, where the app supplies `sendTransaction` or does not; the hash of the closing
-- transaction is absent where the RPC, the signer or the transport throws.
unfoldable pub force_chosen :
    Bool
    → Option Text
    → Client
    → Option Active
    → Outcome (Text × MppSessionSettlementBinding) × Client
unfolding force_active
force_chosen can_send hash c none = (failed invalid_input "There is no open channel.", c)
force_chosen can_send hash c (some a) = force_active can_send hash a c

unfoldable pub force_close :
    Bool → Option Text → Client → Outcome (Text × MppSessionSettlementBinding) × Client
unfolding force_chosen
force_close can_send hash c = force_chosen can_send hash c c.active

-- `getBigInt64(36, true)`: the bits, of which 2^64 is to be taken away where they stand for a
-- number below 0.
abbrev pub started_bits : Bytes → ℕ
started_bits account = from_le (take 8 (drop 36 account))

abbrev pub debt : ℕ → ℕ
debt bits = if ltb bits (2 ^ 63) then 0 else 2 ^ 64

-- `readClosingChannel`: the bits of the time at which the closure began; none on status 1.
unfoldable pub read_closing_channel : Option Bytes → Outcome (Option ℕ)
unfolding from_le
read_closing_channel none = failed invalid_input "Channel missing."
read_closing_channel (some account) =
    let status = or_else (get_elem? account 3) 0 in
    if ltb 3 (length account) && (status == 1)
    then passed none
    else if ltb 3 (length account) && (status == 2 && leb 44 (length account))
    then passed (some (started_bits account))
    else failed invalid_input "Unknown status."

-- Whether the grace period of a closure that began at `bits` still runs:
-- `now < closureStartedAt + gracePeriodSeconds`.
unfoldable pub is_in_grace : ℕ → ℕ → ℕ → Bool
is_in_grace bits grace now = ltb (now + debt bits) (bits + grace)

-- The transactions of a withdrawal.
pub data ChannelTransaction : Type 0 where
  seal withdraw_payer : ChannelTransaction

-- The sealing of a channel that is still closing. It answers the transactions sent so far.
unfoldable pub seal_closing :
    MppOpenChannel → ℕ → Bool → Option ℕ → Outcome (List ChannelTransaction)
unfolding is_in_grace
seal_closing ch now sealed none = passed []
seal_closing ch now sealed (some bits) =
    if is_in_grace bits ch.grace_period_seconds now
    then failed invalid_input "grace period has not elapsed"
    else if sealed
    then passed (seal ∷ [])
    else thrown outside

-- `withdrawPayer`: the channel's account as the RPC gives it (absent where that throws), the time
-- in seconds, whether each of the two transactions is signed and sent.
unfoldable pub withdraw :
    MppOpenChannel → Option (Option Bytes) → ℕ → Bool → Bool → Outcome (List ChannelTransaction)
unfolding read_closing_channel seal_closing
withdraw ch account now sealed withdrawn = do
  found ← answered account
  started ← read_closing_channel found
  before ← seal_closing ch now sealed started
  if withdrawn then passed (withdraw_payer ∷ before) else thrown outside
