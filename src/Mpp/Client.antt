-- ===== src/Mpp/Client.antt =====
-- session.ts: the state of a session client, its meter, and the requests over an open channel.
--
-- `Client` is what `createMppSessionFetch` closes over, with the keys that the key manager stores.
-- The calls come one after another, each of them to its end, so that `opening` is never seen by
-- another call. What the transport, the RPC and the signer answer is an argument. The base58 text
-- of a signature and the challenge that a credential repeats are left out. A `bigint` that the
-- code refuses below 1 is a natural number here.
pub mod Demand
pub mod Open
pub mod Offer
pub mod Ending
pub mod Run
pub mod Sound
pub mod Reached
pub mod Charges
pub mod Withdrawal
pub mod Opens
pub mod Authorized
use connect_lib.Base.{
  String, ℕ, ◌+◌, ◌-◌, Bool, true, false, not, ◌&&◌, ◌||◌, Option, none, some, List, [], ◌∷◌, leb,
  ltb, ◌==◌, if◌then◌else◌, is_some, or_else,
}
use connect_lib.Base.Text.{Text, codes, text_eq}
use connect_lib.Authorization.Names.{is_safe}
use connect_lib.Session.Types.{passed, thrown, ◌>>=◌, ◌>>◌}
use connect_lib.Voucher.Address.{is_valid_solana_address}
use connect_lib.Voucher.Message.{u64_max}
use connect_lib.Voucher.Types.{StoredKey, Crypto, Result, ok, err}
use connect_lib.Voucher.Manager.{SignedVoucher, sign_voucher}
use connect_lib.Mpp.Types.{
  MppSessionPolicy, MppOpenChannel, MppReceipt, PaidResponse, Outcome, mpp, key_manager, failed,
  fail_when, answered, present, invalid_challenge, invalid_input, payment_rejected,
}

-- `active`; the voucher is what `lastVoucher` was made of.
pub record Active : Type 0 where
  pub channel : MppOpenChannel
  pub key_id : Option Text
  pub key_address : Text
  pub last_voucher : Option SignedVoucher

pub record Client : Type 0 where
  pub pending_units : ℕ
  pub active : Option Active
  pub channels : List MppOpenChannel
  pub keys : List StoredKey

-- `MppSessionFetchResult`, less the response itself
pub record FetchResult : Type 0 where
  pub receipt : Option MppReceipt
  pub channel : Option MppOpenChannel

-- The test of the policy that `createMppSessionFetch` begins with.
unfoldable pub check_session_policy : MppSessionPolicy → Outcome (Unit {0})
check_session_policy p =
    fail_when
      (p.amount == 0
        || p.deposit == 0
        || p.max_cumulative == 0
        || ltb p.deposit p.max_cumulative
        || p.max_delta == 0
        || ltb p.max_cumulative p.max_delta
        || not (is_safe p.expires_at)
        || not (is_valid_solana_address p.mint))
      invalid_input "The session policy limits are invalid."

abbrev pub new_client : List StoredKey → Client
new_client keys = record { pending_units = 0; active = none; channels = []; keys = keys }

-- `meter.add`; the source's `pendingUnits > U64_MAX - units` is over signed integers, so the
-- difference is moved over.
unfoldable pub meter_add : ℕ → Client → Outcome (Unit {0}) × Client
meter_add units c =
    if units == 0 || ltb u64_max (c.pending_units + units)
    then (failed invalid_input "Meter units must be a positive u64.", c)
    else (passed tt, record c { pending_units = c.pending_units + units })

-- `receiptFor`
unfoldable pub receipt_for : Option MppReceipt → Text → Outcome MppReceipt
receipt_for none channel_id =
    failed invalid_challenge "The server did not return a matching Solana session receipt."
receipt_for (some r) channel_id =
    if text_eq r.method (codes "solana")
      && (text_eq r.intent (codes "session") && text_eq r.reference channel_id)
    then passed r
    else failed invalid_challenge "The server did not return a matching Solana session receipt."

-- `paidRequest`
unfoldable pub paid_request : Option PaidResponse → MppOpenChannel → Outcome FetchResult
unfolding receipt_for
paid_request answer channel = do
  response ← answered answer
  fail_when (response.status == 402) payment_rejected "The server rejected the session credential."
  receipt ← receipt_for response.receipt channel.channel_id
  passed (record { receipt = some receipt; channel = some channel })

-- `if (units === undefined) pendingUnits -= metered`, and its undoing
abbrev pub taken : Option ℕ → ℕ → ℕ → ℕ
taken none metered pending = pending - metered
taken (some units) metered pending = pending

abbrev pub put_back : Option ℕ → ℕ → ℕ → ℕ
put_back none metered pending = pending + metered
put_back (some units) metered pending = pending

-- What follows on the manager's answer: the voucher is kept and sent, or the units are put back.
unfoldable pub after_signing :
    Option ℕ
    → ℕ
    → Option PaidResponse
    → Active
    → Client
    → Result SignedVoucher
    → Outcome FetchResult × Client
unfolding paid_request
after_signing units metered answer a c (err e) =
    (thrown (key_manager e), record c { pending_units = put_back units metered c.pending_units })
after_signing units metered answer a c (ok signed) = (
  paid_request answer a.channel,
  record c { active = some (record a { last_voucher = some signed }) },
)

module _ (x : Crypto) (units : Option ℕ) (now_ms : ℕ) (answer : Option PaidResponse) where
  -- the voucher for some metered units
  unfoldable pub pay : ℕ → Active → Text → Client → Outcome FetchResult × Client
  unfolding after_signing
  pay metered a id c =
      let signed = sign_voucher x id a.channel.channel_id metered now_ms c.keys in
      after_signing units metered answer a
        (record c { pending_units = taken units metered c.pending_units; keys = signed.1 }) signed.0

  -- a request over a channel whose key is known, or not
  unfoldable pub fetch_keyed : Option Text → Active → Client → Outcome FetchResult × Client
  unfolding pay
  fetch_keyed none a c = (
    failed invalid_input "The channel open was not acknowledged; use forceClose for recovery.",
    c,
  )
  fetch_keyed (some id) a c =
      let metered = or_else units c.pending_units in
      if metered == 0
      then (failed invalid_input "No metered units were reported.", c)
      else pay metered a id c

  -- `performFetch` once `active` is set
  unfoldable pub fetch_active : Active → Client → Outcome FetchResult × Client
  unfolding fetch_keyed
  fetch_active a c = fetch_keyed a.key_id a c

-- The tests on `units` that `performFetch` begins with.
unfoldable pub check_units : Option ℕ → ℕ → Outcome (Unit {0})
check_units none pending = passed tt
check_units (some units) pending = do
  fail_when (units == 0) invalid_input "Request units must be a positive bigint."
  fail_when (not (pending == 0)) invalid_input "Use either request units or meter.add(), not both."

-- `channels.splice(index, 1)` of the first channel with an id
abbrev pub without_channel : Text → List MppOpenChannel → List MppOpenChannel
without_channel id [] = []
without_channel id (c ∷ cs) = if text_eq c.channel_id id then cs else c ∷ without_channel id cs
