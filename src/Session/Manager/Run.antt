-- ===== src/Session/Manager/Run.antt =====
-- SessionKeyManager.ts: any sequence of calls, and the transactions that its
-- successful signing calls under one key id were given. `refreshCache` is one step here; the code
-- loads and saves key by key outside the lock of a key, so that calls may come between.
pub mod Steps
pub mod Within
pub mod Revoked
pub mod Refused
use connect_lib.Base.{
  ℕ, ◌+◌, ◌/◌, ◌≡◌, Bool, true, false, Option, none, some, List, [], ◌∷◌, if◌then◌else◌,
}
use connect_lib.Base.Bytes.{Bytes}
use connect_lib.Base.Text.{Text, text_eq}
use connect_lib.Session.Types.{
  SessionKeyRail, SessionKeyScope, SessionKeyTransaction, SignedAuthorization, EncryptedKeyPair,
  StoredSessionKey, OutOfScope, Checked, passed, thrown,
}
use connect_lib.Session.Number.{amount_field, amount_or_zero, same_address}
use connect_lib.Session.Token.{TokenSpend, decode_scoped_token_spend}
use connect_lib.Session.Sign.{Vault, sign_with_session_key}
use connect_lib.Session.TypedData.{TypedDataRequest, typed_data_as_transaction}
use connect_lib.Session.Delegation.{
  FrameworkExecution, redemption_transaction, sign_delegation_redemption,
}
use connect_lib.Session.Create.{SessionKeyConfig, PartialScope, create_session_key}
use connect_lib.Session.Manager.{
  SignResult, OffchainPolicy, sign_typed_data_with_session_key, sign_typed_data_verified,
  sign_verified, set_authorization, revoke_session, refresh_cache, get_session_bundle,
}

-- A call that asks for a signature.
pub data SignCall : Type 0 where
  raw : Text → Text → SessionKeyTransaction → SignCall
  verified : Text → OffchainPolicy → Text → SessionKeyTransaction → SignCall
  typed : Text → TypedDataRequest → SessionKeyRail → SignCall
  typed_verified : Text → OffchainPolicy → TypedDataRequest → SessionKeyRail → SignCall
  redeems : Text → Text → SessionKeyTransaction → FrameworkExecution → SignCall

-- The id of the key that is asked, and the transaction that is checked and counted.
abbrev pub call_id : SignCall → Text
call_id (raw id hash tx) = id
call_id (verified id p hash tx) = id
call_id (typed id r rail) = id
call_id (typed_verified id p r rail) = id
call_id (redeems id digest outer e) = id

abbrev pub call_transaction : SignCall → SessionKeyTransaction
call_transaction (raw id hash tx) = tx
call_transaction (verified id p hash tx) = tx
call_transaction (typed id r rail) = typed_data_as_transaction r
call_transaction (typed_verified id p r rail) = typed_data_as_transaction r
call_transaction (redeems id digest outer e) = redemption_transaction outer.chain_id outer e

-- A call of the manager, with the fresh pair of keys and the fresh id that a creation draws.
pub data Call : Type 0 where
  signs : SignCall → Call
  authorizes : Text → SignedAuthorization → Call
  creates : SessionKeyConfig → PartialScope → Option Text → EncryptedKeyPair → Text → Call
  revokes exports : Text → Call
  refreshes clears : Call

abbrev pub State : Type 0
State = List StoredSessionKey × List SessionKeyTransaction

-- The transactions that the successful signing calls under `id` were given, the newest first, after
-- one more result.
abbrev pub logged :
    Text → Text → SessionKeyTransaction → List SessionKeyTransaction → SignResult → State
logged id j tx log (thrown e, keys) = (keys, log)
logged id j tx log (passed s, keys) = (keys, if text_eq j id then tx ∷ log else log)

module _ (x : Vault) (keccak : Bytes → Bytes) (session_key_address : Text → Text) where
  unfoldable pub answer : ℕ → SignCall → List StoredSessionKey → SignResult
  answer now (raw j hash tx) keys = sign_with_session_key x j hash tx now keys
  answer now (verified j p hash tx) keys =
      sign_verified x keccak session_key_address j p hash tx now keys
  answer now (typed j r rail) keys =
      sign_typed_data_with_session_key x keccak session_key_address j r rail now keys
  answer now (typed_verified j p r rail) keys =
      sign_typed_data_verified x keccak session_key_address j p r rail now keys
  answer now (redeems j digest outer e) keys =
      sign_delegation_redemption keccak x j digest outer e now keys

module _ (x : Vault) (keccak : Bytes → Bytes) (session_key_address : Text → Text) (id : Text) where
  -- One call at a time, in milliseconds: the stored keys, and the transactions logged for `id`.
  unfoldable pub step : ℕ → Call → State → State
  step now (signs c) (keys, log) =
      logged id (call_id c) (call_transaction c) log
        (answer x keccak session_key_address now c keys)
  step now (authorizes j a) (keys, log) = ((set_authorization j a keys).1, log)
  step now (creates config s signer pair j) (keys, log) =
      ((create_session_key config s signer pair j now keys).1, log)
  step now (revokes j) (keys, log) = ((revoke_session j keys).1, log)
  step now (exports j) (keys, log) = ((get_session_bundle x j (now / 1000) keys).1, log)
  step now refreshes (keys, log) = ((refresh_cache (now / 1000) keys).1, log)
  step now clears (keys, log) = ([], log)

  unfoldable pub run : List (ℕ × Call) → State → State
  run [] s = s
  run ((now, call) ∷ calls) s = run calls (step now call s)

-- No call creates another key of that id.
abbrev pub IsOther : Text → Call → Type 0
IsOther id (creates config s signer pair j) = text_eq j id ≡ false
IsOther id _ = Unit

abbrev pub AreOther : Text → List (ℕ × Call) → Type 0
AreOther id [] = Unit
AreOther id ((now, call) ∷ calls) = IsOther id call × AreOther id calls

-- What the transactions of a list move together.
unfoldable pub value_total : List SessionKeyTransaction → ℕ
value_total [] = 0
value_total (tx ∷ log) = amount_or_zero (amount_field tx.value) + value_total log

unfoldable pub gas_total : List SessionKeyTransaction → ℕ
gas_total [] = 0
gas_total (tx ∷ log) = amount_or_zero (amount_field tx.gas) + gas_total log

abbrev pub token_part : Text → Checked OutOfScope (Option TokenSpend) → ℕ
token_part address (thrown e) = 0
token_part address (passed none) = 0
token_part address (passed (some s)) = if same_address s.token_address address then s.amount else 0

unfoldable pub token_total : SessionKeyScope → Text → List SessionKeyTransaction → ℕ
token_total scope address [] = 0
token_total scope address (tx ∷ log) =
    token_part address (decode_scoped_token_spend scope tx) + token_total scope address log
