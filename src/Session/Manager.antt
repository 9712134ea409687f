-- ===== src/Session/Manager.antt =====
-- SessionKeyManager.ts: the methods of the manager that read and change the stored keys.
--
-- The lock of a key is held through each method but `refreshCache`, and each is one step here. The
-- bundle and the cache in memory are left out: every method reads the store first.
pub mod Outcome
pub mod Redeemed
pub mod Kept
pub mod Refresh
pub mod Run
pub mod Paid
pub mod Signs
use connect_lib.Base.{
  ℕ, ◌*◌, ◌/◌, Bool, true, false, not, ◌&&◌, ◌||◌, Option, none, some, List, [], ◌∷◌, leb, ltb,
  ◌==◌, if◌then◌else◌, or_else, any, filter, map, is_some,
}
use connect_lib.Base.Dict.{Dict}
use connect_lib.Base.Hex.{is_hex_of}
use connect_lib.Base.Sets.{has}
use connect_lib.Base.Bytes.{Bytes}
use connect_lib.Base.Text.{Text, codes, text_eq, text_eq_of}
use connect_lib.Units.{value_from}
use connect_lib.Authorization.Names.{is_evm_address}
use connect_lib.Session.Types.{
  SessionKeyRail, session_rail_eq, Mode, same_mode, SessionKeyScope, SessionKeyTransaction,
  SignedAuthorization, EncryptedKeyPair, SessionKeyStatus, StoredSessionKey, SessionKeyError,
  Checked, passed, thrown, ◌>>=◌, ◌>>◌, refuse_when,
}
use connect_lib.Session.Number.{entry_of, same_address, is_filled}
use connect_lib.Session.Store.{get, save, update_status}
use connect_lib.Session.Sign.{
  Vault, has_valid_rails, status_error, marked, refuse_raw_digest, sign_stored, sign_raw, opened,
}
use connect_lib.Session.TypedData.{
  TypedDataRequest, is_valid_request, typed_data_as_transaction, typed_data_digest,
}
use connect_lib.Session.Create.{is_account, is_zero_address, zero_address}

pub record Usage : Type 0 where
  pub value_spent : ℕ
  pub token_spent : Dict Text ℕ
  pub tx_count : ℕ

-- `SessionKeyInfo`
pub record SessionKeyInfo : Type 0 where
  pub id : Text
  pub public_key : Text
  pub scope : SessionKeyScope
  pub status : SessionKeyStatus
  pub created_at : ℕ
  pub expires_at : ℕ
  pub use_count : ℕ
  pub signer_address : Text
  pub authorized : Bool
  pub authorization_type : Mode
  pub authorization_message : Option Text
  pub usage : Option Usage

-- `toSessionKeyInfo`; a record of token spends that is empty is taken for an absent one.
unfoldable pub to_session_key_info : StoredSessionKey → SessionKeyInfo
to_session_key_info k = record {
  id = k.id;
  public_key = k.key_pair.public_key;
  scope = k.scope;
  status = k.status;
  created_at = k.created_at;
  expires_at = k.scope.expiry * 1000;
  use_count = k.use_count;
  signer_address = k.authorization.signer_address;
  authorized = is_filled k.authorization.raw_signature || is_filled k.authorization.authorization;
  authorization_type = k.authorization.type;
  authorization_message = k.authorization.message;
  usage =
      if is_some k.accumulated_value || is_filled k.accumulated_token_spends
      then some (record {
        value_spent = or_else k.accumulated_value 0;
        token_spent = k.accumulated_token_spends;
        tx_count = k.use_count;
      })
      else none;
}

-- `verifyStoredOffchainAuthorization`; `verify` gives `none` where it throws.
unfoldable pub verify_stored : (Text → Text → Text → Option Bool) → Text → StoredSessionKey → Bool
verify_stored verify expected k =
    has_valid_rails k.scope.rails
    && (same_mode k.authorization.type Mode.offchain
        && (elim k.authorization.message [ none ↦ false | some m ↦ text_eq m expected ]
            && (is_hex_of 130 k.authorization.raw_signature
                && (is_account k.authorization.signer_address
                    && or_else
                        (verify expected k.authorization.raw_signature
                          k.authorization.signer_address)
                        false))))

-- The owner's check: the message that a policy should have, and the verifier of its signature.
pub record OffchainPolicy : Type 0 where
  pub build_expected_message : SessionKeyInfo → Text
  pub verify : Text → Text → Text → Option Bool

unfoldable pub is_verified : OffchainPolicy → StoredSessionKey → Bool
is_verified p k = verify_stored p.verify (p.build_expected_message (to_session_key_info k)) k

abbrev pub SignResult : Type 0
SignResult = Checked SessionKeyError Text × List StoredSessionKey

-- What a revalidated policy may go on to do.
unfoldable pub when_verified :
    OffchainPolicy → StoredSessionKey → ℕ → List StoredSessionKey → SignResult → SignResult
when_verified p k now keys next = elim (status_error k now) [
  | some e ↦ (thrown e, marked k now keys)
  | none ↦ if is_verified p k then next else (thrown SessionKeyError.invalid_input, keys)
]

-- `EIP3009_RAILS.includes(rail)`
abbrev pub is_eip3009 : SessionKeyRail → Bool
is_eip3009 SessionKeyRail.transfer = false
is_eip3009 SessionKeyRail.x402_exact = true
is_eip3009 SessionKeyRail.mpp_charge = true

-- `typedDataToScopedTransaction`: its tests. `session_key_address` derives an address from a key.
unfoldable pub check_typed_data :
    (Text → Text)
    → StoredSessionKey
    → TypedDataRequest
    → SessionKeyRail
    → ℕ
    → Checked SessionKeyError (Unit {0})
check_typed_data session_key_address k r rail now = do
  refuse_when (not (is_valid_request r)) SessionKeyError.invalid_input
  refuse_when (not (is_eip3009 rail && has rail k.scope.rails)) SessionKeyError.rails_refused
  refuse_when (not (is_some (entry_of r.verifying_contract k.scope.token_allowances)))
      SessionKeyError.invalid_input
  refuse_when (not (same_address r.from (session_key_address k.key_pair.public_key)))
      SessionKeyError.invalid_input
  refuse_when (leb (value_from 0 r.valid_before) now) SessionKeyError.invalid_input
  refuse_when (ltb k.scope.expiry (value_from 0 r.valid_before)) SessionKeyError.invalid_input
  refuse_when (leb (value_from 0 r.valid_before) (value_from 0 r.valid_after))
      SessionKeyError.invalid_input

module _ (x : Vault) (keccak : Bytes → Bytes) (session_key_address : Text → Text) where
  unfoldable pub sign_typed_data :
      StoredSessionKey → TypedDataRequest → SessionKeyRail → ℕ → List StoredSessionKey → SignResult
  sign_typed_data k r rail now_ms keys =
      if same_mode k.scope.mode Mode.eip7702
      then (thrown SessionKeyError.raw_digest_refused, keys)
      else elim (check_typed_data session_key_address k r rail (now_ms / 1000)) [
        | thrown e ↦ (thrown e, keys)
        | passed _ ↦
            sign_stored x k (typed_data_digest keccak r) (typed_data_as_transaction r) now_ms keys
      ]

  -- `signTypedDataWithSessionKey`
  unfoldable pub sign_typed_data_with_session_key :
      Text → TypedDataRequest → SessionKeyRail → ℕ → List StoredSessionKey → SignResult
  sign_typed_data_with_session_key id r rail now_ms keys = elim (get id keys) [
    | none ↦ (thrown SessionKeyError.not_found, keys)
    | some k ↦ sign_typed_data k r rail now_ms keys
  ]

  -- `signTypedDataWithVerifiedOffchainAuthorization`
  unfoldable pub sign_typed_data_verified :
      Text
      → OffchainPolicy
      → TypedDataRequest
      → SessionKeyRail
      → ℕ
      → List StoredSessionKey
      → SignResult
  sign_typed_data_verified id p r rail now_ms keys = elim (get id keys) [
    | none ↦ (thrown SessionKeyError.not_found, keys)
    | some k ↦ when_verified p k (now_ms / 1000) keys (sign_typed_data k r rail now_ms keys)
  ]

  -- `signWithVerifiedOffchainAuthorization`
  unfoldable pub sign_verified :
      Text → OffchainPolicy → Text → SessionKeyTransaction → ℕ → List StoredSessionKey → SignResult
  sign_verified id p hash tx now_ms keys =
      if not (is_hex_of 64 hash)
      then (thrown SessionKeyError.invalid_input, keys)
      else elim (get id keys) [
        | none ↦ (thrown SessionKeyError.not_found, keys)
        | some k ↦ when_verified p k (now_ms / 1000) keys (sign_raw x k hash tx now_ms keys)
      ]

-- `setAuthorization`: its tests
unfoldable pub check_authorization :
    StoredSessionKey → SignedAuthorization → Checked SessionKeyError (Unit {0})
check_authorization k a = do
  refuse_when
      (not (same_mode a.type k.scope.mode)
        || (not (is_account a.signer_address)
            || (not (text_eq k.authorization.signer_address zero_address)
                && not (same_address a.signer_address k.authorization.signer_address))))
      SessionKeyError.invalid_input
  refuse_when (same_mode a.type Mode.eip7702) SessionKeyError.invalid_input
  refuse_when (same_mode a.type Mode.offchain && not (is_hex_of 130 a.raw_signature))
      SessionKeyError.invalid_input

abbrev pub Changed : Type 0
Changed = Checked SessionKeyError (Unit {0}) × List StoredSessionKey

-- `setAuthorization`
unfoldable pub set_authorization : Text → SignedAuthorization → List StoredSessionKey → Changed
set_authorization id a keys = elim (get id keys) [
  | none ↦ (thrown SessionKeyError.not_found, keys)
  | some k ↦ elim (check_authorization k a) [
    | thrown e ↦ (thrown e, keys)
    | passed _ ↦ (passed tt, save (record k { authorization = a }) keys)
  ]
]

-- `revokeSession`
unfoldable pub revoke_session : Text → List StoredSessionKey → Changed
revoke_session id keys = update_status id SessionKeyStatus.revoked keys

-- The status of a key that `refreshCache` has loaded.
unfoldable pub refreshed : ℕ → StoredSessionKey → StoredSessionKey
refreshed now k = elim k.status [
  | SessionKeyStatus.active ↦
      if leb k.scope.expiry now then record k { status = SessionKeyStatus.expired } else k
  | SessionKeyStatus.revoked ↦ k
  | SessionKeyStatus.expired ↦ k
]

abbrev pub is_expired : SessionKeyStatus → Bool
is_expired SessionKeyStatus.expired = true
is_expired _ = false

abbrev pub is_active : SessionKeyStatus → Bool
is_active SessionKeyStatus.active = true
is_active _ = false

unfoldable pub save_expired : List StoredSessionKey → List StoredSessionKey → List StoredSessionKey
save_expired [] keys = keys
save_expired (k ∷ ks) keys = save_expired ks (if is_expired k.status then save k keys else keys)

abbrev pub expires_now : ℕ → StoredSessionKey → Bool
expires_now now k = is_active k.status && leb k.scope.expiry now

-- `refreshCache`: the keys that it gives, and the store. It is one step here: the code loads all
-- keys and then saves the expired ones without their locks, so that other calls may come between.
unfoldable pub refresh_cache :
    ℕ → List StoredSessionKey → List StoredSessionKey × List StoredSessionKey
refresh_cache now keys =
    let loaded : List StoredSessionKey = map (refreshed now) keys in
    (loaded, if any (expires_now now) keys then save_expired loaded keys else keys)

-- `listSessions`
unfoldable pub list_sessions :
    ℕ → List StoredSessionKey → List SessionKeyInfo × List StoredSessionKey
list_sessions now keys =
    let (loaded, keys') = refresh_cache now keys in (map to_session_key_info loaded, keys')

-- `listActiveSessions`
unfoldable pub list_active_sessions :
    ℕ → List StoredSessionKey → List SessionKeyInfo × List StoredSessionKey
list_active_sessions now keys =
    let (loaded, keys') = refresh_cache now keys in
    (map to_session_key_info (filter (λ (k : StoredSessionKey). is_active k.status) loaded), keys')

-- `getSessionBundle`: the private key
unfoldable pub get_session_bundle : Vault → Text → ℕ → List StoredSessionKey → SignResult
get_session_bundle x id now keys = elim (get id keys) [
  | none ↦ (thrown SessionKeyError.not_found, keys)
  | some k ↦ elim (status_error k now) [
    | some e ↦ (thrown e, marked k now keys)
    | none ↦ (refuse_raw_digest k >>= λ _. opened (x.decrypt k.key_pair), keys)
  ]
]
