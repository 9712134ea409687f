-- ===== src/Session/Sign.antt =====
-- SessionKeyManager.ts: the signing of a stored key.
--
-- A fire-and-forget update of the status is a change of the store.
use connect_lib.Base.{
  ℕ, ◌+◌, ◌/◌, Bool, false, not, ◌&&◌, ◌||◌, Option, none, some, List, [], ◌++◌, leb, if◌then◌else◌,
  or_else, drop,
}
use connect_lib.Base.Bytes.{Bytes}
use connect_lib.Base.Hex.{is_hex_of, hex_byte, hex_bytes}
use connect_lib.Base.Sets.{has}
use connect_lib.Base.Text.{Text, codes}
use connect_lib.Authorization.Types.{is_distinct}
use connect_lib.Session.Types.{
  SessionKeyRail, session_rail_eq, Mode, same_mode, SessionKeyTransaction, EncryptedKeyPair,
  StoredSessionKey, SessionKeyStatus, OutOfScope, SessionKeyError, Checked, passed, thrown, ◌>>=◌,
  ◌>>◌, refuse_when, scope_exceeded, Remaining,
}
use connect_lib.Session.Number.{is_filled}
use connect_lib.Session.Token.{TokenSpend, decode_scoped_token_spend}
use connect_lib.Session.Check.{
  Usage, PeriodSpend, check_scope_against_tx, period_usage_for, is_used_up,
}
use connect_lib.Session.Store.{get, update_status, increment_usage}

-- The cryptography, and what the configuration says: the signature of a hash, both as bytes of hex
-- text, has its recovery first.
pub record Vault : Type 0 where
  pub decrypt : EncryptedKeyPair → Option Text
  pub sign : Text → Text → ℕ × Bytes
  pub forbidden_methods : List Text
  pub unsafe_allow_unauthorized_signing : Bool

-- `hasValidSessionKeyRails`
unfoldable pub has_valid_rails : List SessionKeyRail → Bool
has_valid_rails rails = is_filled rails && is_distinct rails

-- The test and the effect of `validateSessionStatus`.
unfoldable pub status_error : StoredSessionKey → ℕ → Option SessionKeyError
status_error key now = elim key.status [
  | SessionKeyStatus.revoked ↦ some SessionKeyError.revoked_key
  | SessionKeyStatus.expired ↦ some SessionKeyError.expired_key
  | SessionKeyStatus.active ↦
      if not (has_valid_rails key.scope.rails)
      then some SessionKeyError.rails_refused
      else if leb key.scope.expiry now
      then some SessionKeyError.expired_key
      else if is_used_up key.scope.max_tx_count key.use_count
      then some SessionKeyError.max_tx_count_exceeded
      else none
]

unfoldable pub is_just_expired : StoredSessionKey → ℕ → Bool
is_just_expired key now = elim key.status [
  | SessionKeyStatus.revoked ↦ false
  | SessionKeyStatus.expired ↦ false
  | SessionKeyStatus.active ↦ has_valid_rails key.scope.rails && leb key.scope.expiry now
]

unfoldable pub marked : StoredSessionKey → ℕ → List StoredSessionKey → List StoredSessionKey
marked key now keys =
    if is_just_expired key now then (update_status key.id SessionKeyStatus.expired keys).1 else keys

-- `refuseRawDigestForRecipientScope`
unfoldable pub refuse_raw_digest : StoredSessionKey → Checked SessionKeyError (Unit {0})
refuse_raw_digest key = do
  refuse_when (not (has_valid_rails key.scope.rails)) SessionKeyError.rails_refused
  refuse_when (same_mode key.scope.mode Mode.eip7702) SessionKeyError.raw_digest_refused
  refuse_when (is_filled key.scope.allowed_recipients) SessionKeyError.raw_digest_refused
  refuse_when
      (has SessionKeyRail.x402_exact key.scope.rails
        || has SessionKeyRail.mpp_charge key.scope.rails)
      SessionKeyError.raw_digest_refused

abbrev pub usage_of : StoredSessionKey → Usage
usage_of key = record {
  use_count = key.use_count;
  value = or_else key.accumulated_value 0;
  gas = or_else key.accumulated_gas 0;
  token_spends = key.accumulated_token_spends;
  periods = key.period_usage;
}

-- The throw of a scope's refusal.
abbrev pub in_scope : {A : Type 0} → Checked OutOfScope A → Checked SessionKeyError A
in_scope (passed a) = passed a
in_scope (thrown e) = thrown (scope_exceeded e)

unfoldable pub signature_text : ℕ × Bytes → Text
signature_text (recovery, compact) = codes "0x" ++ (hex_bytes compact ++ hex_byte (recovery + 27))

unfoldable pub is_unauthorized : Vault → StoredSessionKey → Bool
is_unauthorized x key =
    not x.unsafe_allow_unauthorized_signing
    && (not (is_filled key.authorization.raw_signature)
        && not (is_filled key.authorization.authorization))

-- A signature, and what is then counted.
pub record Signing : Type 0 where
  pub signature : Text
  pub token_spend : Option TokenSpend
  pub period : Option PeriodSpend

unfoldable pub opened : {A : Type 0} → Option A → Checked SessionKeyError A
opened none = thrown SessionKeyError.decryption_failed
opened (some a) = passed a

-- The signature, once its usage is counted.
unfoldable pub handed_out :
    Text
    → Checked SessionKeyError (Unit {0}) × List StoredSessionKey
    → Checked SessionKeyError Text × List StoredSessionKey
handed_out signature (thrown e, keys) = (thrown e, keys)
handed_out signature (passed _, keys) = (passed signature, keys)

module _ (x : Vault) where
  -- What follows the check of the status, up to the count of the usage; `now` is in seconds.
  unfoldable pub sign_active :
      StoredSessionKey → Text → SessionKeyTransaction → ℕ → Checked SessionKeyError Signing
  sign_active key hash tx now = do
    refuse_when (is_unauthorized x key) SessionKeyError.invalid_input
    in_scope (check_scope_against_tx x.forbidden_methods now key.scope tx (usage_of key)) >>= λ _.
        opened (x.decrypt key.key_pair) >>= λ secret.
        in_scope (decode_scoped_token_spend key.scope tx) >>= λ spend.
        in_scope (period_usage_for now key.scope tx key.period_usage spend) >>= λ period.
        passed (record {
          signature = signature_text (x.sign (drop 2 hash) (drop 2 secret));
          token_spend = spend;
          period = period;
        })

  unfoldable pub counted :
      Text
      → SessionKeyTransaction
      → ℕ
      → List StoredSessionKey
      → Checked SessionKeyError Signing
      → Checked SessionKeyError Text × List StoredSessionKey
  counted id tx now_ms keys (thrown e) = (thrown e, keys)
  counted id tx now_ms keys (passed s) =
      handed_out s.signature (increment_usage id now_ms tx s.token_spend s.period keys)

  -- `signStoredSessionKey`, at a time in milliseconds
  unfoldable pub sign_stored :
      StoredSessionKey
      → Text
      → SessionKeyTransaction
      → ℕ
      → List StoredSessionKey
      → Checked SessionKeyError Text × List StoredSessionKey
  sign_stored key hash tx now_ms keys =
      if not (is_hex_of 64 hash)
      then (thrown SessionKeyError.invalid_input, keys)
      else elim (status_error key (now_ms / 1000)) [
        | some e ↦ (thrown e, marked key (now_ms / 1000) keys)
        | none ↦ counted key.id tx now_ms keys (sign_active key hash tx (now_ms / 1000))
      ]

  unfoldable pub sign_raw :
      StoredSessionKey
      → Text
      → SessionKeyTransaction
      → ℕ
      → List StoredSessionKey
      → Checked SessionKeyError Text × List StoredSessionKey
  sign_raw key hash tx now_ms keys = elim (refuse_raw_digest key) [
    | thrown e ↦ (thrown e, keys)
    | passed _ ↦ sign_stored key hash tx now_ms keys
  ]

  -- `signWithSessionKey`
  unfoldable pub sign_with_session_key :
      Text
      → Text
      → SessionKeyTransaction
      → ℕ
      → List StoredSessionKey
      → Checked SessionKeyError Text × List StoredSessionKey
  sign_with_session_key id hash tx now_ms keys = elim (get id keys) [
    | none ↦ (thrown SessionKeyError.not_found, keys)
    | some key ↦ sign_raw key hash tx now_ms keys
  ]

  -- `checkSessionScope`, of a key that is there
  unfoldable pub check_stored :
      StoredSessionKey → SessionKeyTransaction → ℕ → Checked SessionKeyError Remaining
  check_stored key tx now = elim (status_error key now) [
    | some e ↦ thrown e
    | none ↦ in_scope (
        check_scope_against_tx x.forbidden_methods now key.scope tx
          (record (usage_of key) { periods = [] }))
  ]

  unfoldable pub check_session_scope :
      Text → SessionKeyTransaction → ℕ → List StoredSessionKey → Checked SessionKeyError Remaining
  check_session_scope id tx now keys = elim (get id keys) [
    | none ↦ thrown SessionKeyError.not_found
    | some key ↦ check_stored key tx now
  ]
