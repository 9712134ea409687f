-- ===== src/Session/Create.antt =====
-- SessionKeyManager.ts: the scope and the record of a new key.
--
-- Amounts are natural numbers, which no test of a sign refuses. `native_transfer` has one value.
use connect_lib.Base.{
  ℕ, ◌+◌, ◌/◌, Bool, true, false, not, ◌&&◌, ◌||◌, Option, none, some, List, [], ◌∷◌, leb, ltb,
  if◌then◌else◌, all, or_else,
}
use connect_lib.Base.Dict.{Dict}
use connect_lib.Base.Hex.{is_hex_of}
use connect_lib.Base.Text.{Text, codes, text_eq, text_eq_of, to_lower_case}
use connect_lib.Authorization.Names.{is_safe, is_evm_address}
use connect_lib.Authorization.Types.{is_distinct}
use connect_lib.Session.Types.{
  Mode, SessionKeyPeriod, SessionKeyScope, EncryptedKeyPair, SessionKeyStatus, StoredSessionKey,
  SessionKeyError, Checked, passed, thrown, ◌>>◌, refuse_when,
}
use connect_lib.Session.Number.{entry_of, is_filled}
use connect_lib.Session.Check.{native_asset}
use connect_lib.Session.Sign.{has_valid_rails}
use connect_lib.Session.Store.{save}

pub record SessionKeyConfig : Type 0 where
  pub default_max_total_value : ℕ
  pub default_max_tx_count : ℕ
  pub default_expiry_ms : ℕ
  pub max_expiry_ms : ℕ
  pub require_allowed_contracts : Bool

-- A partial scope: the fields that have a default are optional.
pub record PartialScope : Type 0 where
  pub expiry : Option ℕ
  pub max_total_value : Option ℕ
  pub max_tx_count : Option ℕ
  pub mode : Option Mode
  pub others : SessionKeyScope

-- `resolveScope`; the other fields are those of `others`.
unfoldable pub resolve_scope : SessionKeyConfig → ℕ → PartialScope → SessionKeyScope
resolve_scope config now_ms s = record s.others {
  expiry = or_else s.expiry ((now_ms + config.default_expiry_ms) / 1000);
  max_total_value = some (or_else s.max_total_value config.default_max_total_value);
  max_tx_count = some (or_else s.max_tx_count config.default_max_tx_count);
  mode = or_else s.mode Mode.offchain;
}

abbrev pub zero_address : Text
zero_address = codes "0x0000000000000000000000000000000000000000"

abbrev pub is_zero_address : Text → Bool
is_zero_address t = text_eq (to_lower_case t) zero_address

-- `isValidAddress(address, "eip155") && !isZeroAddress(address)`
abbrev pub is_account : Text → Bool
is_account t = is_evm_address t && not (is_zero_address t)

abbrev pub is_positive_safe : ℕ → Bool
is_positive_safe n = is_safe n && ltb 0 n

abbrev pub is_count : Option ℕ → Bool
is_count none = true
is_count (some n) = is_positive_safe n

unfoldable pub cumulative_limit : SessionKeyScope → Text → Option ℕ
cumulative_limit scope asset =
    if text_eq asset native_asset
    then scope.max_total_value
    else elim (entry_of asset scope.token_allowances) [ none ↦ none | some (_, most) ↦ some most ]

abbrev pub is_within : ℕ → Option ℕ → Bool
is_within n none = false
is_within n (some most) = leb n most

-- The tests of one entry of `periodLimits`.
unfoldable pub is_period_limit : SessionKeyScope → Text × SessionKeyPeriod → Bool
is_period_limit scope (asset, p) =
    (text_eq asset native_asset || is_evm_address asset)
    && (ltb 0 p.amount
        && (is_positive_safe p.seconds
            && (is_safe p.start && is_within p.amount (cumulative_limit scope asset))))

-- The keys of a record, in lower case.
unfoldable pub normalized : Dict Text ℕ → List Text
normalized [] = []
normalized ((address, _) ∷ entries) = to_lower_case address ∷ normalized entries

unfoldable pub is_allowance : Text × ℕ → Bool
is_allowance (address, _) = is_account address

unfoldable pub is_per_tx_limit : SessionKeyScope → Text × ℕ → Bool
is_per_tx_limit scope (address, amount) =
    is_account address && elim (entry_of address scope.token_allowances) [
      | none ↦ false
      | some (_, allowance) ↦ leb amount allowance
    ]

-- `validateScopeInput`, up to the test of the chains
unfoldable pub check_bounds :
    SessionKeyConfig → ℕ → SessionKeyScope → Checked SessionKeyError (Unit {0})
check_bounds config now_ms s = do
  refuse_when (not (is_safe s.expiry) || leb s.expiry (now_ms / 1000)) SessionKeyError.invalid_input
  refuse_when (ltb ((now_ms + config.max_expiry_ms) / 1000) s.expiry) SessionKeyError.invalid_input
  refuse_when (not (is_count s.max_tx_count)) SessionKeyError.invalid_input
  refuse_when (not (has_valid_rails s.rails)) SessionKeyError.invalid_input
  refuse_when (not (all is_positive_safe s.allowed_chain_ids)) SessionKeyError.invalid_input

-- `validateScopeInput`
unfoldable pub validate_scope_input :
    SessionKeyConfig → ℕ → SessionKeyScope → Checked SessionKeyError (Unit {0})
validate_scope_input config now_ms s = do
  check_bounds config now_ms s
  refuse_when (not (all (is_period_limit s) s.period_limits)) SessionKeyError.invalid_input
  refuse_when (not (all is_account s.allowed_contracts)) SessionKeyError.invalid_input
  refuse_when (not (all is_account s.allowed_recipients)) SessionKeyError.invalid_input
  refuse_when (not (all (is_hex_of 8) s.allowed_methods)) SessionKeyError.invalid_input
  refuse_when (not (all is_allowance s.token_allowances)) SessionKeyError.invalid_input
  refuse_when (not (is_distinct (normalized s.token_allowances))) SessionKeyError.invalid_input
  refuse_when (not (all (is_per_tx_limit s) s.token_max_per_tx)) SessionKeyError.invalid_input
  refuse_when (not (is_distinct (normalized s.token_max_per_tx))) SessionKeyError.invalid_input
  refuse_when (s.native_transfer && not (is_filled s.allowed_recipients))
      SessionKeyError.invalid_input

abbrev pub is_signer : Option Text → Bool
is_signer none = true
is_signer (some t) = is_account t

-- The record of a new key, of a fresh pair of keys and a fresh id.
unfoldable pub new_key :
    SessionKeyScope → Option Text → EncryptedKeyPair → Text → ℕ → StoredSessionKey
new_key scope signer pair id now_ms = record {
  id = id;
  key_pair = pair;
  scope = scope;
  authorization = record {
    authorization = [];
    raw_signature = [];
    message = none;
    signer_address = or_else signer zero_address;
    type = scope.mode;
    delegation_chain_id = none;
  };
  status = SessionKeyStatus.active;
  created_at = now_ms;
  last_used_at = now_ms;
  use_count = 0;
  accumulated_value = none;
  accumulated_gas = none;
  accumulated_token_spends = [];
  period_usage = [];
}

-- The tests of `createSessionKey`.
unfoldable pub check_new :
    SessionKeyConfig → SessionKeyScope → Option Text → ℕ → Checked SessionKeyError (Unit {0})
check_new config scope signer now_ms = do
  validate_scope_input config now_ms scope
  refuse_when (not (is_signer signer)) SessionKeyError.invalid_input
  refuse_when
      (config.require_allowed_contracts
        && (not (is_filled scope.allowed_contracts) && not scope.native_transfer))
      SessionKeyError.required_fields_missing

unfoldable pub saved_when :
    Checked SessionKeyError (Unit {0})
    → StoredSessionKey
    → List StoredSessionKey
    → Checked SessionKeyError StoredSessionKey × List StoredSessionKey
saved_when (thrown e) key keys = (thrown e, keys)
saved_when (passed _) key keys = (passed key, save key keys)

-- `createSessionKey`
unfoldable pub create_session_key :
    SessionKeyConfig
    → PartialScope
    → Option Text
    → EncryptedKeyPair
    → Text
    → ℕ
    → List StoredSessionKey
    → Checked SessionKeyError StoredSessionKey × List StoredSessionKey
create_session_key config s signer pair id now_ms keys =
    let scope : SessionKeyScope = resolve_scope config now_ms s in
    saved_when (check_new config scope signer now_ms) (new_key scope signer pair id now_ms) keys
