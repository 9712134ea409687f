-- ===== src/Session/Types.antt =====
-- session-keys/types.ts: scopes, transactions and stored keys.
--
-- Amounts, counts and times are natural numbers. A record over token addresses is a list of its
-- entries. The fields of a transaction are texts, where an absent one is the empty text: each of
-- their tests is one of truth. Errors are constructors for their codes and texts.
use connect_lib.Base.{ℕ, Option, List, Bool, true, false, ◌≡◌, ◌↔◌, arith}
use connect_lib.Base.Dict.{Dict, Eq}
use connect_lib.Base.Text.{Text}

pub data SessionKeyRail : Type 0 where
  transfer x402_exact mpp_charge : SessionKeyRail

abbrev pub same_rail : SessionKeyRail → SessionKeyRail → Bool
same_rail transfer transfer = true
same_rail x402_exact x402_exact = true
same_rail mpp_charge mpp_charge = true
same_rail _ _ = false

pub same_rail_iff : (a b : SessionKeyRail) → (same_rail a b ≡ true) ↔ (a ≡ b)
same_rail_iff a b = ground arith

instance abbrev pub session_rail_eq : Eq SessionKeyRail
session_rail_eq = record { beq = same_rail; beq_iff = same_rail_iff }

pub data Mode : Type 0 where
  offchain eip7702 aa_module : Mode

abbrev pub same_mode : Mode → Mode → Bool
same_mode offchain offchain = true
same_mode eip7702 eip7702 = true
same_mode aa_module aa_module = true
same_mode _ _ = false

pub record SessionKeyPeriod : Type 0 where
  pub amount : ℕ
  pub seconds : ℕ
  pub start : ℕ

pub record PeriodUsage : Type 0 where
  pub index : ℕ
  pub spent : ℕ

-- `native_transfer` is whether the one mode of that field is set. An absent list of contracts,
-- recipients, methods or chains is the empty one: each of their tests asks for an element.
pub record SessionKeyScope : Type 0 where
  pub expiry : ℕ
  pub max_total_gas : Option ℕ
  pub max_gas_per_tx : Option ℕ
  pub max_total_value : Option ℕ
  pub max_value_per_tx : Option ℕ
  pub max_tx_count : Option ℕ
  pub allowed_contracts : List Text
  pub allowed_methods : List Text
  pub token_allowances : Dict Text ℕ
  pub token_max_per_tx : Dict Text ℕ
  pub period_limits : Dict Text SessionKeyPeriod
  pub allowed_recipients : List Text
  pub native_transfer : Bool
  pub allowed_chain_ids : List ℕ
  pub rails : List SessionKeyRail
  pub mode : Mode

pub record SessionKeyTransaction : Type 0 where
  pub to : Text
  pub value : Text
  pub data_field : Text
  pub chain_id : Option ℕ
  pub gas : Text

pub record EncryptedKeyPair : Type 0 where
  pub public_key : Text
  pub encrypted_private_key : Text

pub record SignedAuthorization : Type 0 where
  pub authorization : Text
  pub raw_signature : Text
  pub message : Option Text
  pub signer_address : Text
  pub type : Mode
  -- the chain of the signed delegation of an EIP-7702 key
  pub delegation_chain_id : Option ℕ

pub data SessionKeyStatus : Type 0 where
  active revoked expired : SessionKeyStatus

pub record StoredSessionKey : Type 0 where
  pub id : Text
  pub key_pair : EncryptedKeyPair
  pub scope : SessionKeyScope
  pub authorization : SignedAuthorization
  pub status : SessionKeyStatus
  pub created_at : ℕ
  pub last_used_at : ℕ
  pub use_count : ℕ
  pub accumulated_value : Option ℕ
  pub accumulated_gas : Option ℕ
  pub accumulated_token_spends : Dict Text ℕ
  pub period_usage : Dict Text PeriodUsage

-- What the check of a transaction against a scope refuses for.
pub data OutOfScope : Type 0 where
  not_integers negative_amount bad_chain_id gas_required chain_not_allowed : OutOfScope
  chain_required contract_not_allowed target_required method_forbidden : OutOfScope
  calldata_required method_not_token calldata_length over_token_per_tx : OutOfScope
  over_allowance period_not_started period_malformed over_period : OutOfScope
  no_recipient recipient_not_allowed method_not_allowed data_required : OutOfScope
  over_value_per_tx over_total_value over_gas_per_tx over_total_gas over_tx_count : OutOfScope

pub data SessionKeyError : Type 0 where
  not_found revoked_key expired_key max_tx_count_exceeded invalid_input : SessionKeyError
  required_fields_missing rails_refused raw_digest_refused decryption_failed : SessionKeyError
  redemption_refused : SessionKeyError
  scope_exceeded : OutOfScope → SessionKeyError

-- `ScopeCheckResult`: the budgets that would remain, where the scope limits them
pub record Remaining : Type 0 where
  pub value : Option ℕ
  pub gas : Option ℕ
  pub tx_count : Option ℕ

infixl 5 ◌>>=◌ ◌>>◌
-- What throws an error, or gives a value.
pub data Checked (E A : Type 0) : Type 0 where
  passed : A → Checked E A
  thrown : E → Checked E A

abbrev pub ◌>>=◌ : {E A B : Type 0} → Checked E A → (A → Checked E B) → Checked E B
passed a >>= next = next a
thrown e >>= next = thrown e

abbrev pub ◌>>◌ : {E B : Type 0} → Checked E (Unit {0}) → Checked E B → Checked E B
first >> rest = first >>= λ _. rest

abbrev pub refuse_when : {E : Type 0} → Bool → E → Checked E (Unit {0})
refuse_when true e = thrown e
refuse_when false e = passed tt
