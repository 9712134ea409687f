-- ===== src/Mpp/Types.antt =====
-- session.ts and wire.ts: the policy, challenges, channels and answers of the session client.
use connect_lib.Base.{String, ℕ, Bool, Option, none, some}
use connect_lib.Base.Bytes.{Bytes}
use connect_lib.Base.Text.{Text}
use connect_lib.Session.Types.{Checked, passed, thrown, refuse_when}
use connect_lib.Voucher.Types.{Failure}

-- A value of parsed JSON, as far as the code tells values apart: whole numbers of at least 0, all
-- other numbers, arrays by their length.
pub data Raw : Type 0 where
  absent other_number other_value : Raw
  text : Text → Raw
  whole : ℕ → Raw
  flag : Bool → Raw
  items : ℕ → Raw

-- `challenge.request.methodDetails`
pub record MethodDetails : Type 0 where
  pub network : Raw
  pub channel_id : Raw
  pub voucher_signer : Raw
  pub operator : Raw
  pub distribution_splits : Raw
  pub decimals : Raw
  pub grace_period_seconds : Raw
  pub token_program : Raw
  pub fee_payer : Raw
  pub fee_payer_key : Raw
  pub channel_program : Raw
  pub recent_blockhash : Raw
  pub recent_slot : Raw

-- `challenge.request`; the details are absent where they are no record
pub record ChallengeRequest : Type 0 where
  pub amount : Raw
  pub currency : Raw
  pub recipient : Raw
  pub minimum_deposit : Raw
  pub method_details : Option MethodDetails

-- `MppChallenge`, its parameters cut to the method and the intent
pub record MppChallenge : Type 0 where
  pub method : Text
  pub intent : Text
  pub expires_at : Option ℕ
  pub request : ChallengeRequest

pub record SessionRequest : Type 0 where
  pub amount : ℕ
  pub currency : Text
  pub recipient : Text
  pub cluster : Text
  pub channel_program : Text
  pub recent_blockhash : Text
  pub recent_slot : ℕ
  pub decimals : ℕ
  pub token_program : Option Text
  pub fee_payer_key : Option Text
  pub grace_period_seconds : ℕ
  pub minimum_deposit : ℕ

-- what `getAccountInfo` gives
pub record MintAccount : Type 0 where
  pub owner : Text
  pub contents : Bytes

pub record MintDetails : Type 0 where
  pub token_program : Text
  pub decimals : ℕ

pub record MppSessionPolicy : Type 0 where
  pub recipient : Text
  pub mint : Text
  pub amount : ℕ
  pub deposit : ℕ
  pub max_cumulative : ℕ
  pub max_delta : ℕ
  pub expires_at : ℕ
  pub minimum_grace_period_seconds : Option ℕ

pub record MppOpenChannel : Type 0 where
  pub cluster : Text
  pub channel_id : Text
  pub payer : Text
  pub payee : Text
  pub mint : Text
  pub channel_program : Text
  pub deposit : ℕ
  pub grace_period_seconds : ℕ
  pub open_slot : ℕ
  pub salt : ℕ

pub record MppSessionSettlementBinding : Type 0 where
  pub cluster : Text
  pub channel_id : Text
  pub channel_program : Text
  pub expected_settled : ℕ
  pub after_forced_close : Bool

-- What `parsePaymentReceipt` reads of a response.
pub record MppReceipt : Type 0 where
  pub method : Text
  pub intent : Text
  pub reference : Text

pub record PaidResponse : Type 0 where
  pub status : ℕ
  pub receipt : Option MppReceipt

pub data MppErrorCode : Type 0 where
  invalid_challenge invalid_input payment_rejected : MppErrorCode

-- What the client throws: an `MppError`, with the channel that a failed open may leave; an error of
-- the key manager; an error of the transport, the RPC or the signer.
pub data MppFailure : Type 0 where
  mpp : MppErrorCode → String → Option Text → MppFailure
  key_manager : Failure → MppFailure
  outside : MppFailure

abbrev pub Outcome : Type 0 → Type 0
Outcome A = Checked MppFailure A

-- `fail(code, message)`
abbrev pub failed : {A : Type 0} → MppErrorCode → String → Outcome A
failed code message = thrown (mpp code message none)

-- `if (b) fail(code, message)`
abbrev pub fail_when : Bool → MppErrorCode → String → Outcome (Unit {0})
fail_when b code message = refuse_when b (mpp code message none)

-- what was answered from outside, absent where it throws
abbrev pub answered : {A : Type 0} → Option A → Outcome A
answered none = thrown outside
answered (some a) = passed a

-- a value that is there, or `fail`
abbrev pub present : {A : Type 0} → Option A → MppErrorCode → String → Outcome A
present none code message = failed code message
present (some a) code message = passed a
