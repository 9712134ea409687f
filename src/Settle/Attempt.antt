-- ===== src/Settle/Attempt.antt =====
-- server/settle.ts: one attempt to settle a verified payment.
--
-- The facilitator's callbacks and the RPC are modelled by what they answer, `none` where they throw.
-- Here are attempts, and `settleEvm`; Attempt/Payment has `settleSvm` and `settlePayment`.
-- An EVM settlement is a claim, and, once `submit` has answered, a verdict on that answer.
pub mod Once
pub mod Payment
pub mod Retry
use connect_lib.Base.{
  ℕ, ◌-◌, ◌/◌, max, Bool, true, false, not, ◌&&◌, ◌||◌, Option, none, some, List, [], ◌∷◌, ◌++◌,
  leb, ltb, ◌==◌, if◌then◌else◌, length, take, drop, all,
}
use connect_lib.Base.Bytes.{Bytes}
use connect_lib.Base.Hex.{is_hex}
use connect_lib.Base.Decimal.{decimal}
use connect_lib.Base.Text.{Text, codes, text_eq, to_lower_case}
use connect_lib.Settle.Store.{Entries, claim, release, commit}

-- `VerifiedEvm`, with the fields of its authorization that settlement reads
pub record VerifiedEvm : Type 0 where
  pub network : Text
  pub chain_id : ℕ
  pub asset : Text
  pub from : Text
  pub nonce : Text
  pub valid_before : ℕ

-- `Claim`, where the attempt holds one
pub record Claim : Type 0 where
  pub key : Text
  pub reservation : Text
  pub ttl : ℕ
  pub broadcast : Bool

pub data Verdict : Type 0 where
  settled : Text → Verdict
  refused : Text → Verdict

-- How an attempt stands: its claim, its verdict, and the store.
pub record Attempted : Type 0 where
  pub held : Option Claim
  pub verdict : Verdict
  pub entries : Entries

abbrev pub unexpected : Text
unexpected = codes "unexpected_settle_error"

abbrev pub ttl_seconds : ℕ
ttl_seconds = 120

-- `/^0x[0-9a-fA-F]{64}$/`
unfoldable pub is_tx_hash : Text → Bool
is_tx_hash t = text_eq (take 2 t) (codes "0x") && length t == 66 && all is_hex (drop 2 t)

-- The key that `settleEvm` claims.
unfoldable pub evm_key : VerifiedEvm → Text
evm_key d = to_lower_case (
    codes "evm:"
    ++ (decimal d.chain_id
        ++ (codes ":" ++ (d.asset ++ (codes ":" ++ (d.from ++ (codes ":" ++ d.nonce)))))))

-- The verdict on what `submit` answers.
unfoldable pub submitted : Option Text → Verdict
submitted none = refused unexpected
submitted (some hash) = if is_tx_hash hash then settled hash else refused unexpected

-- `settleEvm` at a time `now` in seconds, with the store's clock; `submit` is what it answers, where
-- it is configured at all.
unfoldable pub settle_evm : VerifiedEvm → Option (Option Text) → Text → ℕ → ℕ → Entries → Attempted
unfolding submitted
settle_evm d submit reservation now clock entries =
    if leb d.valid_before now
    then record {
      held = none;
      verdict = refused (codes "invalid_exact_evm_payload_authorization_valid_before");
      entries = entries;
    }
    else elim submit [
      | none ↦ record { held = none; verdict = refused unexpected; entries = entries }
      | some answer ↦
          let ttl = max ttl_seconds (d.valid_before - now) in
          let claimed : Bool × Entries = claim (evm_key d) ttl reservation clock entries in
          if not claimed.0
          then record {
            held = none;
            verdict = refused (codes "duplicate_settlement");
            entries = claimed.1;
          }
          else record {
            held = some (record {
              key = evm_key d;
              reservation = reservation;
              ttl = ttl;
              broadcast = true;
            });
            verdict = submitted answer;
            entries = claimed.1;
          }
    ]
