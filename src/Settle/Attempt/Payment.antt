-- ===== src/Settle/Attempt/Payment.antt =====
-- server/settle.ts: `settleSvm`, and `settlePayment` around both kinds of settlement.
use connect_lib.Base.{
  ℕ, Bool, true, false, not, ◌||◌, Option, none, some, [], ◌∷◌, ◌++◌, if◌then◌else◌,
}
use connect_lib.Base.Bytes.{Bytes}
use connect_lib.Base.Text.{Text, codes, text_eq}
use connect_lib.Settle.Store.{Entries, claim, release, commit}
use connect_lib.Settle.Attempt.{
  VerifiedEvm, Verdict, settled, refused, Attempted, unexpected, ttl_seconds, settle_evm,
}

pub record VerifiedSvm : Type 0 where
  pub network : Text
  pub message : Bytes
  pub authority : Text

-- What the RPC and the callbacks answer during one Solana settlement; `signed` says what of the
-- signed transaction is checked.
pub record Signed : Type 0 where
  pub message : Bytes
  pub fee_payer_signed : Bool
  pub authority_signed : Bool
  pub signature : Text

pub record SvmAnswers : Type 0 where
  pub configured : Bool
  pub cluster_at_first : Bool
  pub signed : Option Signed
  pub cluster_then : Bool
  pub simulated : Option Bool
  pub cluster_at_last : Bool
  pub sent : Option Text
  pub confirmed : Option Bool

-- From `sendTransaction` on.
unfoldable pub sent_verdict : SvmAnswers → Text → Verdict
sent_verdict a expected = elim a.sent [
  | none ↦ refused unexpected
  | some signature ↦
      if not (text_eq signature expected) then refused unexpected else elim a.confirmed [
        | none ↦ refused unexpected
        | some true ↦ settled signature
        | some false ↦ refused (codes "invalid_transaction_state")
      ]
]

-- Whether the transaction is sent, and the verdict, once the key is claimed.
unfoldable pub claimed_svm : VerifiedSvm → SvmAnswers → Bool × Verdict
unfolding sent_verdict
claimed_svm d a =
    if not a.cluster_at_first then (false, refused (codes "invalid_network")) else elim a.signed [
      | none ↦ (false, refused unexpected)
      | some tx ↦
          if not (text_eq tx.message d.message)
            || (not tx.fee_payer_signed || not tx.authority_signed)
          then (false, refused (codes "invalid_exact_svm_payload_transaction"))
          else if not a.cluster_then
          then (false, refused (codes "invalid_network"))
          else elim a.simulated [
            | none ↦ (false, refused unexpected)
            | some false ↦ (false, refused (codes "invalid_transaction_state"))
            | some true ↦
                if not a.cluster_at_last
                then (false, refused (codes "invalid_network"))
                else (true, sent_verdict a tx.signature)
          ]
    ]

module _ (sha256_hex : Bytes → Text) where
  -- The key that `settleSvm` claims.
  unfoldable pub svm_key : VerifiedSvm → Text
  svm_key d = codes "svm:" ++ sha256_hex d.message

  -- `settleSvm`
  unfoldable pub settle_svm : VerifiedSvm → SvmAnswers → Text → ℕ → Entries → Attempted
  settle_svm d a reservation clock entries =
      if not a.configured
      then record { held = none; verdict = refused unexpected; entries = entries }
      else (let claimed : Bool × Entries =
            claim (svm_key d) ttl_seconds reservation clock entries in
          if not claimed.0
          then record {
            held = none;
            verdict = refused (codes "duplicate_settlement");
            entries = claimed.1;
          }
          else record {
            held = some (record {
              key = svm_key d;
              reservation = reservation;
              ttl = ttl_seconds;
              broadcast = (claimed_svm d a).0;
            });
            verdict = (claimed_svm d a).1;
            entries = claimed.1;
          })

-- `X402SettlementResponse`
pub record Settlement : Type 0 where
  pub success : Bool
  pub transaction : Text
  pub network : Text
  pub payer : Option Text
  pub error_reason : Option Text

-- The response, as `settlePayment` builds it from the verdict.
unfoldable pub response : Text → Option Text → Verdict → Settlement
response network payer (settled hash) = record {
  success = true;
  transaction = hash;
  network = network;
  payer = payer;
  error_reason = none;
}
response network payer (refused reason) = record {
  success = false;
  transaction = [];
  network = network;
  payer = payer;
  error_reason = some reason;
}

-- What `settlePayment` does with the claim, when the attempt is over.
unfoldable pub close : ℕ → Attempted → Entries
close clock a = elim a.held [
  | none ↦ a.entries
  | some c ↦ elim a.verdict [
    | settled hash ↦ commit c.key c.reservation c.ttl clock a.entries
    | refused reason ↦
        if c.broadcast then a.entries else release c.key c.reservation clock a.entries
  ]
]

-- `payer ? { payer } : {}`
unfoldable pub named_payer : Text → Option Text
named_payer [] = none
named_payer (c ∷ cs) = some (c ∷ cs)

pub data Details : Type 0 where
  evm : VerifiedEvm → Option (Option Text) → Details
  svm : VerifiedSvm → SvmAnswers → Details

-- `settlePayment`: `now` in seconds and the store's clock when it starts, and the store's clock when
-- the answers are there; `none` for a payment that was not verified.
unfoldable pub settle_payment :
    (Bytes → Text) → Option Details → Text → ℕ → ℕ → ℕ → Entries → Settlement × Entries
unfolding named_payer
settle_payment sha256_hex none reservation now clock later entries =
    (response [] none (refused (codes "invalid_payload")), entries)
settle_payment sha256_hex (some (evm d submit)) reservation now clock later entries =
    let a : Attempted = settle_evm d submit reservation now clock entries in
    (response d.network (named_payer d.from) a.verdict, close later a)
settle_payment sha256_hex (some (svm d answers)) reservation now clock later entries =
    let a : Attempted = settle_svm sha256_hex d answers reservation clock entries in
    (response d.network (named_payer d.authority) a.verdict, close later a)
