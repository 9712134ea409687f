-- ===== src/Settle/Tests.antt =====
-- Two attempts on one authorization, and a Solana attempt that fails before it sends.
use connect_lib.Base.{
  ℕ, ◌/◌, ◌≡◌, refl, true, false, none, some, List, [], ◌∷◌, arith, replicate, ◌++◌,
}
use connect_lib.Base.Bytes.{Bytes}
use connect_lib.Base.Dict.{lookup}
use connect_lib.Base.Decimal.{digits, decimal}
use connect_lib.Base.Text.{Text, codes, to_lower_case, text_eq_of}
use connect_lib.Settle.Store.{sweep, claim, StoreCall, claims, releases, commits, calls}
use connect_lib.Settle.Store.Holds.{claim-holds}
use connect_lib.Settle.Attempt.{VerifiedEvm, Claim, settle_evm, evm_key, submitted, is_tx_hash}
use connect_lib.Settle.Attempt.Payment.{
  VerifiedSvm, SvmAnswers, settle_svm, settle_payment, evm, response, named_payer, close, svm_key,
  claimed_svm,
}
use connect_lib.Settle.Attempt.Once.{IsTurnedAway, settle_evm-once}
use connect_lib.Settle.Attempt.Retry.{settle_svm-retry}

abbrev payment : VerifiedEvm
payment = record {
  network = codes "eip155:1";
  chain_id = 1;
  asset = codes "0xA";
  from = codes "0xB";
  nonce = codes "0x7";
  valid_before = 500;
}

abbrev hash : Text
hash = codes "0x" ++ replicate 64 97

key : evm_key payment ≡ codes "evm:1:0xa:0xb:0x7"
unfolding evm_key decimal digits to_lower_case
key = refl

abbrev claimed : Claim
claimed = record {
  key = codes "evm:1:0xa:0xb:0x7";
  reservation = codes "r1";
  ttl = 400;
  broadcast = true;
}

abbrev between : List (ℕ × StoreCall)
between =
    (120000, claims (codes "other") 10 (codes "r9"))
    ∷ (130000, commits (codes "evm:1:0xa:0xb:0x7") (codes "r1") 400)
    ∷ []

paid :
    (settle_payment
      (λ b. b)
      (some (evm payment (some (some hash))))
      (codes "r1")
      100
      100000
      130000
      []).0
    ≡ record {
      success = true;
      transaction = hash;
      network = codes "eip155:1";
      payer = some (codes "0xB");
      error_reason = none;
    }
unfolding settle_payment settle_evm claim sweep lookup submitted is_tx_hash response named_payer
paid = refl

settle_evm-once_example : IsTurnedAway (
    settle_evm payment (some (some hash)) (codes "r2") (200000 / 1000) 200000 (
      calls between
        (settle_evm payment (some none) (codes "r1") (100000 / 1000) 100000 []).entries))
unfolding settle_evm claim sweep lookup evm_key decimal digits to_lower_case
settle_evm-once_example =
    settle_evm-once payment (some none) (some (some hash)) (codes "r1") (codes "r2") 100000 200000
      [] between claimed refl ((omega arith, λ e. cc), ((omega arith, λ e. cc), tt))

claim-holds_example :
    (claim (codes "k") 60 (codes "r2") 90000 (
      calls
        ((80000, releases (codes "k") (codes "r")) ∷ [])
        (claim (codes "k") 120 (codes "r1") 1000 []).1)).0
    ≡ false
unfolding claim sweep lookup
claim-holds_example =
    claim-holds (codes "k") (codes "r1") (codes "r2") 120 60 1000 90000 []
      ((80000, releases (codes "k") (codes "r")) ∷ []) refl ((omega arith, λ e. cc), tt)
      (omega arith)

abbrev message : Bytes
message = 1 ∷ 2 ∷ []

abbrev solana : VerifiedSvm
solana = record { network = codes "solana:x"; message = message; authority = codes "P" }

abbrev failing : SvmAnswers
failing = record {
  configured = true;
  cluster_at_first = true;
  signed = some (record {
    message = message;
    fee_payer_signed = true;
    authority_signed = true;
    signature = codes "s";
  });
  cluster_then = true;
  simulated = some false;
  cluster_at_last = true;
  sent = none;
  confirmed = none;
}

settle_svm-retry_example :
    (claim
      (svm_key (λ b. b) solana)
      120
      (codes "r2")
      6000
      (close 5000 (settle_svm (λ b. b) solana failing (codes "r1") 1000 []))).0
    ≡ true
unfolding settle_svm claim sweep lookup claimed_svm svm_key
settle_svm-retry_example =
    settle_svm-retry (λ b. b) solana failing (codes "r1") (codes "r2") 1000 5000 6000 120 []
      (record {
        key = svm_key (λ b. b) solana;
        reservation = codes "r1";
        ttl = 120;
        broadcast = false;
      })
      refl refl (omega arith)
