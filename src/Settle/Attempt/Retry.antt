-- ===== src/Settle/Attempt/Retry.antt =====
-- What a refusal before the broadcast leaves behind.
use connect_lib.Base.{
  ℕ, ◌+◌, ◌*◌, ◌<◌, ◌≡◌, inl, inr, refl, Bool, true, false, not, ◌||◌, none, some, [], ◌∷◌, arith,
  Bool-cases, Option-cases,
}
use connect_lib.Base.Bytes.{Bytes}
use connect_lib.Base.Dict.{lookup, lookup-erase, lookup-insert_self}
use connect_lib.Base.Text.{Text, text_eq, text_eq_iff, text_eq_of}
use connect_lib.Settle.Store.{Entry, Entries, sweep, claim, is_holder, release}
use connect_lib.Settle.Store.Holds.{lookup-sweep}
use connect_lib.Settle.Attempt.{Claim, Attempted, Verdict, ttl_seconds}
use connect_lib.Settle.Attempt.Payment.{
  VerifiedSvm, SvmAnswers, settle_svm, svm_key, claimed_svm, close,
}

lookup-sweep-none :
    (now : ℕ) (k : Text) (es : Entries) → lookup k es ≡ none → lookup k (sweep now es) ≡ none
unfolding lookup sweep
lookup-sweep-none now k [] h = refl
lookup-sweep-none now k ((j, f) ∷ es) h = ground (arith, lookup-sweep-none now k es)

-- A key without an entry can be claimed.
free-claim :
    (k q : Text) (ttl now : ℕ) (es : Entries) → lookup k es ≡ none → (claim k ttl q now es).0 ≡ true
unfolding claim
free-claim k q ttl now es h = ground (arith, lookup-sweep-none now k es h)

released_lem :
    (k r : Text) (now : ℕ) (es : Entries) (e : Entry)
    → lookup k es ≡ some e
    → e.holder ≡ some r
    → now < e.expiry
    → lookup k (release k r now es) ≡ none
unfolding release is_holder
released_lem k r now es e there held live =
    let still : lookup k (sweep now es) ≡ some e = lookup-sweep now k e es there live in
    let same : text_eq r r ≡ true = ground (arith, text_eq_iff r r) in
    rw (still, held, same, release, is_holder)
      (ground (arith, lookup-erase k k (sweep now es), text_eq_iff k k))

-- The entry of a claim that succeeded.
claimed_entry :
    (k r : Text) (ttl t : ℕ) (es : Entries)
    → (claim k ttl r t es).0 ≡ true
    → (e : Entry) × (lookup k (claim k ttl r t es).1 ≡ some e)
      × (e.holder ≡ some r)
      × (e.expiry ≡ t + ttl * 1000)
unfolding claim
claimed_entry k r ttl t es won = elim (Option-cases (lookup k (sweep t es))) [
  | inr (e, taken) ↦ absurd (ground arith)
  | inl free ↦
      rw (free, claim)
        (
          record { expiry = t + ttl * 1000; holder = some r },
          lookup-insert_self k _ (sweep t es),
          refl,
          refl,
        )
]

-- A Solana attempt that sends nothing is refused.
unsent_lem :
    (d : VerifiedSvm) (a : SvmAnswers)
    → (claimed_svm d a).0 ≡ false
    → (reason : Text) × ((claimed_svm d a).1 ≡ Verdict.refused reason)
unfolding claimed_svm
unsent_lem d a h = elim (Bool-cases (not a.cluster_at_first)) [
  | inl off ↦ rw off (_, refl)
  | inr on ↦ elim (Option-cases a.signed) [
    | inl threw ↦ rw (on, threw) (_, refl)
    | inr (tx, signed) ↦
        elim (Bool-cases (
          not (text_eq tx.message d.message)
          || (not tx.fee_payer_signed || not tx.authority_signed))) [
            | inl altered ↦ rw (on, signed, altered) (_, refl)
            | inr intact ↦ elim (Bool-cases (not a.cluster_then)) [
              | inl off ↦ rw (on, signed, intact, off) (_, refl)
              | inr there ↦ elim (Option-cases a.simulated) [
                | inl threw ↦ rw (on, signed, intact, there, threw) (_, refl)
                | inr (false, failed) ↦ rw (on, signed, intact, there, failed) (_, refl)
                | inr (true, passed) ↦ elim (Bool-cases (not a.cluster_at_last)) [
                  | inl off ↦ rw (on, signed, intact, there, passed, off) (_, refl)
                  | inr last ↦ absurd (ground arith)
                ]
              ]
            ]
          ]
  ]
]

close_lem :
    (k r : Text) (ttl later : ℕ) (v : Verdict) (reason : Text) (es : Entries) (b : Bool)
    → v ≡ Verdict.refused reason
    → b ≡ false
    → close later (record {
      held = some (record { key = k; reservation = r; ttl = ttl; broadcast = b });
      verdict = v;
      entries = es;
    })
      ≡ release k r later es
unfolding close
close_lem k r ttl later v reason es b refused quiet = rw (refused, quiet) refl

module _ (sha256_hex : Bytes → Text) where
  -- The attempt, where it holds a claim.
  abbrev held_attempt : VerifiedSvm → SvmAnswers → Text → ℕ → Entries → Attempted
  held_attempt d a r clock es = record {
    held = some (record {
      key = svm_key sha256_hex d;
      reservation = r;
      ttl = ttl_seconds;
      broadcast = (claimed_svm d a).0;
    });
    verdict = (claimed_svm d a).1;
    entries = (claim (svm_key sha256_hex d) ttl_seconds r clock es).1;
  }

  held_svm :
      (d : VerifiedSvm) (a : SvmAnswers) (r : Text) (clock : ℕ) (es : Entries) (c : Claim)
      → (settle_svm sha256_hex d a r clock es).held ≡ some c
      → ((claim (svm_key sha256_hex d) ttl_seconds r clock es).0 ≡ true)
        × (settle_svm sha256_hex d a r clock es ≡ held_attempt d a r clock es)
  unfolding settle_svm
  held_svm d a r clock es c held = elim (Bool-cases (not a.configured)) [
    | inl off ↦ absurd (ground arith)
    | inr on ↦ elim (Bool-cases (claim (svm_key sha256_hex d) ttl_seconds r clock es).0) [
      | inr taken ↦ absurd (ground arith)
      | inl free ↦ (free, rw (on, free, settle_svm) refl)
    ]
  ]

  -- A Solana settlement that held a claim and failed before it could be broadcast, and that ends
  -- before its claim expires, leaves the key free: the next claim of it succeeds.
  pub settle_svm-retry :
      (d : VerifiedSvm) (a : SvmAnswers) (r q : Text) (clock later now ttl : ℕ) (es : Entries)
      (c : Claim)
      → (settle_svm sha256_hex d a r clock es).held ≡ some c
      → c.broadcast ≡ false
      → later < clock + ttl_seconds * 1000
      → (claim
          (svm_key sha256_hex d)
          ttl
          q
          now
          (close later (settle_svm sha256_hex d a r clock es))).0
        ≡ true
  settle_svm-retry d a r q clock later now ttl es c held quiet soon =
      let k = svm_key sha256_hex d in
      let (won, is) = held_svm d a r clock es c held in
      let unsent : (claimed_svm d a).0 ≡ false = ground (arith, is) in
      let (reason, refused) = unsent_lem d a unsent in
      let left = (claim k ttl_seconds r clock es).1 in
      let closed =
        close_lem k r ttl_seconds later (claimed_svm d a).1 reason left (claimed_svm d a).0 refused
          unsent in
      let (e, there, ours, lasts) = claimed_entry k r ttl_seconds clock es won in
      rw (is, closed)
        (free-claim k q ttl now (release k r later left)
          (released_lem k r later left e there ours (ground (arith, lasts))))
