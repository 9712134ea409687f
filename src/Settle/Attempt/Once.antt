-- ===== src/Settle/Attempt/Once.antt =====
-- server/settle.ts: two attempts of `settleEvm` on one authorization.
use connect_lib.Base.{
  ℕ, ◌+◌, ◌-◌, ◌*◌, ◌/◌, ◌≤◌, ◌<◌, max, ◌≡◌, ◌≢◌, inl, inr, refl, true, false, Option, none, some,
  List, [], ◌∷◌, arith, leb, All, Bool-cases,
}
use connect_lib.Base.Text.{Text}
use connect_lib.Settle.Store.{Entries, claim, StoreCall, releases, calls}
use connect_lib.Settle.Store.Holds.{AreSparing, claim-holds}
use connect_lib.Settle.Attempt.{
  VerifiedEvm, Claim, Attempted, Verdict, settle_evm, evm_key, ttl_seconds,
}

-- Calls no later than `last`, none of which releases the reservation `r` on `k`.
abbrev pub AreUntil : Text → Text → ℕ → List (ℕ × StoreCall) → Type 0
AreUntil k r last = All (λ c. (c.0 ≤ last) × (c.1 ≢ releases k r))

AreUntil-AreSparing :
    (k r : Text) (last until : ℕ) (cs : List (ℕ × StoreCall))
    → last < until
    → AreUntil k r last cs
    → AreSparing k r until cs
AreUntil-AreSparing k r last until [] soon h = tt
AreUntil-AreSparing k r last until ((now, c) ∷ cs) soon h =
    ((omega (arith, soon, h.0.0), h.0.1), AreUntil-AreSparing k r last until cs soon h.1)

-- An attempt that holds a claim made it in time, for as long as the authorization is valid.
record IsClaimed (d : VerifiedEvm) (r : Text) (now clock : ℕ) (es : Entries) (a : Attempted)
    : Type 0 where
  in_time : now < d.valid_before
  won : (claim (evm_key d) (max ttl_seconds (d.valid_before - now)) r clock es).0 ≡ true
  left : a.entries ≡ (claim (evm_key d) (max ttl_seconds (d.valid_before - now)) r clock es).1

settle_evm-IsClaimed :
    (d : VerifiedEvm) (submit : Option (Option Text)) (r : Text) (now clock : ℕ) (es : Entries)
    (c : Claim)
    → (settle_evm d submit r now clock es).held ≡ some c
    → IsClaimed d r now clock es (settle_evm d submit r now clock es)
unfolding settle_evm
settle_evm-IsClaimed d none r now clock es c h = elim (Bool-cases (leb d.valid_before now)) [
  | inl late ↦ absurd (ground arith)
  | inr early ↦ absurd (ground arith)
]
settle_evm-IsClaimed d (some answer) r now clock es c h =
    let ttl = max ttl_seconds (d.valid_before - now) in
    elim (Bool-cases (leb d.valid_before now)) [
      | inl late ↦ absurd (ground arith)
      | inr early ↦ elim (Bool-cases (claim (evm_key d) ttl r clock es).0) [
        | inr taken ↦ absurd (ground arith)
        | inl free ↦ record {
          in_time = ground arith;
          won = free;
          left = rw (early, free, settle_evm) refl;
        }
      ]
    ]

-- Nothing was submitted, and the payment is refused.
pub record IsTurnedAway (a : Attempted) : Type 0 where
  pub unheld : a.held ≡ none
  pub reason : Text
  pub verdict : a.verdict ≡ Verdict.refused reason

late_lem :
    (d : VerifiedEvm) (submit : Option (Option Text)) (r : Text) (now clock : ℕ) (es : Entries)
    → leb d.valid_before now ≡ true
    → IsTurnedAway (settle_evm d submit r now clock es)
unfolding settle_evm
late_lem d submit r now clock es late =
    rw (late, settle_evm) (record { unheld = refl; reason = _; verdict = refl })

taken_lem :
    (d : VerifiedEvm) (submit : Option (Option Text)) (r : Text) (now clock : ℕ) (es : Entries)
    → leb d.valid_before now ≡ false
    → (claim (evm_key d) (max ttl_seconds (d.valid_before - now)) r clock es).0 ≡ false
    → IsTurnedAway (settle_evm d submit r now clock es)
unfolding settle_evm
taken_lem d none r now clock es early taken =
    rw (early, settle_evm) (record { unheld = refl; reason = _; verdict = refl })
taken_lem d (some answer) r now clock es early taken =
    rw (early, taken, settle_evm) (record { unheld = refl; reason = _; verdict = refl })

-- With the system clock, once an attempt has claimed an authorization, and so submits it, every
-- later attempt on the same authorization submits nothing and is refused, whatever store calls come
-- between, unless one of them releases the first attempt's reservation.
pub settle_evm-once :
    (d : VerifiedEvm) (submit submit' : Option (Option Text)) (r r' : Text) (t t' : ℕ)
    (es : Entries) (cs : List (ℕ × StoreCall)) (c : Claim)
    → (settle_evm d submit r (t / 1000) t es).held ≡ some c
    → AreUntil (evm_key d) r t' cs
    → IsTurnedAway (
        settle_evm d submit' r'
          (t' / 1000)
          t'
          (calls cs (settle_evm d submit r (t / 1000) t es).entries))
settle_evm-once d submit submit' r r' t t' es cs c held between =
    let v = settle_evm-IsClaimed d submit r (t / 1000) t es c held in
    let ttl = max ttl_seconds (d.valid_before - t / 1000) in
    elim (Bool-cases (leb d.valid_before (t' / 1000))) [
      | inl late ↦ late_lem d submit' r' (t' / 1000) t' _ late
      | inr early ↦
          let soon : t' < t + ttl * 1000 = ground (arith, v.in_time) in
          taken_lem d submit' r' (t' / 1000) t' _ early (
            rw (v.left) (
              claim-holds (evm_key d) r r' ttl (max ttl_seconds (d.valid_before - t' / 1000)) t t'
                es cs v.won (AreUntil-AreSparing (evm_key d) r t' (t + ttl * 1000) cs soon between)
                soon))
    ]
