-- ===== src/Settle/Store/Holds.antt =====
-- server/verify.ts: a claim of the settlement store, and the calls of other attempts after it.
use connect_lib.Base.{
  ℕ, ◌+◌, ◌*◌, ◌≤◌, ◌<◌, max, ◌≡◌, ◌≢◌, inl, inr, true, false, not, ◌&&◌, Option, none, some, List,
  [], ◌∷◌, arith, is_some, All, Bool-cases, Option-cases,
}
use connect_lib.Base.Dict.{lookup, insert, lookup-insert, lookup-insert_self, lookup-erase}
use connect_lib.Base.Text.{Text, text_eq, text_eq_iff, text_eq_of}
use connect_lib.Settle.Store.{
  Entry, Entries, sweep, claim, is_holder, release, commit, StoreCall, claims, releases, commits,
  call, calls,
}

-- A live entry outlives the deletion of the expired ones.
pub lookup-sweep :
    (now : ℕ) (k : Text) (e : Entry) (es : Entries)
    → lookup k es ≡ some e
    → now < e.expiry
    → lookup k (sweep now es) ≡ some e
unfolding lookup sweep
lookup-sweep now k e [] h l = cc
lookup-sweep now k e ((j, f) ∷ es) h l = ground (arith, lookup-sweep now k e es)

-- The key has an entry until `until` that is committed, or held by `r`.
pub record IsHeld (k r : Text) (until : ℕ) (es : Entries) : Type 0 where
  pub entry : Entry
  pub there : lookup k es ≡ some entry
  pub lasts : until ≤ entry.expiry
  pub ours : (other : Text) → entry.holder ≡ some other → other ≡ r

module _ (k r : Text) (until : ℕ) (now : ℕ) where
  sweep-IsHeld :
      {es : Entries} → now < until → IsHeld k r until es → IsHeld k r until (sweep now es)
  sweep-IsHeld {es} soon v = record {
    entry = v.entry;
    there = lookup-sweep now k v.entry es v.there (ground (arith, v.lasts));
    lasts = v.lasts;
    ours = v.ours;
  }

  insert-IsHeld :
      {es : Entries} (j : Text) (e : Entry)
      → IsHeld k r until es
      → j ≢ k
      → IsHeld k r until (insert j e es)
  insert-IsHeld {es} j e v other = record {
    entry = v.entry;
    there = ground (arith, v.there, lookup-insert j k e es, text_eq_iff j k);
    lasts = v.lasts;
    ours = v.ours;
  }

  claim-IsHeld :
      {es : Entries} (j q : Text) (ttl : ℕ)
      → now < until
      → IsHeld k r until es
      → IsHeld k r until (claim j ttl q now es).1
  unfolding claim
  claim-IsHeld {es} j q ttl soon v =
      let w = sweep-IsHeld soon v in
      elim (Option-cases (lookup j (sweep now es))) [
        | inr (e, taken) ↦ rw (taken, claim) w
        | inl free ↦ rw (free, claim) (insert-IsHeld j _ w (λ same. ground (arith, w.there)))
      ]

  release-IsHeld :
      {es : Entries} (j q : Text)
      → now < until
      → (j ≡ k → q ≢ r)
      → IsHeld k r until es
      → IsHeld k r until (release j q now es)
  unfolding release is_holder
  release-IsHeld {es} j q soon spares v =
      let w = sweep-IsHeld soon v in
      elim (Option-cases (lookup j (sweep now es))) [
        | inl free ↦ rw (free, release) w
        | inr (e, taken) ↦ elim (Bool-cases (is_holder e.holder q)) [
          | inr lost ↦ rw (taken, lost, release) w
          | inl held ↦
              let differs : j ≢ k = λ same.
                spares same
                  (w.ours q (ground (arith, taken, w.there, held, holder-is e.holder q))) in
              rw (taken, held, release)
                (record {
                  entry = w.entry;
                  there = ground (arith, w.there, lookup-erase j k (sweep now es), text_eq_iff j k);
                  lasts = w.lasts;
                  ours = w.ours;
                })
        ]
      ]
    where
      holder-is : (h : Option Text) (q : Text) → is_holder h q ≡ true → h ≡ some q
      holder-is none q h = cc
      holder-is (some p) q h = ground (arith, text_eq_iff p q)

  commit-IsHeld :
      {es : Entries} (j q : Text) (ttl : ℕ)
      → now < until
      → IsHeld k r until es
      → IsHeld k r until (commit j q ttl now es)
  unfolding commit
  commit-IsHeld {es} j q ttl soon v =
      let w = sweep-IsHeld soon v in
      elim (Option-cases (lookup j (sweep now es))) [
        | inl free ↦ rw (free, commit) (insert-IsHeld j _ w (λ same. ground (arith, w.there)))
        | inr (e, taken) ↦ elim (Bool-cases (not (is_holder e.holder q) && is_some e.holder)) [
          | inl foreign ↦ rw (taken, foreign, commit) w
          | inr ours ↦ elim (Bool-cases (text_eq j k)) [
            | inr differs ↦
                rw (taken, ours, commit)
                  (insert-IsHeld j _ w (λ same. ground (arith, text_eq_iff j k)))
            | inl same ↦
                let renewed : Entry = record {
                  expiry = max e.expiry (now + ttl * 1000);
                  holder = none;
                } in
                rw (taken, ours, commit)
                  (record {
                    entry = renewed;
                    there = ground (arith, lookup-insert j k renewed (sweep now es));
                    lasts = ground (arith, taken, w.there, w.lasts, text_eq_iff j k);
                    ours = λ other h. cc;
                  })
          ]
        ]
      ]

  call-IsHeld :
      {es : Entries} (c : StoreCall)
      → now < until
      → c ≢ releases k r
      → IsHeld k r until es
      → IsHeld k r until (call now c es)
  unfolding call
  call-IsHeld (claims j ttl q) soon spares v = claim-IsHeld j q ttl soon v
  call-IsHeld (releases j q) soon spares v = release-IsHeld j q soon (λ same also. spares cc) v
  call-IsHeld (commits j q ttl) soon spares v = commit-IsHeld j q ttl soon v

-- Calls before `until`, none of which releases the reservation `r` on `k`.
abbrev pub AreSparing : Text → Text → ℕ → List (ℕ × StoreCall) → Type 0
AreSparing k r until = All (λ c. (c.0 < until) × (c.1 ≢ releases k r))

pub calls-IsHeld :
    (k r : Text) (until : ℕ) (cs : List (ℕ × StoreCall)) (es : Entries)
    → AreSparing k r until cs
    → IsHeld k r until es
    → IsHeld k r until (calls cs es)
unfolding calls
calls-IsHeld k r until [] es h v = v
calls-IsHeld k r until ((now, c) ∷ cs) es h v =
    calls-IsHeld k r until cs (call now c es) h.1 (call-IsHeld k r until now c h.0.0 h.0.1 v)

pub claimed-IsHeld :
    (k r : Text) (ttl t : ℕ) (es : Entries)
    → (claim k ttl r t es).0 ≡ true
    → IsHeld k r (t + ttl * 1000) (claim k ttl r t es).1
unfolding claim
claimed-IsHeld k r ttl t es won = elim (Option-cases (lookup k (sweep t es))) [
  | inr (e, taken) ↦ absurd (ground arith)
  | inl free ↦
      rw (free, claim)
        (record {
          entry = record { expiry = t + ttl * 1000; holder = some r };
          there = lookup-insert_self k _ (sweep t es);
          lasts = omega arith;
          ours = λ other h. cc;
        })
]

pub held_lem :
    (k r q : Text) (until ttl now : ℕ) (es : Entries)
    → IsHeld k r until es
    → now < until
    → (claim k ttl q now es).0 ≡ false
unfolding claim
held_lem k r q until ttl now es v soon =
    ground (arith, v.lasts, lookup-sweep now k v.entry es v.there (ground (arith, v.lasts)))

-- A claim that succeeded refuses every other claim of its key until it expires, whatever is called
-- before that, by any attempt, except the release of its own reservation.
pub claim-holds :
    (k r q : Text) (ttl ttl' t now : ℕ) (es : Entries) (cs : List (ℕ × StoreCall))
    → (claim k ttl r t es).0 ≡ true
    → AreSparing k r (t + ttl * 1000) cs
    → now < t + ttl * 1000
    → (claim k ttl' q now (calls cs (claim k ttl r t es).1)).0 ≡ false
claim-holds k r q ttl ttl' t now es cs won spare soon =
    held_lem k r q (t + ttl * 1000) ttl' now _
      (calls-IsHeld k r (t + ttl * 1000) cs _ spare (claimed-IsHeld k r ttl t es won)) soon
