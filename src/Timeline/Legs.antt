-- ===== src/Timeline/Legs.antt =====
-- The legs of a timeline against its end-to-end duration.
use connect_lib.Base.{
  ℕ, ◌+◌, ◌≡◌, refl, true, Option, none, some, List, [], ◌∷◌, ◌++◌, arith, is_some, inl, inr,
  Bool-cases, Option-cases,
}
use connect_lib.Base.Dict.{lookup}
use connect_lib.Timeline.{
  PaymentStage, authorized, submitted, included, confirmed, settled, StageRecord, PaymentTimeline,
  Duration, known, not_known, TimelineLeg, stage_eq, between, end_to_end, observed, leg, legs_from,
  legs_of, timeline_legs,
}

-- What the legs add up to, where each of them is known.
unfoldable pub total : List TimelineLeg → Option ℕ
total [] = some 0
total (l ∷ ls) = elim l.duration [
  | not_known reason ↦ none
  | known ms ↦ elim (total ls) [ none ↦ none | some rest ↦ some (ms + rest) ]
]

-- The last stage of a path.
unfoldable pub last_of : PaymentStage → List PaymentStage → PaymentStage
last_of s [] = s
last_of s (s' ∷ ss) = last_of s' ss

between_lem :
    (t : PaymentTimeline) (s s' : PaymentStage) (n : ℕ) (a : StageRecord)
    → lookup s t.stages ≡ some a
    → between t s s' ≡ known n
    → (b : StageRecord) × (lookup s' t.stages ≡ some b) × (a.at + n ≡ b.at)
unfolding between
between_lem t s s' n a there is = elim (Option-cases (lookup s' t.stages)) [
  | inl gone ↦ absurd (ground arith)
  | inr (b, here) ↦ (b, here, ground arith)
]

total_lem :
    (l : TimelineLeg) (ls : List TimelineLeg) (n : ℕ)
    → total (l ∷ ls) ≡ some n
    → (ms rest : ℕ) × (l.duration ≡ known ms) × (total ls ≡ some rest) × (n ≡ ms + rest)
unfolding total
total_lem l ls n h = go l.duration (total ls) refl refl
  where
    go :
        (d : Duration) (o : Option ℕ)
        → l.duration ≡ d
        → total ls ≡ o
        → (ms rest : ℕ) × (l.duration ≡ known ms) × (total ls ≡ some rest) × (n ≡ ms + rest)
    go (not_known reason) o is more = absurd (ground arith)
    go (known ms) none is more = absurd (ground arith)
    go (known ms) (some rest) is more = (ms, rest, is, more, ground arith)

legs_from-total :
    (t : PaymentTimeline) (s : PaymentStage) (ss : List PaymentStage) (n : ℕ) (a : StageRecord)
    → lookup s t.stages ≡ some a
    → total (legs_from t s ss) ≡ some n
    → (z : StageRecord) × (lookup (last_of s ss) t.stages ≡ some z) × (a.at + n ≡ z.at)
unfolding legs_from last_of leg total
legs_from-total t s [] n a there is = (a, there, ground arith)
legs_from-total t s (s' ∷ ss) n a there is =
    let (ms, rest, first, more, sum) = total_lem (leg t s s') (legs_from t s' ss) n is in
    let (b, here, step) = between_lem t s s' ms a there first in
    let (z, last, steps) = legs_from-total t s' ss rest b here more in (z, last, ground arith)

last_of-observed :
    (t : PaymentTimeline) (s : PaymentStage) (ss : List PaymentStage) (z : PaymentStage)
    → is_some (lookup z t.stages) ≡ true
    → last_of s (observed t (ss ++ z ∷ [])) ≡ z
unfolding observed last_of
last_of-observed t s [] z there = rw there refl
last_of-observed t s (s' ∷ ss) z there = elim (Bool-cases (is_some (lookup s' t.stages))) [
  | inl seen ↦ rw seen (last_of-observed t s' ss z there)
  | inr unseen ↦ rw unseen (last_of-observed t s ss z there)
]

-- If the first and the last stage are observed and every leg has a known duration, then the
-- durations of the legs add up to the end-to-end duration, which is known.
pub timeline_legs-end_to_end :
    (t : PaymentTimeline) (a z : StageRecord) (n : ℕ)
    → lookup authorized t.stages ≡ some a
    → lookup settled t.stages ≡ some z
    → total (timeline_legs t) ≡ some n
    → end_to_end t ≡ known n
unfolding timeline_legs legs_of observed end_to_end between
timeline_legs-end_to_end t a z n first last sum =
    let rest = observed t (submitted ∷ included ∷ confirmed ∷ settled ∷ []) in
    let legs : total (legs_from t authorized rest) ≡ some n = rw first at sum in
    let (z', there, same) = legs_from-total t authorized rest n a first legs in
    let ends : last_of authorized rest ≡ settled =
      last_of-observed t authorized (submitted ∷ included ∷ confirmed ∷ []) settled
        (rw last refl) in
    let found : lookup settled t.stages ≡ some z' = rw ends at there in ground arith
