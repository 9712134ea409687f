-- ===== src/Timeline/Recording.antt =====
-- payment-timeline.ts: sequences of `recordStage` and `recordFailure`.
use connect_lib.Base.{
  ℕ, ◌≡◌, Option, none, some, List, [], ◌∷◌, arith, if◌then◌else◌, Option-cases, inl, inr,
}
use connect_lib.Base.Dict.{lookup, lookup-insert}
use connect_lib.Base.Text.{Text}
use connect_lib.Timeline.{
  PaymentStage, StageRecord, PaymentFailure, PaymentTimeline, record_stage, record_failure,
  same_stage, same_stage_iff, stage_eq, start_timeline,
}

pub data Recording : Type 0 where
  stage : PaymentStage → Text → ℕ → Recording
  failure : PaymentStage → Text → ℕ → Recording

-- the timeline after the recordings, in order
unfoldable pub replay : List Recording → PaymentTimeline → PaymentTimeline
replay [] t = t
replay (stage s evidence at ∷ rs) t = replay rs (record_stage t s evidence at)
replay (failure s reason at ∷ rs) t = replay rs (record_failure t s reason at)

-- The first observation of a stage among the recordings.
unfoldable pub first_of : PaymentStage → List Recording → Option StageRecord
first_of s [] = none
first_of s (stage s' evidence at ∷ rs) =
    if same_stage s' s then some (record { at = at; evidence = evidence }) else first_of s rs
first_of s (failure s' reason at ∷ rs) = first_of s rs

unfoldable pub first_failure : List Recording → Option PaymentFailure
first_failure [] = none
first_failure (stage s evidence at ∷ rs) = first_failure rs
first_failure (failure s reason at ∷ rs) = some (record { stage = s; at = at; reason = reason })

unfoldable pub or_first : {A : Type 0} → Option A → Option A → Option A
or_first none b = b
or_first (some a) b = some a

lookup-record_stage :
    (t : PaymentTimeline) (s s' : PaymentStage) (evidence : Text) (at : ℕ)
    → lookup s (record_stage t s' evidence at).stages ≡ (
        if same_stage s' s
        then or_first (lookup s t.stages) (some (record { at = at; evidence = evidence }))
        else lookup s t.stages)
unfolding record_stage or_first
lookup-record_stage t s s' evidence at = elim (Option-cases (lookup s' t.stages)) [
  | inr (r, old) ↦ ground (arith, same_stage_iff s' s)
  | inl new ↦ ground (
    arith,
    same_stage_iff s' s,
    lookup-insert s' s (record { at = at; evidence = evidence }) t.stages,
  )
]

record_failure-stages :
    (t : PaymentTimeline) (s : PaymentStage) (reason : Text) (at : ℕ)
    → (record_failure t s reason at).stages ≡ t.stages
unfolding record_failure
record_failure-stages t s reason at = ground arith

replay-stage :
    (rs : List Recording) (t : PaymentTimeline) (s : PaymentStage)
    → lookup s (replay rs t).stages ≡ or_first (lookup s t.stages) (first_of s rs)
unfolding replay or_first first_of
replay-stage [] t s = ground arith
replay-stage (stage s' evidence at ∷ rs) t s = ground (
  arith,
  replay-stage rs (record_stage t s' evidence at) s,
  lookup-record_stage t s s' evidence at,
)
replay-stage (failure s' reason at ∷ rs) t s =
    ground (
      arith,
      replay-stage rs (record_failure t s' reason at) s,
      record_failure-stages t s' reason at,
    )

replay-failure :
    (rs : List Recording) (t : PaymentTimeline)
    → (replay rs t).failure ≡ or_first t.failure (first_failure rs)
unfolding replay or_first first_failure record_stage record_failure
replay-failure [] t = ground arith
replay-failure (stage s evidence at ∷ rs) t =
    ground (arith, replay-failure rs (record_stage t s evidence at))
replay-failure (failure s reason at ∷ rs) t =
    ground (arith, replay-failure rs (record_failure t s reason at))

-- After any recordings from the start, the timeline has of each stage the first observation and no
-- other, and of the failures the first.
pub replay-first :
    (rs : List Recording)
    → ((s : PaymentStage) → lookup s (replay rs start_timeline).stages ≡ first_of s rs)
      × ((replay rs start_timeline).failure ≡ first_failure rs)
unfolding or_first lookup
replay-first rs = (λ s. replay-stage rs start_timeline s, replay-failure rs start_timeline)
