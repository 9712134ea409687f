-- ===== src/Timeline.antt =====
-- core/src/payment-timeline.ts: the observed stages of a payment, and what may be said of them.
pub mod Recording
pub mod Legs
pub mod Display
mod Tests
use connect_lib.Base.{
  ℕ, ◌+◌, ◌-◌, Bool, true, false, Option, none, some, List, [], ◌∷◌, ltb, if◌then◌else◌, is_some,
  take, drop, ◌↔◌, ◌≡◌, arith,
}
use connect_lib.Base.Dict.{Eq, Dict, lookup, insert}
use connect_lib.Base.Text.{Text}

pub data PaymentStage : Type 0 where
  authorized submitted included confirmed settled : PaymentStage

-- `PAYMENT_STAGES.indexOf(stage)`
unfoldable pub rank : PaymentStage → ℕ
rank authorized = 0
rank submitted = 1
rank included = 2
rank confirmed = 3
rank settled = 4

abbrev pub same_stage : PaymentStage → PaymentStage → Bool
same_stage authorized authorized = true
same_stage submitted submitted = true
same_stage included included = true
same_stage confirmed confirmed = true
same_stage settled settled = true
same_stage _ _ = false

pub same_stage_iff : (a b : PaymentStage) → (same_stage a b ≡ true) ↔ (a ≡ b)
same_stage_iff a b = ground arith

instance abbrev pub stage_eq : Eq PaymentStage
stage_eq = record { beq = same_stage; beq_iff = same_stage_iff }

abbrev pub payment_stages : List PaymentStage
payment_stages = authorized ∷ submitted ∷ included ∷ confirmed ∷ settled ∷ []

pub record StageRecord : Type 0 where
  pub at : ℕ
  pub evidence : Text

pub record PaymentFailure : Type 0 where
  pub stage : PaymentStage
  pub at : ℕ
  pub reason : Text

pub record PaymentTimeline : Type 0 where
  pub stages : Dict PaymentStage StageRecord
  pub failure : Option PaymentFailure

-- Why there is no duration, in place of the text.
pub data Unknown : Type 0 where
  never_observed : PaymentStage → Unknown
  clocks_disagree : PaymentStage → PaymentStage → Unknown
  nothing_observed already_settled : Unknown
  now_before : PaymentStage → Unknown

pub data Duration : Type 0 where
  known : ℕ → Duration
  not_known : Unknown → Duration

pub record TimelineLeg : Type 0 where
  pub from : PaymentStage
  pub to : PaymentStage
  pub duration : Duration
  pub skipped : List PaymentStage

abbrev pub start_timeline : PaymentTimeline
start_timeline = record { stages = []; failure = none }

-- `recordStage`
unfoldable pub record_stage : PaymentTimeline → PaymentStage → Text → ℕ → PaymentTimeline
record_stage t stage evidence at =
    if is_some (lookup stage t.stages)
    then t
    else record t { stages = insert stage (record { at = at; evidence = evidence }) t.stages }

-- `recordFailure`
unfoldable pub record_failure : PaymentTimeline → PaymentStage → Text → ℕ → PaymentTimeline
record_failure t stage reason at =
    if is_some t.failure
    then t
    else record t { failure = some (record { stage = stage; at = at; reason = reason }) }

-- The loop of `latestStage` over the stages that are left.
unfoldable pub latest_from :
    PaymentTimeline → Option PaymentStage → List PaymentStage → Option PaymentStage
latest_from t latest [] = latest
latest_from t latest (stage ∷ stages) =
    latest_from t (if is_some (lookup stage t.stages) then some stage else latest) stages

unfoldable pub latest_stage : PaymentTimeline → Option PaymentStage
latest_stage t = latest_from t none payment_stages

unfoldable pub is_settled : PaymentTimeline → Bool
is_settled t = is_some (lookup settled t.stages)

-- `between`
unfoldable pub between : PaymentTimeline → PaymentStage → PaymentStage → Duration
between t from to = elim (lookup from t.stages) [
  | none ↦ not_known (never_observed from)
  | some start ↦ elim (lookup to t.stages) [
    | none ↦ not_known (never_observed to)
    | some end ↦
        if ltb end.at start.at
        then not_known (clocks_disagree to from)
        else known (end.at - start.at)
  ]
]

unfoldable pub end_to_end : PaymentTimeline → Duration
end_to_end t = between t authorized settled

-- `PAYMENT_STAGES.filter`
unfoldable pub observed : PaymentTimeline → List PaymentStage → List PaymentStage
observed t [] = []
observed t (stage ∷ stages) =
    if is_some (lookup stage t.stages) then stage ∷ observed t stages else observed t stages

-- The leg between two observed stages.
unfoldable pub leg : PaymentTimeline → PaymentStage → PaymentStage → TimelineLeg
leg t from to = record {
  from = from;
  to = to;
  duration = between t from to;
  skipped = take (rank to - (rank from + 1)) (drop (rank from + 1) payment_stages);
}

-- The loop of `timelineLegs`, from the stage before.
unfoldable pub legs_from : PaymentTimeline → PaymentStage → List PaymentStage → List TimelineLeg
legs_from t from [] = []
legs_from t from (to ∷ stages) = leg t from to ∷ legs_from t to stages

unfoldable pub legs_of : PaymentTimeline → List PaymentStage → List TimelineLeg
legs_of t [] = []
legs_of t (from ∷ stages) = legs_from t from stages

-- `timelineLegs`
unfoldable pub timeline_legs : PaymentTimeline → List TimelineLeg
timeline_legs t = legs_of t (observed t payment_stages)

-- `stalledFor`
unfoldable pub stalled_for : PaymentTimeline → ℕ → Duration
stalled_for t now = elim (latest_stage t) [
  | none ↦ not_known nothing_observed
  | some latest ↦
      if is_settled t then not_known already_settled else elim (lookup latest t.stages) [
        | none ↦ known now
        | some r ↦ if ltb now r.at then not_known (now_before latest) else known (now - r.at)
      ]
]

pub data PaymentDisplayState : Type 0 where
  not_started in_progress complete failed : PaymentDisplayState

pub record PaymentDisplay : Type 0 where
  pub state : PaymentDisplayState
  pub stage : Option PaymentStage

-- `describeTimeline`, without the text of its detail
unfoldable pub describe_timeline : PaymentTimeline → PaymentDisplay
describe_timeline t = elim t.failure [
  | some f ↦ record { state = failed; stage = some f.stage }
  | none ↦
      if is_settled t
      then record { state = complete; stage = some settled }
      else elim (latest_stage t) [
        | none ↦ record { state = not_started; stage = none }
        | some latest ↦ record { state = in_progress; stage = some latest }
      ]
]
