-- ===== src/Timeline/Display.antt =====
-- What a timeline displays, against the recordings behind it.
use connect_lib.Base.{◌<◌, ◌≡◌, ◌↔◌, true, none, some, List, arith, is_some}
use connect_lib.Base.Dict.{lookup}
use connect_lib.Timeline.{
  PaymentStage, authorized, submitted, included, confirmed, settled, PaymentTimeline, stage_eq,
  latest_stage, latest_from, rank, is_settled, describe_timeline, complete, start_timeline,
}
use connect_lib.Timeline.Recording.{Recording, replay, first_of, first_failure, replay-first}

-- The latest stage was observed, and no stage of a higher rank was.
pub latest_stage-last :
    (t : PaymentTimeline) (s : PaymentStage)
    → latest_stage t ≡ some s
    → (is_some (lookup s t.stages) ≡ true)
      × ((s' : PaymentStage) → rank s < rank s' → lookup s' t.stages ≡ none)
unfolding latest_stage latest_from rank
latest_stage-last t authorized h = (ground arith, λ s' above. ground arith)
latest_stage-last t submitted h = (ground arith, λ s' above. ground arith)
latest_stage-last t included h = (ground arith, λ s' above. ground arith)
latest_stage-last t confirmed h = (ground arith, λ s' above. ground arith)
latest_stage-last t settled h = (ground arith, λ s' above. ground arith)

-- Whatever was recorded, in whatever order: the payment is displayed as complete exactly when its
-- settlement was recorded and no failure was.
pub describe_timeline-complete :
    (rs : List Recording)
    → ((describe_timeline (replay rs start_timeline)).state ≡ complete)
      ↔ ((is_some (first_of settled rs) ≡ true) × (first_failure rs ≡ none))
unfolding describe_timeline is_settled
describe_timeline-complete rs =
    let (stages, failure) = replay-first rs in
    let at : lookup settled (replay rs start_timeline).stages ≡ first_of settled rs =
      stages settled in
    ground (arith, at, failure)
