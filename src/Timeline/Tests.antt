-- ===== src/Timeline/Tests.antt =====
-- A payment that was polled twice and settled without a confirmation.
use connect_lib.Base.{◌≡◌, refl, none, List, [], ◌∷◌}
use connect_lib.Base.Dict.{lookup, insert}
use connect_lib.Base.Text.{codes}
use connect_lib.Timeline.{
  PaymentStage, authorized, submitted, included, settled, PaymentTimeline, known, stage_eq,
  start_timeline, record_stage, between, end_to_end, observed, leg, legs_from, legs_of,
  timeline_legs,
}
use connect_lib.Timeline.Recording.{Recording, stage, replay, first_of, first_failure, replay-first}
use connect_lib.Timeline.Legs.{total, timeline_legs-end_to_end}

abbrev recordings : List Recording
recordings =
    stage authorized (codes "a") 10
    ∷ stage submitted (codes "b") 20
    ∷ stage included (codes "c") 35
    ∷ stage included (codes "d") 50
    ∷ stage settled (codes "e") 90
    ∷ []

abbrev timeline : PaymentTimeline
timeline = record {
  stages =
      (authorized, record { at = 10; evidence = codes "a" })
      ∷ (submitted, record { at = 20; evidence = codes "b" })
      ∷ (included, record { at = 35; evidence = codes "c" })
      ∷ (settled, record { at = 90; evidence = codes "e" })
      ∷ [];
  failure = none;
}

replayed : replay recordings start_timeline ≡ timeline
unfolding replay record_stage lookup insert
replayed = refl

replay-first_example :
    ((s : PaymentStage)
      → lookup s (replay recordings start_timeline).stages ≡ first_of s recordings)
    × ((replay recordings start_timeline).failure ≡ first_failure recordings)
replay-first_example = replay-first recordings

timeline_legs-end_to_end_example : end_to_end timeline ≡ known 80
unfolding timeline_legs legs_of legs_from observed leg between total lookup
timeline_legs-end_to_end_example =
    timeline_legs-end_to_end timeline (record { at = 10; evidence = codes "a" })
      (record { at = 90; evidence = codes "e" }) 80 refl refl refl
