-- ===== src/Nonce/Tests.antt =====
-- A nonce issued once and tried twice.
use connect_lib.Base.{◌+◌, ◌≤◌, ◌≡◌, refl, List, [], ◌∷◌}
use connect_lib.Base.Sets.{has, add}
use connect_lib.Base.Text.{Text, codes, text_eq_of}
use connect_lib.Nonce.{NonceStorage, create_memory_nonce_storage, consume_if_valid, issue_nonce}
use connect_lib.Nonce.Replay.{
  NonceCall, issues, verifies, nothing, tally, tally_step, bump, tally-accepted,
}

abbrev nonce : Text
nonce = codes "n1"

abbrev calls : List NonceCall
calls = verifies nonce ∷ issues nonce ∷ verifies nonce ∷ verifies nonce ∷ []

accepted_once : (tally nonce calls (create_memory_nonce_storage, nothing)).1.accepted ≡ 1
unfolding tally tally_step bump issue_nonce consume_if_valid has add
accepted_once = refl

tally-accepted_example :
    let t = (tally nonce calls (create_memory_nonce_storage, nothing)).1 in
    (t.accepted ≤ t.issued) × (t.accepted ≤ t.removed + 1)
tally-accepted_example = tally-accepted nonce calls

abbrev storage : NonceStorage
storage = record { issued = nonce ∷ codes "n2" ∷ []; consumed = [] }
