-- ===== src/Nonce.antt =====
-- siwx/src/nonce-consumption.ts: the nonces of sign-in requests, in the memory storage.
pub mod Replay
mod Tests
use connect_lib.Base.{Bool, true, false, not, ◌&&◌, ◌||◌, List, [], ◌∷◌, if◌then◌else◌}
use connect_lib.Base.Sets.{has, add, remove}
use connect_lib.Base.Text.{Text, text_eq_of}

-- The two sets of `createMemoryNonceStorage`.
pub record NonceStorage : Type 0 where
  pub issued : List Text
  pub consumed : List Text

abbrev pub create_memory_nonce_storage : NonceStorage
create_memory_nonce_storage = record { issued = []; consumed = [] }

unfoldable pub issue_nonce : Text → NonceStorage → NonceStorage
issue_nonce nonce s = record s { issued = add nonce s.issued }

unfoldable pub consume_nonce : Text → NonceStorage → NonceStorage
consume_nonce nonce s = record s { consumed = add nonce s.consumed }

unfoldable pub remove_nonce : Text → NonceStorage → NonceStorage
remove_nonce nonce s = record { issued = remove nonce s.issued; consumed = remove nonce s.consumed }

-- `consumeIfValid`
unfoldable pub consume_if_valid : Text → NonceStorage → Bool × NonceStorage
consume_if_valid nonce s =
    if not (has nonce s.issued) || has nonce s.consumed
    then (false, s)
    else (true, record s { consumed = add nonce s.consumed })

unfoldable pub is_nonce_issued : Text → NonceStorage → Bool
is_nonce_issued nonce s = has nonce s.issued

unfoldable pub is_nonce_consumed : Text → NonceStorage → Bool
is_nonce_consumed nonce s = has nonce s.consumed

-- `isNonceValid`
unfoldable pub is_nonce_valid : Text → NonceStorage → Bool
unfolding is_nonce_issued is_nonce_consumed
is_nonce_valid nonce s =
    if not (is_nonce_issued nonce s) then false else not (is_nonce_consumed nonce s)
