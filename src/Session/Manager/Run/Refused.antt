-- ===== src/Session/Manager/Run/Refused.antt =====
-- SessionKeyManager.ts: a call that is refused a signature.
use connect_lib.Base.{ℕ, ◌/◌, ◌≡◌, List}
use connect_lib.Base.Bytes.{Bytes}
use connect_lib.Base.Text.{Text}
use connect_lib.Session.Types.{StoredSessionKey, SessionKeyError, thrown}
use connect_lib.Session.Sign.{Vault}
use connect_lib.Session.Manager.Outcome.{IsLeft}
use connect_lib.Session.Manager.Run.{SignCall, answer}
use connect_lib.Session.Manager.Run.Steps.{answer-Outcome}

-- Whichever way a signature is asked for, a call that throws has counted nothing: the stored keys
-- are as they were, but that one which is past its expiry may have been marked as expired.
pub answer-IsLeft :
    (x : Vault) (keccak : Bytes → Bytes) (session_key_address : Text → Text) (now : ℕ)
    (c : SignCall) (keys keys' : List StoredSessionKey) (e : SessionKeyError)
    → answer x keccak session_key_address now c keys ≡ (thrown e, keys')
    → IsLeft (now / 1000) keys keys'
answer-IsLeft x keccak session_key_address now c keys keys' e h =
    rw h at (answer-Outcome x keccak session_key_address now c keys)
