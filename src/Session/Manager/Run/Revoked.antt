-- ===== src/Session/Manager/Run/Revoked.antt =====
-- SessionKeyManager.ts: a key that is not active, in any sequence of calls.
use connect_lib.Base.{ℕ, ◌≡◌, refl, ◌∙◌, inl, inr, false, some, List, [], ◌∷◌, arith, Bool-cases}
use connect_lib.Base.Bytes.{Bytes}
use connect_lib.Base.Text.{Text}
use connect_lib.Session.Types.{SessionKeyTransaction, StoredSessionKey}
use connect_lib.Session.Store.{get}
use connect_lib.Session.Sign.{Vault}
use connect_lib.Session.Manager.{is_active}
use connect_lib.Session.Manager.Refresh.{AreUnique}
use connect_lib.Session.Manager.Run.{Call, State, step, run, AreOther}
use connect_lib.Session.Manager.Run.Steps.{Moves, step-Moves}

-- No active key has the id.
abbrev pub IsInactive : Text → List StoredSessionKey → Type 0
IsInactive id keys = (k : StoredSessionKey) → get id keys ≡ some k → is_active k.status ≡ false

moves_lem :
    (id : Text) (keys : List StoredSessionKey) (log : List SessionKeyTransaction) (s : State)
    → IsInactive id keys
    → Moves id (keys, log) s
    → AreUnique s.0 × IsInactive id s.0 × (s.1 ≡ log)
moves_lem id keys log (keys', log') over (unique, inl (keeps, same)) = (
  unique,
  λ k' found.
      let (k, before, v) = keeps k' found in
      elim (Bool-cases (is_active k'.status)) [
        | inl live ↦ absurd (ground (arith, over k before, v.stays live))
        | inr dead ↦ dead
      ],
  same,
)
moves_lem id keys log (keys', log') over (unique, inr (tx, now, c, same)) =
    absurd (ground (arith, over c.key c.stored, c.active))

module _ (x : Vault) (keccak : Bytes → Bytes) (session_key_address : Text → Text) (id : Text) where
  -- Once the key of an id has been revoked or has expired, no sequence of calls that creates no key
  -- of that id signs a transaction under it or makes it active again.
  pub run-IsInactive :
      (calls : List (ℕ × Call)) (keys : List StoredSessionKey) (log : List SessionKeyTransaction)
      → AreUnique keys
      → IsInactive id keys
      → AreOther id calls
      → IsInactive id (run x keccak session_key_address id calls (keys, log)).0
        × ((run x keccak session_key_address id calls (keys, log)).1 ≡ log)
  unfolding run
  run-IsInactive [] keys log unique over others = (over, refl)
  run-IsInactive ((now, call) ∷ calls) keys log unique over (other, others) =
      let (keys', log') = step x keccak session_key_address id now call (keys, log) in
      let (unique', over', same) =
        moves_lem id keys log _ over
          (step-Moves x keccak session_key_address id now call keys log unique other) in
      let (still, rest) = run-IsInactive calls _ _ unique' over' others in (still, rest ∙ same)
