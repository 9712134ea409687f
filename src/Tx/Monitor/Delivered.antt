-- ===== src/Tx/Monitor/Delivered.antt =====
-- TxMonitor.ts: what the reports of one poll leave in memory and in the store.
use connect_lib.Base.{ℕ, ◌≡◌, refl, Bool, some, List, [], ◌∷◌, arith, subst}
use connect_lib.Base.Dict.{lookup, lookup-insert}
use connect_lib.Base.Text.{Text, pair_eq_of, pair_eq_iff}
use connect_lib.Tx.Keys.{Key}
use connect_lib.Tx.Types.{TxStatus, TxStatusEntry, StatusUpdate}
use connect_lib.Tx.Poller.{Answers, Callback, on_status, on_error}
use connect_lib.Tx.Poll.{poll_once}
use connect_lib.Tx.Poll.Outcome.{poll_once-IsConsistent}
use connect_lib.Tx.Monitor.{
  TxMonitor, handle_status_update, handle_poll_error, transition, merge_update, is_reorg,
  reorg_step, change_step, deliver, poll,
}
use connect_lib.Tx.Monitor.Persisted.{
  IsSound, handle_status_update-IsSound, handle_poll_error-IsSound, poll-IsSound,
}

-- The status that the last report of a status leaves.
abbrev pub reported : TxStatus → List Callback → TxStatus
reported s [] = s
reported s (on_status u ∷ cs) = reported u.status cs
reported s (on_error ∷ cs) = reported s cs

-- The entry of a key, in memory and in the store alike, with its status.
pub record IsRecorded (key : Key) (status : TxStatus) (m : TxMonitor) : Type 0 where
  pub entry : TxStatusEntry
  pub known : lookup key m.statuses ≡ some entry
  pub stored : lookup key m.store.storage ≡ some entry
  pub is : entry.status ≡ status

transition-status :
    (e : TxStatusEntry) (u : StatusUpdate) (now : ℕ) → (transition e u now).0.status ≡ u.status
unfolding transition merge_update is_reorg reorg_step change_step
transition-status e u now = ground arith

known_after_update :
    (key : Key) (u : StatusUpdate) (now : ℕ) (m : TxMonitor) (e : TxStatusEntry)
    → lookup key m.statuses ≡ some e
    → lookup key (handle_status_update key u now m).0.statuses ≡ some (transition e u now).0
unfolding handle_status_update
known_after_update key u now m e known =
    rw (known, handle_status_update)
      (ground (arith, lookup-insert key key (transition e u now).0 m.statuses, pair_eq_iff key key))

known_after_error :
    (key : Key) (message : Text) (now : ℕ) (m : TxMonitor) (e : TxStatusEntry)
    → lookup key m.statuses ≡ some e
    → lookup key (handle_poll_error key message now m).0.statuses
      ≡ some (record e { error = some message; updated_at = now })
unfolding handle_poll_error
known_after_error key message now m e known =
    rw (known, handle_poll_error)
      (ground (
        arith,
        lookup-insert key key (record e { error = some message; updated_at = now }) m.statuses,
        pair_eq_iff key key,
      ))

deliver-IsRecorded :
    (key : Key) (message : Text) (now : ℕ) (cs : List Callback) (m : TxMonitor) (e : TxStatusEntry)
    → IsSound m
    → lookup key m.statuses ≡ some e
    → IsRecorded key (reported e.status cs) (deliver key message now cs m).0
unfolding deliver
deliver-IsRecorded key message now [] m e v known = record {
  entry = e;
  known = known;
  stored = v.persisted.agreed key e known;
  is = refl;
}
deliver-IsRecorded key message now (on_status u ∷ cs) m e v known =
    subst
      (λ (s : TxStatus).
        IsRecorded key (reported s cs)
          (deliver key message now cs (handle_status_update key u now m).0).0)
      (transition-status e u now)
      (deliver-IsRecorded key message now cs (handle_status_update key u now m).0
        (transition e u now).0 (handle_status_update-IsSound key u now m v)
        (known_after_update key u now m e known))
deliver-IsRecorded key message now (on_error ∷ cs) m e v known =
    deliver-IsRecorded key message now cs (handle_poll_error key message now m).0
      (record e { error = some message; updated_at = now })
      (handle_poll_error-IsSound key message now m v) (known_after_error key message now m e known)

-- A poll of a transaction that a sound monitor knows leaves the monitor sound, and leaves one entry
-- of the transaction in memory and in the store, whose status is the last one that the poller
-- reported, or the former one where it reported none.
pub poll-IsRecorded :
    (key : Key) (force : Bool) (now : ℕ) (a : Answers) (m : TxMonitor) (e : TxStatusEntry)
    → IsSound m
    → lookup key m.statuses ≡ some e
    → IsSound (poll key force now a m).0
      × IsRecorded key
          (reported e.status (poll_once key force now a m.poller).1)
          (poll key force now a m).0
unfolding poll
poll-IsRecorded key force now a m e v known = (
  poll-IsSound key force now a m v,
  deliver-IsRecorded key a.failure now (poll_once key force now a m.poller).1
      (record m { poller = (poll_once key force now a m.poller).0 }) e
      (record {
        persisted = v.persisted;
        consistent = poll_once-IsConsistent v.consistent key force now a;
      })
      known,
)
