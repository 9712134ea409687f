-- ===== src/Tx/Monitor/Ending.antt =====
-- How a watch ends: what a terminal report emits, stores and stops.
use connect_lib.Base.{ℕ, ◌≡◌, ◌≢◌, true, false, none, some, arith}
use connect_lib.Base.Dict.{lookup, lookup-erase}
use connect_lib.Base.Text.{pair_eq_of, pair_eq_iff}
use connect_lib.Tx.Keys.{Key}
use connect_lib.Tx.Types.{TxStatusEntry, StatusUpdate, same_status, same_status_iff}
use connect_lib.Tx.Poller.Registry.{stop_polling-gone}
use connect_lib.Tx.Monitor.{TxMonitor, WatchEntry, handle_status_update, is_terminal, stop_step}

-- A terminal report on a transaction that was not in that status ends its watch and its poll.
pub handle_status_update-ends :
    (key : Key) (u : StatusUpdate) (now : ℕ) (m : TxMonitor) (current : TxStatusEntry)
    (w : WatchEntry)
    → lookup key m.statuses ≡ some current
    → lookup key m.watchers ≡ some w
    → (w.chain_id, w.hash) ≡ key
    → is_terminal u.status ≡ true
    → current.status ≢ u.status
    → let m' = (handle_status_update key u now m).0 in
      (lookup key m'.watchers ≡ none) × (lookup key m'.poller.polls ≡ none)
unfolding handle_status_update stop_step
handle_status_update-ends key u now m current w known watched filed ends other =
    let differ : same_status current.status u.status ≡ false =
      ground (arith, same_status_iff current.status u.status) in
    rw (known, differ, ends, watched, handle_status_update)
      (
        ground (arith, lookup-erase key key m.watchers, pair_eq_iff key key),
        rw (← filed) (stop_polling-gone w.hash w.chain_id m.poller),
      )
