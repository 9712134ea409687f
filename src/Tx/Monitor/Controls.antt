-- ===== src/Tx/Monitor/Controls.antt =====
-- tx-monitor/TxMonitor.ts: the methods that stop watches, ask for statuses and clear the history.
pub mod Stopped
mod Tests
use connect_lib.Base.{ℕ, Bool, true, false, Option, none, some, List, [], ◌∷◌, ◌==◌, if◌then◌else◌}
use connect_lib.Base.Dict.{Dict, lookup, erase}
use connect_lib.Base.Text.{Text, text_eq, pair_eq_of}
use connect_lib.Tx.Keys.{Key}
use connect_lib.Tx.Types.{TxStatusEntry}
use connect_lib.Tx.Poller.{Answers, stop_polling}
use connect_lib.Tx.History.{TxHistory, HistoryQuery, get, delete, get_all_hashes, query}
use connect_lib.Tx.Monitor.{TxMonitor, WatchEntry, Event, poll, run_cleanup}

-- The end of one watch.
unfoldable pub end_watch : Key → WatchEntry → TxMonitor → TxMonitor
end_watch key w m = record m {
  poller = stop_polling w.hash (some w.chain_id) m.poller;
  watchers = erase key m.watchers;
}

-- The loop of `stopWatching` over every chain, on the watches there are when it starts.
unfoldable pub stop_matching : Text → Dict Key WatchEntry → TxMonitor → TxMonitor
stop_matching hash [] m = m
stop_matching hash ((key, w) ∷ ws) m =
    stop_matching hash ws (if text_eq w.hash hash then end_watch key w m else m)

-- `stopWatching` without a chain
unfoldable pub stop_watching_everywhere : Text → TxMonitor → TxMonitor
stop_watching_everywhere hash m = stop_matching hash m.watchers m

-- `keysToRemove`
unfoldable pub keys_on_chain : ℕ → Dict Key WatchEntry → List Key
keys_on_chain chain_id [] = []
keys_on_chain chain_id ((key, w) ∷ ws) =
    if w.chain_id == chain_id then key ∷ keys_on_chain chain_id ws else keys_on_chain chain_id ws

unfoldable pub end_watches : List Key → TxMonitor → TxMonitor
end_watches [] m = m
end_watches (key ∷ keys) m =
    end_watches keys (elim (lookup key m.watchers) [ none ↦ m | some w ↦ end_watch key w m ])

-- `stopWatchingByChain`
unfoldable pub stop_watching_by_chain : ℕ → TxMonitor → TxMonitor
stop_watching_by_chain chain_id m = end_watches (keys_on_chain chain_id m.watchers) m

-- The first status of the hash, on any chain.
scan_statuses : Text → Dict Key TxStatusEntry → Option TxStatusEntry
scan_statuses hash [] = none
scan_statuses hash ((key, e) ∷ m) = if text_eq e.hash hash then some e else scan_statuses hash m

-- `getTxStatus`
unfoldable pub get_tx_status : Text → Option ℕ → TxMonitor → Option TxStatusEntry
unfolding scan_statuses
get_tx_status hash (some chain_id) m = lookup (chain_id, hash) m.statuses
get_tx_status hash none m = scan_statuses hash m.statuses

-- The chain of the first watch of the hash.
scan_watchers : Text → Dict Key WatchEntry → Option ℕ
scan_watchers hash [] = none
scan_watchers hash ((key, w) ∷ ws) =
    if text_eq w.hash hash then some w.chain_id else scan_watchers hash ws

-- `effectiveChainId` of `refreshTx`: the one given, a watch's, or the stored entry's.
unfoldable pub effective_chain : Text → Option ℕ → TxMonitor → Option ℕ
unfolding scan_watchers
effective_chain hash (some chain_id) m = some chain_id
effective_chain hash none m = elim (scan_watchers hash m.watchers) [
  | some chain_id ↦ some chain_id
  | none ↦ elim (get hash none m.store) [ none ↦ none | some e ↦ some e.chain_id ]
]

-- `refreshTx`: a poll that no backoff delays
unfoldable pub refresh_tx : Text → Option ℕ → ℕ → Answers → TxMonitor → TxMonitor × List Event
refresh_tx hash chain_id now a m = elim (effective_chain hash chain_id m) [
  | none ↦ (m, [])
  | some c ↦ poll (c, hash) true now a m
]

-- `start`, with the option `autoCleanup`
unfoldable pub start : Bool → ℕ → TxMonitor → TxMonitor
start auto_cleanup now m =
    if m.running
    then m
    else if auto_cleanup
    then run_cleanup now (record m { running = true })
    else record m { running = true }

-- The loop of `clearHistory`.
unfoldable pub delete_keys : List Key → TxHistory → TxHistory
delete_keys [] h = h
delete_keys ((chain_id, hash) ∷ keys) h = delete_keys keys (delete hash chain_id h)

-- `clearHistory`
unfoldable pub clear_history : TxMonitor → TxMonitor
clear_history m = record m { store = delete_keys (get_all_hashes m.store) m.store }
