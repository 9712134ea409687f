-- ===== src/Tx/Monitor/Watch.antt =====
-- What a watch hands to the poller, and the first report on it.
use connect_lib.Base.{ℕ, ◌≡◌, refl, true, none, some, List, ◌∷◌}
use connect_lib.Base.Dict.{lookup, lookup-insert_self}
use connect_lib.Base.Text.{Text, pair_eq_of}
use connect_lib.Tx.Types.{TxStatus, TxStatusEntry, bare}
use connect_lib.Tx.Poller.{PollEntry, TxPoller, start_polling, new_entry, default_options}
use connect_lib.Tx.History.{get}
use connect_lib.Tx.Monitor.{
  TxMonitor, WatchTxOptions, Event, reorg, watch_tx, watch_stored, register, created_entry,
  merge_options, already, handle_status_update, transition, is_reorg, merge_update, reorg_step,
  change_step,
}

-- Nothing is known of the transaction: no watch, no poll and no stored entry.
pub record IsNew (hash : Text) (chain_id : ℕ) (m : TxMonitor) : Type 0 where
  pub unwatched : lookup (chain_id, hash) m.watchers ≡ none
  pub unpolled : lookup (chain_id, hash) m.poller.polls ≡ none
  pub unstored : get hash (some chain_id) m.store ≡ none

watch_tx_new :
    (hash : Text) (c : ℕ) (o : WatchTxOptions) (now : ℕ) (m : TxMonitor)
    → IsNew hash c m
    → (watch_tx hash c o now m).1
      ≡ register hash c
          (merge_options m o)
          (created_entry hash c (merge_options m o).initial_entry now)
          now
          m
unfolding watch_tx already watch_stored
watch_tx_new hash c o now m n = rw (n.unwatched, n.unstored, watch_tx) refl

start_polling_new :
    (hash : Text) (c interval now : ℕ) (p : TxPoller)
    → lookup (c, hash) p.polls ≡ none
    → lookup (c, hash) (start_polling hash c (some interval) none now p).polls
      ≡ some (new_entry hash c (default_options p.default_interval (some interval)) now)
unfolding start_polling
start_polling_new hash c interval now p unpolled = rw unpolled (
    lookup-insert_self (c, hash)
      (new_entry hash c (default_options p.default_interval (some interval)) now) p.polls)

-- Whatever number of confirmations a new watch asks for, and whatever the monitor's default is, the
-- poller waits for one.
pub watch_tx-one_confirmation :
    (hash : Text) (c : ℕ) (o : WatchTxOptions) (now : ℕ) (m : TxMonitor)
    → IsNew hash c m
    → (e : PollEntry) × (lookup (c, hash) (watch_tx hash c o now m).1.poller.polls ≡ some e)
      × (e.options.required_confirmations ≡ 1)
unfolding register default_options
watch_tx-one_confirmation hash c o now m n = (
  new_entry hash c
      (default_options m.poller.default_interval (some (merge_options m o).poll_interval)) now,
  rw (watch_tx_new hash c o now m n)
      (start_polling_new hash c (merge_options m o).poll_interval now m.poller n.unpolled),
  refl,
)

-- The first report that a new watch is pending is announced as a reorg.
pub watch_tx-reorg :
    (hash : Text) (c : ℕ) (o : WatchTxOptions) (now later : ℕ) (m : TxMonitor)
    → IsNew hash c m
    → (es : List Event) × ((handle_status_update
          (c, hash)
          (bare TxStatus.pending)
          later
          (watch_tx hash c o now m).1).1
        ≡ reorg hash none none ∷ es)
unfolding register handle_status_update transition created_entry is_reorg merge_update reorg_step
    change_step
watch_tx-reorg hash c o now later m n =
    let e : TxStatusEntry = created_entry hash c (merge_options m o).initial_entry now in
    (
      (change_step TxStatus.unknown TxStatus.pending
          (reorg_step true (merge_update e (bare TxStatus.pending) later) (bare TxStatus.pending)).0
          (bare TxStatus.pending) later).1,
      rw (watch_tx_new hash c o now m n)
          (rw (lookup-insert_self (c, hash) e m.statuses, handle_status_update) refl),
    )
