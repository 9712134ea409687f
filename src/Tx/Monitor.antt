-- ===== src/Tx/Monitor.antt =====
-- tx-monitor/TxMonitor.ts: watching transactions, and the events made from the poller's reports.
--
-- Events are outputs, in the order in which they are emitted. The immediate first poll of
-- `startPolling` is a `poll` step of its own.
pub mod Watch
pub mod Ending
pub mod Controls
pub mod Persisted
pub mod Delivered
mod Tests
use connect_lib.Base.{
  ℕ, Bool, true, false, not, ◌&&◌, ◌||◌, Option, none, some, List, [], ◌∷◌, ◌++◌, ltb,
  if◌then◌else◌, or_else, is_some,
}
use connect_lib.Base.Dict.{Dict, lookup, insert, erase}
use connect_lib.Base.Text.{Text, codes, text_eq, pair_eq_of}
use connect_lib.Tx.Keys.{Key, contains}
use connect_lib.Tx.Types.{
  TxStatus, TxStatusEntry, InitialEntry, WatchOptions, StatusUpdate, Field, assign, same_status,
}
use connect_lib.Tx.Poller.{
  TxPoller, Answers, Callback, on_status, on_error, no_initial, start_polling, stop_polling,
  stop_all, default_backoff,
}
use connect_lib.Tx.Poll.{poll_once}
use connect_lib.Tx.History.{TxHistory, upsert, get, delete, cleanup, get_all_hashes}

-- The counters of the source's record are only ever written 0.
pub record WatchEntry : Type 0 where
  pub hash : Text
  pub chain_id : ℕ
  pub options : WatchOptions

-- `WatchTxOptions`, before the defaults
pub record WatchTxOptions : Type 0 where
  pub required_confirmations : Option ℕ
  pub poll_interval : Option ℕ
  pub label : Option Text
  pub memo : Option Text
  pub initial_entry : Option InitialEntry

pub record TxMonitor : Type 0 where
  pub default_required_confirmations : ℕ
  pub default_poll_interval : ℕ
  pub retention_days : ℕ
  pub poller : TxPoller
  pub store : TxHistory
  pub watchers : Dict Key WatchEntry
  pub statuses : Dict Key TxStatusEntry
  pub running : Bool

pub data Event : Type 0 where
  status_change : TxStatusEntry → Event
  confirmed : TxStatusEntry → Event
  failed : TxStatusEntry → Text → Event
  reorg : Text → Option ℕ → Option ℕ → Event

-- The constructor; the poller is made with its default backoff.
unfoldable pub new_monitor : Option ℕ → Option ℕ → Option ℕ → TxHistory → TxMonitor
new_monitor confirmations interval days store = record {
  default_required_confirmations = or_else confirmations 1;
  default_poll_interval = or_else interval 15000;
  retention_days = or_else days 30;
  poller = record {
    polls = [];
    chain_polls = [];
    chain_timers = [];
    default_interval = or_else interval 15000;
    backoff_config = default_backoff;
  };
  store = store;
  watchers = [];
  statuses = [];
  running = false;
}

-- The options of a watch, with the monitor's defaults.
unfoldable pub merge_options : TxMonitor → WatchTxOptions → WatchOptions
merge_options m o = record {
  required_confirmations = or_else o.required_confirmations m.default_required_confirmations;
  poll_interval = or_else o.poll_interval m.default_poll_interval;
  label = or_else o.label [];
  memo = or_else o.memo [];
  initial_entry = or_else o.initial_entry no_initial;
}

pub is_terminal : TxStatus → Bool
is_terminal s = same_status s TxStatus.confirmed || same_status s TxStatus.failed

-- The status with which a stored entry is watched again.
resumed : TxStatus → TxStatus
resumed TxStatus.mined = TxStatus.mined
resumed _ = TxStatus.unknown

-- The entry of a transaction that the store does not know.
unfoldable pub created_entry : Text → ℕ → InitialEntry → ℕ → TxStatusEntry
created_entry hash chain_id i now = record {
  hash = hash;
  chain_id = chain_id;
  from = or_else i.from [];
  to = or_else i.to [];
  value = or_else i.value (codes "0x0");
  call_data = i.call_data;
  nonce = i.nonce;
  status = TxStatus.unknown;
  block_number = none;
  block_hash = none;
  gas_used = none;
  effective_gas_price = none;
  created_at = now;
  confirmed_at = none;
  updated_at = now;
  error = none;
  replacement_count = 0;
}

-- The registration at the end of `watchTx`.
unfoldable pub register : Text → ℕ → WatchOptions → TxStatusEntry → ℕ → TxMonitor → TxMonitor
register hash chain_id options entry now m = record m {
  statuses = insert (chain_id, hash) entry m.statuses;
  store = upsert entry m.store;
  watchers =
      insert (chain_id, hash) (record { hash = hash; chain_id = chain_id; options = options })
        m.watchers;
  poller = start_polling hash chain_id (some options.poll_interval) none now m.poller;
}

-- `watchTx`, past the test for a watch that is already there
watch_stored :
    Text → ℕ → WatchOptions → ℕ → TxMonitor → Option TxStatusEntry → TxStatusEntry × TxMonitor
unfolding is_terminal resumed
watch_stored hash chain_id options now m (some stored) =
    if is_terminal stored.status
    then (stored, record m { statuses = insert (chain_id, hash) stored m.statuses })
    else (let entry : TxStatusEntry = record stored {
      status = resumed stored.status;
      updated_at = now;
    } in
        (entry, register hash chain_id options entry now m))
watch_stored hash chain_id options now m none =
    let entry : TxStatusEntry = created_entry hash chain_id options.initial_entry now in
    (entry, register hash chain_id options entry now m)

-- The status that `watchTx` returns at once, where the transaction is watched already.
already : Key → TxMonitor → Option TxStatusEntry
already key m = if is_some (lookup key m.watchers) then lookup key m.statuses else none

-- `watchTx`: the entry that it returns, and the monitor after it
unfoldable pub watch_tx : Text → ℕ → WatchTxOptions → ℕ → TxMonitor → TxStatusEntry × TxMonitor
unfolding already watch_stored
watch_tx hash chain_id o now m = elim (already (chain_id, hash) m) [
  | some existing ↦ (existing, m)
  | none ↦ watch_stored hash chain_id (merge_options m o) now m (get hash (some chain_id) m.store)
]

-- `stopWatching` on one chain
unfoldable pub stop_watching : Text → ℕ → TxMonitor → TxMonitor
stop_watching hash chain_id m = record m {
  poller = stop_polling hash (some chain_id) m.poller;
  watchers = erase (chain_id, hash) m.watchers;
}

-- The merge of an update into the current entry.
pub merge_update : TxStatusEntry → StatusUpdate → ℕ → TxStatusEntry
merge_update e u now = record e {
  status = u.status;
  block_number = assign e.block_number u.block_number;
  block_hash = assign e.block_hash u.block_hash;
  gas_used = assign e.gas_used u.gas_used;
  effective_gas_price = assign e.effective_gas_price u.effective_gas_price;
  confirmed_at = assign e.confirmed_at u.confirmed_at;
  error = assign e.error u.error;
  updated_at = now;
}

-- `prevStatus !== "pending" && newStatus === "pending"`
pub is_reorg : TxStatus → TxStatus → Bool
is_reorg previous next =
    not (same_status previous TxStatus.pending) && same_status next TxStatus.pending

-- The current entry after the reorg step, and its event.
reorg_step : Bool → TxStatusEntry → StatusUpdate → TxStatusEntry × List Event
reorg_step false e u = (e, [])
reorg_step true e u = (
  record e { block_number = none; block_hash = none },
  reorg e.hash e.block_number (assign none u.block_number) ∷ [],
)

-- The events of a change of status, and the entry with its time of confirmation.
change_step : TxStatus → TxStatus → TxStatusEntry → StatusUpdate → ℕ → TxStatusEntry × List Event
change_step previous next e u now =
    if same_status previous next
    then (e, [])
    else if same_status next TxStatus.confirmed
    then (let e' : TxStatusEntry = record e { confirmed_at = some now } in
        (e', status_change e ∷ confirmed e' ∷ []))
    else if same_status next TxStatus.failed
    then (
      e,
      status_change e ∷ failed e (or_else (assign none u.error) (codes "Unknown error")) ∷ [],
    )
    else (e, status_change e ∷ [])

-- The end of a watch on a terminal status.
stop_step : TxStatus → TxStatus → Key → TxMonitor → TxMonitor
stop_step previous next key m =
    if not (same_status previous next) && is_terminal next
    then elim (lookup key m.watchers) [
      | none ↦ m
      | some w ↦ record m {
        poller = stop_polling w.hash (some w.chain_id) m.poller;
        watchers = erase key m.watchers;
      }
    ]
    else m

-- Both steps on one entry: the entry that is kept and persisted, and the events.
pub transition : TxStatusEntry → StatusUpdate → ℕ → TxStatusEntry × List Event
unfolding merge_update is_reorg reorg_step change_step
transition current u now =
    let (e, reorged) =
      reorg_step (is_reorg current.status u.status) (merge_update current u now) u in
    let (e', changed) = change_step current.status u.status e u now in (e', reorged ++ changed)

-- `handleStatusUpdate`
unfoldable pub handle_status_update : Key → StatusUpdate → ℕ → TxMonitor → TxMonitor × List Event
unfolding stop_step
handle_status_update key u now m = elim (lookup key m.statuses) [
  | none ↦ (m, [])
  | some current ↦
      let next : TxStatusEntry × List Event = transition current u now in
      let stopped : TxMonitor = stop_step current.status u.status key m in
      (
        record stopped { statuses = insert key next.0 m.statuses; store = upsert next.0 m.store },
        next.1,
      )
]

-- `handlePollError`
unfoldable pub handle_poll_error : Key → Text → ℕ → TxMonitor → TxMonitor × List Event
handle_poll_error key message now m = elim (lookup key m.statuses) [
  | none ↦ (m, [])
  | some current ↦
      let e : TxStatusEntry = record current { error = some message; updated_at = now } in
      (
        record m { statuses = insert key e m.statuses; store = upsert e m.store },
        status_change e ∷ [],
      )
]

-- The callbacks that `watchTx` gives to the poller.
deliver : Key → Text → ℕ → List Callback → TxMonitor → TxMonitor × List Event
deliver key message now [] m = (m, [])
deliver key message now (on_status u ∷ cs) m =
    let (m', es) = handle_status_update key u now m in
    let (m'', fs) = deliver key message now cs m' in (m'', es ++ fs)
deliver key message now (on_error ∷ cs) m =
    let (m', es) = handle_poll_error key message now m in
    let (m'', fs) = deliver key message now cs m' in (m'', es ++ fs)

-- One poll of a watched transaction, by its chain's timer or by `refreshTx` (`force`).
unfoldable pub poll : Key → Bool → ℕ → Answers → TxMonitor → TxMonitor × List Event
unfolding deliver
poll key force now a m =
    let polled : TxPoller × List Callback = poll_once key force now a m.poller in
    deliver key a.failure now polled.1 (record m { poller = polled.0 })

-- `stop`
unfoldable pub stop : TxMonitor → TxMonitor
stop m = record m { running = false; poller = stop_all m.poller; watchers = [] }

keep_known : List Key → Dict Key TxStatusEntry → Dict Key TxStatusEntry
keep_known known [] = []
keep_known known ((k, e) ∷ m) =
    if contains k known then (k, e) ∷ keep_known known m else keep_known known m

-- `runCleanup`
unfoldable pub run_cleanup : ℕ → TxMonitor → TxMonitor
unfolding keep_known
run_cleanup now m =
    let cleaned : TxHistory × ℕ = cleanup m.retention_days now m.store in
    if ltb 0 cleaned.1
    then record m { store = cleaned.0; statuses = keep_known (get_all_hashes cleaned.0) m.statuses }
    else record m { store = cleaned.0 }
