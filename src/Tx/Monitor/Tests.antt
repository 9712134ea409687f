-- ===== src/Tx/Monitor/Tests.antt =====
-- A watch from its start to its end.
use connect_lib.Base.{◌≡◌, refl, false, none, some, List, [], ◌∷◌}
use connect_lib.Base.Dict.{lookup, insert}
use connect_lib.Base.Text.{Text, codes, pair_eq_of}
use connect_lib.Tx.Types.{TxStatus, TxStatusEntry, bare}
use connect_lib.Tx.Poller.{PollEntry, Answers, stop_all}
use connect_lib.Tx.Poller.Registry.{stop_all-IsConsistent}
use connect_lib.Tx.History.{empty_history, get}
use connect_lib.Tx.Monitor.{
  TxMonitor, WatchEntry, WatchTxOptions, Event, reorg, new_monitor, register, watch_tx,
  merge_options, handle_status_update, poll, is_terminal,
}
use connect_lib.Tx.Monitor.Watch.{IsNew, watch_tx-one_confirmation, watch_tx-reorg}
use connect_lib.Tx.Monitor.Ending.{handle_status_update-ends}
use connect_lib.Tx.Poll.{poll_once}
use connect_lib.Tx.Monitor.Persisted.{IsSound, watch_tx-IsSound}
use connect_lib.Tx.Monitor.Delivered.{reported, IsRecorded, poll-IsRecorded}

abbrev hash : Text
hash = codes "0xab"

abbrev fresh : TxMonitor
fresh = new_monitor none none none empty_history

abbrev six : WatchTxOptions
six = record {
  required_confirmations = some 6;
  poll_interval = none;
  label = none;
  memo = none;
  initial_entry = none;
}

fresh-IsNew : IsNew hash 1 fresh
unfolding new_monitor lookup get
fresh-IsNew = record { unwatched = refl; unpolled = refl; unstored = refl }

watch_tx-one_confirmation_example :
    (e : PollEntry) × (lookup (1, hash) (watch_tx hash 1 six 10 fresh).1.poller.polls ≡ some e)
    × (e.options.required_confirmations ≡ 1)
watch_tx-one_confirmation_example = watch_tx-one_confirmation hash 1 six 10 fresh fresh-IsNew

watch_tx-reorg_example :
    (es : List Event) × ((handle_status_update
        (1, hash)
        (bare TxStatus.pending)
        20
        (watch_tx hash 1 six 10 fresh).1).1
      ≡ reorg hash none none ∷ es)
watch_tx-reorg_example = watch_tx-reorg hash 1 six 10 20 fresh fresh-IsNew

fresh-IsSound : IsSound fresh
unfolding new_monitor lookup stop_all
fresh-IsSound = record {
  persisted = record { filed = λ k e h. cc; agreed = λ k e h. cc };
  consistent = stop_all-IsConsistent (fresh.poller);
}

watched_six-IsSound : IsSound (watch_tx hash 1 six 10 fresh).1
watched_six-IsSound = watch_tx-IsSound hash 1 six 10 fresh fresh-IsSound

-- A receipt in block 7, which is enough at once for the one confirmation that is asked for.
abbrev mined : Answers
mined = record {
  receipt = some (
      some (record {
        transaction_hash = some hash;
        block_number = 7;
        block_hash = codes "0x9";
        status = codes "0x1";
        gas_used = codes "0x5208";
        effective_gas_price = codes "0x1";
      }));
  block = some 9;
  found = none;
  failure = [];
}

abbrev watching : TxMonitor
watching = (watch_tx hash 1 six 10 fresh).1

abbrev first_entry : TxStatusEntry
first_entry = (watch_tx hash 1 six 10 fresh).0

poll-IsRecorded_example :
    IsSound (poll (1, hash) false 20 mined watching).0
    × IsRecorded
        (1, hash)
        (reported first_entry.status (poll_once (1, hash) false 20 mined watching.poller).1)
        (poll (1, hash) false 20 mined watching).0
unfolding watch_tx register new_monitor get lookup insert
poll-IsRecorded_example =
    poll-IsRecorded (1, hash) false 20 mined watching first_entry watched_six-IsSound refl

abbrev entry : TxStatusEntry
entry = record {
  hash = hash;
  chain_id = 1;
  from = [];
  to = [];
  value = codes "0x0";
  call_data = none;
  nonce = none;
  status = TxStatus.pending;
  block_number = none;
  block_hash = none;
  gas_used = none;
  effective_gas_price = none;
  created_at = 5;
  confirmed_at = none;
  updated_at = 5;
  error = none;
  replacement_count = 0;
}

abbrev watch : WatchEntry
watch = record { hash = hash; chain_id = 1; options = merge_options fresh six }

abbrev watched : TxMonitor
watched = record fresh { statuses = ((1, hash), entry) ∷ []; watchers = ((1, hash), watch) ∷ [] }

handle_status_update-ends_example :
    let m' = (handle_status_update (1, hash) (bare TxStatus.failed) 20 watched).0 in
    (lookup (1, hash) m'.watchers ≡ none) × (lookup (1, hash) m'.poller.polls ≡ none)
unfolding lookup is_terminal
handle_status_update-ends_example =
    handle_status_update-ends (1, hash) (bare TxStatus.failed) 20 watched entry watch refl refl refl
      refl (λ e. cc)
