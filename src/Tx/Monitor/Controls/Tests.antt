-- ===== src/Tx/Monitor/Controls/Tests.antt =====
-- A chain that is stopped, and a history that is cleared.
use connect_lib.Base.{none}
use connect_lib.Base.Dict.{lookup}
use connect_lib.Base.Text.{Text, codes, pair_eq_of}
use connect_lib.Tx.Poller.{stop_all}
use connect_lib.Tx.Poller.Registry.{stop_all-IsConsistent}
use connect_lib.Tx.History.{empty_history}
use connect_lib.Tx.Monitor.{TxMonitor, WatchTxOptions, new_monitor, watch_tx}
use connect_lib.Tx.Monitor.Persisted.{IsSound}

abbrev hash : Text
hash = codes "0xab"

abbrev blank : TxMonitor
blank = new_monitor none none none empty_history

abbrev plain : WatchTxOptions
plain = record {
  required_confirmations = none;
  poll_interval = none;
  label = none;
  memo = none;
  initial_entry = none;
}

abbrev watching : TxMonitor
watching = (watch_tx hash 1 plain 10 blank).1

blank-IsSound : IsSound blank
unfolding new_monitor lookup stop_all
blank-IsSound = record {
  persisted = record { filed = λ k e h. cc; agreed = λ k e h. cc };
  consistent = stop_all-IsConsistent blank.poller;
}
