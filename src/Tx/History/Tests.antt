-- ===== src/Tx/History/Tests.antt =====
-- The store at two entries.
use connect_lib.Base.{◌≡◌, ◌≤◌, ◌<◌, ◌-◌, ◌*◌, refl, none, some, length}
use mathlib.Core.List.{Memᴰ}
use connect_lib.Base.Dict.{lookup, insert}
use connect_lib.Base.Text.{codes, pair_eq_of}
use connect_lib.Tx.Keys.{contains, add_key}
use connect_lib.Tx.Types.{TxStatus, TxStatusEntry}
use connect_lib.Tx.History.{
  TxHistory, empty_history, upsert, get, selected, cleanup, day_ms, add_to_indexes,
  min_cleanup_entries,
}
use connect_lib.Tx.History.Index.{cleanup-get}
use connect_lib.Tx.History.Query.{of_status, selected-stale}

abbrev entry : TxStatus → TxStatusEntry
entry s = record {
  hash = codes "0xab";
  chain_id = 1;
  from = codes "0x1";
  to = codes "0x2";
  value = codes "0x0";
  call_data = none;
  nonce = none;
  status = s;
  block_number = none;
  block_hash = none;
  gas_used = none;
  effective_gas_price = none;
  created_at = 5;
  confirmed_at = none;
  updated_at = 5;
  error = none;
  replacement_count = 0;
}

abbrev one_entry : TxHistory
one_entry = upsert (entry TxStatus.pending) empty_history

cleanup-get_example :
    (100 - 1 * day_ms ≤ 5
      → get (codes "0xab") (some 1) (cleanup 1 100 one_entry).0 ≡ some (entry TxStatus.pending))
    × (5 < 100 - 1 * day_ms
        → min_cleanup_entries ≤ length one_entry.all_keys
        → get (codes "0xab") (some 1) (cleanup 1 100 one_entry).0 ≡ none)
unfolding upsert get add_to_indexes lookup insert contains add_key
cleanup-get_example =
    cleanup-get 1 100 one_entry (codes "0xab") 1 (entry TxStatus.pending) refl refl

selected-stale_example : Memᴰ (entry TxStatus.confirmed) (
    selected
      (of_status TxStatus.pending)
      (upsert (entry TxStatus.confirmed) (upsert (entry TxStatus.pending) empty_history)))
selected-stale_example =
    selected-stale (entry TxStatus.pending) (entry TxStatus.confirmed) empty_history refl (λ e. cc)
