-- ===== src/Tx/Poll/Tests.antt =====
-- One poll at concrete answers.
use connect_lib.Base.{◌≡◌, refl, true, false, none, some, [], ◌∷◌, arith}
use connect_lib.Base.Dict.{lookup, insert}
use connect_lib.Base.Text.{Text, codes, pair_eq_of, to_lower_case}
use connect_lib.Tx.Keys.{Key, add_key}
use connect_lib.Tx.Types.{TxStatus, StatusUpdate, Field}
use connect_lib.Tx.Poller.{
  PollEntry, TxPoller, Receipt, Answers, receipt_matches_hash, new_entry, default_options,
  default_backoff, start_polling, stop_all, backoff_delay_for,
}
use connect_lib.Tx.Poller.Registry.{IsConsistent, start_polling-IsConsistent, stop_all-IsConsistent}
use connect_lib.Tx.Poll.{handle, handle_receipt, is_waiting, poll_once, block_changed, mined_update}
use connect_lib.Tx.Poll.Outcome.{poll_once-IsConsistent}
use connect_lib.Tx.Poll.Reports.{Confirms, poll_once-confirmed, poll_once-backoff}

abbrev empty : TxPoller
empty = record {
  polls = [];
  chain_polls = [];
  chain_timers = [];
  default_interval = 15000;
  backoff_config = default_backoff;
}

abbrev hash : Text
hash = codes "0xAb"

abbrev key : Key
key = (1, hash)

abbrev entry : PollEntry
entry =
    new_entry hash 1
      (record {
        required_confirmations = 1;
        poll_interval = 15000;
        label = [];
        memo = [];
        initial_entry = record {
          from = none;
          to = none;
          value = none;
          call_data = none;
          nonce = none;
        };
      })
      1000

abbrev polling : TxPoller
polling = record {
  polls = (key, entry) ∷ [];
  chain_polls = (1, key ∷ []) ∷ [];
  chain_timers = (1, tt) ∷ [];
  default_interval = 15000;
  backoff_config = default_backoff;
}

starts : start_polling hash 1 none none 1000 empty ≡ polling
unfolding start_polling lookup insert default_options add_key
starts = refl

abbrev receipt : Receipt
receipt = record {
  transaction_hash = some (codes "0xaB");
  block_number = 7;
  block_hash = codes "0x9";
  status = codes "0x1";
  gas_used = codes "0x5208";
  effective_gas_price = codes "0x1";
}

abbrev mined : Answers
mined = record { receipt = some (some receipt); block = some 8; found = none; failure = [] }

abbrev offline : Answers
offline = record { receipt = none; block = none; found = none; failure = codes "offline" }

abbrev confirmation : StatusUpdate
confirmation = record (mined_update TxStatus.confirmed receipt) {
  confirmed_at = Field.set (some 2000);
}

empty-IsConsistent : IsConsistent empty
unfolding stop_all
empty-IsConsistent = stop_all-IsConsistent empty

poll_once-IsConsistent_example :
    IsConsistent (poll_once key false 2000 mined (start_polling hash 1 none none 1000 empty)).0
poll_once-IsConsistent_example =
    poll_once-IsConsistent (start_polling-IsConsistent empty-IsConsistent hash 1 none none 1000) key
      false 2000 mined

poll_once-confirmed_example :
    (e : PollEntry) × (lookup key polling.polls ≡ some e) × Confirms e mined
unfolding poll_once lookup handle receipt_matches_hash to_lower_case handle_receipt block_changed
    is_waiting backoff_delay_for
poll_once-confirmed_example =
    poll_once-confirmed key false 2000 mined polling confirmation refl refl

poll_once-backoff_example :
    poll_once key false 3000 mined (poll_once key true 2000 offline polling).0
    ≡ ((poll_once key true 2000 offline polling).0, [])
unfolding poll_once lookup handle
poll_once-backoff_example =
    poll_once-backoff key true 2000 offline polling entry 3000 mined refl refl (omega arith)
