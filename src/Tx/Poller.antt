-- ===== src/Tx/Poller.antt =====
-- tx-monitor/poller.ts: the polls of each chain, their shared timers and the handling of receipts.
--
-- One poll is one step: the provider's answers are its inputs, and the callbacks that it makes are
-- its outputs, in order. What other calls do while a poll waits for the provider is not modelled.
pub mod Registry
use connect_lib.Base.{
  ℕ, ◌-◌, ◌*◌, ◌^◌, min, Bool, true, false, Option, none, some, List, [], ◌∷◌, ◌++◌, ◌==◌,
  if◌then◌else◌, is_some, or_else, any,
}
use connect_lib.Base.Dict.{Dict, lookup, insert, erase, nat_eq}
use connect_lib.Base.Text.{Text, text_eq, pair_eq, pair_eq_of, to_lower_case}
use connect_lib.Tx.Keys.{Key, add_key, delete_key, is_empty}
use connect_lib.Tx.Types.{WatchOptions, InitialEntry, StatusUpdate, BackoffConfig}

abbrev pub max_pending_timeout_ms : ℕ
max_pending_timeout_ms = 5 * 60 * 1000

abbrev pub default_backoff : BackoffConfig
default_backoff = record { initial_delay = 2000; max_delay = 30000; multiplier = 2 }

pub record PollEntry : Type 0 where
  pub hash : Text
  pub chain_id : ℕ
  pub options : WatchOptions
  pub backoff_count : ℕ
  pub last_poll_at : ℕ
  pub consecutive_stable : ℕ
  pub last_block_hash : Option Text
  pub last_block_number : Option ℕ
  pub created_at : ℕ

pub record TxPoller : Type 0 where
  pub polls : Dict Key PollEntry
  pub chain_polls : Dict ℕ (List Key)
  pub chain_timers : Dict ℕ (Unit {0})
  pub default_interval : ℕ
  pub backoff_config : BackoffConfig

-- A receipt as the provider returns it, with the number already read from its hex quantity.
-- `transaction_hash` is `none` where the field is missing or no string.
pub record Receipt : Type 0 where
  pub transaction_hash : Option Text
  pub block_number : ℕ
  pub block_hash : Text
  pub status : Text
  pub gas_used : Text
  pub effective_gas_price : Text

-- What the provider answers during one poll; `none` is a rejected promise.
pub record Answers : Type 0 where
  pub receipt : Option (Option Receipt)
  pub block : Option ℕ
  -- whether `eth_getTransactionByHash` finds the transaction
  pub found : Option Bool
  -- the message of the error, where a request fails
  pub failure : Text

pub data Callback : Type 0 where
  on_status : StatusUpdate → Callback
  on_error : Callback

-- `receiptMatchesHash`
unfoldable pub receipt_matches_hash : Receipt → Text → Bool
receipt_matches_hash r hash = elim r.transaction_hash [
  | none ↦ false
  | some h ↦ text_eq (to_lower_case h) (to_lower_case hash)
]

abbrev pub no_initial : InitialEntry
no_initial = record { from = none; to = none; value = none; call_data = none; nonce = none }

-- The options of an entry for which `startPolling` was given none.
unfoldable pub default_options : ℕ → Option ℕ → WatchOptions
default_options default_interval interval = record {
  required_confirmations = 1;
  poll_interval = or_else interval default_interval;
  label = [];
  memo = [];
  initial_entry = no_initial;
}

-- The poll keys of a chain.
abbrev pub chain_set : TxPoller → ℕ → List Key
chain_set p c = or_else (lookup c p.chain_polls) []

-- The entry of a poll that starts now.
abbrev pub new_entry : Text → ℕ → WatchOptions → ℕ → PollEntry
new_entry hash chain_id options now = record {
  hash = hash;
  chain_id = chain_id;
  options = options;
  backoff_count = 0;
  last_poll_at = 0;
  consecutive_stable = 0;
  last_block_hash = none;
  last_block_number = none;
  created_at = now;
}

-- `startPolling`, without the first poll that it then makes.
unfoldable pub start_polling : Text → ℕ → Option ℕ → Option WatchOptions → ℕ → TxPoller → TxPoller
start_polling hash chain_id interval options now p =
    if is_some (lookup (chain_id, hash) p.polls) then p else record p {
      polls =
          insert (chain_id, hash)
            (new_entry hash chain_id (or_else options (default_options p.default_interval interval))
              now)
            p.polls;
      chain_polls = insert chain_id (add_key (chain_id, hash) (chain_set p chain_id)) p.chain_polls;
      chain_timers = insert chain_id tt p.chain_timers;
    }

-- The chain set of `removePoll`, once the key is deleted from it.
drop_chain : ℕ → List Key → TxPoller → TxPoller
drop_chain c ks p =
    if is_empty ks
    then record p { chain_polls = erase c p.chain_polls; chain_timers = erase c p.chain_timers }
    else record p { chain_polls = insert c ks p.chain_polls }

-- `removePoll`
unfoldable pub remove_poll : Key → TxPoller → TxPoller
unfolding drop_chain
remove_poll key p = elim (lookup key p.polls) [
  | none ↦ p
  | some entry ↦
      let p' : TxPoller = record p { polls = erase key p.polls } in
      elim (lookup entry.chain_id p.chain_polls) [
        | none ↦ p'
        | some ks ↦ drop_chain entry.chain_id (delete_key key ks) p'
      ]
]

remove_all : List Key → TxPoller → TxPoller
remove_all [] p = p
remove_all (k ∷ ks) p = remove_all ks (remove_poll k p)

keys_of : Text → Dict Key PollEntry → List Key
keys_of hash [] = []
keys_of hash ((k, e) ∷ m) = if text_eq e.hash hash then k ∷ keys_of hash m else keys_of hash m

-- `stopPolling`, on one chain or on every chain
unfoldable pub stop_polling : Text → Option ℕ → TxPoller → TxPoller
unfolding remove_all keys_of
stop_polling hash none p = remove_all (keys_of hash p.polls) p
stop_polling hash (some chain_id) p = remove_poll (chain_id, hash) p

-- `stopAll`
unfoldable pub stop_all : TxPoller → TxPoller
stop_all p = record p { polls = []; chain_polls = []; chain_timers = [] }

-- `backoffDelayFor`
unfoldable pub backoff_delay_for : BackoffConfig → PollEntry → ℕ
backoff_delay_for config entry =
    if entry.backoff_count == 0
    then 0
    else min config.max_delay (config.initial_delay * config.multiplier ^ (entry.backoff_count - 1))
