-- ===== src/Tx/Poll.antt =====
-- tx-monitor/poller.ts: one poll of one transaction, `pollOnce`, `handleReceipt` and
-- `handleNoReceipt`.
pub mod Outcome
pub mod Reports
mod Tests
use connect_lib.Base.{
  ℕ, ◌+◌, ◌-◌, Bool, true, false, not, ◌&&◌, Option, none, some, List, [], ◌∷◌, ◌++◌, leb, ltb,
  if◌then◌else◌,
}
use connect_lib.Base.Dict.{lookup, insert}
use connect_lib.Base.Text.{Text, codes, text_eq, pair_eq_of}
use connect_lib.Tx.Keys.{Key}
use connect_lib.Tx.Types.{TxStatus, StatusUpdate, Field, bare}
use connect_lib.Tx.Poller.{
  PollEntry, TxPoller, Receipt, Answers, Callback, on_status, on_error, receipt_matches_hash,
  remove_poll, backoff_delay_for, max_pending_timeout_ms,
}

-- How a handler leaves the entry, whether it stops the poll, and what it reports.
pub record Handled : Type 0 where
  pub entry : PollEntry
  pub stops : Bool
  pub update : StatusUpdate

abbrev pub reverted : Text
reverted = codes "0x0"

-- The text of an `undefined` or a string in a template, for the hash of the last block.
abbrev shown : Option Text → Text
shown none = codes "null"
shown (some t) = t

-- `entry.lastBlockHash && entry.lastBlockHash !== blockHash`
pub block_changed : Option Text → Text → Bool
block_changed none new = false
block_changed (some []) new = false
block_changed (some (c ∷ old)) new = not (text_eq (c ∷ old) new)

same_block : Option Text → Text → Bool
same_block none new = false
same_block (some old) new = text_eq old new

-- The properties of the receipt that every report of a mined transaction carries.
abbrev pub mined_update : TxStatus → Receipt → StatusUpdate
mined_update s r = record (bare s) {
  block_number = Field.set (some r.block_number);
  block_hash = Field.set (some r.block_hash);
  gas_used = Field.set (some r.gas_used);
  effective_gas_price = Field.set (some r.effective_gas_price);
}

abbrev pub reorg_update : PollEntry → Receipt → StatusUpdate
reorg_update entry r = record (bare TxStatus.pending) {
  block_number = Field.set none;
  block_hash = Field.set none;
  error = Field.set (
      some (
        codes "Reorg detected: block changed from "
        ++ (shown entry.last_block_hash ++ (codes " to " ++ r.block_hash))));
}

-- `entry` with the block of the receipt remembered
pub track : PollEntry → Receipt → PollEntry
unfolding same_block
track entry r = record entry {
  consecutive_stable =
      if same_block entry.last_block_hash r.block_hash then entry.consecutive_stable + 1 else 1;
  last_block_hash = some r.block_hash;
  last_block_number = some r.block_number;
}

-- `handleReceipt`, once the block number is there
pub handle_receipt : PollEntry → Receipt → ℕ → ℕ → Handled
handle_receipt entry r current now =
    if block_changed entry.last_block_hash r.block_hash
    then record {
      entry = record entry {
        consecutive_stable = 0;
        last_block_hash = some r.block_hash;
        last_block_number = some r.block_number;
      };
      stops = false;
      update = reorg_update entry r;
    }
    else if text_eq r.status reverted
    then record {
      entry = track entry r;
      stops = true;
      update = record (mined_update TxStatus.failed r) {
        error = Field.set (some (codes "Transaction reverted"));
      };
    }
    else if leb (r.block_number + entry.options.required_confirmations) current
    then record {
      entry = track entry r;
      stops = true;
      update = record (mined_update TxStatus.confirmed r) { confirmed_at = Field.set (some now) };
    }
    else record { entry = track entry r; stops = false; update = mined_update TxStatus.mined r }

abbrev pub failed_with : Text → StatusUpdate
failed_with reason = record (bare TxStatus.failed) { error = Field.set (some reason) }

-- Whether `eth_getTransactionByHash` answered, and answered that there is none.
pub is_dropped : Option Bool → Bool
is_dropped (some false) = true
is_dropped _ = false

-- `handleNoReceipt`
pub handle_no_receipt : PollEntry → Bool → Option Bool → ℕ → Handled
handle_no_receipt entry check_dropped found now =
    if ltb max_pending_timeout_ms (now - entry.created_at)
    then record {
      entry = entry;
      stops = true;
      update = failed_with (codes "Transaction timed out after 5 minutes");
    }
    else if check_dropped && is_dropped found
    then record {
      entry = entry;
      stops = true;
      update = failed_with (codes "Transaction dropped from mempool");
    }
    else record { entry = entry; stops = false; update = bare TxStatus.pending }

-- The handlers, as `pollOnce` chooses between them on the receipt, the block number and the
-- transaction that the provider answers; `none` where one throws.
pub handle : PollEntry → Option (Option Receipt) → Option ℕ → Option Bool → ℕ → Option Handled
handle entry none block found now = none
handle entry (some none) block found now = some (handle_no_receipt entry true found now)
handle entry (some (some r)) none found now =
    if receipt_matches_hash r entry.hash
    then none
    else some (handle_no_receipt entry false found now)
handle entry (some (some r)) (some current) found now =
    if receipt_matches_hash r entry.hash
    then some (handle_receipt entry r current now)
    else some (handle_no_receipt entry false found now)

-- The entry is one object in the map: what a handler wrote to it is there unless it was removed.
pub finish : Key → PollEntry → TxPoller → Option Handled → TxPoller × List Callback
finish key entry p none = (
  record p {
    polls = insert key (record entry { backoff_count = entry.backoff_count + 1 }) p.polls;
  },
  on_error ∷ [],
)
finish key entry p (some h) =
    let p' : TxPoller = record p {
      polls = insert key (record (h.entry) { backoff_count = 0 }) p.polls;
    } in
    (if h.stops then remove_poll key p' else p', on_status h.update ∷ [])

-- Whether an unforced poll of the entry waits.
pub is_waiting : TxPoller → PollEntry → ℕ → Bool
is_waiting p entry now =
    let wait = backoff_delay_for p.backoff_config entry in
    ltb 0 wait && ltb (now - entry.last_poll_at) wait

-- `pollOnce`
unfoldable pub poll_once : Key → Bool → ℕ → Answers → TxPoller → TxPoller × List Callback
unfolding finish
poll_once key force now a p = elim (lookup key p.polls) [
  | none ↦ (p, [])
  | some entry ↦
      if not force && is_waiting p entry now
      then (p, [])
      else (let stamped : PollEntry = record entry { last_poll_at = now } in
          finish key stamped p (handle stamped a.receipt a.block a.found now))
]
