-- ===== src/Tx/Poll/Reports.antt =====
-- When a poll may report a status, and how polls that fail are spaced.
use connect_lib.Base.{
  ℕ, ◌+◌, ◌-◌, ◌*◌, ◌^◌, ◌≤◌, ◌<◌, ◌≡◌, ◌≢◌, inl, inr, refl, Bool, true, false, Option, none, some,
  [], ◌∷◌, arith, Option-cases, Bool-cases, min, ◌∙◌, not, ◌&&◌, ap,
}
use connect_lib.Base.Dict.{lookup, insert, lookup-insert_self}
use connect_lib.Base.Text.{Text, text_eq, pair_eq_of}
use connect_lib.Tx.Keys.{Key}
use connect_lib.Tx.Types.{TxStatus, StatusUpdate, BackoffConfig}
use connect_lib.Tx.Poller.{
  PollEntry, TxPoller, Receipt, Answers, on_status, on_error, receipt_matches_hash,
  backoff_delay_for,
}
use connect_lib.Tx.Poll.{
  Handled, handle, handle_receipt, handle_no_receipt, finish, is_waiting, poll_once, block_changed,
  reverted,
}

-- The receipt that confirms: for this transaction, in the block seen before if there was one, not
-- reverted, and deep enough.
pub record Confirms (entry : PollEntry) (a : Answers) : Type 0 where
  pub receipt : Receipt
  pub current : ℕ
  pub answered : a.receipt ≡ some (some receipt)
  pub at : a.block ≡ some current
  pub matches : receipt_matches_hash receipt entry.hash ≡ true
  pub stable : block_changed entry.last_block_hash receipt.block_hash ≡ false
  pub executed : text_eq receipt.status reverted ≡ false
  pub deep : receipt.block_number + entry.options.required_confirmations ≤ current

handle_receipt-confirmed :
    (e : PollEntry) (r : Receipt) (current now : ℕ)
    → (handle_receipt e r current now).update.status ≡ TxStatus.confirmed
    → (block_changed e.last_block_hash r.block_hash ≡ false)
      × (text_eq r.status reverted ≡ false)
      × (r.block_number + e.options.required_confirmations ≤ current)
unfolding handle_receipt
handle_receipt-confirmed e r current now h = ground arith

handle_no_receipt-confirmed :
    (e : PollEntry) (check : Bool) (found : Option Bool) (now : ℕ)
    → (handle_no_receipt e check found now).update.status ≢ TxStatus.confirmed
unfolding handle_no_receipt
handle_no_receipt-confirmed e check found now h = ground arith

handle-confirmed :
    (e : PollEntry) (r : Option (Option Receipt)) (block : Option ℕ) (found : Option Bool) (now : ℕ)
    (failure : Text) (h : Handled)
    → handle e r block found now ≡ some h
    → h.update.status ≡ TxStatus.confirmed
    → Confirms e (record { receipt = r; block = block; found = found; failure = failure })
unfolding handle
handle-confirmed e none block found now failure h eq s = cc
handle-confirmed e (some none) block found now failure h eq s =
    absurd (ground (arith, handle_no_receipt-confirmed e true found now))
handle-confirmed e (some (some r)) none found now failure h eq s =
    absurd (ground (arith, handle_no_receipt-confirmed e false found now))
handle-confirmed e (some (some r)) (some current) found now failure h eq s =
    elim (Bool-cases (receipt_matches_hash r e.hash)) [
      | inl matches ↦
          let is : handle_receipt e r current now ≡ h = ground arith in
          let (stable, executed, deep) =
            handle_receipt-confirmed e r current now
              (ap (λ (d : Handled). d.update.status) is ∙ s) in
          record {
            receipt = r;
            current = current;
            answered = refl;
            at = refl;
            matches = matches;
            stable = stable;
            executed = executed;
            deep = deep;
          }
      | inr foreign ↦ absurd (ground (arith, handle_no_receipt-confirmed e false found now))
    ]

finish-on_status :
    (key : Key) (e : PollEntry) (p : TxPoller) (h : Option Handled) (u : StatusUpdate)
    → (finish key e p h).1 ≡ on_status u ∷ []
    → (d : Handled) × (h ≡ some d) × (d.update ≡ u)
unfolding finish
finish-on_status key e p none u eq = cc
finish-on_status key e p (some d) u eq = (d, refl, ground arith)

-- A poll reports `confirmed` only on a receipt that confirms an entry it polls.
pub poll_once-confirmed :
    (key : Key) (force : Bool) (now : ℕ) (a : Answers) (p : TxPoller) (u : StatusUpdate)
    → (poll_once key force now a p).1 ≡ on_status u ∷ []
    → u.status ≡ TxStatus.confirmed
    → (entry : PollEntry) × (lookup key p.polls ≡ some entry) × Confirms entry a
unfolding poll_once
poll_once-confirmed key force now a p u eq s = elim (Option-cases (lookup key p.polls)) [
  | inl gone ↦ absurd (ground arith)
  | inr (entry, there) ↦
      let stamped : PollEntry = record entry { last_poll_at = now } in
      let out : (finish key stamped p (handle stamped a.receipt a.block a.found now)).1
          ≡ on_status u ∷ [] =
        ground arith in
      let (d, is, same) =
        finish-on_status key stamped p (handle stamped a.receipt a.block a.found now) u out in
      let c : Confirms stamped a =
        handle-confirmed stamped a.receipt a.block a.found now a.failure d is
          (ap (λ (w : StatusUpdate). w.status) same ∙ s) in
      (
        entry,
        there,
        record {
          receipt = c.receipt;
          current = c.current;
          answered = c.answered;
          at = c.at;
          matches = c.matches;
          stable = c.stable;
          executed = c.executed;
          deep = c.deep;
        },
      )
]

-- How the failure branch leaves the poller.
abbrev pub failed_poll : Key → PollEntry → ℕ → TxPoller → TxPoller
failed_poll key entry now p = record p {
  polls =
      insert key (record entry { last_poll_at = now; backoff_count = entry.backoff_count + 1 })
        p.polls;
}

finish-on_error :
    (key : Key) (e : PollEntry) (p : TxPoller) (h : Option Handled)
    → (finish key e p h).1 ≡ on_error ∷ []
    → (finish key e p h).0
      ≡ record p { polls = insert key (record e { backoff_count = e.backoff_count + 1 }) p.polls }
unfolding finish
finish-on_error key e p none eq = refl
finish-on_error key e p (some d) eq = cc

poll_once-failed :
    (key : Key) (force : Bool) (now : ℕ) (a : Answers) (p : TxPoller) (entry : PollEntry)
    → lookup key p.polls ≡ some entry
    → (poll_once key force now a p).1 ≡ on_error ∷ []
    → (poll_once key force now a p).0 ≡ failed_poll key entry now p
unfolding poll_once
poll_once-failed key force now a p entry there failed =
    let stamped : PollEntry = record entry { last_poll_at = now } in
    elim (Bool-cases (not force && is_waiting p entry now)) [
      | inl waits ↦ absurd (ground arith)
      | inr goes ↦
          let out : (finish key stamped p (handle stamped a.receipt a.block a.found now)).1
              ≡ on_error ∷ [] =
            ground arith in
          rw (there, goes, poll_once)
            (finish-on_error key stamped p (handle stamped a.receipt a.block a.found now) out)
    ]

-- The delay after `n` failures in a row, `n` at least 1.
abbrev pub delay_after : BackoffConfig → ℕ → ℕ
delay_after config n = min config.max_delay (config.initial_delay * config.multiplier ^ (n - 1))

is_waiting_lem :
    (p : TxPoller) (entry : PollEntry) (later : ℕ)
    → 0 < entry.backoff_count
    → later - entry.last_poll_at < delay_after p.backoff_config entry.backoff_count
    → is_waiting p entry later ≡ true
unfolding is_waiting backoff_delay_for
is_waiting_lem p entry later pos soon = ground arith

-- After a poll that fails, an unforced poll within the delay asks the provider nothing, reports
-- nothing and changes nothing.
pub poll_once-backoff :
    (key : Key) (force : Bool) (now : ℕ) (a : Answers) (p : TxPoller) (entry : PollEntry)
    (later : ℕ) (b : Answers)
    → lookup key p.polls ≡ some entry
    → (poll_once key force now a p).1 ≡ on_error ∷ []
    → later - now < delay_after p.backoff_config (entry.backoff_count + 1)
    → poll_once key false later b (poll_once key force now a p).0
      ≡ ((poll_once key force now a p).0, [])
unfolding poll_once
poll_once-backoff key force now a p entry later b there failed soon =
    let e' : PollEntry = record entry {
      last_poll_at = now;
      backoff_count = entry.backoff_count + 1;
    } in
    let at : lookup key (failed_poll key entry now p).polls ≡ some e' =
      lookup-insert_self key e' p.polls in
    let waits : is_waiting (failed_poll key entry now p) e' later ≡ true =
      is_waiting_lem (failed_poll key entry now p) e' later (omega arith) soon in
    rw (poll_once-failed key force now a p entry there failed) (rw (at, waits, poll_once) refl)
