-- ===== src/Tx/Poll/Outcome.antt =====
-- What one poll may report, and how it leaves the poller.
use connect_lib.Base.{
  ℕ, ◌+◌, ◌≡◌, inl, inr, refl, Bool, true, false, Option, none, some, arith, Option-cases,
  Bool-cases, ◌∙◌, not, ◌&&◌,
}
use connect_lib.Base.Dict.{lookup, insert}
use connect_lib.Base.Text.{pair_eq_of}
use connect_lib.Tx.Keys.{Key}
use connect_lib.Tx.Poller.{PollEntry, TxPoller, Receipt, Answers}
use connect_lib.Tx.Poller.Registry.{IsConsistent, remove_poll-IsConsistent, rewrite-IsConsistent}
use connect_lib.Tx.Poll.{
  Handled, handle, handle_receipt, handle_no_receipt, finish, is_waiting, poll_once, track,
}

-- The handlers never change which transaction an entry is for.
handle_receipt-same :
    (e : PollEntry) (r : Receipt) (current now : ℕ)
    → ((handle_receipt e r current now).entry.chain_id ≡ e.chain_id)
      × ((handle_receipt e r current now).entry.hash ≡ e.hash)
unfolding handle_receipt track
handle_receipt-same e r current now = ground arith

handle_no_receipt-same :
    (e : PollEntry) (check : Bool) (found : Option Bool) (now : ℕ)
    → (handle_no_receipt e check found now).entry ≡ e
unfolding handle_no_receipt
handle_no_receipt-same e check found now = ground arith

handle-same :
    (e : PollEntry) (r : Option (Option Receipt)) (block : Option ℕ) (found : Option Bool) (now : ℕ)
    (h : Handled)
    → handle e r block found now ≡ some h
    → (h.entry.chain_id ≡ e.chain_id) × (h.entry.hash ≡ e.hash)
unfolding handle
handle-same e none block found now h eq = cc
handle-same e (some none) block found now h eq =
    ground (arith, handle_no_receipt-same e true found now)
handle-same e (some (some r)) none found now h eq =
    ground (arith, handle_no_receipt-same e false found now)
handle-same e (some (some r)) (some current) found now h eq =
    ground (arith, handle_no_receipt-same e false found now, handle_receipt-same e r current now)

finish-IsConsistent :
    {p : TxPoller}
    → IsConsistent p
    → (key : Key) (entry e : PollEntry) (h : Option Handled) → lookup key p.polls ≡ some entry
    → (e.chain_id ≡ entry.chain_id) × (e.hash ≡ entry.hash)
    → ((d : Handled) → h ≡ some d → (d.entry.chain_id ≡ e.chain_id) × (d.entry.hash ≡ e.hash))
    → IsConsistent (finish key e p h).0
unfolding finish
finish-IsConsistent v key entry e none there same keeps =
    rewrite-IsConsistent v key entry (record e { backoff_count = e.backoff_count + 1 }) there same.0
      same.1
finish-IsConsistent {p} v key entry e (some h) there same keeps =
    let kept : (h.entry.chain_id ≡ e.chain_id) × (h.entry.hash ≡ e.hash) = keeps h refl in
    let v' : IsConsistent
        (record p { polls = insert key (record (h.entry) { backoff_count = 0 }) p.polls }) =
      rewrite-IsConsistent v key entry (record (h.entry) { backoff_count = 0 }) there
        (kept.0 ∙ same.0) (kept.1 ∙ same.1) in
    elim (Bool-cases h.stops) [
      | inl stops ↦ rw stops (remove_poll-IsConsistent v' key)
      | inr goes ↦ rw goes v'
    ]

-- A poll, whatever the provider answers, keeps the three maps in step.
pub poll_once-IsConsistent :
    {p : TxPoller}
    → IsConsistent p
    → (key : Key) (force : Bool) (now : ℕ) (a : Answers)
    → IsConsistent (poll_once key force now a p).0
unfolding poll_once
poll_once-IsConsistent {p} v key force now a = elim (Option-cases (lookup key p.polls)) [
  | inl gone ↦ rw (gone, poll_once) v
  | inr (entry, there) ↦ elim (Bool-cases (not force && is_waiting p entry now)) [
    | inl waits ↦ rw (there, waits, poll_once) v
    | inr goes ↦
        let stamped : PollEntry = record entry { last_poll_at = now } in
        rw (there, goes, poll_once)
          (finish-IsConsistent v key entry stamped (handle stamped a.receipt a.block a.found now)
            there (refl, refl) (λ d eq. handle-same stamped a.receipt a.block a.found now d eq))
  ]
]
