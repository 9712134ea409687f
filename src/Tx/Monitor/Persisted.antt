-- ===== src/Tx/Monitor/Persisted.antt =====
-- TxMonitor.ts: the statuses in memory, beside the stored ones.
use connect_lib.Base.{
  ℕ, ◌≡◌, inl, inr, refl, ◌∙◌, Bool, not, ◌&&◌, none, some, List, [], ◌∷◌, arith, Bool-cases,
  Option-cases,
}
use connect_lib.Base.Dict.{Dict, lookup, insert, lookup-insert}
use connect_lib.Base.Text.{Text, pair_eq_of, pair_eq_iff}
use connect_lib.Tx.Keys.{Key}
use connect_lib.Tx.Types.{
  TxStatus, TxStatusEntry, InitialEntry, WatchOptions, StatusUpdate, same_status,
}
use connect_lib.Tx.Poller.{Answers, Callback, on_status, on_error}
use connect_lib.Tx.Poll.{poll_once}
use connect_lib.Tx.Poll.Outcome.{poll_once-IsConsistent}
use connect_lib.Tx.Poller.Registry.{
  IsConsistent, stop_polling-IsConsistent, start_polling-IsConsistent,
}
use connect_lib.Tx.History.{TxHistory, get, upsert, make_key, add_to_indexes}
use connect_lib.Tx.Monitor.{
  TxMonitor, WatchTxOptions, handle_status_update, handle_poll_error, transition, merge_update,
  stop_step, is_reorg, reorg_step, change_step, watch_tx, watch_stored, already, register,
  created_entry, resumed, merge_options, poll, deliver, is_terminal,
}

-- Every status in memory is the stored entry of its key, and every entry is stored under its key.
pub record Agrees (statuses storage : Dict Key TxStatusEntry) : Type 0 where
  pub filed : (k : Key) (e : TxStatusEntry) → lookup k storage ≡ some e → make_key e ≡ k
  pub agreed :
      (k : Key) (e : TxStatusEntry) → lookup k statuses ≡ some e → lookup k storage ≡ some e

-- The monitor's maps are in step, in the poller and between memory and store.
pub record IsSound (m : TxMonitor) : Type 0 where
  pub persisted : Agrees m.statuses m.store.storage
  pub consistent : IsConsistent m.poller

Agrees-insert :
    {s t : Dict Key TxStatusEntry}
    → Agrees s t
    → (k : Key) (e : TxStatusEntry) → make_key e ≡ k
    → Agrees (insert k e s) (insert (make_key e) e t)
Agrees-insert {s} {t} a k e is = rw is (record {
  filed = λ j f h. ground (arith, a.filed j f, lookup-insert k j e t, pair_eq_iff k j);
  agreed = λ j f h. ground (arith, a.agreed j f, lookup-insert k j e s, lookup-insert k j e t);
})

Agrees-upsert :
    {s : Dict Key TxStatusEntry} (h : TxHistory)
    → Agrees s h.storage
    → (k : Key) (e : TxStatusEntry) → make_key e ≡ k
    → Agrees (insert k e s) (upsert e h).storage
unfolding upsert add_to_indexes
Agrees-upsert h a k e is = Agrees-insert a k e is

make_key-transition :
    (e : TxStatusEntry) (u : StatusUpdate) (now : ℕ) → make_key (transition e u now).0 ≡ make_key e
unfolding transition merge_update is_reorg reorg_step change_step
make_key-transition e u now = ground arith

stop_step-IsConsistent :
    (previous next : TxStatus) (key : Key) (m : TxMonitor)
    → IsConsistent m.poller
    → IsConsistent (stop_step previous next key m).poller
unfolding stop_step
stop_step-IsConsistent previous next key m v =
    elim (Bool-cases (not (same_status previous next) && is_terminal next)) [
      | inr goes ↦ rw (goes, stop_step) v
      | inl ends ↦ elim (Option-cases (lookup key m.watchers)) [
        | inl free ↦ rw (ends, free, stop_step) v
        | inr (w, watched) ↦
            rw (ends, watched, stop_step) (stop_polling-IsConsistent v w.hash (some w.chain_id))
      ]
    ]

-- A report keeps the monitor sound.
pub handle_status_update-IsSound :
    (key : Key) (u : StatusUpdate) (now : ℕ) (m : TxMonitor)
    → IsSound m
    → IsSound (handle_status_update key u now m).0
unfolding handle_status_update
handle_status_update-IsSound key u now m v = elim (Option-cases (lookup key m.statuses)) [
  | inl free ↦ rw (free, handle_status_update) v
  | inr (e, known) ↦
      let keyed : make_key e ≡ key = v.persisted.filed key e (v.persisted.agreed key e known) in
      rw (known, handle_status_update)
        (record {
          persisted =
              Agrees-upsert m.store v.persisted key (transition e u now).0
                (make_key-transition e u now ∙ keyed);
          consistent = stop_step-IsConsistent e.status u.status key m v.consistent;
        })
]

pub handle_poll_error-IsSound :
    (key : Key) (message : Text) (now : ℕ) (m : TxMonitor)
    → IsSound m
    → IsSound (handle_poll_error key message now m).0
unfolding handle_poll_error
handle_poll_error-IsSound key message now m v = elim (Option-cases (lookup key m.statuses)) [
  | inl free ↦ rw (free, handle_poll_error) v
  | inr (e, known) ↦
      let keyed : make_key e ≡ key = v.persisted.filed key e (v.persisted.agreed key e known) in
      rw (known, handle_poll_error)
        (record {
          persisted =
              Agrees-upsert m.store v.persisted key
                (record e { error = some message; updated_at = now }) keyed;
          consistent = v.consistent;
        })
]

deliver-IsSound :
    (key : Key) (message : Text) (now : ℕ) (cs : List Callback) (m : TxMonitor)
    → IsSound m
    → IsSound (deliver key message now cs m).0
unfolding deliver
deliver-IsSound key message now [] m v = v
deliver-IsSound key message now (on_status u ∷ cs) m v =
    deliver-IsSound key message now cs (handle_status_update key u now m).0
      (handle_status_update-IsSound key u now m v)
deliver-IsSound key message now (on_error ∷ cs) m v =
    deliver-IsSound key message now cs (handle_poll_error key message now m).0
      (handle_poll_error-IsSound key message now m v)

-- A poll, with all that its reports cause, keeps the monitor sound.
pub poll-IsSound :
    (key : Key) (force : Bool) (now : ℕ) (a : Answers) (m : TxMonitor)
    → IsSound m
    → IsSound (poll key force now a m).0
unfolding poll
poll-IsSound key force now a m v =
    deliver-IsSound key a.failure now (poll_once key force now a m.poller).1
      (record m { poller = (poll_once key force now a m.poller).0 })
      (record {
        persisted = v.persisted;
        consistent = poll_once-IsConsistent v.consistent key force now a;
      })

make_key-created_entry :
    (hash : Text) (c : ℕ) (i : InitialEntry) (now : ℕ)
    → make_key (created_entry hash c i now) ≡ (c, hash)
unfolding created_entry
make_key-created_entry hash c i now = refl

register-IsSound :
    (hash : Text) (c : ℕ) (o : WatchOptions) (e : TxStatusEntry) (now : ℕ) (m : TxMonitor)
    → IsSound m
    → make_key e ≡ (c, hash)
    → IsSound (register hash c o e now m)
unfolding register
register-IsSound hash c o e now m v keyed = record {
  persisted = Agrees-upsert m.store v.persisted (c, hash) e keyed;
  consistent = start_polling-IsConsistent v.consistent hash c (some o.poll_interval) none now;
}

Agrees-recall :
    {s t : Dict Key TxStatusEntry}
    → Agrees s t
    → (k : Key) (e : TxStatusEntry) → lookup k t ≡ some e
    → Agrees (insert k e s) t
Agrees-recall {s} {t} a k e there = record {
  filed = a.filed;
  agreed = λ j f h. ground (arith, a.agreed j f, lookup-insert k j e s, pair_eq_iff k j);
}

-- Watching a transaction, new, known or ended, keeps the monitor sound.
pub watch_tx-IsSound :
    (hash : Text) (c : ℕ) (o : WatchTxOptions) (now : ℕ) (m : TxMonitor)
    → IsSound m
    → IsSound (watch_tx hash c o now m).1
unfolding watch_tx watch_stored get
watch_tx-IsSound hash c o now m v = elim (Option-cases (already (c, hash) m)) [
  | inr (e, watched) ↦ rw (watched, watch_tx) v
  | inl new ↦ elim (Option-cases (lookup (c, hash) m.store.storage)) [
    | inl unknown ↦
        rw (new, unknown, watch_tx)
          (register-IsSound hash c (merge_options m o)
            (created_entry hash c (merge_options m o).initial_entry now) now m v
            (make_key-created_entry hash c (merge_options m o).initial_entry now))
    | inr (e, there) ↦ elim (Bool-cases (is_terminal e.status)) [
      | inl ended ↦
          rw (new, there, ended, watch_tx)
            (record {
              persisted = Agrees-recall v.persisted (c, hash) e there;
              consistent = v.consistent;
            })
      | inr goes ↦
          rw (new, there, goes, watch_tx)
            (register-IsSound hash c (merge_options m o)
              (record e { status = resumed e.status; updated_at = now }) now m v
              (v.persisted.filed (c, hash) e there))
    ]
  ]
]
