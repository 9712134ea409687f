-- ===== src/Tx/Monitor/Controls/Stopped.antt =====
-- What a stopped chain and a cleared history leave.
use connect_lib.Base.{
  ℕ, ◌≡◌, ◌≢◌, inl, inr, refl, true, none, some, List, [], ◌∷◌, arith, if◌then◌else◌, Option-cases,
}
use connect_lib.Base.Dict.{Dict, lookup, lookup-erase}
use connect_lib.Base.Text.{pair_eq_iff, pair_eq_of}
use connect_lib.Tx.Keys.{Key, contains}
use connect_lib.Tx.Poller.Registry.{stop_polling-IsConsistent}
use connect_lib.Tx.History.{TxHistory, get, delete, get_all_hashes}
use connect_lib.Tx.History.Index.{get-delete}
use connect_lib.Tx.Monitor.{TxMonitor, WatchEntry}
use connect_lib.Tx.Monitor.Persisted.{IsSound}
use connect_lib.Tx.Monitor.Controls.{
  end_watch, keys_on_chain, end_watches, stop_watching_by_chain, delete_keys, clear_history,
}

end_watch-IsSound :
    (key : Key) (w : WatchEntry) (m : TxMonitor) → IsSound m → IsSound (end_watch key w m)
unfolding end_watch
end_watch-IsSound key w m v = record {
  persisted = v.persisted;
  consistent = stop_polling-IsConsistent v.consistent w.hash (some w.chain_id);
}

end_watches-IsSound : (keys : List Key) (m : TxMonitor) → IsSound m → IsSound (end_watches keys m)
unfolding end_watches
end_watches-IsSound [] m v = v
end_watches-IsSound (key ∷ keys) m v = elim (Option-cases (lookup key m.watchers)) [
  | inl free ↦ rw (free, end_watches) (end_watches-IsSound keys m v)
  | inr (w, watched) ↦
      rw (watched, end_watches)
        (end_watches-IsSound keys (end_watch key w m) (end_watch-IsSound key w m v))
]

watchers-end_watches :
    (keys : List Key) (m : TxMonitor) (k : Key)
    → lookup k (end_watches keys m).watchers
      ≡ (if contains k keys then none else lookup k m.watchers)
unfolding end_watches end_watch contains
watchers-end_watches [] m k = refl
watchers-end_watches (key ∷ keys) m k = elim (Option-cases (lookup key m.watchers)) [
  | inl free ↦ ground (arith, watchers-end_watches keys m k, pair_eq_iff key k)
  | inr (w, watched) ↦ ground (
    arith,
    watchers-end_watches keys (end_watch key w m) k,
    lookup-erase key k m.watchers,
    pair_eq_iff key k,
  )
]

contains-keys_on_chain :
    (c : ℕ) (ws : Dict Key WatchEntry) (k : Key) (w : WatchEntry)
    → lookup k ws ≡ some w
    → w.chain_id ≡ c
    → contains k (keys_on_chain c ws) ≡ true
unfolding contains keys_on_chain lookup
contains-keys_on_chain c [] k w there on = cc
contains-keys_on_chain c ((j, v) ∷ ws) k w there on =
    ground (arith, contains-keys_on_chain c ws k w, pair_eq_iff j k)

-- Stopping a chain keeps the monitor sound, starts no watch and changes none that stays, and leaves
-- no watch on that chain.
pub stop_watching_by_chain-ends :
    (c : ℕ) (m : TxMonitor)
    → IsSound m
    → IsSound (stop_watching_by_chain c m)
      × ((k : Key) (w : WatchEntry)
          → lookup k (stop_watching_by_chain c m).watchers ≡ some w
          → (lookup k m.watchers ≡ some w) × (w.chain_id ≢ c))
unfolding stop_watching_by_chain
stop_watching_by_chain-ends c m v =
    let keys = keys_on_chain c m.watchers in
    (
      end_watches-IsSound keys m v,
      λ k w there.
          let after = watchers-end_watches keys m k in
          let before : lookup k m.watchers ≡ some w = ground (arith, after, there) in
          (
            before,
            λ on. ground (arith, after, there, contains-keys_on_chain c m.watchers k w before on),
          ),
    )

get-delete_keys :
    (keys : List Key) (h : TxHistory) (k : Key)
    → get k.1 (some k.0) (delete_keys keys h)
      ≡ (if contains k keys then none else get k.1 (some k.0) h)
unfolding delete_keys contains
get-delete_keys [] h k = refl
get-delete_keys (key ∷ keys) h k =
    ground (arith, get-delete_keys keys (delete key.1 key.0 h) k, get-delete h k.1 key.1 k.0 key.0)

-- After the history is cleared no known transaction is found on its chain, and one that the index
-- does not know is found as before.
pub clear_history-get :
    (m : TxMonitor) (k : Key)
    → get k.1 (some k.0) (clear_history m).store
      ≡ (if contains k (get_all_hashes m.store) then none else get k.1 (some k.0) m.store)
unfolding clear_history
clear_history-get m k = get-delete_keys (get_all_hashes m.store) m.store k
