-- ===== src/Tx/History/Index.antt =====
-- Reading back what was stored.
use connect_lib.Base.{
  ℕ, ◌≡◌, inl, inr, refl, true, ◌&&◌, none, some, List, [], ◌∷◌, arith, Option-cases, if◌then◌else◌,
  ltb, ◌<◌, ◌≤◌, ◌-◌, ◌*◌, length,
}
use connect_lib.Base.Dict.{Dict, lookup, lookup-insert, lookup-erase}
use connect_lib.Base.Text.{Text, pair_eq, pair_eq_iff, pair_eq_of}
use connect_lib.Tx.Keys.{Key, contains}
use connect_lib.Tx.Types.{TxStatusEntry}
use connect_lib.Tx.History.{
  TxHistory, make_key, upsert, get, delete, add_to_indexes, remove_from_indexes, cleanup, expired,
  delete_expired, delete_all, day_ms, min_cleanup_entries,
}

-- A lookup on a chain after a write gives the written entry under its key, and is otherwise as
-- before.
pub get-upsert :
    (e : TxStatusEntry) (h : TxHistory) (hash : Text) (c : ℕ)
    → get hash (some c) (upsert e h)
      ≡ (if pair_eq (make_key e) (c, hash) then some e else get hash (some c) h)
unfolding get upsert add_to_indexes
get-upsert e h hash c = lookup-insert (make_key e) (c, hash) e h.storage

pub get-delete :
    (h : TxHistory) (hash hash' : Text) (c c' : ℕ)
    → get hash (some c) (delete hash' c' h)
      ≡ (if pair_eq (c', hash') (c, hash) then none else get hash (some c) h)
unfolding get delete remove_from_indexes
get-delete h hash hash' c c' = elim (Option-cases (lookup (c', hash') h.storage)) [
  | inl gone ↦ ground (arith, pair_eq_iff (c', hash') (c, hash))
  | inr (e, there) ↦ ground (arith, lookup-erase (c', hash') (c, hash) h.storage)
]

-- Which keys `cleanup` picks: the known ones whose entry is older than the cutoff.
contains-expired :
    (cutoff : ℕ) (m : Dict Key TxStatusEntry) (k : Key) (e : TxStatusEntry) (ks : List Key)
    → lookup k m ≡ some e
    → contains k (expired cutoff m ks) ≡ (contains k ks && ltb e.created_at cutoff)
unfolding contains expired
contains-expired cutoff m k e [] there = refl
contains-expired cutoff m k e (j ∷ ks) there =
    ground (arith, contains-expired cutoff m k e ks there, pair_eq_iff j k)

lookup-delete_expired :
    (j : Key) (h : TxHistory) (k : Key)
    → lookup k (delete_expired j h).storage ≡ (if pair_eq j k then none else lookup k h.storage)
unfolding delete_expired remove_from_indexes
lookup-delete_expired j h k = elim (Option-cases (lookup j h.storage)) [
  | inl gone ↦ ground (arith, lookup-erase j k h.storage)
  | inr (e, there) ↦ ground (arith, lookup-erase j k h.storage)
]

lookup-delete_all :
    (ks : List Key) (h : TxHistory) (k : Key)
    → lookup k (delete_all ks h).storage ≡ (if contains k ks then none else lookup k h.storage)
unfolding contains delete_all
lookup-delete_all [] h k = refl
lookup-delete_all (j ∷ ks) h k =
    ground (arith, lookup-delete_all ks (delete_expired j h) k, lookup-delete_expired j h k)

-- A known entry that is no older than the retention survives `cleanup`; an older one is gone after
-- it, if the store knows at least 100 entries.
pub cleanup-get :
    (days now : ℕ) (h : TxHistory) (hash : Text) (c : ℕ) (e : TxStatusEntry)
    → get hash (some c) h ≡ some e
    → contains (c, hash) h.all_keys ≡ true
    → (now - days * day_ms ≤ e.created_at → get hash (some c) (cleanup days now h).0 ≡ some e)
      × (e.created_at < now - days * day_ms
          → min_cleanup_entries ≤ length h.all_keys
          → get hash (some c) (cleanup days now h).0 ≡ none)
unfolding get cleanup
cleanup-get days now h hash c e there known =
    let cutoff = now - days * day_ms in
    let old = expired cutoff h.storage h.all_keys in
    (
      λ recent. ground (
        arith,
        contains-expired cutoff h.storage (c, hash) e h.all_keys there,
        lookup-delete_all old h (c, hash),
      ),
      λ aged many. ground (
        arith,
        contains-expired cutoff h.storage (c, hash) e h.all_keys there,
        lookup-delete_all old h (c, hash),
      ),
    )
