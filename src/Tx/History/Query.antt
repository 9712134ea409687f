-- ===== src/Tx/History/Query.antt =====
-- Queries over the indices.
use mathlib.Core.Bool.{false≢true}
use mathlib.Core.List.{Memᴰ}
use connect_lib.Base.{
  ◌≡◌, ◌≢◌, inl, inr, refl, true, ◌&&◌, ◌||◌, none, some, List, [], ◌∷◌, arith, ap, Bool-cases,
  Option-cases,
}
use connect_lib.Base.Dict.{Eq, Dict, lookup, insert, lookup-insert, lookup-insert_self}
use connect_lib.Base.Text.{pair_eq, pair_eq_iff, pair_eq_of}
use connect_lib.Tx.Keys.{Key, contains, contains-add_key, add_key}
use connect_lib.Tx.Types.{TxStatus, TxStatusEntry, same_status_iff, status_eq}
use connect_lib.Tx.History.{
  TxHistory, HistoryQuery, make_key, upsert, add_to_indexes, keys_at, index_add, keep, index_filter,
  by_address_filter, load, selected, in_dates, filter_entries,
}

contains-keep :
    (k : Key) (candidates ks : List Key)
    → contains k (keep candidates ks) ≡ (contains k ks && contains k candidates)
unfolding contains keep
contains-keep k candidates [] = refl
contains-keep k candidates (j ∷ ks) = ground (arith, contains-keep k candidates ks, pair_eq_iff j k)

-- a stored entry whose key is among the candidates is loaded
mem-load :
    (m : Dict Key TxStatusEntry) (k : Key) (e : TxStatusEntry) (ks : List Key)
    → lookup k m ≡ some e
    → contains k ks ≡ true
    → Memᴰ e (load m ks)
unfolding contains load
mem-load m k e [] there h = absurd (false≢true h)
mem-load m k e (j ∷ ks) there h = elim (Bool-cases (pair_eq j k)) [
  | inl same ↦ rw ((pair_eq_iff j k).0 same, there, load) (Memᴰ.head refl)
  | inr other ↦
      let rest : Memᴰ e (load m ks) = mem-load m k e ks there (ground arith) in
      elim (Option-cases (lookup j m)) [
        | inl gone ↦ rw (gone, load) rest
        | inr (f, at) ↦ rw (at, load) (Memᴰ.tail rest)
      ]
]

-- The query for one status and nothing else.
abbrev pub of_status : TxStatus → HistoryQuery
of_status s = record {
  address = none;
  chain_id = none;
  status = some s;
  limit = none;
  offset = none;
  from_date = none;
  to_date = none;
}

filter_entries-of_status :
    (s : TxStatus) (es : List TxStatusEntry) → filter_entries (in_dates (of_status s)) es ≡ es
unfolding filter_entries in_dates
filter_entries-of_status s [] = refl
filter_entries-of_status s (e ∷ es) = ap (λ l. e ∷ l) (filter_entries-of_status s es)

module _ {K : Type 0} ⦃e : Eq K⦄ (k k' : K) (key j : Key) (m : Dict K (List Key)) where
  contains-index_add :
      contains j (keys_at k' (index_add k key m))
      ≡ ((e.beq k k' && pair_eq key j) || contains j (keys_at k' m))
  unfolding index_add
  contains-index_add = ground (
    arith,
    lookup-insert k k' (add_key key (keys_at k m)) m,
    contains-add_key j key (keys_at k m),
    e.beq_iff k k',
  )

-- `upsert` leaves a key in the index of the status that the entry had before. A query for the old
-- status so selects the entry with its new status.
pub selected-stale :
    (e e' : TxStatusEntry) (h : TxHistory)
    → make_key e ≡ make_key e'
    → e.status ≢ e'.status
    → Memᴰ e' (selected (of_status e.status) (upsert e' (upsert e h)))
unfolding selected by_address_filter index_filter upsert add_to_indexes
selected-stale e e' h same other = rw filter_entries-of_status (
    mem-load _ (make_key e') e' _
      (lookup-insert_self (make_key e') e' (insert (make_key e) e h.storage))
      (ground (
        arith,
        contains-keep (make_key e') (add_key (make_key e') (add_key (make_key e) h.all_keys)) (
            keys_at e.status
              (index_add e'.status (make_key e') (index_add e.status (make_key e) h.by_status))),
        contains-add_key (make_key e') (make_key e') (add_key (make_key e) h.all_keys),
        contains-index_add (e'.status) (e.status) (make_key e') (make_key e')
            (index_add e.status (make_key e) h.by_status),
        contains-index_add (e.status) (e.status) (make_key e) (make_key e') h.by_status,
        pair_eq_iff (make_key e') (make_key e'),
        pair_eq_iff (make_key e) (make_key e'),
        same_status_iff (e.status) (e.status),
      )))
