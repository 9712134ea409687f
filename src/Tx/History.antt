-- ===== src/Tx/History.antt =====
-- tx-monitor/TxHistoryStore.ts: the stored entries and the in-memory indices over their keys.
--
-- The storage adapter is the in-memory one, a map; `JSON.parse` after `JSON.stringify` gives an
-- entry back, its undefined properties left out.
pub mod Index
pub mod Query
mod Tests
use connect_lib.Base.{
  ℕ, ◌+◌, ◌-◌, ◌*◌, Bool, true, false, ◌&&◌, Option, none, some, List, [], ◌∷◌, ltb, leb,
  if◌then◌else◌, or_else, length, take, drop,
}
use connect_lib.Base.Dict.{Eq, Dict, lookup, insert, erase, nat_eq}
use connect_lib.Base.Text.{Text, text_eq, text_eq_of, pair_eq_of, to_lower_case}
use connect_lib.Tx.Keys.{Key, contains, add_key, delete_key, is_empty}
use connect_lib.Tx.Types.{TxStatus, TxStatusEntry, same_status, status_eq}

abbrev pub min_cleanup_entries : ℕ
min_cleanup_entries = 100

pub record TxHistory : Type 0 where
  pub storage : Dict Key TxStatusEntry
  pub all_keys : List Key
  pub by_address : Dict Text (List Key)
  pub by_chain : Dict ℕ (List Key)
  pub by_status : Dict TxStatus (List Key)

-- `TxHistoryQuery`; an empty address is no filter.
pub record HistoryQuery : Type 0 where
  pub address : Option Text
  pub chain_id : Option ℕ
  pub status : Option TxStatus
  pub limit : Option ℕ
  pub offset : Option ℕ
  pub from_date : Option ℕ
  pub to_date : Option ℕ

abbrev pub make_key : TxStatusEntry → Key
make_key e = (e.chain_id, e.hash)

module _ {K : Type 0} ⦃e : Eq K⦄ where
  -- `map.get(k) ?? new Set()`
  abbrev pub keys_at : K → Dict K (List Key) → List Key
  keys_at k m = or_else (lookup k m) []

  -- one index with a key added under `k`
  unfoldable pub index_add : K → Key → Dict K (List Key) → Dict K (List Key)
  index_add k key m = insert k (add_key key (keys_at k m)) m

  -- one index with a key removed from `k`, and `k` itself once nothing is left under it
  unfoldable pub index_remove : K → Key → Dict K (List Key) → Dict K (List Key)
  index_remove k key m = elim (lookup k m) [
    | none ↦ m
    | some ks ↦ if is_empty (delete_key key ks) then erase k m else insert k (delete_key key ks) m
  ]

-- the address index with a key added, where the address is not empty
add_address : Text → Key → Dict Text (List Key) → Dict Text (List Key)
add_address [] key m = m
add_address (c ∷ s) key m = index_add (to_lower_case (c ∷ s)) key m

-- `addToIndexes`
unfoldable pub add_to_indexes : TxStatusEntry → TxHistory → TxHistory
unfolding add_address
add_to_indexes entry h = record h {
  all_keys = add_key (make_key entry) h.all_keys;
  by_address =
      (let m = add_address entry.from (make_key entry) h.by_address in
        if text_eq entry.to entry.from then m else add_address entry.to (make_key entry) m);
  by_chain = index_add entry.chain_id (make_key entry) h.by_chain;
  by_status = index_add entry.status (make_key entry) h.by_status;
}

-- `removeFromIndexes`
unfoldable pub remove_from_indexes : TxStatusEntry → TxHistory → TxHistory
remove_from_indexes entry h = record h {
  all_keys = delete_key (make_key entry) h.all_keys;
  by_address =
      (let m = index_remove (to_lower_case entry.from) (make_key entry) h.by_address in
        if text_eq (to_lower_case entry.to) (to_lower_case entry.from)
        then m
        else index_remove (to_lower_case entry.to) (make_key entry) m);
  by_chain = index_remove entry.chain_id (make_key entry) h.by_chain;
  by_status = index_remove entry.status (make_key entry) h.by_status;
}

-- `upsert`
unfoldable pub upsert : TxStatusEntry → TxHistory → TxHistory
upsert entry h =
    add_to_indexes entry (record h { storage = insert (make_key entry) entry h.storage })

-- the scan of `get` over the known keys
scan_get : Text → List Key → Dict Key TxStatusEntry → Option TxStatusEntry
scan_get hash [] m = none
scan_get hash (k ∷ ks) m = elim (if text_eq (k.1) hash then lookup k m else none) [
  | none ↦ scan_get hash ks m
  | some e ↦ some e
]

-- `get`
unfoldable pub get : Text → Option ℕ → TxHistory → Option TxStatusEntry
unfolding scan_get
get hash none h = scan_get hash h.all_keys h.storage
get hash (some chain_id) h = lookup (chain_id, hash) h.storage

-- `delete` on a known chain
unfoldable pub delete : Text → ℕ → TxHistory → TxHistory
delete hash chain_id h = elim (lookup (chain_id, hash) h.storage) [
  | none ↦ h
  | some entry ↦
      let h' : TxHistory = remove_from_indexes entry h in
      record h' { storage = erase (chain_id, hash) h'.storage }
]

-- `for (const k of keys) if (candidates.has(k)) matched.add(k)`
keep : List Key → List Key → List Key
keep candidates [] = []
keep candidates (k ∷ ks) =
    if contains k candidates then k ∷ keep candidates ks else keep candidates ks

by_address_filter : Option Text → TxHistory → List Key
by_address_filter none h = h.all_keys
by_address_filter (some []) h = h.all_keys
by_address_filter (some (c ∷ s)) h = keys_at (to_lower_case (c ∷ s)) h.by_address

index_filter : {K : Type 0} ⦃e : Eq K⦄ → Option K → Dict K (List Key) → List Key → List Key
index_filter none m candidates = candidates
index_filter (some k) m candidates = keep candidates (keys_at k m)

-- the stored entries of the candidate keys
load : Dict Key TxStatusEntry → List Key → List TxStatusEntry
load m [] = []
load m (k ∷ ks) = elim (lookup k m) [ none ↦ load m ks | some e ↦ e ∷ load m ks ]

in_dates : HistoryQuery → TxStatusEntry → Bool
in_dates q e =
    elim q.from_date [ none ↦ true | some d ↦ leb d e.created_at ]
    && elim q.to_date [ none ↦ true | some d ↦ leb e.created_at d ]

filter_entries : (TxStatusEntry → Bool) → List TxStatusEntry → List TxStatusEntry
filter_entries p [] = []
filter_entries p (e ∷ es) = if p e then e ∷ filter_entries p es else filter_entries p es

-- `sort((a, b) => b.createdAt - a.createdAt)`, which is stable
insert_newest : TxStatusEntry → List TxStatusEntry → List TxStatusEntry
insert_newest e [] = e ∷ []
insert_newest e (f ∷ es) =
    if ltb e.created_at f.created_at then f ∷ insert_newest e es else e ∷ f ∷ es

newest_first : List TxStatusEntry → List TxStatusEntry
newest_first [] = []
newest_first (e ∷ es) = insert_newest e (newest_first es)

-- The entries that `query` selects, before it sorts and cuts them.
unfoldable pub selected : HistoryQuery → TxHistory → List TxStatusEntry
unfolding by_address_filter index_filter load in_dates filter_entries keep
selected q h = filter_entries (in_dates q) (
    load h.storage (
      index_filter q.status h.by_status
        (index_filter q.chain_id h.by_chain (by_address_filter q.address h))))

-- `query`
unfoldable pub query : HistoryQuery → TxHistory → List TxStatusEntry
unfolding selected newest_first insert_newest
query q h =
    let sorted = newest_first (selected q h) in
    take (or_else q.limit (length sorted)) (drop (or_else q.offset 0) sorted)

-- the keys that `cleanup` would delete
expired : ℕ → Dict Key TxStatusEntry → List Key → List Key
expired cutoff m [] = []
expired cutoff m (k ∷ ks) = elim (lookup k m) [
  | none ↦ expired cutoff m ks
  | some e ↦ if ltb e.created_at cutoff then k ∷ expired cutoff m ks else expired cutoff m ks
]

-- one round of the second loop of `cleanup`
delete_expired : Key → TxHistory → TxHistory
delete_expired k h = elim (lookup k h.storage) [
  | none ↦ record h { storage = erase k h.storage }
  | some entry ↦
      let h' : TxHistory = remove_from_indexes entry h in record h' { storage = erase k h'.storage }
]

delete_all : List Key → TxHistory → TxHistory
delete_all [] h = h
delete_all (k ∷ ks) h = delete_all ks (delete_expired k h)

abbrev pub day_ms : ℕ
day_ms = 24 * 60 * 60 * 1000

-- `cleanup`: the store left behind, and how many keys were deleted
unfoldable pub cleanup : ℕ → ℕ → TxHistory → TxHistory × ℕ
unfolding expired delete_all delete_expired
cleanup retention_days now h =
    let old = expired (now - retention_days * day_ms) h.storage h.all_keys in
    if ltb (length h.all_keys) min_cleanup_entries && ltb (length old) (length h.all_keys)
    then (h, 0)
    else (delete_all old h, length old)

-- `getAllHashes` of every chain
unfoldable pub get_all_hashes : TxHistory → List Key
get_all_hashes h = h.all_keys

abbrev pub empty_history : TxHistory
empty_history = record {
  storage = [];
  all_keys = [];
  by_address = [];
  by_chain = [];
  by_status = [];
}
