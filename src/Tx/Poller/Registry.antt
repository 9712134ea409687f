-- ===== src/Tx/Poller/Registry.antt =====
-- poller.ts: the poller's three maps, the polls, the poll keys of each chain and the chain timers.
use connect_lib.Base.{
  ℕ, ◌≡◌, ◌≢◌, inl, inr, refl, true, ◌||◌, Option, none, some, List, [], ◌∷◌, arith, is_some,
  or_else, Option-cases, Bool-cases, if◌then◌else◌, ◌==◌,
}
use connect_lib.Base.Dict.{lookup, insert, erase, nat_eq, lookup-insert, lookup-erase}
use connect_lib.Base.Text.{Text, pair_eq, pair_eq_iff, pair_eq_of}
use connect_lib.Tx.Keys.{
  Key, contains, add_key, delete_key, is_empty, contains-add_key, contains-delete_key,
  is_empty-contains, is_empty-nil, contains-nil, add_key-ne-nil,
}
use connect_lib.Tx.Types.{WatchOptions}
use connect_lib.Tx.Poller.{
  PollEntry, TxPoller, chain_set, new_entry, default_options, drop_chain, start_polling,
  remove_poll, remove_all, keys_of, stop_polling, stop_all,
}

-- Every poll is filed under its own key, each chain's set lists exactly the chain's polls, and a
-- chain has a timer exactly while it has a non-empty set.
pub record IsConsistent (p : TxPoller) : Type 0 where
  pub keyed :
      (k : Key) (entry : PollEntry)
      → lookup k p.polls ≡ some entry
      → (entry.chain_id ≡ k.0) × (entry.hash ≡ k.1)
  pub listed : (k : Key) → contains k (chain_set p k.0) ≡ is_some (lookup k p.polls)
  pub own : (c : ℕ) (k : Key) → contains k (chain_set p c) ≡ true → k.0 ≡ c
  pub timed : (c : ℕ) → is_some (lookup c p.chain_timers) ≡ is_some (lookup c p.chain_polls)
  pub busy : (c : ℕ) → lookup c p.chain_polls ≢ some []

module _ {p : TxPoller} (v : IsConsistent p) (hash : Text) (c : ℕ) (interval : Option ℕ)
    (options : Option WatchOptions) (now : ℕ) where
  -- Starting a poll keeps the maps in step.
  pub start_polling-IsConsistent : IsConsistent (start_polling hash c interval options now p)
  unfolding start_polling
  start_polling-IsConsistent = elim (Option-cases (lookup (c, hash) p.polls)) [
    | inr (e, old) ↦ rw old v
    | inl new ↦ rw new (record {
      keyed = λ k entry h. ground (arith, v.keyed k entry, polls_at k, pair_eq_iff (c, hash) k);
      listed = λ k.
          ground
            (arith, v.listed k, polls_at k, chains_at (k.0), keys_at k, pair_eq_iff (c, hash) k);
      own = λ d k h.
          ground (arith, v.own d k, v.own c k, chains_at d, keys_at k, pair_eq_iff (c, hash) k);
      timed = λ d. ground (arith, v.timed d, lookup-insert c d tt p.chain_timers, chains_at d);
      busy = λ d h. ground (arith, v.busy d, chains_at d, add_key-ne-nil (c, hash) (chain_set p c));
    })
  ]
    where
      polls_at :
          (k : Key)
          → lookup k (
              insert
                (c, hash)
                (new_entry hash c
                  (or_else options (default_options p.default_interval interval))
                  now)
                p.polls)
            ≡ (if pair_eq (c, hash) k
                then some (
                    new_entry hash c
                      (or_else options (default_options p.default_interval interval))
                      now)
                else lookup k p.polls)
      polls_at k =
          lookup-insert (c, hash) k
            (new_entry hash c (or_else options (default_options p.default_interval interval)) now)
            p.polls

      chains_at :
          (d : ℕ)
          → lookup d (insert c (add_key (c, hash) (chain_set p c)) p.chain_polls)
            ≡ (if c == d then some (add_key (c, hash) (chain_set p c)) else lookup d p.chain_polls)
      chains_at d = lookup-insert c d (add_key (c, hash) (chain_set p c)) p.chain_polls

      keys_at :
          (k : Key)
          → contains k (add_key (c, hash) (chain_set p c))
            ≡ (pair_eq (c, hash) k || contains k (chain_set p c))
      keys_at k = contains-add_key k (c, hash) (chain_set p c)

-- A chain whose set becomes empty loses its set and its timer; another keeps both.
module _ {p : TxPoller} (v : IsConsistent p) (key : Key) (ks : List Key)
    (set : lookup (key.0) p.chain_polls ≡ some ks) where
  removed : TxPoller
  removed = drop_chain (key.0) (delete_key key ks) (record p { polls = erase key p.polls })

  removed-IsConsistent : IsConsistent removed
  unfolding removed drop_chain
  removed-IsConsistent = elim (Bool-cases (is_empty (delete_key key ks))) [
    | inl empty ↦ rw empty (record {
      keyed = λ k entry h. ground (arith, v.keyed k entry, lookup-erase key k p.polls);
      listed = λ k. ground (
        arith,
        v.listed k,
        set,
        lookup-erase key k p.polls,
        lookup-erase (key.0) (k.0) p.chain_polls,
        contains-delete_key k key ks,
        contains-nil k,
        is_empty-contains k (delete_key key ks) empty,
        pair_eq_iff key k,
      );
      own =
          λ d k h. ground (arith, v.own d k, contains-nil k, lookup-erase (key.0) d p.chain_polls);
      timed = λ d. ground (
        arith,
        v.timed d,
        lookup-erase (key.0) d p.chain_polls,
        lookup-erase (key.0) d p.chain_timers,
      );
      busy = λ d h. ground (arith, v.busy d, lookup-erase (key.0) d p.chain_polls);
    })
    | inr more ↦ rw more (record {
      keyed = λ k entry h. ground (arith, v.keyed k entry, lookup-erase key k p.polls);
      listed = λ k. ground (
        arith,
        v.listed k,
        set,
        lookup-erase key k p.polls,
        lookup-insert (key.0) (k.0) (delete_key key ks) p.chain_polls,
        contains-delete_key k key ks,
        pair_eq_iff key k,
      );
      own = λ d k h. ground (
        arith,
        v.own d k,
        set,
        lookup-insert (key.0) d (delete_key key ks) p.chain_polls,
        contains-delete_key k key ks,
      );
      timed = λ d.
          ground (arith, v.timed d, set, lookup-insert (key.0) d (delete_key key ks) p.chain_polls);
      busy = λ d h. ground (
        arith,
        v.busy d,
        more,
        is_empty-nil (delete_key key ks),
        lookup-insert (key.0) d (delete_key key ks) p.chain_polls,
      );
    })
  ]

-- Removing a poll keeps the maps in step, and stops the timer of a chain with no poll left.
pub remove_poll-IsConsistent :
    {p : TxPoller} → IsConsistent p → (key : Key) → IsConsistent (remove_poll key p)
unfolding remove_poll removed
remove_poll-IsConsistent {p} v key = elim (Option-cases (lookup key p.polls)) [
  | inl gone ↦ rw (gone, remove_poll) v
  | inr (entry, there) ↦
      let filed : entry.chain_id ≡ key.0 = (v.keyed key entry there).0 in
      elim (Option-cases (lookup (key.0) p.chain_polls)) [
        | inl unset ↦ absurd (ground (arith, v.listed key, unset, there, contains-nil key))
        | inr (ks, set) ↦
            rw (there, filed, set, remove_poll) (rw filed (removed-IsConsistent v key ks set))
      ]
]

-- A removed poll is gone.
remove_poll-gone : (key : Key) (p : TxPoller) → lookup key (remove_poll key p).polls ≡ none
unfolding remove_poll drop_chain
remove_poll-gone key p = elim (Option-cases (lookup key p.polls)) [
  | inl gone ↦ rw (gone, remove_poll) gone
  | inr (e, there) ↦
      let erased : lookup key (erase key p.polls) ≡ none =
        ground (arith, lookup-erase key key p.polls, pair_eq_iff key key) in
      elim (Option-cases (lookup e.chain_id p.chain_polls)) [
        | inl unset ↦ rw (there, unset, remove_poll) erased
        | inr (ks, set) ↦ elim (Bool-cases (is_empty (delete_key key ks))) [
          | inl empty ↦ rw (there, set, empty, remove_poll) erased
          | inr more ↦ rw (there, set, more, remove_poll) erased
        ]
      ]
]

pub stop_polling-gone :
    (hash : Text) (c : ℕ) (p : TxPoller)
    → lookup (c, hash) (stop_polling hash (some c) p).polls ≡ none
unfolding stop_polling
stop_polling-gone hash c p = remove_poll-gone (c, hash) p

remove_all-IsConsistent :
    (ks : List Key) (p : TxPoller) → IsConsistent p → IsConsistent (remove_all ks p)
unfolding remove_all
remove_all-IsConsistent [] p v = v
remove_all-IsConsistent (k ∷ ks) p v =
    remove_all-IsConsistent ks (remove_poll k p) (remove_poll-IsConsistent v k)

pub stop_polling-IsConsistent :
    {p : TxPoller}
    → IsConsistent p
    → (hash : Text) (c : Option ℕ) → IsConsistent (stop_polling hash c p)
unfolding stop_polling
stop_polling-IsConsistent {p} v hash none = remove_all-IsConsistent (keys_of hash p.polls) p v
stop_polling-IsConsistent v hash (some c) = remove_poll-IsConsistent v (c, hash)

pub stop_all-IsConsistent : (p : TxPoller) → IsConsistent (stop_all p)
unfolding stop_all contains lookup
stop_all-IsConsistent p = record {
  keyed = λ k entry h. cc;
  listed = λ k. refl;
  own = λ c k h. cc;
  timed = λ c. refl;
  busy = λ c h. cc;
}

-- A write to the object of a poll that is there leaves the maps in step.
pub rewrite-IsConsistent :
    {p : TxPoller}
    → IsConsistent p
    → (k : Key) (entry entry' : PollEntry) → lookup k p.polls ≡ some entry
    → entry'.chain_id ≡ entry.chain_id
    → entry'.hash ≡ entry.hash
    → IsConsistent (record p { polls = insert k entry' p.polls })
rewrite-IsConsistent {p} v k entry entry' there chain hash = record {
  keyed = λ j e h.
      ground
        (arith, v.keyed j e, v.keyed k entry, lookup-insert k j entry' p.polls, pair_eq_iff k j);
  listed = λ j. ground (arith, v.listed j, lookup-insert k j entry' p.polls, pair_eq_iff k j);
  own = v.own;
  timed = v.timed;
  busy = v.busy;
}
