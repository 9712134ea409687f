-- ===== src/Tx/Keys.antt =====
-- Sets of `${chainId}:${hash}` keys, JavaScript's Set in insertion order.
use connect_lib.Base.{
  ℕ, ◌≡◌, ◌≢◌, inl, inr, refl, Bool, true, false, not, ◌&&◌, ◌||◌, List, [], ◌∷◌, ◌++◌, arith,
  Bool-cases, if◌then◌else◌, any,
}
use connect_lib.Base.Text.{Text, pair_eq, pair_eq_iff}

abbrev pub Key : Type 0
Key = ℕ × Text

-- `set.has(key)`
unfoldable pub contains : Key → List Key → Bool
contains k ks = any (λ j. pair_eq j k) ks

-- `set.add(key)`
unfoldable pub add_key : Key → List Key → List Key
unfolding contains
add_key k ks = if contains k ks then ks else ks ++ k ∷ []

-- `set.delete(key)`
unfoldable pub delete_key : Key → List Key → List Key
delete_key k [] = []
delete_key k (j ∷ ks) = if pair_eq j k then delete_key k ks else j ∷ delete_key k ks

-- `set.size === 0`
unfoldable pub is_empty : List Key → Bool
is_empty [] = true
is_empty (_ ∷ _) = false

contains-snoc :
    (j k : Key) (ks : List Key) → contains j (ks ++ k ∷ []) ≡ (pair_eq k j || contains j ks)
unfolding contains
contains-snoc j k [] = ground arith
contains-snoc j k (i ∷ ks) = ground (arith, contains-snoc j k ks)

pub contains-add_key :
    (j k : Key) (ks : List Key) → contains j (add_key k ks) ≡ (pair_eq k j || contains j ks)
unfolding add_key
contains-add_key j k ks = elim (Bool-cases (contains k ks)) [
  | inl old ↦ ground (arith, pair_eq_iff k j)
  | inr new ↦ ground (arith, contains-snoc j k ks)
]

pub contains-delete_key :
    (j k : Key) (ks : List Key)
    → contains j (delete_key k ks) ≡ (not (pair_eq k j) && contains j ks)
unfolding contains delete_key
contains-delete_key j k [] = ground arith
contains-delete_key j k (i ∷ ks) =
    ground (arith, contains-delete_key j k ks, pair_eq_iff i k, pair_eq_iff k j, pair_eq_iff i j)

pub is_empty-contains : (j : Key) (ks : List Key) → is_empty ks ≡ true → contains j ks ≡ false
unfolding is_empty contains
is_empty-contains j [] h = refl
is_empty-contains j (k ∷ ks) h = cc

pub is_empty-nil : (ks : List Key) → ks ≡ [] → is_empty ks ≡ true
unfolding is_empty
is_empty-nil [] h = refl
is_empty-nil (k ∷ ks) h = cc

pub contains-nil : (k : Key) → contains k [] ≡ false
unfolding contains
contains-nil k = refl

-- The chain set with a key added is never empty.
pub add_key-ne-nil : (k : Key) (ks : List Key) → add_key k ks ≢ []
unfolding add_key contains
add_key-ne-nil k [] h = cc
add_key-ne-nil k (i ∷ ks) h = ground arith
