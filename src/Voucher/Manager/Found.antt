-- ===== src/Voucher/Manager/Found.antt =====
-- What `find_key` gives once a key is put or appended.
use connect_lib.Base.{◌≡◌, refl, none, some, List, [], ◌∷◌, ◌++◌, arith, if◌then◌else◌}
use connect_lib.Base.Text.{Text, text_eq, text_eq_iff}
use connect_lib.Voucher.Types.{StoredKey}
use connect_lib.Voucher.Manager.{find_key, put_key}

pub find_key-id :
    (id : Text) (keys : List StoredKey) (k : StoredKey) → find_key id keys ≡ some k → k.id ≡ id
unfolding find_key
find_key-id id [] k h = cc
find_key-id id (j ∷ keys) k h = ground (arith, find_key-id id keys k, text_eq_iff j.id id)

pub find_key-put_key :
    (id j : Text) (k' : StoredKey) (keys : List StoredKey)
    → k'.id ≡ j
    → (k : StoredKey) → find_key j keys ≡ some k
    → find_key id (put_key j k' keys) ≡ (if text_eq j id then some k' else find_key id keys)
unfolding find_key put_key
find_key-put_key id j k' [] same k h = cc
find_key-put_key id j k' (i ∷ keys) same k h = ground (
  arith,
  find_key-put_key id j k' keys same k,
  text_eq_iff i.id j,
  text_eq_iff i.id id,
  text_eq_iff j id,
  text_eq_iff k'.id id,
)

pub find_key-append_new :
    (id : Text) (keys : List StoredKey) (k : StoredKey)
    → find_key id keys ≡ none
    → find_key id (keys ++ k ∷ []) ≡ (if text_eq k.id id then some k else none)
unfolding find_key
find_key-append_new id [] k h = refl
find_key-append_new id (j ∷ keys) k h = ground (arith, find_key-append_new id keys k)

pub find_key-append_old :
    (id : Text) (keys : List StoredKey) (k old : StoredKey)
    → find_key id keys ≡ some old
    → find_key id (keys ++ k ∷ []) ≡ some old
unfolding find_key
find_key-append_old id [] k old h = cc
find_key-append_old id (j ∷ keys) k old h = ground (arith, find_key-append_old id keys k old)
