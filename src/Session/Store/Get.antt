-- ===== src/Session/Store/Get.antt =====
-- session-keys/storage.ts: what a stored key is found to be after a change.
use connect_lib.Base.{
  ◌≡◌, refl, false, some, List, [], ◌∷◌, arith, if◌then◌else◌, Bool-cases, inl, inr,
}
use connect_lib.Base.Text.{Text, text_eq, text_eq_iff}
use connect_lib.Session.Types.{StoredSessionKey, passed}
use connect_lib.Session.Store.{get, save, change}

pub get-id :
    (id : Text) (keys : List StoredSessionKey) (k : StoredSessionKey)
    → get id keys ≡ some k
    → k.id ≡ id
unfolding get
get-id id [] k h = absurd (ground arith)
get-id id (j ∷ keys) k h = ground (arith, text_eq_iff j.id id, get-id id keys k)

pub get-save :
    (id : Text) (k : StoredSessionKey) (keys : List StoredSessionKey)
    → get id (save k keys) ≡ (if text_eq k.id id then some k else get id keys)
unfolding get save
get-save id k [] = refl
get-save id k (j ∷ keys) = elim (Bool-cases (text_eq j.id k.id)) [
  | inl here ↦
      let same : j.id ≡ k.id = (text_eq_iff j.id k.id).0 here in
      elim (Bool-cases (text_eq k.id id)) [
        | inl this ↦ rw (here, this) refl
        | inr other ↦ rw (here, same, other) refl
      ]
  | inr further ↦ elim (Bool-cases (text_eq j.id id)) [
    | inr other ↦ rw (further, other) (get-save id k keys)
    | inl this ↦
        let apart : text_eq k.id id ≡ false =
          ground (arith, text_eq_iff j.id k.id, text_eq_iff k.id id, text_eq_iff j.id id) in
        rw (further, this, apart) refl
  ]
]

pub change-get :
    (id : Text) (f : StoredSessionKey → StoredSessionKey) (k : StoredSessionKey)
    (keys : List StoredSessionKey)
    → get id keys ≡ some k
    → change id f keys ≡ (passed tt, save (f k) keys)
unfolding change
change-get id f k keys h = rw (h, change) refl
