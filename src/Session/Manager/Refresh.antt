-- ===== src/Session/Manager/Refresh.antt =====
-- SessionKeyManager.ts: `refreshCache`, of a store that holds an id once.
use connect_lib.Base.{
  ℕ, ◌≡◌, refl, ◌∙◌, inl, inr, false, none, some, List, [], ◌∷◌, arith, Bool-cases, map, any,
}
use connect_lib.Base.Text.{Text, text_eq, text_eq_iff}
use connect_lib.Session.Types.{StoredSessionKey}
use connect_lib.Session.Store.{get, save}
use connect_lib.Session.Store.Get.{get-save}
use connect_lib.Session.Manager.{is_expired, refreshed, save_expired, expires_now, refresh_cache}
use connect_lib.Session.Manager.Kept.{IsKept, Keeps, Keeps-refl, Keeps-trans, save-Keeps}

-- No two keys have the same id.
abbrev pub AreUnique : List StoredSessionKey → Type 0
AreUnique [] = Unit
AreUnique (k ∷ keys) = (get k.id keys ≡ none) × AreUnique keys

pub save-AreUnique :
    (k : StoredSessionKey) (keys : List StoredSessionKey) → AreUnique keys → AreUnique (save k keys)
unfolding save get
save-AreUnique k [] h = (refl, tt)
save-AreUnique k (j ∷ keys) (sole, rest) = elim (Bool-cases (text_eq j.id k.id)) [
  | inl here ↦
      let same : j.id ≡ k.id = (text_eq_iff j.id k.id).0 here in rw here ((rw (← same) sole), rest)
  | inr other ↦
      let apart : text_eq k.id j.id ≡ false =
        ground (arith, text_eq_iff k.id j.id, text_eq_iff j.id k.id) in
      rw other ((get-save j.id k keys ∙ rw apart sole), save-AreUnique k keys rest)
]

-- The keys of a list are all found in a store.
abbrev AreFound : List StoredSessionKey → List StoredSessionKey → Type 0
AreFound keys [] = Unit
AreFound keys (k ∷ ks) = (get k.id keys ≡ some k) × AreFound keys ks

AreFound-cons :
    (k : StoredSessionKey) (keys ks : List StoredSessionKey)
    → get k.id ks ≡ none
    → AreFound keys ks
    → AreFound (k ∷ keys) ks
unfolding get
AreFound-cons k keys [] h found = tt
AreFound-cons k keys (j ∷ ks) h (here, found) = (
  ground (arith, text_eq_iff k.id j.id, text_eq_iff j.id k.id),
  AreFound-cons k keys ks (ground arith) found,
)

AreUnique-AreFound : (keys : List StoredSessionKey) → AreUnique keys → AreFound keys keys
unfolding get
AreUnique-AreFound [] h = tt
AreUnique-AreFound (k ∷ keys) (sole, rest) = (
  ground (arith, text_eq_iff k.id k.id),
  AreFound-cons k keys keys sole (AreUnique-AreFound keys rest),
)

AreFound-save :
    (k : StoredSessionKey) (keys ks : List StoredSessionKey)
    → get k.id ks ≡ none
    → AreFound keys ks
    → AreFound (save k keys) ks
unfolding get
AreFound-save k keys [] h found = tt
AreFound-save k keys (j ∷ ks) h (here, found) =
    let apart : text_eq k.id j.id ≡ false =
      ground (arith, text_eq_iff k.id j.id, text_eq_iff j.id k.id) in
    (get-save j.id k keys ∙ rw apart here, AreFound-save k keys ks (ground arith) found)

refreshed-id : (now : ℕ) (k : StoredSessionKey) → (refreshed now k).id ≡ k.id
unfolding refreshed
refreshed-id now k = ground arith

refreshed-IsKept : (now : ℕ) (k : StoredSessionKey) → IsKept k (refreshed now k)
unfolding refreshed
refreshed-IsKept now k = record { same = ground arith; stays = λ h. ground arith }

save_expired-Keeps :
    (id : Text) (now : ℕ) (ks keys : List StoredSessionKey)
    → AreUnique ks
    → AreFound keys ks
    → Keeps id keys (save_expired (map (refreshed now) ks) keys)
unfolding save_expired
save_expired-Keeps id now [] keys h found = Keeps-refl id keys
save_expired-Keeps id now (k ∷ ks) keys (sole, rest) (here, found) =
    elim (Bool-cases (is_expired (refreshed now k).status)) [
      | inr other ↦ rw (other, save_expired) (save_expired-Keeps id now ks keys rest found)
      | inl over ↦
          let named = refreshed-id now k in
          let apart : get (refreshed now k).id ks ≡ none = rw named sole in
          rw (over, save_expired)
            (Keeps-trans id keys (save (refreshed now k) keys) _
              (save-Keeps id k (refreshed now k) keys here (refreshed-IsKept now k))
              (save_expired-Keeps id now ks (save (refreshed now k) keys) rest
                (AreFound-save (refreshed now k) keys ks apart found)))
    ]

save_expired-AreUnique :
    (ks keys : List StoredSessionKey) → AreUnique keys → AreUnique (save_expired ks keys)
unfolding save_expired
save_expired-AreUnique [] keys h = h
save_expired-AreUnique (k ∷ ks) keys h = elim (Bool-cases (is_expired k.status)) [
  | inl over ↦ rw over (save_expired-AreUnique ks (save k keys) (save-AreUnique k keys h))
  | inr other ↦ rw other (save_expired-AreUnique ks keys h)
]

pub refresh_cache-Keeps :
    (id : Text) (now : ℕ) (keys : List StoredSessionKey)
    → AreUnique keys
    → Keeps id keys (refresh_cache now keys).1
unfolding refresh_cache
refresh_cache-Keeps id now keys h = elim (Bool-cases (any (expires_now now) keys)) [
  | inl some_expire ↦
      rw some_expire (save_expired-Keeps id now keys keys h (AreUnique-AreFound keys h))
  | inr unchanged ↦ rw unchanged (Keeps-refl id keys)
]

pub refresh_cache-AreUnique :
    (now : ℕ) (keys : List StoredSessionKey) → AreUnique keys → AreUnique (refresh_cache now keys).1
unfolding refresh_cache
refresh_cache-AreUnique now keys h = elim (Bool-cases (any (expires_now now) keys)) [
  | inl some_expire ↦ rw some_expire (save_expired-AreUnique (map (refreshed now) keys) keys h)
  | inr unchanged ↦ rw unchanged h
]
