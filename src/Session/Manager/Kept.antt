-- ===== src/Session/Manager/Kept.antt =====
-- SessionKeyManager.ts: the methods that leave what a key has spent as it is.
use connect_lib.Base.{
  ℕ, ◌≡◌, refl, sym, ap, ◌∙◌, subst, inl, inr, true, false, Option, some, List, arith, Option-cases,
  Bool-cases,
}
use connect_lib.Base.Text.{Text, text_eq, text_eq_iff}
use connect_lib.Session.Types.{
  StoredSessionKey, SessionKeyStatus, SessionKeyError, SignedAuthorization, Checked, passed, thrown,
}
use connect_lib.Session.Store.{get, save, change, update_status}
use connect_lib.Session.Store.Get.{get-id, get-save}
use connect_lib.Session.Manager.{is_active, check_authorization, set_authorization, revoke_session}
use connect_lib.Session.Manager.Outcome.{IsLeft}

-- Only the status and the authorization may differ, and a key is active only if it was.
pub record IsKept (k k' : StoredSessionKey) : Type 0 where
  pub same : k' ≡ record k { status = k'.status; authorization = k'.authorization }
  pub stays : is_active k'.status ≡ true → is_active k.status ≡ true

-- What is stored under an id afterwards was stored before, and is kept.
abbrev pub Keeps : Text → List StoredSessionKey → List StoredSessionKey → Type 0
Keeps id keys keys' =
    (k' : StoredSessionKey)
    → get id keys' ≡ some k'
    → (k : StoredSessionKey) × (get id keys ≡ some k) × IsKept k k'

IsKept-refl : (k : StoredSessionKey) → IsKept k k
IsKept-refl k = record { same = refl; stays = λ h. h }

pub Keeps-refl : (id : Text) (keys : List StoredSessionKey) → Keeps id keys keys
Keeps-refl id keys k' h = (k', h, IsKept-refl k')

IsKept-trans : (a b c : StoredSessionKey) → IsKept a b → IsKept b c → IsKept a c
IsKept-trans a b c v w = record {
  same =
      w.same
      ∙ ap
          (λ (k : StoredSessionKey). record k {
            status = c.status;
            authorization = c.authorization;
          })
          v.same;
  stays = λ h. v.stays (w.stays h);
}

pub Keeps-trans :
    (id : Text) (ks ls ms : List StoredSessionKey)
    → Keeps id ks ls
    → Keeps id ls ms
    → Keeps id ks ms
Keeps-trans id ks ls ms first next k'' h =
    let (k', was, w) = next k'' h in
    let (k, before, v) = first k' was in (k, before, IsKept-trans k k' k'' v w)

-- Saving a kept form of a stored key keeps every key.
pub save-Keeps :
    (id : Text) (k f : StoredSessionKey) (keys : List StoredSessionKey)
    → get k.id keys ≡ some k
    → IsKept k f
    → Keeps id keys (save f keys)
save-Keeps id k f keys stored v k' h =
    let named : f.id ≡ k.id = ap (λ (j : StoredSessionKey). j.id) v.same in
    elim (Bool-cases (text_eq f.id id)) [
      | inr other ↦
          let there : get id keys ≡ some k' = sym (get-save id f keys ∙ (rw other refl)) ∙ h in
          (k', there, IsKept-refl k')
      | inl this ↦
          let here : k.id ≡ id = sym named ∙ (text_eq_iff f.id id).0 this in
          let is : ◌≡◌ {A = Option StoredSessionKey} (some f) (some k') =
            sym (get-save id f keys ∙ (rw this refl)) ∙ h in
          let new : f ≡ k' = ground arith in
          (k, subst (λ i. get i keys ≡ some k) here stored, subst (λ j. IsKept k j) new v)
    ]

update_status-Keeps :
    (id j : Text) (s : SessionKeyStatus) (keys : List StoredSessionKey)
    → is_active s ≡ false
    → Keeps id keys (update_status j s keys).1
unfolding update_status change
update_status-Keeps id j s keys over = elim (Option-cases (get j keys)) [
  | inl missing ↦ rw (missing, change) (Keeps-refl id keys)
  | inr (k, stored) ↦
      let named = get-id j keys k stored in
      rw (stored, change)
        (save-Keeps id k (record k { status = s }) keys
          (subst (λ i. get i keys ≡ some k) (sym named) stored)
          (record { same = refl; stays = λ h. absurd (ground arith) }))
]

pub IsLeft-Keeps :
    (id : Text) (now : ℕ) (keys keys' : List StoredSessionKey)
    → IsLeft now keys keys'
    → Keeps id keys keys'
IsLeft-Keeps id now keys keys' (inl same) = rw same (Keeps-refl id keys)
IsLeft-Keeps id now keys keys' (inr (k, found, past, same)) =
    rw same (update_status-Keeps id k.id SessionKeyStatus.expired keys refl)

pub revoke_session-Keeps :
    (id j : Text) (keys : List StoredSessionKey) → Keeps id keys (revoke_session j keys).1
unfolding revoke_session
revoke_session-Keeps id j keys = update_status-Keeps id j SessionKeyStatus.revoked keys refl

pub set_authorization-Keeps :
    (id j : Text) (a : SignedAuthorization) (keys : List StoredSessionKey)
    → Keeps id keys (set_authorization j a keys).1
unfolding set_authorization
set_authorization-Keeps id j a keys = elim (Option-cases (get j keys)) [
  | inl missing ↦ rw (missing, set_authorization) (Keeps-refl id keys)
  | inr (k, stored) ↦ go k stored (check_authorization k a) refl
]
  where
    go :
        (k : StoredSessionKey)
        → get j keys ≡ some k
        → (c : Checked SessionKeyError (Unit {0})) → check_authorization k a ≡ c
        → Keeps id keys (set_authorization j a keys).1
    go k stored (thrown e) h = rw (stored, set_authorization, h) (Keeps-refl id keys)
    go k stored (passed _) h =
        rw (stored, set_authorization, h)
          (save-Keeps id k (record k { authorization = a }) keys
            (subst (λ i. get i keys ≡ some k) (sym (get-id j keys k stored)) stored)
            (record { same = refl; stays = λ h. h }))
