-- ===== src/Authorization/Validate/Canonical.antt =====
-- authorization/index.ts: what `validateAuthorization` accepts, and the form that it gives it.
use connect_lib.Base.{
  ℕ, ◌≤◌, ◌<◌, ◌≡◌, refl, Bool, true, false, not, ◌&&◌, some, List, [], ◌∷◌, arith, Option-cases,
  inl, inr,
}
use connect_lib.Base.Sets.{has}
use connect_lib.Base.Text.{Text, text_eq_of}
use connect_lib.Authorization.Names.{Codec, ParsedAsset, parse_asset, canonical_principal}
use connect_lib.Authorization.Types.{
  mpp_session, rail_eq, GrantPeriod, Grant, Authorization, Invalid, Validated, valid, invalid,
  ◌>>=◌, require, is_distinct,
}
use connect_lib.Authorization.Validate.{
  is_grant, is_period, is_timed, is_filled, has_period, any_overlap, canonical_all, keep_grant,
  with_recipients, with_asset, validate_grant, validate_grants, with_principal,
  validate_authorization,
}

pub >>=-eq-valid :
    {S T : Type 0} (step : Validated S) (next : S → Validated T) {result : T}
    → (step >>= next) ≡ valid result
    → (s : S) × (step ≡ valid s) × (next s ≡ valid result)
>>=-eq-valid (invalid reason) next h = cc
>>=-eq-valid (valid s) next h = (s, refl, h)

pub require-eq-valid :
    {T : Type 0} (b : Bool) (e : Invalid) (rest : Validated T) {result : T}
    → (require b e >>= λ _. rest) ≡ valid result
    → (b ≡ true) × (rest ≡ valid result)
require-eq-valid true e rest h = (refl, h)
require-eq-valid false e rest h = cc

-- The limits of a grant make sense.
pub record IsLimited (g : Grant) : Type 0 where
  pub pays : 0 < g.max_per_payment
  pub within : g.max_per_payment ≤ g.max_total
  pub counted : (n : ℕ) → g.max_count ≡ some n → 0 < n
  pub periodic :
      (p : GrantPeriod)
      → g.period ≡ some p
      → (0 < p.amount) × (p.amount ≤ g.max_total) × (0 < p.seconds) × (0 < p.start)

-- `g'` is the canonical form of `g`: its asset and recipients in canonical form, no recipient and no
-- rail twice, nothing else changed.
pub record IsCanonical (x : Codec) (g g' : Grant) : Type 0 where
  pub limited : IsLimited g'
  pub asset : ParsedAsset
  pub parsed : parse_asset x g.asset ≡ some asset
  pub recipients : canonical_all x asset.namespace g.recipients ≡ some g'.recipients
  pub kept : g' ≡ record g { asset = asset.canonical; recipients = g'.recipients }
  pub distinct : (is_distinct g'.recipients ≡ true) × (is_distinct g'.rails ≡ true)
  pub spread : (is_filled g'.recipients ≡ true) × (is_filled g'.rails ≡ true)
  pub no_session : (p : GrantPeriod) → g'.period ≡ some p → has mpp_session g'.rails ≡ false

canonical_all-is_filled :
    (x : Codec) (a : ParsedAsset) (rs rs' : List Text)
    → canonical_all x a.namespace rs ≡ some rs'
    → is_filled rs ≡ true
    → is_filled rs' ≡ true
unfolding canonical_all
canonical_all-is_filled x a [] rs' h filled = cc
canonical_all-is_filled x a (r ∷ rs) rs' h filled = ground arith

limited_lem : (g : Grant) → is_grant g ≡ true → is_period g.max_total g.period ≡ true → IsLimited g
unfolding is_grant is_period
limited_lem g h k = record {
  pays = ground arith;
  within = ground arith;
  counted = λ n e. ground arith;
  periodic = λ p e. (ground arith, ground arith, ground arith, ground arith);
}

filled : (g : Grant) → is_grant g ≡ true → is_filled g.recipients ≡ true
unfolding is_grant
filled g h = ground arith

railed : (g : Grant) → is_grant g ≡ true → is_filled g.rails ≡ true
unfolding is_grant
railed g h = ground arith

validate_grant-IsCanonical :
    (x : Codec) (g g' : Grant) → validate_grant x g ≡ valid g' → IsCanonical x g g'
unfolding validate_grant with_asset with_recipients keep_grant
validate_grant-IsCanonical x g g' h =
    let (shaped, h₁) = require-eq-valid (is_grant g) _ _ h in
    let (timed, h₂) = require-eq-valid (is_period g.max_total g.period) _ _ h₁ in
    elim (Option-cases (parse_asset x g.asset)) [
      | inl unread ↦ absurd (ground arith)
      | inr (asset, parsed) ↦ elim (Option-cases (canonical_all x asset.namespace g.recipients)) [
        | inl unread ↦ absurd (ground arith)
        | inr (rs, all_read) ↦ kept shaped timed asset parsed rs all_read (ground (arith, h₂))
      ]
    ]
  where
    kept :
        is_grant g ≡ true
        → is_period g.max_total g.period ≡ true
        → (asset : ParsedAsset) → parse_asset x g.asset ≡ some asset
        → (rs : List Text) → canonical_all x asset.namespace g.recipients ≡ some rs
        → keep_grant g asset rs ≡ valid g'
        → IsCanonical x g g'
    kept shaped timed asset parsed rs all_read h =
        let (apart, h₁) =
          require-eq-valid (not (has_period g.period && has mpp_session g.rails)) _ _ h in
        let (distinct, h₂) = require-eq-valid (is_distinct rs && is_distinct g.rails) _ _ h₁ in
        let v = limited_lem g shaped timed in
        let is : g' ≡ record g { asset = asset.canonical; recipients = rs } = ground arith in
        rw is (record {
          limited = record {
            pays = v.pays;
            within = v.within;
            counted = v.counted;
            periodic = v.periodic;
          };
          asset = asset;
          parsed = parsed;
          recipients = all_read;
          kept = refl;
          distinct = (ground arith, ground arith);
          spread = (
            canonical_all-is_filled x asset g.recipients rs all_read (filled g shaped),
            railed g shaped,
          );
          no_session = λ p e. ground arith;
        })

-- Grant by grant.
abbrev pub AreCanonical : Codec → List Grant → List Grant → Type 0
AreCanonical x [] [] = Unit
AreCanonical x (g ∷ gs) (g' ∷ gs') = IsCanonical x g g' × AreCanonical x gs gs'
AreCanonical x _ _ = ⊥

validate_grants-AreCanonical :
    (x : Codec) (gs gs' : List Grant) → validate_grants x gs ≡ valid gs' → AreCanonical x gs gs'
unfolding validate_grants
validate_grants-AreCanonical x [] [] h = tt
validate_grants-AreCanonical x [] (g' ∷ gs') h = cc
validate_grants-AreCanonical x (g ∷ gs) gs'' h =
    let (g', first, h₁) = >>=-eq-valid (validate_grant x g) _ h in
    let (gs', more, h₂) = >>=-eq-valid (validate_grants x gs) _ h₁ in
    let is : gs'' ≡ g' ∷ gs' = ground arith in
    rw is (validate_grant-IsCanonical x g g' first, validate_grants-AreCanonical x gs gs' more)

accepted_ends : (a : Authorization) → is_timed a.not_before a.expires_at ≡ true → 0 < a.expires_at
unfolding is_timed
accepted_ends a h = ground arith

-- `a'` is `a` with its principal and grants in canonical form, its limits and times make sense, and
-- no payment could match two of its grants.
pub record IsAccepted (x : Codec) (a a' : Authorization) : Type 0 where
  pub principal : canonical_principal x a.principal ≡ some a'.principal
  pub grants : AreCanonical x a.grants a'.grants
  pub some_grant : is_filled a.grants ≡ true
  pub disjoint : any_overlap a'.grants ≡ false
  pub kept : a' ≡ record a { principal = a'.principal; grants = a'.grants }
  pub ends : 0 < a'.expires_at
  pub lasts : (from : ℕ) → a'.not_before ≡ some from → from < a'.expires_at

-- Every authorization that is accepted is accepted in canonical form.
pub validate_authorization-IsAccepted :
    (x : Codec) (a a' : Authorization) → validate_authorization x a ≡ valid a' → IsAccepted x a a'
unfolding validate_authorization with_principal is_timed
validate_authorization-IsAccepted x a a' h =
    let (shaped, h₁) =
      require-eq-valid (is_filled a.grants && is_timed a.not_before a.expires_at) _ _ h in
    elim (Option-cases (canonical_principal x a.principal)) [
      | inl unread ↦ absurd (ground arith)
      | inr (p, read) ↦
          let h₂ : with_principal x a (some p) ≡ valid a' = rw read at h₁ in
          let (gs, all_read, h₃) = >>=-eq-valid (validate_grants x a.grants) _ h₂ in
          let (apart, h₄) = require-eq-valid (not (any_overlap gs)) _ _ h₃ in
          let is : a' ≡ record a { principal = p; grants = gs } = ground arith in
          rw is (record {
            principal = read;
            grants = validate_grants-AreCanonical x a.grants gs all_read;
            some_grant = ground arith;
            disjoint = ground arith;
            kept = refl;
            ends = accepted_ends a (ground arith);
            lasts = λ from e. ground arith;
          })
    ]
