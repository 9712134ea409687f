-- ===== src/Authorization/Validate.antt =====
-- authorization/index.ts: `validateAuthorization`.
pub mod Canonical
use connect_lib.Base.{
  ℕ, Bool, true, false, not, ◌&&◌, ◌||◌, Option, none, some, List, [], ◌∷◌, leb, ltb, ◌==◌,
  if◌then◌else◌, any,
}
use connect_lib.Base.Sets.{has}
use connect_lib.Base.Text.{Text, text_eq, text_eq_of}
use connect_lib.Authorization.Names.{
  Codec, Namespace, ParsedAsset, parse_asset, canonical_address, canonical_principal, is_safe,
}
use connect_lib.Authorization.Types.{
  Rail, mpp_session, rail_eq, GrantPeriod, Grant, Authorization, Invalid, Validated, valid, invalid,
  ◌>>=◌, ◌>>◌, require, is_distinct, meets,
}

abbrev pub is_count : Option ℕ → Bool
is_count none = true
is_count (some n) = is_safe n && ltb 0 n

abbrev pub is_filled {ℓ} : {A : Type ℓ} → List A → Bool
is_filled [] = false
is_filled (_ ∷ _) = true

-- The tests on a grant's own fields.
unfoldable pub is_grant : Grant → Bool
is_grant g =
    is_filled g.recipients
    && (ltb 0 g.max_per_payment
        && (leb g.max_per_payment g.max_total && (is_count g.max_count && is_filled g.rails)))

unfoldable pub is_period : ℕ → Option GrantPeriod → Bool
is_period max_total none = true
is_period max_total (some p) =
    ltb 0 p.amount
    && (leb p.amount max_total
        && (is_safe p.seconds && (ltb 0 p.seconds && (is_safe p.start && ltb 0 p.start))))

abbrev pub has_period : Option GrantPeriod → Bool
has_period none = false
has_period (some p) = true

-- The tests on the times of an authorization.
unfoldable pub is_timed : Option ℕ → ℕ → Bool
is_timed none expires_at = is_safe expires_at && ltb 0 expires_at
is_timed (some from) expires_at =
    is_safe expires_at && (ltb 0 expires_at && (is_safe from && ltb from expires_at))

-- Two grants that one payment could match.
unfoldable pub overlaps : Grant → Grant → Bool
overlaps a b = text_eq a.asset b.asset && (meets a.recipients b.recipients && meets a.rails b.rails)

unfoldable pub any_overlap : List Grant → Bool
any_overlap [] = false
any_overlap (g ∷ gs) = any (λ h. overlaps g h) gs || any_overlap gs

-- What is tested once the asset and the recipients are canonical, and the grant that is kept.
unfoldable pub keep_grant : Grant → ParsedAsset → List Text → Validated Grant
keep_grant g parsed recipients = do
  require (not (has_period g.period && has mpp_session g.rails)) Invalid.mpp_period
  require (is_distinct recipients && is_distinct g.rails) Invalid.duplicates
  valid (record g { asset = parsed.canonical; recipients = recipients })

unfoldable pub with_recipients : Grant → ParsedAsset → Option (List Text) → Validated Grant
with_recipients g parsed none = invalid Invalid.recipient
with_recipients g parsed (some recipients) = keep_grant g parsed recipients

module _ (x : Codec) where
  -- The recipients, each canonical, if every one is an address.
  unfoldable pub canonical_all : Namespace → List Text → Option (List Text)
  canonical_all n [] = some []
  canonical_all n (a ∷ rest) = elim (canonical_address x n a) [
    | none ↦ none
    | some a' ↦ elim (canonical_all n rest) [ none ↦ none | some rest' ↦ some (a' ∷ rest') ]
  ]

  unfoldable pub with_asset : Grant → Option ParsedAsset → Validated Grant
  with_asset g none = invalid Invalid.asset
  with_asset g (some parsed) =
      with_recipients g parsed (canonical_all parsed.namespace g.recipients)

  -- One round of the loop over the grants.
  unfoldable pub validate_grant : Grant → Validated Grant
  validate_grant g = do
    require (is_grant g) Invalid.grant_structure
    require (is_period g.max_total g.period) Invalid.grant_period
    with_asset g (parse_asset x g.asset)

  unfoldable pub validate_grants : List Grant → Validated (List Grant)
  validate_grants [] = valid []
  validate_grants (g ∷ gs) = do g' ← validate_grant g; gs' ← validate_grants gs; valid (g' ∷ gs')

  unfoldable pub with_principal : Authorization → Option Text → Validated Authorization
  with_principal a none = invalid Invalid.principal
  with_principal a (some principal) = do
    grants ← validate_grants a.grants
    require (not (any_overlap grants)) Invalid.overlapping
    valid (record a { principal = principal; grants = grants })

  -- `validateAuthorization`
  unfoldable pub validate_authorization : Authorization → Validated Authorization
  validate_authorization a = do
    require (is_filled a.grants && is_timed a.not_before a.expires_at) Invalid.structure
    with_principal a (canonical_principal x a.principal)
