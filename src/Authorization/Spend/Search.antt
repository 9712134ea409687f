-- ===== src/Authorization/Spend/Search.antt =====
-- authorization/index.ts: the search of `evaluateSpend` for the grant that matches.
use connect_lib.Base.{
  ℕ, zero, suc, ◌+◌, ◌≡◌, refl, inl, inr, Bool, true, false, ◌&&◌, Option, none, some, List, [],
  ◌∷◌, arith, filter, find?, get_elem?, any, Bool-cases,
}
use connect_lib.Base.Sets.{has}
use connect_lib.Base.Text.{Text, text_eq, text_eq_iff, text_eq_of}
use connect_lib.Authorization.Names.{Codec, ParsedAsset, canonical_address}
use connect_lib.Authorization.Types.{
  Rail, rail_eq, same_rail_iff, Grant, SpendRequest, SpendRefusal, SpendVerdict, refuse, meets,
}
use connect_lib.Authorization.Validate.{overlaps, any_overlap}
use connect_lib.Authorization.Spend.{
  Indexed, indexed, within_limits, with_match, with_recipient, with_rail, with_asset_matches,
  with_spend_asset,
}

pub find?-filter :
    {A : Type 0} (p q : A → Bool) (xs : List A) → find? p (filter q xs) ≡ find? (λ a. q a && p a) xs
find?-filter p q [] = refl
find?-filter p q (a ∷ xs) = ground (arith, find?-filter p q xs)

-- A verdict that comes of a match, or a refusal for want of one.
abbrev pub LandsOn : SpendRequest → SpendVerdict → Option Indexed → Type 0
LandsOn r v none = (e : SpendRefusal) × (v ≡ refuse e)
LandsOn r v (some m) = v ≡ within_limits r m

with_match-LandsOn : (r : SpendRequest) (o : Option Indexed) → LandsOn r (with_match r o) o
unfolding with_match
with_match-LandsOn r none = (SpendRefusal.recipient_not_allowed, refl)
with_match-LandsOn r (some m) = refl

module _ (x : Codec) (r : SpendRequest) (parsed : ParsedAsset) (recipient : Text) where
  abbrev pub is_listed : Indexed → Bool
  is_listed m = has recipient m.0.recipients

  abbrev pub is_railed : Indexed → Bool
  is_railed m = has r.rail m.0.rails

  abbrev pub is_of_asset : Indexed → Bool
  is_of_asset m = text_eq m.0.asset parsed.canonical

  -- The match that the source looks for in three steps.
  abbrev pub is_match : Indexed → Bool
  is_match m = is_of_asset m && (is_railed m && is_listed m)

  module _ (named : canonical_address x parsed.namespace r.recipient ≡ some recipient) where
    with_rail-LandsOn :
        (ms : List Indexed) → LandsOn r (with_rail x r parsed ms) (find? is_listed ms)
    unfolding with_rail with_recipient
    with_rail-LandsOn [] = (SpendRefusal.rail_not_allowed, refl)
    with_rail-LandsOn (m ∷ ms) =
        rw (named, with_recipient) (with_match-LandsOn r (find? is_listed (m ∷ ms)))

    with_asset_matches-LandsOn :
        (ms : List Indexed)
        → LandsOn r (with_asset_matches x r parsed ms) (find? is_listed (filter is_railed ms))
    unfolding with_asset_matches
    with_asset_matches-LandsOn [] = (SpendRefusal.no_matching_grant, refl)
    with_asset_matches-LandsOn (m ∷ ms) = with_rail-LandsOn (filter is_railed (m ∷ ms))

    pub with_spend_asset-LandsOn :
        (gs : List Grant)
        → LandsOn r (with_spend_asset x r gs (some parsed)) (find? is_match (indexed 0 gs))
    unfolding with_spend_asset
    with_spend_asset-LandsOn gs =
        rw
          (
            ← find?-filter (λ m. is_railed m && is_listed m) is_of_asset (indexed 0 gs),
            ← find?-filter is_listed is_railed (filter is_of_asset (indexed 0 gs)),
          )
          (with_asset_matches-LandsOn (filter is_of_asset (indexed 0 gs)))

  -- What is found is a grant at its index that matches.
  pub find?-indexed :
      (k i : ℕ) (g : Grant) (gs : List Grant)
      → find? is_match (indexed k gs) ≡ some (g, i)
      → (j : ℕ) × (i ≡ k + j) × (get_elem? gs j ≡ some g) × (is_match (g, i) ≡ true)
  unfolding indexed
  find?-indexed k i g [] h = absurd (ground arith)
  find?-indexed k i g (f ∷ gs) h = elim (Bool-cases (is_match (f, k))) [
    | inl here ↦
        let same : ◌≡◌ {A = Option Indexed} (some (f, k)) (some (g, i)) = rw here at h in
        (0, ground arith, ground arith, ground (arith, here))
    | inr further ↦
        let rest : find? is_match (indexed (suc k) gs) ≡ some (g, i) = rw further at h in
        let (j, at, there, holds) = find?-indexed (suc k) i g gs rest in
        (suc j, omega arith, there, holds)
  ]

  meets_lem :
      (as' bs : List Text)
      → has recipient as' ≡ true
      → has recipient bs ≡ true
      → meets as' bs ≡ true
  unfolding has meets
  meets_lem [] bs h k = cc
  meets_lem (a ∷ as') bs h k = ground (arith, meets_lem as' bs, text_eq_iff a recipient)

  meets_rails :
      (as' bs : List Rail) → has r.rail as' ≡ true → has r.rail bs ≡ true → meets as' bs ≡ true
  unfolding has meets
  meets_rails [] bs h k = cc
  meets_rails (a ∷ as') bs h k = ground (arith, meets_rails as' bs, same_rail_iff a r.rail)

  -- Two grants that match the same payment overlap.
  matches-overlaps :
      (g h : Grant) (i j : ℕ)
      → is_match (g, i) ≡ true
      → is_match (h, j) ≡ true
      → overlaps g h ≡ true
  unfolding overlaps
  matches-overlaps g h i j p q = ground (
    arith,
    text_eq_iff g.asset parsed.canonical,
    text_eq_iff h.asset parsed.canonical,
    text_eq_iff g.asset h.asset,
    meets_lem g.recipients h.recipients,
    meets_rails g.rails h.rails,
  )

  apart :
      (f g : Grant) (i : ℕ) (gs : List Grant)
      → get_elem? gs i ≡ some g
      → any (λ h. overlaps f h) gs ≡ false
      → overlaps f g ≡ false
  apart f g i [] there none_meets = absurd (ground arith)
  apart f g zero (h ∷ gs) there none_meets = ground arith
  apart f g (suc i) (h ∷ gs) there none_meets = apart f g i gs there (ground arith)

  -- Where no grants overlap, the grant that matches is the one that is found.
  pub find?-disjoint :
      (k i : ℕ) (g : Grant) (gs : List Grant)
      → any_overlap gs ≡ false
      → get_elem? gs i ≡ some g
      → is_match (g, 0) ≡ true
      → find? is_match (indexed k gs) ≡ some (g, k + i)
  unfolding indexed any_overlap
  find?-disjoint k i g [] disjoint there holds = absurd (ground arith)
  find?-disjoint k zero g (f ∷ gs) disjoint there holds = ground arith
  find?-disjoint k (suc i) g (f ∷ gs) disjoint there holds = elim (Bool-cases (is_match (f, k))) [
    | inl also ↦
        let differ = apart f g i gs there (ground arith) in
        absurd (ground (arith, differ, matches-overlaps f g k 0 also holds))
    | inr other ↦
        let found = find?-disjoint (suc k) i g gs (ground arith) there holds in
        let at : k + suc i ≡ suc k + i = omega arith in rw (other, at) found
  ]
