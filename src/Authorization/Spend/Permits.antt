-- ===== src/Authorization/Spend/Permits.antt =====
-- authorization/index.ts: the verdict of `evaluateSpend`, beside what an authorization says.
use connect_lib.Base.{
  ℕ, ◌+◌, ◌≤◌, ◌<◌, ◌≡◌, ◌↔◌, ◌⊎◌, refl, sym, ◌∙◌, inl, inr, true, false, none, some, List, arith,
  find?, get_elem?, Bool-cases, Option-cases,
}
use connect_lib.Base.Sets.{has}
use connect_lib.Base.Text.{Text, text_eq_iff, text_eq_of}
use connect_lib.Authorization.Names.{Codec, ParsedAsset, parse_asset, canonical_address}
use connect_lib.Authorization.Types.{
  rail_eq, GrantPeriod, Grant, Authorization, SpendRequest, SpendVerdict, allow, Validated, valid,
  invalid,
}
use connect_lib.Authorization.Validate.{validate_authorization, any_overlap}
use connect_lib.Authorization.Validate.Canonical.{validate_authorization-IsAccepted}
use connect_lib.Authorization.Spend.{
  indexed, within_limits, with_spend_asset, with_asset_matches, with_rail, with_recipient, judge,
  judge_valid, is_request, is_over_period, evaluate_spend,
}
use connect_lib.Authorization.Spend.Search.{
  LandsOn, is_match, with_spend_asset-LandsOn, find?-indexed, find?-disjoint,
}

-- A grant's own limits let the payment through.
pub record IsWithin (r : SpendRequest) (g : Grant) : Type 0 where
  pub each : r.amount ≤ g.max_per_payment
  pub total : r.spent_so_far + r.amount ≤ g.max_total
  pub count : (n : ℕ) → g.max_count ≡ some n → r.count_so_far < n
  pub period :
      (p : GrantPeriod)
      → g.period ≡ some p
      → (p.start ≤ r.at)
        × (spent : ℕ) × (r.period_spent_so_far ≡ some spent)
        × (spent + r.amount ≤ p.amount)

-- What an authorization in canonical form says of a payment: its `i`-th grant is for the asset, the
-- rail and the recipient, and covers the amount, at that time.
pub record Permits (x : Codec) (a : Authorization) (r : SpendRequest) (i : ℕ) : Type 0 where
  pub asked : is_request r ≡ true
  pub live : r.at < a.expires_at
  pub begun : (from : ℕ) → a.not_before ≡ some from → from ≤ r.at
  pub asset : ParsedAsset
  pub parsed : parse_asset x r.asset ≡ some asset
  pub recipient : Text
  pub named : canonical_address x asset.namespace r.recipient ≡ some recipient
  pub grant : Grant
  pub there : get_elem? a.grants i ≡ some grant
  pub of_asset : grant.asset ≡ asset.canonical
  pub of_rail : has r.rail grant.rails ≡ true
  pub of_recipient : has recipient grant.recipients ≡ true
  pub within : IsWithin r grant

within_limits-IsWithin :
    (r : SpendRequest) (g : Grant) (i j : ℕ)
    → within_limits r (g, i) ≡ allow j
    → IsWithin r g × (i ≡ j)
unfolding within_limits is_over_period
within_limits-IsWithin r g i j h = (
  record {
    each = ground arith;
    total = ground arith;
    count = λ n e. ground arith;
    period = λ p e. opened p e (Option-cases r.period_spent_so_far);
  },
  ground arith,
)
  where
    opened :
        (p : GrantPeriod)
        → g.period ≡ some p
        → (r.period_spent_so_far ≡ none) ⊎ ((s : ℕ) × (r.period_spent_so_far ≡ some s))
        → (p.start ≤ r.at)
          × (spent : ℕ) × (r.period_spent_so_far ≡ some spent)
          × (spent + r.amount ≤ p.amount)
    opened p e (inl unknown) = absurd (ground arith)
    opened p e (inr (s, spent)) = (ground arith, s, spent, ground arith)

IsWithin-within_limits :
    (r : SpendRequest) (g : Grant) (i : ℕ) → IsWithin r g → within_limits r (g, i) ≡ allow i
unfolding within_limits is_over_period
IsWithin-within_limits r g i v = elim (Option-cases g.max_count) [
  | inl uncounted ↦ elim (Option-cases g.period) [
    | inl no_period ↦ ground (arith, v.each, v.total)
    | inr (p, is) ↦
        let (begun, spent, known, fits) = v.period p is in ground (arith, v.each, v.total)
  ]
  | inr (n, counted) ↦
      let few = v.count n counted in
      elim (Option-cases g.period) [
        | inl no_period ↦ ground (arith, v.each, v.total)
        | inr (p, is) ↦
            let (begun, spent, known, fits) = v.period p is in ground (arith, v.each, v.total)
      ]
]

missed_lem : (r : SpendRequest) (i : ℕ) {v : SpendVerdict} → LandsOn r v none → v ≡ allow i → ⊥
missed_lem r i (e, refused) h = ground arith

unnamed_lem :
    (x : Codec) (r : SpendRequest) (gs : List Grant) (asset : ParsedAsset) (i : ℕ)
    → canonical_address x asset.namespace r.recipient ≡ none
    → with_spend_asset x r gs (some asset) ≡ allow i
    → ⊥
unfolding with_spend_asset with_asset_matches with_rail with_recipient
unnamed_lem x r gs asset i unread h = ground arith

judge-Permits :
    (x : Codec) (r : SpendRequest) (a : Authorization) (i : ℕ)
    → is_request r ≡ true
    → judge x r a ≡ allow i
    → Permits x a r i
unfolding judge with_spend_asset
judge-Permits x r a i asked h = elim (Option-cases (parse_asset x r.asset)) [
  | inl unread ↦ absurd (ground arith)
  | inr (asset, parsed) ↦ elim (Option-cases (canonical_address x asset.namespace r.recipient)) [
    | inl unread ↦ absurd (unnamed_lem x r a.grants asset i unread (ground arith))
    | inr (recipient, named) ↦
        let verdict : with_spend_asset x r a.grants (some asset) ≡ allow i = ground arith in
        let lands = with_spend_asset-LandsOn x r asset recipient named a.grants in
        elim (Option-cases (find? (is_match x r asset recipient) (indexed 0 a.grants))) [
          | inl missed ↦ absurd (missed_lem r i (rw missed at lands) verdict)
          | inr ((grant, j), found) ↦
              let (within, same) =
                within_limits-IsWithin r grant j i (sym (rw found at lands) ∙ verdict) in
              let (k, at, there, holds) =
                find?-indexed x r asset recipient 0 j grant a.grants found in
              record {
                asked = asked;
                live = ground arith;
                begun = λ from e. ground arith;
                asset = asset;
                parsed = parsed;
                recipient = recipient;
                named = named;
                grant = grant;
                there = (let is : i ≡ k = omega arith in rw is there);
                of_asset = ground (arith, text_eq_iff grant.asset asset.canonical);
                of_rail = ground arith;
                of_recipient = ground arith;
                within = within;
              }
        ]
  ]
]

Permits-judge :
    (x : Codec) (r : SpendRequest) (a : Authorization) (i : ℕ)
    → any_overlap a.grants ≡ false
    → Permits x a r i
    → judge x r a ≡ allow i
unfolding judge
Permits-judge x r a i disjoint v =
    let matches : is_match x r v.asset v.recipient (v.grant, 0) ≡ true =
      ground (
        arith,
        text_eq_iff v.grant.asset v.asset.canonical,
        v.of_asset,
        v.of_rail,
        v.of_recipient,
      ) in
    let found =
      find?-disjoint x r v.asset v.recipient 0 i v.grant a.grants disjoint v.there matches in
    let lands = with_spend_asset-LandsOn x r v.asset v.recipient v.named a.grants in
    let limits = IsWithin-within_limits r v.grant i v.within in
    let at : 0 + i ≡ i = omega arith in
    let lands' : with_spend_asset x r a.grants (some v.asset) ≡ within_limits r (v.grant, 0 + i) =
      rw found at lands in
    let verdict : with_spend_asset x r a.grants (some v.asset) ≡ allow i =
      rw at at lands' ∙ limits in
    elim (Option-cases a.not_before) [
      | inl unset ↦ ground (arith, v.live, v.parsed, verdict)
      | inr (from, is) ↦ ground (arith, v.live, v.begun from is, v.parsed, verdict)
    ]

-- A payment is allowed under a grant exactly when the authorization is valid and, in canonical form,
-- it permits the payment by that grant.
pub evaluate_spend-Permits :
    (x : Codec) (a : Authorization) (r : SpendRequest) (i : ℕ)
    → (evaluate_spend x a r ≡ allow i)
      ↔ ((a' : Authorization) × (validate_authorization x a ≡ valid a') × Permits x a' r i)
unfolding evaluate_spend judge_valid
evaluate_spend-Permits x a r i = (
  λ h. allowed (validate_authorization x a) refl h,
  λ (a', accepted, v).
      let disjoint = (validate_authorization-IsAccepted x a a' accepted).disjoint in
      rw (accepted, v.asked, judge_valid) (Permits-judge x r a' i disjoint v),
)
  where
    allowed :
        (o : Validated Authorization)
        → validate_authorization x a ≡ o
        → judge_valid x r o ≡ allow i
        → (a' : Authorization) × (validate_authorization x a ≡ valid a') × Permits x a' r i
    allowed (invalid reason) is h = absurd (ground arith)
    allowed (valid a') is h = elim (Bool-cases (is_request r)) [
      | inl asked ↦ (a', is, judge-Permits x r a' i asked (ground arith))
      | inr odd ↦ absurd (ground arith)
    ]
