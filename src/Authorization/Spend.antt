-- ===== src/Authorization/Spend.antt =====
-- authorization/index.ts: `evaluateSpend`.
pub mod Search
pub mod Permits
use connect_lib.Base.{
  ℕ, suc, ◌+◌, Bool, true, false, not, ◌&&◌, ◌||◌, Option, none, some, List, [], ◌∷◌, leb, ltb,
  ◌==◌, if◌then◌else◌, filter, find?,
}
use connect_lib.Base.Sets.{has}
use connect_lib.Base.Text.{Text, text_eq, text_eq_of}
use connect_lib.Authorization.Names.{Codec, ParsedAsset, parse_asset, canonical_address, is_safe}
use connect_lib.Authorization.Types.{
  Rail, rail_eq, GrantPeriod, Grant, Authorization, SpendRequest, SpendRefusal, SpendVerdict, allow,
  refuse, Validated, valid, invalid,
}
use connect_lib.Authorization.Validate.{validate_authorization}

abbrev pub Indexed : Type 0
Indexed = Grant × ℕ

-- `map((grant, index) => ({ grant, index }))`, from an index on
unfoldable pub indexed : ℕ → List Grant → List Indexed
indexed i [] = []
indexed i (g ∷ gs) = (g, i) ∷ indexed (suc i) gs

abbrev pub is_exceeded : ℕ → Option ℕ → Bool
is_exceeded count none = false
is_exceeded count (some most) = leb most count

-- Whether a period refuses; the index of the period is not negative once it has started.
unfoldable pub is_over_period : SpendRequest → Option GrantPeriod → Bool
is_over_period r none = false
is_over_period r (some p) =
    ltb r.at p.start
    || elim r.period_spent_so_far [ none ↦ true | some spent ↦ ltb p.amount (spent + r.amount) ]

-- The limits of the grant that matches.
unfoldable pub within_limits : SpendRequest → Indexed → SpendVerdict
within_limits r (g, i) =
    if ltb g.max_per_payment r.amount
    then refuse SpendRefusal.over_per_payment
    else if ltb g.max_total (r.spent_so_far + r.amount)
    then refuse SpendRefusal.over_total
    else if is_exceeded r.count_so_far g.max_count
    then refuse SpendRefusal.over_count
    else if is_over_period r g.period
    then refuse SpendRefusal.period_limit_exceeded
    else allow i

unfoldable pub with_match : SpendRequest → Option Indexed → SpendVerdict
with_match r none = refuse SpendRefusal.recipient_not_allowed
with_match r (some m) = within_limits r m

unfoldable pub with_recipient : SpendRequest → List Indexed → Option Text → SpendVerdict
with_recipient r matches none = refuse SpendRefusal.recipient_not_allowed
with_recipient r matches (some recipient) =
    with_match r (find? (λ (m : Indexed). has recipient m.0.recipients) matches)

abbrev pub is_early : ℕ → Option ℕ → Bool
is_early at none = false
is_early at (some from) = ltb at from

unfoldable pub is_request : SpendRequest → Bool
is_request r = ltb 0 r.amount && (is_safe r.at && is_safe r.count_so_far)

module _ (x : Codec) where
  unfoldable pub with_rail : SpendRequest → ParsedAsset → List Indexed → SpendVerdict
  with_rail r parsed [] = refuse SpendRefusal.rail_not_allowed
  with_rail r parsed (m ∷ ms) =
      with_recipient r (m ∷ ms) (canonical_address x parsed.namespace r.recipient)

  unfoldable pub with_asset_matches : SpendRequest → ParsedAsset → List Indexed → SpendVerdict
  with_asset_matches r parsed [] = refuse SpendRefusal.no_matching_grant
  with_asset_matches r parsed (m ∷ ms) =
      with_rail r parsed (filter (λ (n : Indexed). has r.rail n.0.rails) (m ∷ ms))

  unfoldable pub with_spend_asset : SpendRequest → List Grant → Option ParsedAsset → SpendVerdict
  with_spend_asset r grants none = refuse SpendRefusal.no_matching_grant
  with_spend_asset r grants (some parsed) =
      with_asset_matches r parsed
        (filter (λ (m : Indexed). text_eq m.0.asset parsed.canonical) (indexed 0 grants))

  -- The tests of a validated authorization.
  unfoldable pub judge : SpendRequest → Authorization → SpendVerdict
  judge r a =
      if leb a.expires_at r.at
      then refuse SpendRefusal.expired
      else if is_early r.at a.not_before
      then refuse SpendRefusal.not_yet_valid
      else with_spend_asset r a.grants (parse_asset x r.asset)

  unfoldable pub judge_valid : SpendRequest → Validated Authorization → SpendVerdict
  judge_valid r (invalid reason) = refuse SpendRefusal.invalid_authorization
  judge_valid r (valid a) =
      if is_request r then judge r a else refuse SpendRefusal.invalid_authorization

  -- `evaluateSpend`
  unfoldable pub evaluate_spend : Authorization → SpendRequest → SpendVerdict
  evaluate_spend a r = judge_valid r (validate_authorization x a)
