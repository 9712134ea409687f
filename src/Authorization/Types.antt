-- ===== src/Authorization/Types.antt =====
-- authorization/index.ts: authorizations, spend requests and verdicts.
--
-- Amounts, counts and times are natural numbers: the tests of the source that refuse zero refuse
-- what is below it. The shape of the values, with version 1, is that of their types.
use connect_lib.Base.{ℕ, Option, List, [], ◌∷◌, Bool, true, false, not, ◌&&◌, ◌≡◌, ◌↔◌, arith, any}
use connect_lib.Base.Dict.{Eq}
use connect_lib.Base.Sets.{has}
use connect_lib.Base.Text.{Text}

pub data Rail : Type 0 where
  transfer x402_exact mpp_charge mpp_session : Rail

abbrev pub same_rail : Rail → Rail → Bool
same_rail transfer transfer = true
same_rail x402_exact x402_exact = true
same_rail mpp_charge mpp_charge = true
same_rail mpp_session mpp_session = true
same_rail _ _ = false

pub same_rail_iff : (a b : Rail) → (same_rail a b ≡ true) ↔ (a ≡ b)
same_rail_iff a b = ground arith

instance abbrev pub rail_eq : Eq Rail
rail_eq = record { beq = same_rail; beq_iff = same_rail_iff }

pub record GrantPeriod : Type 0 where
  pub amount : ℕ
  pub seconds : ℕ
  pub start : ℕ

pub record Grant : Type 0 where
  pub asset : Text
  pub recipients : List Text
  pub max_per_payment : ℕ
  pub max_total : ℕ
  pub max_count : Option ℕ
  pub period : Option GrantPeriod
  pub rails : List Rail

pub record Authorization : Type 0 where
  pub principal : Text
  pub label : Option Text
  pub grants : List Grant
  pub not_before : Option ℕ
  pub expires_at : ℕ

pub record SpendRequest : Type 0 where
  pub asset : Text
  pub recipient : Text
  pub amount : ℕ
  pub rail : Rail
  pub at : ℕ
  pub spent_so_far : ℕ
  pub count_so_far : ℕ
  pub period_spent_so_far : Option ℕ

pub data SpendRefusal : Type 0 where
  expired not_yet_valid no_matching_grant recipient_not_allowed over_per_payment : SpendRefusal
  over_total over_count period_limit_exceeded rail_not_allowed invalid_authorization : SpendRefusal

pub data SpendVerdict : Type 0 where
  allow : ℕ → SpendVerdict
  refuse : SpendRefusal → SpendVerdict

-- The reasons of `validateAuthorization`.
pub data Invalid : Type 0 where
  structure principal grant_structure grant_period asset recipient : Invalid
  mpp_period duplicates overlapping : Invalid

-- `AuthorizationValidation`, of an authorization or of a part
pub data Validated (A : Type 0) : Type 0 where
  valid : A → Validated A
  invalid : Invalid → Validated A

infixl 5 ◌>>=◌ ◌>>◌
abbrev pub ◌>>=◌ : {A B : Type 0} → Validated A → (A → Validated B) → Validated B
invalid reason >>= next = invalid reason
valid value >>= next = next value

abbrev pub ◌>>◌ : {B : Type 0} → Validated (Unit {0}) → Validated B → Validated B
check >> rest = check >>= λ _. rest

abbrev pub require : Bool → Invalid → Validated (Unit {0})
require true reason = valid tt
require false reason = invalid reason

-- `new Set(rails).size === rails.length`
module _ {A : Type 0} ⦃e : Eq A⦄ where
  unfoldable pub is_distinct : List A → Bool
  is_distinct [] = true
  is_distinct (a ∷ as') = not (has a as') && is_distinct as'

  -- `left.some((a) => right.includes(a))`
  unfoldable pub meets : List A → List A → Bool
  meets left right = any (λ a. has a right) left
