-- ===== src/Base/Sets.antt =====
-- JavaScript's Set over a type with decidable equality, in insertion order.
use mathlib.Core.Path.{◌≡◌}
use mathlib.Core.Logic.{inl, inr}
use mathlib.Core.List.{List, [], ◌∷◌, ◌++◌}
use mathlib.Core.Bool.{Bool, not, ◌&&◌, ◌||◌}
use native.Mathlib.Omega.{arith}
use connect_lib.Base.Tests.{if◌then◌else◌, Bool-cases}
use connect_lib.Base.Lists.{any}
use connect_lib.Base.Dict.{Eq}

module _ {A : Type 0} ⦃e : Eq A⦄ where
  unfoldable pub has : A → List A → Bool
  has a set = any (λ b. e.beq b a) set

  unfoldable pub add : A → List A → List A
  unfolding has
  add a set = if has a set then set else set ++ a ∷ []

  unfoldable pub remove : A → List A → List A
  remove a [] = []
  remove a (b ∷ set) = if e.beq b a then remove a set else b ∷ remove a set

  has-snoc : (a b : A) (set : List A) → has a (set ++ b ∷ []) ≡ (e.beq b a || has a set)
  unfolding has
  has-snoc a b [] = ground arith
  has-snoc a b (c ∷ set) = ground (arith, has-snoc a b set)

  pub has-add : (a b : A) (set : List A) → has a (add b set) ≡ (e.beq b a || has a set)
  unfolding add
  has-add a b set = elim (Bool-cases (has b set)) [
    | inl old ↦ ground (arith, e.beq_iff b a)
    | inr new ↦ ground (arith, has-snoc a b set)
  ]

  pub has-remove : (a b : A) (set : List A) → has a (remove b set) ≡ (not (e.beq b a) && has a set)
  unfolding has remove
  has-remove a b [] = ground arith
  has-remove a b (c ∷ set) =
      ground (arith, has-remove a b set, e.beq_iff c b, e.beq_iff b a, e.beq_iff c a)
