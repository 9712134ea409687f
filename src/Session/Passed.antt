-- ===== src/Session/Passed.antt =====
-- Sequences of tests that throw.
use connect_lib.Base.{◌≡◌, refl, Bool, false, arith}
use connect_lib.Session.Types.{Checked, passed, thrown, ◌>>=◌, ◌>>◌, refuse_when}

module _ {E S T : Type 0} (next : S → Checked E T) {result : T} where
  pub >>=-eq-passed :
      (step : Checked E S)
      → (step >>= next) ≡ passed result
      → (s : S) × (step ≡ passed s) × (next s ≡ passed result)
  >>=-eq-passed (thrown e) h = cc
  >>=-eq-passed (passed s) h = (s, refl, h)

module _ {E T : Type 0} (rest : Checked E T) {result : T} where
  pub >>-eq-passed :
      (step : Checked E (Unit {0}))
      → (step >> rest) ≡ passed result
      → (step ≡ passed tt) × (rest ≡ passed result)
  >>-eq-passed (thrown e) h = cc
  >>-eq-passed (passed tt) h = (refl, h)

  pub refuse_when-eq-passed :
      (b : Bool) (e : E)
      → (refuse_when b e >> rest) ≡ passed result
      → (b ≡ false) × (rest ≡ passed result)
  refuse_when-eq-passed b e h = ground arith

pub refuse_when-passed : {E : Type 0} (b : Bool) (e : E) → refuse_when b e ≡ passed tt → b ≡ false
refuse_when-passed b e h = ground arith

pub >>=-ext :
    {E S T : Type 0} (step : Checked E S) (f g : S → Checked E T)
    → ((s : S) → f s ≡ g s)
    → (step >>= f) ≡ (step >>= g)
>>=-ext (thrown e) f g h = refl
>>=-ext (passed s) f g h = h s
