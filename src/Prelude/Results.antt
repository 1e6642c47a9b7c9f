-- ===== src/Prelude/Results.antt =====
-- Results with an error, and the loops that stop at the first one.
use mathlib.Core.Path.{◌≡◌, refl}
use mathlib.Core.Logic.{◌↔◌, ◌⊎◌, inl, inr}
use mathlib.Core.Bool.{Bool, true, false}
use mathlib.Core.List.{List, [], ◌∷◌}
use native.Mathlib.Omega.{arith}
use ovecc.Prelude.Lists.{All}

pub data Result (E A : Type 0) : Type 0 where
  ok : A → Result E A
  err : E → Result E A

module _ {E : Type 0} where
  infixl 5 ◌>>=◌ ◌>>◌
  abbrev pub ◌>>=◌ : {A B : Type 0} → Result E A → (A → Result E B) → Result E B
  ok a >>= f = f a
  err e >>= f = err e

  abbrev pub ◌>>◌ : {B : Type 0} → Result E (Unit {0}) → Result E B → Result E B
  ok a >> k = k
  err e >> k = err e

  -- `if bad { return Err(e) }`
  abbrev pub refuse_if : Bool → E → Result E (Unit {0})
  refuse_if true e = err e
  refuse_if false e = ok tt

  -- A loop whose body may return an error.
  abbrev pub each : {A : Type 0} → (A → Result E (Unit {0})) → List A → Result E (Unit {0})
  each f [] = ok tt
  each f (x ∷ xs) = f x >> each f xs

  pub >>_iff :
      {B : Type 0} (m : Result E (Unit {0})) (k : Result E B) (b : B)
      → ((m >> k) ≡ ok b) ↔ ((m ≡ ok tt) × (k ≡ ok b))
  >>_iff (ok tt) k b = (λ h. (refl, h), λ h. h.1)
  >>_iff (err e) k b = (λ h. cc, λ h. cc (h.0))

  pub >>=_some :
      {A B : Type 0} (m : Result E A) (f : A → Result E B) (b : B)
      → (m >>= f) ≡ ok b
      → (a : A) × (m ≡ ok a) × (f a ≡ ok b)
  >>=_some (ok a) f b h = (a, refl, h)
  >>=_some (err e) f b h = cc

  pub refuse_if_iff : (b : Bool) (e : E) → (refuse_if b e ≡ ok tt) ↔ (b ≡ false)
  refuse_if_iff true e = ground arith
  refuse_if_iff false e = ground arith

  pub each_iff :
      {A : Type 0} (f : A → Result E (Unit {0})) (xs : List A)
      → (each f xs ≡ ok tt) ↔ All (λ x. f x ≡ ok tt) xs
  each_iff f [] = (λ h. tt, λ h. refl)
  each_iff f (x ∷ xs) = (
    λ h. let r = (>>_iff (f x) (each f xs) tt).0 h in (r.0, (each_iff f xs).0 r.1),
    λ h. (>>_iff (f x) (each f xs) tt).1 (h.0, (each_iff f xs).1 h.1),
  )

  pub Result-cases :
      {A : Type 0} (r : Result E A) → ((a : A) × (r ≡ ok a)) ⊎ ((e : E) × (r ≡ err e))
  Result-cases (ok a) = inl (a, refl)
  Result-cases (err e) = inr (e, refl)
