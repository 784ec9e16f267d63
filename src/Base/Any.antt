-- ===== src/Base/Any.antt =====
-- Laws of `any`, on lists of anything.
use mathlib.Core.Path.{◌≡◌, refl, ap, ap₂, ◌∙◌}
use mathlib.Core.Bool.{Bool, true, false, ◌&&◌, ◌||◌}
use mathlib.Core.List.{List, [], ◌∷◌}
use native.Mathlib.Omega.{arith}
use safe_road.Base.Lists.{any}

module _ {ℓ} {A : Type ℓ} where
  pub any_ext : (f g : A → Bool) (xs : List A) → ((x : A) → f x ≡ g x) → any f xs ≡ any g xs
  any_ext f g [] h = refl
  any_ext f g (x ∷ xs) h = ap₂ ◌||◌ (h x) (any_ext f g xs h)

  pub any-false : (xs : List A) → any (λ x. false) xs ≡ false
  any-false [] = refl
  any-false (x ∷ xs) = any-false xs

  pub any-|| : (f g : A → Bool) (xs : List A) → any (λ x. f x || g x) xs ≡ any f xs || any g xs
  any-|| f g [] = refl
  any-|| f g (x ∷ xs) = ground (arith, any-|| f g xs)

  pub any-&& : (b : Bool) (f : A → Bool) (xs : List A) → any (λ x. b && f x) xs ≡ b && any f xs
  any-&& true f xs = refl
  any-&& false f xs = any-false xs

pub any-any {ℓ κ} :
    {A : Type ℓ} {B : Type κ} (f : A → B → Bool) (xs : List A) (ys : List B)
    → any (λ x. any (f x) ys) xs ≡ any (λ y. any (λ x. f x y) xs) ys
any-any f xs [] = any-false xs
any-any f xs (y ∷ ys) =
    any-|| (λ x. f x y) (λ x. any (f x) ys) xs
    ∙ ap (λ b. any (λ x. f x y) xs || b) (any-any f xs ys)
