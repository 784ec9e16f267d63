-- ===== src/Distance/Scripts.antt =====
-- Edit scripts, which say what the distances of internal/analysis/brand.go measure.
use safe_road.Base.{
  ℕ, ◌+◌, ◌*◌, ◌≤◌, List, [], ◌∷◌, ◌++◌, ◌≡◌, refl, arith, Text, length, ◌⊎◌, ap, sym, ◌∙◌,
}
use safe_road.Distance.{min_of_three}

pub data Edit : Type 0 where
  drop : ℕ → Edit
  put : ℕ → Edit
  swap : ℕ → ℕ → Edit

abbrev pub source : List Edit → Text
source [] = []
source (drop a ∷ es) = a ∷ source es
source (put c ∷ es) = source es
source (swap a c ∷ es) = a ∷ source es

abbrev pub target : List Edit → Text
target [] = []
target (drop a ∷ es) = target es
target (put c ∷ es) = c ∷ target es
target (swap a c ∷ es) = c ∷ target es

abbrev pub backwards {ℓ} : {A : Type ℓ} → List A → List A
backwards [] = []
backwards (x ∷ xs) = backwards xs ++ x ∷ []

pub source-append : (es fs : List Edit) → source (es ++ fs) ≡ source es ++ source fs
source-append [] fs = refl
source-append (drop a ∷ es) fs = ap (λ s. a ∷ s) (source-append es fs)
source-append (put c ∷ es) fs = source-append es fs
source-append (swap a c ∷ es) fs = ap (λ s. a ∷ s) (source-append es fs)

pub target-append : (es fs : List Edit) → target (es ++ fs) ≡ target es ++ target fs
target-append [] fs = refl
target-append (drop a ∷ es) fs = target-append es fs
target-append (put c ∷ es) fs = ap (λ s. c ∷ s) (target-append es fs)
target-append (swap a c ∷ es) fs = ap (λ s. c ∷ s) (target-append es fs)

append_nil : (s : Text) → s ++ [] ≡ s
append_nil [] = refl
append_nil (c ∷ s) = ap (λ t. c ∷ t) (append_nil s)

pub source-backwards : (es : List Edit) → source (backwards es) ≡ backwards (source es)
source-backwards [] = refl
source-backwards (drop a ∷ es) =
    source-append (backwards es) (drop a ∷ []) ∙ ap (λ s. s ++ a ∷ []) (source-backwards es)
source-backwards (put c ∷ es) =
    source-append (backwards es) (put c ∷ []) ∙ append_nil _ ∙ source-backwards es
source-backwards (swap a c ∷ es) =
    source-append (backwards es) (swap a c ∷ []) ∙ ap (λ s. s ++ a ∷ []) (source-backwards es)

pub target-backwards : (es : List Edit) → target (backwards es) ≡ backwards (target es)
target-backwards [] = refl
target-backwards (drop a ∷ es) =
    target-append (backwards es) (drop a ∷ []) ∙ append_nil _ ∙ target-backwards es
target-backwards (put c ∷ es) =
    target-append (backwards es) (put c ∷ []) ∙ ap (λ s. s ++ c ∷ []) (target-backwards es)
target-backwards (swap a c ∷ es) =
    target-append (backwards es) (swap a c ∷ []) ∙ ap (λ s. s ++ c ∷ []) (target-backwards es)

pub backwards-append : (s t : Text) → backwards (s ++ t) ≡ backwards t ++ backwards s
backwards-append [] t = sym (append_nil (backwards t))
backwards-append (c ∷ s) t =
    ap (λ u. u ++ c ∷ []) (backwards-append s t) ∙ assoc (backwards t) (backwards s) (c ∷ [])
  where
    assoc : (x y z : Text) → (x ++ y) ++ z ≡ x ++ (y ++ z)
    assoc [] y z = refl
    assoc (a ∷ x) y z = ap (λ w. a ∷ w) (assoc x y z)

pub backwards_twice : (s : Text) → backwards (backwards s) ≡ s
backwards_twice [] = refl
backwards_twice (c ∷ s) =
    backwards-append (backwards s) (c ∷ []) ∙ ap (λ t. c ∷ t) (backwards_twice s)

pub min_of_three-cases :
    (a b c : ℕ)
    → ((min_of_three a b c ≡ a) ⊎ ((min_of_three a b c ≡ b) ⊎ (min_of_three a b c ≡ c)))
      × (min_of_three a b c ≤ a)
      × (min_of_three a b c ≤ b)
      × (min_of_three a b c ≤ c)
unfolding min_of_three
min_of_three-cases a b c = ground arith

module _ (gap : ℕ) (incr : ℕ → ℕ → ℕ) where
  abbrev pub cost : List Edit → ℕ
  cost [] = 0
  cost (drop a ∷ es) = gap + cost es
  cost (put c ∷ es) = gap + cost es
  cost (swap a c ∷ es) = incr a c + cost es

  pub cost-append : (es fs : List Edit) → cost (es ++ fs) ≡ cost es + cost fs
  cost-append [] fs = omega arith
  cost-append (drop a ∷ es) fs = omega (arith, cost-append es fs)
  cost-append (put c ∷ es) fs = omega (arith, cost-append es fs)
  cost-append (swap a c ∷ es) fs = omega (arith, cost-append es fs)

  pub cost-backwards : (es : List Edit) → cost (backwards es) ≡ cost es
  cost-backwards [] = refl
  cost-backwards (drop a ∷ es) =
      omega (arith, cost-append (backwards es) (drop a ∷ []), cost-backwards es)
  cost-backwards (put c ∷ es) =
      omega (arith, cost-append (backwards es) (put c ∷ []), cost-backwards es)
  cost-backwards (swap a c ∷ es) =
      omega (arith, cost-append (backwards es) (swap a c ∷ []), cost-backwards es)

  -- The least cost, by the last code points: the arguments are texts backwards.
  unfoldable pub least : Text → Text → ℕ
  unfolding min_of_three
  least [] q = length q * gap
  least (a ∷ p) [] = length (a ∷ p) * gap
  least (a ∷ p) (c ∷ q) =
      min_of_three (least (a ∷ p) q + gap) (least p (c ∷ q) + gap) (least p q + incr a c)
