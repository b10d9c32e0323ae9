-- ===== src/Common/Sorting.antt =====
-- Python's stable sort, by a test that says which of two elements goes after the other.
use mathlib.Core.Path.{◌≡◌, refl, ap, ◌∙◌, subst}
use mathlib.Core.Option.{some, some_inj}
use mathlib.Core.Logic.{inl, inr}
use mathlib.Core.Bool.{Bool, true, false}
use mathlib.Core.List.{List, [], ◌∷◌, Perm}
use mathlib.Core.List.Perm
use Prim.Native.Nat.{ℕ, zero, suc, ◌<◌}
use native.Mathlib.Omega.{arith}
use automated_stock_trading.Common.Tests.{if◌then◌else◌, Bool-cases}
use automated_stock_trading.Common.Lists.{All, All-at, exists, length, get_elem?}

module _ {A : Type 0} (after : A → A → Bool) where
  -- `x` goes in front of the first element that it does not have to go after.
  unfoldable pub insert_sorted : A → List A → List A
  insert_sorted x [] = x ∷ []
  insert_sorted x (y ∷ ys) =
      let rest = insert_sorted x ys in if after x y then y ∷ rest else x ∷ y ∷ ys

  unfoldable pub sort_by : List A → List A
  unfolding insert_sorted
  sort_by [] = []
  sort_by (x ∷ xs) = insert_sorted x (sort_by xs)

  -- No element has to go after a later one.
  abbrev pub IsOrdered : List A → Type 0
  IsOrdered [] = Unit
  IsOrdered (x ∷ xs) = All (λ y. after x y ≡ false) xs × IsOrdered xs

  insert_sorted-perm : (x : A) (xs : List A) → Perm (insert_sorted x xs) (x ∷ xs)
  unfolding insert_sorted
  insert_sorted-perm x [] = Perm.rfl
  insert_sorted-perm x (y ∷ ys) = elim (Bool-cases (after x y)) [
    | inl e ↦
        rw (e, insert_sorted)
          (Perm.trans (Perm.cons y (insert_sorted-perm x ys)) (Perm.swap x y ys))
    | inr e ↦ rw (e, insert_sorted) Perm.rfl
  ]

  pub sort_by-perm : (xs : List A) → Perm (sort_by xs) xs
  unfolding sort_by
  sort_by-perm [] = Perm.rfl
  sort_by-perm (x ∷ xs) =
      Perm.trans (insert_sorted-perm x (sort_by xs)) (Perm.cons x (sort_by-perm xs))

  exists-insert_sorted :
      (p : A → Bool) (x : A) (xs : List A) → exists p (insert_sorted x xs) ≡ exists p (x ∷ xs)
  unfolding insert_sorted
  exists-insert_sorted p x [] = refl
  exists-insert_sorted p x (y ∷ ys) = ground (arith, exists-insert_sorted p x ys)

  length-insert_sorted : (x : A) (xs : List A) → length (insert_sorted x xs) ≡ suc (length xs)
  unfolding insert_sorted
  length-insert_sorted x [] = refl
  length-insert_sorted x (y ∷ ys) = ground (arith, length-insert_sorted x ys)

  pub exists-sort_by : (p : A → Bool) (xs : List A) → exists p (sort_by xs) ≡ exists p xs
  unfolding sort_by
  exists-sort_by p [] = refl
  exists-sort_by p (x ∷ xs) =
      exists-insert_sorted p x (sort_by xs)
      ∙ ap (λ b. if p x then true else b) (exists-sort_by p xs)

  pub length-sort_by : (xs : List A) → length (sort_by xs) ≡ length xs
  unfolding sort_by
  length-sort_by [] = refl
  length-sort_by (x ∷ xs) = length-insert_sorted x (sort_by xs) ∙ ap suc (length-sort_by xs)

  module _ (P : A → Type 0) where
    All-insert_sorted : (x : A) (xs : List A) → P x → All P xs → All P (insert_sorted x xs)
    unfolding insert_sorted
    All-insert_sorted x [] p h = (p, tt)
    All-insert_sorted x (y ∷ ys) p (q, h) = elim (Bool-cases (after x y)) [
      | inl e ↦ rw (e, insert_sorted) (q, All-insert_sorted x ys p h)
      | inr e ↦ rw (e, insert_sorted) (p, (q, h))
    ]

    pub All-sort_by : (xs : List A) → All P xs → All P (sort_by xs)
    unfolding sort_by
    All-sort_by [] h = tt
    All-sort_by (x ∷ xs) (p, h) = All-insert_sorted x (sort_by xs) p (All-sort_by xs h)

  -- Where the test is a strict weak order on what is sorted.
  module _ (P : A → Type 0) (asym : (x y : A) → P x → P y → after x y ≡ true → after y x ≡ false)
      (join : (x y z : A)
        → P x
        → P y
        → P z
        → after x y ≡ false
        → after y z ≡ false
        → after x z ≡ false) where
    weaken :
        (x y : A) (zs : List A)
        → P x
        → P y
        → All P zs
        → after x y ≡ false
        → All (λ z. after y z ≡ false) zs
        → All (λ z. after x z ≡ false) zs
    weaken x y [] p q h e k = tt
    weaken x y (z ∷ zs) p q (r, h) e (d, k) = (join x y z p q r e d, weaken x y zs p q h e k)

    insert_sorted-IsOrdered :
        (x : A) (xs : List A) → P x → All P xs → IsOrdered xs → IsOrdered (insert_sorted x xs)
    unfolding insert_sorted
    insert_sorted-IsOrdered x [] p h s = (tt, tt)
    insert_sorted-IsOrdered x (y ∷ ys) p (q, h) (b, s) = elim (Bool-cases (after x y)) [
      | inl e ↦
          rw (e, insert_sorted)
            (
              All-insert_sorted (λ z. after y z ≡ false) x ys (asym x y p q e) b,
              insert_sorted-IsOrdered x ys p h s,
            )
      | inr e ↦ rw (e, insert_sorted) ((e, weaken x y ys p q h e b), (b, s))
    ]

    pub sort_by-IsOrdered : (xs : List A) → All P xs → IsOrdered (sort_by xs)
    unfolding sort_by
    sort_by-IsOrdered [] h = tt
    sort_by-IsOrdered (x ∷ xs) (p, h) =
        insert_sorted-IsOrdered x (sort_by xs) p (All-sort_by P xs h) (sort_by-IsOrdered xs h)

-- An earlier element of an ordered list does not have to go after a later one.
pub IsOrdered-at :
    {A : Type 0} (after : A → A → Bool) (xs : List A) (i j : ℕ) {x y : A}
    → IsOrdered after xs
    → i < j
    → get_elem? xs i ≡ some x
    → get_elem? xs j ≡ some y
    → after x y ≡ false
IsOrdered-at after [] i j o lt e g = absurd cc
IsOrdered-at after (z ∷ xs) zero zero o lt e g = absurd (omega arith)
IsOrdered-at after (z ∷ xs) zero (suc j) {x} {y} (b, o) lt e g =
    subst (λ w. after w y ≡ false) (some_inj.0 e) (All-at (λ w. after z w ≡ false) xs j b g)
IsOrdered-at after (z ∷ xs) (suc i) zero o lt e g = absurd (omega arith)
IsOrdered-at after (z ∷ xs) (suc i) (suc j) (b, o) lt e g =
    IsOrdered-at after xs i j o (omega arith) e g
