-- ===== src/Search/Ranking.antt =====
-- What the ranks of modelsearch/search.py mean.
use automated_stock_trading.Common.{
  ℕ, suc, ◌+◌, ◌≡◌, ◌≢◌, ◌⊎◌, refl, sym, ap, subst, some_inj, Bool, true, false, ◌==◌, ==_iff,
  Option, none, some, List, [], ◌∷◌, map, Bool-cases, inl, inr, exists, All, get_elem?, arith,
}
use automated_stock_trading.Floats.{Floats}
use automated_stock_trading.Search.Pareto.{Costed}
use automated_stock_trading.Search.Save.{set_rank, set_flag, rank_rows, flag_rows}
use automated_stock_trading.Search.Tracked.{All-map}
use automated_stock_trading.Search.Rows.{Result}

-- The comparison of finite floating-point numbers is a strict weak order.
pub record FiniteOrder (F : Type 0) ⦃f : Floats F⦄ : Type 0 where
  pub asymmetric :
      (a b : F) → f.is_finite a ≡ true → f.is_finite b ≡ true → f.lt a b ≡ true → f.lt b a ≡ false
  pub cotransitive :
      (a b c : F)
      → f.is_finite a ≡ true
      → f.is_finite b ≡ true
      → f.is_finite c ≡ true
      → f.lt a b ≡ false
      → f.lt b c ≡ false
      → f.lt a c ≡ false

module _ {F : Type 0} where
  -- The rank of an object is its place in the list that is ranked from `i` on.
  abbrev pub IsPlace : List (ℕ × Costed F) → (i id m : ℕ) → Type 0
  IsPlace ranked i id m =
      (p : ℕ) × (c : Costed F) × (get_elem? ranked p ≡ some (id, c)) × (m ≡ i + p)

  IsPlace-tail :
      (x : ℕ × Costed F) (ranked : List (ℕ × Costed F)) (i id m : ℕ)
      → IsPlace ranked (suc i) id m
      → IsPlace (x ∷ ranked) i id m
  IsPlace-tail x ranked i id m (p, c, e, q) = (suc p, c, e, omega arith)

module _ {V F : Type 0} where
  set_rank_cases :
      (id i : ℕ) (r : Result V F)
      → ((r.id ≡ id) × (set_rank id i r ≡ record r { rank = some i }))
        ⊎ (((r.id == id) ≡ false) × (set_rank id i r ≡ r))
  set_rank_cases id i r = elim (Bool-cases (r.id == id)) [
    | inl q ↦ inl ((==_iff r.id id).0 q, rw q refl)
    | inr q ↦ inr (q, rw q refl)
  ]

  abbrev pub Ranks : (ℕ → ℕ → Type 0) → Result V F → Type 0
  Ranks Q r = (m : ℕ) → r.rank ≡ some m → Q r.id m

  Ranks-set_rank :
      (Q : ℕ → ℕ → Type 0) (id i : ℕ) (r : Result V F)
      → Ranks Q r
      → Ranks (λ j m. Q j m ⊎ ((j ≡ id) × (m ≡ i))) (set_rank id i r)
  Ranks-set_rank Q id i r h = elim (set_rank_cases id i r) [
    | inl (own, s) ↦
        subst (Ranks (λ j m. Q j m ⊎ ((j ≡ id) × (m ≡ i)))) (sym s)
          (λ m e. inr (own, sym (some_inj.0 e)))
    | inr (other, s) ↦
        subst (Ranks (λ j m. Q j m ⊎ ((j ≡ id) × (m ≡ i)))) (sym s) (λ m e. inl (h m e))
  ]

  All-image :
      (P Q : Result V F → Type 0) (g : Result V F → Result V F) (rows : List (Result V F))
      → ((r : Result V F) → P r → Q (g r))
      → All P rows
      → All Q (map g rows)
  All-image P Q g [] k h = tt
  All-image P Q g (r ∷ rows) k (p, h) = (k r p, All-image P Q g rows k h)

  -- A rank is an old one or a place.
  pub rank_rows-Ranks :
      (Q : ℕ → ℕ → Type 0) (ranked : List (ℕ × Costed F)) (i : ℕ) (rows : List (Result V F))
      → All (Ranks Q) rows
      → All (Ranks (λ id m. Q id m ⊎ IsPlace ranked i id m)) (rank_rows ranked i rows)
  unfolding rank_rows
  rank_rows-Ranks Q [] i rows h = All-map _ _ rows (λ r k m e. inl (k m e)) h
  rank_rows-Ranks Q ((id, c) ∷ ranked) i rows h =
      All-map _ _ (rank_rows ranked (suc i) (map (set_rank id i) rows))
        (λ r k m e. moved r.id m (k m e))
        (rank_rows-Ranks (λ j m. Q j m ⊎ ((j ≡ id) × (m ≡ i))) ranked (suc i)
          (map (set_rank id i) rows)
          (All-image _ _ (set_rank id i) rows (λ r k. Ranks-set_rank Q id i r k) h))
    where
      moved :
          (j m : ℕ)
          → (Q j m ⊎ ((j ≡ id) × (m ≡ i))) ⊎ IsPlace ranked (suc i) j m
          → Q j m ⊎ IsPlace ((id, c) ∷ ranked) i j m
      moved j m (inl (inl q)) = inl q
      moved j m (inl (inr (p, q))) = inr (0, c, ap (λ k. some (k, c)) (sym p), omega arith)
      moved j m (inr q) = inr (IsPlace-tail (id, c) ranked i j m q)

  -- What holds of a row whatever its rank and flag.
  pub rank_rows-All :
      (P : Result V F → Type 0) (ranked : List (ℕ × Costed F)) (i : ℕ) (rows : List (Result V F))
      → ((r : Result V F) (k : Option ℕ) → P r → P (record r { rank = k }))
      → All P rows
      → All P (rank_rows ranked i rows)
  unfolding rank_rows
  rank_rows-All P [] i rows k h = h
  rank_rows-All P ((id, c) ∷ ranked) i rows k h =
      rank_rows-All P ranked (suc i) (map (set_rank id i) rows) k
        (All-image P P (set_rank id i) rows (λ r p. kept r p (set_rank_cases id i r)) h)
    where
      kept :
          (r : Result V F)
          → P r
          → ((r.id ≡ id) × (set_rank id i r ≡ record r { rank = some i }))
            ⊎ (((r.id == id) ≡ false) × (set_rank id i r ≡ r))
          → P (set_rank id i r)
      kept r p (inl (own, s)) = subst P (sym s) (k r (some i) p)
      kept r p (inr (other, s)) = subst P (sym s) p

  pub flag_rows-All :
      (P : Result V F → Type 0) (ranked : List (ℕ × Costed F)) (flags : List Bool)
      (rows : List (Result V F))
      → ((r : Result V F) (b : Bool) → P r → P (record r { is_pareto = b }))
      → All P rows
      → All P (flag_rows ranked flags rows)
  unfolding flag_rows
  flag_rows-All P [] flags rows k h = h
  flag_rows-All P (x ∷ ranked) [] rows k h = h
  flag_rows-All P ((id, c) ∷ ranked) (b ∷ flags) rows k h =
      flag_rows-All P ranked flags (map (set_flag id b) rows) k
        (All-image P P (set_flag id b) rows (λ r p. kept r p (Bool-cases (r.id == id))) h)
    where
      kept :
          (r : Result V F)
          → P r
          → ((r.id == id) ≡ true) ⊎ ((r.id == id) ≡ false)
          → P (set_flag id b r)
      kept r p (inl e) = rw e (k r b p)
      kept r p (inr e) = rw e p

  -- A row with a rank, or still to be ranked, ends with a rank.
  abbrev pub IsDue : List (ℕ × Costed F) → Result V F → Type 0
  IsDue ranked r = (r.rank ≢ none) ⊎ (exists (λ e. e.0 == r.id) ranked ≡ true)

  abbrev pub DueIf : (Result V F → Type 0) → List (ℕ × Costed F) → Result V F → Type 0
  DueIf W ranked r = W r → IsDue ranked r

  DueIf-set_rank :
      (W : Result V F → Type 0) (ranked : List (ℕ × Costed F)) (id i : ℕ) (c : Costed F)
      (r : Result V F)
      → DueIf W ((id, c) ∷ ranked) r
      → DueIf W ranked (set_rank id i r)
  DueIf-set_rank W ranked id i c r h = elim (set_rank_cases id i r) [
    | inl (own, s) ↦ subst (DueIf W ranked) (sym s) (λ w. inl (λ e. cc))
    | inr (other, s) ↦ subst (DueIf W ranked) (sym s) (λ w. still r.id other (h w))
  ]
    where
      still :
          (j : ℕ)
          → (j == id) ≡ false
          → (r.rank ≢ none) ⊎ (exists (λ e. e.0 == j) ((id, c) ∷ ranked) ≡ true)
          → (r.rank ≢ none) ⊎ (exists (λ e. e.0 == j) ranked ≡ true)
      still j other (inl n) = inl n
      still j other (inr e) = inr (ground arith)

  pub rank_rows-DueIf :
      (W : Result V F → Type 0) (ranked : List (ℕ × Costed F)) (i : ℕ) (rows : List (Result V F))
      → All (DueIf W ranked) rows
      → All (λ r. W r → r.rank ≢ none) (rank_rows ranked i rows)
  unfolding rank_rows
  rank_rows-DueIf W [] i rows h = All-map _ _ rows (λ r d w. now r (d w)) h
    where
      now : (r : Result V F) → IsDue [] r → r.rank ≢ none
      now r (inl n) = n
      now r (inr e) = absurd cc
  rank_rows-DueIf W ((id, c) ∷ ranked) i rows h =
      rank_rows-DueIf W ranked (suc i) (map (set_rank id i) rows)
        (All-image _ _ (set_rank id i) rows (λ r d. DueIf-set_rank W ranked id i c r d) h)
