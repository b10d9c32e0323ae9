-- ===== src/Search/Frontier.antt =====
-- The efficient frontier of modelsearch/search.py: what `pareto_flags` finds.
use automated_stock_trading.Common.{
  ℕ, suc, ◌+◌, ◌≡◌, ◌↔◌, ◌∙◌, some_inj, get_elem?-map, length-map, refl, ◌⊎◌, inl, inr, Bool, true,
  false, not, some, List, [], ◌∷◌, ◌==◌, ==_iff, if◌then◌else◌, Bool-cases, exists, get_elem?, All,
  map, subst, length, sym, ap, arith,
}
use automated_stock_trading.Floats.{Floats}
use automated_stock_trading.Search.Pareto.{
  Costed, Comparable, not_worse, strictly_better, dominates, dominated, flags_from, pareto_flags,
}

module _ {F : Type 0} ⦃f : Floats F⦄ where
  module _ (law : Comparable F) where
    dominates_irrefl : (a : Costed F) → dominates a a ≡ false
    unfolding dominates
    dominates_irrefl a = ground (
      arith,
      law.irreflexive a.score,
      law.irreflexive a.fit_seconds,
      law.irreflexive a.predict_latency_ms,
    )

    not_worse_trans :
        (c b a : Costed F) → not_worse c b ≡ true → not_worse b a ≡ true → not_worse c a ≡ true
    unfolding not_worse
    not_worse_trans c b a h k = ground (
      arith,
      law.transitive a.score b.score c.score,
      law.transitive c.fit_seconds b.fit_seconds a.fit_seconds,
      law.transitive c.predict_latency_ms b.predict_latency_ms a.predict_latency_ms,
    )

    strictly_better_trans :
        (c b a : Costed F)
        → not_worse c b ≡ true
        → not_worse b a ≡ true
        → strictly_better b a ≡ true
        → strictly_better c a ≡ true
    unfolding not_worse strictly_better
    strictly_better_trans c b a h k s = ground (
      arith,
      law.lt_le a.score b.score c.score,
      law.le_lt c.fit_seconds b.fit_seconds a.fit_seconds,
      law.le_lt c.predict_latency_ms b.predict_latency_ms a.predict_latency_ms,
    )

    dominates_trans :
        (c b a : Costed F) → dominates c b ≡ true → dominates b a ≡ true → dominates c a ≡ true
    unfolding dominates
    dominates_trans c b a h k = ground (arith, not_worse_trans c b a, strictly_better_trans c b a)

    -- The row's own place needs no test: no row dominates itself.
    dominated-exists :
        (i : ℕ) (a : Costed F) (j : ℕ) (bs : List (Costed F))
        → ((k : ℕ) → i ≡ j + k → (b : Costed F) → get_elem? bs k ≡ some b → b ≡ a)
        → dominated i a j bs ≡ exists (λ b. dominates b a) bs
    unfolding dominated
    dominated-exists i a j [] h = refl
    dominated-exists i a j (b ∷ bs) h =
        let ih = dominated-exists i a (suc j) bs λ k e c g. h (suc k) (omega arith) c g in
        elim (Bool-cases (i == j)) [
          | inl e ↦
              let own : dominates b a ≡ false =
                rw (h 0 (omega (arith, (==_iff i j).0 e)) b refl) (dominates_irrefl a) in
              rw (e, own) ih
          | inr e ↦ rw (e, ih) refl
        ]

    -- The flag of a row with all others, whatever the places.
    is_free : List (Costed F) → Costed F → Bool
    is_free rows a = not (exists (λ b. dominates b a) rows)

    flags_from-map :
        (i : ℕ) (rows rest : List (Costed F))
        → ((k : ℕ) → get_elem? rows (i + k) ≡ get_elem? rest k)
        → flags_from i rows rest ≡ map (is_free rows) rest
    unfolding flags_from is_free
    flags_from-map i rows [] h = refl
    flags_from-map i rows (a ∷ rest) h =
        let own = dominated-exists i a 0 rows λ k e b g. same k e b g in
        rw (own, flags_from-map (suc i) rows rest λ k. shifted k) refl
      where
        here : get_elem? rows i ≡ some a
        here = let e : i ≡ i + 0 = omega arith in ap (get_elem? rows) e ∙ h 0

        same : (k : ℕ) → i ≡ 0 + k → (b : Costed F) → get_elem? rows k ≡ some b → b ≡ a
        same k e b g =
            let own : i ≡ k = omega (arith, e) in
            some_inj.0 (sym g ∙ sym (ap (get_elem? rows) own) ∙ here)

        shifted : (k : ℕ) → get_elem? rows (suc i + k) ≡ get_elem? rest k
        shifted k = let e : suc i + k ≡ i + suc k = omega arith in ap (get_elem? rows) e ∙ h (suc k)

    -- The last of the rows that dominates what was found before.
    climb : Costed F → List (Costed F) → Costed F
    climb a [] = a
    climb a (b ∷ bs) = climb (if dominates b a then b else a) bs

    abbrev IsAbove : (b a : Costed F) → Type 0
    IsAbove b a = (b ≡ a) ⊎ (dominates b a ≡ true)

    IsAbove-trans : (c b a : Costed F) → IsAbove c b → IsAbove b a → IsAbove c a
    IsAbove-trans c b a (inl p) q = subst (λ x. IsAbove x a) (sym p) q
    IsAbove-trans c b a (inr p) (inl q) = inr (subst (λ x. dominates c x ≡ true) q p)
    IsAbove-trans c b a (inr p) (inr q) = inr (dominates_trans c b a p q)

    climb-nil : (a : Costed F) → climb a [] ≡ a
    unfolding climb
    climb-nil a = refl

    climb-IsAbove : (a : Costed F) (bs : List (Costed F)) → IsAbove (climb a bs) a
    unfolding climb
    climb-IsAbove a [] = inl refl
    climb-IsAbove a (b ∷ bs) = elim (Bool-cases (dominates b a)) [
      | inl e ↦ rw e (IsAbove-trans (climb b bs) b a (climb-IsAbove b bs) (inr e))
      | inr e ↦ rw e (climb-IsAbove a bs)
    ]

    -- What does not dominate a row does not dominate what is above that row.
    beaten : (z c a : Costed F) → IsAbove c a → dominates z a ≡ false → dominates z c ≡ false
    beaten z c a (inl p) h = rw p h
    beaten z c a (inr p) h = elim (Bool-cases (dominates z c)) [
      | inl e ↦ absurd (cc (h, dominates_trans z c a e p))
      | inr e ↦ e
    ]

    climb_hit :
        (a b : Costed F) (bs : List (Costed F))
        → dominates b a ≡ true
        → climb a (b ∷ bs) ≡ climb b bs
    unfolding climb
    climb_hit a b bs e = rw e refl

    climb_miss :
        (a b : Costed F) (bs : List (Costed F))
        → dominates b a ≡ false
        → climb a (b ∷ bs) ≡ climb a bs
    unfolding climb
    climb_miss a b bs e = rw e refl

    climb-free :
        (a : Costed F) (bs : List (Costed F)) → All (λ z. dominates z (climb a bs) ≡ false) bs
    climb-free a [] = tt
    climb-free a (b ∷ bs) = elim (Bool-cases (dominates b a)) [
      | inl e ↦
          subst (λ c. All (λ z. dominates z c ≡ false) (b ∷ bs)) (sym (climb_hit a b bs e))
            (beaten b (climb b bs) b (climb-IsAbove b bs) (dominates_irrefl b), climb-free b bs)
      | inr e ↦
          subst (λ c. All (λ z. dominates z c ≡ false) (b ∷ bs)) (sym (climb_miss a b bs e))
            (beaten b (climb a bs) a (climb-IsAbove a bs) e, climb-free a bs)
    ]

    climb_at :
        (a : Costed F) (bs : List (Costed F))
        → (climb a bs ≡ a) ⊎ ((k : ℕ) × (get_elem? bs k ≡ some (climb a bs)))
    climb_at a [] = inl (climb-nil a)
    climb_at a (b ∷ bs) = elim (Bool-cases (dominates b a)) [
      | inl e ↦ rw (climb_hit a b bs e) (found b (climb_at b bs))
      | inr e ↦ rw (climb_miss a b bs e) (later (climb_at a bs))
    ]
      where
        found :
            (c : Costed F)
            → (climb c bs ≡ c) ⊎ ((k : ℕ) × (get_elem? bs k ≡ some (climb c bs)))
            → (climb c bs ≡ a) ⊎ ((k : ℕ) × (get_elem? (c ∷ bs) k ≡ some (climb c bs)))
        found c (inl p) = inr (0, ap some (sym p))
        found c (inr (k, p)) = inr (suc k, p)

        later :
            (climb a bs ≡ a) ⊎ ((k : ℕ) × (get_elem? bs k ≡ some (climb a bs)))
            → (climb a bs ≡ a) ⊎ ((k : ℕ) × (get_elem? (b ∷ bs) k ≡ some (climb a bs)))
        later (inl p) = inl p
        later (inr (k, p)) = inr (suc k, p)

    is_free-true :
        (rows : List (Costed F)) (a : Costed F)
        → All (λ z. dominates z a ≡ false) rows ↔ (is_free rows a ≡ true)
    unfolding is_free
    is_free-true [] a = (λ _. refl, λ _. tt)
    is_free-true (b ∷ bs) a =
        let (sound, complete) = is_free-true bs a in
        elim (Bool-cases (dominates b a)) [
          | inl e ↦ (λ h. absurd (cc (e, h.0)), λ h. absurd (cc (rw e at h)))
          | inr e ↦ (λ h. rw e (sound h.1), λ h. (e, complete (rw e at h)))
        ]

    -- A row that is not free has a free one that dominates it.
    free_above :
        (rows : List (Costed F)) (a : Costed F)
        → is_free rows a ≡ false
        → (k : ℕ) × (b : Costed F) × (get_elem? rows k ≡ some b)
          × (is_free rows b ≡ true)
          × (dominates b a ≡ true)
    free_above rows a h = go (climb_at a rows) (climb-IsAbove a rows)
      where
        free : is_free rows (climb a rows) ≡ true
        free = (is_free-true rows (climb a rows)).0 (climb-free a rows)

        not_own : climb a rows ≡ a → ⊥
        not_own p = cc (h, subst (λ x. is_free rows x ≡ true) p free)

        go :
            (climb a rows ≡ a) ⊎ ((k : ℕ) × (get_elem? rows k ≡ some (climb a rows)))
            → IsAbove (climb a rows) a
            → (k : ℕ) × (b : Costed F) × (get_elem? rows k ≡ some b)
              × (is_free rows b ≡ true)
              × (dominates b a ≡ true)
        go (inl p) q = absurd (not_own p)
        go (inr p) (inl q) = absurd (not_own q)
        go (inr (k, p)) (inr q) = (k, climb a rows, p, free, q)

    -- Where comparisons are those of floating-point numbers: there is one flag for each row; a row
    -- with the flag true is dominated by no row; and a row with the flag false is dominated by a row
    -- whose flag is true.
    pub pareto_flags_lem :
        (rows : List (Costed F))
        → (length (pareto_flags rows) ≡ length rows)
          × ((i : ℕ) (a : Costed F)
              → get_elem? rows i ≡ some a
              → get_elem? (pareto_flags rows) i ≡ some true
              → All (λ b. dominates b a ≡ false) rows)
          × ((i : ℕ) (a : Costed F)
              → get_elem? rows i ≡ some a
              → get_elem? (pareto_flags rows) i ≡ some false
              → (k : ℕ) × (b : Costed F) × (get_elem? rows k ≡ some b)
                × (get_elem? (pareto_flags rows) k ≡ some true)
                × (dominates b a ≡ true))
    unfolding pareto_flags
    pareto_flags_lem rows = rw (flags_from-map 0 rows rows λ k. ap (get_elem? rows) (omega arith)) (
      length-map (is_free rows) rows,
      (λ i a g h. (is_free-true rows a).1 (some_inj.0 (sym (at i a g) ∙ h))),
      (λ i a g h.
          let (k, b, p, q, r) = free_above rows a (some_inj.0 (sym (at i a g) ∙ h)) in
          (k, b, p, at k b p ∙ ap some q, r)),
    )
      where
        at :
            (i : ℕ) (a : Costed F)
            → get_elem? rows i ≡ some a
            → get_elem? (map (is_free rows) rows) i ≡ some (is_free rows a)
        at i a g = get_elem?-map (is_free rows) rows i g
