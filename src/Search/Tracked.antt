-- ===== src/Search/Tracked.antt =====
-- What a sweep of modelsearch/search.py keeps of its rows in the list that is ranked.
use automated_stock_trading.Common.{
  ℕ, suc, ◌+◌, ◌≤◌, ◌<◌, ◌≡◌, refl, sym, ap, ◌∙◌, subst, Bool, true, ◌==◌, Option, none, some, List,
  [], ◌∷◌, ◌++◌, Bool-cases, inl, inr, exists, length, length-append, All, All-append, arith,
}
use automated_stock_trading.Floats.{Floats}
use automated_stock_trading.Search.Space.{Candidate}
use automated_stock_trading.Search.Pareto.{Costed}
use automated_stock_trading.Search.Run.{Swept, collect, rankable, sweep, auto_ensemble_candidates}
use automated_stock_trading.Search.Save.{sweep_all}
use automated_stock_trading.Search.Saving.{Post, Post-bind}
use automated_stock_trading.Search.Rows.{
  Evaluation, scored, failed, Result, Error, Attempt, done, raised, Tools, Dataset,
}

abbrev pub IsAny : Error → Type 0
IsAny e = Unit

module _ {F : Type 0} ⦃f : Floats F⦄ where
  score_or : F → Attempt (Option (Costed F)) → F
  score_or s (done (some c)) = c.score
  score_or s (done none) = s
  score_or s (raised e) = s

  rankable-finite :
      (e : Evaluation F) (c : Costed F) → rankable e ≡ done (some c) → f.is_finite c.score ≡ true
  unfolding rankable score_or
  rankable-finite failed c h = absurd cc
  rankable-finite (scored none m d x y z n w) c h = absurd cc
  rankable-finite (scored (some s) m d x y z n w) c h = elim (Bool-cases (f.is_finite s)) [
    | inl e ↦ subst (λ v. f.is_finite v ≡ true) (ap (score_or s) (rw e at h)) e
    | inr e ↦ absurd (none_some (rw e at h))
  ]
    where
      none_some : done none ≡ done (some c) → ⊥
      none_some p = cc

module _ {F : Type 0} where
  exists-left :
      (p : ℕ × Costed F → Bool) (xs ys : List (ℕ × Costed F))
      → exists p xs ≡ true
      → exists p (xs ++ ys) ≡ true
  exists-left p [] ys h = absurd cc
  exists-left p (x ∷ xs) ys h = ground (arith, exists-left p xs ys)

  exists-right :
      (p : ℕ × Costed F → Bool) (xs ys : List (ℕ × Costed F))
      → exists p ys ≡ true
      → exists p (xs ++ ys) ≡ true
  exists-right p [] ys h = h
  exists-right p (x ∷ xs) ys h = ground (arith, exists-right p xs ys h)

pub All-map {ℓ κ μ} :
    {A : Type ℓ} (P : A → Type κ) (Q : A → Type μ) (xs : List A)
    → ((x : A) → P x → Q x)
    → All P xs
    → All Q xs
All-map P Q [] g h = tt
All-map P Q (x ∷ xs) g (p, h) = (g x p, All-map P Q xs g h)

pub All-zip {ℓ κ μ} :
    {A : Type ℓ} (P : A → Type κ) (Q : A → Type μ) (xs : List A)
    → All P xs
    → All Q xs
    → All (λ x. P x × Q x) xs
All-zip P Q [] h k = tt
All-zip P Q (x ∷ xs) (p, h) (q, k) = ((p, q), All-zip P Q xs h k)

module _ {V F : Type 0} ⦃f : Floats F⦄ where
  -- The entries for a row are its own costs.
  abbrev pub IsOwn : List (ℕ × Costed F) → Result V F → Type 0
  IsOwn ranked r = All (λ e. r.id ≡ e.0 → rankable r.evaluation ≡ done (some e.1)) ranked

  -- A row with costs has an entry.
  abbrev pub IsEntered : List (ℕ × Costed F) → Result V F → Type 0
  IsEntered ranked r =
      (c : Costed F)
      → rankable r.evaluation ≡ done (some c)
      → exists (λ e. e.0 == r.id) ranked ≡ true

  -- The objects are those from `lo` on and before `hi`, all without a rank.
  abbrev pub IsBetween : (lo hi : ℕ) → Swept V F → Type 0
  IsBetween lo hi s =
      All (λ r. (lo ≤ r.id) × (r.id < hi) × (r.rank ≡ none)) s.rows
      × All (λ e. (lo ≤ e.0) × (e.0 < hi) × (f.is_finite e.1.score ≡ true)) s.ranked

  abbrev pub IsTracked : (lo : ℕ) → Swept V F → Type 0
  IsTracked lo s =
      IsBetween lo (lo + length s.rows) s
      × All (IsOwn s.ranked) s.rows
      × All (IsEntered s.ranked) s.rows

  -- Entries of other objects say nothing of a row.
  IsOwn-other :
      (r : Result V F) (ranked : List (ℕ × Costed F)) (lo hi : ℕ)
      → All (λ e. (lo ≤ e.0) × (e.0 < hi) × (f.is_finite e.1.score ≡ true)) ranked
      → r.id < lo
      → IsOwn ranked r
  IsOwn-other r [] lo hi h lt = tt
  IsOwn-other r (e ∷ ranked) lo hi ((a, b, c), h) lt =
      ((λ p. absurd (omega arith)), IsOwn-other r ranked lo hi h lt)

  IsOwn-over :
      (r : Result V F) (ranked : List (ℕ × Costed F)) (lo hi : ℕ)
      → All (λ e. (lo ≤ e.0) × (e.0 < hi) × (f.is_finite e.1.score ≡ true)) ranked
      → hi ≤ r.id
      → IsOwn ranked r
  IsOwn-over r [] lo hi h le = tt
  IsOwn-over r (e ∷ ranked) lo hi ((a, b, c), h) le =
      ((λ p. absurd (omega arith)), IsOwn-over r ranked lo hi h le)

  -- One more row in front.
  collect-IsTracked :
      (row : Result V F) (costs : Option (Costed F)) (rest : Swept V F)
      → row.rank ≡ none
      → rankable row.evaluation ≡ done costs
      → IsTracked (suc row.id) rest
      → IsTracked row.id (collect row costs rest)
  collect-IsTracked row none rest n e ((rows, entries), own, entered) = (
    (
      (
        (omega arith, omega arith, n),
        All-map _ _ rest.rows (λ r (a, b, c). (omega arith, omega arith, c)) rows,
      ),
      All-map _ _ rest.ranked (λ r (a, b, c). (omega arith, omega arith, c)) entries,
    ),
    (IsOwn-other row rest.ranked _ _ entries (omega arith), own),
    ((λ c p. absurd (none_some (sym e ∙ p))), entered),
  )
    where
      none_some : {c : Costed F} → done none ≡ done (some c) → ⊥
      none_some p = cc
  collect-IsTracked row (some c) rest n e ((rows, entries), own, entered) = (
    (
      (
        (omega arith, omega arith, n),
        All-map _ _ rest.rows (λ r (a, b, c). (omega arith, omega arith, c)) rows,
      ),
      (
        (omega arith, omega arith, rankable-finite row.evaluation c e),
        All-map _ _ rest.ranked (λ r (a, b, c). (omega arith, omega arith, c)) entries,
      ),
    ),
    (
      ((λ _. e), IsOwn-other row rest.ranked _ _ entries (omega arith)),
      All-map _ _ rest.rows (λ r ((a, b, _), o). ((λ p. absurd (omega arith)), o))
          (All-zip _ _ rest.rows rows own),
    ),
    ((λ d p. ground arith), All-map _ _ rest.rows (λ r h d p. ground (arith, h d p)) entered),
  )

  IsTracked-append :
      (a b : Swept V F)
      → IsTracked 0 a
      → IsTracked (length a.rows) b
      → IsTracked 0 (record { rows = a.rows ++ b.rows; ranked = a.ranked ++ b.ranked })
  IsTracked-append a b ((rows, entries), own, entered) ((rows', entries'), own', entered') =
      let total = length-append a.rows b.rows in
      (
        (
          All-append _ a.rows b.rows (All-map _ _ a.rows (λ r (x, y, z). (x, omega arith, z)) rows)
              (All-map _ _ b.rows (λ r (x, y, z). (omega arith, omega arith, z)) rows'),
          All-append _ a.ranked b.ranked
              (All-map _ _ a.ranked (λ r (x, y, z). (x, omega arith, z)) entries)
              (All-map _ _ b.ranked (λ r (x, y, z). (omega arith, omega arith, z)) entries'),
        ),
        All-append _ a.rows b.rows
            (All-map _ _ a.rows
              (λ r ((x, y, z), o).
                All-append _ a.ranked b.ranked o
                  (IsOwn-other r b.ranked _ _ entries' (omega arith)))
              (All-zip _ _ a.rows rows own))
            (All-map _ _ b.rows
              (λ r ((x, y, z), o).
                All-append _ a.ranked b.ranked (IsOwn-over r a.ranked _ _ entries (omega arith)) o)
              (All-zip _ _ b.rows rows' own')),
        All-append _ a.rows b.rows
            (All-map _ _ a.rows (λ r h c p. exists-left _ a.ranked b.ranked (h c p)) entered)
            (All-map _ _ b.rows (λ r h c p. exists-right _ a.ranked b.ranked (h c p)) entered'),
      )

Post-self : {A : Type 0} (m : Attempt A) → Post IsAny (λ a. m ≡ done a) m
Post-self (done a) = refl
Post-self (raised e) = tt

module _ {V F : Type 0} ⦃f : Floats F⦄ (evaluate_one : (id : ℕ) → Candidate V → Result V F)
    (own : (id : ℕ) (c : Candidate V)
      → ((evaluate_one id c).id ≡ id) × ((evaluate_one id c).rank ≡ none)) where
  sweep-IsTracked :
      (id : ℕ) (cs : List (Candidate V)) → Post IsAny (IsTracked id) (sweep evaluate_one id cs)
  unfolding sweep
  sweep-IsTracked id [] = ((tt, tt), tt, tt)
  sweep-IsTracked id (c ∷ cs) =
      let row = evaluate_one id c in
      let (same, unranked) = own id c in
      Post-bind IsAny (λ k. rankable row.evaluation ≡ done k) (IsTracked id)
        (rankable row.evaluation) _ (Post-self (rankable row.evaluation))
        λ costs e.
          Post-bind IsAny (IsTracked (suc id)) (IsTracked id) (sweep evaluate_one (suc id) cs) _
            (sweep-IsTracked (suc id) cs)
            λ rest t.
              subst (λ k. IsTracked k (collect row costs rest)) same
                (collect-IsTracked row costs rest unranked e
                  (subst (λ k. IsTracked (suc k) rest) (sym same) t))

  pub sweep_all-IsTracked :
      (tools : Tools V F) (top_k : ℕ) (dataset : Dataset F) (cs : List (Candidate V))
      → Post IsAny (IsTracked 0) (sweep_all tools top_k dataset evaluate_one cs)
  unfolding sweep_all
  sweep_all-IsTracked tools top_k dataset cs =
      Post-bind IsAny (IsTracked 0) (IsTracked 0) (sweep evaluate_one 0 cs) _ (sweep-IsTracked 0 cs)
        λ a first.
          let extra = auto_ensemble_candidates tools top_k dataset.task a.rows in
          Post-bind IsAny (IsTracked (length a.rows)) (IsTracked 0)
            (sweep evaluate_one (length a.rows) extra) _ (sweep-IsTracked (length a.rows) extra)
            λ b second. IsTracked-append a b first second
