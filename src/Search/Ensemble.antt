-- ===== src/Search/Ensemble.antt =====
-- `_auto_ensemble_candidates` of modelsearch/search.py: it adds at most one candidate, and none that was
-- tried.
use mathlib.Core.List.{
  Mem, Nodup, Nodup-nil, Nodup-cons, mem-cons, not-mem-nil, map-append, Nodup-append, append-nil,
}
use mathlib.Core.Logic.Or
use automated_stock_trading.Common.{
  ℕ, ◌≤◌, ◌≡◌, inl, inr, sym, subst, false, ◌==◌, ==_iff, ltb, List, [], ◌∷◌, ◌++◌, map, Bool-cases,
  exists, length, All, arith,
}
use automated_stock_trading.Floats.{Floats}
use automated_stock_trading.Search.Space.{Candidate}
use automated_stock_trading.Search.Run.{ensemble_of, auto_ensemble_candidates}
use automated_stock_trading.Search.Rows.{Result, regression, classification, Tools, Task}

module _ {V F : Type 0} ⦃f : Floats F⦄ (tools : Tools V F) where
  -- A candidate that the ensemble adds was not tried.
  abbrev pub IsExtra : List (Result V F) → List (Candidate V) → Type 0
  IsExtra rows extra =
      (length extra ≤ 1)
      × All (λ c. exists (λ r. r.params_hash == tools.digest c) rows ≡ false) extra

  ensemble_of-IsExtra :
      (keys : List ℕ) (rows : List (Result V F)) → IsExtra rows (ensemble_of tools keys rows)
  unfolding ensemble_of
  ensemble_of-IsExtra keys rows =
      let c : Candidate V = (tools.voting_ensemble, (tools.estimators, tools.join keys) ∷ []) in
      elim (Bool-cases (ltb (length keys) 2)) [
        | inl e ↦ rw e (omega arith, tt)
        | inr e ↦ elim (Bool-cases (exists (λ r. r.params_hash == tools.digest c) rows)) [
          | inl q ↦ rw (e, q) (omega arith, tt)
          | inr q ↦ rw (e, q) (omega arith, (q, tt))
        ]
      ]

  pub auto_ensemble_candidates-IsExtra :
      (top_k : ℕ) (task : Task) (rows : List (Result V F))
      → IsExtra rows (auto_ensemble_candidates tools top_k task rows)
  unfolding auto_ensemble_candidates
  auto_ensemble_candidates-IsExtra top_k classification rows = (omega arith, tt)
  auto_ensemble_candidates-IsExtra top_k regression rows = elim (Bool-cases (ltb top_k 2)) [
    | inl e ↦ rw e (omega arith, tt)
    | inr e ↦ rw e (ensemble_of-IsExtra _ rows)
  ]

  not_there :
      (d : ℕ) (rows : List (Result V F))
      → exists (λ r. r.params_hash == d) rows ≡ false
      → Mem d (map (λ r. r.params_hash) rows)
      → ⊥
  not_there d [] h m = not-mem-nil m
  not_there d (r ∷ rows) h m = elim (Bool-cases (r.params_hash == d)) [
    | inl e ↦ cc (rw e at h)
    | inr e ↦
        Or.elim (λ a. absurd a) (mem-cons.0 m) (λ p. cc (e, (==_iff r.params_hash d).1 (sym p)))
          (not_there d rows (rw e at h))
  ]

  pub Nodup-extra :
      (cs extra : List (Candidate V)) (rows : List (Result V F))
      → map (λ r. r.params_hash) rows ≡ map tools.digest cs
      → IsExtra rows extra
      → Nodup (map tools.digest cs)
      → Nodup (map tools.digest (cs ++ extra))
  Nodup-extra cs [] rows e x n = rw (append-nil cs) n
  Nodup-extra cs (c ∷ []) rows e (le, (new, _)) n = rw (map-append tools.digest cs (c ∷ [])) (
      Nodup-append.1 (
        n,
        Nodup-cons.1 ((λ m. not-mem-nil m), Nodup-nil),
        (λ d m k.
            Or.elim (λ a. absurd a) (mem-cons.0 k)
              (λ p. not_there (tools.digest c) rows new (
                subst (λ l. Mem (tools.digest c) l) (sym e)
                  (subst (λ x. Mem x (map tools.digest cs)) p m)))
              (λ q. not-mem-nil q)),
      ))
  Nodup-extra cs (c ∷ d ∷ more) rows e (le, _) n = absurd (omega arith)
