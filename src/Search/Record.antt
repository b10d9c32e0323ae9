-- ===== src/Search/Record.antt =====
-- What `run_search` of modelsearch/search.py records: a row for each candidate, or an error.
use mathlib.Core.List.{Nodup, map-append}
use automated_stock_trading.Common.{
  ℕ, suc, ◌≤◌, ◌≡◌, refl, sym, ap₂, ◌∙◌, subst, Bool, false, ◌&&◌, ◌==◌, Option, none, some, List,
  [], ◌∷◌, ◌++◌, map, exists, length, All, sort_by, arith,
}
use automated_stock_trading.Floats.{Floats}
use automated_stock_trading.Search.Space.{Candidate}
use automated_stock_trading.Search.Pareto.{Costed}
use automated_stock_trading.Search.Run.{
  Swept, collect, rankable, sweep, auto_ensemble_candidates, ◌>>=◌,
}
use automated_stock_trading.Search.Save.{
  sweep_all, ranked_rows, rank_rows, bulk_create, is_same_candidate,
}
use automated_stock_trading.Search.Ensemble.{auto_ensemble_candidates-IsExtra, Nodup-extra}
use automated_stock_trading.Search.Pareto.{pareto_flags}
use automated_stock_trading.Search.Run.{ranks_after}
use automated_stock_trading.Search.Saving.{
  Post, Post-bind, IsOther, rank_rows-map, flag_rows-map, Keeps, Keeps-candidate, Keeps-params_hash,
  Keeps-run, bulk_create-done, IsUnique-of_Nodup,
}
use automated_stock_trading.Search.Rows.{Evaluation, scored, failed, Result, done, Tools, Dataset}

module _ {V F : Type 0} (tools : Tools V F) (run : ℕ) where
  -- The rows are those of the candidates, in order, for this run.
  abbrev pub IsRecord : List (Candidate V) → List (Result V F) → Type 0
  IsRecord cs rows =
      (map (λ r. r.candidate) rows ≡ cs)
      × (map (λ r. r.params_hash) rows ≡ map tools.digest cs)
      × (map (λ r. r.run) rows ≡ map (λ c. run) cs)

  IsRecord-append :
      (cs ds : List (Candidate V)) (rows more : List (Result V F))
      → IsRecord cs rows
      → IsRecord ds more
      → IsRecord (cs ++ ds) (rows ++ more)
  IsRecord-append cs ds rows more (a, b, c) (a', b', c') = (
    map-append _ rows more ∙ ap₂ ◌++◌ a a',
    map-append _ rows more ∙ ap₂ ◌++◌ b b' ∙ sym (map-append _ cs ds),
    map-append _ rows more ∙ ap₂ ◌++◌ c c' ∙ sym (map-append _ cs ds),
  )

  -- Both sweeps: the candidates, then at most one more, and no digest twice.
  abbrev pub IsSwept : List (Candidate V) → List (Result V F) → Type 0
  IsSwept cs rows =
      (extra : List (Candidate V)) × (length extra ≤ 1)
      × IsRecord (cs ++ extra) rows
      × (Nodup (map tools.digest cs) → Nodup (map tools.digest (cs ++ extra)))

module _ {V F : Type 0} ⦃f : Floats F⦄ (tools : Tools V F) (run : ℕ) where
  pub ranked_rows-IsSwept :
      (cs : List (Candidate V)) (s : Swept V F)
      → IsSwept tools run cs s.rows
      → IsSwept tools run cs (ranked_rows s)
  unfolding ranked_rows
  ranked_rows-IsSwept cs s (extra, le, (a, b, c), n) = (
    extra,
    le,
    (
      kept (λ r. r.candidate) Keeps-candidate ∙ a,
      kept (λ r. r.params_hash) Keeps-params_hash ∙ b,
      kept (λ r. r.run) Keeps-run ∙ c,
    ),
    n,
  )
    where
      kept : {A : Type 0} (g : Result V F → A) (k : Keeps g) → map g (ranked_rows s) ≡ map g s.rows
      kept g k =
          let ranked = sort_by ranks_after s.ranked in
          flag_rows-map g ranked (pareto_flags (map (λ x. x.1) ranked)) (rank_rows ranked 1 s.rows)
            k
          ∙ rank_rows-map g ranked 1 s.rows k

  -- The rows of a new run clash with no older row.
  new_rows :
      (table : List (Result V F)) (cs : List (Candidate V)) (rows : List (Result V F))
      → All (λ t. (t.run == run) ≡ false) table
      → map (λ r. r.run) rows ≡ map (λ c. run) cs
      → All (λ r. exists (is_same_candidate r) table ≡ false) rows
  new_rows table cs [] h e = tt
  new_rows table [] (r ∷ rows) h e = absurd (cc)
  new_rows table (c ∷ cs) (r ∷ rows) h e =
      (fresh table r.params_hash h (cc), new_rows table cs rows h (cc))
    where
      other : (a b : ℕ) (c : Bool) → (a == run) ≡ false → b ≡ run → (b == a && c) ≡ false
      other a b c h e = ground arith

      fresh :
          (ts : List (Result V F)) (d : ℕ)
          → All (λ t. (t.run == run) ≡ false) ts
          → r.run ≡ run
          → exists (is_same_candidate r) ts ≡ false
      fresh [] d h e = refl
      fresh (t ∷ ts) d (h, hs) e =
          rw (other t.run r.run (r.params_hash == t.params_hash) h e) (fresh ts d hs e)

  -- All rows of a new run are saved.
  pub bulk_create-ranked :
      (table : List (Result V F)) (cs : List (Candidate V)) (rows : List (Result V F))
      → All (λ t. (t.run == run) ≡ false) table
      → Nodup (map tools.digest cs)
      → IsSwept tools run cs rows
      → bulk_create table rows ≡ done (table ++ rows)
  bulk_create-ranked table cs rows h n (extra, le, (a, b, c), more) =
      bulk_create-done table rows (new_rows table (cs ++ extra) rows h c)
        (IsUnique-of_Nodup rows (subst Nodup (sym b) (more n)))

module _ {V F : Type 0} ⦃f : Floats F⦄ (tools : Tools V F) (run : ℕ)
    (evaluate_one : (id : ℕ) → Candidate V → Result V F)
    (own : (id : ℕ) (c : Candidate V)
      → ((evaluate_one id c).candidate ≡ c)
        × ((evaluate_one id c).params_hash ≡ tools.digest c)
        × ((evaluate_one id c).run ≡ run)) where
  rankable-IsOther : (e : Evaluation F) → Post IsOther (λ c. Unit {0}) (rankable e)
  unfolding rankable
  rankable-IsOther failed = tt
  rankable-IsOther (scored none m h a b c d w) = λ e. cc
  rankable-IsOther (scored (some s) m h a b c d w) = tt

  collect-rows :
      (r : Result V F) (c : Option (Costed F)) (s : Swept V F) → (collect r c s).rows ≡ r ∷ s.rows
  collect-rows r none s = refl
  collect-rows r (some c) s = refl

  sweep-IsRecord :
      (id : ℕ) (cs : List (Candidate V))
      → Post IsOther (λ s. IsRecord tools run cs s.rows) (sweep evaluate_one id cs)
  unfolding sweep
  sweep-IsRecord id [] = (refl, refl, refl)
  sweep-IsRecord id (c ∷ cs) =
      let row = evaluate_one id c in
      let (same, hash, of_run) = own id c in
      Post-bind IsOther (λ _. Unit) (λ s. IsRecord tools run (c ∷ cs) s.rows)
        (rankable row.evaluation)
        (λ costs. sweep evaluate_one (suc id) cs >>= λ rest. done (collect row costs rest))
        (rankable-IsOther row.evaluation)
        λ costs _.
          Post-bind IsOther (λ s. IsRecord tools run cs s.rows)
            (λ s. IsRecord tools run (c ∷ cs) s.rows) (sweep evaluate_one (suc id) cs)
            (λ rest. done (collect row costs rest)) (sweep-IsRecord (suc id) cs)
            λ rest (cands, hashes, runs).
              subst (IsRecord tools run (c ∷ cs)) (sym (collect-rows row costs rest))
                (ap₂ ◌∷◌ same cands, ap₂ ◌∷◌ hash hashes, ap₂ ◌∷◌ of_run runs)

  pub sweep_all-IsSwept :
      (top_k : ℕ) (dataset : Dataset F) (cs : List (Candidate V))
      → Post IsOther
          (λ s. IsSwept tools run cs s.rows)
          (sweep_all tools top_k dataset evaluate_one cs)
  unfolding sweep_all
  sweep_all-IsSwept top_k dataset cs =
      Post-bind IsOther (λ a. IsRecord tools run cs a.rows) (λ s. IsSwept tools run cs s.rows)
        (sweep evaluate_one 0 cs) _ (sweep-IsRecord 0 cs)
        λ a first.
          let extra = auto_ensemble_candidates tools top_k dataset.task a.rows in
          let is_extra = auto_ensemble_candidates-IsExtra tools top_k dataset.task a.rows in
          Post-bind IsOther (λ b. IsRecord tools run extra b.rows)
            (λ s. IsSwept tools run cs s.rows) (sweep evaluate_one (length a.rows) extra) _
            (sweep-IsRecord (length a.rows) extra)
            λ b second. (
              extra,
              is_extra.0,
              IsRecord-append tools run cs extra a.rows b.rows first second,
              Nodup-extra tools cs extra a.rows first.1 is_extra,
            )
