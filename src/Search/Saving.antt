-- ===== src/Search/Saving.antt =====
-- What ranking and saving the rows of a search leave alone: lemmas on modelsearch/search.py.
use mathlib.Core.List.{Mem, Nodup, Nodup-cons, mem-cons, append-nil, append_assoc}
use mathlib.Core.Logic.Or
use automated_stock_trading.Common.{
  ℕ, suc, ◌≡◌, ◌≢◌, inl, inr, refl, sym, ap, ap₂, ◌∙◌, Bool, false, ◌&&◌, ◌==◌, ==_iff, List, [],
  ◌∷◌, ◌++◌, map, Bool-cases, exists, All, arith,
}
use automated_stock_trading.Search.Pareto.{Costed}
use automated_stock_trading.Search.Run.{◌>>=◌}
use automated_stock_trading.Search.Save.{
  set_rank, set_flag, rank_rows, flag_rows, is_same_candidate, bulk_create,
}
use automated_stock_trading.Search.Rows.{Result, Error, duplicate_candidate, Attempt, done, raised}

-- What holds of the value, or of the error.
abbrev pub Post : {A : Type 0} → (Error → Type 0) → (A → Type 0) → Attempt A → Type 0
Post E P (done a) = P a
Post E P (raised e) = E e

pub Post-bind :
    {A B : Type 0} (E : Error → Type 0) (P : A → Type 0) (Q : B → Type 0) (m : Attempt A)
    (k : A → Attempt B)
    → Post E P m
    → ((a : A) → P a → Post E Q (k a))
    → Post E Q (m >>= k)
Post-bind E P Q (done a) k h g = g a h
Post-bind E P Q (raised e) k h g = h

abbrev pub IsOther : Error → Type 0
IsOther e = e ≢ duplicate_candidate

module _ {V F : Type 0} where
  -- What the ranking leaves alone.
  abbrev pub Keeps : {A : Type 0} → (Result V F → A) → Type 0
  Keeps g =
      ((id i : ℕ) (r : Result V F) → g (set_rank id i r) ≡ g r)
      × ((id : ℕ) (b : Bool) (r : Result V F) → g (set_flag id b r) ≡ g r)

  map-map :
      {A : Type 0} (g : Result V F → A) (h : Result V F → Result V F) (rows : List (Result V F))
      → ((r : Result V F) → g (h r) ≡ g r)
      → map g (map h rows) ≡ map g rows
  map-map g h [] e = refl
  map-map g h (r ∷ rows) e = ap₂ ◌∷◌ (e r) (map-map g h rows e)

  pub rank_rows-map :
      {A : Type 0} (g : Result V F → A) (ranked : List (ℕ × Costed F)) (i : ℕ)
      (rows : List (Result V F))
      → Keeps g
      → map g (rank_rows ranked i rows) ≡ map g rows
  unfolding rank_rows
  rank_rows-map g [] i rows k = refl
  rank_rows-map g ((id, c) ∷ ranked) i rows k =
      rank_rows-map g ranked (suc i) (map (set_rank id i) rows) k
      ∙ map-map g (set_rank id i) rows (k.0 id i)

  pub flag_rows-map :
      {A : Type 0} (g : Result V F → A) (ranked : List (ℕ × Costed F)) (flags : List Bool)
      (rows : List (Result V F))
      → Keeps g
      → map g (flag_rows ranked flags rows) ≡ map g rows
  unfolding flag_rows
  flag_rows-map g [] flags rows k = refl
  flag_rows-map g (x ∷ ranked) [] rows k = refl
  flag_rows-map g ((id, c) ∷ ranked) (b ∷ flags) rows k =
      flag_rows-map g ranked flags (map (set_flag id b) rows) k
      ∙ map-map g (set_flag id b) rows (k.1 id b)

  pub Keeps-candidate : Keeps (λ r. r.candidate)
  Keeps-candidate = ((λ id i r. ground arith), (λ id b r. ground arith))

  pub Keeps-params_hash : Keeps (λ r. r.params_hash)
  Keeps-params_hash = ((λ id i r. ground arith), (λ id b r. ground arith))

  pub Keeps-run : Keeps (λ r. r.run)
  Keeps-run = ((λ id i r. ground arith), (λ id b r. ground arith))

  -- No two rows have one digest.
  abbrev pub IsUnique : List (Result V F) → Type 0
  IsUnique [] = Unit
  IsUnique (r ∷ rows) = All (λ q. (q.params_hash == r.params_hash) ≡ false) rows × IsUnique rows

  pub IsUnique-of_Nodup :
      (rows : List (Result V F)) → Nodup (map (λ r. r.params_hash) rows) → IsUnique rows
  IsUnique-of_Nodup [] h = tt
  IsUnique-of_Nodup (r ∷ rows) h =
      let (new, rest) = Nodup-cons.0 h in (apart rows new, IsUnique-of_Nodup rows rest)
    where
      apart :
          (qs : List (Result V F))
          → (Mem r.params_hash (map (λ q. q.params_hash) qs) → ⊥)
          → All (λ q. (q.params_hash == r.params_hash) ≡ false) qs
      apart [] n = tt
      apart (q ∷ qs) n = elim (Bool-cases (q.params_hash == r.params_hash)) [
        | inl e ↦ absurd (n (mem-cons.1 (Or.inl (sym ((==_iff q.params_hash r.params_hash).0 e)))))
        | inr e ↦ (e, apart qs λ m. n (mem-cons.1 (Or.inr m)))
      ]

  exists-append :
      (p : Result V F → Bool) (table : List (Result V F)) (r : Result V F)
      → exists p table ≡ false
      → p r ≡ false
      → exists p (table ++ r ∷ []) ≡ false
  exists-append p [] r h e = rw e refl
  exists-append p (t ∷ table) r h e = elim (Bool-cases (p t)) [
    | inl q ↦ absurd (cc (rw q at h))
    | inr q ↦ rw q (exists-append p table r (rw q at h) e)
  ]

  still_new :
      (table : List (Result V F)) (r : Result V F) (rows : List (Result V F))
      → All (λ q. exists (is_same_candidate q) table ≡ false) rows
      → All (λ q. (q.params_hash == r.params_hash) ≡ false) rows
      → All (λ q. exists (is_same_candidate q) (table ++ r ∷ []) ≡ false) rows
  still_new table r [] h u = tt
  still_new table r (q ∷ rows) (h, hs) (u, us) = (
    exists-append (is_same_candidate q) table r h (differs (q.run == r.run) u),
    still_new table r rows hs us,
  )
    where
      differs : (b : Bool) {c : Bool} → c ≡ false → (b && c) ≡ false
      differs b e = ground arith

  -- Rows that clash with none in the table, nor with one another, are all saved.
  pub bulk_create-done :
      (table rows : List (Result V F))
      → All (λ r. exists (is_same_candidate r) table ≡ false) rows
      → IsUnique rows
      → bulk_create table rows ≡ done (table ++ rows)
  unfolding bulk_create
  bulk_create-done table [] h u = ap done (sym (append-nil table))
  bulk_create-done table (r ∷ rows) (h, hs) (u, us) = rw h (
      bulk_create-done (table ++ r ∷ []) rows (still_new table r rows hs u) us
      ∙ ap done (append_assoc table (r ∷ []) rows))
