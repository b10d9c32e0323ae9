-- ===== src/Schedules/Pipeline.antt =====
-- What `_check_unique` guarantees to the pipeline.
use mathlib.Core.List.{Perm}
use mathlib.Core.List.Perm
use automated_stock_trading.Common.{
  ℕ, suc, ◌≡◌, refl, ap, ◌∙◌, subst, Bool, true, false, map, select, if◌then◌else◌, Option, none,
  some, List, [], ◌∷◌, arith, leb, length, Bool-cases, Option-cases, inl, inr,
}
use automated_stock_trading.Schedules.{
  ScheduledJob, orders, insert, sorted, range_from, same_list, check_unique, ordered_jobs,
  insert_job, sorted_jobs, pipeline_jobs,
}

-- The orders that stand beside the jobs.
abbrev pub keys : List (ℕ × ScheduledJob) → List ℕ
keys [] = []
keys ((o, j) ∷ rest) = o ∷ keys rest

-- Each job has the order that stands beside it.
abbrev pub IsKeyed : List (ℕ × ScheduledJob) → Type 0
IsKeyed [] = Unit
IsKeyed ((o, j) ∷ rest) = (j.pipeline_order ≡ some o) × IsKeyed rest

keys-insert_job :
    (o : ℕ) (j : ScheduledJob) (ps : List (ℕ × ScheduledJob))
    → keys (insert_job o j ps) ≡ insert o (keys ps)
unfolding insert_job insert
keys-insert_job o j [] = refl
keys-insert_job o j ((p, k) ∷ rest) = ground (arith, keys-insert_job o j rest)

keys-sorted_jobs : (ps : List (ℕ × ScheduledJob)) → keys (sorted_jobs ps) ≡ sorted (keys ps)
unfolding sorted_jobs sorted
keys-sorted_jobs [] = refl
keys-sorted_jobs ((o, j) ∷ ps) =
    keys-insert_job o j (sorted_jobs ps) ∙ ap (insert o) (keys-sorted_jobs ps)

keys-ordered_jobs : (js : List ScheduledJob) → keys (ordered_jobs js) ≡ orders js
unfolding ordered_jobs orders
keys-ordered_jobs [] = refl
keys-ordered_jobs (j ∷ js) = elim (Option-cases j.pipeline_order) [
  | inl e ↦ rw (e, ordered_jobs, orders) (keys-ordered_jobs js)
  | inr (o, e) ↦ rw (e, ordered_jobs, orders) (ap (λ l. o ∷ l) (keys-ordered_jobs js))
]

IsKeyed-insert_job :
    (o : ℕ) (j : ScheduledJob) (ps : List (ℕ × ScheduledJob))
    → j.pipeline_order ≡ some o
    → IsKeyed ps
    → IsKeyed (insert_job o j ps)
unfolding insert_job
IsKeyed-insert_job o j [] e h = (e, tt)
IsKeyed-insert_job o j ((p, k) ∷ rest) e h = elim (Bool-cases (leb o p)) [
  | inl z ↦ rw (z, insert_job) (e, h)
  | inr z ↦ rw (z, insert_job) (h.0, IsKeyed-insert_job o j rest e h.1)
]

IsKeyed-sorted_jobs : (ps : List (ℕ × ScheduledJob)) → IsKeyed ps → IsKeyed (sorted_jobs ps)
unfolding sorted_jobs
IsKeyed-sorted_jobs [] h = tt
IsKeyed-sorted_jobs ((o, j) ∷ ps) h =
    IsKeyed-insert_job o j (sorted_jobs ps) h.0 (IsKeyed-sorted_jobs ps h.1)

ordered_jobs-IsKeyed : (js : List ScheduledJob) → IsKeyed (ordered_jobs js)
unfolding ordered_jobs
ordered_jobs-IsKeyed [] = tt
ordered_jobs-IsKeyed (j ∷ js) = go j.pipeline_order refl (ordered_jobs-IsKeyed js)
  where
    go :
        (x : Option ℕ)
        → j.pipeline_order ≡ x
        → IsKeyed (ordered_jobs js)
        → IsKeyed (elim x [ none ↦ ordered_jobs js | some o ↦ (o, j) ∷ ordered_jobs js ])
    go none e h = h
    go (some o) e h = (e, h)

same_list→eq : (xs ys : List ℕ) → same_list xs ys ≡ true → xs ≡ ys
same_list→eq [] [] e = refl
same_list→eq [] (b ∷ ys) e = absurd cc
same_list→eq (a ∷ xs) [] e = absurd cc
same_list→eq (a ∷ xs) (b ∷ ys) e = ground (arith, same_list→eq xs ys)

-- The jobs that the schedule gives an order.
abbrev is_some : Option ℕ → Bool
is_some none = false
is_some (some o) = true

abbrev pub has_order : ScheduledJob → Bool
has_order j = is_some j.pipeline_order

abbrev pub staged : List (ℕ × ScheduledJob) → List ScheduledJob
staged ps = map (λ p. p.1) ps

staged-insert_job :
    (o : ℕ) (j : ScheduledJob) (ps : List (ℕ × ScheduledJob))
    → Perm (staged (insert_job o j ps)) (j ∷ staged ps)
unfolding insert_job
staged-insert_job o j [] = Perm.rfl
staged-insert_job o j ((p, k) ∷ rest) = elim (Bool-cases (leb o p)) [
  | inl e ↦ rw (e, insert_job) Perm.rfl
  | inr e ↦
      rw (e, insert_job)
        (Perm.trans (Perm.cons k (staged-insert_job o j rest)) (Perm.swap j k (staged rest)))
]

staged-sorted_jobs : (ps : List (ℕ × ScheduledJob)) → Perm (staged (sorted_jobs ps)) (staged ps)
unfolding sorted_jobs
staged-sorted_jobs [] = Perm.rfl
staged-sorted_jobs ((o, j) ∷ ps) =
    Perm.trans (staged-insert_job o j (sorted_jobs ps)) (Perm.cons j (staged-sorted_jobs ps))

staged-ordered_jobs : (js : List ScheduledJob) → staged (ordered_jobs js) ≡ select has_order js
unfolding ordered_jobs
staged-ordered_jobs [] = refl
staged-ordered_jobs (j ∷ js) = go j.pipeline_order (staged-ordered_jobs js)
  where
    go :
        (x : Option ℕ)
        → staged (ordered_jobs js) ≡ select has_order js
        → staged (elim x [ none ↦ ordered_jobs js | some o ↦ (o, j) ∷ ordered_jobs js ])
          ≡ (if is_some x then j ∷ select has_order js else select has_order js)
    go none h = h
    go (some o) h = ap (λ l. j ∷ l) h

length-orders : (js : List ScheduledJob) → length (orders js) ≡ length (select has_order js)
unfolding orders
length-orders [] = refl
length-orders (j ∷ js) = elim (Option-cases j.pipeline_order) [
  | inl e ↦ rw (e, orders) (length-orders js)
  | inr (o, e) ↦ rw (e, orders) (ap suc (length-orders js))
]

-- If `_check_unique` does not raise, the pipeline runs exactly those jobs of the schedule that have a
-- `pipeline_order`, in the order 1, 2, ... up to their number, each at the place that its own
-- `pipeline_order` names.
pub pipeline_jobs-IsKeyed :
    (jobs : List ScheduledJob)
    → check_unique jobs ≡ true
    → (keys (pipeline_jobs jobs) ≡ range_from 1 (length (select has_order jobs)))
      × IsKeyed (pipeline_jobs jobs)
      × Perm (staged (pipeline_jobs jobs)) (select has_order jobs)
unfolding check_unique pipeline_jobs
pipeline_jobs-IsKeyed jobs e = (
  keys-sorted_jobs (ordered_jobs jobs)
      ∙ ap sorted (keys-ordered_jobs jobs)
      ∙ same_list→eq (sorted (orders jobs)) (range_from 1 (length (orders jobs)))
          (ground (arith, e))
      ∙ ap (range_from 1) (length-orders jobs),
  IsKeyed-sorted_jobs (ordered_jobs jobs) (ordered_jobs-IsKeyed jobs),
  subst (Perm (staged (sorted_jobs (ordered_jobs jobs)))) (staged-ordered_jobs jobs)
      (staged-sorted_jobs (ordered_jobs jobs)),
)
