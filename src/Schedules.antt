-- ===== src/Schedules.antt =====
-- The schedule of the recurring jobs: AutomaticStockTrading/schedules.py. Names, tasks and commands
-- are texts, known here by numbers; the fields of a `Cron` are numbers, and sets of weekdays.
pub mod Pipeline
pub mod Beat
mod Tests
use automated_stock_trading.Common.{
  ℕ, suc, zero, ◌+◌, Bool, true, false, ◌&&◌, Option, none, some, List, [], ◌∷◌, ltb, leb, ◌==◌,
  if◌then◌else◌, length,
}

-- `day_of_week`: `WEEKDAYS`, or one day.
pub data Days : Type 0 where
  weekdays monday friday sunday : Days

-- `Cron`, of which every job of the schedule sets these fields.
pub record Cron : Type 0 where
  pub minute : ℕ
  pub hour : ℕ
  pub day_of_week : Days

-- `ScheduledJob`
pub record ScheduledJob : Type 0 where
  pub name : ℕ
  pub cron : Cron
  pub task : ℕ
  pub pipeline_order : Option ℕ

abbrev pub job : (name minute hour : ℕ) → Days → Option ℕ → ScheduledJob
job n m h days order = record {
  name = n;
  cron = record { minute = m; hour = h; day_of_week = days };
  task = n;
  pipeline_order = order;
}

-- `SCHEDULE`, each name and task by its place.
abbrev pub schedule : List ScheduledJob
schedule =
    job 0 0 16 weekdays (some 1)
    ∷ job 1 20 16 weekdays (some 2)
    ∷ job 2 40 16 weekdays (some 3)
    ∷ job 3 0 17 weekdays (some 4)
    ∷ job 4 0 11 weekdays none
    ∷ job 5 0 6 sunday none
    ∷ job 6 30 8 monday none
    ∷ job 7 0 17 friday none
    ∷ []

-- `names.count(n)`
unfoldable pub count_name : ℕ → List ScheduledJob → ℕ
count_name n [] = 0
count_name n (j ∷ js) = (if j.name == n then 1 else 0) + count_name n js

-- Whether `dupes` is not empty, for the names of `rest` counted in all jobs.
unfoldable pub has_dupes : (all rest : List ScheduledJob) → Bool
unfolding count_name
has_dupes all [] = false
has_dupes all (j ∷ js) =
    let rest = has_dupes all js in if ltb 1 (count_name j.name all) then true else rest

-- The `pipeline_order` of the jobs that have one.
unfoldable pub orders : List ScheduledJob → List ℕ
orders [] = []
orders (j ∷ js) = elim j.pipeline_order [ none ↦ orders js | some o ↦ o ∷ orders js ]

-- `sorted` of numbers.
unfoldable pub insert : ℕ → List ℕ → List ℕ
insert n [] = n ∷ []
insert n (m ∷ ms) = let rest = insert n ms in if leb n m then n ∷ m ∷ ms else m ∷ rest

unfoldable pub sorted : List ℕ → List ℕ
unfolding insert
sorted [] = []
sorted (n ∷ ns) = insert n (sorted ns)

-- `list(range(low, low + n))`
unfoldable pub range_from : (low n : ℕ) → List ℕ
range_from low zero = []
range_from low (suc n) = low ∷ range_from (suc low) n

abbrev pub same_list : List ℕ → List ℕ → Bool
same_list [] [] = true
same_list (a ∷ xs) (b ∷ ys) = a == b && same_list xs ys
same_list _ _ = false

-- `_check_unique`: whether it returns, rather than raise one of its two errors.
unfoldable pub check_unique : List ScheduledJob → Bool
unfolding has_dupes orders sorted range_from
check_unique jobs =
    if has_dupes jobs jobs
    then false
    else same_list (sorted (orders jobs)) (range_from 1 (length (orders jobs)))

-- The jobs with an order, each beside it.
unfoldable pub ordered_jobs : List ScheduledJob → List (ℕ × ScheduledJob)
ordered_jobs [] = []
ordered_jobs (j ∷ js) = elim j.pipeline_order [
  | none ↦ ordered_jobs js
  | some o ↦ (o, j) ∷ ordered_jobs js
]

-- `sorted(..., key=...)`, which keeps the order of jobs with equal keys.
unfoldable pub insert_job : ℕ → ScheduledJob → List (ℕ × ScheduledJob) → List (ℕ × ScheduledJob)
insert_job o j [] = (o, j) ∷ []
insert_job o j ((p, k) ∷ rest) =
    let tail = insert_job o j rest in if leb o p then (o, j) ∷ (p, k) ∷ rest else (p, k) ∷ tail

unfoldable pub sorted_jobs : List (ℕ × ScheduledJob) → List (ℕ × ScheduledJob)
unfolding insert_job
sorted_jobs [] = []
sorted_jobs ((o, j) ∷ js) = insert_job o j (sorted_jobs js)

-- `pipeline_jobs`, each job beside its order.
unfoldable pub pipeline_jobs : List ScheduledJob → List (ℕ × ScheduledJob)
unfolding ordered_jobs sorted_jobs
pipeline_jobs jobs = sorted_jobs (ordered_jobs jobs)

-- `out[job.name] = entry`: the entry under a name is replaced, or added at the end.
unfoldable pub set_entry : ScheduledJob → List (ℕ × ℕ × Cron) → List (ℕ × ℕ × Cron)
set_entry j [] = (j.name, j.task, j.cron) ∷ []
set_entry j ((n, t, c) ∷ out) =
    let rest = set_entry j out in
    if n == j.name then (n, j.task, j.cron) ∷ out else (n, t, c) ∷ rest

-- The loop of `beat_schedule`, from the entries made so far.
unfoldable pub entries_from : List (ℕ × ℕ × Cron) → List ScheduledJob → List (ℕ × ℕ × Cron)
unfolding set_entry
entries_from out [] = out
entries_from out (j ∷ js) = entries_from (set_entry j out) js

-- `beat_schedule`
unfoldable pub beat_schedule : List ScheduledJob → List (ℕ × ℕ × Cron)
unfolding entries_from
beat_schedule jobs = entries_from [] jobs
