-- ===== src/Schedules/Beat.antt =====
-- What `_check_unique` guarantees to `beat_schedule`.
use automated_stock_trading.Common.{
  ℕ, ◌+◌, ◌≡◌, refl, sym, ap, ◌∙◌, false, true, List, [], ◌∷◌, ◌++◌, map, arith,
}
use automated_stock_trading.Schedules.{
  Cron, ScheduledJob, count_name, has_dupes, set_entry, entries_from, beat_schedule, check_unique,
}

-- The entry of one job.
abbrev pub entry : ScheduledJob → ℕ × ℕ × Cron
entry j = (j.name, j.task, j.cron)

append_assoc_one :
    (xs ys : List ScheduledJob) (j : ScheduledJob) → (xs ++ (j ∷ [])) ++ ys ≡ xs ++ (j ∷ ys)
append_assoc_one [] ys j = refl
append_assoc_one (x ∷ xs) ys j = ap (λ l. x ∷ l) (append_assoc_one xs ys j)

map-append_one :
    (xs : List ScheduledJob) (j : ScheduledJob)
    → map entry (xs ++ (j ∷ [])) ≡ map entry xs ++ (entry j ∷ [])
map-append_one [] j = refl
map-append_one (x ∷ xs) j = ap (λ l. entry x ∷ l) (map-append_one xs j)

append_none : (xs : List ScheduledJob) → xs ++ [] ≡ xs
append_none [] = refl
append_none (x ∷ xs) = ap (λ l. x ∷ l) (append_none xs)

count_name-append :
    (n : ℕ) (xs ys : List ScheduledJob)
    → count_name n (xs ++ ys) ≡ count_name n xs + count_name n ys
unfolding count_name
count_name-append n [] ys = omega arith
count_name-append n (x ∷ xs) ys = ground (arith, count_name-append n xs ys)

set_entry_fresh :
    (j : ScheduledJob) (xs : List ScheduledJob)
    → count_name j.name xs ≡ 0
    → set_entry j (map entry xs) ≡ map entry xs ++ (entry j ∷ [])
unfolding set_entry count_name
set_entry_fresh j [] e = refl
set_entry_fresh j (x ∷ xs) e = ground (arith, set_entry_fresh j xs)

head_fresh :
    (j : ScheduledJob) (done js all : List ScheduledJob)
    → all ≡ done ++ (j ∷ js)
    → has_dupes all (j ∷ js) ≡ false
    → (count_name j.name done ≡ 0) × (has_dupes all js ≡ false)
unfolding has_dupes count_name
head_fresh j done js all e h =
    ground (arith, count_name-append j.name done (j ∷ js), ap (count_name j.name) e, h)

entries_from_lem :
    (done js all : List ScheduledJob)
    → all ≡ done ++ js
    → has_dupes all js ≡ false
    → entries_from (map entry done) js ≡ map entry (done ++ js)
unfolding entries_from
entries_from_lem done [] all e h = ap (map entry) (sym (append_none done))
entries_from_lem done (j ∷ js) all e h =
    let (fresh, rest) = head_fresh j done js all e h in
    ap (λ out. entries_from out js) (set_entry_fresh j done fresh ∙ sym (map-append_one done j))
    ∙ entries_from_lem (done ++ (j ∷ [])) js all (e ∙ sym (append_assoc_one done js j)) rest
    ∙ ap (map entry) (append_assoc_one done js j)

-- If `_check_unique` does not raise, the beat schedule has exactly one entry for each job, in the
-- order of the schedule: no job replaces another.
pub beat_schedule_lem :
    (jobs : List ScheduledJob) → check_unique jobs ≡ true → beat_schedule jobs ≡ map entry jobs
unfolding check_unique beat_schedule
beat_schedule_lem jobs h = entries_from_lem [] jobs jobs refl (ground (arith, h))
