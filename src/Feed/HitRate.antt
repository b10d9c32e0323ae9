-- ===== src/Feed/HitRate.antt =====
-- `trailing_hit_rate` of signalfeed/services.py, beside the recap.
use automated_stock_trading.Common.{
  ℕ, suc, ◌+◌, ◌-◌, ◌≤◌, ◌<◌, ◌≡◌, ◌≢◌, ◌⊎◌, refl, ap, subst, inl, inr, Bool, true, false, none,
  some, List, [], ◌∷◌, ◌&&◌, leb, ltb, if◌then◌else◌, arith, Option, All, Bool-cases,
}
use automated_stock_trading.Floats.{Floats}
use automated_stock_trading.Feed.Rows.{SignalStatus, pending, sent, suppressed, error, WeeklySignal}
use automated_stock_trading.Feed.Recap.{
  is_sent, is_hit, grade, graded, grade_all, tally, recap_weekly_signals,
}

-- What a signal adds to the counts.
abbrev step : (is_in hit : Bool) → ℕ × ℕ → ℕ × ℕ
step is_in hit m = if is_in then (if hit then (suc m.0, suc m.1) else (suc m.0, m.1)) else m

abbrev is_graded_in : SignalStatus → Option Bool → (in_window : Bool) → Bool
is_graded_in x g in_window = elim g [ none ↦ false | some b ↦ is_sent x && in_window ]

abbrev is_true : Option Bool → Bool
is_true g = elim g [ none ↦ false | some b ↦ b ]

sent_no : (x : SignalStatus) → x ≢ sent → is_sent x ≡ false
sent_no pending n = refl
sent_no sent n = absurd (n refl)
sent_no suppressed n = refl
sent_no error n = refl

-- How the counts of a signal and of those after it differ.
abbrev pub Adds : SignalStatus → Option Bool → (W : Type 0) → (m n : ℕ × ℕ) → Type 0
Adds x g W m n =
    (x ≡ sent → g ≡ some true → W → n ≡ (suc m.0, suc m.1))
    × (x ≡ sent → g ≡ some false → W → n ≡ (suc m.0, m.1))
    × ((x ≢ sent) ⊎ ((g ≡ none) ⊎ (W → ⊥)) → n ≡ m)

left_out :
    (x : SignalStatus) (b in_window : Bool) (W : Type 0) (m : ℕ × ℕ)
    → ((W → ⊥) → in_window ≡ false)
    → (x ≢ sent) ⊎ ((some b ≡ none) ⊎ (W → ⊥))
    → step (is_sent x && in_window) b m ≡ m
left_out x b in_window W m off (inl n) = rw (sent_no x n) refl
left_out x b in_window W m off (inr (inl e)) = absurd cc
left_out x b in_window W m off (inr (inr n)) = elim (Bool-cases (is_sent x)) [
  | inl e ↦ rw (e, off n) refl
  | inr e ↦ rw e refl
]

-- A count by status, grade and date adds what it ought to.
step-Adds :
    (x : SignalStatus) (g : Option Bool) (in_window : Bool) (W : Type 0) (m : ℕ × ℕ)
    → (W → in_window ≡ true)
    → ((W → ⊥) → in_window ≡ false)
    → Adds x g W m (step (is_graded_in x g in_window) (is_true g) m)
step-Adds x none in_window W m on off = (λ a b w. absurd cc, λ a b w. absurd cc, λ h. refl)
step-Adds x (some true) in_window W m on off =
    (λ a b w. rw (ap is_sent a, on w) refl, λ a b w. absurd cc, left_out x true in_window W m off)
step-Adds x (some false) in_window W m on off =
    (λ a b w. absurd cc, λ a b w. rw (ap is_sent a, on w) refl, left_out x false in_window W m off)

module _ {F : Type 0} ⦃f : Floats F⦄ where
  -- What its query finds: sent, graded, and with a target from `cutoff` on.
  abbrev pub is_trailing : (cutoff : ℕ) → WeeklySignal F → Bool
  is_trailing cutoff s = elim s.was_correct [
    | none ↦ false
    | some b ↦ is_sent s.status && leb cutoff s.target_date
  ]

  unfoldable pub trailing : (cutoff : ℕ) → List (WeeklySignal F) → ℕ × ℕ
  trailing cutoff [] = (0, 0)
  trailing cutoff (s ∷ ss) =
      let (total, hits) = trailing cutoff ss in
      if is_trailing cutoff s
      then (if is_hit s then (suc total, suc hits) else (suc total, hits))
      else (total, hits)

  -- `trailing_hit_rate`: its total and its hits.
  unfoldable pub trailing_hit_rate : (as_of window_days : ℕ) → List (WeeklySignal F) → ℕ × ℕ
  unfolding trailing
  trailing_hit_rate as_of window_days rows = trailing (as_of - window_days) rows

  -- What a hit rate counts of a table, one signal after the other: those sent and graded with a
  -- target in the window, with the correct ones among them.
  abbrev pub Counts : (WeeklySignal F → Type 0) → List (WeeklySignal F) → ℕ × ℕ → Type 0
  Counts InWindow [] n = n ≡ (0, 0)
  Counts InWindow (s ∷ ss) n =
      (m : ℕ × ℕ) × Counts InWindow ss m × Adds s.status s.was_correct (InWindow s) m n

  -- The targets from `window_days` before `as_of` on, and those of them that are before `as_of`.
  abbrev pub IsSince : (as_of window_days : ℕ) → WeeklySignal F → Type 0
  IsSince as_of window_days s = as_of ≤ s.target_date + window_days

  abbrev pub IsPast : (as_of window_days : ℕ) → WeeklySignal F → Type 0
  IsPast as_of window_days s = (as_of ≤ s.target_date + window_days) × (s.target_date < as_of)

  trailing-Counts :
      (as_of window_days : ℕ) (rows : List (WeeklySignal F))
      → Counts (IsSince as_of window_days) rows (trailing (as_of - window_days) rows)
  unfolding trailing
  trailing-Counts as_of window_days [] = refl
  trailing-Counts as_of window_days (s ∷ ss) = (
    trailing (as_of - window_days) ss,
    trailing-Counts as_of window_days ss,
    step-Adds s.status s.was_correct (leb (as_of - window_days) s.target_date)
        (IsSince as_of window_days s) (trailing (as_of - window_days) ss) (λ w. ground arith)
        (λ n. elim (Bool-cases (leb (as_of - window_days) s.target_date)) [
          | inl e ↦ absurd (n (ground (arith, e)))
          | inr e ↦ e
        ]),
  )

  tally-Counts :
      (as_of window_days : ℕ) (rows : List (WeeklySignal F))
      → Counts (IsPast as_of window_days) rows (tally (as_of - window_days) as_of rows)
  unfolding tally
  tally-Counts as_of window_days [] = refl
  tally-Counts as_of window_days (s ∷ ss) =
      let in_window = leb (as_of - window_days) s.target_date && ltb s.target_date as_of in
      (
        tally (as_of - window_days) as_of ss,
        tally-Counts as_of window_days ss,
        step-Adds s.status s.was_correct in_window (IsPast as_of window_days s)
            (tally (as_of - window_days) as_of ss) (λ w. ground (arith, w.0, w.1))
            (λ n. elim (Bool-cases in_window) [
              | inl e ↦ absurd (n (ground (arith, e), ground (arith, e)))
              | inr e ↦ e
            ]),
      )

  -- Nothing dated from `as_of` on is graded.
  abbrev pub IsUngraded : (as_of : ℕ) → WeeklySignal F → Type 0
  IsUngraded as_of s = as_of ≤ s.target_date → s.was_correct ≡ none

  grade-IsUngraded :
      (closes : ℕ → ℕ → Option F) (as_of : ℕ) (s : WeeklySignal F)
      → IsUngraded as_of s
      → IsUngraded as_of (grade closes as_of s).1
  unfolding grade graded
  grade-IsUngraded closes as_of s h = ground (arith, h)

  grade_all-IsUngraded :
      (closes : ℕ → ℕ → Option F) (as_of : ℕ) (rows : List (WeeklySignal F))
      → All (IsUngraded as_of) rows
      → All (IsUngraded as_of) (grade_all closes as_of rows).1
  unfolding grade_all
  grade_all-IsUngraded closes as_of [] h = tt
  grade_all-IsUngraded closes as_of (s ∷ ss) (h, hs) =
      (grade-IsUngraded closes as_of s h, grade_all-IsUngraded closes as_of ss hs)

  trailing-tally :
      (cutoff as_of : ℕ) (rows : List (WeeklySignal F))
      → All (IsUngraded as_of) rows
      → trailing cutoff rows ≡ tally cutoff as_of rows
  unfolding tally trailing
  trailing-tally cutoff as_of [] h = refl
  trailing-tally cutoff as_of (s ∷ ss) (h, hs) =
      ground (arith, h, trailing-tally cutoff as_of ss hs)

  -- Where no signal with a target from the day of a recap on is graded before it: after the recap the
  -- trailing hit rate of the same day and window is what the recap has counted for the window; both
  -- count just the signals that are sent, are graded and have a target in the window, with the
  -- correct ones as hits, one for each; and so do the counts of the week, for the seven days before.
  pub trailing_hit_rate_lem :
      (closes : ℕ → ℕ → Option F) (as_of window_days : ℕ) (rows : List (WeeklySignal F))
      → All (IsUngraded as_of) rows
      → let (r, rows') = recap_weekly_signals closes as_of window_days rows in
        (trailing_hit_rate as_of window_days rows' ≡ (r.window_total, r.window_hits))
        × Counts (IsSince as_of window_days) rows' (r.window_total, r.window_hits)
        × Counts (IsPast as_of 7) rows' (r.week_total, r.week_hits)
  unfolding recap_weekly_signals trailing_hit_rate
  trailing_hit_rate_lem closes as_of window_days rows h =
      let rows' = (grade_all closes as_of rows).1 in
      let agree =
        trailing-tally (as_of - window_days) as_of rows'
          (grade_all-IsUngraded closes as_of rows h) in
      (
        agree,
        subst (Counts (IsSince as_of window_days) rows') agree
            (trailing-Counts as_of window_days rows'),
        tally-Counts as_of 7 rows',
      )
