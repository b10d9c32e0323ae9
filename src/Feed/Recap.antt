-- ===== src/Feed/Recap.antt =====
-- The Friday recap: `recap_weekly_signals` and `trailing_hit_rate` of signalfeed/services.py.
use automated_stock_trading.Common.{
  ℕ, suc, ◌+◌, ◌-◌, ◌≡◌, refl, Bool, true, false, not, Option, none, some, List, [], ◌∷◌, ◌&&◌, ltb,
  leb, if◌then◌else◌, arith,
}
use automated_stock_trading.Floats.{Floats, ◌⊖◌, ◌⊗◌, ◌⊘◌, lt_float, float}
use automated_stock_trading.Feed.Rows.{Direction, up, down, SignalStatus, sent, WeeklySignal}
use automated_stock_trading.Feed.Sizing.{nonzero_close}

abbrev pub is_sent : SignalStatus → Bool
is_sent sent = true
is_sent _ = false

-- The counts of the summary of `recap_weekly_signals`.
pub record Recap : Type 0 where
  pub scored_now : ℕ
  pub window_total : ℕ
  pub window_hits : ℕ
  pub week_total : ℕ
  pub week_hits : ℕ

module _ {F : Type 0} ⦃f : Floats F⦄ where
  -- The return that a close makes of the reference, if it is there and not zero.
  unfoldable pub realised : Option F → F → Option F → Option F
  realised ref close old = elim (nonzero_close ref) [
    | none ↦ old
    | some r ↦ some ((close ⊘ r ⊖ float 1) ⊗ float 100)
  ]

  -- `was_correct`, for a call that is up or down and a return that is known.
  unfoldable pub verdict : Direction → Option F → Option Bool → Option Bool
  verdict up (some x) old = some (lt_float (float 0) x)
  verdict down (some x) old = some (not (lt_float (float 0) x))
  verdict _ _ old = old

  -- The body of the loop once the close is known.
  unfoldable pub graded : WeeklySignal F → F → WeeklySignal F
  unfolding realised verdict
  graded s close =
      let move = realised s.reference_close close s.actual_return_pct in
      record s {
        actual_close = some close;
        actual_return_pct = move;
        was_correct = verdict s.direction move s.was_correct;
      }

  -- One signal of the query `to_grade`, and whether it was scored; `closes` is `_close_on`.
  unfoldable pub grade :
      (closes : ℕ → ℕ → Option F) → (as_of : ℕ) → WeeklySignal F → ℕ × WeeklySignal F
  unfolding graded
  grade closes as_of s = elim s.actual_close [
    | some c ↦ (0, s)
    | none ↦
        if ltb s.target_date as_of
        then (elim (closes s.instrument s.target_date) [ none ↦ (0, s) | some c ↦ (1, graded s c) ])
        else (0, s)
  ]

  -- The whole loop: `scored_now`, and the table after it.
  unfoldable pub grade_all :
      (closes : ℕ → ℕ → Option F) → (as_of : ℕ) → List (WeeklySignal F) → ℕ × List (WeeklySignal F)
  unfolding grade
  grade_all closes as_of [] = (0, [])
  grade_all closes as_of (s ∷ ss) =
      let (n, rest) = grade_all closes as_of ss in
      let (m, s') = grade closes as_of s in (m + n, s' ∷ rest)

  -- What the queries of the hit rate count: sent, graded, and with a target from `cutoff` on and
  -- before `as_of`.
  abbrev pub is_counted : (cutoff as_of : ℕ) → WeeklySignal F → Bool
  is_counted cutoff as_of s = elim s.was_correct [
    | none ↦ false
    | some b ↦ is_sent s.status && (leb cutoff s.target_date && ltb s.target_date as_of)
  ]

  abbrev pub is_hit : WeeklySignal F → Bool
  is_hit s = elim s.was_correct [ none ↦ false | some b ↦ b ]

  -- `.count()` of all that are counted, and of the hits among them.
  unfoldable pub tally : (cutoff as_of : ℕ) → List (WeeklySignal F) → ℕ × ℕ
  tally cutoff as_of [] = (0, 0)
  tally cutoff as_of (s ∷ ss) =
      let (total, hits) = tally cutoff as_of ss in
      if is_counted cutoff as_of s
      then (if is_hit s then (suc total, suc hits) else (suc total, hits))
      else (total, hits)

  -- `recap_weekly_signals` on the table of signals.
  unfoldable pub recap_weekly_signals :
      (closes : ℕ → ℕ → Option F)
      → (as_of window_days : ℕ) → List (WeeklySignal F)
      → Recap × List (WeeklySignal F)
  unfolding grade_all tally
  recap_weekly_signals closes as_of window_days rows =
      let (scored, rows') = grade_all closes as_of rows in
      let (total, hits) = tally (as_of - window_days) as_of rows' in
      let (week, week_hits) = tally (as_of - 7) as_of rows' in
      (
        record {
          scored_now = scored;
          window_total = total;
          window_hits = hits;
          week_total = week;
          week_hits = week_hits;
        },
        rows',
      )

  grade_again :
      (closes : ℕ → ℕ → Option F) (as_of : ℕ) (s : WeeklySignal F)
      → grade closes as_of (grade closes as_of s).1 ≡ (0, (grade closes as_of s).1)
  unfolding grade graded
  grade_again closes as_of s = ground arith

  grade_all_again :
      (closes : ℕ → ℕ → Option F) (as_of : ℕ) (rows : List (WeeklySignal F))
      → grade_all closes as_of (grade_all closes as_of rows).1
        ≡ (0, (grade_all closes as_of rows).1)
  unfolding grade_all
  grade_all_again closes as_of [] = refl
  grade_all_again closes as_of (s ∷ ss) =
      rw (grade_all_again closes as_of ss, grade_again closes as_of s) refl

  -- A second recap of the same day, at the same closes, scores nothing, changes no signal and counts
  -- the same.
  pub recap_weekly_signals-again :
      (closes : ℕ → ℕ → Option F) (as_of window_days : ℕ) (rows : List (WeeklySignal F))
      → let (r, rows') = recap_weekly_signals closes as_of window_days rows in
        recap_weekly_signals closes as_of window_days rows' ≡ (record r { scored_now = 0 }, rows')
  unfolding recap_weekly_signals
  recap_weekly_signals-again closes as_of window_days rows =
      rw (grade_all_again closes as_of rows) refl
