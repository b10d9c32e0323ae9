-- ===== src/Modeling/Forward.antt =====
-- That the labels of modeling/targets.py look forward.
use automated_stock_trading.Common.{
  ℕ, ◌+◌, ◌-◌, ◌≤◌, ◌<◌, ◌≡◌, refl, sym, ap, ◌∙◌, subst, Bool, true, ◌==◌, ==_iff, Option,
  Option-cases, none, some, some_inj, List, [], ◌∷◌, leb, inl, inr, Bool-cases, get_elem?,
  IsOrdered, IsOrdered-at, arith,
}
use automated_stock_trading.Floats.{Floats}
use automated_stock_trading.Feed.Dates.{weekday}
use automated_stock_trading.Search.Evaluate.{◌>>=◌}
use automated_stock_trading.Modeling.Targets.{
  Spec, ahead_by, anchored, steps_of, IsValid, target_of,
}
use automated_stock_trading.Modeling.Labels.{
  OhlcvRow, week_key, get_indexer, exit_row, closes_after, is_exit, label_at,
}

module _ {F : Type 0} where
  pub get_indexer-at :
      (ts : ℕ) (bars : List (OhlcvRow F)) (p : ℕ)
      → get_indexer ts bars ≡ some p
      → (b : OhlcvRow F) × (get_elem? bars p ≡ some b) × (b.timestamp ≡ ts)
  unfolding get_indexer
  get_indexer-at ts [] p h = absurd cc
  get_indexer-at ts (b ∷ bs) p h = elim (Bool-cases (b.timestamp == ts)) [
    | inl e ↦
        subst (λ k. (c : OhlcvRow F) × (get_elem? (b ∷ bs) k ≡ some c) × (c.timestamp ≡ ts))
          (some_inj.0 (rw e at h)) (b, refl, (==_iff b.timestamp ts).0 e)
    | inr e ↦ elim (Option-cases (get_indexer ts bs)) [
      | inl n ↦ absurd (none_some (rw (e, n) at h))
      | inr (q, n) ↦
          subst (λ k. (c : OhlcvRow F) × (get_elem? (b ∷ bs) k ≡ some c) × (c.timestamp ≡ ts))
            (some_inj.0 (rw (e, n) at h)) (get_indexer-at ts bs q n)
    ]
  ]
    where
      none_some : none ≡ some p → ⊥
      none_some e = cc

  exit_row-holds :
      (q : OhlcvRow F → Bool) (bars : List (OhlcvRow F)) (b : OhlcvRow F)
      → exit_row q bars ≡ some b
      → q b ≡ true
  unfolding exit_row
  exit_row-holds q [] b h = absurd cc
  exit_row-holds q (x ∷ bars) b h = elim (Option-cases (exit_row q bars)) [
    | inr (c, e) ↦ subst (λ k. q k ≡ true) (some_inj.0 (rw e at h)) (exit_row-holds q bars c e)
    | inl e ↦ elim (Bool-cases (q x)) [
      | inl t ↦ subst (λ k. q k ≡ true) (some_inj.0 (rw (e, t) at h)) t
      | inr t ↦ absurd (none_some (rw (e, t) at h))
    ]
  ]
    where
      none_some : none ≡ some b → ⊥
      none_some e = cc

bind_some :
    {A B : Type 0} (m : Option A) (g : A → Option B) {b : B}
    → (m >>= g) ≡ some b
    → (a : A) × (m ≡ some a) × (g a ≡ some b)
bind_some none g h = absurd cc
bind_some (some a) g h = (a, refl, h)

-- The decisions that `decision_filter` keeps.
abbrev pub Fits : Spec → ℕ → Type 0
Fits (ahead_by t h) day = Unit
Fits (steps_of n) day = Unit
Fits (anchored entry exit) day = weekday day ≡ entry

same_week :
    (entry exit now date : ℕ)
    → 1 ≤ now
    → entry < exit
    → weekday now ≡ entry
    → weekday date ≡ exit
    → week_key date ≡ week_key now
    → (now < date) × (now + exit - weekday now ≡ date)
same_week entry exit now date one lt a b c = (omega arith, omega arith)

abbrev pub IsAfter : Spec → (now date : ℕ) → Type 0
IsAfter spec now date = (now < date) × ((e : ℕ) → target_of spec now ≡ some e → e ≡ date)

module _ {F : Type 0} ⦃f : Floats F⦄ (local_date : ℕ → ℕ) where
  -- There is one bar for each date.
  abbrev pub IsDaily : List (OhlcvRow F) → Type 0
  IsDaily bars = IsOrdered (λ a b. leb (local_date b.timestamp) (local_date a.timestamp)) bars

  IsDaily-at :
      (bars : List (OhlcvRow F)) (p q : ℕ) {a b : OhlcvRow F}
      → IsDaily bars
      → p < q
      → get_elem? bars p ≡ some a
      → get_elem? bars q ≡ some b
      → local_date a.timestamp < local_date b.timestamp
  IsDaily-at bars p q daily lt e g = ground (
    arith,
    IsOrdered-at (λ a b. leb (local_date b.timestamp) (local_date a.timestamp)) bars p q daily lt e
        g,
  )

  pub label_at-IsAfter :
      (bars : List (OhlcvRow F)) (spec : Spec) (p : ℕ) {now : OhlcvRow F} {y : List F}
      {b : OhlcvRow F}
      → ((ts : ℕ) → 1 ≤ local_date ts)
      → IsDaily bars
      → IsValid spec
      → get_elem? bars p ≡ some now
      → Fits spec (local_date now.timestamp)
      → label_at local_date bars spec p ≡ some (y, b)
      → IsAfter spec (local_date now.timestamp) (local_date b.timestamp)
  unfolding label_at
  label_at-IsAfter bars (ahead_by t h) p {now} one daily valid at fits e =
      let (now', first, e1) = bind_some (get_elem? bars p) _ e in
      let (future, second, e2) = bind_some (get_elem? bars (p + h)) _ e1 in
      let same = ap (λ w. w.1) (some_inj.0 e2) in
      (
        subst (λ k. local_date now.timestamp < local_date k.timestamp) same
            (IsDaily-at bars p (p + h) daily (omega arith) at second),
        λ d q. absurd cc,
      )
  label_at-IsAfter bars (steps_of n) p {now} one daily valid at fits e =
      let (closes, first, e1) = bind_some (closes_after bars p n) _ e in
      let (last, second, e2) = bind_some (get_elem? bars (p + n)) _ e1 in
      let same = ap (λ w. w.1) (some_inj.0 e2) in
      (
        subst (λ k. local_date now.timestamp < local_date k.timestamp) same
            (IsDaily-at bars p (p + n) daily (omega arith) at second),
        λ d q. absurd cc,
      )
  label_at-IsAfter bars (anchored entry exit) p {now} {y} {b} one daily (lt, le) at fits e =
      let (now', first, e1) = bind_some (get_elem? bars p) _ e in
      let (last, second, e2) =
        bind_some (exit_row (is_exit local_date exit (week_key (local_date now'.timestamp))) bars) _
          e1 in
      let same = ap (λ w. w.1) (some_inj.0 e2) in
      let here = some_inj.0 (sym first ∙ at) in
      let found = exit_row-holds _ bars last second in
      let (after, meets) =
        same_week entry exit (local_date now.timestamp) (local_date b.timestamp) (one now.timestamp)
          lt fits (subst (λ k. weekday (local_date k.timestamp) ≡ exit) same (ground arith))
          (subst (λ k. week_key (local_date b.timestamp) ≡ week_key (local_date k.timestamp)) here
            (subst (λ k. week_key (local_date k.timestamp) ≡ week_key (local_date now'.timestamp))
              same (ground arith))) in
      (after, λ d q. sym (some_inj.0 q) ∙ meets)
