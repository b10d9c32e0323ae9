-- ===== src/Backtest/Replayed.antt =====
-- What `_trade_log` of backtesting/metrics.py keeps of the positions.
use automated_stock_trading.Common.{
  ℕ, zero, suc, ◌≤◌, ◌<◌, ◌≡◌, ◌≢◌, refl, ap, sym, true, false, Option, some, List, [], ◌∷◌, ◌&&◌,
  ltb, leb, if◌then◌else◌, Bool-cases, length, All, inl, inr, arith, ◌∙◌,
}
use automated_stock_trading.Floats.{Floats}
use automated_stock_trading.Backtest.Positions.{Position, short, flat, long}
use automated_stock_trading.Backtest.Trades.{
  Point, Trade, same, trade, run_end, entered, run_from, round, log_from, trade_log,
}

same_eq : (a b : Position) → same a b ≡ true → a ≡ b
same_eq short short e = refl
same_eq flat flat e = refl
same_eq long long e = refl
same_eq short flat e = absurd cc
same_eq short long e = absurd cc
same_eq flat short e = absurd cc
same_eq flat long e = absurd cc
same_eq long short e = absurd cc
same_eq long flat e = absurd cc

module _ {F : Type 0} where
  -- The dates go up.
  abbrev pub IsRising : List (Point F) → Type 0
  IsRising [] = Unit
  IsRising (p ∷ ps) = All (λ q. p.date < q.date) ps × IsRising ps

  -- The direction of the trade that is open on a day, from its entry until before its exit.
  unfoldable pub direction_on : (day : ℕ) → List (Trade F) → Position
  direction_on day [] = flat
  direction_on day (t ∷ ts) =
      if leb t.entry_date day && ltb day t.exit_date then t.direction else direction_on day ts

  -- The trades tell the position of each point but the last.
  abbrev pub Tells : List (Trade F) → List (Point F) → Type 0
  Tells ts [] = Unit
  Tells ts (p ∷ []) = Unit
  Tells ts (p ∷ q ∷ qs) = (direction_on p.date ts ≡ p.position) × Tells ts (q ∷ qs)

  -- The trades are none of them flat, and each ends before the next starts, from a day on.
  abbrev pub IsLog : (day : ℕ) → List (Trade F) → Type 0
  IsLog day [] = Unit
  IsLog day (t ∷ ts) =
      (day ≤ t.entry_date)
      × (t.entry_date < t.exit_date)
      × (t.direction ≢ flat)
      × IsLog t.exit_date ts

  IsLog-earlier : (a b : ℕ) (ts : List (Trade F)) → a ≤ b → IsLog b ts → IsLog a ts
  IsLog-earlier a b [] le h = tt
  IsLog-earlier a b (t ∷ ts) le (h, u, n, k) = (omega arith, u, n, k)

  -- Before the first entry the position is flat.
  direction_on-before :
      (day from : ℕ) (ts : List (Trade F)) → IsLog from ts → day < from → direction_on day ts ≡ flat
  unfolding direction_on
  direction_on-before day from [] h lt = refl
  direction_on-before day from (t ∷ ts) (a, b, c, h) lt =
      ground (arith, direction_on-before day t.exit_date ts h)

  direction_on-open :
      (t : Trade F) (ts : List (Trade F)) (day : ℕ) {w : Position}
      → t.entry_date ≤ day
      → day < t.exit_date
      → t.direction ≡ w
      → direction_on day (t ∷ ts) ≡ w
  unfolding direction_on
  direction_on-open t ts day a b c = ground arith

  -- A trade that is over changes nothing.
  Tells-cons :
      (t : Trade F) (ts : List (Trade F)) (p : Point F) (ps : List (Point F))
      → IsRising (p ∷ ps)
      → t.exit_date ≤ p.date
      → Tells ts (p ∷ ps)
      → Tells (t ∷ ts) (p ∷ ps)
  unfolding direction_on
  Tells-cons t ts p [] r le h = tt
  Tells-cons t ts p (q ∷ qs) ((lt, lts), r) le (d, h) =
      (ground arith, Tells-cons t ts q qs r (omega arith) h)

module _ {F : Type 0} ⦃f : Floats F⦄ where
  run_end-date :
      (v : Position) (q : Point F) (rest : List (Point F))
      → IsRising (q ∷ rest)
      → q.date ≤ (run_end v q rest).0.date
  unfolding run_end
  run_end-date v q [] r = omega arith
  run_end-date v q (s ∷ rest) ((lt, lts), r) = ground (arith, run_end-date v s rest r)

  -- What comes from the end of the run on still rises, and is no longer.
  run_end-IsRising :
      (v : Position) (q : Point F) (rest : List (Point F))
      → IsRising (q ∷ rest)
      → IsRising ((run_end v q rest).0 ∷ (run_end v q rest).1)
        × (length (run_end v q rest).1 ≤ length rest)
  unfolding run_end
  run_end-IsRising v q [] r = (r, omega arith)
  run_end-IsRising v q (s ∷ rest) (b, r) = elim (Bool-cases (same q.position v)) [
    | inl e ↦ let (r', le) = run_end-IsRising v s rest r in rw (e, run_end) (r', omega arith)
    | inr e ↦ rw (e, run_end) ((b, r), omega arith)
  ]

  -- The trade of the run tells its points, the trades after it the others.
  run_end-Tells :
      (v : Position) (t : Trade F) (ts : List (Trade F)) (q : Point F) (rest : List (Point F))
      → IsRising (q ∷ rest)
      → t.direction ≡ v
      → t.entry_date ≤ q.date
      → t.exit_date ≡ (run_end v q rest).0.date
      → Tells ts ((run_end v q rest).0 ∷ (run_end v q rest).1)
      → Tells (t ∷ ts) (q ∷ rest)
  unfolding run_end
  run_end-Tells v t ts q [] r d le x h = tt
  run_end-Tells v t ts q (s ∷ rest) ((lt, lts), r) d le x h =
      elim (Bool-cases (same q.position v)) [
        | inl e ↦
            let x' : t.exit_date ≡ (run_end v s rest).0.date = rw (e, run_end) at x in
            (
              direction_on-open t ts q.date le (omega (arith, run_end-date v s rest r))
                  (d ∙ sym (same_eq q.position v e)),
              run_end-Tells v t ts s rest r d (omega arith) x' (rw (e, run_end) at h),
            )
        | inr e ↦
            Tells-cons t ts q (s ∷ rest) ((lt, lts), r) (omega (arith, over e x))
              (rw (e, run_end) at h)
      ]
    where
      over :
          same q.position v ≡ false
          → t.exit_date ≡ (run_end v q (s ∷ rest)).0.date
          → t.exit_date ≡ q.date
      over e x = rw (e, run_end) at x

  module _ (alloc cost_rate : F) where
    -- A log of the points from `p` on that tells their positions.
    abbrev Logs : Option (List (Trade F)) → Point F → List (Point F) → Type 0
    Logs o p ps = (ts : List (Trade F)) × (o ≡ some ts) × IsLog p.date ts × Tells ts (p ∷ ps)

    run_from-Logs :
        (p q : Point F) (rest : List (Point F)) (v : Position)
        → (log : List (Point F) → Option (List (Trade F))) → IsRising (p ∷ q ∷ rest)
        → p.position ≡ v
        → v ≢ flat
        → Logs
            (log ((run_end v q rest).0 ∷ (run_end v q rest).1))
            (run_end v q rest).0
            (run_end v q rest).1
        → Logs (run_from alloc cost_rate p log (run_end v q rest)) p (q ∷ rest)
    unfolding run_from entered trade
    run_from-Logs p q rest v log ((lt, lts), r) at n (ts, made, is_log, tells) =
        let t = trade alloc cost_rate p (run_end v q rest).0 in
        (
          t ∷ ts,
          ap (entered t) made,
          (omega arith, omega (arith, run_end-date v q rest r), (λ e. n (sym at ∙ e)), is_log),
          (
            direction_on-open t ts p.date (omega arith) (omega (arith, run_end-date v q rest r))
                refl,
            run_end-Tells v t ts q rest r at (omega arith) refl tells,
          ),
        )

    log_from-Logs :
        (fuel : ℕ) (p : Point F) (ps : List (Point F))
        → length (p ∷ ps) ≤ fuel
        → IsRising (p ∷ ps)
        → Logs (log_from fuel alloc cost_rate (p ∷ ps)) p ps
    unfolding log_from
    log_from-Logs zero p ps le r = absurd (omega arith)
    log_from-Logs (suc fuel) p [] le r = ([], refl, tt, tt)
    log_from-Logs (suc fuel) p (q ∷ rest) le (b, r) =
        by_position p.position refl λ x after le' r'. log_from-Logs fuel x after le' r'
      where
        by_position :
            (v : Position)
            → p.position ≡ v
            → ((x : Point F) (after : List (Point F))
                → length (x ∷ after) ≤ fuel
                → IsRising (x ∷ after)
                → Logs (log_from fuel alloc cost_rate (x ∷ after)) x after)
            → Logs (round v alloc cost_rate p q rest (log_from fuel alloc cost_rate)) p (q ∷ rest)
        by_position flat at ih =
            let (ts, made, is_log, tells) = ih q rest (omega arith) r in
            (
              ts,
              made,
              IsLog-earlier p.date q.date ts (omega arith) is_log,
              (direction_on-before p.date q.date ts is_log b.0 ∙ sym at, tells),
            )
        by_position short at ih =
            let (r', le') = run_end-IsRising short q rest r in
            run_from-Logs p q rest short (log_from fuel alloc cost_rate) (b, r) at (λ e. cc)
              (ih (run_end short q rest).0 (run_end short q rest).1 (omega arith) r')
        by_position long at ih =
            let (r', le') = run_end-IsRising long q rest r in
            run_from-Logs p q rest long (log_from fuel alloc cost_rate) (b, r) at (λ e. cc)
              (ih (run_end long q rest).0 (run_end long q rest).1 (omega arith) r')

    -- For points whose dates go up, the loops of the trade log end; no trade of the log is flat, each
    -- ends after its start and before the next one starts; and at each point but the last, the trade
    -- that is open on its date has the direction of its position, where no open trade stands for flat.
    pub trade_log-Tells :
        (points : List (Point F))
        → IsRising points
        → (ts : List (Trade F)) × (trade_log alloc cost_rate points ≡ some ts)
          × IsLog 0 ts
          × Tells ts points
    unfolding trade_log log_from
    trade_log-Tells [] r = ([], refl, tt, tt)
    trade_log-Tells (p ∷ ps) r =
        let (ts, made, is_log, tells) =
          log_from-Logs (suc (length (p ∷ ps))) p ps (omega arith) r in
        (ts, made, IsLog-earlier 0 p.date ts (omega arith) is_log, tells)
