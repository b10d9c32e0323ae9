-- ===== src/Strategies.antt =====
-- The registry of strategies and the manual one: strategies/registry.py, strategies/manual.py and the
-- rows of strategies/models.py. Keys and classes are known by numbers.
mod Tests
use automated_stock_trading.Common.{
  ℕ, zero, ◌≡◌, ◌≢◌, refl, sym, ◌∙◌, subst, some_inj, get_elem?, Bool, true, false, ◌&&◌, Option,
  none, some, List, [], ◌∷◌, ◌==◌, if◌then◌else◌, length, arith, All, ap, suc, map, Option-cases,
  Bool-cases, inl, inr,
}
use automated_stock_trading.Ledger.{Action, Signal}
use automated_stock_trading.Replay.{Bar}

-- `_REGISTRY`
abbrev pub Registry : Type 0
Registry = List (ℕ × ℕ)

-- `get_strategy_class`; `none` is its `KeyError`.
unfoldable pub get_strategy_class : ℕ → Registry → Option ℕ
get_strategy_class key [] = none
get_strategy_class key ((k, c) ∷ rest) =
    let found = get_strategy_class key rest in if k == key then some c else found

-- `register_strategy(key)(cls)`; `none` is its `ValueError`.
unfoldable pub register_strategy : (key cls : ℕ) → Registry → Option Registry
unfolding get_strategy_class
register_strategy key cls reg = elim (get_strategy_class key reg) [
  | none ↦ some ((key, cls) ∷ reg)
  | some c ↦ if c == cls then some reg else none
]

-- `ManualSignal`
pub record ManualSignal : Type 0 where
  pub instrument : ℕ
  pub date : ℕ
  pub action : Action

-- `by_date.get(date)`, of which a later row for the date replaces an earlier one.
unfoldable pub action_on : (instrument date : ℕ) → List ManualSignal → Option Action
action_on i d [] = none
action_on i d (r ∷ rs) =
    let rest = action_on i d rs in
    elim rest [
      | some a ↦ some a
      | none ↦ if r.instrument == i && r.date == d then some r.action else none
    ]

module _ {F : Type 0} where
  -- The signal for one bar; `date_of` is `timestamp.date()`.
  unfoldable pub signal_for : (date_of : ℕ → ℕ) → ℕ → List ManualSignal → Bar F → Signal
  unfolding action_on
  signal_for date_of i rows b = elim (action_on i (date_of b.timestamp) rows) [
    | none ↦ record { timestamp = b.timestamp; action = Action.hold }
    | some a ↦ record { timestamp = b.timestamp; action = a }
  ]

  -- `ManualSignalStrategy.generate_signals`
  unfoldable pub generate_signals :
      (date_of : ℕ → ℕ) → ℕ → List ManualSignal → List (Bar F) → List Signal
  unfolding signal_for
  generate_signals date_of i rows [] = []
  generate_signals date_of i rows (b ∷ bs) =
      signal_for date_of i rows b ∷ generate_signals date_of i rows bs

-- What the operator entered, for an instrument and a date.
abbrev pub IsFor : ManualSignal → (instrument date : ℕ) → Type 0
IsFor r i d = (r.instrument ≡ i) × (r.date ≡ d)

-- `unique_manual_signal_per_day`: no later row is for the instrument and the date of an earlier one.
abbrev pub IsOnePerDay : List ManualSignal → Type 0
IsOnePerDay [] = Unit
IsOnePerDay (r ∷ rs) = All (λ q. ¬ IsFor q r.instrument r.date) rs × IsOnePerDay rs

abbrev HasNone : List ManualSignal → (instrument date : ℕ) → Type 0
HasNone rows i d = All (λ q. ¬ IsFor q i d) rows

action_on-none : (i d : ℕ) (rows : List ManualSignal) → HasNone rows i d → action_on i d rows ≡ none
unfolding action_on
action_on-none i d [] h = refl
action_on-none i d (r ∷ rs) (no_entry, h) =
    let rest = action_on-none i d rs h in
    elim (Bool-cases (r.instrument == i && r.date == d)) [
      | inl e ↦ absurd (no_entry (ground (arith, e), ground (arith, e)))
      | inr e ↦ rw (rest, e) refl
    ]

HasNone-same :
    (r : ManualSignal) (i d : ℕ) (rs : List ManualSignal)
    → IsFor r i d
    → All (λ q. ¬ IsFor q r.instrument r.date) rs
    → HasNone rs i d
HasNone-same r i d [] own h = tt
HasNone-same r i d (q ∷ rs) (a, b) (no_entry, h) =
    ((λ (x, y). no_entry (x ∙ sym a, y ∙ sym b)), HasNone-same r i d rs (a, b) h)

action_on-some :
    (i d : ℕ) (rows : List ManualSignal) (n : ℕ) {r : ManualSignal}
    → IsOnePerDay rows
    → get_elem? rows n ≡ some r
    → IsFor r i d
    → action_on i d rows ≡ some r.action
unfolding action_on
action_on-some i d [] n one e own = absurd cc
action_on-some i d (q ∷ rs) zero {r} (others, one) e own =
    let same = some_inj.0 e in
    let here = subst (λ k. IsFor k i d) (sym same) own in
    let rest = action_on-none i d rs (HasNone-same q i d rs here others) in
    rw rest (found q here) ∙ ap (λ k. some k.action) same
  where
    found :
        (q : ManualSignal)
        → IsFor q i d
        → (if q.instrument == i && q.date == d then some q.action else none) ≡ some q.action
    found q (a, b) = ground (arith, a, b)
action_on-some i d (q ∷ rs) (suc n) (others, one) e own =
    rw (action_on-some i d rs n one e own) refl

module _ {F : Type 0} where
  signal_on :
      (date_of : ℕ → ℕ) (i : ℕ) (rows : List ManualSignal) (b : Bar F) {a : Action}
      → action_on i (date_of b.timestamp) rows ≡ some a
      → signal_for date_of i rows b ≡ record { timestamp = b.timestamp; action = a }
  unfolding signal_for
  signal_on date_of i rows b e = rw (e, signal_for) refl

  signal_off :
      (date_of : ℕ → ℕ) (i : ℕ) (rows : List ManualSignal) (b : Bar F)
      → action_on i (date_of b.timestamp) rows ≡ none
      → signal_for date_of i rows b ≡ record { timestamp = b.timestamp; action = Action.hold }
  unfolding signal_for
  signal_off date_of i rows b e = rw (e, signal_for) refl

  generate_signals-at :
      (date_of : ℕ → ℕ) (i : ℕ) (rows : List ManualSignal) (bars : List (Bar F)) (k : ℕ) {b : Bar F}
      → get_elem? bars k ≡ some b
      → get_elem? (generate_signals date_of i rows bars) k ≡ some (signal_for date_of i rows b)
  unfolding generate_signals
  generate_signals-at date_of i rows [] k e = absurd cc
  generate_signals-at date_of i rows (c ∷ bars) zero e =
      ap (λ x. some (signal_for date_of i rows x)) (some_inj.0 e)
  generate_signals-at date_of i rows (c ∷ bars) (suc k) e =
      generate_signals-at date_of i rows bars k e

  length-generate_signals :
      (date_of : ℕ → ℕ) (i : ℕ) (rows : List ManualSignal) (bars : List (Bar F))
      → length (generate_signals date_of i rows bars) ≡ length bars
  unfolding generate_signals
  length-generate_signals date_of i rows [] = refl
  length-generate_signals date_of i rows (b ∷ bars) =
      ap suc (length-generate_signals date_of i rows bars)

  -- One signal for each bar, at its place and moment: the action of the row for the instrument and
  -- the date of the bar, wherever in the table it stands, or a hold where there is none.
  abbrev pub IsAsked :
      (date_of : ℕ → ℕ) → ℕ → List ManualSignal → List (Bar F) → List Signal → Type 0
  IsAsked date_of i rows bars signals =
      (length signals ≡ length bars)
      × ((k : ℕ) (b : Bar F)
          → get_elem? bars k ≡ some b
          → ((n : ℕ) (r : ManualSignal)
              → get_elem? rows n ≡ some r
              → IsFor r i (date_of b.timestamp)
              → get_elem? signals k ≡ some (record { timestamp = b.timestamp; action = r.action }))
            × (All (λ r. ¬ IsFor r i (date_of b.timestamp)) rows
                → get_elem? signals k
                  ≡ some (record { timestamp = b.timestamp; action = Action.hold })))

  -- Where no two rows are for one instrument and date, the manual strategy gives exactly one signal for
  -- each bar, at the bar's place and moment: the action of the row for the strategy's instrument and
  -- the bar's date, or HOLD where no row is for them.
  pub generate_signals-IsAsked :
      (date_of : ℕ → ℕ) (i : ℕ) (rows : List ManualSignal) (bars : List (Bar F))
      → IsOnePerDay rows
      → IsAsked date_of i rows bars (generate_signals date_of i rows bars)
  generate_signals-IsAsked date_of i rows bars one = (
    length-generate_signals date_of i rows bars,
    λ k b e.
        let at = generate_signals-at date_of i rows bars k e in
        (
          (λ n r en own.
              at
              ∙ ap some (
                  signal_on date_of i rows b
                    (action_on-some i (date_of b.timestamp) rows n one en own))),
          λ h.
              at
              ∙ ap some
                  (signal_off date_of i rows b (action_on-none i (date_of b.timestamp) rows h)),
        ),
  )

-- What became of a registration: refused, as another class has the key, or done.
abbrev pub IsRegistered : (key cls : ℕ) → Registry → Option Registry → Type 0
IsRegistered key cls reg none = (c : ℕ) × (get_strategy_class key reg ≡ some c) × (c ≢ cls)
IsRegistered key cls reg (some reg') =
    (get_strategy_class key reg' ≡ some cls)
    × ((other : ℕ) → other ≢ key → get_strategy_class other reg' ≡ get_strategy_class other reg)

-- Registering a class under a key is refused only where another class has the key; otherwise the key
-- gives the class, and every other key gives what it gave.
pub register_strategy-IsRegistered :
    (key cls : ℕ) (reg : Registry) → IsRegistered key cls reg (register_strategy key cls reg)
unfolding register_strategy get_strategy_class
register_strategy-IsRegistered key cls reg = elim (Option-cases (get_strategy_class key reg)) [
  | inl e ↦ rw (e, register_strategy) (ground arith, λ other h. ground arith)
  | inr (c, e) ↦ elim (Bool-cases (c == cls)) [
    | inl z ↦ rw (e, z, register_strategy) (ground (arith, e), λ other h. refl)
    | inr z ↦ rw (e, z, register_strategy) (c, e, ground arith)
  ]
]
