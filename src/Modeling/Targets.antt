-- ===== src/Modeling/Targets.antt =====
-- The schema of modeling/targets.py: `validate_spec`, `task_of`, `is_multioutput`, `decision_filter`
-- and `derive_target_date`. A date is its number, as in Feed.Dates.
use automated_stock_trading.Common.{
  ℕ, ◌+◌, ◌-◌, ◌≤◌, ◌<◌, ◌≡◌, Bool, Option, none, some, List, ltb, leb, ◌==◌, if◌then◌else◌, select,
  Bool-cases, inl, inr, refl, arith,
}
use automated_stock_trading.Folds.Arguments.{Signed, nonneg, negative}
use automated_stock_trading.Feed.Dates.{weekday}

-- The types with a horizon.
pub data Ahead : Type 0 where
  horizon_close horizon_return direction : Ahead

-- What `spec["type"]` may hold.
pub data SpecType : Type 0 where
  ahead : Ahead → SpecType
  weekday_anchored multistep unknown_type : SpecType

-- The other keys that are read.
pub data Key : Type 0 where
  horizon entry_weekday exit_weekday steps : Key

-- A value of JSON.
pub data Value : Type 0 where
  integer : Signed → Value
  boolean : Bool → Value
  other : Value

-- A specification before it is checked. A dict is its type, if it has one, and its values at the keys.
pub data RawSpec : Type 0 where
  no_dict : RawSpec
  dict : Option SpecType → (Key → Option Value) → RawSpec

-- The `ValueError`s.
pub data SpecError : Type 0 where
  no_type unknown_target late_weekday exit_not_after : SpecError
  small_integer : Key → SpecError

-- The dict `out`.
pub data Spec : Type 0 where
  ahead_by : Ahead → (horizon : ℕ) → Spec
  anchored : (entry_weekday exit_weekday : ℕ) → Spec
  steps_of : (steps : ℕ) → Spec

pub data Checked (A : Type 0) : Type 0 where
  ok : A → Checked A
  error : SpecError → Checked A

infixl 5 ◌>>=◌
abbrev pub ◌>>=◌ : {A B : Type 0} → Checked A → (A → Checked B) → Checked B
ok a >>= f = f a
error e >>= f = error e

-- `_pos_int`
unfoldable pub pos_int : Value → Key → (minimum : ℕ) → Checked ℕ
pos_int (integer (nonneg n)) name minimum =
    if ltb n minimum then error (small_integer name) else ok n
pos_int (integer negative) name minimum = error (small_integer name)
pos_int (boolean b) name minimum = error (small_integer name)
pos_int other name minimum = error (small_integer name)

-- `spec.get(key, default)`
abbrev pub get_or : Option Value → ℕ → Value
get_or none n = integer (nonneg n)
get_or (some v) n = v

-- The two checks of a weekday anchor.
abbrev pub anchor_checked : (entry exit : ℕ) → Checked Spec
anchor_checked entry exit =
    if ltb 6 entry
    then error late_weekday
    else if ltb 6 exit
    then error late_weekday
    else if leb exit entry
    then error exit_not_after
    else ok (anchored entry exit)

-- `validate_spec`
unfoldable pub validate_spec : RawSpec → Checked Spec
unfolding pos_int
validate_spec no_dict = error no_type
validate_spec (dict none get) = error no_type
validate_spec (dict (some unknown_type) get) = error unknown_target
validate_spec (dict (some (ahead t)) get) = do
  h ← pos_int (get_or (get horizon) 1) horizon 1
  ok (ahead_by t h)
validate_spec (dict (some weekday_anchored) get) = do
  entry ← pos_int (get_or (get entry_weekday) 0) entry_weekday 0
  exit ← pos_int (get_or (get exit_weekday) 4) exit_weekday 0
  anchor_checked entry exit
validate_spec (dict (some multistep) get) = do
  n ← pos_int (get_or (get steps) 3) steps 2
  ok (steps_of n)

-- `decision_filter`, on timestamps; `local_date` is the conversion to the exchange's time zone.
abbrev pub filtered : (local_date : ℕ → ℕ) → Spec → List ℕ → List ℕ
filtered local_date (ahead_by t h) index = index
filtered local_date (steps_of n) index = index
filtered local_date (anchored entry exit) index =
    select (λ ts. weekday (local_date ts) == entry) index

unfoldable pub decision_filter : (local_date : ℕ → ℕ) → RawSpec → List ℕ → Checked (List ℕ)
unfolding validate_spec
decision_filter local_date raw index = do
  spec ← validate_spec raw
  ok (filtered local_date spec index)

-- `derive_target_date`
abbrev pub target_of : Spec → ℕ → Option ℕ
target_of (ahead_by t h) day = none
target_of (steps_of n) day = none
target_of (anchored entry exit) day = some (day + exit - weekday day)

unfoldable pub derive_target_date : RawSpec → ℕ → Checked (Option ℕ)
unfolding validate_spec
derive_target_date raw day = do spec ← validate_spec raw; ok (target_of spec day)

-- What a checked specification satisfies.
abbrev pub IsValid : Spec → Type 0
IsValid (ahead_by t h) = 1 ≤ h
IsValid (anchored entry exit) = (entry < exit) × (exit ≤ 6)
IsValid (steps_of n) = 2 ≤ n

abbrev pub Passes : Checked Spec → Type 0
Passes (ok spec) = IsValid spec
Passes (error e) = Unit

pos_int-ok : (v : Value) (k : Key) (least : ℕ) {n : ℕ} → pos_int v k least ≡ ok n → least ≤ n
unfolding pos_int
pos_int-ok (integer (nonneg m)) k least h = ground arith
pos_int-ok (integer negative) k least h = absurd cc
pos_int-ok (boolean b) k least h = absurd cc
pos_int-ok other k least h = absurd cc

anchor_checked-Passes : (entry exit : ℕ) → Passes (anchor_checked entry exit)
anchor_checked-Passes entry exit = elim (Bool-cases (ltb 6 entry)) [
  | inl a ↦ rw a tt
  | inr a ↦ elim (Bool-cases (ltb 6 exit)) [
    | inl b ↦ rw (a, b) tt
    | inr b ↦ elim (Bool-cases (leb exit entry)) [
      | inl c ↦ rw (a, b, c) tt
      | inr c ↦ rw (a, b, c) (ground arith, ground arith)
    ]
  ]
]

Passes-bind :
    {A : Type 0} (m : Checked A) (g : A → Checked Spec)
    → ((a : A) → m ≡ ok a → Passes (g a))
    → Passes (m >>= g)
Passes-bind (ok a) g k = k a refl
Passes-bind (error e) g k = tt

pub validate_spec-Passes : (raw : RawSpec) → Passes (validate_spec raw)
unfolding validate_spec
validate_spec-Passes no_dict = tt
validate_spec-Passes (dict none get) = tt
validate_spec-Passes (dict (some unknown_type) get) = tt
validate_spec-Passes (dict (some (ahead t)) get) =
    Passes-bind (pos_int (get_or (get horizon) 1) horizon 1) _
      (λ h e. pos_int-ok (get_or (get horizon) 1) horizon 1 e)
validate_spec-Passes (dict (some weekday_anchored) get) =
    Passes-bind (pos_int (get_or (get entry_weekday) 0) entry_weekday 0) _ (λ entry _.
      Passes-bind (pos_int (get_or (get exit_weekday) 4) exit_weekday 0) _
        (λ exit _. anchor_checked-Passes entry exit))
validate_spec-Passes (dict (some multistep) get) =
    Passes-bind (pos_int (get_or (get steps) 3) steps 2) _
      (λ n e. pos_int-ok (get_or (get steps) 3) steps 2 e)
