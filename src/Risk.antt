-- ===== src/Risk.antt =====
-- The checks before a trade: risk/checks.py and risk/engine.py. A check returns whether it passed and
-- the reason if it did not; `blank` stands for the empty reason.
pub mod Limits
mod Tests
use automated_stock_trading.Common.{
  ℕ, ◌+◌, ◌*◌, ◌/◌, Bool, true, false, ◌&&◌, Option, none, some, ◌∷◌, ltb, leb, ◌==◌, if◌then◌else◌,
  first,
}
use automated_stock_trading.Ledger.{
  Side, Reason, blank, daily_loss, no_equity, position_value, Account, Position,
  DailyEquitySnapshot, Db, Decimals, Clock, find_position, equity,
}

-- The fallbacks of `risk.engine`, 2.0 and 10.0 percent.
abbrev pub default_max_daily_loss_pct : ℕ
default_max_daily_loss_pct = 200

abbrev pub default_max_position_size_pct : ℕ
default_max_position_size_pct = 1000

-- `_risk_profile`: the limit on the daily loss, and on the size of a position.
unfoldable pub risk_profile : Account → Db → ℕ × ℕ
risk_profile a db = elim (db.profiles a.owner) [
  | none ↦ (default_max_daily_loss_pct, default_max_position_size_pct)
  | some p ↦ (p.max_daily_loss_pct, p.max_position_size_pct)
]

abbrev pub is_snapshot : ℕ → ℕ → DailyEquitySnapshot → Bool
is_snapshot a day s = s.account == a && s.date == day

-- `get_opening_equity`: the object that `get_or_create` has just created still holds the exact equity,
-- while the row keeps what the column stores.
unfoldable pub get_opening_equity : Decimals → Account → ℕ → Db → ℕ × Db
get_opening_equity d a day db = elim (first (is_snapshot a.id day) db.snapshots) [
  | some s ↦ (s.opening_equity, db)
  | none ↦
      let e = equity a db in
      (
        e,
        record db {
          snapshots =
              record { account = a.id; date = day; opening_equity = d.store_cash e } ∷ db.snapshots;
        },
      )
]

-- The test of `check_max_daily_loss` at an opening equity and a current one. The quotient
-- `(opening - current) / opening * 100` is compared with the limit by cross-multiplication: for an
-- opening equity that fits its column of sixteen digits the 28 digits of `decimal` decide alike.
unfoldable pub loss_check : (opening current pct : ℕ) → Bool × Reason
loss_check opening current pct =
    if opening == 0
    then (true, blank)
    else if leb (current * 10000 + pct * opening) (opening * 10000)
    then (false, daily_loss pct)
    else (true, blank)

unfoldable pub check_max_daily_loss : Decimals → Clock → Account → ℕ → Db → Bool × Reason × Db
unfolding get_opening_equity loss_check
check_max_daily_loss d t a pct db =
    let (opening, db') = get_opening_equity d a t.today db in
    let (ok, reason) = loss_check opening (equity a db') pct in (ok, reason, db')

-- `existing.quantity * price`, or 0.
abbrev pub existing_value : Option Position → ℕ → ℕ
existing_value none price = 0
existing_value (some p) price = p.quantity * price

-- The test of `check_max_position_size` for a purchase.
unfoldable pub size_check : (equity_now value pct : ℕ) → Bool × Reason
size_check e value pct =
    if e == 0
    then (false, no_equity)
    else if ltb (e * pct) (value * 10000)
    then (false, position_value value pct (e * pct / 10000))
    else (true, blank)

unfoldable pub check_max_position_size :
    Account → ℕ → Side → (quantity price pct : ℕ) → Db → Bool × Reason
unfolding size_check
check_max_position_size a i Side.sell quantity price pct db = (true, blank)
check_max_position_size a i Side.buy quantity price pct db =
    size_check (equity a db)
      (existing_value (find_position a.id i db.positions) price + quantity * price) pct

-- Both checks of `evaluate`, the second only if the first passes.
unfoldable pub run_checks :
    Decimals → Clock → Account → ℕ → Side → (quantity price : ℕ) → Db → Bool × Reason × Db
unfolding risk_profile check_max_daily_loss check_max_position_size
run_checks d t a i side quantity price db =
    let (loss_pct, size_pct) = risk_profile a db in
    let (ok, reason, db') = check_max_daily_loss d t a loss_pct db in
    if ok
    then (let (fits, why) = check_max_position_size a i side quantity price size_pct db' in
        (fits, why, db'))
    else (false, reason, db')

-- `evaluate`: the verdict, and the row that records it.
unfoldable pub evaluate :
    Decimals
    → Clock
    → Account
    → ℕ
    → Side
    → (quantity price : ℕ) → Option ℕ
    → Db
    → Bool × Reason × Db
unfolding run_checks
evaluate d t a i side quantity price strategy db =
    let (ok, reason, db') = run_checks d t a i side quantity price db in
    (
      ok,
      reason,
      record db' {
        decisions =
            record {
              account = a.id;
              instrument = i;
              strategy = strategy;
              action = side;
              quantity = quantity;
              approved = ok;
              reason = reason;
            }
            ∷ db'.decisions;
      },
    )
