-- ===== src/Feed/Dates.antt =====
-- The Monday of a signal: `anchor_monday` of signalfeed/services.py. A date is its number, from 1 at
-- Monday, January 1 of the year 1, as `date.toordinal` counts.
use automated_stock_trading.Common.{
  ℕ, ◌+◌, ◌-◌, ◌%◌, ◌≤◌, ◌<◌, ◌≡◌, arith, leb, ◌==◌, if◌then◌else◌,
}

-- `date.weekday`, from 0 for Monday.
abbrev pub weekday : ℕ → ℕ
weekday d = (d + 6) % 7

-- `anchor_monday`
unfoldable pub anchor_monday : ℕ → ℕ
anchor_monday day =
    if weekday day == 0
    then day
    else if leb (weekday day) 4
    then day - weekday day
    else day + (7 - weekday day)

-- The Friday that `timedelta(days=4)` gives.
abbrev pub friday_of : ℕ → ℕ
friday_of monday = monday + 4

-- From January 1 of the year 1 on, the anchor of a day is a Monday, at most four days before it and at
-- most two after it; and the seven days from the Saturday before a Monday to its Friday are exactly
-- those anchored to it.
pub anchor_monday_lem :
    (day monday : ℕ)
    → 0 < day
    → 0 < monday
    → weekday monday ≡ 0
    → (weekday (anchor_monday day) ≡ 0)
      × (day ≤ anchor_monday day + 4)
      × (anchor_monday day ≤ day + 2)
      × (monday ≤ day + 2 → day ≤ monday + 4 → anchor_monday day ≡ monday)
      × (anchor_monday day ≡ monday → (monday ≤ day + 2) × (day ≤ monday + 4))
unfolding anchor_monday
anchor_monday_lem day monday a b c = (
  ground arith,
  ground arith,
  ground arith,
  λ h k. ground arith,
  λ h. (ground arith, ground arith),
)
