-- ===== src/Ledger/Positions.antt =====
-- The table of positions under its three operations.
use automated_stock_trading.Common.{
  ℕ, ◌<◌, ◌≡◌, ◌≢◌, ◌⊎◌, refl, none, some, List, [], ◌∷◌, arith, All,
}
use automated_stock_trading.Ledger.Rows.{Position}
use automated_stock_trading.Ledger.Queries.{find_position, save_position, delete_position}

-- No two rows are of one account and one instrument.
abbrev pub IsUnique : List Position → Type 0
IsUnique [] = Unit
IsUnique (p ∷ ps) = (find_position p.account p.instrument ps ≡ none) × IsUnique ps

-- How many units of an instrument an account holds.
unfoldable pub units : ℕ → ℕ → List Position → ℕ
units a i ps = elim (find_position a i ps) [ none ↦ 0 | some p ↦ p.quantity ]

pub find_position-save_position :
    (p : Position) (ps : List Position)
    → find_position p.account p.instrument (save_position p ps) ≡ some p
unfolding find_position save_position
find_position-save_position p [] = ground arith
find_position-save_position p (q ∷ qs) = ground (arith, find_position-save_position p qs)

pub find_position-save_position_ne :
    (a i : ℕ) (p : Position) (ps : List Position)
    → (a ≢ p.account) ⊎ (i ≢ p.instrument)
    → find_position a i (save_position p ps) ≡ find_position a i ps
unfolding find_position save_position
find_position-save_position_ne a i p [] h = ground arith
find_position-save_position_ne a i p (q ∷ qs) h =
    ground (arith, find_position-save_position_ne a i p qs h)

pub find_position-delete_position :
    (a i : ℕ) (ps : List Position) → IsUnique ps → find_position a i (delete_position a i ps) ≡ none
unfolding find_position delete_position
find_position-delete_position a i [] u = refl
find_position-delete_position a i (q ∷ qs) u =
    ground (arith, find_position-delete_position a i qs u.1)

pub find_position-delete_position_ne :
    (a i b j : ℕ) (ps : List Position)
    → (a ≢ b) ⊎ (i ≢ j)
    → find_position a i (delete_position b j ps) ≡ find_position a i ps
unfolding find_position delete_position
find_position-delete_position_ne a i b j [] h = refl
find_position-delete_position_ne a i b j (q ∷ qs) h =
    ground (arith, find_position-delete_position_ne a i b j qs h)

pub save_position-IsUnique :
    (p : Position) (ps : List Position) → IsUnique ps → IsUnique (save_position p ps)
unfolding save_position find_position
save_position-IsUnique p [] u = (refl, tt)
save_position-IsUnique p (q ∷ qs) u = ground (
  arith,
  save_position-IsUnique p qs u.1,
  find_position-save_position_ne q.account q.instrument p qs,
)

pub delete_position-IsUnique :
    (a i : ℕ) (ps : List Position) → IsUnique ps → IsUnique (delete_position a i ps)
unfolding delete_position find_position
delete_position-IsUnique a i [] u = tt
delete_position-IsUnique a i (q ∷ qs) u = ground (
  arith,
  delete_position-IsUnique a i qs u.1,
  find_position-delete_position_ne q.account q.instrument a i qs,
)

-- A row that is open has a quantity.
abbrev pub IsOpen : Position → Type 0
IsOpen p = 0 < p.quantity

pub save_position-IsOpen :
    (p : Position) (ps : List Position) → IsOpen p → All IsOpen ps → All IsOpen (save_position p ps)
unfolding save_position
save_position-IsOpen p [] h k = (h, tt)
save_position-IsOpen p (q ∷ qs) h k = ground (arith, save_position-IsOpen p qs h k.1)

pub delete_position-IsOpen :
    (a i : ℕ) (ps : List Position) → All IsOpen ps → All IsOpen (delete_position a i ps)
unfolding delete_position
delete_position-IsOpen a i [] k = tt
delete_position-IsOpen a i (q ∷ qs) k = ground (arith, delete_position-IsOpen a i qs k.1)

-- A row that is found has the key asked for, and is among the rows.
pub find_position_key :
    (a i : ℕ) {p : Position} (ps : List Position)
    → find_position a i ps ≡ some p
    → (p.account ≡ a) × (p.instrument ≡ i)
unfolding find_position
find_position_key a i [] e = ground arith
find_position_key a i {p} (q ∷ qs) e = ground (arith, find_position_key a i {p = p} qs)

pub find_position-IsOpen :
    (a i : ℕ) {p : Position} (ps : List Position)
    → All IsOpen ps
    → find_position a i ps ≡ some p
    → IsOpen p
unfolding find_position
find_position-IsOpen a i [] k e = ground arith
find_position-IsOpen a i {p} (q ∷ qs) k e = ground (arith, find_position-IsOpen a i {p = p} qs k.1)
