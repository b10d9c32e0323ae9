-- ===== src/Ledger/Filing.antt =====
-- The tables of orders and trades: numbers in order, and each order traded once, if it is filled.
use automated_stock_trading.Common.{
  ℕ, ◌+◌, ◌≤◌, ◌<◌, ◌≡◌, refl, sym, ap, subst, ◌∙◌, true, List, [], ◌∷◌, arith, ◌==◌, if◌then◌else◌,
  All,
}
use automated_stock_trading.Ledger.Rows.{Status, filled, Order, Trade}
use automated_stock_trading.Ledger.Queries.{replace_order}

-- The newest order first, each under a number below the one before it.
abbrev pub IsNumbered : ℕ → List Order → Type 0
IsNumbered n [] = Unit
IsNumbered n (o ∷ os) = (o.id < n) × IsNumbered o.id os

-- What the trades of an order add up to.
abbrev pub traded : ℕ → List Trade → ℕ
traded n [] = 0
traded n (t ∷ ts) = (if t.order == n then t.quantity else 0) + traded n ts

-- What an order in this status has traded.
abbrev pub amount_of : Status → ℕ → ℕ
amount_of filled q = q
amount_of _ q = 0

abbrev pub IsSettled : List Trade → Order → Type 0
IsSettled ts o = traded o.id ts ≡ amount_of o.status o.quantity

pub record IsFiled (next : ℕ) (os : List Order) (ts : List Trade) : Type 0 where
  pub numbered : IsNumbered next os
  pub before : All (λ t. t.order < next) ts
  pub settled : All (IsSettled ts) os

before-suc : (n : ℕ) (ts : List Trade) → All (λ t. t.order < n) ts → All (λ t. t.order < n + 1) ts
before-suc n [] h = tt
before-suc n (t ∷ ts) h = (omega arith, before-suc n ts h.1)

traded-above : (n : ℕ) (ts : List Trade) → All (λ t. t.order < n) ts → traded n ts ≡ 0
traded-above n [] h = refl
traded-above n (t ∷ ts) h = ground (arith, traded-above n ts h.1)

IsSettled-cons :
    (n : ℕ) (t : Trade) (ts : List Trade) (os : List Order)
    → n ≤ t.order
    → IsNumbered n os
    → All (IsSettled ts) os
    → All (IsSettled (t ∷ ts)) os
IsSettled-cons n t ts [] h k s = tt
IsSettled-cons n t ts (o ∷ os) h k s =
    (ground arith, IsSettled-cons o.id t ts os (omega arith) k.1 s.1)

-- A new order that has traded nothing.
pub file_new :
    (n : ℕ) (o : Order) (os : List Order) (ts : List Trade)
    → o.id ≡ n
    → amount_of o.status o.quantity ≡ 0
    → IsFiled n os ts
    → IsFiled (n + 1) (o ∷ os) ts
file_new n o os ts e z f = record {
  numbered = (omega arith, subst (λ m. IsNumbered m os) (sym e) f.numbered);
  before = before-suc n ts f.before;
  settled = (ground (arith, traded-above n ts f.before), f.settled);
}

-- The newest order, saved again in a status that trades nothing.
pub file_refused :
    (n : ℕ) (o o' : Order) (os : List Order) (ts : List Trade)
    → o'.id ≡ o.id
    → amount_of o.status o.quantity ≡ 0
    → amount_of o'.status o'.quantity ≡ 0
    → IsFiled n (o ∷ os) ts
    → IsFiled n (replace_order o' (o ∷ os)) ts
unfolding replace_order
file_refused n o o' os ts e z z' f =
    let same : (o.id == o'.id) ≡ true = ground arith in
    rw same (record {
      numbered = (omega arith, subst (λ m. IsNumbered m os) (sym e) f.numbered.1);
      before = f.before;
      settled = (ap (λ m. traded m ts) e ∙ f.settled.0 ∙ z ∙ sym z', f.settled.1);
    })

-- The newest order, saved again as filled, with its trade.
pub file_filled :
    (n : ℕ) (o o' : Order) (t : Trade) (os : List Order) (ts : List Trade)
    → o'.id ≡ o.id
    → t.order ≡ o.id
    → amount_of o.status o.quantity ≡ 0
    → amount_of o'.status o'.quantity ≡ t.quantity
    → IsFiled n (o ∷ os) ts
    → IsFiled n (replace_order o' (o ∷ os)) (t ∷ ts)
unfolding replace_order
file_filled n o o' t os ts e k z z' f =
    let same : (o.id == o'.id) ≡ true = ground arith in
    let none_yet : traded o'.id ts ≡ 0 = ap (λ m. traded m ts) e ∙ f.settled.0 ∙ z in
    rw same (record {
      numbered = (omega arith, subst (λ m. IsNumbered m os) (sym e) f.numbered.1);
      before = (omega arith, f.before);
      settled = (ground arith, IsSettled-cons o.id t ts os (omega arith) f.numbered.1 f.settled.1);
    })
