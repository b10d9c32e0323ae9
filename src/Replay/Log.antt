-- ===== src/Replay/Log.antt =====
-- The trade log of a replay: round trips, one after the other.
use automated_stock_trading.Common.{
  ℕ, suc, ◌≤◌, ◌<◌, ◌≡◌, ◌⊎◌, ◌&&◌, refl, Option, none, some, List, [], ◌∷◌, ◌++◌, arith, ltb, ◌==◌,
  Bool-cases, Option-cases, inl, inr,
}
use automated_stock_trading.Ledger.{Action}
use automated_stock_trading.Floats.{Floats, ◌⊕◌, ◌⊗◌, ◌⊘◌, lt_float, float}
use automated_stock_trading.Replay.{
  Outcome, ok, raised, Trade, Costs, Book, enter, leave, trade, bps,
}

-- What a step gives, unless it raises.
abbrev pub Gives : {A : Type 0} → (A → Type 0) → Outcome A → Type 0
Gives P (ok s) = P s
Gives P (raised e) = Unit

abbrev pub HasValue {ℓ} : {A : Type ℓ} → Option A → Type 0
HasValue none = ⊥
HasValue (some a) = Unit

-- The moment of an entry that is known.
abbrev pub moment : Option ℕ → ℕ
moment none = 0
moment (some e) = e

module _ {F : Type 0} where
  -- The trades are of one share or more, were entered from `lo` on at a known price and before they
  -- were left, and each was entered after the one before was left; all before `hi`.
  abbrev pub IsLog : ℕ → List (Trade F) → ℕ → Type 0
  IsLog lo [] hi = lo ≤ hi
  IsLog lo (t ∷ ts) hi =
      HasValue t.entry_time
      × HasValue t.entry_price
      × (lo ≤ moment t.entry_time)
      × (moment t.entry_time < t.exit_time)
      × (0 < t.shares)
      × IsLog (suc t.exit_time) ts hi

  IsLog-snoc :
      (lo hi : ℕ) (ts : List (Trade F)) (t : Trade F)
      → IsLog lo ts hi
      → HasValue t.entry_time
      → HasValue t.entry_price
      → hi ≤ moment t.entry_time
      → moment t.entry_time < t.exit_time
      → 0 < t.shares
      → IsLog lo (ts ++ (t ∷ [])) (suc t.exit_time)
  IsLog-snoc lo hi [] t h a b c e g = (a, b, omega arith, e, g, omega arith)
  IsLog-snoc lo hi (u ∷ us) t h a b c e g =
      (h.0, h.1, h.2, h.3, h.4, IsLog-snoc (suc u.exit_time) hi us t h.5 a b c e g)

  IsLog-mono : (lo hi hi' : ℕ) (ts : List (Trade F)) → hi ≤ hi' → IsLog lo ts hi → IsLog lo ts hi'
  IsLog-mono lo hi hi' [] k h = omega arith
  IsLog-mono lo hi hi' (t ∷ ts) k h =
      (h.0, h.1, h.2, h.3, h.4, IsLog-mono (suc t.exit_time) hi hi' ts k h.5)

  -- Before the moment `b`: flat with a log, or holding since an entry after the log.
  abbrev pub IsSound : ℕ → Book F → Type 0
  IsSound b s =
      ((s.shares ≡ 0) × IsLog 0 s.trades b)
      ⊎ ((0 < s.shares)
          × HasValue s.entry_time
          × HasValue s.entry_price
          × (moment s.entry_time < b)
          × IsLog 0 s.trades (moment s.entry_time))

  IsSound-mono : (b b' : ℕ) (s : Book F) → b ≤ b' → IsSound b s → IsSound b' s
  IsSound-mono b b' s k (inl (z, h)) = inl (z, IsLog-mono 0 b b' s.trades k h)
  IsSound-mono b b' s k (inr (p, a, d, m, h)) = inr (p, a, d, omega arith, h)

  IsSound-flat : (b : ℕ) (s : Book F) → s.shares ≡ 0 → IsSound b s → IsLog 0 s.trades b
  IsSound-flat b s z (inl (y, h)) = h
  IsSound-flat b s z (inr (p, a, d, m, h)) = absurd (omega arith)

module _ {F : Type 0} ⦃f : Floats F⦄ where
  enter-IsSound :
      (c : Costs F) (t : ℕ) (price : F) (s : Book F)
      → IsLog 0 s.trades t
      → Gives (IsSound (suc t)) (enter c t price s)
  unfolding enter
  enter-IsSound c t price s h =
      elim (Option-cases (
        f.int_floor_div s.cash
          (price ⊗ (float 1 ⊕ c.slippage_bps ⊘ bps) ⊗ (float 1 ⊕ c.commission_bps ⊘ bps)))) [
            | inl e ↦ rw (e, Gives, enter) tt
            | inr (n, e) ↦
                rw (e, Gives, enter)
                  (elim (Bool-cases (n == 0)) [
                    | inl z ↦
                        rw z (inl (ground arith, IsLog-mono 0 t (suc t) s.trades (omega arith) h))
                    | inr z ↦ rw z (inr (ground arith, tt, tt, omega arith, h))
                  ])
          ]

  leave-IsSound :
      (c : Costs F) (b t : ℕ) (price : F) (s : Book F)
      → b ≤ t
      → 0 < s.shares
      → IsSound b s
      → IsSound (suc t) (leave c t price s)
  unfolding leave
  leave-IsSound c b t price s k pos (inl (z, h)) = absurd (omega arith)
  leave-IsSound c b t price s k pos (inr (p, a, d, m, h)) =
      inl (refl, IsLog-snoc 0 (moment s.entry_time) s.trades _ h a d (omega arith) (omega arith) p)

  pub trade-IsSound :
      (c : Costs F) (a : Action) (b t : ℕ) (price : F) (s : Book F)
      → b ≤ t
      → IsSound b s
      → Gives (IsSound (suc t)) (trade c a t price s)
  unfolding trade
  trade-IsSound c Action.buy b t price s k h =
      elim (Bool-cases (s.shares == 0 && lt_float (float 0) s.cash)) [
        | inl e ↦ rw e (
            enter-IsSound c t price s
              (IsLog-mono 0 b t s.trades k (IsSound-flat b s (ground arith) h)))
        | inr e ↦ rw e (IsSound-mono b (suc t) s (omega arith) h)
      ]
  trade-IsSound c Action.sell b t price s k h = elim (Bool-cases (ltb 0 s.shares)) [
    | inl e ↦ rw e (leave-IsSound c b t price s k (ground arith) h)
    | inr e ↦ rw e (IsSound-mono b (suc t) s (omega arith) h)
  ]
  trade-IsSound c Action.hold b t price s k h = IsSound-mono b (suc t) s (omega arith) h
