-- ===== src/Market/Sync.antt =====
-- What a sync leaves in the table of bars.
use automated_stock_trading.Common.{
  ℕ, ◌≡◌, ◌≢◌, refl, Option, none, some, List, [], ◌∷◌, arith, ◌==◌, if◌then◌else◌, first,
  Option-cases, inl, inr,
}
use automated_stock_trading.Ledger.{PriceBar}
use automated_stock_trading.Market.{
  Provider, is_bar, upsert, bar_of, bulk_create, sync_instrument_history, sync_active_instruments,
}

-- The row under a key.
unfoldable pub find_bar : (instrument timestamp : ℕ) → List PriceBar → Option PriceBar
find_bar i t = first (is_bar i t)

-- No two rows have one key.
abbrev pub IsKeyedOnce : List PriceBar → Type 0
IsKeyedOnce [] = Unit
IsKeyedOnce (b ∷ bs) = (find_bar b.instrument b.timestamp bs ≡ none) × IsKeyedOnce bs

find_bar-upsert :
    (i t : ℕ) (b : PriceBar) (rows : List PriceBar)
    → find_bar i t (upsert b rows) ≡ (if is_bar i t b then some b else find_bar i t rows)
unfolding find_bar upsert
find_bar-upsert i t b [] = ground arith
find_bar-upsert i t b (r ∷ rs) = ground (arith, find_bar-upsert i t b rs)

upsert-IsKeyedOnce :
    (b : PriceBar) (rows : List PriceBar) → IsKeyedOnce rows → IsKeyedOnce (upsert b rows)
unfolding upsert find_bar
upsert-IsKeyedOnce b [] h = (refl, tt)
upsert-IsKeyedOnce b (r ∷ rs) h =
    ground (arith, upsert-IsKeyedOnce b rs h.1, find_bar-upsert r.instrument r.timestamp b rs, h.0)

-- The last of the bars at a moment, as a row of the instrument.
unfoldable pub last_at : (instrument timestamp : ℕ) → List PriceBar → Option PriceBar
last_at i t [] = none
last_at i t (b ∷ bs) =
    let rest = last_at i t bs in
    elim rest [ some c ↦ some c | none ↦ if b.timestamp == t then some (bar_of i b) else none ]

-- What stands under a key after the bars of an instrument were written.
abbrev pub after_sync : Option PriceBar → Option PriceBar → Option PriceBar
after_sync (some b) old = some b
after_sync none old = old

find_bar-bulk_create :
    (i t : ℕ) (bars rows : List PriceBar)
    → find_bar i t (bulk_create i bars rows) ≡ after_sync (last_at i t bars) (find_bar i t rows)
unfolding bulk_create last_at
find_bar-bulk_create i t [] rows = refl
find_bar-bulk_create i t (b ∷ bs) rows = ground (
  arith,
  find_bar-bulk_create i t bs (upsert (bar_of i b) rows),
  find_bar-upsert i t (bar_of i b) rows,
)

find_bar-bulk_create_ne :
    (i j t : ℕ) (bars rows : List PriceBar)
    → j ≢ i
    → find_bar j t (bulk_create i bars rows) ≡ find_bar j t rows
unfolding bulk_create
find_bar-bulk_create_ne i j t [] rows h = refl
find_bar-bulk_create_ne i j t (b ∷ bs) rows h = ground (
  arith,
  find_bar-bulk_create_ne i j t bs (upsert (bar_of i b) rows) h,
  find_bar-upsert j t (bar_of i b) rows,
)

-- After the bars of an instrument are written, its row at a moment is the last of them at that
-- moment, or the old row if there is none; and the rows of other instruments are as they were.
pub sync_instrument_history_lem :
    (get_history : Provider) (i t : ℕ) (bars rows : List PriceBar)
    → get_history i ≡ some bars
    → let rows' = (sync_instrument_history get_history i rows).1 in
      (find_bar i t rows' ≡ after_sync (last_at i t bars) (find_bar i t rows))
      × ((j : ℕ) → j ≢ i → find_bar j t rows' ≡ find_bar j t rows)
unfolding sync_instrument_history
sync_instrument_history_lem get_history i t bars rows e =
    rw (e, sync_instrument_history)
      (find_bar-bulk_create i t bars rows, λ j h. find_bar-bulk_create_ne i j t bars rows h)

bulk_create-IsKeyedOnce :
    (i : ℕ) (bars rows : List PriceBar) → IsKeyedOnce rows → IsKeyedOnce (bulk_create i bars rows)
unfolding bulk_create
bulk_create-IsKeyedOnce i [] rows h = h
bulk_create-IsKeyedOnce i (b ∷ bs) rows h =
    bulk_create-IsKeyedOnce i bs (upsert (bar_of i b) rows) (upsert-IsKeyedOnce (bar_of i b) rows h)

-- A sync of all active instruments leaves no two rows for one instrument and moment, if there were
-- none before, whatever the provider returns and wherever it raises.
pub sync_active_instruments-IsKeyedOnce :
    (get_history : Provider) (is : List ℕ) (rows : List PriceBar)
    → IsKeyedOnce rows
    → IsKeyedOnce (sync_active_instruments get_history is rows).1
unfolding sync_active_instruments sync_instrument_history
sync_active_instruments-IsKeyedOnce get_history [] rows h = h
sync_active_instruments-IsKeyedOnce get_history (i ∷ is) rows h =
    elim (Option-cases (get_history i)) [
      | inl e ↦
          rw (e, sync_instrument_history)
            (sync_active_instruments-IsKeyedOnce get_history is rows h)
      | inr (bars, e) ↦
          rw (e, sync_instrument_history)
            (sync_active_instruments-IsKeyedOnce get_history is (bulk_create i bars rows)
              (bulk_create-IsKeyedOnce i bars rows h))
    ]
