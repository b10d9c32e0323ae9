-- ===== src/Strategies/Tests.antt =====
-- A registry with one class, and two manual entries.
use automated_stock_trading.Common.{ℕ, List, [], ◌∷◌}
use automated_stock_trading.Ledger.{Action}
use automated_stock_trading.Replay.{Bar}
use automated_stock_trading.Strategies.{
  Registry, register_strategy, IsRegistered, register_strategy-IsRegistered, ManualSignal,
  generate_signals, IsOnePerDay, IsAsked, generate_signals-IsAsked,
}

abbrev one_class : Registry
one_class = (1, 10) ∷ []

register_strategy-IsRegistered_example :
    IsRegistered 2 20 one_class (register_strategy 2 20 one_class)
register_strategy-IsRegistered_example = register_strategy-IsRegistered 2 20 one_class

abbrev entered : (date : ℕ) → Action → ManualSignal
entered d a = record { instrument = 3; date = d; action = a }

abbrev bar_on : ℕ → Bar ℕ
bar_on t = record { timestamp = t; open_price = 20; close = 20 }

abbrev two_entries : List ManualSignal
two_entries = entered 5 Action.buy ∷ entered 6 Action.sell ∷ []

-- Their dates differ.
two_entries-IsOnePerDay : IsOnePerDay two_entries
two_entries-IsOnePerDay = (((λ (a, b). cc), tt), (tt, tt))

abbrev two_bars : List (Bar ℕ)
two_bars = bar_on 5 ∷ bar_on 7 ∷ []

generate_signals-IsAsked_example :
    IsAsked (λ t. t) 3 two_entries two_bars (generate_signals (λ t. t) 3 two_entries two_bars)
generate_signals-IsAsked_example =
    generate_signals-IsAsked (λ t. t) 3 two_entries two_bars two_entries-IsOnePerDay
