-- ===== src/Ledger/Rows.antt =====
-- The rows of the tables, and the database as a record of tables.
use automated_stock_trading.Common.{ℕ, Bool, Option, List}

-- `strategies.signals.Action`
pub data Action : Type 0 where
  buy sell hold : Action

-- `Order.Side`
pub data Side : Type 0 where
  buy sell : Side

-- `Order.Status`
pub data Status : Type 0 where
  pending submitted filled rejected cancelled : Status

-- `Account.Broker`: the one registered broker, or any other text that the column may hold.
pub data Broker : Type 0 where
  paper unregistered : Broker

-- The texts given as `rejection_reason` and `reason`.
pub data Reason : Type 0 where
  blank duplicate_guard no_risk_price no_fill_price insufficient_funds insufficient_position :
      Reason
  daily_loss : ℕ → Reason
  no_equity : Reason
  position_value : (value pct allowed : ℕ) → Reason

-- `strategies.signals.Signal`
pub record Signal : Type 0 where
  pub timestamp : ℕ
  pub action : Action

-- `marketdata.models.PriceBar`
pub record PriceBar : Type 0 where
  pub instrument : ℕ
  pub timestamp : ℕ
  pub open_price : ℕ
  pub high : ℕ
  pub low : ℕ
  pub close : ℕ
  pub volume : ℕ
  pub is_anomaly : Bool

-- `portfolio.models.Account`, as a row and as the object in memory.
pub record Account : Type 0 where
  pub id : ℕ
  pub owner : ℕ
  pub broker : Broker
  pub cash_balance : ℕ

-- `portfolio.models.Position`
pub record Position : Type 0 where
  pub account : ℕ
  pub instrument : ℕ
  pub quantity : ℕ
  pub avg_entry_price : ℕ

-- `execution.models.Order`
pub record Order : Type 0 where
  pub id : ℕ
  pub account : ℕ
  pub instrument : ℕ
  pub strategy : Option ℕ
  pub side : Side
  pub quantity : ℕ
  pub status : Status
  pub filled_quantity : ℕ
  pub filled_price : Option ℕ
  pub rejection_reason : Reason
  pub submitted_at : Option ℕ
  pub filled_at : Option ℕ
  pub created_at : ℕ

-- `execution.models.Trade`
pub record Trade : Type 0 where
  pub order : ℕ
  pub quantity : ℕ
  pub price : ℕ
  pub executed_at : ℕ

-- `risk.models.DailyEquitySnapshot`
pub record DailyEquitySnapshot : Type 0 where
  pub account : ℕ
  pub date : ℕ
  pub opening_equity : ℕ

-- `risk.models.RiskDecision`
pub record RiskDecision : Type 0 where
  pub account : ℕ
  pub instrument : ℕ
  pub strategy : Option ℕ
  pub action : Side
  pub quantity : ℕ
  pub approved : Bool
  pub reason : Reason

-- `User.models.UserProfile`, the two limits.
pub record UserProfile : Type 0 where
  pub max_daily_loss_pct : ℕ
  pub max_position_size_pct : ℕ

-- What `execution.services._notify` hands to `send_alert`.
pub data Alert : Type 0 where
  order_filled : ℕ → Option ℕ → Alert
  order_rejected : ℕ → Reason → Alert

pub record Db : Type 0 where
  pub accounts : ℕ → Option Account
  pub profiles : ℕ → Option UserProfile
  pub bars : List PriceBar
  pub positions : List Position
  pub orders : List Order
  pub next_order : ℕ
  pub trades : List Trade
  pub snapshots : List DailyEquitySnapshot
  pub decisions : List RiskDecision
  pub alerts : List Alert

-- The account object that a call holds in memory, beside the database.
pub record World : Type 0 where
  pub account : Account
  pub db : Db

-- The clock during one call: the moment, and the local date.
pub record Clock : Type 0 where
  pub now : ℕ
  pub today : ℕ

-- What the database columns and `decimal.Decimal` do to an amount, which is not code of the program.
-- `store_cash` is what a column of two decimals keeps of a sum, `store_price` what a column of four
-- keeps of a quotient.
pub record Decimals : Type 0 where
  pub store_cash : ℕ → ℕ
  pub store_price : (total quantity : ℕ) → ℕ
