-- ===== src/Dxclient/Event/Quotes.antt =====
-- The events of prices and trades (dxclient/event.go).
use godxfeed.Common.{ℕ, String, Bool}

pub record EventQuote (D : Type 0) : Type 0 where
  pub event_type : String
  pub sequence : ℕ
  pub time_nano_part : ℕ
  pub bid_time : ℕ
  pub bid_exchange_code : String
  pub bid_price : D
  pub bid_size : D
  pub ask_time : ℕ
  pub ask_exchange_code : String
  pub ask_price : D
  pub ask_size : D
  pub event_symbol : String
  pub event_time : ℕ

pub record EventProfile (D : Type 0) : Type 0 where
  pub event_type : String
  pub description : String
  pub short_sale_restriction : String
  pub trading_status : String
  pub status_reason : String
  pub halt_start_time : ℕ
  pub halt_end_time : ℕ
  pub high_limit_price : D
  pub low_limit_price : D
  pub high52_week_price : D
  pub low52_week_price : D
  pub beta : D
  pub earnings_per_share : D
  pub dividend_frequency : D
  pub ex_dividend_amount : D
  pub ex_dividend_day_id : ℕ
  pub shares : ℕ
  pub free_float : D
  pub event_symbol : String
  pub event_time : ℕ

pub record EventSummary (D : Type 0) : Type 0 where
  pub event_type : String
  pub day_id : ℕ
  pub day_open_price : D
  pub day_high_price : D
  pub day_low_price : D
  pub day_close_price : D
  pub day_close_price_type : String
  pub prev_day_id : ℕ
  pub prev_day_close_price : D
  pub prev_day_close_price_type : String
  pub prev_day_volume : ℕ
  pub open_interest : ℕ
  pub event_symbol : String
  pub event_time : ℕ

pub record EventCandle (D : Type 0) : Type 0 where
  pub event_type : String
  pub event_symbol : String
  pub event_time : ℕ
  pub event_flags : ℕ
  pub index : ℕ
  pub time : ℕ
  pub sequence : ℕ
  pub count : ℕ
  pub open_price : D
  pub high : D
  pub low : D
  pub close : D
  pub volume : D
  pub vwap : D
  pub bid_volume : ℕ
  pub ask_volume : ℕ
  pub imp_volatility : D
  pub open_interest : ℕ

pub record EventTimeAndSale (D : Type 0) : Type 0 where
  pub event_type : String
  pub event_flags : ℕ
  pub index : ℕ
  pub time : ℕ
  pub time_nano_part : ℕ
  pub sequence : ℕ
  pub exchange_code : String
  pub price : D
  pub size : D
  pub bid_price : D
  pub ask_price : D
  pub exchange_sale_conditions : String
  pub trade_through_exempt : String
  pub aggressor_side : String
  pub spread_leg : Bool
  pub extended_trading_hours : Bool
  pub valid_tick : Bool
  pub kind : String
  pub buyer : String
  pub seller : String
  pub event_symbol : String
  pub event_time : ℕ

pub record EventTrade (D : Type 0) : Type 0 where
  pub event_type : String
  pub time : ℕ
  pub time_nano_part : ℕ
  pub sequence : ℕ
  pub exchange_code : String
  pub price : D
  pub change : D
  pub size : D
  pub day_id : ℕ
  pub day_volume : ℕ
  pub day_turnover : ℕ
  pub tick_direction : String
  pub extended_trading_hours : Bool
  pub event_symbol : String
  pub event_time : ℕ

pub record EventTradeEth (D : Type 0) : Type 0 where
  pub event_type : String
  pub time : ℕ
  pub time_nano_part : ℕ
  pub sequence : ℕ
  pub exchange_code : String
  pub price : D
  pub change : D
  pub size : D
  pub day_id : ℕ
  pub day_volume : ℕ
  pub day_turnover : ℕ
  pub tick_direction : String
  pub extended_trading_hours : Bool
  pub event_symbol : String
  pub event_time : ℕ
