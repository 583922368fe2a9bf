-- ===== src/Dxclient/Event/Options.antt =====
-- The events of options (dxclient/event.go).
use godxfeed.Common.{ℕ, String, Bool}

pub record EventGreeks (D : Type 0) : Type 0 where
  pub event_type : String
  pub event_flags : ℕ
  pub index : ℕ
  pub time : ℕ
  pub sequence : ℕ
  pub price : D
  pub volatility : D
  pub delta : D
  pub gamma : D
  pub theta : D
  pub rho : D
  pub vega : D
  pub event_symbol : String
  pub event_time : ℕ

pub record EventTheoPrice (D : Type 0) : Type 0 where
  pub event_type : String
  pub event_flags : ℕ
  pub index : ℕ
  pub time : ℕ
  pub sequence : ℕ
  pub price : D
  pub underlying_price : D
  pub delta : D
  pub gamma : D
  pub dividend : D
  pub interest : D
  pub event_symbol : String
  pub event_time : ℕ

pub record EventUnderlying (D : Type 0) : Type 0 where
  pub event_type : String
  pub event_flags : ℕ
  pub index : ℕ
  pub time : ℕ
  pub sequence : ℕ
  pub volatility : D
  pub front_volatility : D
  pub back_volatility : D
  pub call_volume : ℕ
  pub put_volume : ℕ
  pub put_call_ratio : D
  pub event_symbol : String
  pub event_time : ℕ

pub record EventOptionSale (D : Type 0) : Type 0 where
  pub event_type : String
  pub event_flags : ℕ
  pub index : ℕ
  pub time : ℕ
  pub time_nano_part : ℕ
  pub sequence : ℕ
  pub exchange_code : String
  pub price : D
  pub size : D
  pub bid_price : D
  pub ask_price : D
  pub exchange_sale_conditions : String
  pub trade_through_exempt : String
  pub aggressor_side : String
  pub spread_leg : Bool
  pub extended_trading_hours : Bool
  pub valid_tick : Bool
  pub kind : String
  pub underlying_price : D
  pub volatility : D
  pub delta : D
  pub option_symbol : String
  pub event_symbol : String
  pub event_time : ℕ

pub record EventSeries (D : Type 0) : Type 0 where
  pub event_type : String
  pub event_flags : ℕ
  pub index : ℕ
  pub time : ℕ
  pub sequence : ℕ
  pub expiration : ℕ
  pub volatility : D
  pub call_volume : ℕ
  pub put_volume : ℕ
  pub put_call_ratio : D
  pub forward_price : D
  pub dividend : D
  pub interest : D
  pub event_symbol : String
  pub event_time : ℕ
