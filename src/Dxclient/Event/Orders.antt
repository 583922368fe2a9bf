-- ===== src/Dxclient/Event/Orders.antt =====
-- The events of order books (dxclient/event.go).
use godxfeed.Common.{ℕ, String}

pub record EventOrder (D : Type 0) : Type 0 where
  pub event_type : String
  pub market_maker : String
  pub event_flags : ℕ
  pub index : ℕ
  pub time : ℕ
  pub time_nano_part : ℕ
  pub sequence : ℕ
  pub source : String
  pub action : String
  pub action_time : ℕ
  pub order_id : ℕ
  pub aux_order_id : ℕ
  pub price : D
  pub size : D
  pub executed_size : D
  pub count : ℕ
  pub exchange_code : String
  pub order_side : String
  pub scope : String
  pub trade_id : ℕ
  pub trade_price : D
  pub trade_size : D
  pub event_symbol : String
  pub event_time : ℕ

pub record EventSpreadOrder (D : Type 0) : Type 0 where
  pub event_type : String
  pub spread_symbol : String
  pub event_flags : ℕ
  pub index : ℕ
  pub time : ℕ
  pub time_nano_part : ℕ
  pub sequence : ℕ
  pub source : String
  pub action : String
  pub action_time : ℕ
  pub order_id : ℕ
  pub aux_order_id : ℕ
  pub price : D
  pub size : D
  pub executed_size : D
  pub count : ℕ
  pub exchange_code : String
  pub order_side : String
  pub scope : String
  pub trade_id : ℕ
  pub trade_price : D
  pub trade_size : D
  pub event_symbol : String
  pub event_time : ℕ

pub record EventAnalyticOrder (D : Type 0) : Type 0 where
  pub event_type : String
  pub iceberg_peak_size : D
  pub iceberg_hidden_size : D
  pub iceberg_executed_size : D
  pub iceberg_type : String
  pub market_maker : String
  pub event_flags : ℕ
  pub index : ℕ
  pub time : ℕ
  pub time_nano_part : ℕ
  pub sequence : ℕ
  pub source : String
  pub action : String
  pub action_time : ℕ
  pub order_id : ℕ
  pub aux_order_id : ℕ
  pub price : D
  pub size : D
  pub executed_size : D
  pub count : ℕ
  pub exchange_code : String
  pub order_side : String
  pub scope : String
  pub trade_id : ℕ
  pub trade_price : ℕ
  pub trade_size : ℕ
  pub event_symbol : String
  pub event_time : ℕ
