-- ===== src/Api.antt =====
-- service/api/api.go: the records of the tastytrade API that the program reads fields of. A field
-- that no code reads is kept only where a record is passed on whole.
use godxfeed.Common.{ℕ, String, Bool}

pub record Response : Type 0 where
  pub data_text : String
  pub error_code : String
  pub error_message : String
  pub context : String

-- DaysToExpiration is an int64.
pub record OptionSymbol : Type 0 where
  pub symbol : String
  pub instrument_type : String
  pub active : Bool
  pub strike_price : String
  pub root_symbol : String
  pub underlying_symbol : String
  pub expiration_date : String
  pub option_type : String
  pub days_to_expiration : ℕ
  pub streamer_symbol : String

pub record EquitySymbol : Type 0 where
  pub symbol : String
  pub streamer_symbol : String
