-- ===== src/Dxclient/Message.antt =====
-- dxclient/message.go and dxclient/feed.go: the messages of the protocol. Each carries its
-- MessageBase, as the structs embed it. Floats and raw JSON are kept as text.
use godxfeed.Common.{ℕ, String, Bool, List}

pub record MessageBase : Type 0 where
  pub kind : String
  pub channel : ℕ

pub record FeedContract : Type 0 where
  pub contract : String

pub record FeedEventFields : Type 0 where
  pub property_names : String
  pub additional_properties : List String

pub record FeedRegularSubscription : Type 0 where
  pub kind : String
  pub symbol : String

pub record FeedOrderBookSubscription : Type 0 where
  pub kind : String
  pub symbol : String
  pub source : String

pub record FeedTimeSeriesSubscription : Type 0 where
  pub kind : String
  pub symbol : String
  pub from_time : ℕ

pub data Message : Type 0 where
  -- MessageError: error, message
  error : MessageBase → String → String → Message
  -- MessageSetup: keepaliveTimeout, acceptKeepaliveTimeout, version
  setup : MessageBase → ℕ → ℕ → String → Message
  keepalive : MessageBase → Message
  -- MessageAuth: token
  auth : MessageBase → String → Message
  -- MessageAuthState: state, userId
  auth_state : MessageBase → String → String → Message
  -- service, parameters
  channel_request channel_opened : MessageBase → String → FeedContract → Message
  channel_cancel channel_closed : MessageBase → Message
  -- MessageFeedSetup: acceptAggregationPeriod, acceptEventFields, acceptDataFormat
  feed_setup : MessageBase → String → List (String × List String) → String → Message
  -- add, remove, reset
  feed_subscription :
      MessageBase → List FeedRegularSubscription → List FeedRegularSubscription → Bool → Message
  order_book_subscription :
      MessageBase → List FeedOrderBookSubscription → List FeedOrderBookSubscription → Bool → Message
  time_series_subscription :
      MessageBase
      → List FeedTimeSeriesSubscription
      → List FeedTimeSeriesSubscription
      → Bool
      → Message
  -- MessageFeedConfig: aggregationPeriod, eventFields, dataFormat
  feed_config : MessageBase → String → FeedEventFields → String → Message
  -- MessageFeedData: data
  feed_data : MessageBase → String → Message

-- The embedded MessageBase.
abbrev pub base_of : Message → MessageBase
base_of (error b _ _) = b
base_of (setup b _ _ _) = b
base_of (keepalive b) = b
base_of (auth b _) = b
base_of (auth_state b _ _) = b
base_of (channel_request b _ _) = b
base_of (channel_opened b _ _) = b
base_of (channel_cancel b) = b
base_of (channel_closed b) = b
base_of (feed_setup b _ _ _) = b
base_of (feed_subscription b _ _ _) = b
base_of (order_book_subscription b _ _ _) = b
base_of (time_series_subscription b _ _ _) = b
base_of (feed_config b _ _ _) = b
base_of (feed_data b _) = b
