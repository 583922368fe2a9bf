-- ===== src/Examples/Client.antt =====
-- Witnesses of the theorems on the dxLink client.
use godxfeed.Common.{Bool, true, false, Option, none, List, [], ◌∷◌}
use godxfeed.Common.Outcome.{Error}
use godxfeed.Subscriptions.{FeedSub}
use godxfeed.Dxclient.Message.{Message, auth_state, channel_opened, feed_config}
use godxfeed.Dxclient.Client.{Event, received, timer, Client}
use godxfeed.Dxclient.Client.Calls.{base, channel_request_of, feed_setup_of}
use godxfeed.Examples.{aapl_quote}

-- The server asks for a token, the client sends it, and the server accepts it.
abbrev handshake : List Event
handshake =
    received (auth_state (base "AUTH_STATE" 0) "UNAUTHORIZED" "")
    ∷ timer
    ∷ received (auth_state (base "AUTH_STATE" 0) "AUTHORIZED" "user")
    ∷ []

abbrev marshals : Message → Option Error
marshals m = none

abbrev writable : List Message → Message → Bool
writable written m = true

-- The first channel is confirmed and configured.
abbrev channel_replies : List Event
channel_replies =
    received (channel_opened (base "CHANNEL_OPENED" 1) "FEED" (record { contract = "STREAM" }))
    ∷ received (
        feed_config (base "FEED_CONFIG" 1) "1.0"
          (record { property_names = "Quote"; additional_properties = [] }) "FULL")
    ∷ []

abbrev opened_client : Client
opened_client = record {
  max_channel_id = 1;
  feed_channel_id = 1;
  written = feed_setup_of 1 ∷ channel_request_of 1 ∷ [];
  dead = false;
}

abbrev two_updates : List (List FeedSub × List FeedSub)
two_updates = (aapl_quote ∷ [], []) ∷ ([], aapl_quote ∷ []) ∷ []
