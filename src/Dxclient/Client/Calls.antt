-- ===== src/Dxclient/Client/Calls.antt =====
-- The methods of the client (dxclient/client.go).
use godxfeed.Common.{
  ℕ, ◌+◌, ◌%◌, ◌^◌, String, Bool, true, false, not, Option, none, some, List, [], ◌∷◌,
  if◌then◌else◌, eqb,
}
use godxfeed.Common.Outcome.{Error, Result, ok, err, fail, wrap, err_client, num}
use godxfeed.Dxclient.Message.{
  MessageBase, FeedRegularSubscription, Message, setup, channel_request, feed_setup,
  feed_subscription,
}
use godxfeed.Dxclient.Client.{
  Event, on_setup, on_auth, on_channel_open, on_feed_config, Outcome, pending, returns, Client,
  await, select_after,
}
use godxfeed.Subscriptions.{FeedSub}

abbrev pub base : String → ℕ → MessageBase
base kind channel = record { kind = kind; channel = channel }

-- Dial waits on nothing but its handler.
unfoldable pub dial_wait : (Message → Option Error) → List Event → Outcome
dial_wait on_reply es = await "" on_reply (record { on_closed = none; on_timer = none }) on_setup es

-- Authenticate, whose AUTH message goes to Send, and whose error is ignored. `early` is what happens
-- between the registration of the handler and the select.
unfoldable pub authenticate_wait : String → List Event → Bool → List Event → Outcome
authenticate_wait token early prefers_death es =
    select_after token (λ m. none) (some (err_client "connection closed during authentication"))
      early prefers_death (on_auth 0) es

unfoldable pub dial_setup : Message
dial_setup = setup (base "SETUP" 0) 60 60 "0.1"

abbrev pub channel_request_of : ℕ → Message
channel_request_of cid =
    channel_request (base "CHANNEL_REQUEST" cid) "FEED" (record { contract = "STREAM" })

abbrev pub feed_setup_of : ℕ → Message
feed_setup_of cid =
    feed_setup (base "FEED_SETUP" cid) "1.0"
      (("Quote", "eventType" ∷ "eventSymbol" ∷ "bidPrice" ∷ "askPrice" ∷ "bidSize" ∷ "askSize" ∷ [])
        ∷ (
          "Greeks",
          "eventType" ∷ "eventSymbol" ∷ "price" ∷ "volatility" ∷ "delta" ∷ "gamma" ∷ "theta" ∷ "rho"
              ∷ "vega" ∷ [],
        )
        ∷ (
          "TheoPrice",
          "eventType" ∷ "eventSymbol" ∷ "price" ∷ "underlyingPrice" ∷ "delta" ∷ "gamma" ∷ "dividend"
              ∷ "interest" ∷ [],
        )
        ∷ (
          "Underlying",
          "eventType" ∷ "eventSymbol" ∷ "volatility" ∷ "frontVolatility" ∷ "backVolatility"
              ∷ "putCallRatio" ∷ [],
        )
        ∷ [])
      "FULL"

-- The call has returned, with the client and the events that are left, or it still waits.
pub data Step : Type 0 where
  blocked : Client → Step
  stopped : Error → Client → List Event → Step
  went_on : Client → List Event → Step

abbrev pub after_wait : (Error → Error) → Client → Outcome → Step
after_wait f c pending = blocked c
after_wait f c (returns none es) = went_on c es
after_wait f c (returns (some e) es) = stopped (f e) c es

abbrev pub after_send :
    (Error → Error) → Client × Option Error → List Event → (Client → Step) → Step
after_send f (c, some e) es next = stopped (f e) c es
after_send f (c, none) es next = next c

abbrev pub after_open : Step → (Client → List Event → Step) → Step
after_open (blocked c) next = blocked c
after_open (stopped e c es) next = stopped (wrap "OpenFeed: open channel: %w" [] e) c es
after_open (went_on c es) next = next c es

abbrev pub opened : ℕ → Step → Step
opened cid (went_on c es) = went_on (record c { feed_channel_id = cid }) es
opened cid s = s

-- The first critical section of OpenFeed.
unfoldable pub reserve_channel : Client → Result (ℕ × Client)
reserve_channel c =
    let cid = (c.max_channel_id + 1) % 2 ^ 64 in
    if not (eqb c.feed_channel_id 0)
    then err (fail "OpenFeed: feed already open on channel %d" (num c.feed_channel_id ∷ []))
    else ok (cid, record c { max_channel_id = cid })

abbrev pub to_wire : List FeedSub → List FeedRegularSubscription
to_wire [] = []
to_wire (s ∷ ss) = record { kind = s.event; symbol = s.symbol } ∷ to_wire ss

-- `marshal` is m.JSON(), and `writes` tells whether the connection takes a message.
module _ (marshal : Message → Option Error) (writes : List Message → Message → Bool) where
  unfoldable pub send : Message → Client → Client × Option Error
  send m c = elim (marshal m) [
    | some e ↦ (c, some e)
    | none ↦
        if c.dead
        then (c, some (err_client "connection closed"))
        else if writes c.written m
        then (record c { written = m ∷ c.written }, none)
        else (record c { dead = true }, some (err_client "connection closed"))
  ]

  -- openChannel
  unfoldable pub open_channel : ℕ → Client → List Event → Step
  unfolding send
  open_channel cid c es =
      after_send (wrap "failed to send channel request: %w" []) (send (channel_request_of cid) c) es
        λ c'.
          after_wait (λ e. e) c'
            (await "" (λ m. none)
              (record {
                on_closed = some (err_client "connection closed during channel open");
                on_timer = none;
              })
              (on_channel_open cid) es)

  -- OpenFeed from its FEED_SETUP on.
  unfoldable pub set_up_feed : ℕ → Client → List Event → Step
  unfolding send
  set_up_feed cid c es =
      after_send (wrap "OpenFeed: feed setup: %w" []) (send (feed_setup_of cid) c) es λ c'.
        after_wait (λ e. e) c'
          (await "" (λ m. none)
            (record {
              on_closed = some (err_client "connection closed during feed setup");
              on_timer =
                  some
                    (fail "OpenFeed: timeout waiting for FEED_CONFIG on channel %d" (num cid ∷ []));
            })
            (on_feed_config cid) es)

  unfoldable pub open_feed : Client → List Event → Step
  unfolding reserve_channel
  open_feed c es = elim (reserve_channel c) [
    | err e ↦ stopped e c es
    | ok (cid, c') ↦
        opened cid (after_open (open_channel cid c' es) λ c'' es'. set_up_feed cid c'' es')
  ]

  -- UpdateSubscription
  unfoldable pub update_subscription : List FeedSub → List FeedSub → Client → Client × Option Error
  unfolding send
  update_subscription add remove c =
      if eqb c.feed_channel_id 0
      then (c, some (fail "UpdateSubscription: feed not open (call OpenFeed first)" []))
      else send
          (feed_subscription (base "FEED_SUBSCRIPTION" c.feed_channel_id) (to_wire add)
            (to_wire remove) false)
          c

-- C(): the messages that a streamer gets before the connection dies and its channel is closed.
unfoldable pub streamed : List Event → List Message
streamed [] = []
streamed (Event.received m ∷ es) = m ∷ streamed es
streamed (Event.closed ∷ es) = []
streamed (Event.timer ∷ es) = streamed es
