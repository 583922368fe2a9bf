-- ===== src/Dxclient/Client/Feed.antt =====
-- OpenFeed and UpdateSubscription.
use godxfeed.Common.{ℕ, some, ◌+◌, ◌≡◌, ◌≢◌, Bool, false, Option, none, List, [], ◌∷◌, arith}
use godxfeed.Common.Outcome.{Error}
use godxfeed.Dxclient.Message.{Message, feed_subscription}
use godxfeed.Dxclient.Client.{Event, Client}
use godxfeed.Dxclient.Client.Calls.{
  send, channel_request_of, feed_setup_of, Step, blocked, stopped, went_on, open_channel,
  set_up_feed, open_feed, update_subscription, base, to_wire,
}
use godxfeed.Subscriptions.{FeedSub}

abbrev pub client_of : Step → Client
client_of (blocked c) = c
client_of (stopped e c es) = c
client_of (went_on c es) = c

-- What a successful OpenFeed has done to the client.
pub record IsOpened (c c' : Client) : Type 0 where
  pub feed : c'.feed_channel_id ≡ c.max_channel_id + 1
  pub max : c'.max_channel_id ≡ c.max_channel_id + 1
  pub frames :
      c'.written
      ≡ feed_setup_of (c.max_channel_id + 1) ∷ channel_request_of (c.max_channel_id + 1) ∷ c.written

-- The frame of an update that returned nil, on a channel, before what was written.
abbrev pub with_frame : ℕ → List FeedSub → List FeedSub → Option Error → List Message → List Message
with_frame cid add remove none w =
    feed_subscription (base "FEED_SUBSCRIPTION" cid) (to_wire add) (to_wire remove) false ∷ w
with_frame cid add remove (some e) w = w

abbrev pub frames_of :
    ℕ → List (List FeedSub × List FeedSub) → List (Option Error) → List Message → List Message
frames_of cid ((add, remove) ∷ us) (e ∷ es) w = frames_of cid us es (with_frame cid add remove e w)
frames_of cid us es w = w

module _ (marshal : Message → Option Error) (writes : List Message → Message → Bool) where
  -- An OpenFeed that waits or fails leaves the feed as it was.
  open_feed_not_opened :
      (c : Client) (es : List Event)
      → ((c' : Client) (rest : List Event) → open_feed marshal writes c es ≢ went_on c' rest)
      → (client_of (open_feed marshal writes c es)).feed_channel_id ≡ c.feed_channel_id
  unfolding open_feed open_channel set_up_feed send
  open_feed_not_opened c es h = grind arith

  -- Calls of UpdateSubscription, one after the other: the client after them and what each returned.
  unfoldable pub updates :
      List (List FeedSub × List FeedSub) → Client → Client × List (Option Error)
  updates [] c = (c, [])
  updates ((add, remove) ∷ us) c =
      let (c', e) = update_subscription marshal writes add remove c in
      let (c'', es) = updates us c' in (c'', e ∷ es)

  -- Before OpenFeed, UpdateSubscription fails and sends nothing.
  pub update_subscription_not_open :
      (c : Client) (add remove : List FeedSub)
      → c.feed_channel_id ≡ 0
      → ((update_subscription marshal writes add remove c).0 ≡ c)
        × ((update_subscription marshal writes add remove c).1 ≢ none)
  unfolding update_subscription
  update_subscription_not_open c add remove h = ground arith
