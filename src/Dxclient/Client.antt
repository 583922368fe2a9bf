-- ===== src/Dxclient/Client.antt =====
-- dxclient/client.go: one connection to a dxLink server. A call that blocks takes the events that
-- the connection goes through while it waits; `pending` means that they do not let it return.
pub mod Calls
pub mod Authentication
pub mod Feed
mod Keepalive
use Prim.Native.String
use godxfeed.Common.{
  ℕ, suc, ◌+◌, ◌%◌, ◌^◌, String, Bool, true, false, not, ◌&&◌, ◌||◌, Option, none, some, List, [],
  ◌∷◌, ◌++◌, map, ◌==◌, string_eq, if◌then◌else◌, eqb, ltb,
}
use godxfeed.Common.Outcome.{
  Error, Result, ok, err, fail, wrap, err_client, err_bad_token, str, num,
}
use godxfeed.Dxclient.Message.{
  MessageBase, FeedContract, FeedRegularSubscription, Message, error, setup, keepalive, auth,
  auth_state, channel_request, channel_opened, feed_setup, feed_subscription, feed_config,
  feed_data,
}
use godxfeed.Subscriptions.{FeedSub}

-- The calls of `json.Unmarshal` in the read loop: of the base, and of the whole message at the
-- struct that the type names.
pub record MessageDecoder : Type 0 where
  pub base : String → Result MessageBase
  pub full : String → String → Result Message

abbrev ok_or_none {ℓ} : {A : Type ℓ} → Result A → Option A
ok_or_none (ok a) = some a
ok_or_none (err e) = none

abbrev is_member : String → List String → Bool
is_member x [] = false
is_member x (y ∷ ys) = if x == y then true else is_member x ys

-- The types that the read loop knows.
abbrev pub known_types : List String
known_types =
    "ERROR" ∷ "KEEPALIVE" ∷ "SETUP" ∷ "AUTH_STATE" ∷ "CHANNEL_OPENED" ∷ "FEED_CONFIG" ∷ "FEED_DATA"
    ∷ []

-- What the read loop makes of one frame; `none` is a `continue`, after a log line.
unfoldable pub read_message : MessageDecoder → String → Option Message
read_message decoder b = elim (decoder.base b) [
  | err e ↦ none
  | ok mb ↦ if is_member mb.kind known_types then ok_or_none (decoder.full mb.kind b) else none
]

-- What happens to a connection: a message is dispatched to the handlers, it dies, or the timer of
-- 30 seconds that the call has started fires.
pub data Event : Type 0 where
  received : Message → Event
  closed timer : Event

-- The handlers that the calls register, by what they capture.
pub data Handler : Type 0 where
  on_setup : Handler
  -- the number of AUTH_STATE messages so far that were not AUTHORIZED
  on_auth : ℕ → Handler
  on_channel_open on_feed_config : ℕ → Handler

-- A handler stays registered, or it removes itself and hands an error or nil to the call.
pub data Reaction : Type 0 where
  stay : Handler → Reaction
  finish : Option Error → Reaction

pub data Outcome : Type 0 where
  pending : Outcome
  returns : Option Error → List Event → Outcome

pub record Client : Type 0 where
  pub max_channel_id : ℕ
  pub feed_channel_id : ℕ
  -- what the write loop has written, newest first
  pub written : List Message
  pub dead : Bool

unfoldable pub new_client : Client
new_client = record { max_channel_id = 0; feed_channel_id = 0; written = []; dead = false }

unfoldable pub react : String → (Message → Option Error) → Handler → Message → Reaction
react token on_reply on_setup (setup b k a v) = finish (on_reply (setup b k a v))
react token on_reply on_setup m = stay on_setup
react token on_reply (on_auth n) (auth_state b state uid) =
    if not (state == "AUTHORIZED")
    then (if ltb 1 (n + 1)
        then finish (some (err_bad_token (String.◌++◌ "bad token: " token)))
        else stay (on_auth (n + 1)))
    else finish none
react token on_reply (on_auth n) m = stay (on_auth n)
react token on_reply (on_channel_open cid) (channel_opened b service contract) =
    if eqb b.channel cid then finish none else stay (on_channel_open cid)
react token on_reply (on_channel_open cid) m = stay (on_channel_open cid)
react token on_reply (on_feed_config cid) (feed_config b p fields format) =
    if eqb b.channel cid then finish none else stay (on_feed_config cid)
react token on_reply (on_feed_config cid) m = stay (on_feed_config cid)

-- How a call waits: what it returns when the connection dies, or when its timer fires; `none` if
-- it does not look at that.
pub record Wait : Type 0 where
  pub on_closed : Option Error
  pub on_timer : Option Error

abbrev or_else : Option Error → List Event → Outcome → Outcome
or_else (some e) es rest = returns (some e) es
or_else none es rest = rest

-- What a call finds when it comes to its select: its handler still listens, or has a verdict that
-- it offers; and whether the connection has died.
pub data Found : Type 0 where
  listening : Handler → Bool → Found
  offering : Option Error → Bool → Found

abbrev pub has_died : List Event → Bool
has_died [] = false
has_died (closed ∷ es) = true
has_died (timer ∷ es) = has_died es
has_died (received m ∷ es) = has_died es

module _ (token : String) (on_reply : Message → Option Error) where
  unfoldable pub await : Wait → Handler → List Event → Outcome
  unfolding react
  await w h [] = pending
  await w h (closed ∷ es) = let rest = await w h es in or_else w.on_closed es rest
  await w h (timer ∷ es) = let rest = await w h es in or_else w.on_timer es rest
  await w h (received m ∷ es) = elim (react token on_reply h m) [
    | stay h' ↦ await w h' es
    | finish r ↦ returns r es
  ]

  -- The events from the time when the handler is registered. One that offers its verdict holds up the
  -- read loop, so nothing is received after it.
  unfoldable pub before_select : Handler → Bool → List Event → Found
  unfolding react
  before_select h dead [] = listening h dead
  before_select h dead (closed ∷ es) = before_select h true es
  before_select h dead (timer ∷ es) = before_select h dead es
  before_select h dead (received m ∷ es) = elim (react token on_reply h m) [
    | stay h' ↦ before_select h' dead es
    | finish r ↦ offering r (dead || has_died es)
  ]

  -- The select, with the events from then on: with the verdict and the death both there, it takes
  -- either, as `prefers_death` says.
  unfoldable pub settle : Option Error → Bool → List Event → Found → Outcome
  unfolding await
  settle on_closed prefers_death es (listening h true) = returns on_closed es
  settle on_closed prefers_death es (listening h false) =
      await (record { on_closed = on_closed; on_timer = none }) h es
  settle on_closed prefers_death es (offering r true) =
      returns (if prefers_death then on_closed else r) es
  settle on_closed prefers_death es (offering r false) = returns r es

  -- A call that comes to its select after the events `early`.
  unfoldable pub select_after : Option Error → List Event → Bool → Handler → List Event → Outcome
  unfolding before_select settle
  select_after on_closed early prefers_death h es =
      settle on_closed prefers_death es (before_select h false early)
