-- ===== src/Examples/Service.antt =====
-- Witnesses of the theorems on connecting, starting and reconnecting.
use godxfeed.Common.{
  All, eqb, if◌then◌else◌, ℕ, arith, String, ◌≡◌, ◌≢◌, refl, true, false, none, some, List, [], ◌∷◌,
  ◌++◌,
}
use godxfeed.Common.Dict.{has}
use godxfeed.Common.Outcome.{Error, ok, err, fail, opaque, wrap}
use godxfeed.Ingress.{FeedDecoder, run_ingress_loop}
use godxfeed.Backoff.{new_backoff}
use godxfeed.Subscriptions.{
  SubKey, key_eq, FeedController, rebind, bulk_add, update_subscription, new_subscription_manager,
  unregistered,
}
use godxfeed.Subscriptions.Wire.{mentions}
use godxfeed.Service.{Service, no_status}
use godxfeed.Service.Connect.{
  TokenData, Attempt, connect, dial_target, cancel_previous, attach_manager, give_up, connected_to,
  dial_and_subscribe, initial_subscribe, start_ingress, quotes,
}
use godxfeed.Service.Reconnect.{
  Round, reconnected, note_attempt, try_attempt, reconnect_loop, reconnect_with_backoff, Session,
  World, running, ingress_with_reconnect, publish_session, tear_down,
}
use godxfeed.Service.Connections.{registered, IsNew, IsLive, dial_and_subscribe_connects}
use godxfeed.Service.Survival.{
  failed_until_client, has_cancelled, Explains, reconnect_loop_keeps_registered,
  reconnect_loop_outcome, reconnect_loop_reaches,
}
use godxfeed.Service.Lifecycle.{
  starts, was_cancelled, start_ingress_registers, start_ingress_stuck,
  ingress_ends_only_when_cancelled,
}
use godxfeed.Examples.{ascii_only, accepting, with_spy}

abbrev token : TokenData
token = record { token = "t"; dx_link_url = ""; level = "api" }

-- An attempt that works, and one whose connection is refused.
abbrev pub good : ℕ → Attempt
good client = record {
  client = client;
  streamer_token = ok token;
  dial = λ url. none;
  authenticate = λ t. none;
  open_feed = none;
}

abbrev bad : ℕ → Attempt
bad client = record (good client) { dial = λ url. some (opaque 1) }

abbrev idle : Service
idle = record {
  dx_endpoint = "streamer";
  dx_force_url = "";
  has_nats = true;
  subs = none;
  dx_client = none;
  dx_client_cancel = none;
  dx_status = no_status;
  cancelled = [];
}

-- A service that lost connection 1.
abbrev pub dropped : Service
dropped = record idle { subs = some with_spy; dx_client_cancel = some 1; cancelled = 1 ∷ [] }

dropped-IsNew : IsNew 3 dropped
dropped-IsNew = record { unused = λ m e k. ground arith }

dial_and_subscribe_connects_example :
    (◌≡◌ {A = ℕ} 3 3)
    × ((dial_and_subscribe accepting (good 3) dropped).0.dx_client ≡ some 3)
    × ((dial_and_subscribe accepting (good 3) dropped).0.dx_status.connected ≡ true)
    × IsLive 3 (dial_and_subscribe accepting (good 3) dropped).0
unfolding dial_and_subscribe connect dial_target cancel_previous attach_manager rebind
    update_subscription connected_to
dial_and_subscribe_connects_example =
    dial_and_subscribe_connects accepting (good 3) dropped 3 dropped-IsNew refl

abbrev round : Attempt → Round
round a = record { jitter = 0; cancelled = false; attempt = a }

abbrev render : Error → String
render e = "error"

-- A controller that refuses what is not for client 4.
abbrev choosy : FeedController
choosy sent fc add remove = if eqb fc 4 then none else some (opaque 2)

abbrev rounds_before : List Round
rounds_before = round (bad 2) ∷ round (good 3) ∷ []

reconnect_loop_reaches_example :
    (c : ℕ) × ((reconnect_loop choosy render
        (rounds_before ++ round (good 4) ∷ [])
        new_backoff
        dropped).1
      ≡ reconnected c)
    × (failed_until_client c
          (rounds_before ++ round (good 4) ∷ [])
          (reconnect_loop choosy render
            (rounds_before ++ round (good 4) ∷ [])
            new_backoff
            dropped).0.cancelled
        ≡ true)
    × ((reconnect_loop choosy render
          (rounds_before ++ round (good 4) ∷ [])
          new_backoff
          dropped).0.dx_client
        ≡ some c)
    × ((reconnect_loop choosy render
          (rounds_before ++ round (good 4) ∷ [])
          new_backoff
          dropped).0.dx_status.connected
        ≡ true)
unfolding has_cancelled
reconnect_loop_reaches_example =
    reconnect_loop_reaches choosy render rounds_before (round (good 4)) [] new_backoff dropped refl
      (record {
        token = token;
        granted = refl;
        dials = λ url. refl;
        authenticates = λ t. refl;
        opens = refl;
      })
      (λ h add. refl)

reconnect_loop_keeps_registered_example :
    registered
      (reconnect_loop accepting render (round (bad 2) ∷ round (good 3) ∷ []) new_backoff dropped).0
    ≡ registered dropped
reconnect_loop_keeps_registered_example =
    reconnect_loop_keeps_registered accepting render (round (bad 2) ∷ round (good 3) ∷ [])
      new_backoff dropped

reconnect_loop_outcome_example :
    Explains
      (round (bad 2) ∷ [])
      new_backoff
      (reconnect_loop accepting render (round (bad 2) ∷ []) new_backoff dropped).0
      (reconnect_loop accepting render (round (bad 2) ∷ []) new_backoff dropped).1
reconnect_loop_outcome_example =
    reconnect_loop_outcome accepting render (round (bad 2) ∷ []) new_backoff dropped

idle-IsNew : IsNew 1 idle
idle-IsNew = record { unused = λ m e k. ground arith }

start_ingress_registers_example :
    IsLive 1 (start_ingress accepting ("SPY" ∷ []) (good 1) idle).0
    × ((k : SubKey)
        → mentions k (quotes ("SPY" ∷ [])) ≡ true
        → has k (registered (start_ingress accepting ("SPY" ∷ []) (good 1) idle).0) ≡ true)
unfolding start_ingress initial_subscribe dial_and_subscribe connect dial_target cancel_previous
    attach_manager connected_to new_subscription_manager bulk_add update_subscription unregistered
    has
start_ingress_registers_example =
    start_ingress_registers accepting ("SPY" ∷ []) (good 1) idle 1 idle-IsNew refl

-- A controller that rejects every call.
abbrev rejecting : FeedController
rejecting sent fc add remove = some (opaque 2)

abbrev further : List (List String × Attempt)
further = ("SPY" ∷ [], good 2) ∷ ([], good 3) ∷ []

start_ingress_stuck_example :
    ((starts rejecting further (start_ingress rejecting ("SPY" ∷ []) (good 1) idle).0).0
      ≡ (start_ingress rejecting ("SPY" ∷ []) (good 1) idle).0)
    × All
        (λ r. r ≡ err (fail "ingress: already started" []))
        (starts rejecting further (start_ingress rejecting ("SPY" ∷ []) (good 1) idle).0).1
unfolding start_ingress initial_subscribe dial_and_subscribe connect dial_target cancel_previous
    attach_manager connected_to new_subscription_manager bulk_add update_subscription unregistered
    has
start_ingress_stuck_example =
    start_ingress_stuck rejecting ("SPY" ∷ []) (good 1) further idle 1
      (wrap "ingress: initial subscribe: %w" [] (wrap "subscriptions: bulk add: %w" [] (opaque 2)))
      refl refl refl refl

abbrev no_decoder : FeedDecoder
no_decoder = record { array = λ text. err (opaque 3); header = λ raw. err (opaque 3) }

-- A connection that is lost, and a second one during which ctx is done.
abbrev sessions : List Session
sessions =
    record { messages = []; cancelled = false; rounds = round (bad 2) ∷ round (good 3) ∷ [] }
    ∷ record { messages = []; cancelled = true; rounds = [] }
    ∷ []

abbrev world : World
world = record { service = dropped; published = []; clock = 1 }

ended :
    (ingress_with_reconnect accepting render
      (λ published subject. true)
      (λ t. t)
      no_decoder
      sessions
      world).1
    ≢ running
unfolding ingress_with_reconnect publish_session tear_down reconnect_with_backoff reconnect_loop
    try_attempt note_attempt dial_and_subscribe connect dial_target cancel_previous attach_manager
    connected_to give_up rebind update_subscription run_ingress_loop
ended q = ground (arith, q)

ingress_ends_only_when_cancelled_example : was_cancelled sessions ≡ true
ingress_ends_only_when_cancelled_example =
    ingress_ends_only_when_cancelled accepting render (λ published subject. true) (λ t. t)
      no_decoder sessions world ended
