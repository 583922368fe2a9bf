-- ===== src/Service/Reconnect.antt =====
-- reconnectWithBackoff and ingressWithReconnect (service/service.go). What the world does is a list:
-- of rounds, one for each wait of the backoff, and of sessions, one for each connection. A list that
-- ends leaves the code waiting.
use godxfeed.Common.{ℕ, String, Bool, true, false, Option, none, some, List, [], ◌∷◌}
use godxfeed.Common.Outcome.{Error, ok, err}
use godxfeed.Common.Text.{Unicode}
use godxfeed.Backoff.{Backoff, new_backoff, next}
use godxfeed.Subscriptions.{FeedController}
use godxfeed.Dxclient.Message.{Message}
use godxfeed.Ingress.{FeedDecoder, Loop, Publication, run_ingress_loop}
use godxfeed.Service.{Service, no_status}
use godxfeed.Service.Connect.{Attempt, dial_and_subscribe, cancel_previous}

-- Whether ctx is done before the delay is over, and the attempt that follows if it is not.
pub record Round : Type 0 where
  pub jitter : ℕ
  pub cancelled : Bool
  pub attempt : Attempt

pub data Reconnection : Type 0 where
  retrying : Backoff → Reconnection
  aborted : Reconnection
  reconnected : ℕ → Reconnection

-- s.dxStatus.ReconnectAttempt = b.attempt
unfoldable pub note_attempt : Backoff → Service → Service
note_attempt b s = record s { dx_status = record s.dx_status { reconnect_attempt = b.attempt } }

-- The messages of one connection, whether ctx was done when its loop returned, and the rounds that
-- follow a lost connection.
pub record Session : Type 0 where
  pub messages : List Message
  pub cancelled : Bool
  pub rounds : List Round

pub data Exit : Type 0 where
  running : Exit
  cancelled_idle : Exit
  aborted_reconnect : Exit

-- The teardown after a lost connection.
unfoldable pub tear_down : Service → Service
unfolding cancel_previous
tear_down s = let s' = cancel_previous s in record s' { dx_client = none; dx_status = no_status }

pub record World : Type 0 where
  pub service : Service
  pub published : List Publication
  pub clock : ℕ

module _ (publishes : List Publication → String → Bool) (tick : ℕ → ℕ) ⦃u : Unicode⦄
    (decoder : FeedDecoder) where
  -- runIngressLoop on the manager of the service.
  unfoldable pub publish_session : List Message → World → World
  unfolding run_ingress_loop
  publish_session msgs w = elim w.service.subs [
    | none ↦ w
    | some m ↦
        let l : Loop = record { subs = m; published = w.published; clock = w.clock } in
        let l' = run_ingress_loop publishes tick decoder msgs l in
        record {
          service = record w.service { subs = some l'.subs };
          published = l'.published;
          clock = l'.clock;
        }
  ]

module _ (answer : FeedController) (render : Error → String) where
  -- One attempt, with the LastError that a failure leaves.
  unfoldable pub try_attempt : Attempt → Service → Service × Option ℕ
  unfolding dial_and_subscribe
  try_attempt a s =
      let (s', feed) = dial_and_subscribe answer a s in
      elim feed [
        | err e ↦ (record s' { dx_status = record s'.dx_status { last_error = render e } }, none)
        | ok client ↦ (s', some client)
      ]

  unfoldable pub reconnect_loop : List Round → Backoff → Service → Service × Reconnection
  unfolding try_attempt next note_attempt
  reconnect_loop [] b s = (s, retrying b)
  reconnect_loop (r ∷ rs) b s =
      let (b', delay) = next r.jitter b in
      let s' = note_attempt b' s in
      elim r.cancelled [
        | true ↦ (s', aborted)
        | false ↦
            let (s'', feed) = try_attempt r.attempt s' in
            elim feed [ some client ↦ (s'', reconnected client) | none ↦ reconnect_loop rs b' s'' ]
      ]

  unfoldable pub reconnect_with_backoff : List Round → Service → Service × Reconnection
  unfolding reconnect_loop
  reconnect_with_backoff rs s = reconnect_loop rs new_backoff s

  module _ (publishes : List Publication → String → Bool) (tick : ℕ → ℕ) ⦃u : Unicode⦄
      (decoder : FeedDecoder) where
    unfoldable pub ingress_with_reconnect : List Session → World → World × Exit
    unfolding publish_session tear_down reconnect_with_backoff
    ingress_with_reconnect [] w = (w, running)
    ingress_with_reconnect (x ∷ xs) w =
        let w' = publish_session publishes tick decoder x.messages w in
        elim x.cancelled [
          | true ↦
              (record w' { service = record w'.service { dx_status = no_status } }, cancelled_idle)
          | false ↦
              let (s, outcome) = reconnect_with_backoff x.rounds (tear_down w'.service) in
              let w'' = record w' { service = s } in
              elim outcome [
                | retrying b ↦ (w'', running)
                | aborted ↦ (w'', aborted_reconnect)
                | reconnected client ↦ ingress_with_reconnect xs w''
              ]
        ]
