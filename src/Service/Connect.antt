-- ===== src/Service/Connect.antt =====
-- dialAndSubscribe and StartIngress (service/service.go).
use Prim.Native.String
use godxfeed.Common.{
  ℕ, String, true, not, Option, none, some, List, [], ◌∷◌, ◌==◌, string_eq, is_some, is_empty,
  if◌then◌else◌,
}
use godxfeed.Common.Outcome.{Error, Result, ok, err, fail, wrap, ◌>>=◌, context}
use godxfeed.Common.Text.{Unicode}
use godxfeed.Subscriptions.{FeedSub, FeedController, new_subscription_manager, rebind, bulk_add}
use godxfeed.Service.{Service, with_manager}

-- service/api/api.go
pub record TokenData : Type 0 where
  pub token : String
  pub dx_link_url : String
  pub level : String

-- What the world answers to one attempt: the client that NewClient makes, and the results of
-- NewStreamerToken and of the client's methods.
pub record Attempt : Type 0 where
  pub client : ℕ
  pub streamer_token : Result TokenData
  pub dial : String → Option Error
  pub authenticate : String → Option Error
  pub open_feed : Option Error

-- if err := f(); err != nil { return …, fmt.Errorf("…: %w", err) }
abbrev pub checked {ℓ} : {A : Type ℓ} → String → Option Error → Result A → Result A
checked text none rest = rest
checked text (some e) rest = err (wrap text [] e)

-- The URL to dial and the token to authenticate with.
unfoldable pub dial_target : Service → Attempt → Result (String × String)
dial_target s a =
    if not (s.dx_force_url == "")
    then ok (s.dx_force_url, "mock")
    else context (wrap "get streamer token: %w" []) a.streamer_token >>= λ td. ok (
      if td.dx_link_url == "" then String.◌++◌ "wss://" s.dx_endpoint else td.dx_link_url,
      td.token,
    )

-- The steps up to the open feed: the URL that was dialled.
unfoldable pub connect : Service → Attempt → Result String
unfolding dial_target
connect s a = dial_target s a >>= λ (url, token). checked "dial: %w" (a.dial url) (
    checked "authenticate: %w" (a.authenticate token)
      (checked "open feed: %w" a.open_feed (ok url)))

-- if s.dxClientCancel != nil { s.dxClientCancel() }
unfoldable pub cancel_previous : Service → Service
cancel_previous s = elim s.dx_client_cancel [
  | none ↦ s
  | some ctx ↦ record s { cancelled = ctx ∷ s.cancelled }
]

-- clientCancel(); return nil, err
unfoldable pub give_up : ℕ → Error → Service → Service × Result ℕ
give_up client e s = (record s { cancelled = client ∷ s.cancelled }, err e)

-- The assignments at the end. The feed is named by its client.
unfoldable pub connected_to : ℕ → String → Service → Service × Result ℕ
connected_to client url s = (
  record s {
    dx_client = some client;
    dx_client_cancel = some client;
    dx_status = record {
      connected = true;
      authenticated = true;
      dx_link_url = url;
      reconnect_attempt = 0;
      last_error = "";
    };
  },
  ok client,
)

-- The pairs that StartIngress builds.
abbrev pub quotes : List String → List FeedSub
quotes [] = []
quotes (sym ∷ syms) = record { event = "Quote"; symbol = sym } ∷ quotes syms

module _ (answer : FeedController) where
  unfoldable pub attach_manager : ℕ → Service → Service × Option Error
  attach_manager client s = elim s.subs [
    | none ↦ (record s { subs = some (new_subscription_manager client) }, none)
    | some m ↦ with_manager s (rebind answer client m)
  ]

  unfoldable pub dial_and_subscribe : Attempt → Service → Service × Result ℕ
  unfolding attach_manager give_up connected_to cancel_previous
  dial_and_subscribe a s =
      let s₀ = cancel_previous s in
      elim (connect s₀ a) [
        | err e ↦ give_up a.client e s₀
        | ok url ↦
            let (s₁, failed) = attach_manager a.client s₀ in
            elim failed [
              | some e ↦ give_up a.client (wrap "rebind subscriptions: %w" [] e) s₁
              | none ↦ connected_to a.client url s₁
            ]
      ]

  module _ ⦃u : Unicode⦄ where
    -- The initial subscriptions. There is a manager here: without one the source would crash. The
    -- goroutine that publishes is started last: `ok feed` says that it was, with the feed it reads.
    unfoldable pub initial_subscribe : List String → ℕ → Service → Service × Result ℕ
    initial_subscribe symbols feed s = elim s.subs [
      | none ↦ (s, ok feed)
      | some m ↦
          if is_empty symbols
          then (s, ok feed)
          else let (m', e) = bulk_add answer (quotes symbols) m in
            elim e [
              | none ↦ (record s { subs = some m' }, ok feed)
              | some x ↦
                  (record s { subs = some m' }, err (wrap "ingress: initial subscribe: %w" [] x))
            ]
    ]

    unfoldable pub start_ingress : List String → Attempt → Service → Service × Result ℕ
    unfolding initial_subscribe dial_and_subscribe
    start_ingress symbols a s =
        if not s.has_nats
        then (s, err (fail "ingress: service has no NATS connection" []))
        else if is_some s.dx_client
        then (s, err (fail "ingress: already started" []))
        else let (s', feed) = dial_and_subscribe a s in
          elim feed [
            | err e ↦ (s', err (wrap "ingress: %w" [] e))
            | ok client ↦ initial_subscribe symbols client s'
          ]
