-- ===== src/Service.antt =====
-- service/service.go: the state of a service that the ingress touches, and the methods that guard the
-- subscription manager.
pub mod Connect
pub mod Connections
pub mod Reconnect
pub mod Attempts
pub mod Survival
pub mod Starts
pub mod Lifecycle
pub mod Symbols
use godxfeed.Common.{ℕ, String, ◌≡◌, Bool, true, false, Option, none, some, List, [], ◌∷◌}
use godxfeed.Common.Outcome.{Error, fail}
use godxfeed.Common.Text.{Unicode}
use godxfeed.Subscriptions.{
  FeedSub, SubKey, SubscriptionInfo, Manager, FeedController, add_sub, remove_sub, bulk_add,
  snapshot,
}

-- service/subscriptions.go
pub record DxLinkStatus : Type 0 where
  pub connected : Bool
  pub authenticated : Bool
  pub dx_link_url : String
  pub reconnect_attempt : ℕ
  pub last_error : String

-- DXLinkStatus{}
unfoldable pub no_status : DxLinkStatus
no_status = record {
  connected = false;
  authenticated = false;
  dx_link_url = "";
  reconnect_attempt = 0;
  last_error = "";
}

-- A client, and the context that its goroutines run under, are named by a number. `cancelled` lists
-- the contexts that were cancelled, which the source does not keep, newest first.
pub record Service : Type 0 where
  pub dx_endpoint : String
  pub dx_force_url : String
  pub has_nats : Bool
  pub subs : Option Manager
  pub dx_client : Option ℕ
  pub dx_client_cancel : Option ℕ
  pub dx_status : DxLinkStatus
  pub cancelled : List ℕ

-- NewService
unfoldable pub new_service : String → String → Bool → Service
new_service dx_endpoint dx_force_url has_nats = record {
  dx_endpoint = dx_endpoint;
  dx_force_url = dx_force_url;
  has_nats = has_nats;
  subs = none;
  dx_client = none;
  dx_client_cancel = none;
  dx_status = no_status;
  cancelled = [];
}

unfoldable pub subscriptions : Service → List SubscriptionInfo
subscriptions s = elim s.subs [ none ↦ [] | some m ↦ snapshot m ]

-- The manager that a method leaves behind, put back in the service.
abbrev pub with_manager : Service → Manager × Option Error → Service × Option Error
with_manager s (m, e) = (record s { subs = some m }, e)

module _ (answer : FeedController) where
  unfoldable pub remove_subscription : SubKey → Service → Service × Option Error
  remove_subscription k s = elim s.subs [
    | none ↦ (s, some (fail "RemoveSubscription: ingress not started" []))
    | some m ↦ with_manager s (remove_sub answer k m)
  ]

  module _ ⦃u : Unicode⦄ where
    unfoldable pub add_subscription : SubKey → Service → Service × Option Error
    add_subscription k s = elim s.subs [
      | none ↦ (s, some (fail "AddSubscription: ingress not started" []))
      | some m ↦ with_manager s (add_sub answer k m)
    ]

    unfoldable pub bulk_add_subscriptions : List FeedSub → Service → Service × Option Error
    bulk_add_subscriptions pairs s = elim s.subs [
      | none ↦ (s, some (fail "BulkAddSubscriptions: ingress not started" []))
      | some m ↦ with_manager s (bulk_add answer pairs m)
    ]
