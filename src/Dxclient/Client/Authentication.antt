-- ===== src/Dxclient/Client/Authentication.antt =====
-- When Authenticate and Dial return, and what.
use Prim.Native.String
use godxfeed.Common.{
  ◌||◌, ◌++◌, Bool, true, false, ◌≡◌, refl, String, Option, none, some, List, [], ◌∷◌, ◌==◌,
  string_eq, if◌then◌else◌, All,
}
use godxfeed.Common.Outcome.{Error, err_client, err_bad_token}
use godxfeed.Dxclient.Message.{Message, setup, auth_state}
use godxfeed.Dxclient.Client.{
  Event, received, closed, timer, Outcome, pending, returns, Wait, await,
}
use godxfeed.Dxclient.Client.Calls.{dial_wait}

-- What of a connection's events tells something about an authentication.
pub data Sign : Type 0 where
  authorized unauthorized gone : Sign

abbrev pub sign_of : Message → List Sign → List Sign
sign_of (auth_state b state uid) ss =
    if state == "AUTHORIZED" then authorized ∷ ss else unauthorized ∷ ss
sign_of _ ss = ss

abbrev pub signs : List Event → List Sign
signs [] = []
signs (received m ∷ es) = sign_of m (signs es)
signs (closed ∷ es) = gone ∷ signs es
signs (timer ∷ es) = signs es

abbrev pub closed_error : Error
closed_error = err_client "connection closed during authentication"

abbrev pub bad_token : String → Error
bad_token token = err_bad_token (String.◌++◌ "bad token: " token)

-- The verdict, by the first signs: one AUTH_STATE that is not AUTHORIZED is forgiven.
abbrev pub verdict : String → List Sign → Option (Option Error)
verdict token [] = none
verdict token (authorized ∷ ss) = some none
verdict token (gone ∷ ss) = some (some closed_error)
verdict token (unauthorized ∷ []) = none
verdict token (unauthorized ∷ authorized ∷ ss) = some none
verdict token (unauthorized ∷ unauthorized ∷ ss) = some (some (bad_token token))
verdict token (unauthorized ∷ gone ∷ ss) = some (some closed_error)

abbrev pub result_of : Outcome → Option (Option Error)
result_of pending = none
result_of (returns r es) = some r

abbrev auth_wait : Wait
auth_wait = record { on_closed = some closed_error; on_timer = none }

-- The signs without the deaths of the connection, and whether there was one.
abbrev pub states : List Sign → List Sign
states [] = []
states (gone ∷ ss) = states ss
states (authorized ∷ ss) = authorized ∷ states ss
states (unauthorized ∷ ss) = unauthorized ∷ states ss

abbrev pub is_gone : List Sign → Bool
is_gone [] = false
is_gone (gone ∷ ss) = true
is_gone (authorized ∷ ss) = is_gone ss
is_gone (unauthorized ∷ ss) = is_gone ss

-- What Authenticate returns where the connection has died before its select.
abbrev pub either : Bool → Option (Option Error) → Option (Option Error)
either prefers_death none = some (some closed_error)
either prefers_death (some r) = if prefers_death then some (some closed_error) else some r

-- The verdict of a call that comes to its select after the signs `early`.
abbrev pub verdict_after : String → List Sign → Bool → List Sign → Option (Option Error)
verdict_after token early prefers_death ss =
    if is_gone early
    then either prefers_death (verdict token (states early))
    else verdict token (early ++ ss)

module _ (token : String) (prefers_death : Bool) (es : List Event) where
  -- What the select returns after the signs `ss` and the events `early`, and perhaps a death.
  abbrev expected : List Sign → Bool → List Event → Option (Option Error)
  expected ss dead early =
      if dead || is_gone (signs early)
      then either prefers_death (verdict token (ss ++ states (signs early)))
      else verdict token (ss ++ (signs early ++ signs es))

abbrev pub IsSetup : Event → Type 0
IsSetup (received (setup b k a v)) = Unit
IsSetup _ = ⊥

-- While no SETUP message comes, Dial does not return, though the connection may have died.
dial_wait_blocks :
    (on_reply : Message → Option Error) (es : List Event)
    → All (λ e. ¬ (IsSetup e)) es
    → dial_wait on_reply es ≡ pending
unfolding dial_wait await
dial_wait_blocks on_reply [] h = refl
dial_wait_blocks on_reply (closed ∷ es) (n, h) = dial_wait_blocks on_reply es h
dial_wait_blocks on_reply (timer ∷ es) (n, h) = dial_wait_blocks on_reply es h
dial_wait_blocks on_reply (received (setup b k a v) ∷ es) (n, h) = absurd (n tt)
dial_wait_blocks on_reply (received m ∷ es) (n, h) = dial_wait_blocks on_reply es h
