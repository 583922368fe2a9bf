-- ===== src/Dxclient/Handlers.antt =====
-- dxclient/handlers.go: a handler wrapped in filters. A handler is what it does with a message.
use godxfeed.Common.{
  String, Option, none, some, List, [], ◌∷◌, ℕ, ◌==◌, string_eq, if◌then◌else◌, eqb,
}
use godxfeed.Common.Outcome.{Error}
use godxfeed.Dxclient.Message.{Message, base_of}

abbrev pub MessageHandler : Type 0 → Type 0
MessageHandler E = Message → List E

module _ {E : Type 0} (marshal : Message → Option Error) where
  -- AdaptWithType, AdaptWithChannel: the base is that of the message, if it can be marshalled.
  unfoldable pub adapt_with_type : String → MessageHandler E → MessageHandler E
  adapt_with_type t h m = elim (marshal m) [
    | some e ↦ []
    | none ↦ if (base_of m).kind == t then h m else []
  ]

  unfoldable pub adapt_with_channel : ℕ → MessageHandler E → MessageHandler E
  adapt_with_channel c h m = elim (marshal m) [
    | some e ↦ []
    | none ↦ if eqb (base_of m).channel c then h m else []
  ]

unfoldable pub adapt_handler :
    {E : Type 0} → MessageHandler E → List (MessageHandler E → MessageHandler E) → MessageHandler E
adapt_handler h [] = h
adapt_handler h (opt ∷ opts) = adapt_handler (opt h) opts
