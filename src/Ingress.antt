-- ===== src/Ingress.antt =====
-- service/ingress.go, and the loop of service/service.go that publishes what it parses.
pub mod Laws
pub mod Faithful
use Prim.Native.String
use Prim.Native.String.{String, [], ◌∷◌, ◌++◌, count}
use godxfeed.Common.{
  ℕ, zero, suc, ◌-◌, Bool, true, false, Option, none, some, if◌then◌else◌, ◌==◌, string_eq,
}
use mathlib.Core.List.{List, [], ◌∷◌}
use godxfeed.Common.Outcome.{Error, Result, ok, err, wrap, ◌>>=◌, context}
use godxfeed.Common.Text.{Unicode, has_prefix}
use godxfeed.Subject.{subject_for}
use godxfeed.Subscriptions.{SubKey, Manager, observe}
use godxfeed.Dxclient.Message.{Message, feed_data}

pub record FeedEvent : Type 0 where
  pub subject : String
  pub payload : String
  pub event : String
  pub symbol : String

-- The struct that parseFeedData decodes from each event.
pub record Header : Type 0 where
  pub event_type : String
  pub event_symbol : String

-- The two calls of `json.Unmarshal`, on texts.
pub record FeedDecoder : Type 0 where
  pub array : String → Result (List String)
  pub header : String → Result Header

-- bytes.ReplaceAll(s, old, new) for an old of `width + 1` characters; `skip` characters of an
-- occurrence are still to be passed over.
unfoldable pub replace_from : String → String → ℕ → ℕ → String → String
replace_from old new width skip [] = []
replace_from old new width (suc skip) (c ∷ s) = replace_from old new width skip s
replace_from old new width zero (c ∷ s) =
    let replaced = replace_from old new width width s in
    let kept = replace_from old new width zero s in
    if has_prefix (c ∷ s) old then new ++ replaced else c ∷ kept

unfoldable pub replace_all : String → String → String → String
unfolding replace_from has_prefix
replace_all old new s = replace_from old new (count old - 1) zero s

-- bytes.ReplaceAll(data, []byte(`"NaN"`), []byte(`0.0`))
unfoldable pub sanitize : String → String
unfolding replace_all
sanitize s = replace_all "\"NaN\"" "0.0" s

module _ ⦃u : Unicode⦄ (decoder : FeedDecoder) where
  -- The loop of parseFeedData over the raw events.
  unfoldable pub decode_events : List String → Result (List FeedEvent)
  decode_events [] = ok []
  decode_events (raw ∷ raws) =
      let rest = decode_events raws in
      context (wrap "ingress: parse event header: %w" []) (decoder.header raw) >>= λ hdr.
      rest >>= λ out. ok (
        if hdr.event_symbol == ""
        then out
        else record {
          subject = subject_for hdr.event_type hdr.event_symbol;
          payload = raw;
          event = hdr.event_type;
          symbol = hdr.event_symbol;
        }
          ∷ out)

  unfoldable pub parse_feed_data : String → Result (List FeedEvent)
  unfolding decode_events sanitize
  parse_feed_data text =
      if text == ""
      then ok []
      else context (wrap "ingress: parse data array: %w" []) (decoder.array (sanitize text))
        >>= decode_events

  unfoldable pub feed_events : Message → Result (List FeedEvent)
  unfolding parse_feed_data
  feed_events (feed_data base text) = parse_feed_data text
  feed_events _ = ok []

-- What the loop hands to NATS, newest first, and whether `Publish` returned nil.
-- `key` is the (event, symbol) of the event that was published; the source passes the other two.
pub record Publication : Type 0 where
  pub key : SubKey
  pub subject : String
  pub payload : String
  pub accepted : Bool

pub record Loop : Type 0 where
  pub subs : Manager
  pub published : List Publication
  pub clock : ℕ

-- `publishes` tells whether NATS takes a subject, `tick` is the clock that Observe reads.
module _ (publishes : List Publication → String → Bool) (tick : ℕ → ℕ) where
  -- The inner loop of runIngressLoop.
  unfoldable pub publish_all : List FeedEvent → Loop → Loop
  publish_all [] l = l
  publish_all (ev ∷ evs) l =
      let key : SubKey = record { event = ev.event; symbol = ev.symbol } in
      let taken = publishes l.published ev.subject in
      let sent : Publication = record {
        key = key;
        subject = ev.subject;
        payload = ev.payload;
        accepted = taken;
      } in
      publish_all evs (record {
        subs = if taken then observe l.clock key l.subs else l.subs;
        published = sent ∷ l.published;
        clock = if taken then tick l.clock else l.clock;
      })

  module _ ⦃u : Unicode⦄ (decoder : FeedDecoder) where
    abbrev after_parse : Result (List FeedEvent) → Loop → Loop
    after_parse (ok evs) l = publish_all evs l
    after_parse (err e) l = l

    -- runIngressLoop over the messages that arrive before the feed closes.
    unfoldable pub run_ingress_loop : List Message → Loop → Loop
    unfolding publish_all feed_events
    run_ingress_loop [] l = l
    run_ingress_loop (msg ∷ msgs) l =
        run_ingress_loop msgs (after_parse (feed_events decoder msg) l)
