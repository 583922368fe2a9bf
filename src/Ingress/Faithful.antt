-- ===== src/Ingress/Faithful.antt =====
-- Whatever the ingress has handed to NATS stands for its payload.
use godxfeed.Common.{ℕ, String, ◌≡◌, sym, Bool, List, [], ◌∷◌, arith, All, inl, inr}
use mathlib.Core.Path.{subst}
use godxfeed.Common.Outcome.{ok, Result-cases}
use godxfeed.Common.Text.{Unicode}
use godxfeed.Dxclient.Message.{Message, feed_data}
use godxfeed.Ingress.{
  FeedEvent, FeedDecoder, Publication, Loop, publish_all, parse_feed_data, feed_events, after_parse,
  run_ingress_loop,
}
use godxfeed.Ingress.Laws.{IsFaithful, parse_feed_data_sound}
use godxfeed.Subject.{subject_for}

module _ ⦃u : Unicode⦄ (decoder : FeedDecoder) where
  -- A publication that stands for its payload.
  pub record IsFaithfulPublication (p : Publication) : Type 0 where
    pub header :
        decoder.header p.payload
        ≡ ok (record { event_type = p.key.event; event_symbol = p.key.symbol })
    pub subject : p.subject ≡ subject_for p.key.event p.key.symbol

  publish_all-IsFaithfulPublication :
      (publishes : List Publication → String → Bool) (tick : ℕ → ℕ) (evs : List FeedEvent)
      (l : Loop)
      → All (IsFaithful decoder) evs
      → All IsFaithfulPublication l.published
      → All IsFaithfulPublication (publish_all publishes tick evs l).published
  unfolding publish_all
  publish_all-IsFaithfulPublication publishes tick [] l h k = k
  publish_all-IsFaithfulPublication publishes tick (ev ∷ evs) l (h, hs) k =
      publish_all-IsFaithfulPublication publishes tick evs _ hs
        (record { header = h.header; subject = h.subject }, k)

  parse_feed_data-IsFaithful :
      (text : String) (evs : List FeedEvent)
      → parse_feed_data decoder text ≡ ok evs
      → All (IsFaithful decoder) evs
  parse_feed_data-IsFaithful text evs h = elim (parse_feed_data_sound decoder text evs h) [
    | inl (empty, none_left) ↦ subst (All (IsFaithful decoder)) (sym none_left) tt
    | inr (raws, parsed, (all, same)) ↦ all
  ]

  feed_events-IsFaithful :
      (msg : Message) (evs : List FeedEvent)
      → feed_events decoder msg ≡ ok evs
      → All (IsFaithful decoder) evs
  unfolding feed_events
  feed_events-IsFaithful (feed_data base text) evs h = parse_feed_data-IsFaithful text evs h
  feed_events-IsFaithful _ evs h =
      let e : [] ≡ evs = ground (arith, h) in subst (All (IsFaithful decoder)) e tt

  pub run_ingress_loop-IsFaithfulPublication :
      (publishes : List Publication → String → Bool) (tick : ℕ → ℕ) (msgs : List Message) (l : Loop)
      → All IsFaithfulPublication l.published
      → All IsFaithfulPublication (run_ingress_loop publishes tick decoder msgs l).published
  unfolding run_ingress_loop
  run_ingress_loop-IsFaithfulPublication publishes tick [] l k = k
  run_ingress_loop-IsFaithfulPublication publishes tick (msg ∷ msgs) l k =
      run_ingress_loop-IsFaithfulPublication publishes tick msgs
        (after_parse publishes tick decoder (feed_events decoder msg) l)
        (elim (Result-cases (feed_events decoder msg)) [
          | inl (evs, good) ↦ rw good (
              publish_all-IsFaithfulPublication publishes tick evs l
                (feed_events-IsFaithful msg evs good) k)
          | inr (e, bad) ↦ rw bad k
        ])
