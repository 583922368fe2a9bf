-- ===== src/Ingress/Laws.antt =====
-- What the ingress publishes of a message, and that the counters count what was published.
use mathlib.Core.Path.{subst}
use Prim.Native.String.{String}
use mathlib.Core.List.{List, [], ◌∷◌, map}
use godxfeed.Common.{
  ℕ, suc, ◌⊎◌, ◌+◌, ◌%◌, ◌^◌, ◌≡◌, refl, ap, Bool, false, not, ◌&&◌, some, arith, if◌then◌else◌,
  ◌==◌, string_eq, All, select, Bool-cases, inl, inr,
}
use text.Mathlib.TextEquality.{eq_iff}
use godxfeed.Common.Outcome.{ok, err, Result-cases}
use godxfeed.Common.Text.{Unicode}
use godxfeed.Common.Dict.{lookup}
use godxfeed.Subject.{subject_for}
use godxfeed.Subscriptions.{SubKey, key_eq, SubState, bump}
use godxfeed.Subscriptions.Counters.{lookup-observe}
use godxfeed.Dxclient.Message.{Message}
use godxfeed.Ingress.{
  FeedEvent, FeedDecoder, Publication, Loop, decode_events, parse_feed_data, sanitize, feed_events,
  publish_all, run_ingress_loop, after_parse,
}

module _ ⦃u : Unicode⦄ (decoder : FeedDecoder) where
  -- Whether the event's header decodes and names a symbol.
  abbrev pub has_symbol : String → Bool
  has_symbol raw = elim (decoder.header raw) [
    | ok hdr ↦ not (hdr.event_symbol == "")
    | err e ↦ false
  ]

  -- An event that stands for its payload.
  pub record IsFaithful (ev : FeedEvent) : Type 0 where
    pub header :
        decoder.header ev.payload ≡ ok (record { event_type = ev.event; event_symbol = ev.symbol })
    pub subject : ev.subject ≡ subject_for ev.event ev.symbol
    pub named : (ev.symbol == "") ≡ false

  -- The events are those whose header decodes and names a symbol, in their order.
  abbrev pub Describes : List String → List FeedEvent → Type 0
  Describes raws evs = All IsFaithful evs × (map (λ ev. ev.payload) evs ≡ select has_symbol raws)

  decode_events_sound :
      (raws : List String) (evs : List FeedEvent)
      → decode_events decoder raws ≡ ok evs
      → Describes raws evs
  unfolding decode_events
  decode_events_sound [] evs h = let e : [] ≡ evs = cc h in subst (Describes []) e (tt, refl)
  decode_events_sound (raw ∷ raws) evs h = elim (Result-cases (decoder.header raw)) [
    | inr (e, bad) ↦ let k = rw bad at h in cc k
    | inl (hdr, good) ↦ elim (Result-cases (decode_events decoder raws)) [
      | inr (e, bad) ↦ let k = rw (good, bad) at h in cc k
      | inl (out, rest) ↦
          let (all, same) = decode_events_sound raws out rest in
          elim (Bool-cases (hdr.event_symbol == "")) [
            | inl unnamed ↦
                let k = rw (good, rest, unnamed) at h in
                let e : out ≡ evs = cc k in
                subst (Describes (raw ∷ raws)) e (rw (good, has_symbol, unnamed) (all, same))
            | inr named ↦
                let k = rw (good, rest, named) at h in
                let ev : FeedEvent = record {
                  subject = subject_for hdr.event_type hdr.event_symbol;
                  payload = raw;
                  event = hdr.event_type;
                  symbol = hdr.event_symbol;
                } in
                let e : ev ∷ out ≡ evs = cc k in
                subst (Describes (raw ∷ raws)) e (
                  rw (good, has_symbol, named)
                    (
                      (record { header = good; subject = refl; named = named }, all),
                      ap (λ rs. raw ∷ rs) same,
                    ))
          ]
    ]
  ]

  -- If a FEED_DATA payload parses, it is empty and there are no events, or the array of the
  -- sanitized payload decodes, and the events are, in order, exactly the elements whose header
  -- names a symbol; each keeps its raw text and gets the subject of its type and symbol.
  pub parse_feed_data_sound :
      (text : String) (evs : List FeedEvent)
      → parse_feed_data decoder text ≡ ok evs
      → ((text ≡ "") × (evs ≡ []))
        ⊎ ((raws : List String) × (decoder.array (sanitize text) ≡ ok raws) × Describes raws evs)
  unfolding parse_feed_data
  parse_feed_data_sound text evs h = elim (Bool-cases (text == "")) [
    | inl empty ↦ let k = rw empty at h in inl ((eq_iff text "").0 empty, cc k)
    | inr some_text ↦ elim (Result-cases (decoder.array (sanitize text))) [
      | inr (e, bad) ↦ let k = rw (some_text, bad) at h in cc k
      | inl (raws, good) ↦
          let k = rw (some_text, good) at h in inr (raws, good, decode_events_sound raws evs k)
    ]
  ]

-- How many publications of the key NATS has taken.
abbrev pub accepted_of : SubKey → List Publication → ℕ
accepted_of k [] = 0
accepted_of k (p ∷ ps) =
    let rest = accepted_of k ps in if p.accepted && p.key == k then suc rest else rest

-- The key is registered, and has been counted as often as it was published since the count `base`.
pub record IsCounted (k : SubKey) (base : ℕ) (l : Loop) : Type 0 where
  pub state : SubState
  pub registered : lookup k l.subs.state ≡ some state
  pub counted : state.msg_count ≡ (base + accepted_of k l.published) % 2 ^ 64

module _ (publishes : List Publication → String → Bool) (tick : ℕ → ℕ) where
  publish_one-IsCounted :
      (k : SubKey) (base : ℕ) (ev : FeedEvent) (l : Loop)
      → IsCounted k base l
      → IsCounted k base (publish_all publishes tick (ev ∷ []) l)
  unfolding publish_all
  publish_one-IsCounted k base ev l c =
      let key : SubKey = record { event = ev.event; symbol = ev.symbol } in
      elim (Bool-cases (publishes l.published ev.subject)) [
        | inr refused ↦
            rw refused (record { state = c.state; registered = c.registered; counted = c.counted })
        | inl taken ↦ rw taken (elim (Bool-cases (key == k)) [
          | inl same ↦ record {
            state = bump l.clock c.state;
            registered = rw (lookup-observe, same, c.registered);
            counted = rw same (omega (arith, c.counted));
          }
          | inr other ↦ record {
            state = c.state;
            registered = rw (lookup-observe, other) c.registered;
            counted = rw other c.counted;
          }
        ])
      ]

  publish_all-IsCounted :
      (k : SubKey) (base : ℕ) (evs : List FeedEvent) (l : Loop)
      → IsCounted k base l
      → IsCounted k base (publish_all publishes tick evs l)
  unfolding publish_all
  publish_all-IsCounted k base [] l c = c
  publish_all-IsCounted k base (ev ∷ evs) l c =
      publish_all-IsCounted k base evs (publish_all publishes tick (ev ∷ []) l)
        (publish_one-IsCounted k base ev l c)

  -- However many messages arrive, and whichever publications NATS takes: the count of a registered
  -- key grows, modulo 2^64, by the number of its events that NATS took.
  pub run_ingress_loop-IsCounted :
      ⦃u : Unicode⦄ (decoder : FeedDecoder) (k : SubKey) (base : ℕ) (msgs : List Message) (l : Loop)
      → IsCounted k base l
      → IsCounted k base (run_ingress_loop publishes tick decoder msgs l)
  unfolding run_ingress_loop
  run_ingress_loop-IsCounted decoder k base [] l c = c
  run_ingress_loop-IsCounted decoder k base (msg ∷ msgs) l c =
      run_ingress_loop-IsCounted decoder k base msgs
        (after_parse publishes tick decoder (feed_events decoder msg) l)
        (elim (Result-cases (feed_events decoder msg)) [
          | inl (evs, good) ↦ rw good (publish_all-IsCounted k base evs l c)
          | inr (e, bad) ↦ rw bad c
        ])
