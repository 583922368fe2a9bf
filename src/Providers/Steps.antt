-- ===== src/Providers/Steps.antt =====
-- What the steps of an Extract that succeeds have found.
use Prim.Native.String.{◌++◌}
use text.Mathlib.TextLemmas.{append-nil, nil-append, append_assoc}
use godxfeed.Common.{
  String, ◌≡◌, refl, sym, ap, ◌∙◌, true, false, ◌&&◌, ◌||◌, some, List, [], ◌∷◌, ◌==◌, string_eq,
  arith, Bool-cases, inl, inr,
}
use godxfeed.Common.Outcome.{Error, Result, ok, Result-cases, ◌>>=◌, context}
use godxfeed.Providers.{
  AnthropicBlock, OpenAiChoice, GeminiCandidate, parse_filter_json, from_blocks, from_choices,
  text_of_parts, from_candidates,
}
use godxfeed.Providers.Reply.{tool_input, joined, IsReply}
use godxfeed.Gemini.{Json, Fields}
use godxfeed.Exchange.{Provider, Transport, exchange, guarded}

text_of_parts-joined :
    (text : String) (parts : List String) → text_of_parts text parts ≡ text ++ joined parts
unfolding text_of_parts joined
text_of_parts-joined text [] = sym (append-nil text)
text_of_parts-joined text (part ∷ parts) = elim (Bool-cases (part == "")) [
  | inl e ↦
      let blank = string_eq.beq_iff part "" in
      rw e (
        text_of_parts-joined text parts
        ∙ ap (λ s. text ++ s) (sym (nil-append (joined parts)))
        ∙ ap (λ s. text ++ (s ++ joined parts)) (sym (blank.0 e)))
  | inr e ↦ rw e (text_of_parts-joined (text ++ part) parts ∙ append_assoc text part (joined parts))
]

-- What guarded lets through.
pub guarded-eq-ok {ℓ} :
    {A : Type ℓ} (name : String) (p : Provider) (next : Result A) (a : A)
    → guarded name p next ≡ ok a
    → ((p.api_key == "") ≡ false) × ((p.model == "") ≡ false) × (next ≡ ok a)
unfolding guarded
guarded-eq-ok name p next a h = (ground (arith, h), ground (arith, h), ground (arith, h))

pub from_blocks-eq-ok {ℓ} :
    {A : Type ℓ} (parse : String → Result A) (reason : String) (blks : List AnthropicBlock) (a : A)
    → from_blocks parse reason blks ≡ ok a
    → (text : String) × (tool_input blks ≡ some text) × ((text == "") ≡ false) × (parse text ≡ ok a)
unfolding from_blocks tool_input parse_filter_json
from_blocks-eq-ok parse reason [] a h = absurd (ground (arith, h))
from_blocks-eq-ok parse reason (blk ∷ blks) a h =
    elim (Bool-cases (blk.kind == "tool_use" && blk.name == "extract_filter")) [
      | inl e ↦ (
        blk.input,
        ground (arith, e),
        ground (arith, e, h),
        elim (Result-cases (parse blk.input)) [
          | inl (x, f) ↦ ground (arith, e, f, h)
          | inr (x, f) ↦ absurd (ground (arith, e, f, h))
        ],
      )
      | inr e ↦
          let (text, found, full, parsed) =
            from_blocks-eq-ok parse reason blks a (ground (arith, e, h)) in
          (text, ground (arith, e, found), full, parsed)
    ]

parse_filter_json-eq-ok {ℓ} :
    {A : Type ℓ} (parse : String → Result A) (text : String) (a : A)
    → parse_filter_json parse text ≡ ok a
    → parse text ≡ ok a
unfolding parse_filter_json
parse_filter_json-eq-ok parse text a h = elim (Result-cases (parse text)) [
  | inl (x, f) ↦ ground (arith, f, h)
  | inr (x, f) ↦ absurd (ground (arith, f, h))
]

exchange-IsReply :
    (name : String) (t : Transport) (url : String) (headers : List (String × String)) (json : Json)
    (raw : String)
    → exchange name t url headers json ≡ ok raw
    → (body : String) × (t.marshal json ≡ ok body)
      × IsReply t (record { url = url; headers = headers; body = body }) raw
unfolding exchange
exchange-IsReply name t url headers json raw h = elim (Result-cases (t.marshal json)) [
  | inr (e, f) ↦ absurd (ground (arith, h, f))
  | inl (body, m) ↦
      elim (Result-cases (t.send (record { url = url; headers = headers; body = body }))) [
        | inr (e, f) ↦ absurd (ground (arith, h, m, f))
        | inl (res, f) ↦ (
          body,
          m,
          record {
            response = res;
            sent = f;
            success = ground (arith, h, m, f);
            read = ground (arith, h, m, f);
          },
        )
      ]
]

-- What the schema, the exchange and the decoder of the response let through.
pub replied {ℓ κ} :
    {A : Type ℓ} {R : Type κ} (name : String) (t : Transport) (url : String)
    (headers : List (String × String)) (json : Fields → Json) (decode : String → Result R)
    (f g : Error → Error) (next : R → Result A) (a : A)
    → (context f t.schema >>= λ schema.
        exchange name t url headers (json schema) >>= λ raw. context g (decode raw) >>= next)
      ≡ ok a
    → (schema : Fields) × (body raw : String) × (res : R) × (t.schema ≡ ok schema)
      × (t.marshal (json schema) ≡ ok body)
      × IsReply t (record { url = url; headers = headers; body = body }) raw
      × (decode raw ≡ ok res)
      × (next res ≡ ok a)
replied name t url headers json decode f g next a h = elim (Result-cases t.schema) [
  | inr (e, x) ↦ absurd (ground (arith, h, x))
  | inl (schema, x) ↦ elim (Result-cases (exchange name t url headers (json schema))) [
    | inr (e, y) ↦ absurd (ground (arith, h, x, y))
    | inl (raw, y) ↦ elim (Result-cases (decode raw)) [
      | inr (e, z) ↦ absurd (ground (arith, h, x, y, z))
      | inl (res, z) ↦
          let (body, m, got) = exchange-IsReply name t url headers (json schema) raw y in
          (schema, body, raw, res, x, m, got, z, ground (arith, h, x, y, z))
    ]
  ]
]

pub from_choices-eq-ok {ℓ} :
    {A : Type ℓ} (parse : String → Result A) (cs : List OpenAiChoice) (a : A)
    → from_choices parse cs ≡ ok a
    → (choice : OpenAiChoice) × (choices : List OpenAiChoice) × (cs ≡ choice ∷ choices)
      × ((choice.refusal == "") ≡ true)
      × ((choice.content == "") ≡ false)
      × (parse choice.content ≡ ok a)
unfolding from_choices
from_choices-eq-ok parse [] a h = absurd (ground (arith, h))
from_choices-eq-ok parse (c ∷ cs) a h = (
  c,
  cs,
  refl,
  ground (arith, h),
  ground (arith, h),
  parse_filter_json-eq-ok parse c.content a (ground (arith, h)),
)

pub from_candidates-eq-ok {ℓ} :
    {A : Type ℓ} (parse : String → Result A) (reason : String) (cs : List GeminiCandidate) (a : A)
    → from_candidates parse reason cs ≡ ok a
    → (cand : GeminiCandidate) × (cands : List GeminiCandidate) × (cs ≡ cand ∷ cands)
      × ((cand.finish_reason == "" || cand.finish_reason == "STOP") ≡ true)
      × ((joined cand.parts == "") ≡ false)
      × (parse (joined cand.parts) ≡ ok a)
unfolding from_candidates
from_candidates-eq-ok parse b [] a h = absurd (ground (arith, h))
from_candidates-eq-ok parse b (c ∷ cs) a h =
    let all = text_of_parts-joined "" c.parts ∙ nil-append (joined c.parts) in
    (
      c,
      cs,
      refl,
      ground (arith, h),
      ground (arith, h, all),
      parse_filter_json-eq-ok parse (joined c.parts) a (ground (arith, h, all)),
    )
