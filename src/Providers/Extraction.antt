-- ===== src/Providers/Extraction.antt =====
-- Where the filter that a provider returns comes from.
use godxfeed.Common.{String, ◌≡◌, ap, ◌∙◌, false, ◌==◌, string_eq}
use godxfeed.Common.Outcome.{Result, ok}
use godxfeed.Providers.Steps.{
  guarded-eq-ok, from_blocks-eq-ok, replied, from_choices-eq-ok, from_candidates-eq-ok,
}
use godxfeed.Providers.{
  from_blocks, from_choices, from_candidates, Vendor, anthropic, openai, gemini, extract,
  anthropic_extract, openai_extract, gemini_extract,
}
use godxfeed.Providers.Reply.{
  joined, Carries, by_tool, by_choice, by_candidate, IsReply, request_of, json_of,
}
use godxfeed.Gemini.{Fields}
use godxfeed.Prompt.{anthropic_body, openai_body, gemini_body}
use godxfeed.Exchange.{
  Provider, Transport, anthropic_url, openai_url, gemini_url, anthropic_headers, openai_headers,
  gemini_headers,
}

-- A provider that returns a filter has a key and a model; it has sent one request, to its URL with its
-- key, whose body is the shared schema, the prompt with the date and the text, in its format; it has got
-- a reply of 2xx; the reply carries an answer, which is not empty, as its format has it; and the filter
-- is what that answer decodes to.
pub extract_sound {ℓ} :
    {A : Type ℓ} (parse : String → Result A) (t : Transport) (date text : String) (v : Vendor)
    (p : Provider) (a : A)
    → extract parse t date text v p ≡ ok a
    → ((p.api_key == "") ≡ false)
      × ((p.model == "") ≡ false)
      × (schema : Fields) × (t.schema ≡ ok schema)
      × (body : String) × (t.marshal (json_of v p date text schema) ≡ ok body)
      × (raw : String) × IsReply t (request_of v p body) raw
      × (answer : String) × Carries v raw answer
      × ((answer == "") ≡ false)
      × (parse answer ≡ ok a)
unfolding extract anthropic_extract openai_extract gemini_extract
extract_sound parse t date text (anthropic decode) p a h =
    let (key, model, asked) = guarded-eq-ok "anthropic" p _ a h in
    let (schema, body, raw, res, embedded, m, got, decoded, more) =
      replied "anthropic" t (anthropic_url p) (anthropic_headers p)
        (anthropic_body p.model date text) decode _ _
        (λ res. from_blocks parse res.stop_reason res.content) a asked in
    let (answer, found, full, parsed) =
      from_blocks-eq-ok parse res.stop_reason res.content a more in
    (
      key,
      model,
      schema,
      embedded,
      body,
      m,
      raw,
      got,
      answer,
      by_tool decode raw res answer decoded found,
      full,
      parsed,
    )
extract_sound parse t date text (openai decode) p a h =
    let (key, model, asked) = guarded-eq-ok "openai" p _ a h in
    let (schema, body, raw, res, embedded, m, got, decoded, more) =
      replied "openai" t (openai_url p) (openai_headers p) (openai_body p.model date text) decode _
        _ (from_choices parse) a asked in
    let (c, cs, first, fine, full, parsed) = from_choices-eq-ok parse res a more in
    (
      key,
      model,
      schema,
      embedded,
      body,
      m,
      raw,
      got,
      c.content,
      by_choice decode raw c cs (decoded ∙ ap ok first) fine,
      full,
      parsed,
    )
extract_sound parse t date text (gemini decode) p a h =
    let (key, model, asked) = guarded-eq-ok "gemini" p _ a h in
    let (schema, body, raw, res, embedded, m, got, decoded, more) =
      replied "gemini" t (gemini_url p) (gemini_headers p) (gemini_body date text) decode _ _
        (λ res. from_candidates parse res.block_reason res.candidates) a asked in
    let (c, cs, first, fine, full, parsed) =
      from_candidates-eq-ok parse res.block_reason res.candidates a more in
    (
      key,
      model,
      schema,
      embedded,
      body,
      m,
      raw,
      got,
      joined c.parts,
      by_candidate decode raw res c cs decoded first fine,
      full,
      parsed,
    )
