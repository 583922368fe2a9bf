-- ===== src/Service/Symbols.antt =====
-- The tastytrade REST calls of service/service.go.
pub mod Related
use Prim.Native.String
use godxfeed.Common.{
  ℕ, String, Bool, true, false, not, Option, none, some, List, [], ◌∷◌, ◌++◌, map, ltb, length,
  take, ◌||◌, eqb, if◌then◌else◌, ◌==◌, string_eq, is_some,
}
use godxfeed.Common.Outcome.{
  Error, Result, ok, err, fail, wrap, join, error_internal, error_bad_request, opaque, str, ◌>>=◌,
  context,
}
use godxfeed.Common.Text.{Unicode, to_upper, to_lower}
use godxfeed.Common.Sort.{sort_slice}
use godxfeed.Common.Int64.{signed_lt}
use godxfeed.Common.Floats.{Floats}
use godxfeed.Api.{Response, OptionSymbol, EquitySymbol}

unfoldable pub get_symbology_url : String → String → String → Result String
get_symbology_url endpoint sym_type sym =
    let base = String.◌++◌ "https://" endpoint in
    if sym_type == "crypto"
    then ok (String.◌++◌ base "/instruments/cryptocurrencies")
    else if sym_type == "futures"
    then ok (String.◌++◌ base "/instruments/futures")
    else if sym_type == "equities"
    then ok (String.◌++◌ base (String.◌++◌ "/instruments/equities/" sym))
    else if sym_type == "options"
    then ok (String.◌++◌ base (String.◌++◌ "/option-chains/" sym))
    else if sym_type == "futures-options"
    then ok (String.◌++◌ base (String.◌++◌ "/futures-option-chains/" sym))
    else err (fail "unrecognized symbol type %s" (str sym_type ∷ []))

-- The HTTP client and the JSON decoder, as these calls use them: what NewRequest, the token provider,
-- Do with ReadAll, and Unmarshal return.
pub record Rest : Type 0 where
  pub new_request : String → Option Error
  pub access_token : Option (Result String)
  pub fetch : String → String → Result (Result String)
  pub response : String → Result Response
  pub options : String → Result (List OptionSymbol)
  pub equity : String → Result EquitySymbol

abbrev internal : String → Error → Error
internal text e = join text (error_internal "internal error") e

-- The comparison of GetRelatedOptionSymbols; a strike that does not parse is not less.
unfoldable pub related_less : (f : Floats) → OptionSymbol → OptionSymbol → Bool
unfolding signed_lt
related_less f a b =
    if not (eqb a.days_to_expiration b.days_to_expiration)
    then signed_lt a.days_to_expiration b.days_to_expiration
    else if is_some (f.parse a.strike_price).1 || is_some (f.parse b.strike_price).1
    then false
    else f.less (f.parse a.strike_price).0 (f.parse b.strike_price).0

module _ (endpoint : String) (rest : Rest) where
  -- bearerAuth
  unfoldable pub bearer_auth : Result String
  bearer_auth = elim rest.access_token [
    | none ↦ err (fail "oauth: service has no TokenProvider configured" [])
    | some token ↦ token >>= λ t. ok (String.◌++◌ "Bearer " t)
  ]

  -- GetSymbolData and GetOptionChain from NewRequest on; `query` is the text of the last error.
  unfoldable pub query : String → String → Result Response
  unfolding bearer_auth
  query text url = elim (rest.new_request url) [
    | some e ↦ err (internal "%w: could not create request: %w" e)
    | none ↦ context (internal "%w: %w") bearer_auth >>= λ auth.
        context (internal "%w: could not do request: %w") (rest.fetch url auth) >>= λ body.
        context (internal "%w: could not read response body: %w") body >>= λ b.
        context (internal "%w: could not parse response body: %w") (rest.response b) >>= λ r.
        (if not (r.error_code == "") then err (fail text (str r.error_message ∷ [])) else ok r)
  ]

  module _ ⦃u : Unicode⦄ where
    unfoldable pub get_symbol_data : String → String → Result Response
    unfolding query get_symbology_url to_upper to_lower
    get_symbol_data symbol symbol_type =
        context (λ e. join "%w: %w" (error_bad_request "bad request") e)
          (get_symbology_url endpoint (to_lower symbol_type) (to_upper symbol))
        >>= query "tastytrade error for symbology query: %s"

    unfoldable pub get_option_chain : String → Result Response
    unfolding query to_upper
    get_option_chain symbol = query "tastytrade error for options-chain query: %s" (
        String.◌++◌ "https://" (
          String.◌++◌ endpoint
            (String.◌++◌ "/option-chains/" (String.◌++◌ (to_upper symbol) "/compact"))))

    module _ (f : Floats) where
      unfoldable pub get_related_option_symbols : String → Result (List String)
      unfolding get_symbol_data related_less
      get_related_option_symbols symbol =
          context (wrap "could not get option symbology data: %w" [])
            (get_symbol_data symbol "options")
          >>= λ twr.
              context (wrap "could not unmarshal option symbol data: %w" [])
                (rest.options twr.data_text)
              >>= λ items. ok (map (λ o. o.streamer_symbol) (sort_slice (related_less f) items))

      -- SymbolMethodNRelatedOptions. A Go slice of n elements has `take n`.
      unfoldable pub n_related_options : ℕ → String → Result (List String)
      unfolding get_related_option_symbols signed_lt
      n_related_options n symbol =
          if signed_lt n 1
          then ok []
          else get_related_option_symbols symbol >>= λ syms.
              ok (if ltb (length syms) n then syms else take n syms)

    unfoldable pub get_stream_symbols :
        String → (String → Result (List String)) → Result (List String)
    unfolding get_symbol_data
    get_stream_symbols symbol get_relateds =
        context (wrap "could not get equity symbol data: %w" []) (get_symbol_data symbol "equities")
        >>= λ twr.
            context (wrap "could not unmarshal equity symbol data: %w" [])
              (rest.equity twr.data_text)
            >>= λ eq.
                context (wrap "could not get related stream symbols: %w" []) (get_relateds symbol)
                >>= λ relateds. ok (eq.streamer_symbol ∷ relateds)
