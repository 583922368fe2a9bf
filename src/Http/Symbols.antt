-- ===== src/Http/Symbols.antt =====
-- http/handlers_data.go, and writeServiceResponse of http/http.go.
use godxfeed.Common.{String, Bool, true, false, ◌||◌, [], ◌∷◌, if◌then◌else◌}
use godxfeed.Common.Outcome.{
  Error, Result, ok, err, fail, wrap, join, err_client, err_bad_token, error_internal,
  error_bad_request, opaque,
}
use godxfeed.Common.Text.{Unicode}
use godxfeed.Api.{Response}
use godxfeed.Service.Symbols.{Rest, get_symbol_data, get_option_chain}
use godxfeed.Http.{
  error_text, error_of, service_response, Out, panicked, Handler, write_json_response,
}

-- errors.As for ErrorInternal and for ErrorBadRequest.
unfoldable pub as_internal : Error → Bool
as_internal (fail text args) = false
as_internal (wrap text args e) = as_internal e
as_internal (join text e₁ e₂) = as_internal e₁ || as_internal e₂
as_internal (err_client text) = false
as_internal (err_bad_token text) = false
as_internal (error_internal text) = true
as_internal (error_bad_request text) = false
as_internal (opaque n) = false

unfoldable pub as_bad_request : Error → Bool
as_bad_request (fail text args) = false
as_bad_request (wrap text args e) = as_bad_request e
as_bad_request (join text e₁ e₂) = as_bad_request e₁ || as_bad_request e₂
as_bad_request (err_client text) = false
as_bad_request (err_bad_token text) = false
as_bad_request (error_internal text) = false
as_bad_request (error_bad_request text) = true
as_bad_request (opaque n) = false

unfoldable pub write_service_response : Result Response → Out
unfolding as_internal as_bad_request write_json_response
write_service_response (ok twr) = write_json_response (service_response twr) 200
write_service_response (err e) =
    if as_internal e
    then write_json_response (error_text "internal error") 500
    else if as_bad_request e
    then write_json_response (error_of e) 400
    else write_json_response (error_of e) 500

abbrev index_panic : Error
index_panic = fail "runtime error: index out of range [0] with length 0" []

module _ (endpoint : String) (rest : Rest) ⦃u : Unicode⦄ where
  -- r.URL.Query()["symbol"][0] panics where there is none.
  unfoldable pub handle_get_symbol_data : Handler
  unfolding write_service_response get_symbol_data
  handle_get_symbol_data r s = elim (r.query "symbol") [
    | [] ↦ (s, panicked index_panic)
    | symbol ∷ more ↦ elim (r.query "symbolType") [
      | [] ↦ (s, panicked index_panic)
      | symbol_type ∷ more' ↦
          (s, write_service_response (get_symbol_data endpoint rest symbol symbol_type))
    ]
  ]

  unfoldable pub handle_get_option_chain : Handler
  unfolding write_service_response get_option_chain
  handle_get_option_chain r s = elim (r.query "symbol") [
    | [] ↦ (s, panicked index_panic)
    | symbol ∷ more ↦ (s, write_service_response (get_option_chain endpoint rest symbol))
  ]
