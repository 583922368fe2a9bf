-- ===== src/Http/Pages.antt =====
-- The HTML pages of http/handlers_plots.go. The status is written before the template is rendered,
-- so an error while rendering cannot change it: it is 200, and the error follows what was rendered.
use godxfeed.Common.{String, Bool, ◌||◌, Option, [], ◌∷◌, if◌then◌else◌, ◌==◌, string_eq}
use godxfeed.Common.Outcome.{Error, fail, str}
use godxfeed.Http.{page, Handler, write_json_response, write_bad_request_error}
use godxfeed.Http.Handlers.{first_of}

unfoldable pub is_plot_kind : String → Bool
is_plot_kind pk =
    pk == "dynamic_distribution"
    || pk == "nats"
    || pk == "line_chart"
    || pk == "options_grid"
    || pk == "symbol_detail"

-- `render` is the error of the template of a name, for a symbol.
module _ (render : String → String → Option Error) where
  unfoldable pub handle_get_plots : Handler
  unfolding is_plot_kind write_json_response write_bad_request_error
  handle_get_plots r s =
      let pk = first_of (r.query "plot_kind") in
      let symbol = first_of (r.query "symbol") in
      if symbol == ""
      then (s, write_bad_request_error (fail "must supply symbol" []))
      else if is_plot_kind pk
      then (s, write_json_response (page pk symbol (render pk symbol)) 200)
      else (s, write_bad_request_error (fail "unsupported plot_kind %s" (str pk ∷ [])))

  unfoldable pub handle_index : Handler
  unfolding write_json_response
  handle_index r s = (s, write_json_response (page "index" "" (render "index" "")) 200)

  unfoldable pub handle_admin : Handler
  unfolding write_json_response
  handle_admin r s = (s, write_json_response (page "admin" "" (render "admin" "")) 200)
