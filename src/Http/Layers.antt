-- ===== src/Http/Layers.antt =====
-- apiMode assigns to the variable that it captures, so each request wraps the handler once more.
use godxfeed.Common.{ℕ, zero, suc, ◌≡◌, refl, ap, ◌∙◌, fun_ext, some}
use godxfeed.Service.{Service}
use godxfeed.Http.{
  Request, Out, replied, panicked, Handler, HandlerAdapter, on_reply, recovered, make_graceful,
  set_max_bytes_reader, set_content_type, wrapped, api_mode_serve, api_mode, write_internal_error,
}

-- The variable after so many requests.
unfoldable after_requests :
    (cors : HandlerAdapter) → ℕ → (ℕ → Request × Service) → ℕ → Handler → Handler
after_requests cors mb requests zero next = next
after_requests cors mb requests (suc n) next =
    let (r, s) = requests n in
    (api_mode_serve cors mb (after_requests cors mb requests n next) r s).0

-- n nested layers.
unfoldable layers : ℕ → ℕ → Handler → Handler
unfolding wrapped
layers mb zero next = next
layers mb (suc n) next = wrapped mb (layers mb n next)

-- The handlers that apiMode keeps grow with every request: after n of them, the variable holds the
-- handler under n layers of middleware.
after_requests-layers :
    (cors : HandlerAdapter) (mb : ℕ) (requests : ℕ → Request × Service) (n : ℕ) (next : Handler)
    → after_requests cors mb requests n next ≡ layers mb n next
unfolding after_requests layers api_mode_serve
after_requests-layers cors mb requests zero next = refl
after_requests-layers cors mb requests (suc n) next =
    ap (wrapped mb) (after_requests-layers cors mb requests n next)

settled :
    (x : Service × Out)
    → on_reply
        (λ y. record y { content_type = "application/json" })
        (recovered (on_reply (λ y. record y { content_type = "application/json" }) (recovered x)))
      ≡ on_reply (λ y. record y { content_type = "application/json" }) (recovered x)
unfolding write_internal_error
settled (s, replied x) = refl
settled (s, panicked e) = refl

-- A second layer changes nothing.
wrapped_twice : (mb : ℕ) (next : Handler) → wrapped mb (wrapped mb next) ≡ wrapped mb next
unfolding wrapped make_graceful set_max_bytes_reader set_content_type
wrapped_twice mb next = fun_ext λ r. fun_ext λ s. settled (next (record r { limit = some mb }) s)

layers_once : (mb n : ℕ) (next : Handler) → layers mb (suc n) next ≡ wrapped mb next
unfolding layers
layers_once mb zero next = refl
layers_once mb (suc n) next = ap (wrapped mb) (layers_once mb n next) ∙ wrapped_twice mb next

-- Still, every request is answered as a first one would be.
api_mode_stable :
    (cors : HandlerAdapter) (mb : ℕ) (requests : ℕ → Request × Service) (n : ℕ) (next : Handler)
    (r : Request) (s : Service)
    → (api_mode_serve cors mb (after_requests cors mb requests n next) r s).1
      ≡ api_mode cors mb next r s
unfolding api_mode api_mode_serve layers
api_mode_stable cors mb requests n next r s =
    ap (λ h. cors h r s)
      (ap (wrapped mb) (after_requests-layers cors mb requests n next) ∙ layers_once mb n next)
