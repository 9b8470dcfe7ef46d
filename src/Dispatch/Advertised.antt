-- ===== src/Dispatch/Advertised.antt =====
-- What a path advertises, and how HEAD is answered.
use taskflow_meter.Prelude.{
  ℕ, true, false, List, [], ◌∷◌, String, ◌≡◌, refl, ap, ◌∙◌, arith, str_eq, join, if◌then◌else◌,
}
use taskflow_meter.Prelude.Dict.{Dict, mem}
use taskflow_meter.Http.{ApiError, Raised, MeterRequest, MeterResponse, from_error}
use taskflow_meter.Router.{Route, Match, matched, match}
use taskflow_meter.Router.Table.{Answers, hit, miss, wrong, methods_at, match-Answers}
use taskflow_meter.Dispatch.{
  response, Answered, returned, raised, allow, without_body, wrong_method, wanted_method, rendered,
  invoke, allowed_at, options_answer, options, by_match, dispatch_raising, dispatch,
}
use taskflow_meter.Dispatch.Allowed.{allow_same, mem-methods_at, allowed_at-same}

-- the answer of a path with these methods
abbrev pub no_content : List String → MeterResponse
no_content methods = record { status = 204; body = ""; headers = ("allow", allow methods) ∷ [] }

abbrev pub not_allowed : String → List String → Raised
not_allowed method methods = record {
  error = ApiError.method_not_allowed;
  detail = join method " is not allowed here";
  headers = ("allow", allow methods) ∷ [];
}

abbrev with_method : MeterRequest → String → MeterRequest
with_method request method = record request { method = method }

module _ {H S : Type 0} (length_of : String → String) (render : ℕ → String → String → String)
    (handle : H → MeterRequest → Answered S) (routes : List (Route H)) where
  options_answer-some :
      (methods : List String) (path : String) (m : String)
      → mem m methods ≡ true
      → options_answer length_of render handle routes methods path
        ≡ returned (response (no_content methods))
  options_answer-some [] path m h = absurd (ground (arith, h))
  options_answer-some (a ∷ rest) path m h = refl

  -- For a path that some template fits, OPTIONS is answered with 204, and a request of another
  -- method with 405 if no template that fits has the method, where HEAD counts as GET; both name
  -- the same methods: those of the templates that fit, with HEAD and OPTIONS, in order.
  pub dispatch-advertises :
      (request : MeterRequest) (m : String)
      → mem m (methods_at routes request.path) ≡ true
      → (dispatch length_of render handle routes (record request { method = "OPTIONS" })
          ≡ returned (response (no_content (methods_at routes request.path))))
        × (str_eq request.method "OPTIONS" ≡ false
            → mem (wanted_method request.method) (methods_at routes request.path) ≡ false
            → dispatch length_of render handle routes request
              ≡ returned (
                  response (
                    from_error length_of render
                      (not_allowed request.method (methods_at routes request.path)))))
  unfolding dispatch dispatch_raising options rendered
  dispatch-advertises request m some_fit = (
    ap (rendered length_of render handle routes) (
          options_answer-some (allowed_at length_of render handle routes routes request.path)
            request.path m (same m ∙ some_fit))
        ∙ ap
            (λ a.
              returned (response (record { status = 204; body = ""; headers = ("allow", a) ∷ [] })))
            (allow_same _ _ same),
    λ other apart.
        ap
          (λ b. rendered length_of render handle routes (
            if b
            then options length_of render handle routes request
            else by_match length_of render handle routes
                (match routes (wanted_method request.method) request.path) request))
          other
        ∙ wrong_way apart (match routes (wanted_method request.method) request.path)
            (match-Answers routes (wanted_method request.method) request.path),
  )
    where
      same :
          (m : String)
          → mem m (allowed_at length_of render handle routes routes request.path)
            ≡ mem m (methods_at routes request.path)
      same = allowed_at-same routes request.path length_of render handle

      wrong_way :
          mem (wanted_method request.method) (methods_at routes request.path) ≡ false
          → (a : Match H)
          → Answers routes
              (wanted_method request.method)
              request.path
              (methods_at routes request.path)
              a
          → rendered length_of render handle routes
              (by_match length_of render handle routes a request)
            ≡ returned (
                response (
                  from_error length_of render
                    (not_allowed request.method (methods_at routes request.path))))
      wrong_way apart _ (hit r params inside own fits) = absurd (
          ground (
            arith,
            apart,
            own,
            mem-methods_at routes request.path routes r params inside fits,
            ap (λ k. mem k (methods_at routes request.path)) own,
          ))
      wrong_way apart _ (miss empty) = absurd (ground (arith, some_fit, ap (mem m) empty))
      wrong_way apart _ (wrong allowed fit not_there held d a) =
          unfold by_match wrong_method rendered in
          ap
            (λ (l : String). returned (
              response (
                from_error length_of render (record {
                  error = ApiError.method_not_allowed;
                  detail = join request.method " is not allowed here";
                  headers = ("allow", l) ∷ [];
                }))))
            (allow_same allowed (methods_at routes request.path) held)

  -- A HEAD request for a path of a GET route, whose handler does not look at the method, gets the
  -- response of the GET request with the body left out; but where the handler raises an error of
  -- the API, it gets what the GET request gets, body included.
  pub dispatch-head :
      (request : MeterRequest) (route : Route H) (params : Dict String)
      → ((m : String) (r : MeterRequest)
          → handle route.handler (with_method r m) ≡ handle route.handler r)
      → match routes "GET" request.path ≡ matched route params
      → ((r : MeterResponse)
          → handle route.handler (record request { path_params = params }) ≡ returned (response r)
          → (dispatch length_of render handle routes (with_method request "GET")
              ≡ returned (response r))
            × (dispatch length_of render handle routes (with_method request "HEAD")
                ≡ returned (response (record r { body = "" }))))
        × ((e : Raised)
            → handle route.handler (record request { path_params = params }) ≡ raised e
            → (dispatch length_of render handle routes (with_method request "GET")
                ≡ returned (response (from_error length_of render e)))
              × (dispatch length_of render handle routes (with_method request "HEAD")
                  ≡ returned (response (from_error length_of render e))))
  unfolding dispatch dispatch_raising wanted_method by_match invoke rendered without_body
  dispatch-head request route params blind found =
      let asked : MeterRequest = record request { path_params = params } in
      let show = rendered length_of render handle routes in
      (
        λ r answer. (
          ap (λ a. show (by_match length_of render handle routes a (with_method request "GET")))
                found
              ∙ ap show (blind "GET" asked ∙ answer),
          ap (λ a. show (by_match length_of render handle routes a (with_method request "HEAD")))
                found
              ∙ ap (λ a. show (without_body a)) (blind "HEAD" asked ∙ answer),
        ),
        λ e answer. (
          ap (λ a. show (by_match length_of render handle routes a (with_method request "GET")))
                found
              ∙ ap show (blind "GET" asked ∙ answer),
          ap (λ a. show (by_match length_of render handle routes a (with_method request "HEAD")))
                found
              ∙ ap (λ a. show (without_body a)) (blind "HEAD" asked ∙ answer),
        ),
      )
