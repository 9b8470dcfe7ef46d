-- ===== src/Dispatch.antt =====
-- api/dispatch.py: which handler runs, and how an error is rendered. The handlers are given by a
-- function; a stream is a value of any type.
pub mod Allowed
pub mod Advertised
use taskflow_meter.Prelude.{
  ℕ, Bool, true, false, Option, none, some, List, [], ◌∷◌, ◌++◌, String, str_eq, le_str, join,
  if◌then◌else◌,
}
use taskflow_meter.Prelude.Dict.{Dict}
use taskflow_meter.Prelude.Sort.{sorted}
use taskflow_meter.Http.{ApiError, Headers, Raised, MeterRequest, MeterResponse, from_error}
use taskflow_meter.Router.{Route, Match, matched, not_found, method_not_allowed, unique, match}

-- what a handler returns, and what dispatching returns or raises; `escaped` is an error that is no
-- `ApiError`, which is left to the host
pub data Result (S : Type 0) : Type 0 where
  response : MeterResponse → Result S
  streaming : S → Result S

pub data Answered (S : Type 0) : Type 0 where
  returned : Result S → Answered S
  raised : Raised → Answered S
  escaped : Answered S

-- `", ".join(names)`
unfoldable pub comma_joined : List String → String
comma_joined [] = ""
comma_joined (x ∷ []) = x
comma_joined (x ∷ y ∷ rest) = join x (join ", " (comma_joined (y ∷ rest)))

-- `_allow`
unfoldable pub allow : List String → String
allow methods = comma_joined (sorted le_str (unique (methods ++ "HEAD" ∷ "OPTIONS" ∷ [])))

-- `replace(result, body=b"")` for a response
unfoldable pub without_body : {S : Type 0} → Answered S → Answered S
without_body (returned (response r)) = returned (response (record r { body = "" }))
without_body other = other

unfoldable pub no_endpoint : String → Raised
no_endpoint path = record {
  error = ApiError.not_found;
  detail = join "no such endpoint: " path;
  headers = [];
}

unfoldable pub wrong_method : String → List String → Raised
wrong_method method allowed = record {
  error = ApiError.method_not_allowed;
  detail = join method " is not allowed here";
  headers = ("allow", allow allowed) ∷ [];
}

abbrev pub is_matched : {H : Type 0} → Match H → Bool
is_matched (matched r params) = true
is_matched other = false

-- the method under which a request is looked up
unfoldable pub wanted_method : String → String
wanted_method method = if str_eq method "HEAD" then "GET" else method

module _ {H S : Type 0} (length_of : String → String) (render : ℕ → String → String → String)
    (handle : H → MeterRequest → Answered S) (routes : List (Route H)) where
  -- `except ApiError`
  unfoldable pub rendered : Answered S → Answered S
  rendered (raised e) = returned (response (from_error length_of render e))
  rendered other = other

  -- `_invoke`
  unfoldable pub invoke : Route H → MeterRequest → Answered S
  invoke route request =
      if str_eq request.method "HEAD"
      then without_body (handle route.handler request)
      else handle route.handler request

  -- `run`
  unfoldable pub run : Route H → MeterRequest → Answered S
  run route request = rendered (invoke route request)

  -- the loop of `_options`
  unfoldable pub allowed_at : List (Route H) → String → List String
  allowed_at [] path = []
  allowed_at (r ∷ rs) path =
      let rest = allowed_at rs path in
      if is_matched (match routes r.method path) then r.method ∷ rest else rest

  abbrev pub options_answer : List String → String → Answered S
  options_answer [] path = raised (no_endpoint path)
  options_answer (a ∷ rest) path =
      returned
        (response (record { status = 204; body = ""; headers = ("allow", allow (a ∷ rest)) ∷ [] }))

  -- `_options`
  unfoldable pub options : MeterRequest → Answered S
  options request = options_answer (allowed_at routes request.path) request.path

  -- the end of `_dispatch`, by the outcome of the match
  unfoldable pub by_match : Match H → MeterRequest → Answered S
  by_match (matched route params) request = invoke route (record request { path_params = params })
  by_match (method_not_allowed allowed) request = raised (wrong_method request.method allowed)
  by_match not_found request = raised (no_endpoint request.path)

  -- `_dispatch`
  unfoldable pub dispatch_raising : MeterRequest → Answered S
  dispatch_raising request =
      if str_eq request.method "OPTIONS"
      then options request
      else by_match (match routes (wanted_method request.method) request.path) request

  unfoldable pub dispatch : MeterRequest → Answered S
  dispatch request = rendered (dispatch_raising request)
