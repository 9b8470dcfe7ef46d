-- ===== src/Tests/Routing.antt =====
-- Witnesses for the theorems on the routes, the mount prefix and the dispatcher.
use Prim.Native.Char.{code}
use text.Mathlib.TextLemmas.{nil-append, cons-append}
use taskflow_meter.Models.{FlowSnapshot}
use taskflow_meter.Prelude.{
  ℕ, none, All, ap, sym, ◌∙◌, ◌||◌, ◌==◌, if◌then◌else◌, some, List, [], ◌∷◌, String, ◌≡◌, ◌≢◌,
  refl, arith, eq_iff, true, false, str_eq, join, strip_prefix,
}
use taskflow_meter.Prelude.Dict.{Dict, mem}
use taskflow_meter.Http.{
  ApiError, Raised, MeterRequest, MeterResponse, split_path, url, given_pairs, mount_prefix,
  from_error,
}
use taskflow_meter.Http.Mounts.{split-mount}
use taskflow_meter.Router.{
  Endpoint, health, get_flow, get_atoms, get_events, stream, Route, matched, match, match_route,
  match_from, match_pieces, at_end, compile, format, fill, spans, flow_path, atoms_path,
  events_path, stream_path, get_route, build_routes,
}
use taskflow_meter.Serializers.{flow_payload, flow_page, flow_links}
use taskflow_meter.Serializers.Links.{AllPlain, IsPlain, path_of, follow, flow-links_back}
use taskflow_meter.Tests.{under_way}
use taskflow_meter.Prelude.Dict
use taskflow_meter.Router.Table.{Answers, methods_at, match-Answers}
use taskflow_meter.Dispatch.{Answered, returned, raised, response, dispatch, wanted_method}
use taskflow_meter.Dispatch.Advertised.{dispatch-advertises, dispatch-head, no_content, not_allowed}

abbrev r1_params : Dict String
r1_params = ("run_id", "r1") ∷ []

r1-IsPlain : IsPlain "r1"
r1-IsPlain = ((λ h. ground (arith, h, eq_iff "r1" "")), (refl, (refl, tt)))

meter-IsPlain : IsPlain "meter"
meter-IsPlain =
    ((λ h. ground (arith, h, eq_iff "meter" "")), (refl, (refl, (refl, (refl, (refl, tt))))))

-- a flow as a request under a mount prefix is answered with it
abbrev mounted : MeterRequest
mounted = record {
  method = "GET";
  path = "/api/v1/flows/r1";
  prefix = "/meter";
  query = [];
  headers = [];
  path_params = r1_params;
}

abbrev no_query : List (String × String) → String
no_query pairs = ""

abbrev as_one : ℕ → String
as_one n = "1"

-- what is sent of a link as the path: what precedes its query and its fragment
unfoldable before_query : String → String
before_query String.[] = ""
before_query (String.◌∷◌ c s) =
    let rest = before_query s in if code c == b'?' || code c == b'#' then "" else String.◌∷◌ c rest

before_query-join : (s t : String) → AllPlain s → before_query (join s t) ≡ join s (before_query t)
unfolding before_query
before_query-join String.[] t h = ap before_query (nil-append t) ∙ sym (nil-append (before_query t))
before_query-join (String.◌∷◌ c s) t h =
    let stays : (code c == b'?' || code c == b'#') ≡ false = ground (arith, h.0) in
    ap before_query (cons-append c s t)
    ∙ (ap (λ b. if b then "" else String.◌∷◌ c (before_query (join s t))) stays
        ∙ (ap (String.◌∷◌ c) (before_query-join s t h.1) ∙ sym (cons-append c s (before_query t))))

plain_sent :
    (segments : List String)
    → All IsPlain segments
    → before_query (path_of segments) ≡ path_of segments
unfolding before_query
plain_sent [] h = refl
plain_sent (s ∷ segments) h =
    let rest = path_of segments in
    let after : before_query (join s rest) ≡ join s rest =
      before_query-join s rest h.0.1 ∙ ap (join s) (plain_sent segments h.1) in
    let first : (t : String) → join "/" t ≡ String.◌∷◌ "/" t =
      λ t. cons-append "/" "" t ∙ ap (String.◌∷◌ "/") (nil-append t) in
    ap before_query (first (join s rest)) ∙ (ap (String.◌∷◌ "/") after ∙ sym (first (join s rest)))

flow-links_back_example :
    let links = (flow_payload no_query as_one under_way mounted true true).links in
    (follow before_query mounted (Dict.get "self" links)
      ≡ some (matched (get_route flow_path get_flow "flow") r1_params))
    × (follow before_query mounted (Dict.get "atoms" links)
        ≡ some (matched (get_route atoms_path get_atoms "atoms") r1_params))
    × (follow before_query mounted (Dict.get "events" links)
        ≡ some (matched (get_route events_path get_events "events") r1_params))
    × (follow before_query mounted (Dict.get "stream" links)
        ≡ some (matched (get_route stream_path stream "stream") r1_params))
flow-links_back_example =
    flow-links_back no_query as_one before_query plain_sent under_way mounted true ("meter" ∷ [])
      refl (meter-IsPlain, tt) r1-IsPlain

-- an id with a question mark is not quoted, and the link of its atoms leads to another run
abbrev odd : FlowSnapshot
odd = record under_way { run_id = "a?b" }

odd_atoms :
    follow before_query mounted
      (Dict.get "atoms" (flow_payload no_query as_one odd mounted true true).links)
    ≡ some (matched (get_route flow_path get_flow "flow") (("run_id", "a") ∷ []))
unfolding follow before_query flow_payload flow_links url given_pairs Dict.get format fill
    split_path strip_prefix match match_from match_route match_pieces compile at_end spans
odd_atoms = refl

-- the link to the next page of a listing does not hold the filter of the request
next_page :
    (flow_page no_query as_one
      (record { items = []; next_marker = some "r1" })
      (record mounted { query = ("state", "RUNNING" ∷ []) ∷ [] })
      true).links
    ≡ (flow_page no_query as_one
        (record { items = []; next_marker = some "r1" })
        mounted
        true).links
unfolding flow_page url given_pairs
next_page = refl

match-Answers_example :
    Answers build_routes "POST" "/healthz"
      (methods_at build_routes "/healthz")
      (match build_routes "POST" "/healthz")
match-Answers_example = match-Answers build_routes "POST" "/healthz"

-- `$` also matches before a newline that ends the path
newline : match build_routes "GET" "/healthz\n" ≡ matched (get_route "/healthz" health "health") []
unfolding match match_from match_route match_pieces compile at_end strip_prefix
newline = refl

split-mount_example :
    ((sub : String) → sub ≢ "" → split_path (join "/meter" sub) "/meter" ≡ sub)
    × (◌≢◌ {A = String} "/meter" "" → split_path "/meter" "/meter" ≡ "/")
    × ((path : String) → strip_prefix "/meter" path ≡ none → split_path path "/meter" ≡ path)
    × ((sub : String) → sub ≢ "" → sub ≢ "/" → mount_prefix (join "/meter" sub) sub ≡ "/meter")
split-mount_example = split-mount "/meter"

-- the prefix of a mount, and the letters of a path that only begins with it
letters : split_path "/apiary" "/api" ≡ "ary"
unfolding split_path strip_prefix
letters = refl

-- a service that knows one run
abbrev answer : Endpoint → MeterRequest → Answered (Unit {0})
answer get_flow request =
    raised (record { error = ApiError.not_found; detail = "no such flow"; headers = [] })
answer other request = returned (response (record { status = 200; body = "ok"; headers = [] }))

abbrev size : String → String
size s = "0"

abbrev json : ℕ → String → String → String
json code title detail = join title detail

abbrev asked : MeterRequest
asked = record {
  method = "DELETE";
  path = "/healthz";
  prefix = "";
  query = [];
  headers = [];
  path_params = [];
}

healthz : mem "GET" (methods_at build_routes "/healthz") ≡ true
unfolding methods_at match_route match_pieces compile at_end strip_prefix
healthz = refl

dispatch-advertises_example :
    (dispatch size json answer build_routes (record asked { method = "OPTIONS" })
      ≡ returned (response (no_content (methods_at build_routes "/healthz"))))
    × (str_eq "DELETE" "OPTIONS" ≡ false
        → mem (wanted_method "DELETE") (methods_at build_routes "/healthz") ≡ false
        → dispatch size json answer build_routes asked
          ≡ returned (
              response
                (from_error size json (not_allowed "DELETE" (methods_at build_routes "/healthz")))))
dispatch-advertises_example = dispatch-advertises size json answer build_routes asked "GET" healthz

abbrev health_route : Route Endpoint
health_route = get_route "/healthz" health "health"

found : match build_routes "GET" "/healthz" ≡ matched health_route []
unfolding match match_from match_route match_pieces compile at_end strip_prefix
found = refl

dispatch-head_example :
    ((r : MeterResponse)
      → answer health asked ≡ returned (response r)
      → (dispatch size json answer build_routes (record asked { method = "GET" })
          ≡ returned (response r))
        × (dispatch size json answer build_routes (record asked { method = "HEAD" })
            ≡ returned (response (record r { body = "" }))))
    × ((e : Raised)
        → answer health asked ≡ raised e
        → (dispatch size json answer build_routes (record asked { method = "GET" })
            ≡ returned (response (from_error size json e)))
          × (dispatch size json answer build_routes (record asked { method = "HEAD" })
              ≡ returned (response (from_error size json e))))
dispatch-head_example =
    dispatch-head size json answer build_routes asked health_route [] (λ m r. refl) found
