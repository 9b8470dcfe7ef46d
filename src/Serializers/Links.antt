-- ===== src/Serializers/Links.antt =====
-- The links of a flow lead back into the table of routes.
use Prim.Native.Char.{Char, code}
use text.Mathlib.TextLemmas.{nil-append, append_assoc}
use taskflow_meter.Prelude.{
  ◌&&◌, ◌||◌, ◌==◌, ◌++◌, leb, join, All, All-append, subst, eq_iff, ℕ, Bool, true, Option, none,
  some, List, [], ◌∷◌, String, ◌≡◌, ◌≢◌, refl, ap, ◌∙◌, arith, sym, strip_prefix,
}
use taskflow_meter.Prelude.Dict
use taskflow_meter.Prelude.Dict.{Dict}
use taskflow_meter.Models.{FlowSnapshot}
use taskflow_meter.Http.{MeterRequest, url, split_path, given_pairs}
use taskflow_meter.Http.Mounts.{split_path-join}
use taskflow_meter.Router.{
  Match, Route, matched, not_found, match, match_from, match_route, match_pieces, build_routes,
  get_route, Endpoint, get_flow, get_atoms, get_events, stream, format, fill, compile, flow_path,
  atoms_path, events_path, stream_path,
}
use taskflow_meter.Router.Links.{match-format}
use taskflow_meter.Router.Segments.{NoSlash}
use taskflow_meter.Serializers.{flow_payload, flow_links}

-- a letter, a digit, a hyphen or an underscore, which no URL writes in another way
abbrev pub is_plain : Char → Bool
is_plain c =
    (leb b'a' (code c) && leb (code c) b'z')
    || (leb b'A' (code c) && leb (code c) b'Z')
    || (leb b'0' (code c) && leb (code c) b'9')
    || code c == b'-'
    || code c == b'_'

abbrev pub AllPlain : String → Type 0
AllPlain String.[] = Unit
AllPlain (String.◌∷◌ c s) = (is_plain c ≡ true) × AllPlain s

abbrev pub IsPlain : String → Type 0
IsPlain s = (s ≢ "") × AllPlain s

-- the absolute path of these segments, which is empty where there are none
abbrev pub path_of : List String → String
path_of [] = ""
path_of (s ∷ segments) = join "/" (join s (path_of segments))

-- where a link leads: `sent` is what a client that follows it sends, and the server decodes, as the
-- path, and the adapter routes that under the prefix of the request
unfoldable pub follow : (String → String) → MeterRequest → Option String → Option (Match Endpoint)
follow sent req none = none
follow sent req (some link) = some (match build_routes "GET" (split_path (sent link) req.prefix))

AllPlain-NoSlash : (s : String) → AllPlain s → NoSlash s
AllPlain-NoSlash String.[] h = tt
AllPlain-NoSlash (String.◌∷◌ c s) h = (λ q. ground (arith, q, h.0), AllPlain-NoSlash s h.1)

path_of-append : (xs ys : List String) → join (path_of xs) (path_of ys) ≡ path_of (xs ++ ys)
path_of-append [] ys = nil-append (path_of ys)
path_of-append (x ∷ xs) ys =
    append_assoc "/" (join x (path_of xs)) (path_of ys)
    ∙ ap (join "/") (append_assoc x (path_of xs) (path_of ys) ∙ ap (join x) (path_of-append xs ys))

api-IsPlain : IsPlain "api"
api-IsPlain = ((λ q. ground (arith, q, eq_iff "api" "")), (refl, (refl, (refl, tt))))

v1-IsPlain : IsPlain "v1"
v1-IsPlain = ((λ q. ground (arith, q, eq_iff "v1" "")), (refl, (refl, tt)))

flows-IsPlain : IsPlain "flows"
flows-IsPlain =
    ((λ q. ground (arith, q, eq_iff "flows" "")), (refl, (refl, (refl, (refl, (refl, tt))))))

atoms-IsPlain : IsPlain "atoms"
atoms-IsPlain =
    ((λ q. ground (arith, q, eq_iff "atoms" "")), (refl, (refl, (refl, (refl, (refl, tt))))))

events-IsPlain : IsPlain "events"
events-IsPlain = (
  (λ q. ground (arith, q, eq_iff "events" "")),
  (refl, (refl, (refl, (refl, (refl, (refl, tt)))))),
)

stream-IsPlain : IsPlain "stream"
stream-IsPlain = (
  (λ q. ground (arith, q, eq_iff "stream" "")),
  (refl, (refl, (refl, (refl, (refl, (refl, tt)))))),
)

-- the segments of a link to a run, before those of a template's end
abbrev to_run : String → List String → List String
to_run v rest = "api" ∷ "v1" ∷ "flows" ∷ v ∷ rest

to_run_lem :
    (v : String) (rest : List String)
    → path_of (to_run v rest) ≡ join "/api/v1/flows/" (join v (path_of rest))
to_run_lem v rest =
    glue "/" "api" (join "/" (join "v1" (join "/" (join "flows" (join "/" end)))))
    ∙ (glue "/api" "/" (join "v1" (join "/" (join "flows" (join "/" end))))
        ∙ (glue "/api/" "v1" (join "/" (join "flows" (join "/" end)))
            ∙ (glue "/api/v1" "/" (join "flows" (join "/" end))
                ∙ (glue "/api/v1/" "flows" (join "/" end) ∙ glue "/api/v1/flows" "/" end))))
  where
    end : String
    end = join v (path_of rest)

    glue : (a b t : String) → join a (join b t) ≡ join (join a b) t
    glue a b t = sym (append_assoc a b t)

-- no route is at the empty path
not_empty :
    (path : String) (r : Route Endpoint) (params : Dict String)
    → match build_routes "GET" path ≡ matched r params
    → path ≢ ""
unfolding match match_from match_route match_pieces compile strip_prefix
not_empty path r params found e =
    let none_there : match build_routes "GET" "" ≡ not_found = refl in
    absurd (ground (arith, sym found ∙ (ap (match build_routes "GET") e ∙ none_there)))

module _ (urlencode : List (String × String) → String) (str_of : ℕ → String)
    (sent : String → String)
    (as_it_is : (segments : List String)
      → All IsPlain segments
      → sent (path_of segments) ≡ path_of segments) where
  follow-url :
      (req : MeterRequest) (mount : List String) (v : String) (rest : List String) (path : String)
      (r : Route Endpoint) (params : Dict String)
      → req.prefix ≡ path_of mount
      → All IsPlain mount
      → IsPlain v
      → All IsPlain rest
      → path ≡ path_of (to_run v rest)
      → match build_routes "GET" path ≡ matched r params
      → follow sent req (some (url urlencode req path [])) ≡ some (matched r params)
  unfolding follow url given_pairs
  follow-url req mount v rest path r params at plain pv pr written found =
      let segments = mount ++ to_run v rest in
      let whole : join req.prefix path ≡ path_of segments =
        ap (λ p. join p path) at
        ∙ (ap (join (path_of mount)) written ∙ path_of-append mount (to_run v rest)) in
      let plain_all =
        All-append IsPlain mount (to_run v rest) plain
          (api-IsPlain, (v1-IsPlain, (flows-IsPlain, (pv, pr)))) in
      let same : sent (join req.prefix path) ≡ join req.prefix path =
        subst (λ t. sent t ≡ t) (sym whole) (as_it_is segments plain_all) in
      ap (λ t. some (match build_routes "GET" (split_path t req.prefix))) same
      ∙ (ap (λ p. some (match build_routes "GET" p))
            (split_path-join req.prefix path (not_empty path r params found))
          ∙ ap some found)

  -- Every link of a flow that is served with events is routed back to the endpoint that it names,
  -- with the run's id as its parameter, where the id and each segment of the mount prefix are not
  -- empty and hold only letters, digits, hyphens and underscores, and the client and the server
  -- hand on as it is an absolute path of such segments. No other id is covered, as a link does not
  -- quote it.
  pub flow-links_back :
      (f : FlowSnapshot) (req : MeterRequest) (with_atoms : Bool) (mount : List String)
      → req.prefix ≡ path_of mount
      → All IsPlain mount
      → IsPlain f.run_id
      → let links = (flow_payload urlencode str_of f req with_atoms true).links in
        let params : Dict String = ("run_id", f.run_id) ∷ [] in
        (follow sent req (Dict.get "self" links)
          ≡ some (matched (get_route flow_path get_flow "flow") params))
        × (follow sent req (Dict.get "atoms" links)
            ≡ some (matched (get_route atoms_path get_atoms "atoms") params))
        × (follow sent req (Dict.get "events" links)
            ≡ some (matched (get_route events_path get_events "events") params))
        × (follow sent req (Dict.get "stream" links)
            ≡ some (matched (get_route stream_path stream "stream") params))
  unfolding flow_payload flow_links Dict.get format fill compile
  flow-links_back f req with_atoms mount at plain segment =
      let v = f.run_id in
      let found = match-format v (segment.0, AllPlain-NoSlash v segment.1) in
      (
        follow-url req mount v [] (format flow_path v) _ _ at plain segment tt
            (sym (to_run_lem v [])) found.0,
        follow-url req mount v ("atoms" ∷ []) (format atoms_path v) _ _ at plain segment
            (atoms-IsPlain, tt) (sym (to_run_lem v ("atoms" ∷ []))) found.1,
        follow-url req mount v ("events" ∷ []) (format events_path v) _ _ at plain segment
            (events-IsPlain, tt) (sym (to_run_lem v ("events" ∷ []))) found.2,
        follow-url req mount v ("stream" ∷ []) (format stream_path v) _ _ at plain segment
            (stream-IsPlain, tt) (sym (to_run_lem v ("stream" ∷ []))) found.3,
      )
