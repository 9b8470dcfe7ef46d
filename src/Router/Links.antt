-- ===== src/Router/Links.antt =====
-- The links of the API lead back to its routes: a path that is made from a template is matched by the
-- route of that template.
use Prim.Native.Char.{Char, code}
use text.Mathlib.TextLemmas.{nil-append, cons-append, append-nil, append_assoc}
use taskflow_meter.Prelude.{
  false, Option, none, some, List, [], ◌∷◌, String, ◌≡◌, ◌≢◌, refl, ap, sym, ◌∙◌, arith,
  if◌then◌else◌, eq_iff, join, strip_prefix, strip_prefix-join,
}
use taskflow_meter.Prelude.Dict.{Dict}
use taskflow_meter.Router.{
  Piece, literal, parameter, compile, at_end, spans, on_rest, match_pieces, Route, matched,
  match_route, match_from, match, fill, format, get_flow, get_atoms, get_events, stream, flow_path,
  atoms_path, events_path, stream_path, get_route, build_routes, health, list_flows, health_path,
  flows_path,
}
use taskflow_meter.Router.Segments.{
  NoSlash, IsSegment, EndsSegment, spans_whole, spans_never, strip_prefix-differs,
}

-- a template of one parameter that ends with `q`
abbrev template_of : String → String → String → List Piece
template_of p name q = literal p ∷ parameter name ∷ literal q ∷ []

abbrev tail_of : String → String → Option (Dict String)
tail_of q = match_pieces (literal q ∷ [])

tail_itself : (q : String) → tail_of q q ≡ some []
unfolding match_pieces at_end
tail_itself q =
    ap (λ s. tail_of q s) (sym (append-nil q))
    ∙ ap (λ o. on_rest o (match_pieces [])) (strip_prefix-join q "")

template_lem :
    (p name q s : String)
    → match_pieces (template_of p name q) (join p s) ≡ spans (tail_of q) name "" s
unfolding match_pieces
template_lem p name q s =
    ap (λ o. on_rest o (match_pieces (parameter name ∷ literal q ∷ []))) (strip_prefix-join p s)

-- the path that is made from the template
template-matches :
    (p name q v : String)
    → IsSegment v
    → EndsSegment q
    → match_pieces (template_of p name q) (join p (join v q)) ≡ some ((name, v) ∷ [])
template-matches p name q v h e =
    template_lem p name q (join v q)
    ∙ (spans_whole (tail_of q) name "" v q [] h.1 e (λ k. h.0 (sym (nil-append v) ∙ k))
          (tail_itself q)
        ∙ ap (λ t. some ((name, t) ∷ [])) (nil-append v))

-- a path that is made from another template with the same beginning
template-misses :
    (p name q q' v : String)
    → NoSlash v
    → EndsSegment q'
    → tail_of q q' ≡ none
    → ((c : Char) (w : String) → code c ≢ b'/' → tail_of q (String.◌∷◌ c (join w q')) ≡ none)
    → match_pieces (template_of p name q) (join p (join v q')) ≡ none
template-misses p name q q' v h e k f =
    template_lem p name q (join v q') ∙ spans_never (tail_of q) name "" v q' h e k f

-- a tail that begins with a slash does not match in the middle of the segment
slash_misses :
    (d : Char) (q q' : String) (c : Char) (w : String)
    → code d ≡ b'/'
    → code c ≢ b'/'
    → tail_of (String.◌∷◌ d q) (String.◌∷◌ c (join w q')) ≡ none
unfolding match_pieces strip_prefix
slash_misses d q q' c w e h = ground arith

-- the whole path stops at the segment, and something follows
not_at_end : (c d : Char) (w q : String) → at_end (String.◌∷◌ c (join w (String.◌∷◌ d q))) ≡ false
not_at_end c d String.[] q =
    ap (λ s. at_end (String.◌∷◌ c s)) (nil-append (String.◌∷◌ d q)) ∙ (unfold at_end in refl)
not_at_end c d (String.◌∷◌ x w) q =
    ap (λ s. at_end (String.◌∷◌ c s)) (cons-append x w (String.◌∷◌ d q)) ∙ (unfold at_end in refl)

flow_misses :
    (c d : Char) (w q : String) → tail_of "" (String.◌∷◌ c (join w (String.◌∷◌ d q))) ≡ none
unfolding match_pieces strip_prefix
flow_misses c d w q = ap (λ b. if b then some [] else none) (not_at_end c d w q)

abbrev prefix : String
prefix = "/api/v1/flows/"

health_misses :
    (s : String) → match_route (get_route health_path health "health") (join prefix s) ≡ none
unfolding match_route compile match_pieces
health_misses s =
    ap (λ o. on_rest o (match_pieces [])) (strip_prefix-differs "/healthz" prefix s refl)

-- the path of the listing is a beginning of the others
flows_misses :
    (s : String) → match_route (get_route flows_path list_flows "flows") (join prefix s) ≡ none
unfolding match_route compile match_pieces
flows_misses s =
    ap (λ o. on_rest o (match_pieces []))
      (ap (strip_prefix "/api/v1/flows") (append_assoc "/api/v1/flows" "/" s)
        ∙ strip_prefix-join "/api/v1/flows" (join "/" s))
    ∙ (ap (λ t. if at_end t then some [] else none) slash ∙ (unfold at_end in not_the_end s))
  where
    slash : join "/" s ≡ String.◌∷◌ "/" s
    slash = cons-append "/" String.[] s ∙ ap (String.◌∷◌ "/") (nil-append s)

    not_the_end :
        (s : String)
        → ◌≡◌ {A = Option (Dict String)} (if at_end (String.◌∷◌ "/" s) then some [] else none) none
    not_the_end String.[] = unfold at_end in refl
    not_the_end (String.◌∷◌ c s) = unfold at_end in refl

module _ {H : Type 0} (r : Route H) (rs : List (Route H)) (allowed : List String)
    (method path : String) where
  step_past :
      match_route r path ≡ none
      → match_from allowed (r ∷ rs) method path ≡ match_from allowed rs method path
  unfolding match_from
  step_past h = ground (arith, h)

  step_found :
      (params : Dict String)
      → match_route r path ≡ some params
      → r.method ≡ method
      → match_from allowed (r ∷ rs) method path ≡ matched r params
  unfolding match_from
  step_found params h same = ground (arith, h, eq_iff r.method method)

module _ (v : String) (segment : IsSegment v) where
  abbrev params : Dict String
  params = ("run_id", v) ∷ []

  flow_passes :
      (d : Char) (q : String)
      → code d ≡ b'/'
      → match_route (get_route flow_path get_flow "flow") (join prefix (join v (String.◌∷◌ d q)))
        ≡ none
  unfolding match_route compile
  flow_passes d q e =
      template-misses prefix "run_id" "" (String.◌∷◌ d q) v segment.1 e (ends d q e)
        (λ c w h. flow_misses c d w q)
    where
      ends : (d : Char) (q : String) → code d ≡ b'/' → tail_of "" (String.◌∷◌ d q) ≡ none
      ends d String.[] e = unfold match_pieces strip_prefix at_end in ground (arith, e)
      ends d (String.◌∷◌ c q) e = unfold match_pieces strip_prefix at_end in refl

  -- the first two routes are passed by each of these paths
  from_flow :
      (s : String)
      → match build_routes "GET" (join prefix s)
        ≡ match_from []
            (get_route flow_path get_flow "flow"
              ∷ get_route atoms_path get_atoms "atoms"
              ∷ get_route events_path get_events "events"
              ∷ get_route stream_path stream "stream"
              ∷ [])
            "GET"
            (join prefix s)
  unfolding match
  from_flow s =
      step_past (get_route health_path health "health") _ [] "GET" (join prefix s) (health_misses s)
      ∙ step_past (get_route flows_path list_flows "flows") _ [] "GET" (join prefix s)
          (flows_misses s)

  -- The path that a template of a run gives for an id that is not empty and holds no slash is
  -- answered by the route of that template, with the id as its parameter, although the table is
  -- walked in order and the path of a flow begins the other three.
  pub match-format :
      (match build_routes "GET" (format flow_path v)
        ≡ matched (get_route flow_path get_flow "flow") params)
      × (match build_routes "GET" (format atoms_path v)
          ≡ matched (get_route atoms_path get_atoms "atoms") params)
      × (match build_routes "GET" (format events_path v)
          ≡ matched (get_route events_path get_events "events") params)
      × (match build_routes "GET" (format stream_path v)
          ≡ matched (get_route stream_path stream "stream") params)
  unfolding format fill compile match_route
  match-format = (
    from_flow (join v "")
        ∙ step_found (get_route flow_path get_flow "flow") _ [] "GET" (join prefix (join v ""))
            params (template-matches prefix "run_id" "" v segment tt) refl,
    from_flow (join v "/atoms")
        ∙ (step_past (get_route flow_path get_flow "flow") _ [] "GET" _
              (flow_passes "/" "atoms" refl)
            ∙ step_found (get_route atoms_path get_atoms "atoms") _ [] "GET" _ params
                (template-matches prefix "run_id" "/atoms" v segment refl) refl),
    from_flow (join v "/events")
        ∙ (step_past (get_route flow_path get_flow "flow") _ [] "GET" _
              (flow_passes "/" "events" refl)
            ∙ (step_past (get_route atoms_path get_atoms "atoms") _ [] "GET" _
                  (misses "atoms" "/events" refl (unfold match_pieces strip_prefix in refl))
                ∙ step_found (get_route events_path get_events "events") _ [] "GET" _ params
                    (template-matches prefix "run_id" "/events" v segment refl) refl)),
    from_flow (join v "/stream")
        ∙ (step_past (get_route flow_path get_flow "flow") _ [] "GET" _
              (flow_passes "/" "stream" refl)
            ∙ (step_past (get_route atoms_path get_atoms "atoms") _ [] "GET" _
                  (misses "atoms" "/stream" refl (unfold match_pieces strip_prefix in refl))
                ∙ (step_past (get_route events_path get_events "events") _ [] "GET" _
                      (misses "events" "/stream" refl (unfold match_pieces strip_prefix in refl))
                    ∙ step_found (get_route stream_path stream "stream") _ [] "GET" _ params
                        (template-matches prefix "run_id" "/stream" v segment refl) refl))),
  )
    where
      misses :
          (q q' : String)
          → EndsSegment q'
          → tail_of (String.◌∷◌ "/" q) q' ≡ none
          → match_pieces (template_of prefix "run_id" (String.◌∷◌ "/" q)) (join prefix (join v q'))
            ≡ none
      misses q q' e k =
          template-misses prefix "run_id" (String.◌∷◌ "/" q) q' v segment.1 e k
            (λ c w h. slash_misses "/" q q' c w refl h)
