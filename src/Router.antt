-- ===== src/Router.antt =====
-- api/router.py and the table of api/routes.py: path templates, the regular expressions that they are
-- compiled to, and the walk over the table. A pattern is the list of its pieces, and `re` tries the
-- longest span of a parameter first. A handler is a value of any type.
pub mod Segments
pub mod Links
pub mod Table
use Prim.Native.Char.{code}
use taskflow_meter.Prelude.{
  ℕ, zero, suc, ◌+◌, Bool, true, false, ◌&&◌, ◌||◌, Option, none, some, List, [], ◌∷◌, ◌++◌, String,
  str_eq, leb, ◌==◌, le_str, join, strip_prefix, if◌then◌else◌,
}
use taskflow_meter.Prelude.Dict
use taskflow_meter.Prelude.Dict.{Dict, mem}
use taskflow_meter.Prelude.Sort.{sorted}

-- what a template is compiled to: an escaped literal, or `(?P<name>[^/]+)`
pub data Piece : Type 0 where
  literal parameter : String → Piece

-- `[a-zA-Z_]` and `[a-zA-Z0-9_]`
unfoldable pub starts_name : ℕ → Bool
starts_name c = (leb b'a' c && leb c b'z') || (leb b'A' c && leb c b'Z') || c == b'_'

unfoldable pub in_name : ℕ → Bool
unfolding starts_name
in_name c = starts_name c || (leb b'0' c && leb c b'9')

-- the rest of `\{([a-zA-Z_][a-zA-Z0-9_]*)\}` after its brace: the name, and how many characters it and
-- the closing brace take
unfoldable pub name_rest : ℕ → String → String → Option (String × ℕ)
name_rest n name String.[] = none
name_rest n name (String.◌∷◌ c s) = elim (code c == b'}') [
  | true ↦ some (name, n + 1)
  | false ↦ elim (in_name (code c)) [
    | true ↦ name_rest (n + 1) (join name (String.◌∷◌ c String.[])) s
    | false ↦ none
  ]
]

unfoldable pub name_of : String → Option (String × ℕ)
name_of String.[] = none
name_of (String.◌∷◌ c s) =
    if starts_name (code c) then name_rest 1 (String.◌∷◌ c String.[]) s else none

-- whether a parameter stands here
unfoldable pub found_at : ℕ → String → Option (String × ℕ)
found_at c s = if c == b'{' then name_of s else none

-- `Route.compile`: the spans between the parameters are literals; `skip` characters belong to a
-- parameter that has been found
unfoldable pub pieces : ℕ → String → String → List Piece
pieces skip span String.[] = literal span ∷ []
pieces (suc skip) span (String.◌∷◌ c s) = pieces skip span s
pieces zero span (String.◌∷◌ c s) = elim (found_at (code c) s) [
  | none ↦ pieces zero (join span (String.◌∷◌ c String.[])) s
  | some (name, skip) ↦ literal span ∷ parameter name ∷ pieces skip "" s
]

unfoldable pub compile : String → List Piece
unfolding pieces found_at name_of name_rest in_name starts_name
compile template = pieces 0 "" template

-- `$`: at the end, or before a newline that ends the text
unfoldable pub at_end : String → Bool
at_end String.[] = true
at_end (String.◌∷◌ c String.[]) = code c == 10
at_end (String.◌∷◌ c (String.◌∷◌ d s)) = false

-- a span that may not be empty, and what is made of the rest
abbrev pub captured : String → String → Option (Dict String) → Option (Dict String)
captured name String.[] rest = none
captured name (String.◌∷◌ c s) none = none
captured name (String.◌∷◌ c s) (some found) = some ((name, String.◌∷◌ c s) ∷ found)

abbrev pub or_else {ℓ} : {A : Type ℓ} → Option A → Option A → Option A
or_else none o = o
or_else (some a) o = some a

-- `[^/]+`, greedily and with backtracking: `taken` is the span so far
unfoldable pub spans :
    (String → Option (Dict String)) → String → String → String → Option (Dict String)
spans rest name taken String.[] = captured name taken (rest String.[])
spans rest name taken (String.◌∷◌ c s) = elim (code c == b'/') [
  | true ↦ captured name taken (rest (String.◌∷◌ c s))
  | false ↦
      or_else (spans rest name (join taken (String.◌∷◌ c String.[])) s)
        (captured name taken (rest (String.◌∷◌ c s)))
]

abbrev pub on_rest : Option String → (String → Option (Dict String)) → Option (Dict String)
on_rest none k = none
on_rest (some s) k = k s

-- `pattern.match(path)` with its `groupdict()`
unfoldable pub match_pieces : List Piece → String → Option (Dict String)
match_pieces [] s = if at_end s then some [] else none
match_pieces (literal p ∷ ps) s = on_rest (strip_prefix p s) (match_pieces ps)
match_pieces (parameter name ∷ ps) s = spans (match_pieces ps) name "" s

pub record Route (H : Type 0) : Type 0 where
  pub method : String
  pub template : String
  pub handler : H
  pub name : String

-- `Outcome`, with what a `Match` carries in each case
pub data Match (H : Type 0) : Type 0 where
  matched : Route H → Dict String → Match H
  not_found : Match H
  method_not_allowed : List String → Match H

-- `set(...)`, as a list
unfoldable pub unique : List String → List String
unique [] = []
unique (x ∷ xs) = if mem x xs then unique xs else x ∷ unique xs

abbrev pub unmatched : {H : Type 0} → List String → Match H
unmatched [] = not_found
unmatched (a ∷ rest) = method_not_allowed (sorted le_str (unique (a ∷ rest)))

module _ {H : Type 0} where
  unfoldable pub match_route : Route H → String → Option (Dict String)
  match_route r path = match_pieces (compile r.template) path

  -- the loop of `match`
  unfoldable pub match_from : List String → List (Route H) → String → String → Match H
  match_from allowed [] method path = unmatched allowed
  match_from allowed (r ∷ rs) method path = elim (match_route r path) [
    | none ↦ match_from allowed rs method path
    | some params ↦ elim (str_eq r.method method) [
      | true ↦ matched r params
      | false ↦ match_from (allowed ++ r.method ∷ []) rs method path
    ]
  ]

  unfoldable pub match : List (Route H) → String → String → Match H
  match routes method path = match_from [] routes method path

  -- `self._by_name`, in which the last route of a name stays; `none` is the `KeyError`
  unfoldable pub template_for : List (Route H) → String → Option String
  template_for [] name = none
  template_for (r ∷ rs) name =
      or_else (template_for rs name) (if str_eq r.name name then some r.template else none)

-- `template.format(name=value)`, for a template of one parameter
unfoldable pub fill : List Piece → String → String
fill [] value = ""
fill (literal p ∷ ps) value = join p (fill ps value)
fill (parameter name ∷ ps) value = join value (fill ps value)

unfoldable pub format : String → String → String
format template value = fill (compile template) value

-- routes.py
pub data Endpoint : Type 0 where
  health list_flows get_flow get_atoms get_events stream : Endpoint

abbrev pub health_path : String
health_path = "/healthz"

abbrev pub flows_path : String
flows_path = "/api/v1/flows"

abbrev pub flow_path : String
flow_path = "/api/v1/flows/{run_id}"

abbrev pub atoms_path : String
atoms_path = "/api/v1/flows/{run_id}/atoms"

abbrev pub events_path : String
events_path = "/api/v1/flows/{run_id}/events"

abbrev pub stream_path : String
stream_path = "/api/v1/flows/{run_id}/stream"

abbrev pub get_route : String → Endpoint → String → Route Endpoint
get_route template handler name = record {
  method = "GET";
  template = template;
  handler = handler;
  name = name;
}

abbrev pub build_routes : List (Route Endpoint)
build_routes =
    get_route health_path health "health"
    ∷ get_route flows_path list_flows "flows"
    ∷ get_route flow_path get_flow "flow"
    ∷ get_route atoms_path get_atoms "atoms"
    ∷ get_route events_path get_events "events"
    ∷ get_route stream_path stream "stream"
    ∷ []

abbrev pub templates : List String
templates = health_path ∷ flows_path ∷ flow_path ∷ atoms_path ∷ events_path ∷ stream_path ∷ []
