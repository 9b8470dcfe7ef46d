-- ===== src/Http.antt =====
-- api/http.py: requests, responses and errors, and the prefix under which the API is mounted. The
-- JSON of a body is a parameter of what writes one.
pub mod Mounts
use Prim.Native.Char.{code}
use taskflow_meter.Prelude.{
  ℕ, Bool, true, false, ◌||◌, ◌&&◌, Option, none, some, List, [], ◌∷◌, ◌++◌, String, str_eq, ◌==◌,
  join, strip_prefix, if◌then◌else◌, ◌>>=◌,
}
use taskflow_meter.Prelude.Dict.{Dict}

-- the subclasses of `ApiError`
pub data ApiError : Type 0 where
  bad_request not_found method_not_allowed unsupported : ApiError

abbrev pub status : ApiError → ℕ
status ApiError.bad_request = 400
status ApiError.not_found = 404
status ApiError.method_not_allowed = 405
status ApiError.unsupported = 501

abbrev pub title : ApiError → String
title ApiError.bad_request = "Bad Request"
title ApiError.not_found = "Not Found"
title ApiError.method_not_allowed = "Method Not Allowed"
title ApiError.unsupported = "Not Implemented"

abbrev pub Headers : Type 0
Headers = List (String × String)

-- an error as it is raised
pub record Raised : Type 0 where
  pub error : ApiError
  pub detail : String
  pub headers : Headers

pub record MeterRequest : Type 0 where
  pub method : String
  pub path : String
  pub prefix : String
  pub query : Dict (List String)
  pub headers : Dict String
  pub path_params : Dict String

pub record MeterResponse : Type 0 where
  pub status : ℕ
  pub body : String
  pub headers : Headers

abbrev pub or_slash : String → String
or_slash s = if str_eq s "" then "/" else s

abbrev pub after_root : Option String → String → String
after_root none path = path
after_root (some rest) path = or_slash rest

unfoldable pub split_path : String → String → String
split_path path root_path =
    if str_eq root_path "" then path else after_root (strip_prefix root_path path) path

-- `text.rstrip("/")`
unfoldable pub rstrip_slash : String → String
rstrip_slash String.[] = ""
rstrip_slash (String.◌∷◌ c s) =
    let rest = rstrip_slash s in if str_eq rest "" && code c == b'/' then "" else String.◌∷◌ c rest

-- what precedes the suffix of a text, where it ends with that
unfoldable pub strip_suffix : String → String → Option String
strip_suffix suffix String.[] = if str_eq suffix "" then some "" else none
strip_suffix suffix (String.◌∷◌ c s) = elim (str_eq suffix (String.◌∷◌ c s)) [
  | true ↦ some ""
  | false ↦ strip_suffix suffix s >>= λ rest. some (String.◌∷◌ c rest)
]

abbrev pub or_empty_text : Option String → String
or_empty_text none = ""
or_empty_text (some s) = s

unfoldable pub mount_prefix : String → String → String
mount_prefix full_path sub_path =
    if str_eq sub_path "" || str_eq sub_path "/"
    then rstrip_slash full_path
    else or_empty_text (strip_suffix sub_path full_path)

-- the parameters of a link that are not `None`
unfoldable pub given_pairs : List (String × Option String) → List (String × String)
given_pairs [] = []
given_pairs ((key, none) ∷ query) = given_pairs query
given_pairs ((key, some value) ∷ query) = (key, value) ∷ given_pairs query

abbrev pub with_query : (List (String × String) → String) → String → List (String × String) → String
with_query urlencode full [] = full
with_query urlencode full (pair ∷ pairs) = join full (join "?" (urlencode (pair ∷ pairs)))

-- `url`; `urlencode` is the standard library's, and a number is written as its text before
unfoldable pub url :
    (List (String × String) → String)
    → MeterRequest
    → String
    → List (String × Option String)
    → String
url urlencode req path query = with_query urlencode (join req.prefix path) (given_pairs query)

-- `MeterResponse.json`; `length_of` writes the number of bytes of a body
unfoldable pub json_response : (String → String) → String → ℕ → Headers → MeterResponse
json_response length_of body code extra = record {
  status = code;
  body = body;
  headers = ("content-type", "application/json") ∷ ("content-length", length_of body) ∷ extra;
}

-- `MeterResponse.from_error`; `render` makes the JSON of a status, a title and a detail
unfoldable pub from_error :
    (String → String) → (ℕ → String → String → String) → Raised → MeterResponse
from_error length_of render r =
    json_response length_of (render (status r.error) (title r.error) r.detail) (status r.error)
      r.headers

-- `MeterResponse.header`: the first of the name, whatever its case
unfoldable pub header : (String → String) → String → Headers → Option String
header lower name [] = none
header lower name ((key, value) ∷ rest) =
    if str_eq (lower key) (lower name) then some value else header lower name rest
