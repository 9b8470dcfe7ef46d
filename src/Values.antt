-- ===== src/Values.antt =====
-- Python values where the source says `Any`: what stands in an event's `details`, in a snapshot's
-- `meta`, and in the payloads that are only stored and compared.
use taskflow_meter.Prelude.{
  Bool, true, false, not, Option, none, some, String, str_eq, ◌||◌, String-discrete,
}
use taskflow_meter.Prelude.Dict
use taskflow_meter.Prelude.Dict.{Dict}

-- `null` is `None`. A value that is no `str`, `bool` or `None` is kept as its canonical text.
pub data Value : Type 0 where
  null : Value
  flag : Bool → Value
  str : String → Value
  other : String → Value

unfoldable pub Value-discrete : Discrete Value
unfolding String-discrete
Value-discrete = hlevel String-discrete

abbrev pub is_null : Value → Bool
is_null Value.null = true
is_null _ = false

-- `str(value)`
unfoldable pub text_of : Value → String
text_of Value.null = "None"
text_of (Value.flag true) = "True"
text_of (Value.flag false) = "False"
text_of (Value.str s) = s
text_of (Value.other s) = s

-- `bool(value)`
unfoldable pub truthy : Value → Bool
truthy Value.null = false
truthy (Value.flag b) = b
truthy (Value.str s) = not (str_eq s "")
truthy (Value.other s) =
    not (str_eq s "0" || str_eq s "0.0" || str_eq s "{}" || str_eq s "[]" || str_eq s "()")

-- `details.get(key)`
unfoldable pub look : String → Dict Value → Value
look k d = elim (Dict.get k d) [ none ↦ Value.null | some v ↦ v ]

-- `details.get(key, default)`
unfoldable pub look_or : String → Value → Dict Value → Value
look_or k v d = elim (Dict.get k d) [ none ↦ v | some w ↦ w ]

-- `_optional_str`
unfoldable pub optional_str : Value → Option String
optional_str Value.null = none
optional_str v = some (text_of v)
