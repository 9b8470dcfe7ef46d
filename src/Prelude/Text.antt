-- ===== src/Prelude/Text.antt =====
-- Texts: equality is decided, and the order is that of the code points, as Python compares `str`.
use Prim.Native.Nat.{compare, Ordering}
use Prim.Native.Char.{code}
use Prim.Native.String
use Prim.Native.String.{String}
use mathlib.Core.Path.{◌≡◌, refl, ap, ◌∙◌}
use mathlib.Core.Bool.{Bool, true, false}
use mathlib.Core.Logic.{◌⊎◌, inl, inr}
use native.Mathlib.Omega.{arith}
use native.Mathlib.Decide.{ℕ_discrete}
use text.Mathlib.Text.{◌==◌ as str_eq}
use text.Mathlib.TextEquality.{eq_iff, Char-path}
use text.Mathlib.TextLemmas.{nil-append, cons-append}
use mathlib.Core.Option.{Option, none, some}
use taskflow_meter.Prelude.Tests.{Bool-cases, ◌==◌}

unfoldable pub String-discrete : Discrete String
unfolding Bool-cases
String-discrete a b = elim (Bool-cases (str_eq a b)) [
  | inl e ↦ yes ((eq_iff a b).0 e)
  | inr e ↦ no (λ p. ground (arith, eq_iff a b))
]

unfoldable pub le_str : String → String → Bool
le_str String.[] t = true
le_str (String.◌∷◌ c s) String.[] = false
le_str (String.◌∷◌ c s) (String.◌∷◌ d t) = elim (compare (code c) (code d)) [
  | Ordering.lt ↦ true
  | Ordering.eq ↦ le_str s t
  | Ordering.gt ↦ false
]

pub le_str_total : (s t : String) → (le_str s t ≡ true) ⊎ (le_str t s ≡ true)
unfolding le_str
le_str_total String.[] t = inl refl
le_str_total (String.◌∷◌ c s) String.[] = inr refl
le_str_total (String.◌∷◌ c s) (String.◌∷◌ d t) = ground (arith, le_str_total s t)

pub le_str_trans : (s t u : String) → le_str s t ≡ true → le_str t u ≡ true → le_str s u ≡ true
unfolding le_str
le_str_trans String.[] t u p q = refl
le_str_trans (String.◌∷◌ c s) String.[] u p q = ground arith
le_str_trans (String.◌∷◌ c s) (String.◌∷◌ d t) String.[] p q = ground arith
le_str_trans (String.◌∷◌ c s) (String.◌∷◌ d t) (String.◌∷◌ e u) p q =
    ground (arith, le_str_trans s t u)

pub le_str_antisym : (s t : String) → le_str s t ≡ true → le_str t s ≡ true → s ≡ t
unfolding le_str
le_str_antisym String.[] String.[] p q = refl
le_str_antisym String.[] (String.◌∷◌ d t) p q = ground arith
le_str_antisym (String.◌∷◌ c s) String.[] p q = ground arith
le_str_antisym (String.◌∷◌ c s) (String.◌∷◌ d t) p q = elim (ℕ_discrete (code c) (code d)) [
  | yes e ↦ λ i. String.◌∷◌ (Char-path c d e i) (le_str_antisym s t (ground arith) (ground arith) i)
  | no n ↦ absurd (ground arith)
]

abbrev pub join : String → String → String
join s t = String.◌++◌ s t

-- what follows the prefix of a text, where it begins with that
unfoldable pub strip_prefix : String → String → Option String
strip_prefix String.[] s = some s
strip_prefix (String.◌∷◌ c p) String.[] = none
strip_prefix (String.◌∷◌ c p) (String.◌∷◌ d s) = elim (code c == code d) [
  | true ↦ strip_prefix p s
  | false ↦ none
]

pub strip_prefix-join : (p s : String) → strip_prefix p (join p s) ≡ some s
unfolding strip_prefix
strip_prefix-join String.[] s = ap some (nil-append s)
strip_prefix-join (String.◌∷◌ c p) s =
    ap (strip_prefix (String.◌∷◌ c p)) (cons-append c p s) ∙ ground (arith, strip_prefix-join p s)
