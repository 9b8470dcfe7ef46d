-- ===== src/Router/Segments.antt =====
-- How a parameter of a template takes a segment of a path.
use Prim.Native.Char.{Char, code}
use text.Mathlib.TextLemmas.{nil-append, cons-append, append-nil, append_assoc}
use taskflow_meter.Prelude.{
  Bool, true, false, Option, none, some, ◌∷◌, String, ◌≡◌, ◌≢◌, refl, ap, sym, ◌∙◌, arith, ◌==◌,
  if◌then◌else◌, join, strip_prefix,
}
use taskflow_meter.Prelude.Dict.{Dict}
use taskflow_meter.Router.{captured, or_else, spans}

-- a value that fills one segment of a path
abbrev pub NoSlash : String → Type 0
NoSlash String.[] = Unit
NoSlash (String.◌∷◌ c s) = (code c ≢ b'/') × NoSlash s

abbrev pub IsSegment : String → Type 0
IsSegment v = (v ≢ "") × NoSlash v

-- what may follow the segment
abbrev pub EndsSegment : String → Type 0
EndsSegment String.[] = Unit
EndsSegment (String.◌∷◌ c s) = code c ≡ b'/'

abbrev pub one : Char → String
one c = String.◌∷◌ c String.[]

join-one : (taken v : String) (c : Char) → join (join taken (one c)) v ≡ join taken (String.◌∷◌ c v)
join-one taken v c =
    append_assoc taken (one c) v
    ∙ ap (join taken) (cons-append c String.[] v ∙ ap (String.◌∷◌ c) (nil-append v))

spans_char :
    (rest : String → Option (Dict String)) (name taken : String) (c : Char) (s : String)
    → code c ≢ b'/'
    → spans rest name taken (String.◌∷◌ c s)
      ≡ or_else
          (spans rest name (join taken (one c)) s)
          (captured name taken (rest (String.◌∷◌ c s)))
unfolding spans
spans_char rest name taken c s h = ground arith

spans_stop :
    (rest : String → Option (Dict String)) (name taken s : String)
    → EndsSegment s
    → spans rest name taken s ≡ captured name taken (rest s)
unfolding spans
spans_stop rest name taken String.[] h = refl
spans_stop rest name taken (String.◌∷◌ c s) h = ground arith

captured-some :
    (name taken : String) (found : Dict String)
    → taken ≢ ""
    → captured name taken (some found) ≡ some ((name, taken) ∷ found)
captured-some name String.[] found h = absurd (h refl)
captured-some name (String.◌∷◌ c s) found h = refl

captured-none : (name taken : String) → captured name taken none ≡ none
captured-none name String.[] = refl
captured-none name (String.◌∷◌ c s) = refl

-- the whole segment is taken where the rest matches
pub spans_whole :
    (rest : String → Option (Dict String)) (name taken v s : String) (found : Dict String)
    → NoSlash v
    → EndsSegment s
    → join taken v ≢ ""
    → rest s ≡ some found
    → spans rest name taken (join v s) ≡ some ((name, join taken v) ∷ found)
spans_whole rest name taken String.[] s found h e n k =
    ap (spans rest name taken) (nil-append s)
    ∙ (spans_stop rest name taken s e
        ∙ (ap (captured name taken) k
            ∙ (captured-some name taken found (λ q. n (append-nil taken ∙ q))
                ∙ ap (λ t. some ((name, t) ∷ found)) (sym (append-nil taken)))))
spans_whole rest name taken (String.◌∷◌ c v) s found h e n k =
    ap (spans rest name taken) (cons-append c v s)
    ∙ (spans_char rest name taken c (join v s) h.0
        ∙ (ap (λ o. or_else o (captured name taken (rest (String.◌∷◌ c (join v s)))))
              (spans_whole rest name (join taken (one c)) v s found h.1 e
                (λ q. n (sym (join-one taken v c) ∙ q)) k)
            ∙ ap (λ t. some ((name, t) ∷ found)) (join-one taken v c)))

-- no span will do where the rest matches neither what follows the segment nor any part of it
pub spans_never :
    (rest : String → Option (Dict String)) (name taken v s : String)
    → NoSlash v
    → EndsSegment s
    → rest s ≡ none
    → ((c : Char) (w : String) → code c ≢ b'/' → rest (String.◌∷◌ c (join w s)) ≡ none)
    → spans rest name taken (join v s) ≡ none
spans_never rest name taken String.[] s h e k f =
    ap (spans rest name taken) (nil-append s)
    ∙ (spans_stop rest name taken s e ∙ (ap (captured name taken) k ∙ captured-none name taken))
spans_never rest name taken (String.◌∷◌ c v) s h e k f =
    ap (spans rest name taken) (cons-append c v s)
    ∙ (spans_char rest name taken c (join v s) h.0
        ∙ (ap (λ o. or_else o (captured name taken (rest (String.◌∷◌ c (join v s)))))
              (spans_never rest name (join taken (one c)) v s h.1 e k f)
            ∙ (ap (captured name taken) (f c v h.0) ∙ captured-none name taken)))

-- two literals that part before either ends
abbrev differs : String → String → Bool
differs String.[] q = false
differs (String.◌∷◌ c p) String.[] = false
differs (String.◌∷◌ c p) (String.◌∷◌ d q) = if code c == code d then differs p q else true

pub strip_prefix-differs : (p q s : String) → differs p q ≡ true → strip_prefix p (join q s) ≡ none
unfolding strip_prefix
strip_prefix-differs String.[] q s h = absurd (ground (arith, h))
strip_prefix-differs (String.◌∷◌ c p) String.[] s h = absurd (ground (arith, h))
strip_prefix-differs (String.◌∷◌ c p) (String.◌∷◌ d q) s h =
    ap (strip_prefix (String.◌∷◌ c p)) (cons-append d q s)
    ∙ ground (arith, h, strip_prefix-differs p q s)
