-- ===== src/Http/Mounts.antt =====
-- A path under a mount prefix: it is split again, and the prefix is recovered from it.
use Prim.Native.Char.{Char}
use text.Mathlib.TextLemmas.{nil-append, cons-append, append-nil, append_cancel_right, nil≢cons}
use taskflow_meter.Prelude.{
  false, ◌||◌, none, some, String, ◌≡◌, ◌≢◌, refl, ap, sym, ◌∙◌, arith, str_eq, eq_iff, join,
  strip_prefix, strip_prefix-join, Bool-cases, inl, inr,
}
use taskflow_meter.Http.{
  or_slash, after_root, split_path, strip_suffix, or_empty_text, mount_prefix,
}

strip_suffix-join :
    (root suffix : String) → suffix ≢ "" → strip_suffix suffix (join root suffix) ≡ some root
unfolding strip_suffix
strip_suffix-join String.[] String.[] h = absurd (h refl)
strip_suffix-join String.[] (String.◌∷◌ c s) h =
    ap (strip_suffix (String.◌∷◌ c s)) (nil-append (String.◌∷◌ c s))
    ∙ ground (arith, eq_iff (String.◌∷◌ c s) (String.◌∷◌ c s))
strip_suffix-join (String.◌∷◌ c r) suffix h =
    let longer : str_eq suffix (String.◌∷◌ c (join r suffix)) ≡ false = apart c r suffix in
    ap (strip_suffix suffix) (cons-append c r suffix)
    ∙ ground (arith, longer, strip_suffix-join r suffix h)
  where
    apart : (c : Char) (r suffix : String) → str_eq suffix (String.◌∷◌ c (join r suffix)) ≡ false
    apart c r suffix = elim (Bool-cases (str_eq suffix (String.◌∷◌ c (join r suffix)))) [
      | inr e ↦ e
      | inl e ↦
          let same = (eq_iff suffix (String.◌∷◌ c (join r suffix))).0 e in
          absurd (
            nil≢cons (
              append_cancel_right String.[] (String.◌∷◌ c r) suffix
                (nil-append suffix ∙ (same ∙ sym (cons-append c r suffix)))))
    ]

or_slash_lem : (s : String) → s ≢ "" → or_slash s ≡ s
or_slash_lem s h = ground (arith, eq_iff s "")

pub split_path-join : (root sub : String) → sub ≢ "" → split_path (join root sub) root ≡ sub
unfolding split_path
split_path-join root sub h = elim (Bool-cases (str_eq root "")) [
  | inl e ↦ rw e (ap (λ t. join t sub) ((eq_iff root "").0 e) ∙ nil-append sub)
  | inr e ↦
      rw e
        (ap (λ o. after_root o (join root sub)) (strip_prefix-join root sub) ∙ or_slash_lem sub h)
]

-- the path of the mount itself
split_path-root : (root : String) → root ≢ "" → split_path root root ≡ "/"
unfolding split_path
split_path-root root h =
    let given : str_eq root "" ≡ false = ground (arith, eq_iff root "") in
    let whole : strip_prefix root root ≡ some "" =
      ap (strip_prefix root) (sym (append-nil root)) ∙ strip_prefix-join root "" in
    rw given (ap (λ o. after_root o root) whole)

-- a path that does not begin with the prefix
split_path-apart :
    (root path : String) → strip_prefix root path ≡ none → split_path path root ≡ path
unfolding split_path
split_path-apart root path h = elim (Bool-cases (str_eq root "")) [
  | inl e ↦ rw e refl
  | inr e ↦ rw e (ap (λ o. after_root o path) h)
]

mount_prefix-join :
    (root sub : String) → sub ≢ "" → sub ≢ "/" → mount_prefix (join root sub) sub ≡ root
unfolding mount_prefix
mount_prefix-join root sub h k =
    let some_path : (str_eq sub "" || str_eq sub "/") ≡ false =
      ground (arith, eq_iff sub "", eq_iff sub "/") in
    rw some_path (ap or_empty_text (strip_suffix-join root sub h))

-- A path that begins with the letters of the prefix, and goes on, is routed as what follows them,
-- also where no slash follows: under /api the path /apiary is routed as ary, though the documents
-- ask for a genuine prefix. The prefix alone is routed as the root, if it is not empty, and a path
-- that does not begin with it as it is. From a whole path and what the host left of it, where that
-- is more than a slash, the prefix is recovered.
pub split-mount :
    (root : String)
    → ((sub : String) → sub ≢ "" → split_path (join root sub) root ≡ sub)
      × (root ≢ "" → split_path root root ≡ "/")
      × ((path : String) → strip_prefix root path ≡ none → split_path path root ≡ path)
      × ((sub : String) → sub ≢ "" → sub ≢ "/" → mount_prefix (join root sub) sub ≡ root)
split-mount root =
    (split_path-join root, split_path-root root, split_path-apart root, mount_prefix-join root)
