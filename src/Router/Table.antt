-- ===== src/Router/Table.antt =====
-- What the walk over a table of routes answers, for any table, method and path.
use taskflow_meter.Prelude.{
  true, false, ◌||◌, none, some, List, [], ◌∷◌, ◌++◌, String, ◌≡◌, ◌≢◌, refl, sym, ◌∙◌, subst,
  arith, str_eq, eq_iff, le_str, le_str_total, le_str_trans, All, All_Memᴰ, inl, inr, Bool-cases,
  Option-cases,
}
use mathlib.Core.List.{append_assoc, append-nil, Memᴰ}
use taskflow_meter.Prelude.Dict.{Dict, mem, Distinct}
use taskflow_meter.Prelude.Sort.{sorted, mem-sorted, sorted-Distinct, sorted-Ascending, Ascending}
use taskflow_meter.Router.{
  Route, Match, matched, not_found, method_not_allowed, unique, unmatched, match_route, match_from,
  match,
}

-- the methods of the routes whose template the path fits, in the order of the table
unfoldable pub methods_at : {H : Type 0} → List (Route H) → String → List String
methods_at [] path = []
methods_at (r ∷ rs) path = elim (match_route r path) [
  | none ↦ methods_at rs path
  | some params ↦ r.method ∷ methods_at rs path
]

-- What is answered for a method and a path: a route of the table that has the method and whose
-- template the path fits, with the parameters; or that no template fits; or, sorted and each once,
-- the methods of the templates that fit, of which none is the method asked for.
pub data Answers {H : Type 0} (table : List (Route H)) (method path : String)
    (methods : List String) : Match H → Type 0 where
  hit :
      (r : Route H) (params : Dict String)
      → Memᴰ r table
      → r.method ≡ method
      → match_route r path ≡ some params
      → Answers table method path methods (matched r params)
  miss : methods ≡ [] → Answers table method path methods not_found
  wrong :
      (allowed : List String)
      → methods ≢ []
      → mem method methods ≡ false
      → ((m : String) → mem m allowed ≡ mem m methods)
      → Distinct allowed
      → Ascending le_str allowed
      → Answers table method path methods (method_not_allowed allowed)

pub mem-unique : (m : String) (xs : List String) → mem m (unique xs) ≡ mem m xs
unfolding unique
mem-unique m [] = refl
mem-unique m (x ∷ xs) = ground (arith, mem-unique m xs, eq_iff m x)

pub unique-Distinct : (xs : List String) → Distinct (unique xs)
unfolding unique
unique-Distinct [] = tt
unique-Distinct (x ∷ xs) = elim (Bool-cases (mem x xs)) [
  | inl h ↦ rw h (unique-Distinct xs)
  | inr h ↦ rw h (mem-unique x xs ∙ h, unique-Distinct xs)
]

pub mem-append : (m : String) (xs ys : List String) → mem m (xs ++ ys) ≡ (mem m xs || mem m ys)
mem-append m [] ys = refl
mem-append m (x ∷ xs) ys = ground (arith, mem-append m xs ys)

module _ {H : Type 0} (table : List (Route H)) (method path : String) where
  unmatched-Answers :
      (methods : List String)
      → mem method methods ≡ false
      → Answers table method path methods (unmatched methods)
  unmatched-Answers [] h = miss refl
  unmatched-Answers (a ∷ rest) h =
      let all = unique (a ∷ rest) in
      wrong (sorted le_str all) (λ q. absurd (ground (arith, q))) h
        (λ m. mem-sorted le_str m all ∙ mem-unique m (a ∷ rest))
        (sorted-Distinct le_str all (unique-Distinct (a ∷ rest)))
        (sorted-Ascending le_str le_str_total le_str_trans all)

  -- one route more
  no_fit :
      (allowed : List String) (r : Route H) (rs : List (Route H))
      → match_route r path ≡ none
      → Answers table method path
          (allowed ++ methods_at rs path)
          (match_from allowed rs method path)
      → Answers table method path
          (allowed ++ methods_at (r ∷ rs) path)
          (match_from allowed (r ∷ rs) method path)
  unfolding match_from methods_at
  no_fit allowed r rs q h = rw (q, match_from, methods_at) h

  fit :
      (allowed : List String) (r : Route H) (rs : List (Route H)) (params : Dict String)
      → match_route r path ≡ some params
      → str_eq r.method method ≡ true
      → Memᴰ r table
      → Answers table method path
          (allowed ++ methods_at (r ∷ rs) path)
          (match_from allowed (r ∷ rs) method path)
  unfolding match_from
  fit allowed r rs params q same inside =
      rw (q, match_from, same) (hit r params inside ((eq_iff r.method method).0 same) q)

  other_method :
      (allowed : List String) (r : Route H) (rs : List (Route H)) (params : Dict String)
      → match_route r path ≡ some params
      → str_eq r.method method ≡ false
      → Answers table method path
          ((allowed ++ r.method ∷ []) ++ methods_at rs path)
          (match_from (allowed ++ r.method ∷ []) rs method path)
      → Answers table method path
          (allowed ++ methods_at (r ∷ rs) path)
          (match_from allowed (r ∷ rs) method path)
  unfolding match_from methods_at
  other_method allowed r rs params q other h =
      rw (q, match_from, methods_at, other)
        (subst
          (λ ms.
            Answers table method path ms (match_from (allowed ++ r.method ∷ []) rs method path))
          (append_assoc allowed (r.method ∷ []) (methods_at rs path)) h)

  match_from-Answers :
      (allowed : List String) (rs : List (Route H))
      → mem method allowed ≡ false
      → All (λ r. Memᴰ r table) rs
      → Answers table method path
          (allowed ++ methods_at rs path)
          (match_from allowed rs method path)
  match_from-Answers allowed [] h inside =
      unfold match_from methods_at in
      subst (λ ms. Answers table method path ms (unmatched allowed)) (sym (append-nil allowed))
        (unmatched-Answers allowed h)
  match_from-Answers allowed (r ∷ rs) h inside = elim (Option-cases (match_route r path)) [
    | inl q ↦ no_fit allowed r rs q (match_from-Answers allowed rs h inside.1)
    | inr (params, q) ↦ elim (Bool-cases (str_eq r.method method)) [
      | inl same ↦ fit allowed r rs params q same inside.0
      | inr other ↦
          let apart : mem method (allowed ++ r.method ∷ []) ≡ false =
            mem-append method allowed (r.method ∷ [])
            ∙ ground (arith, h, eq_iff method r.method, eq_iff r.method method) in
          other_method allowed r rs params q other
            (match_from-Answers (allowed ++ r.method ∷ []) rs apart inside.1)
    ]
  ]

  -- For any table, method and path the router answers with a route of the table that has the
  -- method and whose template the path fits; or, where no template fits, that there is none; or,
  -- where some fit and none has the method, with the methods of those that fit, in order and each
  -- once.
  pub match-Answers : Answers table method path (methods_at table path) (match table method path)
  unfolding match
  match-Answers = match_from-Answers [] table refl (All_Memᴰ table)
