-- ===== src/Dispatch/Allowed.antt =====
-- The methods that a path takes, as `_options` finds them and as the router reports them.
use taskflow_meter.Prelude.{
  ℕ, true, false, ◌||◌, Option, none, some, List, [], ◌∷◌, ◌++◌, String, ◌≡◌, refl, ap, sym, ◌&&◌,
  Option-cases, ◌∙◌, subst, arith, str_eq, eq_iff, le_str, le_str_antisym, le_str_total,
  le_str_trans, All, Bool-cases, inl, inr,
}
use mathlib.Core.List.{Memᴰ}
use taskflow_meter.Prelude.Dict.{Dict, mem, Distinct}
use taskflow_meter.Prelude.Sort.{sorted, Ascending, sorted-Ascending, sorted-Distinct, mem-sorted}
use taskflow_meter.Http.{MeterRequest}
use taskflow_meter.Router.{Route, Match, match, match_route, unique}
use taskflow_meter.Router.Table.{
  mem-unique, unique-Distinct, mem-append, Answers, hit, miss, wrong, methods_at, match-Answers,
}
use taskflow_meter.Dispatch.{Answered, allow, comma_joined, is_matched, allowed_at}

of_mem {ℓ} :
    (P : String → Type ℓ) (n : String) (xs : List String) → mem n xs ≡ true → All P xs → P n
of_mem P n [] h k = absurd (ground (arith, h))
of_mem P n (x ∷ xs) h k = elim (Bool-cases (str_eq n x)) [
  | inl e ↦ subst P (sym ((eq_iff n x).0 e)) k.0
  | inr e ↦ of_mem P n xs (ground (arith, h)) k.1
]

-- two lists of names in order, each once, that hold the same names are the same list
Ascending-unique :
    (xs ys : List String)
    → Distinct xs
    → Distinct ys
    → Ascending le_str xs
    → Ascending le_str ys
    → ((n : String) → mem n xs ≡ mem n ys)
    → xs ≡ ys
Ascending-unique [] [] dx dy ax ay h = refl
Ascending-unique [] (y ∷ ys) dx dy ax ay h = absurd (ground (arith, h y, eq_iff y y))
Ascending-unique (x ∷ xs) [] dx dy ax ay h = absurd (ground (arith, h x, eq_iff x x))
Ascending-unique (x ∷ xs) (y ∷ ys) dx dy ax ay h =
    ap (λ z. z ∷ xs) first ∙ ap (◌∷◌ y) (Ascending-unique xs ys dx.1 dy.1 ax.1 ay.1 (λ n. tails n))
  where
    first : x ≡ y
    first = elim (Bool-cases (str_eq x y)) [
      | inl e ↦ (eq_iff x y).0 e
      | inr e ↦
          le_str_antisym x y
            (of_mem (λ n. le_str x n ≡ true) y xs
              (ground (arith, h y, eq_iff y y, eq_iff x y, eq_iff y x)) ax.0)
            (of_mem (λ n. le_str y n ≡ true) x ys (ground (arith, h x, eq_iff x x)) ay.0)
    ]

    tails : (n : String) → mem n xs ≡ mem n ys
    tails n = elim (Bool-cases (str_eq n x)) [
      | inl e ↦
          let at_x : n ≡ x = (eq_iff n x).0 e in
          ap (λ m. mem m xs) at_x ∙ (dx.0 ∙ (sym dy.0 ∙ ap (λ m. mem m ys) (sym (at_x ∙ first))))
      | inr e ↦
          let other : str_eq n y ≡ false = subst (λ z. str_eq n z ≡ false) first e in
          sym (ap (λ b. b || mem n xs) e) ∙ (h n ∙ ap (λ b. b || mem n ys) other)
    ]

pub allow_same : (xs ys : List String) → ((m : String) → mem m xs ≡ mem m ys) → allow xs ≡ allow ys
unfolding allow
allow_same xs ys h =
    let extra : List String = "HEAD" ∷ "OPTIONS" ∷ [] in
    ap comma_joined (
      Ascending-unique (sorted le_str (unique (xs ++ extra))) (sorted le_str (unique (ys ++ extra)))
        (sorted-Distinct le_str _ (unique-Distinct (xs ++ extra)))
        (sorted-Distinct le_str _ (unique-Distinct (ys ++ extra)))
        (sorted-Ascending le_str le_str_total le_str_trans (unique (xs ++ extra)))
        (sorted-Ascending le_str le_str_total le_str_trans (unique (ys ++ extra)))
        (λ m.
          mem-sorted le_str m (unique (xs ++ extra))
          ∙ (mem-unique m (xs ++ extra)
              ∙ (mem-append m xs extra
                  ∙ (ap (λ b. b || mem m extra) (h m)
                      ∙ (sym (mem-append m ys extra)
                          ∙ (sym (mem-unique m (ys ++ extra))
                              ∙ sym (mem-sorted le_str m (unique (ys ++ extra))))))))))

abbrev pub methods_of : {H : Type 0} → List (Route H) → List String
methods_of [] = []
methods_of (r ∷ rs) = r.method ∷ methods_of rs

module _ {H : Type 0} (routes : List (Route H)) (path : String) where
  pub mem-methods_at :
      (rs : List (Route H)) (r : Route H) (params : Dict String)
      → Memᴰ r rs
      → match_route r path ≡ some params
      → mem r.method (methods_at rs path) ≡ true
  mem-methods_at [] r params m q = elim m [ ]
  mem-methods_at (x ∷ rs) r params (Memᴰ.head e) q =
      unfold methods_at in ground (arith, e, q, eq_iff r.method x.method)
  mem-methods_at (x ∷ rs) r params (Memᴰ.tail t) q =
      later (match_route x path) refl (mem-methods_at rs r params t q)
    where
      later :
          (o : Option (Dict String))
          → match_route x path ≡ o
          → mem r.method (methods_at rs path) ≡ true
          → mem r.method (methods_at (x ∷ rs) path) ≡ true
      later none k ih = unfold methods_at in ground (arith, k, ih)
      later (some ps) k ih = unfold methods_at in ground (arith, k, ih)

  is_matched-mem : (m : String) → is_matched (match routes m path) ≡ mem m (methods_at routes path)
  is_matched-mem m = go (match routes m path) (match-Answers routes m path)
    where
      go :
          (a : Match H)
          → Answers routes m path (methods_at routes path) a
          → is_matched a ≡ mem m (methods_at routes path)
      go _ (hit r params inside same fits) = sym (
          ap (λ k. mem k (methods_at routes path)) (sym same)
          ∙ mem-methods_at routes r params inside fits)
      go _ (miss empty) = sym (ap (mem m) empty)
      go _ (wrong allowed some_fit not_there same d a) = sym not_there

  -- the loop of `_options` asks for each route's method, and finds the methods that fit
  allowed_at-mem :
      {S : Type 0} (length_of : String → String) (render : ℕ → String → String → String)
      (handle : H → MeterRequest → Answered S) (m : String) (rs : List (Route H))
      → mem m (allowed_at length_of render handle routes rs path)
        ≡ (mem m (methods_of rs) && mem m (methods_at routes path))
  unfolding allowed_at
  allowed_at-mem length_of render handle m [] = refl
  allowed_at-mem length_of render handle m (r ∷ rs) = ground (
    arith,
    allowed_at-mem length_of render handle m rs,
    is_matched-mem r.method,
    eq_iff m r.method,
  )

  methods_at-methods_of :
      (m : String) (rs : List (Route H))
      → mem m (methods_at rs path) ≡ true
      → mem m (methods_of rs) ≡ true
  methods_at-methods_of m [] h = absurd (unfold methods_at in ground (arith, h))
  methods_at-methods_of m (r ∷ rs) h = elim (Option-cases (match_route r path)) [
    | inl q ↦
        ground (arith, methods_at-methods_of m rs (sym (ap (mem m) (methods_at-none r rs q)) ∙ h))
    | inr (ps, q) ↦
        let split = sym (ap (mem m) (methods_at-some r rs ps q)) ∙ h in
        ground (arith, split, methods_at-methods_of m rs)
  ]
    where
      methods_at-none :
          (r : Route H) (rs : List (Route H))
          → match_route r path ≡ none
          → methods_at (r ∷ rs) path ≡ methods_at rs path
      methods_at-none r rs q = unfold methods_at in ground (arith, q)

      methods_at-some :
          (r : Route H) (rs : List (Route H)) (ps : Dict String)
          → match_route r path ≡ some ps
          → methods_at (r ∷ rs) path ≡ r.method ∷ methods_at rs path
      methods_at-some r rs ps q = unfold methods_at in ground (arith, q)

  pub allowed_at-same :
      {S : Type 0} (length_of : String → String) (render : ℕ → String → String → String)
      (handle : H → MeterRequest → Answered S) (m : String)
      → mem m (allowed_at length_of render handle routes routes path)
        ≡ mem m (methods_at routes path)
  allowed_at-same length_of render handle m =
      ground
        (arith, allowed_at-mem length_of render handle m routes, methods_at-methods_of m routes)
