-- ===== src/Sql/Batches.antt =====
-- A batch of the SQL store: the events are sorted into runs, and each run's are folded and inserted.
use taskflow_meter.Prelude.{
  true, false, ◌||◌, Option, none, some, List, [], ◌∷◌, ◌++◌, String, ◌≡◌, refl, ap, sym, ◌∙◌,
  subst, arith, str_eq, eq_iff, All, All-append, Bool-cases, inl, inr,
}
use mathlib.Core.List.{append_assoc, append-nil}
use taskflow_meter.Prelude.Dict
use taskflow_meter.Prelude.Dict.{
  Dict, AllValues, Distinct, Distinct-set, AllValues-set, get-set, mem, mem-keys,
}
use taskflow_meter.Prelude.Select.{keep, keep_nil, keep_yes, keep_no, keep-append}
use taskflow_meter.Models.{FlowSnapshot}
use taskflow_meter.Events.{Event}
use taskflow_meter.Fold.{fold_all}
use taskflow_meter.Diff.First.{learn}
use taskflow_meter.Memory.History.{absorb}
use taskflow_meter.Sql.{or_nothing, group_into, seeded}
use taskflow_meter.Sql.Keys.{same_event, own, is_of}
use taskflow_meter.Sql.Writes.{is_stored, insert_new, insert_all}

-- what is known of a run after some of its events, of which there may be none
unfoldable pub absorb_any : Option FlowSnapshot → List Event → Option FlowSnapshot
absorb_any o [] = o
absorb_any o (x ∷ xs) = absorb o (x ∷ xs)

pub absorb-seeded :
    (o : Option FlowSnapshot) (x : Event) (xs : List Event)
    → absorb o (x ∷ xs) ≡ some (fold_all (seeded o x) (x ∷ xs))
unfolding absorb learn
absorb-seeded none x xs = refl
absorb-seeded (some f) x xs = refl

abbrev pub OfRun : String → List Event → Type 0
OfRun r = All (λ x. x.run_id ≡ r)

-- the events of other runs leave a run's alone
module _ (r : String) where
  stored_other : (y x : Event) → is_of r x ≡ true → is_of r y ≡ false → same_event x y ≡ false
  stored_other y x h k =
      ground (arith, eq_iff y.run_id x.run_id, eq_iff x.run_id r, eq_iff y.run_id r)

  pub own-is_stored :
      (es : List Event) (x : Event) → is_of r x ≡ true → is_stored x (own r es) ≡ is_stored x es
  own-is_stored [] x h = unfold keep in refl
  own-is_stored (y ∷ ys) x h = elim (Bool-cases (is_of r y)) [
    | inl k ↦
        ap (is_stored x) (keep_yes (is_of r) y ys k)
        ∙ ap (λ b. same_event x y || b) (own-is_stored ys x h)
    | inr k ↦
        ap (is_stored x) (keep_no (is_of r) y ys k)
        ∙ (own-is_stored ys x h ∙ ap (λ b. b || is_stored x ys) (sym (stored_other y x h k)))
  ]

  own-append_one : (es : List Event) (x : Event) → own r (es ++ x ∷ []) ≡ own r es ++ own r (x ∷ [])
  own-append_one es x = keep-append (is_of r) es (x ∷ [])

  insert_new-own :
      (es : List Event) (x : Event)
      → is_of r x ≡ true
      → own r (insert_new es x) ≡ insert_new (own r es) x
  unfolding insert_new
  insert_new-own es x h = elim (Bool-cases (is_stored x es)) [
    | inl there ↦ rw (own-is_stored es x h, there) refl
    | inr new ↦
        rw (own-is_stored es x h, new)
          (own-append_one es x
            ∙ ap (λ ys. own r es ++ ys)
                (keep_yes (is_of r) x [] h ∙ ap (◌∷◌ x) (keep_nil (is_of r))))
  ]

  insert_new-other :
      (es : List Event) (x : Event) → is_of r x ≡ false → own r (insert_new es x) ≡ own r es
  unfolding insert_new
  insert_new-other es x h = elim (Bool-cases (is_stored x es)) [
    | inl there ↦ rw there refl
    | inr new ↦ rw new (
        own-append_one es x
        ∙ (ap (λ ys. own r es ++ ys) (keep_no (is_of r) x [] h ∙ keep_nil (is_of r))
            ∙ append-nil (own r es)))
  ]

  pub insert_all-own :
      (es xs : List Event) → OfRun r xs → own r (insert_all es xs) ≡ insert_all (own r es) xs
  unfolding insert_all
  insert_all-own es [] h = refl
  insert_all-own es (x ∷ xs) h =
      insert_all-own (insert_new es x) xs h.1
      ∙ ap (λ ys. insert_all ys xs) (insert_new-own es x ((eq_iff x.run_id r).1 h.0))

  pub insert_all-other :
      (k : String) (es xs : List Event)
      → OfRun k xs
      → str_eq r k ≡ false
      → own r (insert_all es xs) ≡ own r es
  unfolding insert_all
  insert_all-other k es [] h n = refl
  insert_all-other k es (x ∷ xs) h n =
      insert_all-other k (insert_new es x) xs h.1 n
      ∙ insert_new-other es x (ground (arith, h.0, eq_iff x.run_id r, eq_iff r k))

-- the groups of a batch
abbrev pub Grouped : Dict (List Event) → Type 0
Grouped by_run = Distinct (Dict.keys by_run) × AllValues OfRun by_run

get-OfRun :
    (k : String) (d : Dict (List Event)) → AllValues OfRun d → OfRun k (or_nothing (Dict.get k d))
unfolding Dict.get
get-OfRun k [] h = tt
get-OfRun k ((j, xs) ∷ d) h = elim (Bool-cases (str_eq k j)) [
  | inl e ↦ rw e (subst (λ i. OfRun i xs) (sym ((eq_iff k j).0 e)) h.0)
  | inr e ↦ rw e (get-OfRun k d h.1)
]

abbrev add_to : Dict (List Event) → Event → Dict (List Event)
add_to d x = Dict.set x.run_id (or_nothing (Dict.get x.run_id d) ++ x ∷ []) d

pub group_into-Grouped :
    (d : Dict (List Event)) (xs : List Event) → Grouped d → Grouped (group_into d xs)
unfolding group_into
group_into-Grouped d [] h = h
group_into-Grouped d (x ∷ xs) h = group_into-Grouped (add_to d x) xs (
  Distinct-set x.run_id (or_nothing (Dict.get x.run_id d) ++ x ∷ []) d h.0,
  AllValues-set OfRun x.run_id (or_nothing (Dict.get x.run_id d) ++ x ∷ []) d
      (All-append (λ y. y.run_id ≡ x.run_id) (or_nothing (Dict.get x.run_id d)) (x ∷ [])
        (get-OfRun x.run_id d h.1) (refl, tt))
      h.1,
)

pub group_into-get :
    (r : String) (d : Dict (List Event)) (xs : List Event)
    → or_nothing (Dict.get r (group_into d xs)) ≡ or_nothing (Dict.get r d) ++ own r xs
unfolding group_into
group_into-get r d [] = sym (
    ap (λ ys. or_nothing (Dict.get r d) ++ ys) (keep_nil (is_of r))
    ∙ append-nil (or_nothing (Dict.get r d)))
group_into-get r d (x ∷ xs) = elim (Bool-cases (is_of r x)) [
  | inl h ↦
      group_into-get r (add_to d x) xs
      ∙ (ap (λ ys. ys ++ own r xs) (added h)
          ∙ (append_assoc (or_nothing (Dict.get r d)) (x ∷ []) (own r xs)
              ∙ ap (λ ys. or_nothing (Dict.get r d) ++ ys) (sym (keep_yes (is_of r) x xs h))))
  | inr h ↦
      group_into-get r (add_to d x) xs
      ∙ (ap (λ ys. or_nothing ys ++ own r xs) (left h)
          ∙ ap (λ ys. or_nothing (Dict.get r d) ++ ys) (sym (keep_no (is_of r) x xs h)))
]
  where
    added :
        is_of r x ≡ true
        → or_nothing (Dict.get r (add_to d x)) ≡ or_nothing (Dict.get r d) ++ x ∷ []
    added h =
        let same : x.run_id ≡ r = (eq_iff x.run_id r).0 h in
        ap or_nothing (get-set r x.run_id (or_nothing (Dict.get x.run_id d) ++ x ∷ []) d)
        ∙ rw ((eq_iff r x.run_id).1 (sym same)) (ap (λ k. or_nothing (Dict.get k d) ++ x ∷ []) same)

    left : is_of r x ≡ false → Dict.get r (add_to d x) ≡ Dict.get r d
    left h =
        get-set r x.run_id (or_nothing (Dict.get x.run_id d) ++ x ∷ []) d
        ∙ let other : str_eq r x.run_id ≡ false =
            ground (arith, eq_iff r x.run_id, eq_iff x.run_id r) in
          rw other refl
