-- ===== src/Sql/Applied.antt =====
-- `apply_many` of the SQL store as a whole: what is known of each run, and its events, after a batch.
use taskflow_meter.Prelude.{
  false, some, List, [], ◌∷◌, String, ◌≡◌, refl, ap, sym, ◌∙◌, subst, arith, str_eq, eq_iff,
  if◌then◌else◌, Bool-cases, Option-cases, inl, inr,
}
use taskflow_meter.Prelude.Dict
use taskflow_meter.Prelude.Dict.{Dict, AllValues, Distinct, mem, mem-keys}
use taskflow_meter.Models.{FlowSnapshot}
use taskflow_meter.Events.{Event}
use taskflow_meter.Fold.{fold_all, flow_from_event}
use taskflow_meter.Fold.Identity.{SameRun-fold_all}
use taskflow_meter.Memory.History.{absorb}
use taskflow_meter.Sql.Statements.{Engine, Laws}
use taskflow_meter.Sql.{
  or_nothing, group_into, seeded, load_flow, save_flow, apply_run, apply_groups, apply_many,
}
use taskflow_meter.Sql.Keys.{Holds, own}
use taskflow_meter.Sql.Writes.{
  insert_all, insert_events-Holds, save_flow-Holds, load_flow-same, load_flow-save_flow,
  load_flow-run_id,
}
use taskflow_meter.Sql.Batches.{
  absorb_any, absorb-seeded, OfRun, insert_all-own, insert_all-other, Grouped, group_into-Grouped,
  group_into-get,
}

-- the table of events after the groups have been inserted
unfoldable pub merged : List Event → Dict (List Event) → List Event
merged es [] = es
merged es ((k, xs) ∷ d) = merged (insert_all es xs) d

-- a run that no other group speaks of
not_there :
    (k : String) (d : Dict (List Event))
    → mem k (Dict.keys d) ≡ false
    → or_nothing (Dict.get k d) ≡ []
not_there k d h = elim (Option-cases (Dict.get k d)) [
  | inl q ↦ ap or_nothing q
  | inr (xs, q) ↦ absurd (ground (arith, h, q, mem-keys k d))
]

module _ (e : Engine) (laws : Laws e) where
  abbrev folded : String → Event → List Event → e.DB → FlowSnapshot
  folded k x xs db = fold_all (seeded (load_flow e k db) x) (x ∷ xs)

  folded-run_id :
      (k : String) (x : Event) (xs : List Event) (db : e.DB) (es : List Event)
      → Holds e db es
      → x.run_id ≡ k
      → (folded k x xs db).run_id ≡ k
  folded-run_id k x xs db es h own_run =
      (SameRun-fold_all (seeded (load_flow e k db) x) (x ∷ xs)).run_id
      ∙ elim (Option-cases (load_flow e k db)) [
        | inl new ↦ ap (λ o. (seeded o x).run_id) new ∙ (unfold flow_from_event in own_run)
        | inr (f, there) ↦
            ap (λ o. (seeded o x).run_id) there ∙ load_flow-run_id e laws k db es f h there
      ]

  apply_run-Holds :
      (k : String) (xs : List Event) (db : e.DB) (es : List Event)
      → Holds e db es
      → Holds e (apply_run e k xs db) (insert_all es xs)
  unfolding apply_run
  apply_run-Holds k [] db es h = unfold insert_all in h
  apply_run-Holds k (x ∷ xs) db es h =
      (insert_events-Holds e laws (x ∷ xs) (save_flow e (folded k x xs db) db) es
        (save_flow-Holds e laws (folded k x xs db) db es h)).0

  apply_run-load :
      (r k : String) (xs : List Event) (db : e.DB) (es : List Event)
      → Holds e db es
      → OfRun k xs
      → load_flow e r (apply_run e k xs db)
        ≡ (if str_eq r k then absorb_any (load_flow e r db) xs else load_flow e r db)
  unfolding apply_run absorb_any
  apply_run-load r k [] db es h own_run = elim (Bool-cases (str_eq r k)) [
    | inl p ↦ rw p refl
    | inr p ↦ rw p refl
  ]
  apply_run-load r k (x ∷ xs) db es h own_run =
      let f = folded k x xs db in
      let saved = save_flow e f db in
      load_flow-same e laws r saved _
        (insert_events-Holds e laws (x ∷ xs) saved es (save_flow-Holds e laws f db es h)).1
      ∙ (load_flow-save_flow e laws r f db
          ∙ (ap (λ i. if str_eq r i then some f else load_flow e r db)
                (folded-run_id k x xs db es h own_run.0)
              ∙ elim (Bool-cases (str_eq r k)) [
                | inl p ↦ rw p (
                    sym (absorb-seeded (load_flow e k db) x xs)
                    ∙ ap (λ i. absorb (load_flow e i db) (x ∷ xs)) (sym ((eq_iff r k).0 p)))
                | inr p ↦ rw p refl
              ]))

  apply_groups-Holds :
      (d : Dict (List Event)) (db : e.DB) (es : List Event)
      → Holds e db es
      → Holds e (apply_groups e d db) (merged es d)
  unfolding apply_groups merged
  apply_groups-Holds [] db es h = h
  apply_groups-Holds ((k, xs) ∷ d) db es h =
      apply_groups-Holds d (apply_run e k xs db) (insert_all es xs) (apply_run-Holds k xs db es h)

  apply_groups-load :
      (r : String) (d : Dict (List Event)) (db : e.DB) (es : List Event)
      → Holds e db es
      → Grouped d
      → load_flow e r (apply_groups e d db)
        ≡ absorb_any (load_flow e r db) (or_nothing (Dict.get r d))
  unfolding apply_groups Dict.get
  apply_groups-load r [] db es h g = unfold absorb_any in refl
  apply_groups-load r ((k, xs) ∷ d) db es h g =
      let db' = apply_run e k xs db in
      let one = apply_run-load r k xs db es h g.1.0 in
      apply_groups-load r d db' (insert_all es xs) (apply_run-Holds k xs db es h) (g.0.1, g.1.1)
      ∙ elim (Bool-cases (str_eq r k)) [
        | inl p ↦ rw p (
            ap (absorb_any (load_flow e r db')) (
              not_there r d
                (subst (λ i. mem i (Dict.keys d) ≡ false) (sym ((eq_iff r k).0 p)) g.0.0))
            ∙ (unfold absorb_any in one ∙ rw p refl))
        | inr p ↦ rw p (ap (λ o. absorb_any o (or_nothing (Dict.get r d))) (one ∙ rw p refl))
      ]

merged-own :
    (r : String) (d : Dict (List Event)) (es : List Event)
    → Grouped d
    → own r (merged es d) ≡ insert_all (own r es) (or_nothing (Dict.get r d))
unfolding merged Dict.get
merged-own r [] es g = unfold insert_all in refl
merged-own r ((k, xs) ∷ d) es g = elim (Bool-cases (str_eq r k)) [
  | inl p ↦
      let same = (eq_iff r k).0 p in
      rw p (
        merged-own r d (insert_all es xs) (g.0.1, g.1.1)
        ∙ (ap (insert_all (own r (insert_all es xs)))
              (not_there r d (subst (λ i. mem i (Dict.keys d) ≡ false) (sym same) g.0.0))
            ∙ (unfold insert_all in
                insert_all-own r es xs (subst (λ i. OfRun i xs) (sym same) g.1.0))))
  | inr p ↦ rw p (
      merged-own r d (insert_all es xs) (g.0.1, g.1.1)
      ∙ ap (λ ys. insert_all ys (or_nothing (Dict.get r d))) (insert_all-other r k es xs g.1.0 p))
]

abbrev pub after : List Event → List Event → List Event
after es batch = merged es (group_into [] batch)

module _ (e : Engine) (laws : Laws e) (batch : List Event) (db : e.DB) (es : List Event)
    (holds : Holds e db es) where
  grouped : Grouped (group_into [] batch)
  grouped = group_into-Grouped [] batch (tt, tt)

  pub apply_many-Holds : Holds e (apply_many e batch db) (after es batch)
  unfolding apply_many
  apply_many-Holds = apply_groups-Holds e laws (group_into [] batch) db es holds

  pub apply_many-load :
      (r : String)
      → load_flow e r (apply_many e batch db) ≡ absorb_any (load_flow e r db) (own r batch)
  unfolding apply_many Dict.get
  apply_many-load r =
      apply_groups-load e laws r (group_into [] batch) db es holds grouped
      ∙ ap (absorb_any (load_flow e r db)) (group_into-get r [] batch)

  pub apply_many-own : (r : String) → own r (after es batch) ≡ insert_all (own r es) (own r batch)
  unfolding Dict.get
  apply_many-own r =
      merged-own r (group_into [] batch) es grouped
      ∙ ap (insert_all (own r es)) (group_into-get r [] batch)
