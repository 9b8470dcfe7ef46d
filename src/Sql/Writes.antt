-- ===== src/Sql/Writes.antt =====
-- What one write to the SQL store does to its tables: the row of a flow, and the rows of events, of
-- which a key that is stored already is passed over.
use taskflow_meter.Prelude.{
  Bool, true, false, ◌||◌, Option, none, some, List, [], ◌∷◌, ◌++◌, String, ◌≡◌, refl, ap, sym, ◌∙◌,
  subst, arith, str_eq, eq_iff, ◌==◌, All, All-append, map, if◌then◌else◌, Bool-cases, Option-cases,
  inl, inr,
}
use mathlib.Core.List.{map-append}
use taskflow_meter.Prelude.Dict
use taskflow_meter.Prelude.Dict.{get-set, Distinct, Distinct-set}
use taskflow_meter.Prelude.Select.{keep, keep_nil, All-keep, keep_yes, keep_no}
use taskflow_meter.Models.{FlowSnapshot}
use taskflow_meter.Events.{Event}
use taskflow_meter.Sql.Rows.{FlowRow, event_row, flow_row, flow_from_row, flow_from_row-flow_row}
use taskflow_meter.Sql.Statements.{Engine, Laws, any_of, same_key}
use taskflow_meter.Sql.{load_flow, save_flow, insert_events, or_unchanged, flow_of}
use taskflow_meter.Sql.Keys.{Holds, DistinctKeys, same_event}

-- whether the key of an event is among those stored
abbrev pub is_stored : Event → List Event → Bool
is_stored x [] = false
is_stored x (y ∷ ys) = same_event x y || is_stored x ys

-- the table after an event is inserted, and after a list of them
unfoldable pub insert_new : List Event → Event → List Event
insert_new es x = if is_stored x es then es else es ++ x ∷ []

unfoldable pub insert_all : List Event → List Event → List Event
insert_all es [] = es
insert_all es (x ∷ xs) = insert_all (insert_new es x) xs

is_stored-rows :
    (x : Event) (es : List Event)
    → any_of (same_key (event_row x)) (map event_row es) ≡ is_stored x es
is_stored-rows x [] = refl
is_stored-rows x (y ∷ ys) =
    ap (λ b. b || any_of (same_key (event_row x)) (map event_row ys)) (one x y)
    ∙ ap (λ b. same_event x y || b) (is_stored-rows x ys)
  where
    one : (x y : Event) → same_key (event_row x) (event_row y) ≡ same_event x y
    one x y = unfold event_row in refl

not_stored-All :
    (x : Event) (es : List Event) → is_stored x es ≡ false → All (λ y. same_event y x ≡ false) es
not_stored-All x [] h = tt
not_stored-All x (y ∷ ys) h = (
  ground (arith, h, eq_iff y.run_id x.run_id, eq_iff x.run_id y.run_id),
  not_stored-All x ys (ground (arith, h)),
)

pub keep-DistinctKeys :
    (p : Event → Bool) (xs : List Event) → DistinctKeys xs → DistinctKeys (keep p xs)
keep-DistinctKeys p [] d = rw (keep_nil p) tt
keep-DistinctKeys p (x ∷ xs) d = elim (Bool-cases (p x)) [
  | inl h ↦
      rw (keep_yes p x xs h)
        (All-keep p (λ y. same_event x y ≡ false) xs d.0, keep-DistinctKeys p xs d.1)
  | inr h ↦ rw (keep_no p x xs h) (keep-DistinctKeys p xs d.1)
]

DistinctKeys-snoc :
    (es : List Event) (x : Event)
    → DistinctKeys es
    → All (λ y. same_event y x ≡ false) es
    → DistinctKeys (es ++ x ∷ [])
DistinctKeys-snoc [] x d h = (tt, tt)
DistinctKeys-snoc (y ∷ ys) x d h = (
  All-append (λ z. same_event y z ≡ false) ys (x ∷ []) d.0 (h.0, tt),
  DistinctKeys-snoc ys x d.1 h.1,
)

module _ (e : Engine) (laws : Laws e) where
  -- one event: the table holds it from then on, and the flows are left alone
  insert_event-Holds :
      (x : Event) (db : e.DB) (es : List Event)
      → Holds e db es
      → let db' = or_unchanged e (e.insert_event (event_row x) db) db in
        Holds e db' (insert_new es x) × (e.flow_rows db' ≡ e.flow_rows db)
  unfolding insert_new
  insert_event-Holds x db es h =
      let key = ap (any_of (same_key (event_row x))) h.rows ∙ is_stored-rows x es in
      elim (Bool-cases (is_stored x es)) [
        | inl there ↦
            let there' = laws.insert_event_there (event_row x) db (key ∙ there) in
            rw (there', there) (h, refl)
        | inr new ↦
            let (db', inserted, rows, flows) = laws.insert_event_new (event_row x) db (key ∙ new) in
            rw (inserted, new)
              (
                record {
                  rows =
                      rows
                      ∙ (ap (λ rs. rs ++ event_row x ∷ []) h.rows
                          ∙ sym (map-append event_row es (x ∷ [])));
                  unique = DistinctKeys-snoc es x h.unique (not_stored-All x es new);
                  keyed = λ k row q. h.keyed k row (ap (Dict.get k) (sym flows) ∙ q);
                  distinct = subst (λ d. Distinct (Dict.keys d)) (sym flows) h.distinct;
                },
                flows,
              )
      ]

  pub insert_events-Holds :
      (xs : List Event) (db : e.DB) (es : List Event)
      → Holds e db es
      → Holds e (insert_events e xs db) (insert_all es xs)
        × (e.flow_rows (insert_events e xs db) ≡ e.flow_rows db)
  unfolding insert_events insert_all
  insert_events-Holds [] db es h = (h, refl)
  insert_events-Holds (x ∷ xs) db es h =
      let one = insert_event-Holds x db es h in
      let rest =
        insert_events-Holds xs (or_unchanged e (e.insert_event (event_row x) db) db)
          (insert_new es x) one.0 in
      (rest.0, rest.1 ∙ one.1)

  -- `_save_flow`: an update, or an insertion where there was nothing to update
  pub save_flow-rows :
      (f : FlowSnapshot) (db : e.DB)
      → (e.flow_rows (save_flow e f db) ≡ Dict.set f.run_id (flow_row f) (e.flow_rows db))
        × (e.event_rows (save_flow e f db) ≡ e.event_rows db)
  unfolding save_flow flow_row
  save_flow-rows f db =
      let row = flow_row f in
      let rows = laws.update_flow_rows row db in
      let count = laws.update_flow_count row db in
      let events = laws.update_flow_events row db in
      let db' = (e.update_flow row db).0 in
      elim (Option-cases (Dict.get f.run_id (e.flow_rows db))) [
        | inr (old, there) ↦
            let one : ((e.update_flow row db).1 == 0) ≡ false = rw (count, there) refl in
            let same : e.flow_rows db' ≡ Dict.set f.run_id row (e.flow_rows db) =
              rows ∙ rw there refl in
            rw one (same, events)
        | inl new ↦
            let zero_rows : ((e.update_flow row db).1 == 0) ≡ true = rw (count, new) refl in
            let same : e.flow_rows db' ≡ e.flow_rows db = rows ∙ rw new refl in
            rw zero_rows (
              laws.insert_flow_rows row db' (ap (Dict.get f.run_id) same ∙ new)
                  ∙ ap (Dict.set f.run_id row) same,
              laws.insert_flow_events row db' ∙ events,
            )
      ]

  pub load_flow-get :
      (r : String) (db : e.DB) → load_flow e r db ≡ flow_of (Dict.get r (e.flow_rows db))
  unfolding load_flow
  load_flow-get r db = ap flow_of (laws.select_flow_lem r db)

  pub load_flow-same :
      (r : String) (db db' : e.DB)
      → e.flow_rows db' ≡ e.flow_rows db
      → load_flow e r db' ≡ load_flow e r db
  load_flow-same r db db' h =
      load_flow-get r db' ∙ (ap (λ d. flow_of (Dict.get r d)) h ∙ sym (load_flow-get r db))

  pub load_flow-save_flow :
      (r : String) (f : FlowSnapshot) (db : e.DB)
      → load_flow e r (save_flow e f db) ≡ (if str_eq r f.run_id then some f else load_flow e r db)
  load_flow-save_flow r f db =
      load_flow-get r (save_flow e f db)
      ∙ (ap (λ d. flow_of (Dict.get r d)) (save_flow-rows f db).0
          ∙ (ap flow_of (get-set r f.run_id (flow_row f) (e.flow_rows db))
              ∙ split (str_eq r f.run_id)))
    where
      split :
          (b : Bool)
          → flow_of (if b then some (flow_row f) else Dict.get r (e.flow_rows db))
            ≡ (if b then some f else load_flow e r db)
      split true = ap some (flow_from_row-flow_row f)
      split false = sym (load_flow-get r db)

  pub save_flow-Holds :
      (f : FlowSnapshot) (db : e.DB) (es : List Event)
      → Holds e db es
      → Holds e (save_flow e f db) es
  save_flow-Holds f db es h =
      let saved = save_flow-rows f db in
      record {
        rows = saved.1 ∙ h.rows;
        unique = h.unique;
        keyed = λ k row q. keyed k row (str_eq k f.run_id) refl (
            sym (get-set k f.run_id (flow_row f) (e.flow_rows db))
            ∙ (ap (Dict.get k) (sym saved.0) ∙ q));
        distinct =
            subst (λ d. Distinct (Dict.keys d)) (sym saved.0)
              (Distinct-set f.run_id (flow_row f) (e.flow_rows db) h.distinct);
      }
    where
      keyed :
          (k : String) (row : FlowRow) (b : Bool)
          → str_eq k f.run_id ≡ b
          → (if b then some (flow_row f) else Dict.get k (e.flow_rows db)) ≡ some row
          → row.run_id ≡ k
      keyed k row true same q = unfold flow_row in ground (arith, q, eq_iff k f.run_id)
      keyed k row false other q = h.keyed k row q

  -- a flow that is loaded is the flow of the run
  pub load_flow-run_id :
      (r : String) (db : e.DB) (es : List Event) (f : FlowSnapshot)
      → Holds e db es
      → load_flow e r db ≡ some f
      → f.run_id ≡ r
  load_flow-run_id r db es f h q = go (Dict.get r (e.flow_rows db)) refl
    where
      go : (o : Option FlowRow) → Dict.get r (e.flow_rows db) ≡ o → f.run_id ≡ r
      go none k = absurd (ground (arith, k, q, load_flow-get r db))
      go (some row) k =
          let loaded : some (flow_from_row row) ≡ some f =
            ap flow_of (sym k) ∙ (sym (load_flow-get r db) ∙ q) in
          let own_id : (flow_from_row row).run_id ≡ row.run_id = unfold flow_from_row in refl in
          ground (arith, loaded, own_id, h.keyed r row k)
