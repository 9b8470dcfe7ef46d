-- ===== src/Diff/First.antt =====
-- The first sight of a run: what its events tell a store that knows nothing of it.
use taskflow_meter.Prelude.{
  ℕ, List, [], ◌∷◌, ◌++◌, ◌≡◌, refl, Option, none, some, ◌⊎◌, inl, inr, ap, sym, ◌∙◌, All, arith,
  Bool, true, false, Bool-cases, subst, eq_iff,
}
use taskflow_meter.Prelude.Dict
use taskflow_meter.Prelude.Dict.{Dict}
use taskflow_meter.Values.{Value, text_of, look, look_or, optional_str}
use taskflow_meter.Events.{Event, EventKind, Allocator, allocate}
use taskflow_meter.Models.{FlowSnapshot, is_finished, atom_names}
use taskflow_meter.Fold.{flow_from_event, fold, fold_kind, fold_all, or_text}
use taskflow_meter.Fold.Identity.{SameRun-fold_all}
use taskflow_meter.Diff.{
  new_event, identity, events_for, flow_events, atom_events, entry, state_details, atom_state_event,
  atom_progress_event, same_flow_state, ordered, stamp, stamp_time, diff_flow,
}
use taskflow_meter.Fold.Replay.{fold_all-append, fold_all-stamp, observed, seen}
use taskflow_meter.Diff.Every.{All-ordered}
use taskflow_meter.Diff.Replay.{All_atom-events_for, name-fold_all, Follows, ordered-Follows}
use taskflow_meter.Diff.Roundtrip.{IsKeyed}
use taskflow_meter.Diff.Stamp.{diff_flow-stamp}

abbrev pub flow_event : FlowSnapshot → Event
flow_event new = new_event new EventKind.flow_state none new.state none none (identity none new)

pub flow_events_first : (new : FlowSnapshot) → flow_events none new ≡ flow_event new ∷ []
unfolding flow_events same_flow_state
flow_events_first new = refl

name-flow_event :
    (new f : FlowSnapshot)
    → (f.name ≡ new.name) ⊎ (f.name ≡ "")
    → (fold_all f (flow_event new ∷ [])).name ≡ new.name
unfolding fold_all fold fold_kind new_event identity look Dict.get optional_str text_of or_text
name-flow_event new f h = ground (arith, eq_iff new.name "")

-- What a store does with the events of a run that it knows nothing of: the first one seeds the run,
-- and all of them are folded in.
unfoldable pub learn : List Event → Option FlowSnapshot
learn [] = none
learn (e ∷ es) = some (fold_all (flow_from_event e) (e ∷ es))

-- the name is that of the flow's own event, wherever it stands among the others
name-ordered :
    (new f : FlowSnapshot)
    → (f.name ≡ new.name) ⊎ (f.name ≡ "")
    → (fold_all f (ordered none new)).name ≡ new.name
unfolding ordered atom_events
name-ordered new f h =
    let atoms = events_for [] new (atom_names new) in
    let quiet = All_atom-events_for [] new (atom_names new) in
    elim (Bool-cases (is_finished new)) [
      | inl e ↦
          rw (e, fold_all-append f atoms (flow_events none new), flow_events_first new)
            (name-flow_event new (fold_all f atoms) (elim h [
              | inl k ↦ inl (name-fold_all f atoms quiet ∙ k)
              | inr k ↦ inr (name-fold_all f atoms quiet ∙ k)
            ]))
      | inr e ↦
          rw (e, fold_all-append f (flow_events none new) atoms, flow_events_first new)
            (name-fold_all (fold_all f (flow_event new ∷ [])) atoms quiet ∙ name-flow_event new f h)
    ]

append_head :
    (xs : List Event) (y : Event) (ys : List Event)
    → (e : Event) × (rest : List Event) × (xs ++ y ∷ ys ≡ e ∷ rest)
append_head [] y ys = (y, ys, refl)
append_head (x ∷ xs) y ys = (x, xs ++ y ∷ ys, refl)

-- an event that seeds the run, though perhaps not its name
record Seeds (new : FlowSnapshot) (e : Event) : Type 0 where
  run_id : e.run_id ≡ new.run_id
  book_id : e.book_id ≡ new.book_id
  name :
      (text_of (look_or "flow_name" (Value.str "") e.details) ≡ new.name)
      ⊎ (text_of (look_or "flow_name" (Value.str "") e.details) ≡ "")

name_identity :
    (old : Option FlowSnapshot) (new : FlowSnapshot)
    → (text_of (look_or "flow_name" (Value.str "") (identity old new)) ≡ new.name)
      ⊎ (text_of (look_or "flow_name" (Value.str "") (identity old new)) ≡ "")
unfolding text_of look_or Dict.get identity
name_identity none new = inl refl
name_identity (some old) new = inr refl

-- an atom's event says nothing of its flow
pub nameless_state :
    (b c d : Bool) (v w x : Value)
    → (look_or "flow_name"
          (Value.str "")
          (entry b "failure" v ++ (entry c "revert_failure" w ++ entry d "has_result" x))
        ≡ Value.str "")
      × (look "book_name"
            (entry b "failure" v ++ (entry c "revert_failure" w ++ entry d "has_result" x))
          ≡ Value.null)
unfolding look_or look Dict.get
nameless_state true true true v w x = (refl, refl)
nameless_state true true false v w x = (refl, refl)
nameless_state true false true v w x = (refl, refl)
nameless_state true false false v w x = (refl, refl)
nameless_state false true true v w x = (refl, refl)
nameless_state false true false v w x = (refl, refl)
nameless_state false false true v w x = (refl, refl)
nameless_state false false false v w x = (refl, refl)

pub nameless_progress :
    (b : Bool) (v : Value)
    → (look_or "flow_name" (Value.str "") (entry b "progress_details" v) ≡ Value.str "")
      × (look "book_name" (entry b "progress_details" v) ≡ Value.null)
unfolding look_or look Dict.get
nameless_progress true v = (refl, refl)
nameless_progress false v = (refl, refl)

text_of_empty : (v : Value) → v ≡ Value.str "" → text_of v ≡ ""
unfolding text_of
text_of_empty v h = rw h

All_Seeds-ordered : (new : FlowSnapshot) → All (Seeds new) (ordered none new)
unfolding new_event atom_state_event atom_progress_event state_details
All_Seeds-ordered new =
    All-ordered new (Seeds new)
      (λ old. record { run_id = refl; book_id = refl; name = name_identity old new })
      (λ before current. record {
        run_id = refl;
        book_id = refl;
        name = inr (text_of_empty _ (nameless_state _ _ _ _ _ _).0);
      })
      (λ current. record {
        run_id = refl;
        book_id = refl;
        name = inr (text_of_empty _ (nameless_progress _ _).0);
      })
      none

ordered_head :
    (new : FlowSnapshot) → (e : Event) × (rest : List Event) × (ordered none new ≡ e ∷ rest)
unfolding ordered
ordered_head new = elim (Bool-cases (is_finished new)) [
  | inl e ↦ rw (e, flow_events_first new) (append_head (atom_events none new) (flow_event new) [])
  | inr e ↦ rw (e, flow_events_first new) (flow_event new, atom_events none new, refl)
]

-- the run as a store has it after the events of the first sight
pub record Learnt (new : FlowSnapshot) (t : ℕ) (es : List Event) : Type 0 where
  pub flow : FlowSnapshot
  pub learnt : learn es ≡ some flow
  pub run_id : flow.run_id ≡ new.run_id
  pub name : flow.name ≡ new.name
  pub book_id : flow.book_id ≡ new.book_id
  pub observed_at : flow.observed_at ≡ t
  pub follows : Follows flow (some new)

module _ (new : FlowSnapshot) (t : ℕ) (c : Allocator) where
  abbrev pub stamped : List Event → List Event
  stamped es = (stamp new.run_id t es c).0

  abbrev pub seed : Event → FlowSnapshot
  seed e = flow_from_event (record e { seq = (allocate new.run_id c).0; ts = t })

  pub learn-stamped :
      (e : Event) (rest : List Event)
      → learn (stamped (e ∷ rest)) ≡ some (fold_all (seed e) (stamped (e ∷ rest)))
  unfolding learn stamp
  learn-stamped e rest = refl

  -- the seed knows no state and no atom
  seed-Follows : (e : Event) → Follows (seed e) none
  unfolding flow_from_event Dict.get
  seed-Follows e = record { state = tt; atoms = λ n. refl }

  folded-stamped :
      (e : Event) (es : List Event)
      → fold_all (seed e) (stamped es) ≡ observed (fold_all (seed e) es) (seen t t es)
  unfolding flow_from_event
  folded-stamped e es = fold_all-stamp new.run_id t es c (seed e) t

  learnt :
      IsKeyed new
      → (e : Event) (rest : List Event) → ordered none new ≡ e ∷ rest
      → Learnt new t (stamped (e ∷ rest))
  unfolding flow_from_event Dict.get
  learnt keyed e rest shape =
      let es = e ∷ rest in
      let s = (subst (All (Seeds new)) shape (All_Seeds-ordered new)).0 in
      let same = SameRun-fold_all (seed e) (stamped es) in
      let folded = folded-stamped e es in
      let f = ordered-Follows none new keyed (λ n h. refl) (seed e) (seed-Follows e) in
      let f' = subst (λ l. Follows (fold_all (seed e) l) (some new)) shape f in
      record {
        flow = fold_all (seed e) (stamped es);
        learnt = learn-stamped e rest;
        run_id = same.run_id ∙ s.run_id;
        name =
            ap (λ g. g.name) folded
            ∙ subst (λ l. (fold_all (seed e) l).name ≡ new.name) shape
                (name-ordered new (seed e) s.name);
        book_id = same.book_id ∙ s.book_id;
        observed_at = ap (λ g. g.observed_at) folded ∙ omega arith;
        follows =
            subst (λ g. Follows g (some new)) (sym folded)
              (record { state = f'.state; atoms = f'.atoms });
      }

-- A store that knows nothing of the run learns it from the events of the first difference, where
-- the snapshot holds its atoms under their names: it has the id, the name, the book's id and the
-- time of the snapshot, and follows its states.
pub diff_flow-Learnt :
    (new : FlowSnapshot) (ts : Option ℕ) (c : Allocator) {r : List Event × Allocator}
    → IsKeyed new
    → diff_flow none new ts c ≡ some r
    → Learnt new (stamp_time ts new) r.0
diff_flow-Learnt new ts c keyed h =
    let (e, rest, shape) = ordered_head new in
    subst (λ (r : List Event × Allocator). Learnt new (stamp_time ts new) r.0)
      (diff_flow-stamp none new ts c h)
      (subst (λ es. Learnt new (stamp_time ts new) (stamp new.run_id (stamp_time ts new) es c).0)
        (sym shape) (learnt new (stamp_time ts new) c keyed e rest shape))
