-- ===== src/Diff/BookName.antt =====
-- The first sight of a run: whether its events tell a store the name of its book.
use taskflow_meter.Prelude.{
  ℕ, List, [], ◌∷◌, ◌++◌, ◌≡◌, refl, Option, none, some, ◌⊎◌, inl, inr, ap, sym, ◌∙◌, All, arith,
  true, false, subst,
}
use taskflow_meter.Prelude.Dict
use taskflow_meter.Prelude.Dict.{Dict}
use taskflow_meter.Values.{Value, text_of, look, optional_str}
use taskflow_meter.Events.{Event, EventKind, Allocator}
use taskflow_meter.Models.{FlowSnapshot, is_finished, atom_names}
use taskflow_meter.Fold.{flow_from_event, fold_all}
use taskflow_meter.Fold.Identity.{SameRun-fold_all}
use taskflow_meter.Diff.{
  new_event, identity, flow_events, atom_events, state_details, atom_state_event,
  atom_progress_event, ordered, stamp_time, diff_flow,
}
use taskflow_meter.Diff.Every.{All-ordered}
use taskflow_meter.Diff.Replay.{IsAtomEvent, All_atom-events_for}
use taskflow_meter.Diff.Stamp.{diff_flow-stamp}
use taskflow_meter.Diff.First.{
  flow_event, flow_events_first, nameless_state, nameless_progress, learn, stamped, seed,
  learn-stamped,
}

-- what the first event of a run says of the book's name
abbrev MayName : Event → Type 0
MayName e = (e.kind ≡ EventKind.flow_state) ⊎ (look "book_name" e.details ≡ Value.null)

said_book_name :
    (new : FlowSnapshot) → optional_str (look "book_name" (flow_event new).details) ≡ new.book_name
unfolding optional_str text_of look Dict.get new_event identity
said_book_name new = ground arith

book_name_first : (new : FlowSnapshot) → All MayName (ordered none new)
unfolding new_event atom_state_event atom_progress_event state_details
book_name_first new =
    All-ordered new MayName (λ old. inl refl) (λ before current. inr (nameless_state _ _ _ _ _ _).1)
      (λ current. inr (nameless_progress _ _).1) none

finished_head :
    (new : FlowSnapshot) (a : Event) (others : List Event)
    → is_finished new ≡ true
    → atom_events none new ≡ a ∷ others
    → ordered none new ≡ a ∷ (others ++ flow_events none new)
unfolding ordered
finished_head new a others f h = rw (f, h)

running_head :
    (new : FlowSnapshot)
    → is_finished new ≡ false
    → ordered none new ≡ flow_event new ∷ atom_events none new
unfolding ordered
running_head new f = rw (f, flow_events_first new)

atom_event_book_name :
    (new : FlowSnapshot) (a : Event) (others : List Event)
    → is_finished new ≡ true
    → atom_events none new ≡ a ∷ others
    → look "book_name" a.details ≡ Value.null
unfolding atom_events
atom_event_book_name new a others fin h =
    let kind = (subst (All IsAtomEvent) h (All_atom-events_for [] new (atom_names new))).0 in
    elim (subst (All MayName) (finished_head new a others fin h) (book_name_first new)).0 [
      | inl flow ↦ elim kind [ inl k ↦ absurd (ground arith) | inr k ↦ absurd (ground arith) ]
      | inr quiet ↦ quiet
    ]

-- the book's name that a store has after the events, in terms of the event that came first
seeded-book_name :
    (new : FlowSnapshot) (ts : Option ℕ) (c : Allocator) (e : Event) (rest : List Event)
    {r : List Event × Allocator}
    → ordered none new ≡ e ∷ rest
    → diff_flow none new ts c ≡ some r
    → (f : FlowSnapshot) × (learn r.0 ≡ some f)
      × (f.book_name ≡ optional_str (look "book_name" e.details))
unfolding flow_from_event
seeded-book_name new ts c e rest shape d =
    let t = stamp_time ts new in
    subst
      (λ (r : List Event × Allocator).
        (f : FlowSnapshot) × (learn r.0 ≡ some f)
        × (f.book_name ≡ optional_str (look "book_name" e.details)))
      (diff_flow-stamp none new ts c d)
      (subst
        (λ es.
          (f : FlowSnapshot) × (learn (stamped new t c es) ≡ some f)
          × (f.book_name ≡ optional_str (look "book_name" e.details)))
        (sym shape)
        (
          fold_all (seed new t c e) (stamped new t c (e ∷ rest)),
          learn-stamped new t c e rest,
          (SameRun-fold_all (seed new t c e) (stamped new t c (e ∷ rest))).book_name,
        ))

-- A run whose first sight finds it finished, with an atom to report, is stored without the name of
-- its book, whatever that name is.
pub first_finished-book_name :
    (new : FlowSnapshot) (ts : Option ℕ) (c : Allocator) (a : Event) (others : List Event)
    {r : List Event × Allocator}
    → is_finished new ≡ true
    → atom_events none new ≡ a ∷ others
    → diff_flow none new ts c ≡ some r
    → (f : FlowSnapshot) × (learn r.0 ≡ some f) × (f.book_name ≡ none)
unfolding optional_str
first_finished-book_name new ts c a others fin h d =
    let (f, l, b) =
      seeded-book_name new ts c a (others ++ flow_events none new)
        (finished_head new a others fin h) d in
    (f, l, b ∙ ap optional_str (atom_event_book_name new a others fin h))

-- A run whose first sight finds it under way is stored with the name of its book.
pub first_running-book_name :
    (new : FlowSnapshot) (ts : Option ℕ) (c : Allocator) {r : List Event × Allocator}
    → is_finished new ≡ false
    → diff_flow none new ts c ≡ some r
    → (f : FlowSnapshot) × (learn r.0 ≡ some f) × (f.book_name ≡ new.book_name)
first_running-book_name new ts c run d =
    let (f, l, b) =
      seeded-book_name new ts c (flow_event new) (atom_events none new) (running_head new run) d in
    (f, l, b ∙ said_book_name new)
