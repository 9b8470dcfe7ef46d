-- ===== src/Poller/Passes.antt =====
-- One pass of the poller: what holds of it step by step.
use taskflow_meter.Prelude.{
  Option, none, some, List, [], ◌∷◌, String, ◌≡◌, refl, ap, sym, ◌∙◌, subst, Option-cases, inl, inr,
}
use taskflow_meter.Prelude.Dict
use taskflow_meter.Prelude.Dict.{Dict}
use taskflow_meter.Models.{FlowSnapshot}
use taskflow_meter.Events.{Event, Allocator}
use taskflow_meter.Diff.{diff_flow}
use taskflow_meter.Memory.{Memory, apply_many}
use taskflow_meter.Poller.{
  Sink, Pass, Poller, emit, take_diff, visit, visit_all, finish, count_error,
}

-- `MemoryDataSource` as a sink: it raises nothing
abbrev pub memory_sink : Sink Memory
memory_sink m es = (apply_many m es, none)

module _ {S : Type 0} (sink : Sink S) (previous : Dict FlowSnapshot) where
  pub visit_all-cons :
      (s : FlowSnapshot) (rest : List FlowSnapshot) (p p' : Pass S)
      → visit sink previous s p ≡ (p', none)
      → visit_all sink previous (s ∷ rest) p ≡ visit_all sink previous rest p'
  unfolding visit_all
  visit_all-cons s rest p p' h =
      ap
        (λ (q : Pass S × Option String). elim q.1 as (λ _. Pass S × Option String) [
          | none ↦ visit_all sink previous rest q.0
          | some error ↦ (q.0, some error)
        ])
        h

  pub visit_all-raised :
      (s : FlowSnapshot) (rest : List FlowSnapshot) (p p' : Pass S) (error : String)
      → visit sink previous s p ≡ (p', some error)
      → visit_all sink previous (s ∷ rest) p ≡ (p', some error)
  unfolding visit_all
  visit_all-raised s rest p p' error h =
      ap
        (λ (q : Pass S × Option String). elim q.1 as (λ _. Pass S × Option String) [
          | none ↦ visit_all sink previous rest q.0
          | some error ↦ (q.0, some error)
        ])
        h

  -- what each visit keeps, the whole pass keeps, whether or not it is cut short
  pub visit_all-keeps :
      (I : Pass S → Type 0)
      → ((s : FlowSnapshot) (p : Pass S) → I p → I (visit sink previous s p).0)
      → (snapshots : List FlowSnapshot) (p : Pass S) → I p
      → I (visit_all sink previous snapshots p).0
  visit_all-keeps I step [] p h = unfold visit_all in h
  visit_all-keeps I step (s ∷ rest) p h =
      let q = visit sink previous s p in
      elim (Option-cases q.1) [
        | inl e ↦
            subst (λ (r : Pass S × Option String). I r.0)
              (sym (visit_all-cons s rest p q.0 (ap (λ o. (q.0, o)) e)))
              (visit_all-keeps I step rest q.0 (step s p h))
        | inr (error, e) ↦
            subst (λ (r : Pass S × Option String). I r.0)
              (sym (visit_all-raised s rest p q.0 error (ap (λ o. (q.0, o)) e))) (step s p h)
      ]

-- what a batch does to the pass, over the memory store
record Emitted (es : List Event) (p : Pass Memory) (q : Pass Memory × Option String) : Type 0 where
  quiet : q.1 ≡ none
  sink : q.0.sink ≡ apply_many p.sink es
  allocator : q.0.allocator ≡ p.allocator
  seen : q.0.seen ≡ p.seen

emit-Emitted : (es : List Event) (p : Pass Memory) → Emitted es p (emit memory_sink es p)
unfolding emit apply_many
emit-Emitted [] p = record { quiet = refl; sink = refl; allocator = refl; seen = refl }
emit-Emitted (e ∷ es) p = record { quiet = refl; sink = refl; allocator = refl; seen = refl }

-- a visit over the memory store, whichever way the difference comes out
pub data Visited (previous : Dict FlowSnapshot) (s : FlowSnapshot) (p : Pass Memory)
    (q : Pass Memory × Option String) : Type 0 where
  refused :
      diff_flow (Dict.get s.run_id previous) s (some s.observed_at) p.allocator ≡ none
      → q.0.sink ≡ p.sink
      → q.0.allocator ≡ p.allocator
      → Visited previous s p q
  written :
      (r : List Event × Allocator)
      → diff_flow (Dict.get s.run_id previous) s (some s.observed_at) p.allocator ≡ some r
      → q.1 ≡ none
      → q.0.sink ≡ apply_many p.sink r.0
      → q.0.allocator ≡ r.1
      → q.0.seen ≡ Dict.set s.run_id s p.seen
      → Visited previous s p q

pub visit-Visited :
    (previous : Dict FlowSnapshot) (s : FlowSnapshot) (p : Pass Memory)
    → Visited previous s p (visit memory_sink previous s p)
unfolding visit take_diff
visit-Visited previous s p =
    let d = diff_flow (Dict.get s.run_id previous) s (some s.observed_at) p.allocator in
    let start : Pass Memory = record p { seen = Dict.set s.run_id s p.seen } in
    elim (Option-cases d) [
      | inl e ↦
          let h = ap (λ o. take_diff memory_sink o start) e in
          Visited.refused e (ap (λ (q : Pass Memory × Option String). q.0.sink) h)
            (ap (λ (q : Pass Memory × Option String). q.0.allocator) h)
      | inr (r, e) ↦
          let h = ap (λ o. take_diff memory_sink o start) e in
          let k = emit-Emitted r.0 (record start { allocator = r.1 }) in
          Visited.written r e (ap (λ (q : Pass Memory × Option String). q.1) h ∙ k.quiet)
            (ap (λ (q : Pass Memory × Option String). q.0.sink) h ∙ k.sink)
            (ap (λ (q : Pass Memory × Option String). q.0.allocator) h ∙ k.allocator)
            (ap (λ (q : Pass Memory × Option String). q.0.seen) h ∙ k.seen)
    ]

-- however a pass ends, the poller keeps its sink and its allocator
pub finish-sink :
    {S : Type 0} (p : Poller S) (q : Pass S × Option String)
    → ((finish p q).0.sink ≡ q.0.sink) × ((finish p q).0.allocator ≡ q.0.allocator)
unfolding finish
finish-sink p (q, none) = (refl, refl)
finish-sink p (q, some error) = (refl, refl)

pub count_error-sink :
    {S : Type 0} (q : Poller S × Option String)
    → ((count_error q).sink ≡ q.0.sink) × ((count_error q).allocator ≡ q.0.allocator)
unfolding count_error
count_error-sink (p, none) = (refl, refl)
count_error-sink (p, some error) = (refl, refl)
