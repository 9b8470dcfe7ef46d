-- ===== src/Fold/Replay.antt =====
-- Folding a list of events: its parts, and what the numbers and the stamps of the events change.
use taskflow_meter.Prelude.{
  ℕ, String, List, [], ◌∷◌, ◌++◌, ◌≡◌, refl, max, Option, ap, ◌∙◌, sym, arith,
}
use taskflow_meter.Events.{Event, EventKind, Allocator, allocate}
use taskflow_meter.Models.{FlowSnapshot}
use taskflow_meter.Fold.{
  fold, fold_kind, fold_named, fold_all, fold_atom, fold_atom_kind, fold_common,
}
use taskflow_meter.Diff.{stamp}

pub fold_all-append :
    (f : FlowSnapshot) (xs ys : List Event) → fold_all f (xs ++ ys) ≡ fold_all (fold_all f xs) ys
unfolding fold_all
fold_all-append f [] ys = refl
fold_all-append f (x ∷ xs) ys = fold_all-append (fold f x) xs ys

abbrev pub observed : FlowSnapshot → ℕ → FlowSnapshot
observed f o = record f { observed_at = o }

fold_named-observed :
    (name : Option String) (f : FlowSnapshot) (o n t : ℕ) (e : Event)
    → fold_named name (observed f o) (record e { seq = n; ts = t })
      ≡ observed (fold_named name f e) o
unfolding fold_named fold_atom fold_common fold_atom_kind
fold_named-observed name f o n t e = ground arith

fold_kind-observed :
    (k : EventKind) (f : FlowSnapshot) (o n t : ℕ) (e : Event)
    → fold_kind k (observed f o) (record e { seq = n; ts = t }) ≡ observed (fold_kind k f e) o
unfolding fold_kind
fold_kind-observed EventKind.flow_state f o n t e = refl
fold_kind-observed EventKind.atom_state f o n t e = fold_named-observed e.atom_name f o n t e
fold_kind-observed EventKind.atom_progress f o n t e = fold_named-observed e.atom_name f o n t e
fold_kind-observed _ f o n t e = refl

-- the number and the stamp change the time of observation alone
pub fold-observed :
    (f : FlowSnapshot) (o n t : ℕ) (e : Event)
    → fold (observed f o) (record e { seq = n; ts = t }) ≡ observed (fold f e) (max o t)
unfolding fold
fold-observed f o n t e =
    fold_kind-observed e.kind f (max o t) n t e
    ∙ sym (
        ap (λ g. observed g (max o t))
          (fold_kind-observed e.kind f (max f.observed_at e.ts) e.seq e.ts e))

-- the time of observation after events that all bear the stamp `t`
abbrev pub seen : ℕ → ℕ → List Event → ℕ
seen o t [] = o
seen o t (e ∷ es) = max o t

seen-seen : (o t : ℕ) (es : List Event) → seen (max o t) t es ≡ max o t
seen-seen o t [] = refl
seen-seen o t (e ∷ es) = omega arith

pub fold_all-stamp :
    (run_id : String) (t : ℕ) (es : List Event) (c : Allocator) (f : FlowSnapshot) (o : ℕ)
    → fold_all (observed f o) (stamp run_id t es c).0 ≡ observed (fold_all f es) (seen o t es)
unfolding fold_all stamp
fold_all-stamp run_id t [] c f o = refl
fold_all-stamp run_id t (e ∷ es) c f o =
    ap (λ g. fold_all g (stamp run_id t es (allocate run_id c).1).0)
      (fold-observed f o (allocate run_id c).0 t e)
    ∙ (fold_all-stamp run_id t es (allocate run_id c).1 (fold f e) (max o t)
        ∙ ap (observed (fold_all (fold f e) es)) (seen-seen o t es))
