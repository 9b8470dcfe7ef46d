-- ===== src/Diff/Stamp.antt =====
-- Numbering the events of one difference.
use taskflow_meter.Prelude.{
  ℕ, suc, ◌+◌, String, List, [], ◌∷◌, ◌≡◌, refl, ◌≢◌, Option, some, arith, length, All, subst,
}
use taskflow_meter.Events.{Event, Allocator, peek, allocate}
use taskflow_meter.Events.Sequence.{Consecutive, allocate_next, allocate_apart}
use taskflow_meter.Models.{FlowSnapshot}
use taskflow_meter.Diff.{
  new_event, atom_state_event, atom_progress_event, stamp, stamp_time, ordered, diff_flow,
}
use taskflow_meter.Diff.Every.{All-ordered}

module _ (run_id : String) (ts : ℕ) where
  pub stamp-Consecutive :
      (es : List Event) (c : Allocator) → Consecutive (suc (peek run_id c)) (stamp run_id ts es c).0
  unfolding stamp
  stamp-Consecutive [] c = tt
  stamp-Consecutive (e ∷ es) c = (
    omega (arith, (allocate_next run_id c).0),
    subst (λ n. Consecutive n (stamp run_id ts es (allocate run_id c).1).0)
        (omega (arith, (allocate_next run_id c).1)) (stamp-Consecutive es (allocate run_id c).1),
  )

  pub peek-stamp :
      (es : List Event) (c : Allocator)
      → peek run_id (stamp run_id ts es c).1 ≡ peek run_id c + length es
  unfolding stamp
  peek-stamp [] c = omega arith
  peek-stamp (e ∷ es) c =
      omega (arith, peek-stamp es (allocate run_id c).1, (allocate_next run_id c).1)

  pub peek-stamp_ne :
      (j : String) (es : List Event) (c : Allocator)
      → j ≢ run_id
      → peek j (stamp run_id ts es c).1 ≡ peek j c
  unfolding stamp
  peek-stamp_ne j [] c h = refl
  peek-stamp_ne j (e ∷ es) c h =
      rw (peek-stamp_ne j es (allocate run_id c).1 h) (allocate_apart j run_id c h)

  pub length-stamp : (es : List Event) (c : Allocator) → length (stamp run_id ts es c).0 ≡ length es
  unfolding stamp
  length-stamp [] c = refl
  length-stamp (e ∷ es) c = omega (arith, length-stamp es (allocate run_id c).1)

  pub All_ts-stamp :
      (es : List Event) (c : Allocator) → All (λ e. e.ts ≡ ts) (stamp run_id ts es c).0
  unfolding stamp
  All_ts-stamp [] c = tt
  All_ts-stamp (e ∷ es) c = (refl, All_ts-stamp es (allocate run_id c).1)

-- an event of this run
abbrev OfRun : String → Event → Type 0
OfRun run_id e = e.run_id ≡ run_id

All_run-stamp :
    (r run_id : String) (ts : ℕ) (es : List Event) (c : Allocator)
    → All (OfRun r) es
    → All (OfRun r) (stamp run_id ts es c).0
unfolding stamp
All_run-stamp r run_id ts [] c h = tt
All_run-stamp r run_id ts (e ∷ es) c h =
    (h.0, All_run-stamp r run_id ts es (allocate run_id c).1 h.1)

All_run-ordered :
    (old : Option FlowSnapshot) (new : FlowSnapshot) → All (OfRun new.run_id) (ordered old new)
unfolding new_event atom_state_event atom_progress_event
All_run-ordered old new =
    All-ordered new (OfRun new.run_id) (λ old. refl) (λ before current. refl) (λ current. refl) old

-- What `diff_flow` promises of the events and the allocator that it returns: the events carry the
-- next numbers of the run and leave none out, the allocator stands at the last of them and has moved
-- for no other run, and each event is of the run and bears the stamp.
pub record Numbered (run_id : String) (ts : ℕ) (c : Allocator) (r : List Event × Allocator)
    : Type 0 where
  pub consecutive : Consecutive (suc (peek run_id c)) r.0
  pub reached : peek run_id r.1 ≡ peek run_id c + length r.0
  pub apart : (j : String) → j ≢ run_id → peek j r.1 ≡ peek j c
  pub of_run : All (λ e. e.run_id ≡ run_id) r.0
  pub stamped : All (λ e. e.ts ≡ ts) r.0

pub stamp-Numbered :
    (run_id : String) (ts : ℕ) (es : List Event) (c : Allocator)
    → All (OfRun run_id) es
    → Numbered run_id ts c (stamp run_id ts es c)
stamp-Numbered run_id ts es c h = record {
  consecutive = stamp-Consecutive run_id ts es c;
  reached = omega (arith, peek-stamp run_id ts es c, length-stamp run_id ts es c);
  apart = λ j k. peek-stamp_ne run_id ts j es c k;
  of_run = All_run-stamp run_id run_id ts es c h;
  stamped = All_ts-stamp run_id ts es c;
}

pub diff_flow-stamp :
    (old : Option FlowSnapshot) (new : FlowSnapshot) (ts : Option ℕ) (c : Allocator)
    {r : List Event × Allocator}
    → diff_flow old new ts c ≡ some r
    → stamp new.run_id (stamp_time ts new) (ordered old new) c ≡ r
unfolding diff_flow
diff_flow-stamp old new ts c h = ground arith

-- Whatever the two snapshots, the events of a difference carry the next numbers of the run and
-- leave none out, the allocator stands at the last of them and has moved for no other run, and
-- each event is of the run and bears the stamp.
pub diff_flow-Numbered :
    (old : Option FlowSnapshot) (new : FlowSnapshot) (ts : Option ℕ) (c : Allocator)
    {r : List Event × Allocator}
    → diff_flow old new ts c ≡ some r
    → Numbered new.run_id (stamp_time ts new) c r
diff_flow-Numbered old new ts c h =
    subst (Numbered new.run_id (stamp_time ts new) c) (diff_flow-stamp old new ts c h)
      (stamp-Numbered new.run_id (stamp_time ts new) (ordered old new) c (All_run-ordered old new))
