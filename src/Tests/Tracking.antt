-- ===== src/Tests/Tracking.antt =====
-- Witnesses for the theorems on the fold, the numbers and the differences.
use taskflow_meter.Prelude.{
  All, length, ◌≤◌, none, some, List, [], ◌∷◌, ◌≡◌, refl, arith, true, false, eq_iff,
  String-discrete,
}
use taskflow_meter.Prelude.Dict
use taskflow_meter.Prelude.Dict.{Dict, Distinct}
use taskflow_meter.Prelude.Sort.{Ascending, sorted}
use taskflow_meter.Prelude.Int.{ℤ_discrete}
use taskflow_meter.States.{State-discrete, is_in}
use taskflow_meter.Models.{AtomSnapshot, FlowSnapshot, is_finished, atom_names}
use taskflow_meter.Events.{Event, Allocator}
use taskflow_meter.Fold.{fold_all}
use taskflow_meter.Fold.Contiguous.{by_seq}
use taskflow_meter.Diff.{
  diff_flow, stamp, ordered, crosses_runs, atom_events, events_of_atom, events_for, state_changed,
  atom_state_event, progress_changed, atom_progress_event,
}
use taskflow_meter.Diff.Atoms.{Tracks-refl}
use taskflow_meter.Diff.Roundtrip.{IsKeyed}
use taskflow_meter.Diff.Replay.{Follows, NoneVanished, diff_flow-Follows}
use taskflow_meter.Diff.Stamp.{Numbered, diff_flow-Numbered}
use taskflow_meter.Diff.First.{Learnt, learn, diff_flow-Learnt}
use taskflow_meter.Diff.BookName.{first_finished-book_name}
use taskflow_meter.Diff.Quiet.{diff_flow-quiet}
use taskflow_meter.Fold.Replay.{observed}
use taskflow_meter.Models.{one, completion, state_counts}
use taskflow_meter.Models.Rollup.{IsComplete, total_count, figures}
use taskflow_meter.Tests.{fetching, fetched, under_way, done, numbered}

program : Unit {0}
unfolding diff_flow crosses_runs String-discrete is_finished is_in events_for events_of_atom
    Dict.get sorted atom_names
program = tt

-- a flow with one atom, whose key is the atom's name
pub one-IsKeyed : (f : FlowSnapshot) (a : AtomSnapshot) → f.atoms ≡ (a.name, a) ∷ [] → IsKeyed f
unfolding Dict.get
one-IsKeyed f a h = record {
  named = λ n c g. ground (arith, eq_iff n a.name);
  distinct = rw h (refl, tt);
}

done-NoneVanished : NoneVanished (some under_way) done
unfolding Dict.get
done-NoneVanished = λ n h. ground arith

-- the events of the second sight, from number 3 on
abbrev allocator : Allocator
allocator = ("r1", 2) ∷ []

abbrev second : List Event × Allocator
second = stamp "r1" 20 (ordered (some under_way) done) allocator

second_sight : diff_flow (some under_way) done none allocator ≡ some second
unfolding program
second_sight = refl

abbrev first : List Event × Allocator
first = stamp "r1" 10 (ordered none under_way) []

first_sight : diff_flow none under_way none [] ≡ some first
unfolding program
first_sight = refl

abbrev late : List Event × Allocator
late = stamp "r1" 20 (ordered none done) []

late_sight : diff_flow none done none [] ≡ some late
unfolding program
late_sight = refl

under_way-Follows : Follows under_way (some under_way)
under_way-Follows = record { state = refl; atoms = λ n. Tracks-refl (Dict.get n under_way.atoms) }

diff_flow-Follows_example : Follows (fold_all under_way second.0) (some done)
diff_flow-Follows_example =
    diff_flow-Follows (some under_way) done (one-IsKeyed done fetched refl) done-NoneVanished
      under_way none allocator second_sight under_way-Follows

diff_flow-Numbered_example : Numbered "r1" 20 allocator second
diff_flow-Numbered_example = diff_flow-Numbered (some under_way) done none allocator second_sight

diff_flow-Learnt_example : Learnt under_way 10 first.0
diff_flow-Learnt_example =
    diff_flow-Learnt under_way none [] (one-IsKeyed under_way fetching refl) first_sight

done_finished : is_finished done ≡ true
unfolding is_finished is_in State-discrete
done_finished = refl

under_way_running : is_finished under_way ≡ false
unfolding is_finished is_in State-discrete
under_way_running = refl

-- the events of the atom alone, where there is one atom
fetched_events :
    atom_events none done
    ≡ atom_state_event done none fetched ∷ atom_progress_event done fetched ∷ []
unfolding atom_events events_for events_of_atom state_changed progress_changed Dict.get atom_names
    sorted ℤ_discrete
fetched_events = refl

first_finished-book_name_example :
    (f : FlowSnapshot) × (learn late.0 ≡ some f) × (f.book_name ≡ none)
first_finished-book_name_example =
    first_finished-book_name done none [] (atom_state_event done none fetched)
      (atom_progress_event done fetched ∷ []) done_finished fetched_events late_sight

-- the stored numbers 1, 2, 2, 5: a duplicate and a gap
abbrev gapped : List Event
gapped = numbered 1 ∷ numbered 2 ∷ numbered 2 ∷ numbered 5 ∷ []

gapped-Ascending : Ascending by_seq gapped
gapped-Ascending = ((refl, (refl, (refl, tt))), ((refl, (refl, tt)), ((refl, tt), (tt, tt))))

diff_flow-quiet_example :
    diff_flow (some done) (observed done 30) none allocator ≡ some ([], allocator)
diff_flow-quiet_example = diff_flow-quiet done 30 none allocator

figures_example :
    (completion done ≤ one)
    × (All IsComplete (Dict.values done.atoms) → 1 ≤ length done.atoms → completion done ≡ one)
    × (total_count (state_counts done) ≡ length done.atoms)
figures_example = figures done
