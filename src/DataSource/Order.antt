-- ===== src/DataSource/Order.antt =====
-- The order of a listing, and the runs in it.
use taskflow_meter.Prelude.{
  List, [], ◌∷◌, String, ◌≡◌, refl, true, false, ◌||◌, ◌⊎◌, arith, str_eq, eq_iff, le_str_total,
  le_str_trans,
}
use taskflow_meter.Prelude.Dict.{mem, Distinct}
use taskflow_meter.Prelude.Sort.{insort, sorted, Ascending, sorted-Ascending}
use taskflow_meter.Models.{FlowSnapshot}
use taskflow_meter.DataSource.{newest_first, run_ids}

pub newest_first_total :
    (f g : FlowSnapshot) → (newest_first f g ≡ true) ⊎ (newest_first g f ≡ true)
unfolding newest_first
newest_first_total f g = ground (arith, le_str_total f.run_id g.run_id)

pub newest_first_trans :
    (f g h : FlowSnapshot)
    → newest_first f g ≡ true
    → newest_first g h ≡ true
    → newest_first f h ≡ true
unfolding newest_first
newest_first_trans f g h p q = ground (arith, le_str_trans f.run_id g.run_id h.run_id)

-- A listing is in its order throughout: the latest observation first, and runs observed at the
-- same time by their ids.
pub listing-Ascending : (fs : List FlowSnapshot) → Ascending newest_first (sorted newest_first fs)
listing-Ascending = sorted-Ascending newest_first newest_first_total newest_first_trans

mem-insort_run :
    (r : String) (f : FlowSnapshot) (fs : List FlowSnapshot)
    → mem r (run_ids (insort newest_first f fs)) ≡ (str_eq r f.run_id || mem r (run_ids fs))
unfolding insort
mem-insort_run r f [] = refl
mem-insort_run r f (g ∷ gs) = ground (arith, mem-insort_run r f gs)

pub mem-listing :
    (r : String) (fs : List FlowSnapshot)
    → mem r (run_ids (sorted newest_first fs)) ≡ mem r (run_ids fs)
unfolding sorted
mem-listing r [] = refl
mem-listing r (f ∷ fs) = rw mem-insort_run (ground (arith, mem-listing r fs))

insort-DistinctRuns :
    (f : FlowSnapshot) (fs : List FlowSnapshot)
    → mem f.run_id (run_ids fs) ≡ false
    → Distinct (run_ids fs)
    → Distinct (run_ids (insort newest_first f fs))
unfolding insort
insort-DistinctRuns f [] m h = (refl, tt)
insort-DistinctRuns f (g ∷ gs) m h = ground (
  arith,
  insort-DistinctRuns f gs,
  mem-insort_run g.run_id f gs,
  eq_iff f.run_id g.run_id,
  eq_iff g.run_id f.run_id,
)

pub listing-Distinct :
    (fs : List FlowSnapshot) → Distinct (run_ids fs) → Distinct (run_ids (sorted newest_first fs))
unfolding sorted
listing-Distinct [] h = tt
listing-Distinct (f ∷ fs) h =
    insort-DistinctRuns f (sorted newest_first fs) (rw mem-listing h.0) (listing-Distinct fs h.1)
