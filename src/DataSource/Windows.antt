-- ===== src/DataSource/Windows.antt =====
-- The windows of a listing, and where a marker points.
use taskflow_meter.Prelude.{
  ℕ, zero, suc, ◌+◌, ◌<◌, List, [], ◌∷◌, String, ◌≡◌, refl, ap, ◌∙◌, sym, Option, none, some, true,
  false, arith, eq_iff, take, drop, last, length,
}
use taskflow_meter.Prelude.Dict.{mem, Distinct}
use taskflow_meter.Models.{FlowSnapshot}
use taskflow_meter.DataSource.{ok, position, start_of, run_ids}

abbrev pub nth : ℕ → List FlowSnapshot → Option FlowSnapshot
nth n [] = none
nth zero (f ∷ fs) = some f
nth (suc n) (f ∷ fs) = nth n fs

pub nth_within :
    (n : ℕ) (fs : List FlowSnapshot) → n < length fs → (f : FlowSnapshot) × (nth n fs ≡ some f)
nth_within n [] h = absurd (omega arith)
nth_within zero (f ∷ fs) h = (f, refl)
nth_within (suc n) (f ∷ fs) h = nth_within n fs (omega arith)

last-take : (k : ℕ) (fs : List FlowSnapshot) → k < length fs → last (take (suc k) fs) ≡ nth k fs
last-take k [] h = absurd (omega arith)
last-take zero (f ∷ fs) h = refl
last-take (suc k) (f ∷ []) h = absurd (omega arith)
last-take (suc k) (f ∷ g ∷ gs) h = last-take k (g ∷ gs) (omega arith)

-- the last element of a full window
pub last-window :
    (start k : ℕ) (fs : List FlowSnapshot)
    → start + k < length fs
    → last (take (suc k) (drop start fs)) ≡ nth (start + k) fs
last-window zero k fs h = last-take k fs (omega arith) ∙ ap (λ n. nth n fs) (omega arith)
last-window (suc start) k [] h = absurd (omega arith)
last-window (suc start) k (f ∷ fs) h =
    let e : suc start + k ≡ suc (start + k) = omega arith in
    last-window start k fs (omega arith) ∙ ap (λ n. nth n (f ∷ fs)) (sym e)

nth-mem :
    (n : ℕ) (fs : List FlowSnapshot) (g : FlowSnapshot)
    → nth n fs ≡ some g
    → mem g.run_id (run_ids fs) ≡ true
nth-mem n [] g h = absurd (ground arith)
nth-mem zero (f ∷ fs) g h = ground (arith, eq_iff g.run_id f.run_id)
nth-mem (suc n) (f ∷ fs) g h = ground (arith, nth-mem n fs g h)

-- `positions` holds the run at most once
position-none :
    (marker : String) (fs : List FlowSnapshot)
    → mem marker (run_ids fs) ≡ false
    → position marker fs ≡ none
unfolding position
position-none marker [] h = refl
position-none marker (f ∷ fs) h = ground (arith, position-none marker fs, eq_iff marker f.run_id)

pub position-nth :
    (n : ℕ) (fs : List FlowSnapshot) (g : FlowSnapshot)
    → Distinct (run_ids fs)
    → nth n fs ≡ some g
    → position g.run_id fs ≡ some n
unfolding position
position-nth n [] g d h = absurd (ground arith)
position-nth zero (f ∷ fs) g d h = ground (arith, position-none g.run_id fs)
position-nth (suc n) (f ∷ fs) g d h = ground (arith, position-nth n fs g d.1 h)

pub start_of-nth :
    (n : ℕ) (fs : List FlowSnapshot) (g : FlowSnapshot)
    → Distinct (run_ids fs)
    → nth n fs ≡ some g
    → start_of (some g.run_id) fs ≡ ok (n + 1)
unfolding start_of
start_of-nth n fs g d h = ground (arith, position-nth n fs g d h)
