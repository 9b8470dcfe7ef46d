-- ===== src/Models/Rollup.antt =====
-- The figures that a flow is summed up in: its completion and the counts of its atoms' states.
use taskflow_meter.Prelude.{
  ℕ, suc, ◌+◌, ◌*◌, ◌/◌, ◌≤◌, true, List, [], ◌∷◌, ◌≡◌, refl, ap, ◌∙◌, arith, All, length,
}
use native.Mathlib.Nat.{div-le_of_le-mul, mul-div_cancel_left}
use taskflow_meter.Prelude.Int.{ℤ, pos, negsuc, pos_part}
use taskflow_meter.Prelude.Dict
use taskflow_meter.States.{State, is_in, atom_complete_states}
use taskflow_meter.Models.{
  AtomSnapshot, FlowSnapshot, one, clamp, atom_completion, total_completion, completion,
  completion_of, count_key, bump, count_states, state_counts,
}

clamp-le : (v : ℤ) → pos_part (clamp v) ≤ one
unfolding clamp
clamp-le (pos n) = ground arith
clamp-le (negsuc n) = ground arith

atom_completion-le : (a : AtomSnapshot) → pos_part (atom_completion a) ≤ one
unfolding atom_completion
atom_completion-le a = ground (arith, clamp-le a.progress)

total-le : (atoms : List AtomSnapshot) → total_completion atoms ≤ length atoms * one
unfolding total_completion
total-le [] = omega arith
total-le (a ∷ rest) = omega (arith, atom_completion-le a, total-le rest)

abbrev pub IsComplete : AtomSnapshot → Type 0
IsComplete a = is_in a.state atom_complete_states ≡ true

total_complete :
    (atoms : List AtomSnapshot) → All IsComplete atoms → total_completion atoms ≡ length atoms * one
unfolding total_completion atom_completion
total_complete [] h = omega arith
total_complete (a ∷ rest) h =
    let own : pos_part (atom_completion a) ≡ one = rw h.0 refl in
    omega (arith, own, total_complete rest h.1)

-- the sum of the counts
abbrev pub total_count : List (State × ℕ) → ℕ
total_count [] = 0
total_count ((k, n) ∷ d) = n + total_count d

total_count-bump : (k : State) (d : List (State × ℕ)) → total_count (bump k d) ≡ suc (total_count d)
unfolding bump
total_count-bump k [] = refl
total_count-bump k ((j, n) ∷ d) = ground (arith, total_count-bump k d)

total_count-count_states :
    (atoms : List AtomSnapshot) (d : List (State × ℕ))
    → total_count (count_states d atoms) ≡ total_count d + length atoms
unfolding count_states
total_count-count_states [] d = omega arith
total_count-count_states (a ∷ rest) d =
    omega (
      arith,
      total_count-count_states rest (bump (count_key a) d),
      total_count-bump (count_key a) d,
    )

length-values : (d : Dict.Dict AtomSnapshot) → length (Dict.values d) ≡ length d
length-values [] = refl
length-values ((k, a) ∷ d) = ap suc (length-values d)

completion_of-le : (d : Dict.Dict AtomSnapshot) → completion_of d ≤ one
unfolding completion_of
completion_of-le [] = omega arith
completion_of-le ((k, a) ∷ d) =
    div-le_of_le-mul (suc (length d)) (omega (arith, total-le (a ∷ Dict.values d), length-values d))

completion_of-one :
    (d : Dict.Dict AtomSnapshot)
    → All IsComplete (Dict.values d)
    → 1 ≤ length d
    → completion_of d ≡ one
unfolding completion_of
completion_of-one [] h k = absurd (omega arith)
completion_of-one ((k, a) ∷ d) h l =
    let full : total_completion (a ∷ Dict.values d) ≡ suc (length d) * one =
      omega (arith, total_complete (a ∷ Dict.values d) h, length-values d) in
    ap (λ n. n / suc (length d)) full ∙ mul-div_cancel_left one {n = suc (length d)} (omega arith)

-- The completion of a flow is never above 1, whatever progress its atoms report; it is 1 where
-- every atom of a flow that has some is complete; and the counts of the states add up to the
-- number of atoms.
pub figures :
    (f : FlowSnapshot)
    → (completion f ≤ one)
      × (All IsComplete (Dict.values f.atoms) → 1 ≤ length f.atoms → completion f ≡ one)
      × (total_count (state_counts f) ≡ length f.atoms)
unfolding completion state_counts
figures f = (
  completion_of-le f.atoms,
  completion_of-one f.atoms,
  omega (arith, total_count-count_states (Dict.values f.atoms) [], length-values f.atoms),
)
