-- ===== src/States.antt =====
-- states.py: the states that taskflow reports, and the groupings that the meter makes of them.
-- The strings themselves are taskflow's constants; the model keeps which constant a state is, and
-- `other` holds any text that is none of them.
use taskflow_meter.Prelude.{
  Bool, true, false, Option, none, some, List, [], ◌∷◌, String, ite, String-discrete,
}

pub data State : Type 0 where
  success failure pending running reverting reverted revert_failure retrying ignore suspended :
      State
  other : String → State

unfoldable pub State-discrete : Discrete State
unfolding String-discrete
State-discrete = hlevel String-discrete

unfoldable pub Option-State-discrete : Discrete (Option State)
unfolding State-discrete
Option-State-discrete = hlevel State-discrete

-- `state in states`, where `None` is in no set
unfoldable pub is_in : Option State → List State → Bool
is_in none xs = false
is_in (some s) [] = false
is_in (some s) (x ∷ xs) = ite (State-discrete s x) true (is_in (some s) xs)

abbrev pub flow_finish_states : List State
flow_finish_states = State.success ∷ State.failure ∷ State.reverted ∷ State.suspended ∷ []

abbrev pub atom_finish_states : List State
atom_finish_states = State.success ∷ State.failure ∷ State.reverted ∷ State.revert_failure ∷ []

abbrev pub atom_running_states : List State
atom_running_states = State.running ∷ State.reverting ∷ State.retrying ∷ []

abbrev pub atom_complete_states : List State
atom_complete_states = State.success ∷ State.ignore ∷ []
