-- ===== src/Collect/Tap.antt =====
-- collect/progress.py: `ProgressTap`, which binds a callback to every task of a flow, over the
-- notifiers of the tasks.
use taskflow_meter.Prelude.{
  ℕ, ◌+◌, Bool, not, Option, none, some, List, [], ◌∷◌, ◌++◌, String, ◌≡◌, if◌then◌else◌,
}

-- an atom of the compiled graph: its name, and whether it is a task or a retry controller
pub record Atom : Type 0 where
  pub name : String
  pub is_task : Bool

-- A callback is known by a number of its own, as each is a new function.
abbrev pub Callback : Type 0
Callback = ℕ

-- taskflow's notifiers: `can_be_registered`, `register` and `deregister` for the event of progress,
-- with what they raise
pub record Notifiers : Type 1 where
  pub Registry : Type 0
  pub accepts : Atom → Bool
  pub register : Atom → Callback → Registry → Registry × Option String
  pub deregister : Atom → Callback → Registry → Registry × Option String

-- What taskflow says of them: a call of `register` that raises has bound nothing, and `deregister`
-- takes away what `register` has bound.
pub record Laws (n : Notifiers) : Type 0 where
  pub refused :
      (a : Atom) (k : Callback) (s : n.Registry) (error : String)
      → (n.register a k s).1 ≡ some error
      → (n.register a k s).0 ≡ s
  pub undone :
      (a : Atom) (k : Callback) (s : n.Registry)
      → (n.register a k s).1 ≡ none
      → n.deregister a k (n.register a k s).0 ≡ (s, none)

pub record Tap : Type 0 where
  pub bound : List (Atom × Callback)
  -- how many callbacks `_callback_for` has made
  pub made : ℕ

abbrev pub new_tap : Tap
new_tap = record { bound = []; made = 0 }

module _ (n : Notifiers) where
  -- what the loop of `register` does with an atom that takes a callback, by what `register` gave;
  -- the rest of the loop comes after it
  unfoldable pub after_register :
      Atom
      → Tap
      → (Tap → n.Registry → Tap × n.Registry × Option String)
      → n.Registry × Option String
      → Tap × n.Registry × Option String
  after_register a t rest (s, none) =
      rest (record { bound = t.bound ++ (a, t.made) ∷ []; made = t.made + 1 }) s
  after_register a t rest (s, some error) = (record t { made = t.made + 1 }, s, some error)

  -- the loop of `register`, over `atoms_of(engine)`
  unfoldable pub register_all : List Atom → Tap → n.Registry → Tap × n.Registry × Option String
  register_all [] t s = (t, s, none)
  register_all (a ∷ atoms) t s =
      if not a.is_task
      then register_all atoms t s
      else if not (n.accepts a)
      then register_all atoms t s
      else after_register a t (register_all atoms) (n.register a t.made s)

  -- `register`
  unfoldable pub register : List Atom → Tap → n.Registry → Tap × n.Registry × Option String
  register atoms t s = elim t.bound [ [] ↦ register_all atoms t s | _ ↦ (t, s, none) ]

  -- the loop of `deregister`, which pops the last of those that are bound
  unfoldable pub deregister_all : List (Atom × Callback) → n.Registry → n.Registry
  deregister_all [] s = s
  deregister_all ((a, k) ∷ bound) s = (n.deregister a k (deregister_all bound s)).0

  -- `deregister`
  unfoldable pub deregister : Tap → n.Registry → Tap × n.Registry
  deregister t s = (record t { bound = [] }, deregister_all t.bound s)
