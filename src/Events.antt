-- ===== src/Events.antt =====
-- events.py: the event that every producer emits, and the allocator of sequence numbers.
pub mod Sequence
use taskflow_meter.Prelude.{ℕ, ◌+◌, Option, none, some, List, [], String, max}
use taskflow_meter.Prelude.Int.{ℤ}
use taskflow_meter.Prelude.Dict
use taskflow_meter.Prelude.Dict.{Dict}
use taskflow_meter.States.{State}
use taskflow_meter.Values.{Value}

pub data EventKind : Type 0 where
  flow_state atom_state atom_progress flow_structure flow_result heartbeat : EventKind

pub record Event : Type 0 where
  pub run_id : String
  pub seq : ℕ
  pub ts : ℕ
  pub kind : EventKind
  pub book_id : Option String
  pub atom_name : Option String
  pub atom_uuid : Option String
  pub atom_type : Option String
  pub state : Option State
  pub old_state : Option State
  pub intention : Option String
  pub progress : Option ℤ
  pub details : Dict Value

-- The counters of a `SequenceAllocator`. Each method holds the lock throughout, so it is one step.
abbrev pub Allocator : Type 0
Allocator = Dict ℕ

abbrev pub new_allocator : Allocator
new_allocator = []

-- the last number handed out, or 0
unfoldable pub peek : String → Allocator → ℕ
peek run_id c = elim (Dict.get run_id c) [ none ↦ 0 | some n ↦ n ]

unfoldable pub allocate : String → Allocator → ℕ × Allocator
allocate run_id c = let nxt = peek run_id c + 1 in (nxt, Dict.set run_id nxt c)

unfoldable pub resume_from : String → ℕ → Allocator → Allocator
resume_from run_id seq c = Dict.set run_id (max (peek run_id c) seq) c

unfoldable pub forget : String → Allocator → Allocator
forget run_id c = Dict.remove run_id c
