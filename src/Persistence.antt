-- ===== src/Persistence.antt =====
-- datasource/persistence.py: a read-only view of what taskflow persists. taskflow's connection is a
-- parameter, by the four reads that the code makes of it; so are the clock and the conversions of
-- numbers and failures. Opening and closing the connection is not modelled.
pub mod Reads
use taskflow_meter.Prelude.{
  ℕ, suc, ◌+◌, Bool, true, false, Option, none, some, List, [], ◌∷◌, ◌++◌, String, ltb,
  if◌then◌else◌, le_str, is_some, str_eq,
}
use taskflow_meter.Prelude.Int.{ℤ, pos}
use taskflow_meter.Prelude.Dict
use taskflow_meter.Prelude.Dict.{Dict}
use taskflow_meter.Prelude.Sort.{sorted}
use taskflow_meter.States.{State}
use taskflow_meter.Values.{Value, truthy, look}
use taskflow_meter.Models.{AtomSnapshot, FlowSnapshot, task, retry}
use taskflow_meter.DataSource.{Outcome, ok, value_error, FlowPage, EventPage, matching, page_of}

-- what the code reads of taskflow's details and logbooks
pub record AtomDetail : Type 0 where
  pub name : String
  pub uuid : Option String
  pub is_task : Bool
  pub state : Option State
  pub intention : Option String
  pub failure : Value
  pub revert_failure : Value
  pub has_results : Bool
  pub meta : Dict Value

pub record FlowDetail : Type 0 where
  pub uuid : String
  pub name : String
  pub state : Option State
  pub meta : Dict Value
  pub atoms : List AtomDetail

-- `created` is what `_epoch` makes of `created_at`
pub record Book : Type 0 where
  pub uuid : String
  pub name : String
  pub created : Option ℕ

-- `NotFound` is `none`
pub record Connection : Type 0 where
  pub get_logbooks : List Book
  pub get_flows_for_book : String → List FlowDetail
  pub get_flow_details : String → Option FlowDetail
  pub get_atoms_for_flow : String → List AtomDetail

-- `float(value)`, `failure_dict`, and a time as a value
pub record Conversions : Type 0 where
  pub to_float : Value → ℤ
  pub failure_dict : Value → Value
  pub time_value : ℕ → Value

module _ (conv : Conversions) where
  -- `float(value or 0.0)`
  unfoldable pub progress_of : Value → ℤ
  progress_of v = if truthy v then conv.to_float v else pos 0

  -- `_atom_snapshot`
  unfoldable pub atom_snapshot : AtomDetail → AtomSnapshot
  atom_snapshot d = record {
    name = d.name;
    uuid = d.uuid;
    atom_type = if d.is_task then task else retry;
    state = d.state;
    intention = d.intention;
    progress = progress_of (look "progress" d.meta);
    progress_details = look "progress_details" d.meta;
    failure = conv.failure_dict d.failure;
    revert_failure = conv.failure_dict d.revert_failure;
    has_result = d.has_results;
    meta = d.meta;
  }

  abbrev pub snapshots : List AtomDetail → List AtomSnapshot
  snapshots [] = []
  snapshots (d ∷ ds) = atom_snapshot d ∷ snapshots ds

  -- `meta.setdefault("book_created_at", ...)`
  unfoldable pub with_created : Option ℕ → Dict Value → Dict Value
  with_created none meta = meta
  with_created (some t) meta =
      if is_some (Dict.get "book_created_at" meta)
      then meta
      else Dict.set "book_created_at" (conv.time_value t) meta

  -- the dict comprehension: the last atom of a name stays, in the place of the first
  unfoldable pub by_name : Dict AtomSnapshot → List AtomSnapshot → Dict AtomSnapshot
  by_name d [] = d
  by_name d (a ∷ rest) = by_name (Dict.set a.name a d) rest

  -- `_flow_snapshot`; `now` is what the clock says
  unfoldable pub flow_snapshot :
      FlowDetail → Option String → Option String → Option ℕ → ℕ → FlowSnapshot
  flow_snapshot d book_id book_name created now = record {
    run_id = d.uuid;
    name = d.name;
    state = d.state;
    book_id = book_id;
    book_name = book_name;
    observed_at = now;
    meta = with_created created d.meta;
    atoms = by_name [] (snapshots d.atoms);
  }

  -- the inner loop of `_scan`; the clock is read once for each flow, and `clock n` is what it says the
  -- n-th time
  unfoldable pub scan_book : (ℕ → ℕ) → ℕ → Book → List FlowDetail → List FlowSnapshot × ℕ
  scan_book clock n book [] = ([], n)
  scan_book clock n book (d ∷ ds) =
      let (rest, n') = scan_book clock (n + 1) book ds in
      (flow_snapshot d (some book.uuid) (some book.name) book.created (clock n) ∷ rest, n')

  unfoldable pub scan_books : Connection → (ℕ → ℕ) → ℕ → List Book → List FlowSnapshot
  scan_books conn clock n [] = []
  scan_books conn clock n (book ∷ books) =
      let (found, n') = scan_book clock n book (conn.get_flows_for_book book.uuid) in
      found ++ scan_books conn clock n' books

  -- `_scan`
  unfoldable pub scan : Connection → (ℕ → ℕ) → List FlowSnapshot
  scan conn clock = scan_books conn clock 0 conn.get_logbooks

  unfoldable pub list_flows :
      Connection → (ℕ → ℕ) → Option State → Option String → ℕ → Option String → Outcome FlowPage
  list_flows conn clock state book_id limit marker =
      if ltb limit 1
      then value_error
      else page_of (matching state book_id (scan conn clock)) limit marker

  -- whether one of a book's flows is the run
  unfoldable pub has_run : String → List FlowDetail → Bool
  has_run run_id [] = false
  has_run run_id (d ∷ ds) = if str_eq d.uuid run_id then true else has_run run_id ds

  -- `_find_book`
  unfoldable pub find_book : Connection → String → List Book → Option Book
  find_book conn run_id [] = none
  find_book conn run_id (book ∷ books) =
      if has_run run_id (conn.get_flows_for_book book.uuid)
      then some book
      else find_book conn run_id books

  unfoldable pub in_book : FlowDetail → Option Book → ℕ → FlowSnapshot
  in_book d none now = flow_snapshot d none none none now
  in_book d (some book) now = flow_snapshot d (some book.uuid) (some book.name) book.created now

  unfoldable pub get_flow : Connection → ℕ → String → Option FlowSnapshot
  get_flow conn now run_id = elim (conn.get_flow_details run_id) [
    | none ↦ none
    | some d ↦ some (in_book d (find_book conn run_id conn.get_logbooks) now)
  ]

  -- `sorted(atoms, key=lambda atom: atom.name)`
  unfoldable pub name_order : AtomSnapshot → AtomSnapshot → Bool
  name_order a b = le_str a.name b.name

  unfoldable pub get_atoms : Connection → String → Option (List AtomSnapshot)
  get_atoms conn run_id = elim (conn.get_flow_details run_id) [
    | none ↦ none
    | some d ↦ some (sorted name_order (snapshots (conn.get_atoms_for_flow run_id)))
  ]

-- `events_since`: state is persisted, and no history
unfoldable pub events_since : String → ℕ → ℕ → EventPage
events_since run_id since_seq limit = record {
  events = [];
  next_seq = since_seq;
  oldest_seq = none;
  truncated = false;
}
