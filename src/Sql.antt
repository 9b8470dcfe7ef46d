-- ===== src/Sql.antt =====
-- datasource/sqlalchemy/source.py: `SQLADataSource`, over the statements that it executes. A call is
-- one transaction, and the transactions come one after another. Making and disposing of the engine
-- is not modelled.
pub mod Rows
pub mod Statements
pub mod Keys
pub mod Reads
pub mod Writes
pub mod Batches
pub mod Applied
pub mod Histories
pub mod Refines
pub mod Following
pub mod Paging
pub mod Replay
pub mod Survivors
pub mod Retention
use taskflow_meter.Prelude.{
  ℕ, ◌+◌, ◌-◌, Bool, true, false, Option, none, some, List, [], ◌∷◌, ◌++◌, String, ltb, ◌==◌, not,
  if◌then◌else◌, length, take, last, map,
}
use taskflow_meter.Prelude.Dict
use taskflow_meter.Prelude.Dict.{Dict}
use taskflow_meter.States.{State}
use taskflow_meter.Models.{FlowSnapshot}
use taskflow_meter.Events.{Event}
use taskflow_meter.Fold.{fold_all, flow_from_event, contiguous_from}
use taskflow_meter.DataSource.{
  Outcome, ok, value_error, unknown_marker, FlowPage, EventPage, run_id_of, event_page,
  expected_seq,
}
use taskflow_meter.Sql.Rows.{
  FlowRow, EventRow, flow_row, flow_from_row, event_row, events_from_rows,
}
use taskflow_meter.Sql.Statements.{Engine, Anchor}

-- `by_run.setdefault(event.run_id, []).append(event)`
abbrev pub or_nothing {ℓ} : {A : Type ℓ} → Option (List A) → List A
or_nothing none = []
or_nothing (some xs) = xs

unfoldable pub group_into : Dict (List Event) → List Event → Dict (List Event)
group_into by_run [] = by_run
group_into by_run (e ∷ es) =
    group_into (Dict.set e.run_id (or_nothing (Dict.get e.run_id by_run) ++ e ∷ []) by_run) es

-- `None if row is None else _flow_from_row(row)`
abbrev pub flow_of : Option FlowRow → Option FlowSnapshot
flow_of none = none
flow_of (some row) = some (flow_from_row row)

-- `run_events[0]` seeds a run that is not stored; no group is empty
abbrev pub seeded : Option FlowSnapshot → Event → FlowSnapshot
seeded none first = flow_from_event first
seeded (some f) first = f

module _ (e : Engine) where
  -- `_load_flow`
  unfoldable pub load_flow : String → e.DB → Option FlowSnapshot
  load_flow run_id db = flow_of (e.select_flow run_id db)

  -- `_save_flow`
  unfoldable pub save_flow : FlowSnapshot → e.DB → e.DB
  save_flow f db =
      let (db', rowcount) = e.update_flow (flow_row f) db in
      if rowcount == 0 then e.insert_flow (flow_row f) db' else db'

  -- the `except sa.exc.IntegrityError`
  abbrev pub or_unchanged : Option e.DB → e.DB → e.DB
  or_unchanged none db = db
  or_unchanged (some db') db = db'

  unfoldable pub insert_events : List Event → e.DB → e.DB
  insert_events [] db = db
  insert_events (x ∷ xs) db = insert_events xs (or_unchanged (e.insert_event (event_row x) db) db)

  -- `_apply_run`
  unfoldable pub apply_run : String → List Event → e.DB → e.DB
  apply_run run_id [] db = db
  apply_run run_id (x ∷ xs) db =
      insert_events (x ∷ xs) (save_flow (fold_all (seeded (load_flow run_id db) x) (x ∷ xs)) db)

  unfoldable pub apply_groups : Dict (List Event) → e.DB → e.DB
  apply_groups [] db = db
  apply_groups ((run_id, xs) ∷ by_run) db = apply_groups by_run (apply_run run_id xs db)

  unfoldable pub apply_many : List Event → e.DB → e.DB
  apply_many batch db = apply_groups (group_into [] batch) db

  unfoldable pub apply : Event → e.DB → e.DB
  apply x db = apply_many (x ∷ []) db

  unfoldable pub forget : String → e.DB → e.DB × Bool
  forget run_id db =
      let (db', rowcount) = e.delete_flows (run_id ∷ []) (e.delete_events (run_id ∷ []) db) in
      (db', not (rowcount == 0))

  unfoldable pub delete_stale : List String → e.DB → e.DB × ℕ
  delete_stale [] db = (db, 0)
  delete_stale (k ∷ ks) db =
      ((e.delete_flows (k ∷ ks) (e.delete_events (k ∷ ks) db)).0, length (k ∷ ks))

  unfoldable pub prune : ℕ → e.DB → e.DB × ℕ
  prune before db = delete_stale (e.select_stale before db) db

  unfoldable pub get_flow : String → e.DB → Option FlowSnapshot
  get_flow run_id db = load_flow run_id db

  -- the page that is made of the rows, one more than the limit having been asked for
  unfoldable pub listing_page : ℕ → List FlowRow → FlowPage
  listing_page limit rows =
      let window = map flow_from_row (take limit rows) in
      record {
        items = window;
        next_marker = if ltb limit (length rows) then run_id_of (last window) else none;
      }

  -- where the marker stands
  unfoldable pub anchored :
      Option State → Option String → ℕ → String → Option Anchor → e.DB → Outcome FlowPage
  anchored state book_id limit marker none db = unknown_marker marker
  anchored state book_id limit marker (some anchor) db =
      ok (listing_page limit (e.select_listing state book_id (some anchor) (limit + 1) db))

  unfoldable pub list_from :
      Option State → Option String → ℕ → Option String → e.DB → Outcome FlowPage
  list_from state book_id limit none db =
      ok (listing_page limit (e.select_listing state book_id none (limit + 1) db))
  list_from state book_id limit (some marker) db =
      anchored state book_id limit marker (e.select_anchor marker db) db

  unfoldable pub list_flows :
      e.DB → Option State → Option String → ℕ → Option String → Outcome FlowPage
  list_flows db state book_id limit marker =
      if ltb limit 1 then value_error else list_from state book_id limit marker db

  -- the page that is made of the events; a row of an unknown kind is a `ValueError`
  unfoldable pub page_from : Option ℕ → ℕ → ℕ → Option (List Event) → Outcome EventPage
  page_from oldest since limit none = value_error
  page_from oldest since limit (some es) =
      ok (event_page oldest since (contiguous_from es (expected_seq oldest since) limit))

  unfoldable pub events_since : e.DB → String → ℕ → ℕ → Outcome EventPage
  events_since db run_id since limit =
      if ltb limit 1
      then value_error
      else page_from (e.select_oldest run_id db) since limit
          (events_from_rows (e.select_events run_id since limit db))
