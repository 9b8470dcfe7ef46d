-- ===== src/Tests/Tables.antt =====
-- A database of two lists as an engine, and witnesses for the theorems on the SQL store.
use taskflow_meter.Prelude.{
  ℕ, suc, true, false, not, Option, none, some, List, [], ◌∷◌, ◌++◌, String, ◌≡◌, refl, arith, take,
  length, is_some, if◌then◌else◌, inl, inr, Bool-cases, map, eq_iff, ◌<◌, ◌≤◌,
}
use taskflow_meter.Prelude.Dict
use taskflow_meter.Prelude.Dict.{Dict, mem}
use taskflow_meter.Prelude.Sort.{sorted}
use taskflow_meter.Prelude.Select.{keep}
use taskflow_meter.Models.{FlowSnapshot}
use taskflow_meter.Events.{Event}
use taskflow_meter.DataSource.{ok, newest_first}
use taskflow_meter.Memory
use taskflow_meter.Memory.{Memory, new_memory, run_page}
use taskflow_meter.Poller.{read_all}
use taskflow_meter.Tests.{under_way, numbered, three}
use taskflow_meter.Sql.{load_flow, get_flow, events_since, list_flows, apply, prune}
use taskflow_meter.Sql.Reads.{events_since-run_page}
use taskflow_meter.Sql.Keys.{Holds, own}
use taskflow_meter.Sql.Refines.{apply_all, memory_apply_all, stores-agree}
use taskflow_meter.Sql.Paging.{wanted, read_all-keyset}
use taskflow_meter.Sql.Replay.{apply-sets_back}
use taskflow_meter.Sql.Retention.{prune-reads}
use taskflow_meter.Sql.Rows.{
  FlowRow, EventRow, flow_row, flow_from_row, event_row, atoms_from_rows, atom_rows, atom_from_row,
  atom_row,
}
use taskflow_meter.Sql.Statements.{
  Engine, Laws, anchor_of, any_of, same_key, in_listing, row_newest_first, of_run, of_run_after,
  row_by_seq, lowest, stale_keys,
}

abbrev Tables : Type 0
Tables = Dict FlowRow × List EventRow

abbrev update_row : FlowRow → Tables → Tables × ℕ
update_row r (flows, events) =
    if is_some (Dict.get r.run_id flows)
    then ((Dict.set r.run_id r flows, events), 1)
    else ((flows, events), 0)

abbrev insert_row : EventRow → Tables → Option Tables
insert_row r (flows, events) =
    if any_of (same_key r) events then none else some (flows, events ++ r ∷ [])

abbrev count_of : List String → Dict FlowRow → ℕ
count_of [] d = 0
count_of (k ∷ ks) d = if is_some (Dict.get k d) then suc (count_of ks d) else count_of ks d

abbrev pub tables : Engine
tables = record {
  DB = Tables;
  flow_rows = λ db. db.0;
  event_rows = λ db. db.1;
  select_flow = λ k db. Dict.get k db.0;
  update_flow = update_row;
  insert_flow = λ r db. (Dict.set r.run_id r db.0, db.1);
  insert_event = insert_row;
  delete_events = λ ks db. (db.0, keep (λ r. not (mem r.run_id ks)) db.1);
  delete_flows = λ ks db. ((keep (λ kv. not (mem kv.0 ks)) db.0, db.1), count_of ks db.0);
  select_stale = λ before db. stale_keys before db.0;
  select_anchor = λ k db. anchor_of (Dict.get k db.0);
  select_listing = λ state book_id anchor n db.
      take n (sorted row_newest_first (keep (in_listing state book_id anchor) (Dict.values db.0)));
  select_oldest = λ k db. lowest (keep (of_run k) db.1);
  select_events = λ k since n db. take n (sorted row_by_seq (keep (of_run_after k since) db.1));
}

update_row_laws :
    (r : FlowRow) (db : Tables)
    → ((update_row r db).0.0
        ≡ (if is_some (Dict.get r.run_id db.0) then Dict.set r.run_id r db.0 else db.0))
      × ((update_row r db).1 ≡ (if is_some (Dict.get r.run_id db.0) then 1 else 0))
      × ((update_row r db).0.1 ≡ db.1)
update_row_laws r (flows, events) = elim (Bool-cases (is_some (Dict.get r.run_id flows))) [
  | inl h ↦ rw h (refl, refl, refl)
  | inr h ↦ rw h (refl, refl, refl)
]

insert_row_there :
    (r : EventRow) (db : Tables) → any_of (same_key r) db.1 ≡ true → insert_row r db ≡ none
insert_row_there r (flows, events) h = rw h refl

insert_row_new :
    (r : EventRow) (db : Tables)
    → any_of (same_key r) db.1 ≡ false
    → (db' : Tables) × (insert_row r db ≡ some db') × (db'.1 ≡ db.1 ++ r ∷ []) × (db'.0 ≡ db.0)
insert_row_new r (flows, events) h = ((flows, events ++ r ∷ []), rw h refl, refl, refl)

tables_laws : Laws tables
tables_laws = record {
  select_flow_lem = λ k db. refl;
  update_flow_rows = λ r db. (update_row_laws r db).0;
  update_flow_count = λ r db. (update_row_laws r db).1;
  update_flow_events = λ r db. (update_row_laws r db).2;
  insert_flow_rows = λ r db h. refl;
  insert_flow_events = λ r db. refl;
  insert_event_there = insert_row_there;
  insert_event_new = insert_row_new;
  delete_events_rows = λ ks db. refl;
  delete_events_flows = λ ks db. refl;
  delete_flows_rows = λ ks db. refl;
  delete_flows_events = λ ks db. refl;
  delete_flow_count = λ k db. refl;
  select_stale_lem = λ before db. refl;
  select_anchor_lem = λ k db. refl;
  select_listing_lem = λ state book_id anchor n db. refl;
  select_oldest_lem = λ k db. refl;
  select_events_lem = λ k since n db. refl;
}

-- a database with a run and three events of it
abbrev database : Tables
database = (("r1", flow_row under_way) ∷ [], map event_row three)

database-Holds : Holds tables database three
database-Holds = record {
  rows = refl;
  unique = ((refl, (refl, tt)), ((refl, tt), (tt, tt)));
  keyed = only;
  distinct = (refl, tt);
}
  where
    only :
        (k : String) (row : FlowRow)
        → Dict.get k (("r1", flow_row under_way) ∷ []) ≡ some row
        → row.run_id ≡ k
    only k row h = unfold Dict.get flow_row in ground (arith, h, eq_iff k "r1")

events_since-run_page_example :
    events_since tables database "r1" 1 10 ≡ ok (run_page (own "r1" three) 1 10)
events_since-run_page_example =
    events_since-run_page tables tables_laws database three database-Holds "r1" 1 10 (omega arith)

abbrev roomy : Memory
roomy = record { max_events_per_run = 5; max_runs = none; runs = [] }

roomy-made : new_memory 5 none ≡ ok roomy
unfolding new_memory
roomy-made = refl

abbrev batches : List (List Event)
batches = (numbered 1 ∷ numbered 2 ∷ []) ∷ (numbered 3 ∷ []) ∷ []

stores-agree_example :
    (get_flow tables "r1" (apply_all tables batches ([], []))
      ≡ Memory.get_flow (memory_apply_all batches roomy) "r1")
    × (events_since tables (apply_all tables batches ([], [])) "r1" 1 10
        ≡ Memory.events_since (memory_apply_all batches roomy) "r1" 1 10)
stores-agree_example =
    stores-agree tables tables_laws batches ([], []) roomy 5 "r1" 1 10 refl refl roomy-made
      ((refl, (refl, tt)), ((refl, tt), (tt, tt))) (omega arith) (omega arith)

read_all-keyset_example :
    read_all (list_flows tables database none none) 1 (suc (length (wanted none none database.0)))
    ≡ some (ok (sorted newest_first (wanted none none database.0)))
read_all-keyset_example =
    read_all-keyset tables tables_laws database three database-Holds none none 1 (omega arith)

abbrev replayed : Event
replayed = numbered 1

known : get_flow tables "r1" database ≡ some under_way
unfolding get_flow load_flow Dict.get flow_row flow_from_row atoms_from_rows atom_rows atom_from_row
    atom_row
known = refl

apply-sets_back_example :
    (g : FlowSnapshot) × (get_flow tables "r1" (apply tables replayed database) ≡ some g)
    × (g.state ≡ replayed.state)
    × (events_since tables (apply tables replayed database) "r1" 0 10
        ≡ events_since tables database "r1" 0 10)
apply-sets_back_example =
    apply-sets_back tables tables_laws database three database-Holds replayed under_way 0 10 refl
      refl known (omega arith)

prune-reads_example :
    (10 < 20
      → (get_flow tables "r1" (prune tables 20 database).0 ≡ none)
        × (events_since tables (prune tables 20 database).0 "r1" 0 10 ≡ ok (run_page [] 0 10)))
    × (20 ≤ 10
        → (get_flow tables "r1" (prune tables 20 database).0 ≡ some under_way)
          × (events_since tables (prune tables 20 database).0 "r1" 0 10
              ≡ events_since tables database "r1" 0 10))
prune-reads_example =
    prune-reads tables tables_laws 20 database three "r1" under_way 0 10 database-Holds known
      (omega arith)
