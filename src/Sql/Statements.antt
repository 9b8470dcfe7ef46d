-- ===== src/Sql/Statements.antt =====
-- The statements that datasource/sqlalchemy/source.py executes, and what SQLAlchemy and the database
-- do at each. The library is a parameter; `Laws` is what its documentation says of these statements.
use taskflow_meter.Prelude.{
  ℕ, Bool, true, false, ◌&&◌, ◌||◌, Option, none, some, List, [], ◌∷◌, ◌++◌, String, ◌≡◌, ite, ltb,
  leb, ◌==◌, str_eq, le_str, not, take, min, is_some, if◌then◌else◌,
}
use taskflow_meter.Prelude.Dict
use taskflow_meter.Prelude.Dict.{Dict, mem}
use taskflow_meter.Prelude.Sort.{sorted}
use taskflow_meter.Prelude.Select.{keep}
use taskflow_meter.States.{State, Option-State-discrete}
use taskflow_meter.DataSource.{Option-String-discrete}
use taskflow_meter.Sql.Rows.{FlowRow, EventRow}

-- `(anchor.observed_at, anchor.run_id)`
abbrev pub Anchor : Type 0
Anchor = ℕ × String

-- A database, by the statements on it. A table is read through `flow_rows` and `event_rows`: the
-- flows by their primary key, the events in the order of insertion. Only the laws speak of these.
pub record Engine : Type 1 where
  pub DB : Type 0
  pub flow_rows : DB → Dict FlowRow
  pub event_rows : DB → List EventRow
  pub select_flow : String → DB → Option FlowRow
  pub update_flow : FlowRow → DB → DB × ℕ
  pub insert_flow : FlowRow → DB → DB
  pub insert_event : EventRow → DB → Option DB
  pub delete_events : List String → DB → DB
  pub delete_flows : List String → DB → DB × ℕ
  pub select_stale : ℕ → DB → List String
  pub select_anchor : String → DB → Option Anchor
  pub select_listing : Option State → Option String → Option Anchor → ℕ → DB → List FlowRow
  pub select_oldest : String → DB → Option ℕ
  pub select_events : String → ℕ → ℕ → DB → List EventRow

-- `where(c.run_id == run_id)`, and with `c.seq > since_seq`
abbrev pub of_run : String → EventRow → Bool
of_run run_id r = str_eq r.run_id run_id

abbrev pub of_run_after : String → ℕ → EventRow → Bool
of_run_after run_id since r = str_eq r.run_id run_id && ltb since r.seq

-- `order_by(c.seq.asc())`
abbrev pub row_by_seq : EventRow → EventRow → Bool
row_by_seq a b = leb a.seq b.seq

-- the primary key of the events
abbrev pub same_key : EventRow → EventRow → Bool
same_key r s = str_eq s.run_id r.run_id && r.seq == s.seq

abbrev pub any_of : (EventRow → Bool) → List EventRow → Bool
any_of p [] = false
any_of p (r ∷ rs) = p r || any_of p rs

-- `min(c.seq)`, which is NULL over no rows
unfoldable pub lowest : List EventRow → Option ℕ
lowest [] = none
lowest (r ∷ rs) = elim (lowest rs) [ none ↦ some r.seq | some n ↦ some (min r.seq n) ]

-- `where(c.state == state)`, where NULL is equal to nothing
abbrev pub row_has_state : Option State → FlowRow → Bool
row_has_state none r = true
row_has_state (some s) r = ite (Option-State-discrete r.state (some s)) true false

abbrev pub row_has_book : Option String → FlowRow → Bool
row_has_book none r = true
row_has_book (some b) r = ite (Option-String-discrete r.book_id (some b)) true false

-- the condition of the keyset
abbrev pub past : Option Anchor → FlowRow → Bool
past none r = true
past (some (observed_at, run_id)) r =
    ltb r.observed_at observed_at
    || (r.observed_at == observed_at && (not (le_str r.run_id run_id)))

abbrev pub in_listing : Option State → Option String → Option Anchor → FlowRow → Bool
in_listing state book_id anchor r = row_has_state state r && row_has_book book_id r && past anchor r

-- `order_by(c.observed_at.desc(), c.run_id.asc())`
abbrev pub row_newest_first : FlowRow → FlowRow → Bool
row_newest_first r s =
    if ltb s.observed_at r.observed_at
    then true
    else if ltb r.observed_at s.observed_at
    then false
    else le_str r.run_id s.run_id

abbrev pub anchor_of : Option FlowRow → Option Anchor
anchor_of none = none
anchor_of (some r) = some (r.observed_at, r.run_id)

abbrev pub stale_keys : ℕ → Dict FlowRow → List String
stale_keys before [] = []
stale_keys before ((k, r) ∷ d) =
    if ltb r.observed_at before then k ∷ stale_keys before d else stale_keys before d

-- What the statements do, the primary keys of the tables being `run_id` and `(run_id, seq)`.
pub record Laws (e : Engine) : Type 0 where
  pub select_flow_lem :
      (run_id : String) (db : e.DB) → e.select_flow run_id db ≡ Dict.get run_id (e.flow_rows db)
  -- the rows that match are written and counted
  pub update_flow_rows :
      (r : FlowRow) (db : e.DB)
      → e.flow_rows (e.update_flow r db).0 ≡ (
          if is_some (Dict.get r.run_id (e.flow_rows db))
          then Dict.set r.run_id r (e.flow_rows db)
          else e.flow_rows db)
  pub update_flow_count :
      (r : FlowRow) (db : e.DB)
      → (e.update_flow r db).1 ≡ (if is_some (Dict.get r.run_id (e.flow_rows db)) then 1 else 0)
  pub update_flow_events :
      (r : FlowRow) (db : e.DB) → e.event_rows (e.update_flow r db).0 ≡ e.event_rows db
  -- a new key
  pub insert_flow_rows :
      (r : FlowRow) (db : e.DB)
      → Dict.get r.run_id (e.flow_rows db) ≡ none
      → e.flow_rows (e.insert_flow r db) ≡ Dict.set r.run_id r (e.flow_rows db)
  pub insert_flow_events :
      (r : FlowRow) (db : e.DB) → e.event_rows (e.insert_flow r db) ≡ e.event_rows db
  -- a key that is there is an `IntegrityError`, and the savepoint is rolled back
  pub insert_event_there :
      (r : EventRow) (db : e.DB)
      → any_of (same_key r) (e.event_rows db) ≡ true
      → e.insert_event r db ≡ none
  pub insert_event_new :
      (r : EventRow) (db : e.DB)
      → any_of (same_key r) (e.event_rows db) ≡ false
      → (db' : e.DB) × (e.insert_event r db ≡ some db')
        × (e.event_rows db' ≡ e.event_rows db ++ r ∷ [])
        × (e.flow_rows db' ≡ e.flow_rows db)
  pub delete_events_rows :
      (ks : List String) (db : e.DB)
      → e.event_rows (e.delete_events ks db) ≡ keep (λ r. not (mem r.run_id ks)) (e.event_rows db)
  pub delete_events_flows :
      (ks : List String) (db : e.DB) → e.flow_rows (e.delete_events ks db) ≡ e.flow_rows db
  pub delete_flows_rows :
      (ks : List String) (db : e.DB)
      → e.flow_rows (e.delete_flows ks db).0 ≡ keep (λ kv. not (mem kv.0 ks)) (e.flow_rows db)
  pub delete_flows_events :
      (ks : List String) (db : e.DB) → e.event_rows (e.delete_flows ks db).0 ≡ e.event_rows db
  pub delete_flow_count :
      (k : String) (db : e.DB)
      → (e.delete_flows (k ∷ []) db).1 ≡ (if is_some (Dict.get k (e.flow_rows db)) then 1 else 0)
  pub select_stale_lem :
      (before : ℕ) (db : e.DB) → e.select_stale before db ≡ stale_keys before (e.flow_rows db)
  pub select_anchor_lem :
      (k : String) (db : e.DB) → e.select_anchor k db ≡ anchor_of (Dict.get k (e.flow_rows db))
  pub select_listing_lem :
      (state : Option State) (book_id : Option String) (anchor : Option Anchor) (n : ℕ) (db : e.DB)
      → e.select_listing state book_id anchor n db
        ≡ take n (
            sorted row_newest_first
              (keep (in_listing state book_id anchor) (Dict.values (e.flow_rows db))))
  pub select_oldest_lem :
      (run_id : String) (db : e.DB)
      → e.select_oldest run_id db ≡ lowest (keep (of_run run_id) (e.event_rows db))
  pub select_events_lem :
      (run_id : String) (since n : ℕ) (db : e.DB)
      → e.select_events run_id since n db
        ≡ take n (sorted row_by_seq (keep (of_run_after run_id since) (e.event_rows db)))
