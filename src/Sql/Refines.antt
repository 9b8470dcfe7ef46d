-- ===== src/Sql/Refines.antt =====
-- The SQL store beside the memory store: fed with the same batches, they answer alike.
use taskflow_meter.Prelude.{
  ℕ, ◌≤◌, false, none, some, List, [], ◌∷◌, ◌++◌, String, ◌≡◌, ◌≢◌, refl, ap, sym, ◌∙◌, subst,
  arith, All, length, length-append, kept_all,
}
use mathlib.Core.List.{append_assoc}
use taskflow_meter.Prelude.Dict
use taskflow_meter.Prelude.Dict.{Distinct}
use taskflow_meter.Prelude.Select.{keep_nil, keep-append}
use taskflow_meter.Events.{Event}
use taskflow_meter.DataSource.{ok}
use taskflow_meter.Memory
use taskflow_meter.Memory.{Memory, Run, new_memory, run_page}
use taskflow_meter.Memory.Reads.{memory_page}
use taskflow_meter.Memory.History.{history, limits-apply_many}
use taskflow_meter.Sql.Rows.{FlowRow}
use taskflow_meter.Sql.Statements.{Engine, Laws}
use taskflow_meter.Sql.{load_flow, flow_of, get_flow, apply_many, events_since}
use taskflow_meter.Sql.Reads.{events_since-run_page}
use taskflow_meter.Sql.Keys.{Holds, DistinctKeys, same_event, own, is_of}
use taskflow_meter.Sql.Writes.{insert_all, load_flow-get, keep-DistinctKeys}
use taskflow_meter.Sql.Batches.{absorb_any}
use taskflow_meter.Sql.Applied.{after, apply_many-Holds, apply_many-load, apply_many-own}
use taskflow_meter.Sql.Histories.{memory-load, memory-history, insert_all-append, length-own-le}

-- The two stores have been told the same events: for every run they know the same flow, the memory
-- store holds all of its events in the order in which they came, and the table holds the same.
record Refines (e : Engine) (db : e.DB) (m : Memory) (es told : List Event) : Type 0 where
  holds : Holds e db es
  same_events : (r : String) → own r es ≡ own r told
  histories : (r : String) → history r m ≡ own r told
  flows : (r : String) → load_flow e r db ≡ Memory.get_flow m r
  unlimited : m.max_runs ≡ none

new_memory_lem :
    (max_events : ℕ) (m : Memory)
    → new_memory max_events none ≡ ok m
    → ((k : String) → history k m ≡ [])
      × ((k : String) → Memory.get_flow m k ≡ none)
      × (m.max_runs ≡ none)
      × (m.max_events_per_run ≡ max_events)
unfolding new_memory
new_memory_lem max_events m h =
    let fresh : Memory = record { max_events_per_run = max_events; max_runs = none; runs = [] } in
    let made : fresh ≡ m = ground (arith, h) in
    (
      λ k. ap (history k) (sym made) ∙ (unfold history Dict.get in refl),
      λ k. ap (λ n. Memory.get_flow n k) (sym made) ∙ (unfold Memory.get_flow Dict.get in refl),
      sym (ap (λ n. n.max_runs) made),
      sym (ap (λ n. n.max_events_per_run) made),
    )

abbrev pub concat : List (List Event) → List Event
concat [] = []
concat (xs ∷ xss) = xs ++ concat xss

abbrev pub memory_apply_all : List (List Event) → Memory → Memory
memory_apply_all [] m = m
memory_apply_all (batch ∷ batches) m = memory_apply_all batches (Memory.apply_many m batch)

DistinctKeys-left : (xs ys : List Event) → DistinctKeys (xs ++ ys) → DistinctKeys xs
DistinctKeys-left [] ys d = tt
DistinctKeys-left (x ∷ xs) ys d = (first xs d.0, DistinctKeys-left xs ys d.1)
  where
    first :
        (zs : List Event)
        → All (λ z. same_event x z ≡ false) (zs ++ ys)
        → All (λ z. same_event x z ≡ false) zs
    first [] h = tt
    first (z ∷ zs) h = (h.0, first zs h.1)

abbrev pub apply_all : (e : Engine) → List (List Event) → e.DB → e.DB
apply_all e [] db = db
apply_all e (batch ∷ batches) db = apply_all e batches (apply_many e batch db)

module _ (e : Engine) (laws : Laws e) where
  apply_many-Refines :
      (batch : List Event) (db : e.DB) (m : Memory) (es told : List Event)
      → Refines e db m es told
      → DistinctKeys (told ++ batch)
      → length (told ++ batch) ≤ m.max_events_per_run
      → Refines e
          (apply_many e batch db)
          (Memory.apply_many m batch)
          (after es batch)
          (told ++ batch)
  apply_many-Refines batch db m es told h d room = record {
    holds = apply_many-Holds e laws batch db es h.holds;
    same_events = λ r.
        apply_many-own e laws batch db es h.holds r
        ∙ (ap (λ xs. insert_all xs (own r batch)) (h.same_events r)
            ∙ (insert_all-append (own r told) (own r batch)
                  (subst DistinctKeys (split r) (keep-DistinctKeys (is_of r) (told ++ batch) d))
                ∙ sym (split r)));
    histories = λ r.
        memory-history m batch (own r told) r m.max_events_per_run h.unlimited refl (
          h.histories r
          ∙ sym (
              kept_all m.max_events_per_run (own r told)
                (omega (arith, room, length-own-le r told, length-append told batch))))
        ∙ (kept_all m.max_events_per_run (own r told ++ own r batch)
              (omega (arith, room, length-own-le r (told ++ batch), ap length (split r)))
            ∙ sym (split r));
    flows = λ r.
        apply_many-load e laws batch db es h.holds r
        ∙ (ap (λ o. absorb_any o (own r batch)) (h.flows r)
            ∙ sym (memory-load m batch r h.unlimited));
    unlimited = (limits-apply_many m batch).0 ∙ h.unlimited;
  }
    where
      split : (r : String) → own r (told ++ batch) ≡ own r told ++ own r batch
      split r = keep-append (is_of r) told batch

  -- every read of two such stores
  reads-agree :
      (db : e.DB) (m : Memory) (es told : List Event) (r : String) (since limit : ℕ)
      → Refines e db m es told
      → 1 ≤ limit
      → (get_flow e r db ≡ Memory.get_flow m r)
        × (events_since e db r since limit ≡ Memory.events_since m r since limit)
  unfolding get_flow
  reads-agree db m es told r since limit h some_limit = (
    h.flows r,
    events_since-run_page e laws db es h.holds r since limit some_limit
        ∙ (ap (λ xs. ok (run_page xs since limit)) (h.same_events r ∙ sym (h.histories r))
            ∙ sym (memory_page m r since limit some_limit)),
  )

  run-Refines :
      (batches : List (List Event)) (db : e.DB) (m : Memory) (es told : List Event)
      → Refines e db m es told
      → DistinctKeys (told ++ concat batches)
      → length (told ++ concat batches) ≤ m.max_events_per_run
      → (es' told' : List Event) × Refines e
          (apply_all e batches db)
          (memory_apply_all batches m)
          es'
          told'
  run-Refines [] db m es told h d room = (es, told, h)
  run-Refines (batch ∷ batches) db m es told h d room =
      let regroup = append_assoc told batch (concat batches) in
      let d' : DistinctKeys ((told ++ batch) ++ concat batches) =
        subst DistinctKeys (sym regroup) d in
      let size = length-append (told ++ batch) (concat batches) in
      run-Refines batches (apply_many e batch db) (Memory.apply_many m batch) (after es batch)
        (told ++ batch)
        (apply_many-Refines batch db m es told h
          (DistinctKeys-left (told ++ batch) (concat batches) d')
          (omega (arith, room, ap length regroup, size)))
        d' (omega (arith, room, ap length regroup, (limits-apply_many m batch).1))

  -- A SQL store whose tables are empty and a new memory store with no limit on its runs, told the
  -- same batches, give the same flow of every run and the same page of its events at any number
  -- and any limit of at least 1, if no event has the run and the number of another and the memory
  -- store may keep as many events of a run as there are in all.
  pub stores-agree :
      (batches : List (List Event)) (db : e.DB) (m : Memory) (max_events : ℕ) (r : String)
      (since limit : ℕ)
      → e.event_rows db ≡ []
      → e.flow_rows db ≡ []
      → new_memory max_events none ≡ ok m
      → DistinctKeys (concat batches)
      → length (concat batches) ≤ max_events
      → 1 ≤ limit
      → (get_flow e r (apply_all e batches db) ≡ Memory.get_flow (memory_apply_all batches m) r)
        × (events_since e (apply_all e batches db) r since limit
            ≡ Memory.events_since (memory_apply_all batches m) r since limit)
  stores-agree batches db m max_events r since limit no_events no_flows new d room some_limit =
      let fresh = new_memory_lem max_events m new in
      let start : Refines e db m [] [] = record {
        holds = record {
          rows = no_events;
          unique = tt;
          keyed = λ k row q. absurd (nothing k row (ap (Dict.get k) (sym no_flows) ∙ q));
          distinct = subst (λ d. Distinct (Dict.keys d)) (sym no_flows) tt;
        };
        same_events = λ k. refl;
        histories = λ k. fresh.0 k ∙ sym (keep_nil (is_of k));
        flows = λ k.
            load_flow-get e laws k db
            ∙ (ap (λ rows. flow_of (Dict.get k rows)) no_flows
                ∙ (unfold Dict.get in sym (fresh.1 k)));
        unlimited = fresh.2;
      } in
      let (es', told', h) = run-Refines batches db m [] [] start d (omega (arith, room, fresh.3)) in
      reads-agree (apply_all e batches db) (memory_apply_all batches m) es' told' r since limit h
        some_limit
    where
      nothing : (k : String) (row : FlowRow) → Dict.get k [] ≢ some row
      nothing k row = unfold Dict.get in λ q. ground (arith, q)
