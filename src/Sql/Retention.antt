-- ===== src/Sql/Retention.antt =====
-- What `forget` and `prune` of the SQL store take away, and what they leave.
use taskflow_meter.Prelude.{
  ℕ, ◌≤◌, ◌<◌, Bool, true, false, not, ◌||◌, Option, none, some, List, [], ◌∷◌, String, ◌≡◌, refl,
  ap, sym, ◌∙◌, subst, arith, str_eq, ltb, if◌then◌else◌, is_some, ◌==◌,
}
use taskflow_meter.Prelude.Dict
use taskflow_meter.Prelude.Dict.{Dict, Distinct, mem, mem-keys}
use taskflow_meter.Prelude.Select.{keep, keep-map}
use taskflow_meter.Models.{FlowSnapshot}
use taskflow_meter.Events.{Event}
use taskflow_meter.DataSource.{ok}
use taskflow_meter.Memory.{run_page}
use taskflow_meter.Sql.Rows.{FlowRow, event_row, flow_from_row}
use taskflow_meter.Sql.Statements.{Engine, Laws}
use taskflow_meter.Sql.{get_flow, load_flow, flow_of, forget, prune, delete_stale, events_since}
use taskflow_meter.Sql.Reads.{events_since-run_page}
use taskflow_meter.Sql.Keys.{Holds, own}
use taskflow_meter.Sql.Writes.{load_flow-get, keep-DistinctKeys}
use taskflow_meter.Sql.Survivors.{
  survives, get-keep, keep-Distinct, spared, own-spared, mem-stale_keys,
}

module _ (e : Engine) (laws : Laws e) where
  abbrev without : List String → e.DB → e.DB
  without ks db = (e.delete_flows ks (e.delete_events ks db)).0

  without-flows :
      (ks : List String) (db : e.DB)
      → e.flow_rows (without ks db) ≡ keep (survives ks) (e.flow_rows db)
  without-flows ks db =
      laws.delete_flows_rows ks (e.delete_events ks db)
      ∙ ap (keep (survives ks)) (laws.delete_events_flows ks db)

  without-Holds :
      (ks : List String) (db : e.DB) (es : List Event)
      → Holds e db es
      → Holds e (without ks db) (keep (spared ks) es)
  without-Holds ks db es h = record {
    rows =
        laws.delete_flows_events ks (e.delete_events ks db)
        ∙ (laws.delete_events_rows ks db
            ∙ (ap (keep (λ r. not (mem r.run_id ks))) h.rows
                ∙ (keep-map event_row (λ r. not (mem r.run_id ks)) es
                    ∙ (unfold event_row in refl))));
    unique = keep-DistinctKeys (spared ks) es h.unique;
    keyed = λ k row q. h.keyed k row (
        left k row (
          sym (get-keep ks k (e.flow_rows db))
          ∙ (ap (Dict.get k) (sym (without-flows ks db)) ∙ q)));
    distinct =
        subst (λ d. Distinct (Dict.keys d)) (sym (without-flows ks db))
          (keep-Distinct ks (e.flow_rows db) h.distinct);
  }
    where
      left :
          (k : String) (row : FlowRow)
          → (if mem k ks then none else Dict.get k (e.flow_rows db)) ≡ some row
          → Dict.get k (e.flow_rows db) ≡ some row
      left k row q = ground (arith, q)

  -- what is known of a run after the runs of a list have been deleted
  without-reads :
      (ks : List String) (db : e.DB) (es : List Event) (r : String) (since limit : ℕ)
      → Holds e db es
      → 1 ≤ limit
      → (get_flow e r (without ks db) ≡ (if mem r ks then none else get_flow e r db))
        × (events_since e (without ks db) r since limit
            ≡ ok (run_page (if mem r ks then [] else own r es) since limit))
  unfolding get_flow
  without-reads ks db es r since limit h some_limit = (
    load_flow-get e laws r (without ks db)
        ∙ (ap (λ d. flow_of (Dict.get r d)) (without-flows ks db)
            ∙ (ap flow_of (get-keep ks r (e.flow_rows db)) ∙ split (mem r ks))),
    events_since-run_page e laws (without ks db) (keep (spared ks) es) (without-Holds ks db es h) r
          since limit some_limit
        ∙ ap (λ xs. ok (run_page xs since limit)) (own-spared ks r es),
  )
    where
      split :
          (b : Bool)
          → flow_of (if b then none else Dict.get r (e.flow_rows db))
            ≡ (if b then none else load_flow e r db)
      split true = refl
      split false = sym (load_flow-get e laws r db)

  delete_stale-reads :
      (ks : List String) (db : e.DB) (es : List Event) (r : String) (since limit : ℕ)
      → Holds e db es
      → 1 ≤ limit
      → (get_flow e r (delete_stale e ks db).0 ≡ (if mem r ks then none else get_flow e r db))
        × (events_since e (delete_stale e ks db).0 r since limit
            ≡ ok (run_page (if mem r ks then [] else own r es) since limit))
  unfolding delete_stale
  delete_stale-reads [] db es r since limit h some_limit =
      (refl, events_since-run_page e laws db es h r since limit some_limit)
  delete_stale-reads (k ∷ ks) db es r since limit h some_limit =
      without-reads (k ∷ ks) db es r since limit h some_limit

  -- `prune` forgets a run that is stored just where it was last observed before the time: then the
  -- flow is gone and a page of its events is that of an empty history, and otherwise the flow and
  -- every page of events, at a limit of at least 1, stay as they were.
  pub prune-reads :
      (before : ℕ) (db : e.DB) (es : List Event) (r : String) (f : FlowSnapshot) (since limit : ℕ)
      → Holds e db es
      → get_flow e r db ≡ some f
      → 1 ≤ limit
      → (f.observed_at < before
          → (get_flow e r (prune e before db).0 ≡ none)
            × (events_since e (prune e before db).0 r since limit ≡ ok (run_page [] since limit)))
        × (before ≤ f.observed_at
            → (get_flow e r (prune e before db).0 ≡ some f)
              × (events_since e (prune e before db).0 r since limit
                  ≡ events_since e db r since limit))
  unfolding prune
  prune-reads before db es r f since limit h known some_limit =
      let ks = e.select_stale before db in
      let reads = delete_stale-reads ks db es r since limit h some_limit in
      let listed : mem r ks ≡ ltb f.observed_at before =
        ap (mem r) (laws.select_stale_lem before db)
        ∙ (mem-stale_keys before r (e.flow_rows db) h.distinct ∙ time before db r f known) in
      (
        λ old.
            let gone : mem r ks ≡ true = ground (arith, listed) in
            (reads.0 ∙ rw gone refl, reads.1 ∙ rw gone refl),
        λ recent.
            let stays : mem r ks ≡ false = ground (arith, listed) in
            (
              reads.0 ∙ rw stays known,
              reads.1
                  ∙ (rw stays refl
                      ∙ sym (events_since-run_page e laws db es h r since limit some_limit)),
            ),
      )
    where
      time :
          (before : ℕ) (db : e.DB) (r : String) (f : FlowSnapshot)
          → get_flow e r db ≡ some f
          → elim (Dict.get r (e.flow_rows db)) as (λ _. Bool) [
            | none ↦ false
            | some row ↦ ltb row.observed_at before
          ]
            ≡ ltb f.observed_at before
      time before db r f q =
          go (Dict.get r (e.flow_rows db))
            (sym (load_flow-get e laws r db) ∙ (unfold get_flow in q))
        where
          go :
              (o : Option FlowRow)
              → flow_of o ≡ some f
              → elim o as (λ _. Bool) [ none ↦ false | some row ↦ ltb row.observed_at before ]
                ≡ ltb f.observed_at before
          go none k = absurd (ground (arith, k))
          go (some row) k =
              let t : (flow_from_row row).observed_at ≡ row.observed_at =
                unfold flow_from_row in refl in
              ground (arith, k, t)

  -- `forget` takes the run away with its events, says whether it was there, and leaves every other
  -- run as it was.
  pub forget-reads :
      (r j : String) (db : e.DB) (es : List Event) (since limit : ℕ)
      → Holds e db es
      → 1 ≤ limit
      → (get_flow e j (forget e r db).0 ≡ (if str_eq j r then none else get_flow e j db))
        × (events_since e (forget e r db).0 j since limit
            ≡ ok (run_page (if str_eq j r then [] else own j es) since limit))
        × ((forget e r db).1 ≡ is_some (get_flow e r db))
  unfolding forget get_flow
  forget-reads r j db es since limit h some_limit =
      let reads = without-reads (r ∷ []) db es j since limit h some_limit in
      let only : mem j (r ∷ []) ≡ str_eq j r = or_false (str_eq j r) in
      (
        reads.0 ∙ ap (λ b. if b then none else load_flow e j db) only,
        reads.1 ∙ ap (λ b. ok (run_page (if b then [] else own j es) since limit)) only,
        was_there (Dict.get r (e.flow_rows db)) (load_flow-get e laws r db) (
            laws.delete_flow_count r (e.delete_events (r ∷ []) db)
            ∙ ap (λ d. if is_some (Dict.get r d) then 1 else 0)
                (laws.delete_events_flows (r ∷ []) db)),
      )
    where
      or_false : (b : Bool) → (b || false) ≡ b
      or_false true = refl
      or_false false = refl

      was_there :
          (o : Option FlowRow)
          → load_flow e r db ≡ flow_of o
          → (e.delete_flows (r ∷ []) (e.delete_events (r ∷ []) db)).1 ≡ (if is_some o then 1 else 0)
          → not ((e.delete_flows (r ∷ []) (e.delete_events (r ∷ []) db)).1 == 0)
            ≡ is_some (load_flow e r db)
      was_there none k n = rw (k, n) refl
      was_there (some row) k n = rw (k, n) refl
