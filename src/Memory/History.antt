-- ===== src/Memory/History.antt =====
-- The events that `MemoryDataSource` keeps of a run.
use taskflow_meter.Prelude.{
  ℕ, suc, ◌-◌, List, [], ◌∷◌, ◌++◌, ◌≡◌, ◌≢◌, refl, ap, ◌∙◌, Option, none, some, String, arith,
  eq_iff, length, length-append, kept, kept-kept-append, drop, All, Option-cases, inl, inr, is_some,
  if◌then◌else◌, str_eq,
}
use mathlib.Core.List.{append-nil, append_assoc}
use taskflow_meter.Prelude.Dict
use taskflow_meter.Prelude.Dict.{Dict, get-set}
use taskflow_meter.Events.{Event}
use taskflow_meter.Fold.{fold, fold_all, flow_from_event}
use taskflow_meter.Diff.First.{learn}
use taskflow_meter.Models.{FlowSnapshot}
use taskflow_meter.Memory.{
  Run, new_run, Memory, push, record_event, ensure_run, write_back, evict_if_needed, written, apply,
  apply_many, get_flow,
}

pub push-kept :
    (limit : ℕ) (xs : List Event) (x : Event) → push limit xs x ≡ kept limit (xs ++ x ∷ [])
unfolding push
push-kept limit xs x =
    let e : suc (length xs) ≡ length (xs ++ x ∷ []) = omega (arith, length-append xs (x ∷ [])) in
    ap (λ n. drop (n - limit) (xs ++ x ∷ [])) e

-- the run as it is stored, or as it would be seeded by the event
unfoldable pub run_or_new : Option Run → Event → Run
run_or_new (some run) e = run
run_or_new none e = new_run (flow_from_event e)

pub written-events :
    (m : Memory) (run : Run) (e : Event)
    → (written m run e).events ≡ push m.max_events_per_run run.events e
unfolding written record_event
written-events m run e = refl

pub written-flow : (m : Memory) (run : Run) (e : Event) → (written m run e).flow ≡ fold run.flow e
unfolding written record_event
written-flow m run e = refl

-- the run is there, so nothing is seeded and nothing evicted
pub apply_old :
    (m : Memory) (e : Event) (run : Run)
    → Dict.get e.run_id m.runs ≡ some run
    → apply m e ≡ record m { runs = Dict.set e.run_id (written m run e) m.runs }
unfolding apply write_back ensure_run
apply_old m e run h =
    ap (λ o. write_back m e (ensure_run o m e)) h
    ∙ ap
        (λ (o : Option Run). record m {
          runs = if is_some o then Dict.set e.run_id (written m run e) m.runs else m.runs;
        })
        h

-- the run is new, and there is no limit on the runs
apply_new :
    (m : Memory) (e : Event)
    → m.max_runs ≡ none
    → Dict.get e.run_id m.runs ≡ none
    → let run = new_run (flow_from_event e) in
      (apply m e).runs ≡ Dict.set e.run_id (written m run e) (Dict.set e.run_id run m.runs)
unfolding apply write_back ensure_run evict_if_needed
apply_new m e u h =
    let run = new_run (flow_from_event e) in
    ap (λ o. (write_back m e (ensure_run o m e)).runs) h
    ∙ (ap (λ l. (write_back m e (run, evict_if_needed l (Dict.set e.run_id run m.runs))).runs) u
        ∙ rw (get-set e.run_id e.run_id run m.runs, (eq_iff e.run_id e.run_id).1 refl))

-- with no limit on the runs, an event is written to its own run and to no other
pub get-apply :
    (m : Memory) (e : Event) (r : String)
    → m.max_runs ≡ none
    → Dict.get r (apply m e).runs ≡ (
        if str_eq r e.run_id
        then some (written m (run_or_new (Dict.get e.run_id m.runs) e) e)
        else Dict.get r m.runs)
get-apply m e r u = elim (Option-cases (Dict.get e.run_id m.runs)) [
  | inl new ↦
      let run = new_run (flow_from_event e) in
      rw (apply_new m e u new, new)
        (unfold run_or_new in
          ground (
            arith,
            get-set r e.run_id (written m run e) (Dict.set e.run_id run m.runs),
            get-set r e.run_id run m.runs,
          ))
  | inr (run, old) ↦
      rw (apply_old m e run old, old)
        (unfold run_or_new in get-set r e.run_id (written m run e) m.runs)
]

-- the events that are kept of a run, in the order in which they came
unfoldable pub history : String → Memory → List Event
history r m = elim (Dict.get r m.runs) [ none ↦ [] | some run ↦ run.events ]

pub limits-apply :
    (m : Memory) (e : Event)
    → ((apply m e).max_runs ≡ m.max_runs) × ((apply m e).max_events_per_run ≡ m.max_events_per_run)
unfolding apply
limits-apply m e = limits (ensure_run (Dict.get e.run_id m.runs) m e)
  where
    limits :
        (p : Run × Dict Run)
        → ((write_back m e p).max_runs ≡ m.max_runs)
          × ((write_back m e p).max_events_per_run ≡ m.max_events_per_run)
    limits p = unfold write_back in (refl, refl)

pub history-apply :
    (m : Memory) (e : Event) (r : String)
    → m.max_runs ≡ none
    → history r (apply m e)
      ≡ (if str_eq r e.run_id then push m.max_events_per_run (history r m) e else history r m)
unfolding history run_or_new
history-apply m e r u =
    let own = written-events m (run_or_new (Dict.get e.run_id m.runs) e) e in
    ground (arith, get-apply m e r u, own, eq_iff r e.run_id)

pub get_flow-apply :
    (m : Memory) (e : Event) (r : String)
    → m.max_runs ≡ none
    → get_flow (apply m e) r ≡ (
        if str_eq r e.run_id
        then some (fold (run_or_new (Dict.get e.run_id m.runs) e).flow e)
        else get_flow m r)
unfolding get_flow
get_flow-apply m e r u =
    let own = written-flow m (run_or_new (Dict.get e.run_id m.runs) e) e in
    ground (arith, get-apply m e r u, own)

-- what a store that has learnt nothing, or something, of a run knows after more of its events
unfoldable pub absorb : Option FlowSnapshot → List Event → Option FlowSnapshot
absorb (some f) es = some (fold_all f es)
absorb none es = learn es

pub absorb-absorb :
    (o : Option FlowSnapshot) (e : Event) (es : List Event)
    → absorb (absorb o (e ∷ [])) es ≡ absorb o (e ∷ es)
unfolding absorb learn fold_all
absorb-absorb none e es = refl
absorb-absorb (some f) e es = refl

-- a batch of the events of one run, and a store that has no limit on its runs
module _ (r : String) (limit : ℕ) where
  pub history-apply_own :
      (m : Memory) (e : Event) (xs : List Event)
      → m.max_runs ≡ none
      → m.max_events_per_run ≡ limit
      → e.run_id ≡ r
      → history r m ≡ kept limit xs
      → history r (apply m e) ≡ kept limit (xs ++ e ∷ [])
  history-apply_own m e xs u l h k =
      let own : history r (apply m e) ≡ push m.max_events_per_run (history r m) e =
        ground (arith, history-apply m e r u, eq_iff r e.run_id) in
      own
      ∙ (ap (λ n. push n (history r m) e) l
          ∙ (ap (λ ys. push limit ys e) k
              ∙ (push-kept limit (kept limit xs) e ∙ kept-kept-append limit xs (e ∷ []))))

  -- Where a store with no limit on its runs keeps the last events of a run, up to its limit, a
  -- batch of the run's events leaves it with the last events of the longer stream.
  pub history-apply_many :
      (m : Memory) (es xs : List Event)
      → m.max_runs ≡ none
      → m.max_events_per_run ≡ limit
      → All (λ e. e.run_id ≡ r) es
      → history r m ≡ kept limit xs
      → history r (apply_many m es) ≡ kept limit (xs ++ es)
  unfolding apply_many
  history-apply_many m [] xs u l h k = rw append-nil k
  history-apply_many m (e ∷ es) xs u l h k =
      history-apply_many (apply m e) es (xs ++ e ∷ []) ((limits-apply m e).0 ∙ u)
        ((limits-apply m e).1 ∙ l) h.1 (history-apply_own m e xs u l h.0 k)
      ∙ ap (kept limit) (append_assoc xs (e ∷ []) es)

module _ (r : String) where
  pub apply_many-other :
      (m : Memory) (es : List Event)
      → m.max_runs ≡ none
      → All (λ e. e.run_id ≢ r) es
      → (history r (apply_many m es) ≡ history r m) × (get_flow (apply_many m es) r ≡ get_flow m r)
  unfolding apply_many
  apply_many-other m [] u h = (refl, refl)
  apply_many-other m (e ∷ es) u h =
      let rest = apply_many-other (apply m e) es ((limits-apply m e).0 ∙ u) h.1 in
      (
        rest.0 ∙ ground (arith, history-apply m e r u, eq_iff r e.run_id),
        rest.1 ∙ ground (arith, get_flow-apply m e r u, eq_iff r e.run_id),
      )

  -- the flow after one event of the run
  pub get_flow-apply_own :
      (m : Memory) (e : Event)
      → m.max_runs ≡ none
      → e.run_id ≡ r
      → get_flow (apply m e) r ≡ absorb (get_flow m r) (e ∷ [])
  unfolding get_flow absorb learn fold_all run_or_new
  get_flow-apply_own m e u h = ground (arith, get_flow-apply m e r u, eq_iff r e.run_id)

  -- Where there is no limit on the runs, a batch of a run's events that is not empty leaves the
  -- store with the fold of them over what it had, seeded by the first event where it had nothing.
  pub get_flow-apply_many :
      (m : Memory) (e : Event) (es : List Event)
      → m.max_runs ≡ none
      → All (λ e. e.run_id ≡ r) (e ∷ es)
      → get_flow (apply_many m (e ∷ es)) r ≡ absorb (get_flow m r) (e ∷ es)
  unfolding apply_many
  get_flow-apply_many m e [] u h = get_flow-apply_own m e u h.0
  get_flow-apply_many m e (x ∷ xs) u h =
      get_flow-apply_many (apply m e) x xs ((limits-apply m e).0 ∙ u) h.1
      ∙ (ap (λ o. absorb o (x ∷ xs)) (get_flow-apply_own m e u h.0)
          ∙ absorb-absorb (get_flow m r) e (x ∷ xs))

pub limits-apply_many :
    (m : Memory) (es : List Event)
    → ((apply_many m es).max_runs ≡ m.max_runs)
      × ((apply_many m es).max_events_per_run ≡ m.max_events_per_run)
unfolding apply_many
limits-apply_many m [] = (refl, refl)
limits-apply_many m (e ∷ es) =
    let rest = limits-apply_many (apply m e) es in
    (rest.0 ∙ (limits-apply m e).0, rest.1 ∙ (limits-apply m e).1)
