-- ===== src/Poller/InStep.antt =====
-- A whole pass of the poller over the memory store, and the poller and the store in step after it.
use taskflow_meter.Prelude.{
  Option, none, some, List, [], ◌∷◌, String, ◌≡◌, refl, ap, sym, ◌∙◌, subst, Bool-cases, inl, inr,
  arith, All, All_map, str_eq, eq_iff, true, false, is_some, ◌||◌,
}
use taskflow_meter.Prelude.Dict
use taskflow_meter.Prelude.Dict.{Dict, Distinct, mem, get-set}
use taskflow_meter.Models.{FlowSnapshot}
use taskflow_meter.DataSource.{run_ids}
use taskflow_meter.Diff.Replay.{Follows}
use taskflow_meter.Memory.{Memory, get_flow}
use taskflow_meter.Poller.{Pass, Poller, visit, visit_all, new_pass, poll, finish}
use taskflow_meter.Poller.Passes.{memory_sink, visit_all-cons}
use taskflow_meter.Poller.Sync.{
  Reflects, known, or_else, ByRun, InSync, Fair, get-set_self, visit-Synced,
}

module _ (previous : Dict FlowSnapshot) (by_run : ByRun previous) where
  -- the runs of `ss` are not among those met so far
  abbrev Fresh : List FlowSnapshot → Dict FlowSnapshot → Type 0
  Fresh ss seen = (r : String) → mem r (run_ids ss) ≡ true → Dict.get r seen ≡ none

  record Swept (ss : List FlowSnapshot) (p : Pass Memory) (q : Pass Memory × Option String)
      : Type 0 where
    quiet : q.1 ≡ none
    sync : InSync previous q.0
    seen :
        (r : String)
        → is_some (Dict.get r q.0.seen) ≡ (is_some (Dict.get r p.seen) || mem r (run_ids ss))
    others : (r : String) → mem r (run_ids ss) ≡ false → Dict.get r q.0.seen ≡ Dict.get r p.seen
    shown : All (λ s. Dict.get s.run_id q.0.seen ≡ some s) ss

  Fresh-set :
      (s : FlowSnapshot) (ss : List FlowSnapshot) (seen : Dict FlowSnapshot)
      → mem s.run_id (run_ids ss) ≡ false
      → Fresh (s ∷ ss) seen
      → Fresh ss (Dict.set s.run_id s seen)
  Fresh-set s ss seen d h = λ r m. elim (Bool-cases (str_eq r s.run_id)) [
    | inl e ↦ absurd (ground (arith, ap (λ j. mem j (run_ids ss)) ((eq_iff r s.run_id).0 e)))
    | inr e ↦ get-set r s.run_id s seen ∙ rw e (h r (rw e m))
  ]

  seen-set :
      (s : FlowSnapshot) (seen : Dict FlowSnapshot) (r : String)
      → is_some (Dict.get r (Dict.set s.run_id s seen))
        ≡ (str_eq r s.run_id || is_some (Dict.get r seen))
  seen-set s seen r = ground (arith, get-set r s.run_id s seen)

  visit_all-Swept :
      (ss : List FlowSnapshot) (p : Pass Memory)
      → Distinct (run_ids ss)
      → All (Fair previous) ss
      → Fresh ss p.seen
      → InSync previous p
      → Swept ss p (visit_all memory_sink previous ss p)
  visit_all-Swept [] p d fair fresh h =
      unfold visit_all in
      record { quiet = refl; sync = h; seen = λ r. ground arith; others = λ r m. refl; shown = tt }
  visit_all-Swept (s ∷ ss) p d fair fresh h =
      let q = visit memory_sink previous s p in
      let v =
        visit-Synced previous by_run s p fair.0
          (fresh s.run_id (ground (arith, eq_iff s.run_id s.run_id))) h in
      let rest =
        visit_all-Swept ss q.0 d.1 fair.1
          (subst (Fresh ss) (sym v.seen) (Fresh-set s ss p.seen d.0 fresh)) v.sync in
      subst (Swept (s ∷ ss) p)
        (sym (visit_all-cons memory_sink previous s ss p q.0 (ap (λ o. (q.0, o)) v.quiet)))
        (record {
          quiet = rest.quiet;
          sync = rest.sync;
          seen = λ r.
              ground
                (arith, rest.seen r, seen-set s p.seen r, ap (λ d. is_some (Dict.get r d)) v.seen);
          others = λ r m.
              rest.others r (ground arith)
              ∙ (ap (Dict.get r) v.seen ∙ ground (arith, get-set r s.run_id s p.seen));
          shown = (
            rest.others s.run_id d.0 ∙ (ap (Dict.get s.run_id) v.seen ∙ get-set_self s p.seen),
            rest.shown,
          );
        })

-- The poller and its store agree: of every run that the poller remembers the store follows the
-- snapshot that the poller saw last, and it has no other run.
pub record InStep (p : Poller Memory) : Type 0 where
  pub unlimited : p.sink.max_runs ≡ none
  pub reflects : (r : String) → Reflects (get_flow p.sink r) (Dict.get r p.previous)
  pub by_run : ByRun p.previous

or_else_all :
    (new old : Option FlowSnapshot)
    → (is_some old ≡ true → is_some new ≡ true)
    → or_else new old ≡ new
unfolding or_else
or_else_all (some s) old h = refl
or_else_all none none h = refl
or_else_all none (some s) h = absurd (ground (arith, h refl))

known_flow :
    (stored : Option FlowSnapshot) (s : FlowSnapshot)
    → Reflects stored (some s)
    → (f : FlowSnapshot) × (stored ≡ some f) × Follows f (some s)
known_flow _ _ (known f t k) = (f, refl, k)

finish_quiet :
    (p : Poller Memory) (q : Pass Memory × Option String)
    → q.1 ≡ none
    → ((finish p q).1 ≡ none)
      × ((finish p q).0.sink ≡ q.0.sink)
      × ((finish p q).0.previous ≡ q.0.seen)
unfolding finish
finish_quiet p (q, none) h = (refl, refl, refl)
finish_quiet p (q, some error) h = absurd (ground arith)

-- A poll that shows each run once, with keyed atoms, without dropping a run or an atom that it
-- showed before, succeeds over the memory store, keeps the poller and the store in step, and
-- leaves the store with a flow of every run shown that follows its snapshot.
pub poll-InStep :
    (ss : List FlowSnapshot) (p : Poller Memory)
    → InStep p
    → Distinct (run_ids ss)
    → All (Fair p.previous) ss
    → ((r : String) → is_some (Dict.get r p.previous) ≡ true → mem r (run_ids ss) ≡ true)
    → let q = poll memory_sink ss p in
      (q.1 ≡ none)
      × InStep q.0
      × All
          (λ s. (f : FlowSnapshot) × (get_flow q.0.sink s.run_id ≡ some f) × Follows f (some s))
          ss
unfolding poll
poll-InStep ss p h d fair all =
    let pass = visit_all memory_sink p.previous ss (new_pass p) in
    let start : InSync p.previous (new_pass p) = record {
      unlimited = h.unlimited;
      reflects = λ r. unfold or_else Dict.get in h.reflects r;
      by_run = λ r s k. absurd (unfold Dict.get in ground (arith, k));
    } in
    let swept =
      visit_all-Swept p.previous h.by_run ss (new_pass p) d fair (λ r m. unfold Dict.get in refl)
        start in
    let fin = finish_quiet p pass swept.quiet in
    let reflects : (r : String) → Reflects (get_flow pass.0.sink r) (Dict.get r pass.0.seen) = λ r.
      subst (Reflects (get_flow pass.0.sink r))
        (or_else_all (Dict.get r pass.0.seen) (Dict.get r p.previous)
          (λ k. swept.seen r ∙ rw (all r k) (ground arith)))
        (swept.sync.reflects r) in
    (
      fin.0,
      record {
        unlimited = rw fin.1 swept.sync.unlimited;
        reflects = λ r. rw (fin.1, fin.2) (reflects r);
        by_run = rw fin.2 swept.sync.by_run;
      },
      rw fin.1 (
          All_map
            (λ s k.
              known_flow (get_flow pass.0.sink s.run_id) s
                (subst (Reflects (get_flow pass.0.sink s.run_id)) k (reflects s.run_id)))
            ss swept.shown),
    )
