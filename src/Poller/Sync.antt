-- ===== src/Poller/Sync.antt =====
-- The poller over the memory store: after a pass that shows a run, the store follows what was shown.
use taskflow_meter.Prelude.{
  ℕ, Option, none, some, List, [], ◌∷◌, String, ◌≡◌, ◌≢◌, refl, ap, sym, ◌∙◌, subst, Bool-cases,
  Option-cases, inl, inr, arith, All, All_map, str_eq, eq_iff, false,
}
use taskflow_meter.Prelude.Dict
use taskflow_meter.Prelude.Dict.{Dict, Distinct, mem, get-set}
use taskflow_meter.Models.{FlowSnapshot}
use taskflow_meter.Events.{Event, Allocator}
use taskflow_meter.Fold.{fold_all}
use taskflow_meter.Diff.{diff_flow, crosses_runs}
use taskflow_meter.Diff.Stamp.{diff_flow-Numbered}
use taskflow_meter.Diff.Roundtrip.{IsKeyed}
use taskflow_meter.Diff.Replay.{Follows, NoneVanished, diff_flow-Follows}
use taskflow_meter.Diff.First.{learn, diff_flow-Learnt}
use taskflow_meter.Memory.{Memory, apply_many, get_flow}
use taskflow_meter.Memory.History.{absorb, get_flow-apply_many, apply_many-other, limits-apply_many}
use taskflow_meter.Poller.{Pass, visit}
use taskflow_meter.Poller.Passes.{memory_sink, refused, written, visit-Visited}

-- what the store has of a run, beside the snapshot of it that was reported last
pub data Reflects : Option FlowSnapshot → Option FlowSnapshot → Type 0 where
  unknown : Reflects none none
  known : (f s : FlowSnapshot) → Follows f (some s) → Reflects (some f) (some s)

get_flow-batch :
    (r : String) (m : Memory) (es : List Event)
    → m.max_runs ≡ none
    → All (λ e. e.run_id ≡ r) es
    → get_flow (apply_many m es) r ≡ absorb (get_flow m r) es
unfolding apply_many absorb learn fold_all
get_flow-batch r m [] u h = elim (Option-cases (get_flow m r)) [ inl e ↦ rw e | inr (f, e) ↦ rw e ]
get_flow-batch r m (e ∷ es) u h = get_flow-apply_many r m e es u h

-- what the difference does to a store that reflects the old snapshot
absorb-Reflects :
    (stored old : Option FlowSnapshot) (new : FlowSnapshot) (ts : Option ℕ) (c : Allocator)
    (b : List Event × Allocator)
    → IsKeyed new
    → NoneVanished old new
    → diff_flow old new ts c ≡ some b
    → Reflects stored old
    → Reflects (absorb stored b.0) (some new)
unfolding absorb
absorb-Reflects _ _ new ts c b keyed stays d unknown =
    let l = diff_flow-Learnt new ts c keyed d in rw l.learnt (Reflects.known l.flow new l.follows)
absorb-Reflects _ _ new ts c b keyed stays d (known f old h) =
    Reflects.known (fold_all f b.0) new (diff_flow-Follows (some old) new keyed stays f ts c d h)

same_run :
    (old : Option FlowSnapshot) (new : FlowSnapshot) (ts : Option ℕ) (c : Allocator)
    → ((s : FlowSnapshot) → old ≡ some s → s.run_id ≡ new.run_id)
    → diff_flow old new ts c ≢ none
unfolding diff_flow crosses_runs
same_run none new ts c h = λ q. ground arith
same_run (some s) new ts c h = λ q. ground (arith, h s refl)

-- the snapshot of the run that the pass goes by
unfoldable pub or_else : Option FlowSnapshot → Option FlowSnapshot → Option FlowSnapshot
or_else (some s) old = some s
or_else none old = old

abbrev pub latest : Dict FlowSnapshot → Dict FlowSnapshot → String → Option FlowSnapshot
latest previous seen r = or_else (Dict.get r seen) (Dict.get r previous)

-- the key of a snapshot is its run
abbrev pub ByRun : Dict FlowSnapshot → Type 0
ByRun d = (r : String) (s : FlowSnapshot) → Dict.get r d ≡ some s → s.run_id ≡ r

pub record InSync (previous : Dict FlowSnapshot) (p : Pass Memory) : Type 0 where
  pub unlimited : p.sink.max_runs ≡ none
  pub reflects : (r : String) → Reflects (get_flow p.sink r) (latest previous p.seen r)
  pub by_run : ByRun p.seen

-- what the poller takes for granted of a snapshot, beside the one before
pub record Fair (previous : Dict FlowSnapshot) (s : FlowSnapshot) : Type 0 where
  pub keyed : IsKeyed s
  pub stays : NoneVanished (Dict.get s.run_id previous) s

latest_fresh :
    (previous seen : Dict FlowSnapshot) (r : String)
    → Dict.get r seen ≡ none
    → latest previous seen r ≡ Dict.get r previous
unfolding or_else
latest_fresh previous seen r h = ap (λ o. or_else o (Dict.get r previous)) h

pub get-set_self :
    (s : FlowSnapshot) (seen : Dict FlowSnapshot)
    → Dict.get s.run_id (Dict.set s.run_id s seen) ≡ some s
get-set_self s seen = ground (arith, get-set s.run_id s.run_id s seen, eq_iff s.run_id s.run_id)

latest_own :
    (previous seen : Dict FlowSnapshot) (s : FlowSnapshot)
    → latest previous (Dict.set s.run_id s seen) s.run_id ≡ some s
unfolding or_else
latest_own previous seen s = ap (λ o. or_else o (Dict.get s.run_id previous)) (get-set_self s seen)

latest_other :
    (previous seen : Dict FlowSnapshot) (s : FlowSnapshot) (r : String)
    → str_eq r s.run_id ≡ false
    → latest previous (Dict.set s.run_id s seen) r ≡ latest previous seen r
latest_other previous seen s r e =
    ap (λ o. or_else o (Dict.get r previous)) (get-set r s.run_id s seen ∙ rw e)

module _ (previous : Dict FlowSnapshot) (by_run : ByRun previous) where
  written-Reflects :
      (s : FlowSnapshot) (p : Pass Memory) (b : List Event × Allocator) (r : String)
      → Fair previous s
      → Dict.get s.run_id p.seen ≡ none
      → InSync previous p
      → diff_flow (Dict.get s.run_id previous) s (some s.observed_at) p.allocator ≡ some b
      → Reflects
          (get_flow (apply_many p.sink b.0) r)
          (latest previous (Dict.set s.run_id s p.seen) r)
  written-Reflects s p b r fair fresh h d =
      let n =
        diff_flow-Numbered (Dict.get s.run_id previous) s (some s.observed_at) p.allocator d in
      elim (Bool-cases (str_eq r s.run_id)) [
        | inl e ↦
            subst
              (λ j.
                Reflects (get_flow (apply_many p.sink b.0) j)
                  (latest previous (Dict.set s.run_id s p.seen) j))
              (sym ((eq_iff r s.run_id).0 e))
              (rw
                (
                  get_flow-batch s.run_id p.sink b.0 h.unlimited n.of_run,
                  latest_own previous p.seen s,
                )
                (absorb-Reflects (get_flow p.sink s.run_id) (Dict.get s.run_id previous) s
                  (some s.observed_at) p.allocator b fair.keyed fair.stays d
                  (subst (Reflects (get_flow p.sink s.run_id))
                    (latest_fresh previous p.seen s.run_id fresh) (h.reflects s.run_id))))
        | inr e ↦
            rw
              (
                (apply_many-other r p.sink b.0 h.unlimited
                    (All_map (λ x k q. absurd (ground (arith, eq_iff r s.run_id))) b.0 n.of_run)).1,
                latest_other previous p.seen s r e,
              )
              (h.reflects r)
      ]

  -- one visit of a run that this pass has not met before
  pub record Synced (s : FlowSnapshot) (p : Pass Memory) (q : Pass Memory × Option String)
      : Type 0 where
    pub quiet : q.1 ≡ none
    pub sync : InSync previous q.0
    pub seen : q.0.seen ≡ Dict.set s.run_id s p.seen

  set-ByRun : (s : FlowSnapshot) (d : Dict FlowSnapshot) → ByRun d → ByRun (Dict.set s.run_id s d)
  set-ByRun s d h = λ r x k. ground (arith, get-set r s.run_id s d, eq_iff r s.run_id, h r x)

  pub visit-Synced :
      (s : FlowSnapshot) (p : Pass Memory)
      → Fair previous s
      → Dict.get s.run_id p.seen ≡ none
      → InSync previous p
      → Synced s p (visit memory_sink previous s p)
  visit-Synced s p fair fresh h = elim (visit-Visited previous s p) [
    | refused d sink allocator ↦ absurd (
        same_run (Dict.get s.run_id previous) s (some s.observed_at) p.allocator
          (λ x k. by_run s.run_id x k) d)
    | written b d quiet sink allocator seen ↦ record {
      quiet = quiet;
      sync = record {
        unlimited = rw sink ((limits-apply_many p.sink b.0).0 ∙ h.unlimited);
        reflects = λ r. rw (sink, seen) (written-Reflects s p b r fair fresh h d);
        by_run = rw seen (set-ByRun s p.seen h.by_run);
      };
      seen = seen;
    }
  ]
