-- ===== src/Fold/Identity.antt =====
-- What no event changes: the identity that a run was seeded with.
use taskflow_meter.Prelude.{List, [], ◌∷◌, ◌≡◌, refl, ◌∙◌, arith, max, ◌≤◌}
use taskflow_meter.Events.{Event}
use taskflow_meter.Models.{FlowSnapshot}
use taskflow_meter.Fold.{fold, fold_kind, fold_named, fold_all}

pub record SameRun (f g : FlowSnapshot) : Type 0 where
  pub run_id : f.run_id ≡ g.run_id
  pub book_id : f.book_id ≡ g.book_id
  pub book_name : f.book_name ≡ g.book_name

SameRun-fold : (f : FlowSnapshot) (e : Event) → SameRun (fold f e) f
unfolding fold fold_kind fold_named
SameRun-fold f e = record {
  run_id = ground arith;
  book_id = ground arith;
  book_name = ground arith;
}

-- A run keeps its id and its book through every event.
pub SameRun-fold_all : (f : FlowSnapshot) (es : List Event) → SameRun (fold_all f es) f
unfolding fold_all
SameRun-fold_all f [] = record { run_id = refl; book_id = refl; book_name = refl }
SameRun-fold_all f (e ∷ es) =
    let h = SameRun-fold_all (fold f e) es in
    let k = SameRun-fold f e in
    record {
      run_id = h.run_id ∙ k.run_id;
      book_id = h.book_id ∙ k.book_id;
      book_name = h.book_name ∙ k.book_name;
    }

observed-fold : (f : FlowSnapshot) (e : Event) → (fold f e).observed_at ≡ max f.observed_at e.ts
unfolding fold fold_kind fold_named
observed-fold f e = ground arith

-- The time of observation never goes back, however late an event arrives.
pub observed-le-fold_all :
    (f : FlowSnapshot) (es : List Event) → f.observed_at ≤ (fold_all f es).observed_at
unfolding fold_all
observed-le-fold_all f [] = ground arith
observed-le-fold_all f (e ∷ es) =
    ground (arith, observed-le-fold_all (fold f e) es, observed-fold f e)
