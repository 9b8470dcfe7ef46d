-- ===== src/Memory/Invariant.antt =====
-- What holds of the memory store after every call.
use taskflow_meter.Prelude.{
  ℕ, suc, ◌≤◌, true, false, Option, none, some, List, [], ◌∷◌, ◌++◌, String, ◌≡◌, refl, ap, sym,
  ◌∙◌, subst, arith, str_eq, eq_iff, All, All_map, length, length-kept-le, is_some, leb, ltb,
  if◌then◌else◌, Bool-cases, inl, inr,
}
use taskflow_meter.Prelude.Dict
use taskflow_meter.Prelude.Dict.{
  AllValues-set, Dict, AllValues, Distinct, mem, mem-keys, Distinct-set, Distinct-remove,
  length-set, length-remove, get-set,
}
use taskflow_meter.Models.{FlowSnapshot}
use taskflow_meter.Events.{Event}
use taskflow_meter.Fold.{fold, fold_all}
use taskflow_meter.Fold.Identity.{SameRun-fold_all}
use taskflow_meter.Memory.{
  Run, Memory, record_event, first_seq, earliest, evict, evict_if_needed, written,
}
use taskflow_meter.Memory.History.{push-kept}

-- one run: it is under its own id, its history is within the limit, and the number that is kept of its
-- oldest event is that event's
pub record Sound (limit : ℕ) (k : String) (run : Run) : Type 0 where
  pub own_key : run.flow.run_id ≡ k
  pub bounded : length run.events ≤ limit
  pub oldest : run.oldest_seq ≡ first_seq run.events

-- no more runs than the limit
abbrev pub Fits : Option ℕ → ℕ → Type 0
Fits none n = Unit
Fits (some limit) n = n ≤ limit

pub record Good (limit : ℕ) (max_runs : Option ℕ) (runs : Dict Run) : Type 0 where
  pub distinct : Distinct (Dict.keys runs)
  pub sound : AllValues (Sound limit) runs
  pub fits : Fits max_runs (length runs)

-- Each run is stored once, under its own id, with a history within the limit whose oldest number is
-- known; and there are no more runs than the store may hold.
abbrev pub WellFormed : Memory → Type 0
WellFormed m = Good m.max_events_per_run m.max_runs m.runs

module _ (P : String → Run → Type 0) where
  pub All-remove : (k : String) (d : Dict Run) → AllValues P d → AllValues P (Dict.remove k d)
  unfolding Dict.remove
  All-remove k [] h = tt
  All-remove k ((j, w) ∷ d) h = elim (Bool-cases (str_eq k j)) [
    | inl e ↦ rw e h.1
    | inr e ↦ rw e (h.0, All-remove k d h.1)
  ]

  pub All-get :
      (k : String) (d : Dict Run) (run : Run) → AllValues P d → Dict.get k d ≡ some run → P k run
  unfolding Dict.get
  All-get k [] run h g = absurd (ground arith)
  All-get k ((j, w) ∷ d) run h g = elim (Bool-cases (str_eq k j)) [
    | inl e ↦
        let same : some w ≡ some run = rw e at g in
        subst (λ i. P i run) (sym ((eq_iff k j).0 e)) (subst (P j) (ground (arith, same)) h.0)
    | inr e ↦ All-get k d run h.1 (rw e at g)
  ]

-- the run that goes is one that was observed earliest
pub All-earliest : (P : Run → Type 0) (r : Run) (rs : List Run) → P r → All P rs → P (earliest r rs)
unfolding earliest
All-earliest P r [] p h = p
All-earliest P r (x ∷ rs) p h = elim (Bool-cases (ltb x.flow.observed_at r.flow.observed_at)) [
  | inl e ↦ rw e (All-earliest P x rs h.0 h.1)
  | inr e ↦ rw e (All-earliest P r rs p h.1)
]

earliest_new :
    (r x : Run) (rs : List Run)
    → ltb x.flow.observed_at r.flow.observed_at ≡ true
    → earliest r (x ∷ rs) ≡ earliest x rs
unfolding earliest
earliest_new r x rs e = rw e refl

earliest_same :
    (r x : Run) (rs : List Run)
    → ltb x.flow.observed_at r.flow.observed_at ≡ false
    → earliest r (x ∷ rs) ≡ earliest r rs
unfolding earliest
earliest_same r x rs e = rw e refl

-- The run that is picked to go is one that was observed no later than any other.
pub earliest-le :
    (r : Run) (rs : List Run)
    → All (λ x. (earliest r rs).flow.observed_at ≤ x.flow.observed_at) (r ∷ rs)
earliest-le r [] = unfold earliest in (omega arith, tt)
earliest-le r (x ∷ rs) =
    let P : Run → Type 0 = λ w. All (λ y. w.flow.observed_at ≤ y.flow.observed_at) (r ∷ x ∷ rs) in
    let new = earliest-le x rs in
    let same = earliest-le r rs in
    elim (Bool-cases (ltb x.flow.observed_at r.flow.observed_at)) [
      | inl e ↦ subst P (sym (earliest_new r x rs e)) (ground (arith, new.0), new)
      | inr e ↦ subst P (sym (earliest_same r x rs e)) (same.0, (ground (arith, same.0), same.1))
    ]

-- every run that is stored is found under its own id
stored_under :
    (limit : ℕ) (d : Dict Run)
    → AllValues (Sound limit) d
    → All (λ (r : Run). mem r.flow.run_id (Dict.keys d) ≡ true) (Dict.values d)
stored_under limit [] h = tt
stored_under limit ((k, run) ∷ d) h = (
  ground (arith, h.0.own_key, eq_iff run.flow.run_id k),
  All_map (λ r m. ground (arith, m)) (Dict.values d) (stored_under limit d h.1),
)

module _ (limit : ℕ) where
  evict-Good :
      (n : ℕ) (d : Dict Run)
      → Distinct (Dict.keys d)
      → AllValues (Sound limit) d
      → length d ≤ suc n
      → Good limit (some n) (evict (Dict.values d) d)
  unfolding evict
  evict-Good n [] dist sound size = record { distinct = tt; sound = tt; fits = omega arith }
  evict-Good n ((k, run) ∷ d) dist sound size =
      let all = (k, run) ∷ d in
      let victim = earliest run (Dict.values d) in
      let under = stored_under limit all sound in
      let there : is_some (Dict.get victim.flow.run_id all) ≡ true =
        sym (mem-keys victim.flow.run_id all)
        ∙ All-earliest (λ r. mem r.flow.run_id (Dict.keys all) ≡ true) run (Dict.values d) under.0
            under.1 in
      let one_less : suc (length (Dict.remove victim.flow.run_id all)) ≡ length all =
        ap
          (λ b.
            if b
            then suc (length (Dict.remove victim.flow.run_id all))
            else length (Dict.remove victim.flow.run_id all))
          (sym there)
        ∙ length-remove victim.flow.run_id all in
      record {
        distinct = Distinct-remove victim.flow.run_id all dist;
        sound = All-remove (Sound limit) victim.flow.run_id all sound;
        fits = omega (arith, one_less, size);
      }

  pub evict_if_needed-Good :
      (max_runs : Option ℕ) (d : Dict Run)
      → Distinct (Dict.keys d)
      → AllValues (Sound limit) d
      → ((n : ℕ) → max_runs ≡ some n → length d ≤ suc n)
      → Good limit max_runs (evict_if_needed max_runs d)
  unfolding evict_if_needed
  evict_if_needed-Good none d dist sound size = record { distinct = dist; sound = sound; fits = tt }
  evict_if_needed-Good (some n) d dist sound size = elim (Bool-cases (leb (length d) n)) [
    | inl e ↦ rw e (record { distinct = dist; sound = sound; fits = ground arith })
    | inr e ↦ rw e (evict-Good n d dist sound (size n refl))
  ]

  -- a write to a run that is there
  pub set-Good :
      (max_runs : Option ℕ) (k : String) (run : Run) (d : Dict Run)
      → is_some (Dict.get k d) ≡ true
      → Sound limit k run
      → Good limit max_runs d
      → Good limit max_runs (Dict.set k run d)
  set-Good max_runs k run d there s h = record {
    distinct = Distinct-set k run d h.distinct;
    sound = AllValues-set (Sound limit) k run d s h.sound;
    fits =
        let same : length (Dict.set k run d) ≡ length d = length-set k run d ∙ rw there refl in
        subst (Fits max_runs) (sym same) h.fits;
  }

fold-run_id : (f : FlowSnapshot) (e : Event) → (fold f e).run_id ≡ f.run_id
unfolding fold_all
fold-run_id f e = (SameRun-fold_all f (e ∷ [])).run_id

pub written-Sound :
    (m : Memory) (k : String) (run : Run) (e : Event)
    → run.flow.run_id ≡ k
    → Sound m.max_events_per_run k (written m run e)
unfolding written record_event
written-Sound m k run e h = record {
  own_key = fold-run_id run.flow e ∙ h;
  bounded =
      subst (λ es. length es ≤ m.max_events_per_run)
        (sym (push-kept m.max_events_per_run run.events e))
        (length-kept-le m.max_events_per_run (run.events ++ e ∷ []));
  oldest = refl;
}
