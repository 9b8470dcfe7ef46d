-- ===== src/Collect/Arrivals.antt =====
-- What the producers of one engine hand on, in whatever order their threads do it.
use mathlib.Core.List.{Permᴰ, append-nil, append_assoc}
use mathlib.Core.List.Permᴰ
use taskflow_meter.Prelude.{
  ℕ, zero, suc, ◌+◌, Option, none, some, List, [], ◌∷◌, ◌++◌, String, ◌≡◌, refl, ◌≢◌, ap, sym,
  subst, ◌∙◌, ◌⊎◌, inl, inr, arith, All, All-append, Option-cases, length, length-append,
}
use taskflow_meter.Values.{look}
use taskflow_meter.Events.{Event, Allocator, peek, allocate}
use taskflow_meter.Events.Sequence.{Consecutive, Consecutive-append, allocate_next}
use taskflow_meter.Collect.{
  Notice, Watched, Producers, Step, built, tap_event, progress_event, read_progress, listener_event,
  structure_event, atom_event, pick, handed, step, steps,
}

-- `emit` of these events, one after the other
unfoldable pub emit_all : {S : Type 0} → (Event → S → S × Option String) → List Event → S → S
emit_all emit [] s = s
emit_all emit (e ∷ es) s = emit_all emit es (emit e s).0

emit_all-last :
    {S : Type 0} (emit : Event → S → S × Option String) (es : List Event) (e : Event) (s : S)
    → emit_all emit (es ++ e ∷ []) s ≡ (emit e (emit_all emit es s)).0
unfolding emit_all
emit_all-last emit [] e s = refl
emit_all-last emit (x ∷ xs) e s = emit_all-last emit xs e (emit x s).0

-- what was picked, with the others
abbrev both : List Event → Option (Event × List Event) → List Event
both xs none = xs
both xs (some (e, rest)) = e ∷ rest

pick-Perm : (n : ℕ) (xs : List Event) → Permᴰ xs (both xs (pick n xs))
unfolding pick
pick-Perm n [] = Permᴰ.nil
pick-Perm zero (x ∷ xs) = Permᴰ.refl (x ∷ xs)
pick-Perm (suc n) (x ∷ xs) = elim (Option-cases (pick n xs)) [
  | inl h ↦ rw h (Permᴰ.refl (x ∷ xs))
  | inr (r, h) ↦
      rw h (Permᴰ.trans (Permᴰ.cons refl (rw h at (pick-Perm n xs))) (Permᴰ.swap refl refl))
]

module _ (w : Watched) where
  -- `float` accepts what a task reports as its progress
  abbrev pub Readable : Step → Type 0
  Readable (Step.notify (Notice.progressed name (some payload)) ts) =
      read_progress w (look "progress" payload) ≢ none
  Readable _ = Unit

  -- what a receiver builds: nothing, or an event of the run with the next number
  abbrev Next : Allocator → Option Event × Allocator → Type 0
  Next c r =
      (r ≡ (none, c))
      ⊎ ((e : Event) × (r ≡ (some e, (allocate w.run_id c).1))
          × (e.seq ≡ peek w.run_id c + 1)
          × (e.run_id ≡ w.run_id))

  built-Next :
      (notice : Notice) (ts : ℕ) (c : Allocator)
      → Readable (Step.notify notice ts)
      → Next c (built w notice ts c)
  unfolding built structure_event listener_event atom_event tap_event progress_event allocate
  built-Next (Notice.flow_changed state d) ts c h = inr (_, refl, refl, refl)
  built-Next (Notice.task_changed state d) ts c h = inr (_, refl, refl, refl)
  built-Next (Notice.retry_changed state d) ts c h = inr (_, refl, refl, refl)
  built-Next (Notice.structure none) ts c h = inl refl
  built-Next (Notice.structure (some graph)) ts c h = inr (_, refl, refl, refl)
  built-Next (Notice.progressed name none) ts c h = inl refl
  built-Next (Notice.progressed name (some payload)) ts c h =
      elim (Option-cases (read_progress w (look "progress" payload))) [
        | inl e ↦ absurd (h e)
        | inr found ↦ rw found.1 (inr (_, refl, refl, refl))
      ]

last_first : (xs : List Event) (e : Event) → Permᴰ (e ∷ xs) (xs ++ e ∷ [])
last_first xs e =
    subst (λ ys. Permᴰ (e ∷ ys) (xs ++ e ∷ [])) (append-nil xs) (Permᴰ.symm (Permᴰ.middle e xs []))

-- `whole` holds the events that are in flight and those that have arrived, and no others.
module _ (w : Watched) {S : Type 0} (emit : Event → S → S × Option String) (start : S) where
  pub record Arrives (p : Producers S) : Type 0 where
    pub whole : List Event
    pub arrived : List Event
    pub chain : Consecutive 1 whole
    pub reached : peek w.run_id p.allocator ≡ length whole
    pub own : All (λ e. e.run_id ≡ w.run_id) whole
    pub same : Permᴰ (p.in_flight ++ arrived) whole
    pub emitted : p.sink ≡ emit_all emit arrived start

  add-Arrives :
      (p : Producers S) (e : Event)
      → e.seq ≡ peek w.run_id p.allocator + 1
      → e.run_id ≡ w.run_id
      → Arrives p
      → Arrives (record p {
        allocator = (allocate w.run_id p.allocator).1;
        in_flight = p.in_flight ++ e ∷ [];
      })
  add-Arrives p e number run h = record {
    whole = h.whole ++ e ∷ [];
    arrived = h.arrived;
    chain = Consecutive-append 1 h.whole (e ∷ []) h.chain (omega (arith, number, h.reached), tt);
    reached =
        omega (
          arith,
          (allocate_next w.run_id p.allocator).1,
          h.reached,
          length-append h.whole (e ∷ []),
        );
    own = All-append (λ x. x.run_id ≡ w.run_id) h.whole (e ∷ []) h.own (run, tt);
    same = rw append_assoc (
        Permᴰ.trans (Permᴰ.middle e p.in_flight h.arrived)
          (Permᴰ.trans (Permᴰ.cons refl h.same) (last_first h.whole e)));
    emitted = h.emitted;
  }

  handed-Arrives :
      (p : Producers S) (n : ℕ) → Arrives p → Arrives (handed w emit (pick n p.in_flight) p)
  unfolding handed
  handed-Arrives p n h = elim (Option-cases (pick n p.in_flight)) [
    | inl e ↦ rw e h
    | inr ((x, rest), e) ↦
        let moved : Permᴰ p.in_flight (x ∷ rest) = rw e at (pick-Perm n p.in_flight) in
        rw e (record {
          whole = h.whole;
          arrived = h.arrived ++ x ∷ [];
          chain = h.chain;
          reached = h.reached;
          own = h.own;
          same =
              Permᴰ.trans (rw (← append_assoc) (Permᴰ.symm (last_first (rest ++ h.arrived) x)))
                (Permᴰ.trans (Permᴰ.symm (Permᴰ.append_right h.arrived moved)) h.same);
          emitted = ap (λ s. (emit x s).0) h.emitted ∙ sym (emit_all-last emit h.arrived x start);
        })
  ]

  step-Arrives : (x : Step) (p : Producers S) → Readable w x → Arrives p → Arrives (step w emit x p)
  unfolding step
  step-Arrives (Step.hand_over n) p k h = handed-Arrives p n h
  step-Arrives (Step.notify notice ts) p k h = elim (built-Next w notice ts p.allocator k) [
    | inl e ↦ rw e h
    | inr (made, e, number, run) ↦ rw e (add-Arrives p made number run h)
  ]

  pub steps-Arrives :
      (xs : List Step) (p : Producers S)
      → All (Readable w) xs
      → Arrives p
      → Arrives (steps w emit xs p)
  unfolding steps
  steps-Arrives [] p k h = h
  steps-Arrives (x ∷ xs) p k h = steps-Arrives xs (step w emit x p) k.1 (step-Arrives x p k.0 h)
