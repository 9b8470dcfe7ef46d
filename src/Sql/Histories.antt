-- ===== src/Sql/Histories.antt =====
-- A batch in the two stores: what each holds of a run after it.
use taskflow_meter.Prelude.{
  ℕ, ◌≤◌, false, Option, none, List, [], ◌∷◌, ◌++◌, String, ◌≡◌, refl, ap, sym, ◌∙◌, subst, arith,
  eq_iff, All, if◌then◌else◌, Bool-cases, inl, inr, length, kept,
}
use mathlib.Core.List.{append_assoc, append-nil}
use taskflow_meter.Prelude.Select.{keep_nil, keep_yes, keep_no}
use taskflow_meter.Models.{FlowSnapshot}
use taskflow_meter.Events.{Event}
use taskflow_meter.Memory
use taskflow_meter.Memory.{Memory, Run, new_memory, run_page}
use taskflow_meter.Memory.History.{
  history, absorb, absorb-absorb, get_flow-apply, get_flow-apply_own, history-apply,
  history-apply_own, limits-apply,
}
use taskflow_meter.Sql.Keys.{DistinctKeys, same_event, own, is_of}
use taskflow_meter.Sql.Writes.{is_stored, insert_new, insert_all}
use taskflow_meter.Sql.Batches.{absorb_any}

absorb_any-cons :
    (o : Option FlowSnapshot) (x : Event) (xs : List Event)
    → absorb_any (absorb o (x ∷ [])) xs ≡ absorb_any o (x ∷ xs)
unfolding absorb_any
absorb_any-cons o x [] = refl
absorb_any-cons o x (y ∷ ys) = absorb-absorb o x (y ∷ ys)

-- the memory store over a batch of several runs
pub memory-load :
    (m : Memory) (batch : List Event) (r : String)
    → m.max_runs ≡ none
    → Memory.get_flow (Memory.apply_many m batch) r ≡ absorb_any (Memory.get_flow m r) (own r batch)
unfolding Memory.apply_many
memory-load m [] r u = rw (keep_nil (is_of r)) (unfold absorb_any in refl)
memory-load m (x ∷ xs) r u =
    let rest = memory-load (Memory.apply m x) xs r ((limits-apply m x).0 ∙ u) in
    elim (Bool-cases (is_of r x)) [
      | inl h ↦
          rest
          ∙ (ap (λ o. absorb_any o (own r xs))
                (get_flow-apply_own r m x u ((eq_iff x.run_id r).0 h))
              ∙ (absorb_any-cons (Memory.get_flow m r) x (own r xs)
                  ∙ ap (absorb_any (Memory.get_flow m r)) (sym (keep_yes (is_of r) x xs h))))
      | inr h ↦
          rest
          ∙ (ap (λ o. absorb_any o (own r xs))
                (ground (arith, get_flow-apply m x r u, eq_iff r x.run_id, eq_iff x.run_id r))
              ∙ ap (absorb_any (Memory.get_flow m r)) (sym (keep_no (is_of r) x xs h)))
    ]

pub memory-history :
    (m : Memory) (batch xs : List Event) (r : String) (limit : ℕ)
    → m.max_runs ≡ none
    → m.max_events_per_run ≡ limit
    → history r m ≡ kept limit xs
    → history r (Memory.apply_many m batch) ≡ kept limit (xs ++ own r batch)
unfolding Memory.apply_many
memory-history m [] xs r limit u l h =
    h ∙ ap (kept limit) (sym (ap (λ ys. xs ++ ys) (keep_nil (is_of r)) ∙ append-nil xs))
memory-history m (x ∷ rest) xs r limit u l h =
    let u' = (limits-apply m x).0 ∙ u in
    let l' = (limits-apply m x).1 ∙ l in
    elim (Bool-cases (is_of r x)) [
      | inl k ↦
          memory-history (Memory.apply m x) rest (xs ++ x ∷ []) r limit u' l'
            (history-apply_own r limit m x xs u l ((eq_iff x.run_id r).0 k) h)
          ∙ ap (kept limit) (
              append_assoc xs (x ∷ []) (own r rest)
              ∙ ap (λ ys. xs ++ ys) (sym (keep_yes (is_of r) x rest k)))
      | inr k ↦
          memory-history (Memory.apply m x) rest xs r limit u' l'
            (ground (arith, history-apply m x r u, eq_iff r x.run_id, eq_iff x.run_id r) ∙ h)
          ∙ ap (λ ys. kept limit (xs ++ ys)) (sym (keep_no (is_of r) x rest k))
    ]

-- events whose keys are new are all inserted
same_event_sym : (x y : Event) → same_event x y ≡ false → same_event y x ≡ false
same_event_sym x y h = ground (arith, h, eq_iff x.run_id y.run_id, eq_iff y.run_id x.run_id)

not_stored : (x : Event) (xs ys : List Event) → DistinctKeys (xs ++ x ∷ ys) → is_stored x xs ≡ false
not_stored x [] ys d = refl
not_stored x (z ∷ zs) ys d =
    let apart = same_event_sym z x (head_of zs d.0) in rw apart (not_stored x zs ys d.1)
  where
    head_of :
        (ws : List Event)
        → All (λ w. same_event z w ≡ false) (ws ++ x ∷ ys)
        → same_event z x ≡ false
    head_of [] h = h.0
    head_of (w ∷ ws) h = head_of ws h.1

pub insert_all-append : (xs ys : List Event) → DistinctKeys (xs ++ ys) → insert_all xs ys ≡ xs ++ ys
unfolding insert_all insert_new
insert_all-append xs [] d = sym (append-nil xs)
insert_all-append xs (y ∷ ys) d =
    ap (λ b. insert_all (if b then xs else xs ++ y ∷ []) ys) (not_stored y xs ys d)
    ∙ (insert_all-append (xs ++ y ∷ []) ys
          (subst DistinctKeys (sym (append_assoc xs (y ∷ []) ys)) d)
        ∙ append_assoc xs (y ∷ []) ys)

pub length-own-le : (r : String) (xs : List Event) → length (own r xs) ≤ length xs
length-own-le r [] = rw (keep_nil (is_of r)) (omega arith)
length-own-le r (x ∷ xs) = elim (Bool-cases (is_of r x)) [
  | inl h ↦ rw (keep_yes (is_of r) x xs h) (omega (arith, length-own-le r xs))
  | inr h ↦ rw (keep_no (is_of r) x xs h) (omega (arith, length-own-le r xs))
]
