-- ===== src/Sql/Replay.antt =====
-- A batch that is delivered to the SQL store again, as by a collector that reconnects.
use taskflow_meter.Prelude.{
  ℕ, ◌≤◌, true, some, List, [], ◌∷◌, String, ◌≡◌, refl, ap, sym, ◌∙◌, eq_iff, All, Bool-cases, inl,
  inr,
}
use taskflow_meter.Prelude.Select.{keep_nil, keep_yes, keep_no}
use taskflow_meter.Models.{FlowSnapshot}
use taskflow_meter.Events.{Event, EventKind}
use taskflow_meter.Fold.{fold, fold_kind, fold_all}
use taskflow_meter.DataSource.{ok}
use taskflow_meter.Memory.{run_page}
use taskflow_meter.Memory.History.{absorb}
use taskflow_meter.Sql.Statements.{Engine, Laws}
use taskflow_meter.Sql.{get_flow, load_flow, apply, apply_many, events_since}
use taskflow_meter.Sql.Reads.{events_since-run_page}
use taskflow_meter.Sql.Keys.{Holds, own, is_of}
use taskflow_meter.Sql.Writes.{is_stored, insert_new, insert_all}
use taskflow_meter.Sql.Batches.{absorb_any, own-is_stored}
use taskflow_meter.Sql.Applied.{after, apply_many-Holds, apply_many-load, apply_many-own}

abbrev pub AllStored : List Event → List Event → Type 0
AllStored es = All (λ x. is_stored x es ≡ true)

insert_all-stored : (es xs : List Event) → AllStored es xs → insert_all es xs ≡ es
unfolding insert_all insert_new
insert_all-stored es [] h = refl
insert_all-stored es (x ∷ xs) h = rw h.0 (insert_all-stored es xs h.1)

own-AllStored :
    (r : String) (es xs : List Event) → AllStored es xs → AllStored (own r es) (own r xs)
own-AllStored r es [] h = rw (keep_nil (is_of r)) tt
own-AllStored r es (x ∷ xs) h = elim (Bool-cases (is_of r x)) [
  | inl k ↦ rw (keep_yes (is_of r) x xs k) (own-is_stored r es x k ∙ h.0, own-AllStored r es xs h.1)
  | inr k ↦ rw (keep_no (is_of r) x xs k) (own-AllStored r es xs h.1)
]

fold_state :
    (f : FlowSnapshot) (x : Event) → x.kind ≡ EventKind.flow_state → (fold f x).state ≡ x.state
unfolding fold fold_kind
fold_state f x h = rw h refl

module _ (e : Engine) (laws : Laws e) (db : e.DB) (es : List Event) (holds : Holds e db es) where
  -- A batch of events that are all stored already leaves every page of events as it was, of every
  -- run and at every number, at a limit of at least 1.
  pub apply_many-replayed :
      (batch : List Event) (r : String) (since limit : ℕ)
      → AllStored es batch
      → 1 ≤ limit
      → events_since e (apply_many e batch db) r since limit ≡ events_since e db r since limit
  apply_many-replayed batch r since limit h some_limit =
      events_since-run_page e laws (apply_many e batch db) (after es batch)
        (apply_many-Holds e laws batch db es holds) r since limit some_limit
      ∙ (ap (λ xs. ok (run_page xs since limit))
            (apply_many-own e laws batch db es holds r
              ∙ insert_all-stored (own r es) (own r batch) (own-AllStored r es batch h))
          ∙ sym (events_since-run_page e laws db es holds r since limit some_limit))

  -- An event of a flow's state that is delivered again sets the flow, whatever it has become
  -- since, back to the state of the event: it is folded again although its number is stored
  -- already and every page of the run's events stays as it was.
  pub apply-sets_back :
      (x : Event) (f : FlowSnapshot) (since limit : ℕ)
      → x.kind ≡ EventKind.flow_state
      → is_stored x es ≡ true
      → get_flow e x.run_id db ≡ some f
      → 1 ≤ limit
      → (g : FlowSnapshot) × (get_flow e x.run_id (apply e x db) ≡ some g)
        × (g.state ≡ x.state)
        × (events_since e (apply e x db) x.run_id since limit
            ≡ events_since e db x.run_id since limit)
  unfolding get_flow apply
  apply-sets_back x f since limit kind h known some_limit =
      let own_batch : own x.run_id (x ∷ []) ≡ x ∷ [] =
        keep_yes (is_of x.run_id) x [] ((eq_iff x.run_id x.run_id).1 refl)
        ∙ ap (◌∷◌ x) (keep_nil (is_of x.run_id)) in
      (
        fold f x,
        apply_many-load e laws (x ∷ []) db es holds x.run_id
            ∙ (ap (absorb_any (load_flow e x.run_id db)) own_batch
                ∙ (ap (λ o. absorb_any o (x ∷ [])) known
                    ∙ (unfold absorb_any absorb fold_all in refl))),
        fold_state f x kind,
        apply_many-replayed (x ∷ []) x.run_id since limit (h, tt) some_limit,
      )
