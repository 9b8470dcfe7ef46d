-- ===== src/Collect/TornDown.antt =====
-- What `attach` leaves behind.
use taskflow_meter.Prelude.{
  true, false, not, Option, none, some, List, [], ◌∷◌, ◌++◌, String, ◌≡◌, refl, ap, ◌∙◌, inl, inr,
  arith, Option-cases, if◌then◌else◌,
}
use taskflow_meter.Collect.Tap.{
  Atom, Callback, Notifiers, Laws, Tap, new_tap, after_register, register_all, register,
  deregister_all, deregister,
}
use taskflow_meter.Collect.Attachment.{leave_tap, with_tap, with_listener, attach}

module _ (n : Notifiers) (laws : Laws n) where
  deregister_all-last :
      (xs : List (Atom × Callback)) (a : Atom) (k : Callback) (s : n.Registry)
      → deregister_all n (xs ++ (a, k) ∷ []) s ≡ deregister_all n xs (n.deregister a k s).0
  unfolding deregister_all
  deregister_all-last [] a k s = refl
  deregister_all-last ((b, j) ∷ xs) a k s =
      ap (λ q. (n.deregister b j q).0) (deregister_all-last xs a k s)

  -- one registration, before a rest of the loop whose undoing is known
  undo-after_register :
      (a : Atom) (rest : Tap → n.Registry → Tap × n.Registry × Option String)
      → ((t : Tap) (s : n.Registry)
          → deregister_all n (rest t s).0.bound (rest t s).1 ≡ deregister_all n t.bound s)
      → (t : Tap) (s : n.Registry)
      → let r = after_register n a t rest (n.register a t.made s) in
        deregister_all n r.0.bound r.1 ≡ deregister_all n t.bound s
  unfolding after_register
  undo-after_register a rest ih t s = elim (Option-cases (n.register a t.made s).1) [
    | inl e ↦ rw e (
        ih _ _
        ∙ (deregister_all-last t.bound a t.made (n.register a t.made s).0
            ∙ ap (λ q. deregister_all n t.bound q.0) (laws.undone a t.made s e)))
    | inr (error, e) ↦ rw e (ap (deregister_all n t.bound) (laws.refused a t.made s error e))
  ]

  -- undoing what stands in the tap gives the notifiers that undoing it gave before the loop
  undo-register_all :
      (atoms : List Atom) (t : Tap) (s : n.Registry)
      → let r = register_all n atoms t s in
        deregister_all n r.0.bound r.1 ≡ deregister_all n t.bound s
  unfolding register_all
  undo-register_all [] t s = refl
  undo-register_all (a ∷ atoms) t s =
      let skipped = register_all n atoms t s in
      let taken = after_register n a t (register_all n atoms) (n.register a t.made s) in
      let undone : (Tap × n.Registry × Option String) → Type 0 =
        λ r. deregister_all n r.0.bound r.1 ≡ deregister_all n t.bound s in
      let h = undo-register_all atoms t s in
      elim a.is_task
        as (λ b. undone (if not b then skipped else if not (n.accepts a) then skipped else taken)) [
          | false ↦ h
          | true ↦ elim (n.accepts a) as (λ b. undone (if not b then skipped else taken)) [
            | false ↦ h
            | true ↦ undo-after_register a (register_all n atoms) (undo-register_all atoms) t s
          ]
        ]

  undo-register :
      (atoms : List Atom) (s : n.Registry)
      → let r = register n atoms new_tap s in deregister_all n r.0.bound r.1 ≡ s
  unfolding register deregister_all
  undo-register atoms s = undo-register_all atoms new_tap s

  -- However `attach` ends, the pipeline and the listener are off, and the callbacks that the tap
  -- still holds are just those that are still bound; none is, where the listener cannot be
  -- registered or every task takes its callback, whatever the block raises; but where a task's
  -- notifier raises, the callbacks bound before stay bound. It raises what came first. This is
  -- where a registration that raises binds nothing, and a deregistration undoes the registration
  -- before it.
  pub attach-torn_down :
      (atoms : List Atom) (listener_raises block : Option String) (s : n.Registry)
      → let r = register n atoms new_tap s in
        let (w, raised) = attach n atoms listener_raises block s in
        (w.pipeline_on ≡ false)
        × (w.listener_on ≡ false)
        × (deregister_all n w.tap.bound w.notifiers ≡ s)
        × ((error : String)
            → listener_raises ≡ some error
            → (raised ≡ some error) × (w.notifiers ≡ s) × (w.tap.bound ≡ []))
        × (listener_raises ≡ none
            → r.2 ≡ none
            → (raised ≡ block) × (w.notifiers ≡ s) × (w.tap.bound ≡ []))
        × ((error : String)
            → listener_raises ≡ none
            → r.2 ≡ some error
            → (raised ≡ some error) × (w.notifiers ≡ r.1) × (w.tap.bound ≡ r.0.bound))
  unfolding attach with_listener with_tap leave_tap deregister deregister_all
  attach-torn_down atoms (some error) block s = (
    refl,
    refl,
    refl,
    λ error' q. (q, refl, refl),
    λ q. absurd (ground arith),
    λ error' q. absurd (ground arith),
  )
  attach-torn_down atoms none block s = elim (Option-cases (register n atoms new_tap s).2) [
    | inl e ↦ rw e (
      refl,
      refl,
      undo-register atoms s,
      λ error q. absurd (ground arith),
      λ q k. (refl, undo-register atoms s, refl),
      λ error q k. absurd (ground arith),
    )
    | inr (error, e) ↦ rw e (
      refl,
      refl,
      undo-register atoms s,
      λ error' q. absurd (ground arith),
      λ q k. absurd (ground arith),
      λ error' q k. (k, refl, refl),
    )
  ]
