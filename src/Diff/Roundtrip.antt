-- ===== src/Diff/Roundtrip.antt =====
-- Folding the events of a difference over a store that knew the old snapshot gives the new one.
use taskflow_meter.Prelude.{
  String, List, [], ◌∷◌, ◌≡◌, refl, none, some, inl, inr, sym, ◌∙◌, arith, str_eq, eq_iff, true,
  false, if◌then◌else◌, Bool-cases, Option-cases, subst, le_str,
}
use taskflow_meter.Prelude.Dict
use taskflow_meter.Prelude.Dict.{Dict, mem, Distinct, mem-keys}
use taskflow_meter.Prelude.Sort.{mem-sorted, sorted-Distinct}
use taskflow_meter.Models.{AtomSnapshot, FlowSnapshot, atom_names}
use taskflow_meter.Fold.{fold_all}
use taskflow_meter.Fold.Replay.{fold_all-append}
use taskflow_meter.Diff.{events_of_atom, events_for}
use taskflow_meter.Diff.Atoms.{
  fold_atoms, get-fold_all, All_for-events_of_atom, Agrees, Tracks, events_of_atom-Agrees,
}

-- how every source builds `atoms`: the key of an atom is its name, and no key is there twice
pub record IsKeyed (new : FlowSnapshot) : Type 0 where
  pub named : (n : String) (c : AtomSnapshot) → Dict.get n new.atoms ≡ some c → c.name ≡ n
  pub distinct : Distinct (Dict.keys new.atoms)

module _ (previous : Dict AtomSnapshot) (new : FlowSnapshot) (keyed : IsKeyed new) where
  -- the events of one name, folded
  get-one :
      (j n : String) (c : AtomSnapshot) (f : FlowSnapshot)
      → Dict.get n new.atoms ≡ some c
      → Dict.get j (fold_all f (events_of_atom new (Dict.get n previous) c)).atoms ≡ (
          if str_eq j n
          then fold_atoms c.name (Dict.get n f.atoms) (events_of_atom new (Dict.get n previous) c)
          else Dict.get j f.atoms)
  get-one j n c f e =
      subst
        (λ m. Dict.get j (fold_all f (events_of_atom new (Dict.get n previous) c)).atoms ≡ (
          if str_eq j m
          then fold_atoms c.name (Dict.get m f.atoms) (events_of_atom new (Dict.get n previous) c)
          else Dict.get j f.atoms))
        (keyed.named n c e)
        (get-fold_all c.name j f (events_of_atom new (Dict.get n previous) c)
          (All_for-events_of_atom new (Dict.get n previous) c))

  events_for_step :
      (n : String) (ns : List String) (c : AtomSnapshot) (f : FlowSnapshot)
      → Dict.get n new.atoms ≡ some c
      → fold_all f (events_for previous new (n ∷ ns))
        ≡ fold_all
            (fold_all f (events_of_atom new (Dict.get n previous) c))
            (events_for previous new ns)
  unfolding events_for
  events_for_step n ns c f e =
      rw e (
        fold_all-append f (events_of_atom new (Dict.get n previous) c) (events_for previous new ns))

  events_for_skip :
      (n : String) (ns : List String)
      → Dict.get n new.atoms ≡ none
      → events_for previous new (n ∷ ns) ≡ events_for previous new ns
  unfolding events_for
  events_for_skip n ns e = rw e

  get-one_other :
      (j n : String) (c : AtomSnapshot) (f : FlowSnapshot)
      → Dict.get n new.atoms ≡ some c
      → str_eq j n ≡ false
      → Dict.get j (fold_all f (events_of_atom new (Dict.get n previous) c)).atoms
        ≡ Dict.get j f.atoms
  get-one_other j n c f e h = rw h at (get-one j n c f e)

  -- a name that is not visited keeps its atom
  get-events_for_other :
      (j : String) (names : List String) (f : FlowSnapshot)
      → mem j names ≡ false
      → Dict.get j (fold_all f (events_for previous new names)).atoms ≡ Dict.get j f.atoms
  get-events_for_other j [] f h = unfold fold_all events_for in refl
  get-events_for_other j (n ∷ ns) f h = elim (Option-cases (Dict.get n new.atoms)) [
    | inl e ↦ rw (events_for_skip n ns e) (get-events_for_other j ns f (ground arith))
    | inr (c, e) ↦ rw (events_for_step n ns c f e) (
        get-events_for_other j ns (fold_all f (events_of_atom new (Dict.get n previous) c))
          (ground arith)
        ∙ get-one_other j n c f e (ground arith))
  ]

  visited-Agrees :
      (j : String) (ns : List String) (f : FlowSnapshot) (c : AtomSnapshot)
      → Dict.get j new.atoms ≡ some c
      → Tracks (Dict.get j f.atoms) (Dict.get j previous)
      → mem j ns ≡ false
      → Agrees (Dict.get j (fold_all f (events_for previous new (j ∷ ns))).atoms) c
  visited-Agrees j ns f c g t m =
      let here = get-one j j c f g in
      let kept =
        get-events_for_other j ns (fold_all f (events_of_atom new (Dict.get j previous) c)) m in
      rw (events_for_step j ns c f g, kept, here)
        (rw ((eq_iff j j).1 refl)
          (events_of_atom-Agrees new c (Dict.get j f.atoms) (Dict.get j previous) t))

  -- a name that is visited has the atom of the new snapshot
  events_for-Agrees :
      (j : String) (names : List String) (f : FlowSnapshot) (c : AtomSnapshot)
      → Distinct names
      → mem j names ≡ true
      → Dict.get j new.atoms ≡ some c
      → Tracks (Dict.get j f.atoms) (Dict.get j previous)
      → Agrees (Dict.get j (fold_all f (events_for previous new names)).atoms) c
  events_for-Agrees j [] f c d m g t = absurd (ground arith)
  events_for-Agrees j (n ∷ ns) f c d m g t = elim (Bool-cases (str_eq j n)) [
    | inl same ↦
        subst
          (λ k.
            mem k ns ≡ false
            → Agrees (Dict.get j (fold_all f (events_for previous new (k ∷ ns))).atoms) c)
          ((eq_iff j n).0 same) (visited-Agrees j ns f c g t) d.0
    | inr differ ↦ elim (Option-cases (Dict.get n new.atoms)) [
      | inl e ↦ rw (events_for_skip n ns e) (events_for-Agrees j ns f c d.1 (ground arith) g t)
      | inr (x, e) ↦ rw (events_for_step n ns x f e) (
          events_for-Agrees j ns (fold_all f (events_of_atom new (Dict.get n previous) x)) c d.1
            (ground arith) g
            (subst (λ o. Tracks o (Dict.get j previous)) (sym (get-one_other j n x f e differ)) t))
    ]
  ]

  -- Every atom of the new snapshot is in the store with its state and progress, and no other atom
  -- comes in.
  pub atoms-Tracks :
      (j : String) (f : FlowSnapshot)
      → Tracks (Dict.get j f.atoms) (Dict.get j previous)
      → (Dict.get j new.atoms ≡ none → Dict.get j previous ≡ none)
      → Tracks
          (Dict.get j (fold_all f (events_for previous new (atom_names new))).atoms)
          (Dict.get j new.atoms)
  unfolding atom_names
  atoms-Tracks j f t stays = elim (Option-cases (Dict.get j new.atoms)) [
    | inl e ↦ rw e (
        get-events_for_other j (atom_names new) f
          (mem-sorted le_str j (Dict.keys new.atoms) ∙ (mem-keys j new.atoms ∙ rw e))
        ∙ subst (Tracks (Dict.get j f.atoms)) (stays e) t)
    | inr (c, e) ↦ rw e (
        events_for-Agrees j (atom_names new) f c
          (sorted-Distinct le_str (Dict.keys new.atoms) keyed.distinct)
          (mem-sorted le_str j (Dict.keys new.atoms) ∙ (mem-keys j new.atoms ∙ rw e)) e t)
  ]
