-- ===== src/Persistence/Reads.antt =====
-- The snapshots that the persistence source makes.
use taskflow_meter.Prelude.{
  ℕ, true, false, Option, none, some, List, [], ◌∷◌, ◌++◌, String, ◌≡◌, refl, ap, sym, ◌∙◌, subst,
  arith, All, le_str, eq_iff, Option-cases, inl, inr,
}
use mathlib.Core.List.{append-nil, append_assoc}
use taskflow_meter.Prelude.Dict
use taskflow_meter.Prelude.Dict.{Dict, Distinct, mem, get-set, Distinct-set}
use taskflow_meter.Prelude.Sort.{sorted, insort, All-sorted}
use taskflow_meter.Models.{AtomSnapshot, atom_names, atoms_at}
use taskflow_meter.Diff.Roundtrip.{IsKeyed}
use taskflow_meter.DataSource.{atoms_of_flow}
use taskflow_meter.Persistence.{
  FlowDetail, Book, Connection, Conversions, snapshots, by_name, flow_snapshot, in_book, find_book,
  get_flow, get_atoms, name_order,
}

-- every key is the name of its atom
abbrev ByName : Dict AtomSnapshot → Type 0
ByName d = (n : String) (c : AtomSnapshot) → Dict.get n d ≡ some c → c.name ≡ n

module _ (conv : Conversions) where
  by_name-ByName :
      (d : Dict AtomSnapshot) (atoms : List AtomSnapshot)
      → ByName d
      → Distinct (Dict.keys d)
      → ByName (by_name conv d atoms) × Distinct (Dict.keys (by_name conv d atoms))
  unfolding by_name
  by_name-ByName d [] h k = (h, k)
  by_name-ByName d (a ∷ atoms) h k =
      by_name-ByName (Dict.set a.name a d) atoms
        (λ n c e. ground (arith, get-set n a.name a d, eq_iff n a.name, h n c))
        (Distinct-set a.name a d k)

  -- Every snapshot of the persistence source holds its atoms under their names, no name twice.
  pub flow_snapshot-IsKeyed :
      (d : FlowDetail) (book_id book_name : Option String) (created : Option ℕ) (now : ℕ)
      → IsKeyed (flow_snapshot conv d book_id book_name created now)
  unfolding flow_snapshot
  flow_snapshot-IsKeyed d book_id book_name created now =
      let h =
        by_name-ByName [] (snapshots conv d.atoms)
          (λ n c e. absurd (unfold Dict.get in ground (arith, e))) tt in
      record { named = h.0; distinct = h.1 }

abbrev pub names : List AtomSnapshot → List String
names [] = []
names (a ∷ atoms) = a.name ∷ names atoms

atoms_at-found :
    (d : Dict AtomSnapshot) (n : String) (ns : List String) (a : AtomSnapshot)
    → Dict.get n d ≡ some a
    → atoms_at d (n ∷ ns) ≡ a ∷ atoms_at d ns
unfolding atoms_at
atoms_at-found d n ns a h = ground arith

mem-middle : (n : String) (xs ys : List String) → mem n (xs ++ n ∷ ys) ≡ true
mem-middle n [] ys = ground (arith, eq_iff n n)
mem-middle n (x ∷ xs) ys = ground (arith, mem-middle n xs ys)

Distinct-middle : (n : String) (xs ys : List String) → Distinct (xs ++ n ∷ ys) → mem n xs ≡ false
Distinct-middle n [] ys h = refl
Distinct-middle n (x ∷ xs) ys h =
    ground (arith, Distinct-middle n xs ys h.1, h.0, mem-middle n xs ys, eq_iff n x)

keys-set_new :
    (k : String) (a : AtomSnapshot) (d : Dict AtomSnapshot)
    → mem k (Dict.keys d) ≡ false
    → Dict.keys (Dict.set k a d) ≡ Dict.keys d ++ k ∷ []
unfolding Dict.set
keys-set_new k a [] h = refl
keys-set_new k a ((j, b) ∷ d) h = ground (arith, keys-set_new k a d)

module _ (conv : Conversions) where
  -- sorting the atoms by name, and sorting their names
  names-insort :
      (a : AtomSnapshot) (atoms : List AtomSnapshot)
      → names (insort (name_order conv) a atoms) ≡ insort le_str a.name (names atoms)
  unfolding insort name_order
  names-insort a [] = refl
  names-insort a (b ∷ atoms) = ground (arith, names-insort a atoms)

  names-sorted :
      (atoms : List AtomSnapshot)
      → names (sorted (name_order conv) atoms) ≡ sorted le_str (names atoms)
  unfolding sorted
  names-sorted [] = refl
  names-sorted (a ∷ atoms) =
      names-insort a (sorted (name_order conv) atoms)
      ∙ ap (insort le_str a.name) (names-sorted atoms)

  atoms_at-names :
      (d : Dict AtomSnapshot) (atoms : List AtomSnapshot)
      → All (λ a. Dict.get a.name d ≡ some a) atoms
      → atoms_at d (names atoms) ≡ atoms
  unfolding atoms_at
  atoms_at-names d [] h = refl
  atoms_at-names d (a ∷ atoms) h =
      atoms_at-found d a.name (names atoms) a h.0 ∙ ap (◌∷◌ a) (atoms_at-names d atoms h.1)

  -- a name that does not come keeps what it has
  get-by_name_other :
      (n : String) (d : Dict AtomSnapshot) (atoms : List AtomSnapshot)
      → mem n (names atoms) ≡ false
      → Dict.get n (by_name conv d atoms) ≡ Dict.get n d
  unfolding by_name
  get-by_name_other n d [] h = refl
  get-by_name_other n d (a ∷ atoms) h =
      get-by_name_other n (Dict.set a.name a d) atoms (ground arith)
      ∙ ground (arith, get-set n a.name a d)

  get-by_name :
      (d : Dict AtomSnapshot) (atoms : List AtomSnapshot)
      → Distinct (names atoms)
      → All (λ a. Dict.get a.name (by_name conv d atoms) ≡ some a) atoms
  unfolding by_name
  get-by_name d [] h = tt
  get-by_name d (a ∷ atoms) h = (
    get-by_name_other a.name (Dict.set a.name a d) atoms h.0
        ∙ ground (arith, get-set a.name a.name a d, eq_iff a.name a.name),
    get-by_name (Dict.set a.name a d) atoms h.1,
  )

  keys-by_name :
      (d : Dict AtomSnapshot) (atoms : List AtomSnapshot)
      → Distinct (Dict.keys d ++ names atoms)
      → Dict.keys (by_name conv d atoms) ≡ Dict.keys d ++ names atoms
  unfolding by_name
  keys-by_name d [] h = sym (append-nil (Dict.keys d))
  keys-by_name d (a ∷ atoms) h =
      let new = keys-set_new a.name a d (Distinct-middle a.name (Dict.keys d) (names atoms) h) in
      let moved =
        ap (λ ks. ks ++ names atoms) new ∙ append_assoc (Dict.keys d) (a.name ∷ []) (names atoms) in
      keys-by_name (Dict.set a.name a d) atoms (subst Distinct (sym moved) h) ∙ moved

  dict-sorted :
      (atoms : List AtomSnapshot)
      → Distinct (names atoms)
      → atoms_at (by_name conv [] atoms) (sorted le_str (Dict.keys (by_name conv [] atoms)))
        ≡ sorted (name_order conv) atoms
  dict-sorted atoms h =
      ap (λ ks. atoms_at (by_name conv [] atoms) (sorted le_str ks)) (keys-by_name [] atoms h)
      ∙ (ap (atoms_at (by_name conv [] atoms)) (sym (names-sorted atoms))
          ∙ atoms_at-names (by_name conv [] atoms) (sorted (name_order conv) atoms) (
              All-sorted (name_order conv) (λ a. Dict.get a.name (by_name conv [] atoms) ≡ some a)
                atoms (get-by_name [] atoms h)))

  atoms-in_book :
      (d : FlowDetail) (book : Option Book) (now : ℕ)
      → (in_book conv d book now).atoms ≡ by_name conv [] (snapshots conv d.atoms)
  unfolding in_book flow_snapshot
  atoms-in_book d none now = refl
  atoms-in_book d (some book) now = refl

  -- Where taskflow gives the same atoms of a run by either read, each name once, get_atoms gives
  -- what the default of the base class would make of get_flow, and nothing just where that gives
  -- nothing.
  pub get_atoms-agrees :
      (conn : Connection) (now : ℕ) (run_id : String)
      → ((d : FlowDetail)
          → conn.get_flow_details run_id ≡ some d
          → (conn.get_atoms_for_flow run_id ≡ d.atoms) × Distinct (names (snapshots conv d.atoms)))
      → get_atoms conv conn run_id ≡ atoms_of_flow (get_flow conv conn now run_id)
  unfolding get_atoms get_flow atoms_of_flow atom_names
  get_atoms-agrees conn now run_id h = elim (Option-cases (conn.get_flow_details run_id)) [
    | inl e ↦ ground (arith, e)
    | inr (d, e) ↦
        let k = h d e in
        let atoms = atoms-in_book d (find_book conv conn run_id conn.get_logbooks) now in
        let same =
          ap (λ ds. sorted (name_order conv) (snapshots conv ds)) k.0
          ∙ (sym (dict-sorted (snapshots conv d.atoms) k.1)
              ∙ ap (λ (t : Dict AtomSnapshot). atoms_at t (sorted le_str (Dict.keys t)))
                  (sym atoms)) in
        let atoms_found : get_atoms conv conn run_id
            ≡ some (sorted (name_order conv) (snapshots conv (conn.get_atoms_for_flow run_id))) =
          ground (arith, e) in
        let flow_found : get_flow conv conn now run_id
            ≡ some (in_book conv d (find_book conv conn run_id conn.get_logbooks) now) =
          ground (arith, e) in
        atoms_found ∙ (ap some same ∙ ap atoms_of_flow (sym flow_found))
  ]
