-- ===== src/Collect/Graph.antt =====
-- collect/attachment.py: `describe_graph`, over the nodes and edges of the compiled graph in whatever
-- order it lists them.
use mathlib.Core.List.{Permᴰ}
use mathlib.Core.List.Permᴰ
use taskflow_meter.Prelude.{
  ℕ, ◌+◌, Bool, true, false, Option, none, some, List, [], ◌∷◌, String, map, str_eq, le_str,
  le_str_total, le_str_trans, le_str_antisym, eq_iff, ◌≡◌, refl, ap, subst, sym, ◌∙◌, ◌⊎◌, inl, inr,
  arith, Bool-cases, if◌then◌else◌,
}
use taskflow_meter.Prelude.Sort.{insort, sorted}
use taskflow_meter.Prelude.Dict.{mem}

-- a node of the compiled graph: its `name`, where it has one, its `str`, and its kind
pub record GraphNode : Type 0 where
  pub name : Option String
  pub text : String
  pub kind : Option String

pub record Node : Type 0 where
  pub name : String
  pub kind : String

pub record Edge : Type 0 where
  pub source : String
  pub target : String

pub record Description : Type 0 where
  pub nodes : List Node
  pub edges : List Edge
  pub atom_count : ℕ

-- `_name`
unfoldable pub node_name : GraphNode → String
node_name node = elim node.name [ none ↦ node.text | some s ↦ if str_eq s "" then node.text else s ]

unfoldable pub node_of : GraphNode → Node
node_of node = record { name = node_name node; kind = elim node.kind [ none ↦ "" | some s ↦ s ] }

unfoldable pub edge_of : GraphNode × GraphNode → Edge
edge_of (source, target) = record { source = node_name source; target = node_name target }

-- the order of pairs of texts
unfoldable pub le_pair : String × String → String × String → Bool
le_pair (a, b) (c, d) = if str_eq a c then le_str b d else le_str a c

-- `(item["kind"], item["name"])` and `(item["from"], item["to"])`
abbrev pub by_kind : Node → Node → Bool
by_kind x y = le_pair (x.kind, x.name) (y.kind, y.name)

abbrev pub by_ends : Edge → Edge → Bool
by_ends x y = le_pair (x.source, x.target) (y.source, y.target)

-- how many nodes have a kind among `ATOMS`
unfoldable pub count_atoms : List String → List GraphNode → ℕ
count_atoms atoms [] = 0
count_atoms atoms (node ∷ nodes) =
    elim node.kind [ none ↦ 0 | some k ↦ if mem k atoms then 1 else 0 ] + count_atoms atoms nodes

unfoldable pub describe_graph :
    List String → List GraphNode → List (GraphNode × GraphNode) → Description
describe_graph atoms nodes edges = record {
  nodes = sorted by_kind (map node_of nodes);
  edges = sorted by_ends (map edge_of edges);
  atom_count = count_atoms atoms nodes;
}

module _ {A : Type 0} (le : A → A → Bool) (total : (a b : A) → (le a b ≡ true) ⊎ (le b a ≡ true))
    (trans : (a b c : A) → le a b ≡ true → le b c ≡ true → le a c ≡ true)
    (antisym : (a b : A) → le a b ≡ true → le b a ≡ true → a ≡ b) where
  -- where the first of two comes first, they can be put in either way round
  insort-insort_le :
      (x y : A) (zs : List A)
      → le x y ≡ true
      → le y x ≡ false
      → insort le x (insort le y zs) ≡ insort le y (insort le x zs)
  unfolding insort
  insort-insort_le x y [] h k = ground arith
  insort-insort_le x y (z ∷ zs) h k =
      ground (arith, insort-insort_le x y zs h k, trans x y z, total y z, trans y z x)

  insort_comm :
      (x y : A) (zs : List A) → insort le x (insort le y zs) ≡ insort le y (insort le x zs)
  insort_comm x y zs = elim (Bool-cases (le x y)) [
    | inr e ↦ sym (insort-insort_le y x zs (ground (arith, total x y)) e)
    | inl e ↦ elim (Bool-cases (le y x)) [
      | inr f ↦ insort-insort_le x y zs e f
      | inl f ↦
          let same = antisym x y e f in
          subst (λ v. insort le x (insort le v zs) ≡ insort le v (insort le x zs)) same refl
    ]
  ]

  sorted_of_Perm : {xs ys : List A} → Permᴰ xs ys → sorted le xs ≡ sorted le ys
  unfolding sorted
  sorted_of_Perm Permᴰ.nil = refl
  sorted_of_Perm (Permᴰ.cons {b = b} {l₁ = xs} e p) =
      ap (λ a. insort le a (sorted le xs)) e ∙ ap (insort le b) (sorted_of_Perm p)
  sorted_of_Perm (Permᴰ.swap {a = a} {b = b} {b' = b'} {l = xs} e k) =
      insort_comm a b (sorted le xs)
      ∙ (ap (λ v. insort le b (insort le v (sorted le xs))) e
          ∙ ap (λ v. insort le v (insort le b' (sorted le xs))) k)
  sorted_of_Perm (Permᴰ.trans p q) = sorted_of_Perm p ∙ sorted_of_Perm q

le_pair_total : (p q : String × String) → (le_pair p q ≡ true) ⊎ (le_pair q p ≡ true)
unfolding le_pair
le_pair_total (a, b) (c, d) =
    ground (arith, le_str_total a c, le_str_total b d, eq_iff a c, eq_iff c a)

le_pair_trans :
    (p q r : String × String) → le_pair p q ≡ true → le_pair q r ≡ true → le_pair p r ≡ true
unfolding le_pair
le_pair_trans (a, b) (c, d) (e, f) h k = grind (
  arith,
  le_str_trans a c e,
  le_str_trans b d f,
  le_str_antisym a c,
  eq_iff a c,
  eq_iff c e,
  eq_iff a e,
)

le_pair_antisym : (p q : String × String) → le_pair p q ≡ true → le_pair q p ≡ true → p ≡ q
unfolding le_pair
le_pair_antisym (a, b) (c, d) h k = elim (Bool-cases (str_eq a c)) [
  | inl e ↦
      let first = (eq_iff a c).0 e in
      let second =
        le_str_antisym b d (grind (arith, eq_iff a c)) (grind (arith, eq_iff a c, eq_iff c a)) in
      λ i. (first i, second i)
  | inr e ↦ absurd (grind (arith, le_str_antisym a c, eq_iff a c, eq_iff c a))
]

nodes_of_Perm : {xs ys : List Node} → Permᴰ xs ys → sorted by_kind xs ≡ sorted by_kind ys
nodes_of_Perm =
    sorted_of_Perm by_kind (λ x y. le_pair_total (x.kind, x.name) (y.kind, y.name))
      (λ x y z. le_pair_trans (x.kind, x.name) (y.kind, y.name) (z.kind, z.name))
      (λ x y h k.
        let p = le_pair_antisym (x.kind, x.name) (y.kind, y.name) h k in
        λ i. record { name = (p i).1; kind = (p i).0 })

edges_of_Perm : {xs ys : List Edge} → Permᴰ xs ys → sorted by_ends xs ≡ sorted by_ends ys
edges_of_Perm =
    sorted_of_Perm by_ends (λ x y. le_pair_total (x.source, x.target) (y.source, y.target))
      (λ x y z. le_pair_trans (x.source, x.target) (y.source, y.target) (z.source, z.target))
      (λ x y h k.
        let p = le_pair_antisym (x.source, x.target) (y.source, y.target) h k in
        λ i. record { source = (p i).0; target = (p i).1 })

count_atoms_of_Perm :
    (atoms : List String) {xs ys : List GraphNode}
    → Permᴰ xs ys
    → count_atoms atoms xs ≡ count_atoms atoms ys
unfolding count_atoms
count_atoms_of_Perm atoms Permᴰ.nil = refl
count_atoms_of_Perm atoms (Permᴰ.cons {l₁ = xs} {l₂ = ys} e p) =
    ap (λ x. count_atoms atoms (x ∷ xs)) e ∙ omega (arith, count_atoms_of_Perm atoms p)
count_atoms_of_Perm atoms (Permᴰ.swap {a = a} {b = b} {b' = b'} {l = xs} e k) =
    omega arith
    ∙ (ap (λ v. count_atoms atoms (b ∷ v ∷ xs)) e ∙ ap (λ v. count_atoms atoms (v ∷ b' ∷ xs)) k)
count_atoms_of_Perm atoms (Permᴰ.trans p q) =
    count_atoms_of_Perm atoms p ∙ count_atoms_of_Perm atoms q

-- The description of a graph does not depend on the order in which the compiled graph lists its
-- nodes and its edges.
pub describe_graph-Perm :
    (atoms : List String) {nodes nodes' : List GraphNode}
    {edges edges' : List (GraphNode × GraphNode)}
    → Permᴰ nodes nodes'
    → Permᴰ edges edges'
    → describe_graph atoms nodes edges ≡ describe_graph atoms nodes' edges'
unfolding describe_graph
describe_graph-Perm atoms p q =
    let ns = nodes_of_Perm (Permᴰ.map node_of p) in
    let es = edges_of_Perm (Permᴰ.map edge_of q) in
    let count = count_atoms_of_Perm atoms p in
    λ i. record { nodes = ns i; edges = es i; atom_count = count i }
