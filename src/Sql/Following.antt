-- ===== src/Sql/Following.antt =====
-- The flows that come after one in the order of a listing.
use taskflow_meter.Prelude.{
  ℕ, zero, suc, Bool, true, false, not, ◌&&◌, Option, some, List, [], ◌∷◌, String, ◌≡◌, refl, ap,
  sym, ◌∙◌, subst, arith, eq_iff, All, map, drop, Bool-cases, Option-cases, inl, inr,
  String-discrete, le_str_antisym, le_str_total,
}
use taskflow_meter.Prelude.Dict
use taskflow_meter.Prelude.Dict.{Dict, Distinct, mem, mem-keys}
use taskflow_meter.Prelude.Sort.{Ascending}
use taskflow_meter.Prelude.Select.{keep, keep_nil, keep_yes, keep_no, keep_all}
use taskflow_meter.States.{State}
use taskflow_meter.Models.{FlowSnapshot}
use taskflow_meter.DataSource.{
  ok, matching, has_state, has_book, newest_first, run_ids, start_of, position,
}
use taskflow_meter.DataSource.Windows.{nth}
use taskflow_meter.Sql.Rows.{FlowRow, flow_from_row}

-- what lies after a flow in a listing
unfoldable pub after_flow : FlowSnapshot → FlowSnapshot → Bool
after_flow g f = not (newest_first f g)

pub nth-All {ℓ} :
    (P : FlowSnapshot → Type ℓ) (n : ℕ) (fs : List FlowSnapshot) (g : FlowSnapshot)
    → nth n fs ≡ some g
    → All P fs
    → P g
nth-All P n [] g h k = absurd (ground (arith, h))
nth-All P zero (f ∷ fs) g h k = subst P (ground (arith, h)) k.0
nth-All P (suc n) (f ∷ fs) g h k = nth-All P n fs g h k.1

later_only :
    (g : FlowSnapshot) (fs : List FlowSnapshot)
    → mem g.run_id (run_ids fs) ≡ false
    → All (λ f. newest_first g f ≡ true) fs
    → All (λ f. after_flow g f ≡ true) fs
unfolding after_flow newest_first
later_only g [] d h = tt
later_only g (f ∷ fs) d h = (
  ground (arith, h.0, d, eq_iff g.run_id f.run_id, le_str_antisym g.run_id f.run_id),
  later_only g fs (ground (arith, d)) h.1,
)

itself : (g : FlowSnapshot) → after_flow g g ≡ false
unfolding after_flow newest_first
itself g = ground (arith, le_str_total g.run_id g.run_id)

-- The keyset keeps what follows the flow that it names.
pub keep-after :
    (n : ℕ) (fs : List FlowSnapshot) (g : FlowSnapshot)
    → Ascending newest_first fs
    → Distinct (run_ids fs)
    → nth n fs ≡ some g
    → keep (after_flow g) fs ≡ drop (suc n) fs
keep-after n [] g h d q = absurd (ground (arith, q))
keep-after zero (f ∷ fs) g h d q =
    let same : f ≡ g = ground (arith, q) in
    subst (λ x. keep (after_flow x) (f ∷ fs) ≡ fs) same
      (keep_no (after_flow f) f fs (itself f)
        ∙ keep_all (after_flow f) fs (later_only f fs d.0 h.0))
keep-after (suc n) (f ∷ fs) g h d q =
    let earlier : newest_first f g ≡ true = nth-All (λ x. newest_first f x ≡ true) n fs g q h.0 in
    keep_no (after_flow g) f fs (unfold after_flow in ap not earlier) ∙ keep-after n fs g h.1 d.1 q

-- what `position` finds
nth-position :
    (marker : String) (fs : List FlowSnapshot) (i : ℕ)
    → position marker fs ≡ some i
    → (g : FlowSnapshot) × (nth i fs ≡ some g) × (g.run_id ≡ marker)
unfolding position
nth-position marker [] i h = absurd (ground (arith, h))
nth-position marker (f ∷ fs) i h = elim (Option-cases (position marker fs)) [
  | inr (j, q) ↦
      let ih = nth-position marker fs j q in
      let e : i ≡ suc j = ground (arith, h, q) in (ih.0, ap (λ n. nth n (f ∷ fs)) e ∙ ih.1, ih.2)
  | inl q ↦ elim (String-discrete f.run_id marker) [
    | yes p ↦ let e : i ≡ 0 = ground (arith, h, q) in (f, ap (λ n. nth n (f ∷ fs)) e, p)
    | no n ↦ absurd (ground (arith, h, q))
  ]
]

pub start_of-nth_inv :
    (marker : String) (fs : List FlowSnapshot) (start : ℕ)
    → start_of (some marker) fs ≡ ok start
    → (i : ℕ) × (g : FlowSnapshot) × (start ≡ suc i) × (nth i fs ≡ some g) × (g.run_id ≡ marker)
unfolding start_of
start_of-nth_inv marker fs start h = elim (Option-cases (position marker fs)) [
  | inl q ↦ absurd (ground (arith, h, q))
  | inr (i, q) ↦
      let found = nth-position marker fs i q in (i, found.0, ground (arith, h, q), found.1, found.2)
]

abbrev pub all_flows : Dict FlowRow → List FlowSnapshot
all_flows d = map flow_from_row (Dict.values d)

-- every flow of the table stands in it under its run
abbrev pub InTable : Dict FlowRow → FlowSnapshot → Type 0
InTable d f = (row : FlowRow) × (Dict.get f.run_id d ≡ some row) × (flow_from_row row ≡ f)

module _ (d : Dict FlowRow)
    (keyed : (k : String) (row : FlowRow) → Dict.get k d ≡ some row → row.run_id ≡ k)
    (distinct : Distinct (Dict.keys d)) where
  -- the rest of the table, of which nothing hides an earlier row
  in_table :
      (rest : Dict FlowRow)
      → ((k : String) (row : FlowRow) → Dict.get k rest ≡ some row → Dict.get k d ≡ some row)
      → Distinct (Dict.keys rest)
      → All (InTable d) (all_flows rest) × (run_ids (all_flows rest) ≡ Dict.keys rest)
  unfolding Dict.get flow_from_row
  in_table [] within u = (tt, refl)
  in_table ((k, row) ∷ rest) within u =
      let here : Dict.get k d ≡ some row = within k row (ground (arith, eq_iff k k)) in
      let named : row.run_id ≡ k = keyed k row here in
      let ih =
        in_table rest
          (λ j r q. within j r (ground (arith, q, eq_iff j k, u.0, mem-keys j rest, eq_iff k j)))
          u.1 in
      (
        ((row, ap (λ j. Dict.get j d) named ∙ here, refl), ih.0),
        ap (λ j. j ∷ run_ids (all_flows rest)) named ∙ ap (◌∷◌ k) ih.1,
      )

  pub flows-InTable : All (InTable d) (all_flows d)
  flows-InTable = (in_table d (λ k row q. q) distinct).0

  pub flows-Distinct : Distinct (run_ids (all_flows d))
  flows-Distinct = subst Distinct (sym (in_table d (λ k row q. q) distinct).1) distinct

pub matching-keep :
    (state : Option State) (book_id : Option String) (fs : List FlowSnapshot)
    → matching state book_id fs ≡ keep (λ f. has_state state f && has_book book_id f) fs
unfolding matching keep
matching-keep state book_id [] = refl
matching-keep state book_id (f ∷ fs) = ground (arith, matching-keep state book_id fs)

-- a selection of a selection
pub keep-keep {ℓ} :
    {A : Type ℓ} (p q s : A → Bool)
    → ((a : A) → s a ≡ (p a && q a))
    → (xs : List A) → keep s xs ≡ keep q (keep p xs)
keep-keep p q s h [] = keep_nil s ∙ (sym (keep_nil q) ∙ ap (keep q) (sym (keep_nil p)))
keep-keep p q s h (x ∷ xs) = elim (Bool-cases (p x)) [
  | inl hp ↦ elim (Bool-cases (q x)) [
    | inl hq ↦
        keep_yes s x xs (h x ∙ rw (hp, hq) refl)
        ∙ (ap (◌∷◌ x) (keep-keep p q s h xs)
            ∙ (sym (keep_yes q x (keep p xs) hq) ∙ ap (keep q) (sym (keep_yes p x xs hp))))
    | inr hq ↦
        keep_no s x xs (h x ∙ rw (hp, hq) refl)
        ∙ (keep-keep p q s h xs
            ∙ (sym (keep_no q x (keep p xs) hq) ∙ ap (keep q) (sym (keep_yes p x xs hp))))
  ]
  | inr hp ↦
      keep_no s x xs (h x ∙ rw hp refl)
      ∙ (keep-keep p q s h xs ∙ ap (keep q) (sym (keep_no p x xs hp)))
]
