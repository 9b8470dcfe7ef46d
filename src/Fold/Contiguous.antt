-- ===== src/Fold/Contiguous.antt =====
-- What `contiguous_from` selects: a run of numbers with no gap, and all of it.
use taskflow_meter.Prelude.{
  ℕ, zero, suc, ◌+◌, ◌-◌, ◌≤◌, ◌<◌, List, [], ◌∷◌, ◌≡◌, ◌≢◌, refl, ap, ◌∙◌, sym, subst, take-nil,
  All, All_map, All_Memᴰ, arith, Bool, true, leb, length, take, drop,
}
use mathlib.Core.List.{Memᴰ}
use native.Mathlib.Nat.{add-zero, add-suc, suc-add}
use native.Mathlib.Decide.{dec_lt}
use taskflow_meter.Prelude.Sort.{Ascending}
use taskflow_meter.Events.{Event}
use taskflow_meter.Events.Sequence.{Consecutive}
use taskflow_meter.Fold.{contiguous_loop, contiguous_from}

-- the order in which a store reads its events
abbrev pub by_seq : Event → Event → Bool
by_seq a b = leb a.seq b.seq

contiguous_loop-Consecutive :
    (room : ℕ) (es : List Event) (expected : ℕ)
    → Consecutive expected (contiguous_loop room es expected)
unfolding contiguous_loop
contiguous_loop-Consecutive room [] expected = tt
contiguous_loop-Consecutive room (e ∷ es) expected = ground (
  arith,
  contiguous_loop-Consecutive room es expected,
  contiguous_loop-Consecutive (room - 1) es (expected + 1),
)

contiguous_loop-length :
    (room : ℕ) (es : List Event) (expected : ℕ)
    → 1 ≤ room
    → length (contiguous_loop room es expected) ≤ room
unfolding contiguous_loop
contiguous_loop-length room [] expected h = ground arith
contiguous_loop-length room (e ∷ es) expected h = ground (
  arith,
  contiguous_loop-length room es expected h,
  contiguous_loop-length (room - 1) es (expected + 1),
)

-- what one event does to the loop
module _ (room expected : ℕ) (e : Event) (es : List Event) where
  pub loop_old :
      e.seq < expected → contiguous_loop room (e ∷ es) expected ≡ contiguous_loop room es expected
  unfolding contiguous_loop
  loop_old h = ground arith

  pub loop_gap : expected < e.seq → contiguous_loop room (e ∷ es) expected ≡ []
  unfolding contiguous_loop
  loop_gap h = ground arith

  pub loop_full : e.seq ≡ expected → room ≤ 1 → contiguous_loop room (e ∷ es) expected ≡ e ∷ []
  unfolding contiguous_loop
  loop_full h k = ground arith

  pub loop_more :
      e.seq ≡ expected
      → 1 < room
      → contiguous_loop room (e ∷ es) expected ≡ e ∷ contiguous_loop (room - 1) es (expected + 1)
  unfolding contiguous_loop
  loop_more h k = ground arith

-- the four ways in which the loop treats an event
data Treats (room expected seq : ℕ) : Type 0 where
  old : seq < expected → Treats room expected seq
  gap : expected < seq → Treats room expected seq
  full : seq ≡ expected → room ≤ 1 → Treats room expected seq
  more : seq ≡ expected → 1 < room → Treats room expected seq

treats : (room expected seq : ℕ) → Treats room expected seq
treats room expected seq = elim (dec_lt seq expected) [
  | yes p ↦ old p
  | no p ↦ elim (dec_lt expected seq) [
    | yes q ↦ gap q
    | no q ↦ elim (dec_lt 1 room) [
      | yes r ↦ more (omega arith) r
      | no r ↦ full (omega arith) (omega arith)
    ]
  ]
]

contiguous_loop-All {ℓ} :
    (P : Event → Type ℓ) (room : ℕ) (es : List Event) (expected : ℕ)
    → All P es
    → All P (contiguous_loop room es expected)
contiguous_loop-All P room [] expected h = unfold contiguous_loop in tt
contiguous_loop-All P room (e ∷ es) expected h = elim (treats room expected e.seq) [
  | old p ↦ rw (loop_old room expected e es p) (contiguous_loop-All P room es expected h.1)
  | gap p ↦ rw (loop_gap room expected e es p) tt
  | full p q ↦ rw (loop_full room expected e es p q) (h.0, tt)
  | more p q ↦
      rw (loop_more room expected e es p q)
        (h.0, contiguous_loop-All P (room - 1) es (expected + 1) h.1)
]

-- where the loop stops short, the number after its last event is not there
abbrev Short : ℕ → ℕ → List Event → List Event → Type 0
Short room expected all es = length es < room → All (λ x. x.seq ≢ expected + length es) all

contiguous_loop-Short :
    (room : ℕ) (es : List Event) (expected : ℕ)
    → Ascending by_seq es
    → Short room expected es (contiguous_loop room es expected)
contiguous_loop-Short room [] expected h = λ k. tt
contiguous_loop-Short room (e ∷ es) expected h =
    let short = Short room expected (e ∷ es) in
    elim (treats room expected e.seq) [
      | old p ↦
          subst short (sym (loop_old room expected e es p))
            (λ k. (λ q. omega (arith, q), contiguous_loop-Short room es expected h.1 k))
      | gap p ↦
          subst short (sym (loop_gap room expected e es p))
            (λ k. (λ q. omega (arith, q), All_map (λ x r q. absurd (ground arith)) es h.0))
      | full p q ↦ subst short (sym (loop_full room expected e es p q)) (λ k. absurd (omega arith))
      | more p q ↦ subst short (sym (loop_more room expected e es p q)) (λ k. (
        λ r. omega (arith, r),
        All_map (λ x f r. f (omega (arith, r))) es
            (contiguous_loop-Short (room - 1) es (expected + 1) h.1 (omega arith)),
      ))
    ]

-- From a stored history in order of its numbers, with duplicates and gaps: what is selected carries
-- the expected number and those after it with none left out, it is within the limit, every event of
-- it is a stored one, and it is shorter than the limit only where the number after its last event
-- is not stored.
pub record Selects (stored : List Event) (expected limit : ℕ) (es : List Event) : Type 0 where
  pub consecutive : Consecutive expected es
  pub bounded : length es ≤ limit
  pub stored_only : All (λ e. Memᴰ e stored) es
  pub complete : length es < limit → All (λ x. x.seq ≢ expected + length es) stored

-- From a stored history in order of its numbers, what is selected at a limit of at least 1 carries
-- the expected number and those after it with none left out, is within the limit and stored, and
-- is shorter than the limit only where the number after its last event is not stored.
pub contiguous_from-Selects :
    (stored : List Event) (expected limit : ℕ)
    → 1 ≤ limit
    → Ascending by_seq stored
    → Selects stored expected limit (contiguous_from stored expected limit)
unfolding contiguous_from
contiguous_from-Selects stored expected limit h sorted = record {
  consecutive = contiguous_loop-Consecutive limit stored expected;
  bounded = contiguous_loop-length limit stored expected h;
  stored_only = contiguous_loop-All (λ e. Memᴰ e stored) limit stored expected (All_Memᴰ stored);
  complete = contiguous_loop-Short limit stored expected sorted;
}

pub Consecutive-later :
    (n m : ℕ) (e : Event) (es : List Event)
    → e.seq ≤ n
    → n ≤ m
    → Consecutive m es
    → All (λ x. by_seq e x ≡ true) es
Consecutive-later n m e [] k l c = tt
Consecutive-later n m e (x ∷ xs) k l c =
    (ground arith, Consecutive-later n (suc m) e xs k (omega arith) c.1)

pub Consecutive-Ascending : (n : ℕ) (es : List Event) → Consecutive n es → Ascending by_seq es
Consecutive-Ascending n [] h = tt
Consecutive-Ascending n (e ∷ es) h = (
  Consecutive-later (suc n) (suc n) e es (omega arith) (omega arith) h.1,
  Consecutive-Ascending (suc n) es h.1,
)

-- the part of the loop that skips, and the part that takes
loop_taken :
    (n : ℕ) (es : List Event) (limit : ℕ)
    → 1 ≤ limit
    → Consecutive n es
    → contiguous_loop limit es n ≡ take limit es
loop_taken n es zero h c = absurd (omega arith)
loop_taken n [] (suc k) h c = unfold contiguous_loop in refl
loop_taken n (e ∷ es) (suc zero) h c = loop_full 1 n e es c.0 (omega arith)
loop_taken n (e ∷ es) (suc (suc k)) h c =
    let room : suc (suc k) - 1 ≡ suc k = omega arith in
    let next : n + 1 ≡ suc n = omega arith in
    loop_more (suc (suc k)) n e es c.0 (omega arith)
    ∙ rw (room, next) (ap (◌∷◌ e) (loop_taken (suc n) es (suc k) (omega arith) c.1))

-- On a history without a gap the selection is a slice of it.
pub contiguous_from_slice :
    (n : ℕ) (es : List Event) (skip limit : ℕ)
    → 1 ≤ limit
    → Consecutive n es
    → contiguous_from es (n + skip) limit ≡ take limit (drop skip es)
unfolding contiguous_from
contiguous_from_slice n es zero limit h c = rw add-zero (loop_taken n es limit h c)
contiguous_from_slice n [] (suc skip) limit h c = unfold contiguous_loop in sym (take-nil limit)
contiguous_from_slice n (e ∷ es) (suc skip) limit h c =
    loop_old limit (n + suc skip) e es (omega arith)
    ∙ rw (add-suc, ← suc-add) (contiguous_from_slice (suc n) es skip limit h c.1)
