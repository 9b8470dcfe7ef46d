-- ===== src/Prelude/Sort.antt =====
-- `sorted`: a stable sort by a Boolean order, and what the callers rely on.
use Prim.Native.Nat.{suc}
use Prim.Native.String.{String}
use mathlib.Core.Path.{◌≡◌, refl, ap}
use mathlib.Core.Bool.{Bool, true, false, ◌||◌}
use mathlib.Core.Logic.{◌⊎◌, inl, inr}
use mathlib.Core.List.{List, [], ◌∷◌}
use native.Mathlib.Omega.{arith}
use text.Mathlib.Text.{◌==◌}
use text.Mathlib.TextEquality.{eq_iff}
use taskflow_meter.Prelude.Tests.{if◌then◌else◌, Bool-cases}
use taskflow_meter.Prelude.Lists.{length, All, All_map}
use taskflow_meter.Prelude.Dict.{mem, Distinct}

module _ {ℓ} {A : Type ℓ} (le : A → A → Bool) where
  -- before the first element that is not smaller, so equal elements keep their order
  unfoldable pub insort : A → List A → List A
  insort x [] = x ∷ []
  insort x (y ∷ ys) = if le x y then x ∷ y ∷ ys else y ∷ insort x ys

  unfoldable pub sorted : List A → List A
  unfolding insort
  sorted [] = []
  sorted (x ∷ xs) = insort x (sorted xs)

  -- every element is at most each that follows
  abbrev pub Ascending : List A → Type 0
  Ascending [] = Unit
  Ascending (x ∷ xs) = All (λ y. le x y ≡ true) xs × Ascending xs

  pub length-insort : (x : A) (xs : List A) → length (insort x xs) ≡ suc (length xs)
  unfolding insort
  length-insort x [] = refl
  length-insort x (y ∷ ys) = ground (arith, length-insort x ys)

  pub length-sorted : (xs : List A) → length (sorted xs) ≡ length xs
  unfolding sorted
  length-sorted [] = refl
  length-sorted (x ∷ xs) = rw length-insort (ap suc (length-sorted xs))

  pub All-insort {κ} : (P : A → Type κ) (x : A) (xs : List A) → P x → All P xs → All P (insort x xs)
  unfolding insort
  All-insort P x [] px h = (px, tt)
  All-insort P x (y ∷ ys) px h = elim (Bool-cases (le x y)) [
    | inl e ↦ rw e (px, h)
    | inr e ↦ rw e (h.0, All-insort P x ys px h.1)
  ]

  pub All-sorted {κ} : (P : A → Type κ) (xs : List A) → All P xs → All P (sorted xs)
  unfolding sorted
  All-sorted P [] h = tt
  All-sorted P (x ∷ xs) h = All-insort P x (sorted xs) h.0 (All-sorted P xs h.1)

  All-insort_inv {κ} : (P : A → Type κ) (x : A) (xs : List A) → All P (insort x xs) → P x × All P xs
  unfolding insort
  All-insort_inv P x [] h = h
  All-insort_inv P x (y ∷ ys) h =
      elim (le x y)
          as (λ b. All P (if b then x ∷ y ∷ ys else y ∷ insort x ys) → P x × All P (y ∷ ys)) [
            | true ↦ λ k. k
            | false ↦ λ k. let rest = All-insort_inv P x ys k.1 in (rest.0, (k.0, rest.1))
          ]
        h

  -- what holds of all that was sorted held of it before
  pub All-sorted_inv {κ} : (P : A → Type κ) (xs : List A) → All P (sorted xs) → All P xs
  unfolding sorted
  All-sorted_inv P [] h = tt
  All-sorted_inv P (x ∷ xs) h =
      let rest = All-insort_inv P x (sorted xs) h in (rest.0, All-sorted_inv P xs rest.1)

  -- a list that ascends already is left as it is
  pub insort_head : (x : A) (xs : List A) → All (λ y. le x y ≡ true) xs → insort x xs ≡ x ∷ xs
  unfolding insort
  insort_head x [] h = refl
  insort_head x (y ∷ ys) h = rw h.0

  pub sorted_of_Ascending : (xs : List A) → Ascending xs → sorted xs ≡ xs
  unfolding sorted
  sorted_of_Ascending [] h = refl
  sorted_of_Ascending (x ∷ xs) h = rw (sorted_of_Ascending xs h.1) (insort_head x xs h.0)

module _ {ℓ} {A : Type ℓ} (le : A → A → Bool)
    (total : (a b : A) → (le a b ≡ true) ⊎ (le b a ≡ true))
    (trans : (a b c : A) → le a b ≡ true → le b c ≡ true → le a c ≡ true) where
  insort-Ascending : (x : A) (xs : List A) → Ascending le xs → Ascending le (insort le x xs)
  unfolding insort
  insort-Ascending x [] h = (tt, tt)
  insort-Ascending x (y ∷ ys) h = elim (Bool-cases (le x y)) [
    | inl e ↦ rw e ((e, All_map (λ z p. trans x y z e p) ys h.0), h)
    | inr e ↦ rw e (
      All-insort le (λ z. le y z ≡ true) x ys (ground (arith, total x y)) h.0,
      insort-Ascending x ys h.1,
    )
  ]

  pub sorted-Ascending : (xs : List A) → Ascending le (sorted le xs)
  unfolding sorted
  sorted-Ascending [] = tt
  sorted-Ascending (x ∷ xs) = insort-Ascending x (sorted le xs) (sorted-Ascending xs)

-- Sorting names keeps which names there are, and that none is there twice.
module _ (le : String → String → Bool) where
  mem-insort : (n x : String) (xs : List String) → mem n (insort le x xs) ≡ (n == x || mem n xs)
  unfolding insort
  mem-insort n x [] = refl
  mem-insort n x (y ∷ ys) = ground (arith, mem-insort n x ys)

  pub mem-sorted : (n : String) (xs : List String) → mem n (sorted le xs) ≡ mem n xs
  unfolding sorted
  mem-sorted n [] = refl
  mem-sorted n (x ∷ xs) = rw mem-insort (ground (arith, mem-sorted n xs))

  insort-Distinct :
      (x : String) (xs : List String) → mem x xs ≡ false → Distinct xs → Distinct (insort le x xs)
  unfolding insort
  insort-Distinct x [] m h = (refl, tt)
  insort-Distinct x (y ∷ ys) m h =
      ground (arith, insort-Distinct x ys, mem-insort y x ys, eq_iff x y, eq_iff y x)

  pub sorted-Distinct : (xs : List String) → Distinct xs → Distinct (sorted le xs)
  unfolding sorted
  sorted-Distinct [] h = tt
  sorted-Distinct (x ∷ xs) h =
      insort-Distinct x (sorted le xs) (rw mem-sorted h.0) (sorted-Distinct xs h.1)
