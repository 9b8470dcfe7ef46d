-- ===== src/Prelude/Select.antt =====
-- The elements that pass a test, as a query selects them, and how that goes with sorting and `map`.
use Prim.Native.Nat.{ℕ, zero, suc}
use mathlib.Core.Path.{◌≡◌, refl, ap, sym, ◌∙◌}
use mathlib.Core.Bool.{Bool, true, false}
use mathlib.Core.Logic.{◌⊎◌, inl, inr}
use mathlib.Core.List.{List, [], ◌∷◌, ◌++◌, map}
use taskflow_meter.Prelude.Tests.{if◌then◌else◌, Bool-cases}
use taskflow_meter.Prelude.Lists.{take, All}
use taskflow_meter.Prelude.Sort.{insort, sorted, Ascending, insort_head, sorted-Ascending}

unfoldable pub keep {ℓ} : {A : Type ℓ} → (A → Bool) → List A → List A
keep p [] = []
keep p (x ∷ xs) = let rest = keep p xs in if p x then x ∷ rest else rest

module _ {ℓ} {A : Type ℓ} (p : A → Bool) where
  pub keep_nil : keep p [] ≡ []
  unfolding keep
  keep_nil = refl

  pub keep_yes : (x : A) (xs : List A) → p x ≡ true → keep p (x ∷ xs) ≡ x ∷ keep p xs
  unfolding keep
  keep_yes x xs h = rw h

  pub keep_no : (x : A) (xs : List A) → p x ≡ false → keep p (x ∷ xs) ≡ keep p xs
  unfolding keep
  keep_no x xs h = rw h

  pub keep-append : (xs ys : List A) → keep p (xs ++ ys) ≡ keep p xs ++ keep p ys
  keep-append [] ys = unfold keep in refl
  keep-append (x ∷ xs) ys = elim (Bool-cases (p x)) [
    | inl h ↦ keep_yes x (xs ++ ys) h ∙ rw (keep_yes x xs h) (ap (◌∷◌ x) (keep-append xs ys))
    | inr h ↦ keep_no x (xs ++ ys) h ∙ rw (keep_no x xs h) (keep-append xs ys)
  ]

  pub All-keep {κ} : (P : A → Type κ) (xs : List A) → All P xs → All P (keep p xs)
  All-keep P [] h = unfold keep in tt
  All-keep P (x ∷ xs) h = elim (Bool-cases (p x)) [
    | inl e ↦ rw (keep_yes x xs e) (h.0, All-keep P xs h.1)
    | inr e ↦ rw (keep_no x xs e) (All-keep P xs h.1)
  ]

  pub keep_all : (xs : List A) → All (λ x. p x ≡ true) xs → keep p xs ≡ xs
  keep_all [] h = unfold keep in refl
  keep_all (x ∷ xs) h = keep_yes x xs h.0 ∙ ap (◌∷◌ x) (keep_all xs h.1)

  pub keep_none : (xs : List A) → All (λ x. p x ≡ false) xs → keep p xs ≡ []
  keep_none [] h = unfold keep in refl
  keep_none (x ∷ xs) h = keep_no x xs h.0 ∙ keep_none xs h.1

module _ {ℓ κ} {A : Type ℓ} {B : Type κ} (f : A → B) where
  pub keep-map : (p : B → Bool) (xs : List A) → keep p (map f xs) ≡ map f (keep (λ a. p (f a)) xs)
  keep-map p [] = unfold keep in refl
  keep-map p (x ∷ xs) = elim (Bool-cases (p (f x))) [
    | inl h ↦
        keep_yes p (f x) (map f xs) h
        ∙ rw (keep_yes (λ a. p (f a)) x xs h) (ap (◌∷◌ (f x)) (keep-map p xs))
    | inr h ↦ keep_no p (f x) (map f xs) h ∙ rw (keep_no (λ a. p (f a)) x xs h) (keep-map p xs)
  ]

  pub take-map : (n : ℕ) (xs : List A) → take n (map f xs) ≡ map f (take n xs)
  take-map zero xs = refl
  take-map (suc n) [] = refl
  take-map (suc n) (x ∷ xs) = ap (◌∷◌ (f x)) (take-map n xs)

  insort-map :
      (le : B → B → Bool) (x : A) (xs : List A)
      → insort le (f x) (map f xs) ≡ map f (insort (λ a b. le (f a) (f b)) x xs)
  unfolding insort
  insort-map le x [] = refl
  insort-map le x (y ∷ ys) = elim (Bool-cases (le (f x) (f y))) [
    | inl h ↦ rw h refl
    | inr h ↦ rw h (ap (◌∷◌ (f y)) (insort-map le x ys))
  ]

  pub sorted-map :
      (le : B → B → Bool) (xs : List A)
      → sorted le (map f xs) ≡ map f (sorted (λ a b. le (f a) (f b)) xs)
  unfolding sorted
  sorted-map le [] = refl
  sorted-map le (x ∷ xs) =
      ap (insort le (f x)) (sorted-map le xs) ∙ insort-map le x (sorted (λ a b. le (f a) (f b)) xs)

-- one step of the sort
module _ {ℓ} {A : Type ℓ} (le : A → A → Bool) where
  pub sorted_cons : (x : A) (xs : List A) → sorted le (x ∷ xs) ≡ insort le x (sorted le xs)
  unfolding sorted
  sorted_cons x xs = refl

  insort_now : (x y : A) (ys : List A) → le x y ≡ true → insort le x (y ∷ ys) ≡ x ∷ y ∷ ys
  unfolding insort
  insort_now x y ys h = rw h

  insort_tail : (x y : A) (ys : List A) → le x y ≡ false → insort le x (y ∷ ys) ≡ y ∷ insort le x ys
  unfolding insort
  insort_tail x y ys h = rw h

-- a selection of what is sorted is sorted
module _ {ℓ} {A : Type ℓ} (le : A → A → Bool)
    (total : (a b : A) → (le a b ≡ true) ⊎ (le b a ≡ true))
    (trans : (a b c : A) → le a b ≡ true → le b c ≡ true → le a c ≡ true) (p : A → Bool) where
  below :
      (x y : A) (ys : List A)
      → le x y ≡ true
      → All (λ z. le y z ≡ true) ys
      → All (λ z. le x z ≡ true) (y ∷ ys)
  below x y [] h k = (h, tt)
  below x y (z ∷ zs) h k = (h, (trans x y z h k.0, (below x y zs h k.1).1))

  keep-insort_yes :
      (x : A) (xs : List A)
      → p x ≡ true
      → Ascending le xs
      → keep p (insort le x xs) ≡ insort le x (keep p xs)
  keep-insort_yes x [] px h = unfold insort keep in rw px refl
  keep-insort_yes x (y ∷ ys) px h = elim (Bool-cases (le x y)) [
    | inl e ↦
        let least = below x y ys e h.0 in
        ap (keep p) (insort_head le x (y ∷ ys) least)
        ∙ (keep_yes p x (y ∷ ys) px
            ∙ sym (
                insort_head le x (keep p (y ∷ ys))
                  (All-keep p (λ z. le x z ≡ true) (y ∷ ys) least)))
    | inr e ↦
        let ih = keep-insort_yes x ys px h.1 in
        ap (keep p) (insort_tail le x y ys e) ∙ elim (Bool-cases (p y)) [
          | inl py ↦
              keep_yes p y (insort le x ys) py
              ∙ (ap (◌∷◌ y) ih
                  ∙ (sym (insort_tail le x y (keep p ys) e)
                      ∙ ap (insort le x) (sym (keep_yes p y ys py))))
          | inr py ↦
              keep_no p y (insort le x ys) py ∙ (ih ∙ ap (insort le x) (sym (keep_no p y ys py)))
        ]
  ]

  keep-insort_no : (x : A) (xs : List A) → p x ≡ false → keep p (insort le x xs) ≡ keep p xs
  keep-insort_no x [] px = unfold insort keep in rw px refl
  keep-insort_no x (y ∷ ys) px = elim (Bool-cases (le x y)) [
    | inl e ↦ ap (keep p) (insort_now le x y ys e) ∙ keep_no p x (y ∷ ys) px
    | inr e ↦
        let ih = keep-insort_no x ys px in
        ap (keep p) (insort_tail le x y ys e) ∙ elim (Bool-cases (p y)) [
          | inl py ↦ keep_yes p y (insort le x ys) py ∙ (ap (◌∷◌ y) ih ∙ sym (keep_yes p y ys py))
          | inr py ↦ keep_no p y (insort le x ys) py ∙ (ih ∙ sym (keep_no p y ys py))
        ]
  ]

  pub keep-sorted : (xs : List A) → keep p (sorted le xs) ≡ sorted le (keep p xs)
  keep-sorted [] = unfold keep sorted in refl
  keep-sorted (x ∷ xs) = elim (Bool-cases (p x)) [
    | inl h ↦
        ap (keep p) (sorted_cons le x xs)
        ∙ (keep-insort_yes x (sorted le xs) h (sorted-Ascending le total trans xs)
            ∙ (ap (insort le x) (keep-sorted xs)
                ∙ (sym (sorted_cons le x (keep p xs)) ∙ ap (sorted le) (sym (keep_yes p x xs h)))))
    | inr h ↦
        ap (keep p) (sorted_cons le x xs)
        ∙ (keep-insort_no x (sorted le xs) h
            ∙ (keep-sorted xs ∙ ap (sorted le) (sym (keep_no p x xs h))))
  ]
