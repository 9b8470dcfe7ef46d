-- ===== src/Prelude/Slices.antt =====
-- Slices of slices.
use Prim.Native.Nat.{ℕ, zero, suc, ◌+◌, ◌-◌, min}
use mathlib.Core.Path.{◌≡◌, ap, sym, ◌∙◌}
use mathlib.Core.List.{List, [], ◌∷◌, ◌++◌}
use native.Mathlib.Omega.{arith}
use taskflow_meter.Prelude.Lists.{take, drop, take-nil}

module _ {ℓ} {A : Type ℓ} where
  pub take-take : (a b : ℕ) (xs : List A) → take a (take b xs) ≡ take (min a b) xs
  take-take a b [] = ap (take a) (take-nil b) ∙ (take-nil a ∙ sym (take-nil (min a b)))
  take-take zero b (x ∷ xs) = let e : min 0 b ≡ 0 = omega arith in ap (λ n. take n (x ∷ xs)) (sym e)
  take-take (suc a) zero (x ∷ xs) =
      let e : min (suc a) 0 ≡ 0 = omega arith in ap (λ n. take n (x ∷ xs)) (sym e)
  take-take (suc a) (suc b) (x ∷ xs) =
      let e : min (suc a) (suc b) ≡ suc (min a b) = omega arith in
      ap (◌∷◌ x) (take-take a b xs) ∙ ap (λ n. take n (x ∷ xs)) (sym e)

  pub drop-take : (s k : ℕ) (xs : List A) → drop s (take k xs) ≡ take (k - s) (drop s xs)
  drop-take zero k xs = let e : k ≡ k - 0 = omega arith in ap (λ n. take n xs) e
  drop-take (suc s) k [] = ap (drop (suc s)) (take-nil k) ∙ sym (take-nil (k - suc s))
  drop-take (suc s) zero (x ∷ xs) =
      let e : 0 - suc s ≡ 0 = omega arith in ap (λ n. take n (drop s xs)) (sym e)
  drop-take (suc s) (suc k) (x ∷ xs) =
      let e : suc k - suc s ≡ k - s = omega arith in
      drop-take s k xs ∙ ap (λ n. take n (drop s xs)) (sym e)

  pub take-join : (a b : ℕ) (xs : List A) → take a xs ++ take b (drop a xs) ≡ take (a + b) xs
  take-join zero b xs = let e : b ≡ 0 + b = omega arith in ap (λ n. take n xs) e
  take-join (suc a) b [] = take-nil b ∙ sym (take-nil (suc a + b))
  take-join (suc a) b (x ∷ xs) =
      let e : suc a + b ≡ suc (a + b) = omega arith in
      ap (◌∷◌ x) (take-join a b xs) ∙ ap (λ n. take n (x ∷ xs)) (sym e)
