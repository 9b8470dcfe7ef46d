-- ===== src/Collect/Sorted.antt =====
-- Sorting events by their numbers, where no two have the same: the order of arrival does not matter.
use mathlib.Core.List.{Permᴰ}
use taskflow_meter.Prelude.{
  ℕ, suc, ◌<◌, List, [], ◌∷◌, ◌≡◌, refl, ◌≢◌, ap, subst, sym, ◌∙◌, arith, All, length,
}
use taskflow_meter.Prelude.Sort.{insort, sorted}
use taskflow_meter.Events.{Event}
use taskflow_meter.Events.Sequence.{Consecutive}
use taskflow_meter.Fold.Contiguous.{by_seq}

abbrev pub Apart : List Event → Type 0
Apart [] = Unit
Apart (x ∷ xs) = All (λ y. x.seq ≢ y.seq) xs × Apart xs

insort-insort :
    (x y : Event) (zs : List Event)
    → x.seq ≢ y.seq
    → insort by_seq x (insort by_seq y zs) ≡ insort by_seq y (insort by_seq x zs)
unfolding insort
insort-insort x y [] h = ground arith
insort-insort x y (z ∷ zs) h = ground (arith, insort-insort x y zs h)

pub All-Perm {κ} : (P : Event → Type κ) {xs ys : List Event} → Permᴰ xs ys → All P xs → All P ys
All-Perm P Permᴰ.nil h = tt
All-Perm P (Permᴰ.cons e p) h = (subst P e h.0, All-Perm P p h.1)
All-Perm P (Permᴰ.swap e k) h = (subst P k h.1.0, (subst P e h.0, h.1.1))
All-Perm P (Permᴰ.trans p q) h = All-Perm P q (All-Perm P p h)

pub length-Perm : {xs ys : List Event} → Permᴰ xs ys → length xs ≡ length ys
length-Perm Permᴰ.nil = refl
length-Perm (Permᴰ.cons e p) = ap suc (length-Perm p)
length-Perm (Permᴰ.swap e k) = refl
length-Perm (Permᴰ.trans p q) = length-Perm p ∙ length-Perm q

pub sorted-Perm :
    {xs ys : List Event} → Permᴰ xs ys → Apart xs → Apart ys × (sorted by_seq xs ≡ sorted by_seq ys)
unfolding sorted
sorted-Perm Permᴰ.nil h = (tt, refl)
sorted-Perm (Permᴰ.cons {a = a} {b = b} {l₁ = xs} {l₂ = ys} e p) h =
    let s = sorted-Perm p h.1 in
    (
      (subst (λ c. All (λ y. c.seq ≢ y.seq) ys) e (All-Perm (λ y. a.seq ≢ y.seq) p h.0), s.0),
      ap (insort by_seq a) s.1 ∙ ap (λ c. insort by_seq c (sorted by_seq ys)) e,
    )
sorted-Perm (Permᴰ.swap {a = a} {b = b} {b' = b'} {l = xs} e k) h =
    let swapped : Apart (b ∷ a ∷ xs) = ((λ q. h.0.0 (sym q), h.1.0), (h.0.1, h.1.1)) in
    (
      subst (λ c. Apart (c ∷ b' ∷ xs)) k (subst (λ c. Apart (b ∷ c ∷ xs)) e swapped),
      insort-insort a b (sorted by_seq xs) h.0.0
          ∙ subst
              (λ c.
                insort by_seq b (insort by_seq a (sorted by_seq xs))
                ≡ insort by_seq c (insort by_seq b' (sorted by_seq xs)))
              k (ap (λ c. insort by_seq b (insort by_seq c (sorted by_seq xs))) e),
    )
sorted-Perm (Permᴰ.trans p q) h =
    let s = sorted-Perm p h in let t = sorted-Perm q s.0 in (t.0, s.1 ∙ t.1)

Consecutive-beyond :
    (m n : ℕ) (xs : List Event) → m < n → Consecutive n xs → All (λ y. m ≢ y.seq) xs
Consecutive-beyond m n [] l h = tt
Consecutive-beyond m n (x ∷ xs) l h =
    (λ q. absurd (omega (arith, q, h.0)), Consecutive-beyond m (suc n) xs (omega arith) h.1)

pub Consecutive-Apart : (n : ℕ) (xs : List Event) → Consecutive n xs → Apart xs
Consecutive-Apart n [] h = tt
Consecutive-Apart n (x ∷ xs) h =
    (Consecutive-beyond x.seq (suc n) xs (omega (arith, h.0)) h.1, Consecutive-Apart (suc n) xs h.1)
