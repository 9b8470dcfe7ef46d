-- ===== src/Prelude/Dict.antt =====
-- Python's `dict` with `str` keys: an association list in insertion order. A write to a key that is
-- there keeps its place, and a new key goes to the end.
use Prim.Native.Nat.{suc}
use Prim.Native.String.{String}
use mathlib.Core.Path.{◌≡◌, refl, subst}
use mathlib.Core.Bool.{Bool, false, ◌||◌}
use mathlib.Core.Logic.{inl, inr}
use mathlib.Core.List.{List, [], ◌∷◌}
use mathlib.Core.Option.{Option, none, some}
use native.Mathlib.Omega.{arith}
use text.Mathlib.Text.{◌==◌}
use text.Mathlib.TextEquality.{eq_iff}
use taskflow_meter.Prelude.Tests.{if◌then◌else◌, is_some, Bool-cases}
use taskflow_meter.Prelude.Lists.{length, All}

abbrev pub Dict {ℓ} : Type ℓ → Type ℓ
Dict V = List (String × V)

-- `n in names`, and a list of names that holds none twice
abbrev pub mem : String → List String → Bool
mem n [] = false
mem n (m ∷ ms) = n == m || mem n ms

abbrev pub Distinct : List String → Type 0
Distinct [] = Unit
Distinct (n ∷ ns) = (mem n ns ≡ false) × Distinct ns

module _ {ℓ} {V : Type ℓ} where
  unfoldable pub get : String → Dict V → Option V
  get k [] = none
  get k ((j, v) ∷ d) = if k == j then some v else get k d

  unfoldable pub set : String → V → Dict V → Dict V
  set k v [] = (k, v) ∷ []
  set k v ((j, w) ∷ d) = if k == j then (j, v) ∷ d else (j, w) ∷ set k v d

  -- `d.pop(k, None)`, `del d[k]`
  unfoldable pub remove : String → Dict V → Dict V
  remove k [] = []
  remove k ((j, w) ∷ d) = if k == j then d else (j, w) ∷ remove k d

  abbrev pub keys : Dict V → List String
  keys [] = []
  keys ((k, v) ∷ d) = k ∷ keys d

  abbrev pub values : Dict V → List V
  values [] = []
  values ((k, v) ∷ d) = v ∷ values d

module _ {ℓ} {V : Type ℓ} where
  pub get-set :
      (j k : String) (v : V) (d : Dict V) → get j (set k v d) ≡ (if j == k then some v else get j d)
  unfolding get set
  get-set j k v [] = refl
  get-set j k v ((i, w) ∷ d) = ground (arith, get-set j k v d, eq_iff j k, eq_iff k i, eq_iff j i)

  pub mem-keys : (n : String) (d : Dict V) → mem n (keys d) ≡ is_some (get n d)
  unfolding get
  mem-keys n [] = refl
  mem-keys n ((j, w) ∷ d) = ground (arith, mem-keys n d)

  pub mem-keys-set :
      (n k : String) (v : V) (d : Dict V) → mem n (keys (set k v d)) ≡ (n == k || mem n (keys d))
  unfolding set
  mem-keys-set n k v [] = refl
  mem-keys-set n k v ((j, w) ∷ d) =
      ground (arith, mem-keys-set n k v d, eq_iff n k, eq_iff k j, eq_iff n j)

  pub Distinct-set :
      (k : String) (v : V) (d : Dict V) → Distinct (keys d) → Distinct (keys (set k v d))
  unfolding set
  Distinct-set k v [] h = (refl, tt)
  Distinct-set k v ((j, w) ∷ d) h =
      ground (arith, Distinct-set k v d h.1, mem-keys-set j k v d, eq_iff k j, eq_iff j k)

  pub mem-keys-remove :
      (n k : String) (d : Dict V) → mem n (keys d) ≡ false → mem n (keys (remove k d)) ≡ false
  unfolding remove
  mem-keys-remove n k [] h = refl
  mem-keys-remove n k ((j, w) ∷ d) h = ground (arith, mem-keys-remove n k d)

  pub Distinct-remove : (k : String) (d : Dict V) → Distinct (keys d) → Distinct (keys (remove k d))
  unfolding remove
  Distinct-remove k [] h = tt
  Distinct-remove k ((j, w) ∷ d) h =
      ground (arith, Distinct-remove k d h.1, mem-keys-remove j k d h.0)

  none_of_mem : (k : String) (d : Dict V) → mem k (keys d) ≡ false → get k d ≡ none
  unfolding get
  none_of_mem k [] h = refl
  none_of_mem k ((j, w) ∷ d) h = ground (arith, none_of_mem k d)

  pub get-remove :
      (j k : String) (d : Dict V)
      → Distinct (keys d)
      → get j (remove k d) ≡ (if j == k then none else get j d)
  unfolding get remove
  get-remove j k [] h = ground arith
  get-remove j k ((i, w) ∷ d) h =
      ground (arith, get-remove j k d h.1, none_of_mem j d, eq_iff j k, eq_iff k i, eq_iff j i)

  pub length-set :
      (k : String) (v : V) (d : Dict V)
      → length (set k v d) ≡ (if is_some (get k d) then length d else suc (length d))
  unfolding get set
  length-set k v [] = refl
  length-set k v ((j, w) ∷ d) = ground (arith, length-set k v d)

  pub length-remove :
      (k : String) (d : Dict V)
      → (if is_some (get k d) then suc (length (remove k d)) else length (remove k d)) ≡ length d
  unfolding get remove
  length-remove k [] = refl
  length-remove k ((j, w) ∷ d) = ground (arith, length-remove k d)

  -- what holds of every value in the dictionary
  abbrev pub AllValues {κ} : (String → V → Type κ) → Dict V → Type κ
  AllValues P = All (λ e. P e.0 e.1)

module _ {ℓ κ} {V : Type ℓ} (P : String → V → Type κ) where
  pub AllValues-set :
      (k : String) (v : V) (d : Dict V) → P k v → AllValues P d → AllValues P (set k v d)
  unfolding set
  AllValues-set k v [] p h = (p, tt)
  AllValues-set k v ((j, w) ∷ d) p h = elim (Bool-cases (k == j)) [
    | inl e ↦ rw e (subst (λ i. P i v) ((eq_iff k j).0 e) p, h.1)
    | inr e ↦ rw e (h.0, AllValues-set k v d p h.1)
  ]
