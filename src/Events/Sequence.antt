-- ===== src/Events/Sequence.antt =====
-- What `SequenceAllocator` promises: numbers without a gap for each run, and runs kept apart.
use taskflow_meter.Prelude.{
  ℕ, suc, ◌+◌, ◌<◌, String, List, [], ◌∷◌, ◌++◌, length, ◌≡◌, refl, ◌≢◌, max, arith, eq_iff,
}
use native.Mathlib.Nat.{add-zero, add-suc, suc-add}
use taskflow_meter.Prelude.Dict
use taskflow_meter.Prelude.Dict.{get-set, get-remove, Distinct}
use taskflow_meter.Events.{Event, Allocator, peek, allocate, resume_from, forget}

pub peek-set :
    (j run_id : String) (n : ℕ) (c : Allocator)
    → j ≢ run_id
    → peek j (Dict.set run_id n c) ≡ peek j c
unfolding peek
peek-set j run_id n c h = ground (arith, get-set j run_id n c, eq_iff j run_id)

pub peek-set_self :
    (run_id : String) (n : ℕ) (c : Allocator) → peek run_id (Dict.set run_id n c) ≡ n
unfolding peek
peek-set_self run_id n c = ground (arith, get-set run_id run_id n c, eq_iff run_id run_id)

-- The next number is one more than the last, and is the last from then on.
pub allocate_next :
    (run_id : String) (c : Allocator)
    → ((allocate run_id c).0 ≡ peek run_id c + 1)
      × (peek run_id (allocate run_id c).1 ≡ peek run_id c + 1)
unfolding allocate
allocate_next run_id c = (refl, peek-set_self run_id (peek run_id c + 1) c)

pub allocate_apart :
    (j run_id : String) (c : Allocator) → j ≢ run_id → peek j (allocate run_id c).1 ≡ peek j c
unfolding allocate
allocate_apart j run_id c h = peek-set j run_id (peek run_id c + 1) c h

-- After `resume_from` the next number passes every number that is stored and every number that was
-- handed out, and the other runs go on as before.
pub allocate-resume_from :
    (run_id : String) (seq : ℕ) (c : Allocator)
    → (seq < (allocate run_id (resume_from run_id seq c)).0)
      × (peek run_id c < (allocate run_id (resume_from run_id seq c)).0)
      × ((j : String) → j ≢ run_id → peek j (resume_from run_id seq c) ≡ peek j c)
unfolding allocate resume_from
allocate-resume_from run_id seq c =
    let e = peek-set_self run_id (max (peek run_id c) seq) c in
    (omega arith, omega arith, λ j h. peek-set j run_id (max (peek run_id c) seq) c h)

-- a forgotten run starts again at 1
pub allocate-forget :
    (run_id : String) (c : Allocator)
    → Distinct (Dict.keys c)
    → (allocate run_id (forget run_id c)).0 ≡ 1
unfolding allocate forget peek
allocate-forget run_id c d = ground (arith, get-remove run_id run_id c d, eq_iff run_id run_id)

-- `es` carries the numbers n, n + 1, n + 2 and so on
abbrev pub Consecutive : ℕ → List Event → Type 0
Consecutive n [] = Unit
Consecutive n (e ∷ es) = (e.seq ≡ n) × Consecutive (suc n) es

pub Consecutive-append :
    (n : ℕ) (xs ys : List Event)
    → Consecutive n xs
    → Consecutive (n + length xs) ys
    → Consecutive n (xs ++ ys)
Consecutive-append n [] ys h k = rw add-zero at k
Consecutive-append n (x ∷ xs) ys h k =
    (h.0, Consecutive-append (suc n) xs ys h.1 (rw (add-suc, ← suc-add) at k))
