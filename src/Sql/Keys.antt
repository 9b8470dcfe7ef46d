-- ===== src/Sql/Keys.antt =====
-- What the tables hold, and the events of a run in the order of their numbers.
use taskflow_meter.Prelude.{
  ℕ, zero, suc, ◌+◌, ◌-◌, ◌≤◌, ◌<◌, Bool, true, false, ◌&&◌, Option, none, some, List, [], ◌∷◌,
  String, ◌≡◌, ◌≢◌, refl, ap, sym, ◌∙◌, arith, str_eq, eq_iff, ltb, ◌==◌, All, All_map, take, map,
  min, Bool-cases, inl, inr, ℕ_discrete,
}
use taskflow_meter.Prelude.Dict
use taskflow_meter.Prelude.Dict.{Distinct}
use taskflow_meter.Prelude.Sort.{insort, sorted, Ascending, All-sorted, All-insort}
use taskflow_meter.Prelude.Select.{keep, keep_yes, keep_no, All-keep, sorted_cons}
use taskflow_meter.Events.{Event}
use taskflow_meter.Fold.{contiguous_loop}
use taskflow_meter.Fold.Contiguous.{by_seq, loop_gap, loop_full, loop_more}
use taskflow_meter.DataSource.{expected_seq}
use taskflow_meter.Memory.{first_seq}
use taskflow_meter.Memory.Resume.{stored-Ascending}
use taskflow_meter.Sql.Rows.{FlowRow, event_row}
use taskflow_meter.Sql.Statements.{Engine, lowest}

-- the events of one run
abbrev pub is_of : String → Event → Bool
is_of run_id x = str_eq x.run_id run_id

abbrev pub own : String → List Event → List Event
own run_id = keep (is_of run_id)

-- the primary key
abbrev pub same_event : Event → Event → Bool
same_event x y = str_eq y.run_id x.run_id && x.seq == y.seq

abbrev pub DistinctKeys : List Event → Type 0
DistinctKeys [] = Unit
DistinctKeys (x ∷ xs) = All (λ y. same_event x y ≡ false) xs × DistinctKeys xs

-- The table of events holds these, each key once; the table of flows holds each key once, and each
-- row stands under its own.
pub record Holds (e : Engine) (db : e.DB) (es : List Event) : Type 0 where
  pub rows : e.event_rows db ≡ map event_row es
  pub unique : DistinctKeys es
  pub keyed : (k : String) (row : FlowRow) → Dict.get k (e.flow_rows db) ≡ some row → row.run_id ≡ k
  pub distinct : Distinct (Dict.keys (e.flow_rows db))

abbrev pub DistinctSeqs : List Event → Type 0
DistinctSeqs [] = Unit
DistinctSeqs (x ∷ xs) = All (λ y. y.seq ≢ x.seq) xs × DistinctSeqs xs

-- numbers that rise from `n` on
abbrev Rising : ℕ → List Event → Type 0
Rising n [] = Unit
Rising n (x ∷ xs) = (n ≤ x.seq) × Rising (suc x.seq) xs

own-Distinct_all :
    (r : String) (x : Event) (xs : List Event)
    → str_eq x.run_id r ≡ true
    → All (λ y. same_event x y ≡ false) xs
    → All (λ y. y.seq ≢ x.seq) (own r xs)
own-Distinct_all r x [] h k = unfold keep in tt
own-Distinct_all r x (y ∷ ys) h k = elim (Bool-cases (is_of r y)) [
  | inl p ↦ rw (keep_yes (is_of r) y ys p) (
    ground (arith, k.0, eq_iff x.run_id r, eq_iff y.run_id r, eq_iff y.run_id x.run_id),
    own-Distinct_all r x ys h k.1,
  )
  | inr p ↦ rw (keep_no (is_of r) y ys p) (own-Distinct_all r x ys h k.1)
]

pub own-DistinctSeqs : (r : String) (xs : List Event) → DistinctKeys xs → DistinctSeqs (own r xs)
own-DistinctSeqs r [] h = unfold keep in tt
own-DistinctSeqs r (x ∷ xs) h = elim (Bool-cases (is_of r x)) [
  | inl p ↦
      rw (keep_yes (is_of r) x xs p) (own-Distinct_all r x xs p h.0, own-DistinctSeqs r xs h.1)
  | inr p ↦ rw (keep_no (is_of r) x xs p) (own-DistinctSeqs r xs h.1)
]

insort-DistinctSeqs :
    (x : Event) (xs : List Event)
    → All (λ y. y.seq ≢ x.seq) xs
    → DistinctSeqs xs
    → DistinctSeqs (insort by_seq x xs)
unfolding insort
insort-DistinctSeqs x [] h d = (tt, tt)
insort-DistinctSeqs x (y ∷ ys) h d = elim (Bool-cases (by_seq x y)) [
  | inl e ↦ rw e (h, d)
  | inr e ↦ rw e (
    All-insort by_seq (λ z. z.seq ≢ y.seq) x ys (λ q. h.0 (sym q)) d.0,
    insort-DistinctSeqs x ys h.1 d.1,
  )
]

pub sorted-DistinctSeqs : (xs : List Event) → DistinctSeqs xs → DistinctSeqs (sorted by_seq xs)
unfolding sorted
sorted-DistinctSeqs [] h = tt
sorted-DistinctSeqs (x ∷ xs) h =
    insort-DistinctSeqs x (sorted by_seq xs) (All-sorted by_seq (λ y. y.seq ≢ x.seq) xs h.0)
      (sorted-DistinctSeqs xs h.1)

pub Rising-of_sorted :
    (n : ℕ) (xs : List Event)
    → Ascending by_seq xs
    → DistinctSeqs xs
    → All (λ x. n ≤ x.seq) xs
    → Rising n xs
Rising-of_sorted n [] h d l = tt
Rising-of_sorted n (x ∷ xs) h d l = (l.0, Rising-of_sorted (suc x.seq) xs h.1 d.1 (both xs h.0 d.0))
  where
    both :
        (ys : List Event)
        → All (λ y. by_seq x y ≡ true) ys
        → All (λ y. y.seq ≢ x.seq) ys
        → All (λ y. suc x.seq ≤ y.seq) ys
    both [] p q = tt
    both (y ∷ ys) p q = (ground (arith, p.0, q.0), both ys p.1 q.1)

-- the events at or before `since` are passed over in any case
pub loop-after :
    (since room : ℕ) (xs : List Event) (n : ℕ)
    → since < n
    → contiguous_loop room (keep (λ x. ltb since x.seq) xs) n ≡ contiguous_loop room xs n
unfolding contiguous_loop keep
loop-after since room [] n h = refl
loop-after since room (x ∷ xs) n h =
    ground (arith, loop-after since room xs n h, loop-after since (room - 1) xs (n + 1))

-- past the limit nothing is read
pub loop-take :
    (room : ℕ) (xs : List Event) (n : ℕ)
    → 1 ≤ room
    → Rising n xs
    → contiguous_loop room (take room xs) n ≡ contiguous_loop room xs n
loop-take zero xs n h r = absurd (omega arith)
loop-take (suc k) [] n h r = refl
loop-take (suc zero) (x ∷ xs) n h r = elim (ℕ_discrete x.seq n) [
  | yes e ↦ loop_full 1 n x [] e (omega arith) ∙ sym (loop_full 1 n x xs e (omega arith))
  | no e ↦
      loop_gap 1 n x [] (omega (arith, r.0, e)) ∙ sym (loop_gap 1 n x xs (omega (arith, r.0, e)))
]
loop-take (suc (suc k)) (x ∷ xs) n h r = elim (ℕ_discrete x.seq n) [
  | yes e ↦
      let next : n + 1 ≡ suc x.seq = omega (arith, e) in
      let room : suc (suc k) - 1 ≡ suc k = omega arith in
      loop_more (suc (suc k)) n x (take (suc k) xs) e (omega arith)
      ∙ (rw (room, next) (ap (◌∷◌ x) (loop-take (suc k) xs (suc x.seq) (omega arith) r.1))
          ∙ sym (loop_more (suc (suc k)) n x xs e (omega arith)))
  | no e ↦
      loop_gap (suc (suc k)) n x (take (suc k) xs) (omega (arith, r.0, e))
      ∙ sym (loop_gap (suc (suc k)) n x xs (omega (arith, r.0, e)))
]

lowest-insort :
    (x : Event) (xs : List Event)
    → Ascending by_seq xs
    → first_seq (insort by_seq x xs)
      ≡ elim (first_seq xs) as (λ _. Option ℕ) [ none ↦ some x.seq | some n ↦ some (min x.seq n) ]
unfolding insort
lowest-insort x [] h = refl
lowest-insort x (y ∷ ys) h = ground arith

abbrev smaller : ℕ → Option ℕ → Option ℕ
smaller n o = elim o [ none ↦ some n | some m ↦ some (min n m) ]

lowest-cons :
    (x : Event) (xs : List Event)
    → lowest (map event_row (x ∷ xs)) ≡ smaller x.seq (lowest (map event_row xs))
unfolding lowest event_row
lowest-cons x xs = refl

pub lowest-sorted : (xs : List Event) → lowest (map event_row xs) ≡ first_seq (sorted by_seq xs)
lowest-sorted [] = unfold lowest sorted in refl
lowest-sorted (x ∷ xs) =
    lowest-cons x xs
    ∙ (ap (smaller x.seq) (lowest-sorted xs)
        ∙ (sym (lowest-insort x (sorted by_seq xs) (stored-Ascending xs))
            ∙ ap first_seq (sym (sorted_cons by_seq x xs))))

pub keep-and :
    (r : String) (since : ℕ) (xs : List Event)
    → keep (λ x. is_of r x && ltb since x.seq) xs ≡ keep (λ x. ltb since x.seq) (own r xs)
unfolding keep
keep-and r since [] = refl
keep-and r since (x ∷ xs) = ground (arith, keep-and r since xs)

-- the number from which the selection starts
pub after_since : (oldest : Option ℕ) (since : ℕ) → since < expected_seq oldest since
unfolding expected_seq
after_since none since = omega arith
after_since (some n) since = ground arith

pub above :
    (since : ℕ) (xs : List Event)
    → Ascending by_seq xs
    → All (λ x. expected_seq (first_seq xs) since ≤ x.seq) (keep (λ x. ltb since x.seq) xs)
unfolding expected_seq
above since [] h = unfold keep in tt
above since (x ∷ xs) h = elim (Bool-cases (ltb (since + 1) x.seq)) [
  | inl late ↦ rw late (
      All-keep (λ z. ltb since z.seq) (λ z. x.seq ≤ z.seq) (x ∷ xs)
        (omega arith, All_map (λ z q. ground (arith, q)) xs h.0))
  | inr early ↦ rw early (kept_above (x ∷ xs))
]
  where
    kept_above : (ys : List Event) → All (λ z. since + 1 ≤ z.seq) (keep (λ z. ltb since z.seq) ys)
    kept_above [] = unfold keep in tt
    kept_above (y ∷ ys) = elim (Bool-cases (ltb since y.seq)) [
      | inl q ↦ rw (keep_yes (λ z. ltb since z.seq) y ys q) (ground (arith, q), kept_above ys)
      | inr q ↦ rw (keep_no (λ z. ltb since z.seq) y ys q) (kept_above ys)
    ]
