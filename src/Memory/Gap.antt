-- ===== src/Memory/Gap.antt =====
-- `events_since` over a history with a hole that nothing will fill.
use taskflow_meter.Prelude.{
  ℕ, ◌+◌, ◌≤◌, ◌<◌, Bool-cases, inl, inr, List, [], ◌∷◌, ◌++◌, ◌≡◌, ◌≢◌, refl, arith, All, false,
}
use taskflow_meter.Prelude.Sort.{sorted, All-sorted, All-sorted_inv}
use taskflow_meter.Events.{Event}
use taskflow_meter.Fold.{contiguous_loop, contiguous_from}
use taskflow_meter.Fold.Contiguous.{by_seq}
use taskflow_meter.DataSource.{is_truncated, event_page}
use taskflow_meter.Memory.{run_page, first_seq}
use taskflow_meter.Memory.Resume.{stored-Ascending, first_below, not_truncated}

loop_none :
    (room : ℕ) (es : List Event) (expected : ℕ)
    → All (λ e. e.seq ≢ expected) es
    → contiguous_loop room es expected ≡ []
unfolding contiguous_loop
loop_none room [] expected h = refl
loop_none room (e ∷ es) expected h = ground (arith, loop_none room es expected h.1)

All-middle : (P : Event → Type 0) (xs ys : List Event) (e : Event) → All P (xs ++ e ∷ ys) → P e
All-middle P [] ys e h = h.0
All-middle P (x ∷ xs) ys e h = All-middle P xs ys e h.1

-- with an event stored that the client has seen, there is no gap before what it expects
seen_before :
    (xs ys : List Event) (e : Event) (since : ℕ)
    → e.seq ≤ since
    → is_truncated (first_seq (sorted by_seq (xs ++ e ∷ ys))) since ≡ false
seen_before xs ys e since h =
    let stored = sorted by_seq (xs ++ e ∷ ys) in
    elim (Bool-cases (is_truncated (first_seq stored) since)) [
      | inr k ↦ k
      | inl k ↦
          let beyond = (first_below stored since (stored-Ascending (xs ++ e ∷ ys)) k).0 in
          absurd (
            omega (
              arith,
              h,
              All-middle (λ x. since + 1 < x.seq) xs ys e
                  (All-sorted_inv by_seq (λ x. since + 1 < x.seq) (xs ++ e ∷ ys) beyond),
            ))
    ]

-- Where an event that a client has seen is still stored and the one that it expects next is not,
-- the client is served nothing, is not told of a gap and is sent back to the number it came with,
-- whatever else is stored.
pub run_page-hole :
    (xs ys : List Event) (e : Event) (since limit : ℕ)
    → e.seq ≤ since
    → All (λ x. x.seq ≢ since + 1) (xs ++ e ∷ ys)
    → let page = run_page (xs ++ e ∷ ys) since limit in
      (page.events ≡ []) × (page.truncated ≡ false) × (page.next_seq ≡ since)
unfolding run_page event_page contiguous_from
run_page-hole xs ys e since limit seen hole =
    let stored = sorted by_seq (xs ++ e ∷ ys) in
    let quiet = seen_before xs ys e since seen in
    let expected = not_truncated (first_seq stored) since quiet in
    let nothing =
      loop_none limit stored (since + 1)
        (All-sorted by_seq (λ x. x.seq ≢ since + 1) (xs ++ e ∷ ys) hole) in
    rw (expected, nothing) (refl, quiet, refl)
