-- ===== src/Memory/Resume.antt =====
-- `events_since`: a client that resumes from the last number it saw.
use taskflow_meter.Prelude.{
  ℕ, zero, suc, ◌+◌, ◌-◌, ◌≤◌, ◌<◌, List, [], ◌∷◌, ◌≡◌, ◌≢◌, refl, ap, ◌∙◌, subst, Option, some,
  String, arith, true, false, length, take, drop, drop-drop, length-drop, kept, All, All_map,
}
use native.Mathlib.Nat.{add-zero, add-suc, suc-add}
use taskflow_meter.Prelude.Dict
use taskflow_meter.Prelude.Sort.{sorted, sorted-Ascending, sorted_of_Ascending, Ascending}
use taskflow_meter.Events.{Event}
use taskflow_meter.Events.Sequence.{Consecutive}
use taskflow_meter.Fold.{contiguous_from}
use taskflow_meter.Fold.Contiguous.{
  by_seq, Selects, contiguous_from-Selects, Consecutive-Ascending, contiguous_from_slice,
}
use taskflow_meter.DataSource.{ok, EventPage, expected_seq, is_truncated, event_page, last_seq}
use taskflow_meter.Memory.{Run, Memory, run_page, events_since, first_seq}
use taskflow_meter.Memory.History.{history}

pub Consecutive-drop :
    (n k : ℕ) (es : List Event) → Consecutive n es → Consecutive (n + k) (drop k es)
Consecutive-drop n zero es h = rw add-zero h
Consecutive-drop n (suc k) [] h = tt
Consecutive-drop n (suc k) (e ∷ es) h = rw (add-suc, ← suc-add) (Consecutive-drop (suc n) k es h.1)

pub last_seq-Consecutive :
    (since : ℕ) (es : List Event)
    → Consecutive (suc since) es
    → last_seq since es ≡ since + length es
last_seq-Consecutive since [] h = omega arith
last_seq-Consecutive since (e ∷ []) h = omega arith
last_seq-Consecutive since (e ∷ x ∷ es) h =
    ground (arith, last_seq-Consecutive (suc since) (x ∷ es) h.1)

-- the order of a sorted history
pub stored-Ascending : (events : List Event) → Ascending by_seq (sorted by_seq events)
stored-Ascending = sorted-Ascending by_seq (λ a b. ground arith) (λ a b c p q. ground arith)

-- What every page promises, over whatever history: it selects from what is stored, from the number
-- that the client expects or, where that is gone, from the lowest that is stored; it is marked as
-- truncated just where all that is stored lies beyond the expected number; and unless it is
-- truncated, the number to ask from next is that of the last event served.
pub record Serves (stored : List Event) (since limit : ℕ) (page : EventPage) : Type 0 where
  pub oldest : page.oldest_seq ≡ first_seq stored
  pub selects : Selects stored (expected_seq page.oldest_seq since) limit page.events
  pub hole : page.truncated ≡ true → All (λ e. since + 1 < e.seq) stored × (stored ≢ [])
  pub no_hole :
      page.truncated ≡ false
      → (expected_seq page.oldest_seq since ≡ since + 1)
        × (page.next_seq ≡ since + length page.events)

pub first_below :
    (stored : List Event) (n : ℕ)
    → Ascending by_seq stored
    → is_truncated (first_seq stored) n ≡ true
    → All (λ e. n + 1 < e.seq) stored × (stored ≢ [])
unfolding is_truncated
first_below [] n h t = absurd (ground arith)
first_below (e ∷ es) n h t =
    ((ground arith, All_map (λ x p. ground arith) es h.0), λ q. absurd (ground arith))

pub not_truncated :
    (oldest : Option ℕ) (since : ℕ)
    → is_truncated oldest since ≡ false
    → expected_seq oldest since ≡ since + 1
unfolding is_truncated expected_seq
not_truncated oldest since h = ground arith

-- Over whatever history, with duplicates and gaps, a page at a limit of at least 1 selects an
-- unbroken run of numbers from what is stored, is marked as truncated only where all that is
-- stored lies beyond the expected number, and otherwise moves the client on by what it was served.
pub run_page-Serves :
    (events : List Event) (since limit : ℕ)
    → 1 ≤ limit
    → Serves (sorted by_seq events) since limit (run_page events since limit)
unfolding run_page event_page
run_page-Serves events since limit h =
    let stored = sorted by_seq events in
    let start = expected_seq (first_seq stored) since in
    let selects = contiguous_from-Selects stored start limit h (stored-Ascending events) in
    record {
      oldest = refl;
      selects = selects;
      hole = first_below stored since (stored-Ascending events);
      no_hole = λ t.
          let e = not_truncated (first_seq stored) since t in
          (
            e,
            last_seq-Consecutive since (contiguous_from stored start limit) (
                subst (λ n. Consecutive n (contiguous_from stored start limit)) (e ∙ omega arith)
                  selects.consecutive),
          );
    }

start_seen :
    (n : ℕ) (es : List Event) (since skip : ℕ)
    → Consecutive n es
    → since + 1 ≡ n + skip
    → (expected_seq (first_seq es) since ≡ n + skip) × (is_truncated (first_seq es) since ≡ false)
unfolding expected_seq is_truncated
start_seen n [] since skip c k = (k, refl)
start_seen n (e ∷ es) since skip c k = ground arith

start_missed :
    (n : ℕ) (es : List Event) (since : ℕ)
    → Consecutive n es
    → since + 1 < n
    → es ≢ []
    → (expected_seq (first_seq es) since ≡ n + 0) × (is_truncated (first_seq es) since ≡ true)
unfolding expected_seq is_truncated
start_missed n [] since c k q = absurd (q refl)
start_missed n (e ∷ es) since c k q = ground arith

-- a history without a gap: what is served of it
module _ (n : ℕ) (es : List Event) (chain : Consecutive n es) where
  stored_as_is : sorted by_seq es ≡ es
  stored_as_is = sorted_of_Ascending by_seq es (Consecutive-Ascending n es chain)

  -- the client has seen some of it, or stands just before it
  pub page_seen :
      (since skip limit : ℕ)
      → 1 ≤ limit
      → since + 1 ≡ n + skip
      → (run_page es since limit).events ≡ take limit (drop skip es)
        × ((run_page es since limit).truncated ≡ false)
  unfolding run_page event_page
  page_seen since skip limit h k =
      let s = start_seen n es since skip chain k in
      rw (stored_as_is, s.0) (contiguous_from_slice n es skip limit h chain, s.1)

  -- the client has missed the beginning
  page_missed :
      (since limit : ℕ)
      → 1 ≤ limit
      → since + 1 < n
      → es ≢ []
      → ((run_page es since limit).events ≡ take limit es)
        × ((run_page es since limit).truncated ≡ true)
  unfolding run_page event_page
  page_missed since limit h k q =
      let s = start_missed n es since chain k q in
      rw (stored_as_is, s.0) (contiguous_from_slice n es 0 limit h chain, s.1)

-- For a run whose events came numbered from 1 with no gap, in a store that keeps some of the last
-- of them, asked for at least one event: a client whose next event is still kept is served exactly
-- the next events up to the limit, with no gap reported, and a client whose next event has been
-- dropped, where any is kept, is told so and served the oldest that are kept.
pub events_since_stream :
    (m : Memory) (r : String) (xs : List Event) (keep since limit : ℕ) (run : Run)
    → Dict.get r m.runs ≡ some run
    → history r m ≡ kept keep xs
    → Consecutive 1 xs
    → 1 ≤ limit
    → (page : EventPage) × (events_since m r since limit ≡ ok page)
      × (length xs - keep ≤ since
          → (page.events ≡ take limit (drop since xs)) × (page.truncated ≡ false))
      × (since < length xs - keep
          → 1 ≤ keep
          → (page.events ≡ take limit (kept keep xs)) × (page.truncated ≡ true))
unfolding events_since history
events_since_stream m r xs keep since limit run g k chain h =
    let gone : ℕ = length xs - keep in
    let events : run.events ≡ drop gone xs = ground arith in
    let left = Consecutive-drop 1 gone xs chain in
    (
      run_page run.events since limit,
      ground arith,
      λ seen.
          let s =
            page_seen (1 + gone) (drop gone xs) left since (since - gone) limit h (omega arith) in
          let e : gone + (since - gone) ≡ since = omega arith in
          rw events (
            s.0
                ∙ (ap (take limit) (drop-drop (since - gone) gone xs)
                    ∙ ap (λ n. take limit (drop n xs)) e),
            s.1,
          ),
      λ missed some_kept.
          let s =
            page_missed (1 + gone) (drop gone xs) left since limit h (omega arith)
              (λ q. absurd (omega (arith, ap length q, length-drop gone xs))) in
          rw events s,
    )
