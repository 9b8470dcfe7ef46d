-- ===== src/Collect/Overtaken.antt =====
-- An event that is still in flight when later ones of its run have arrived.
use taskflow_meter.Prelude.{
  ℕ, suc, ◌+◌, ◌≤◌, ◌<◌, true, List, [], ◌∷◌, ◌≡◌, refl, ◌≢◌, ◌∙◌, ap, subst, arith, All, Option,
  All_map, length, ltb,
}
use taskflow_meter.Prelude.Sort.{sorted, All-sorted, length-sorted}
use taskflow_meter.Events.{Event}
use taskflow_meter.Events.Sequence.{Consecutive}
use taskflow_meter.Fold.Contiguous.{by_seq, Selects}
use taskflow_meter.DataSource.{EventPage, expected_seq, is_truncated, event_page, last_seq}
use taskflow_meter.Memory.{run_page}
use taskflow_meter.Memory.Resume.{Serves, run_page-Serves}

last_seq-beyond :
    (n since : ℕ) (es : List Event) → Consecutive n es → 1 ≤ length es → n ≤ last_seq since es
last_seq-beyond n since [] h k = absurd (ground arith)
last_seq-beyond n since (e ∷ []) h k = ground (arith, h.0)
last_seq-beyond n since (e ∷ x ∷ es) h k =
    ground (arith, last_seq-beyond (suc n) since (x ∷ es) h.1)

-- a selection that starts at the lowest number is not empty
selected_some :
    (stored es : List Event) (first : Event) (limit : ℕ)
    → 1 ≤ limit
    → Selects (first ∷ stored) first.seq limit es
    → 1 ≤ length es
selected_some stored [] first limit h s = absurd ((s.complete (omega arith)).0 (omega arith))
selected_some stored (e ∷ es) first limit h s = omega arith

All-Consecutive : (m n : ℕ) (es : List Event) → m < n → Consecutive n es → All (λ e. m < e.seq) es
All-Consecutive m n [] l h = tt
All-Consecutive m n (e ∷ es) l h =
    (omega (arith, h.0), All-Consecutive m (suc n) es (omega arith) h.1)

expected-later : (oldest : Option ℕ) (since : ℕ) → since < expected_seq oldest since
unfolding expected_seq
expected-later oldest since = ground arith

-- a page never holds what the client has passed
served-later :
    (events : List Event) (since limit : ℕ)
    → 1 ≤ limit
    → All (λ e. since < e.seq) (run_page events since limit).events
served-later events since limit h =
    let s = run_page-Serves events since limit h in
    All-Consecutive since _ (run_page events since limit).events
      (omega (arith, expected-later (run_page events since limit).oldest_seq since))
      s.selects.consecutive

-- the lowest number is beyond the expected one, so the page starts there
page_beyond :
    (stored : List Event) (since limit : ℕ) (page : EventPage)
    → 1 ≤ limit
    → 1 ≤ length stored
    → All (λ e. since + 1 < e.seq) stored
    → Serves stored since limit page
    → (is_truncated page.oldest_seq since ≡ true) × (since + 1 < last_seq since page.events)
unfolding is_truncated expected_seq
page_beyond [] since limit page h k beyond s = absurd (ground arith)
page_beyond (first ∷ stored) since limit page h k beyond s =
    let far : ltb (since + 1) first.seq ≡ true = ground (arith, beyond.0) in
    let start : expected_seq page.oldest_seq since ≡ first.seq =
      ap (λ o. expected_seq o since) s.oldest ∙ rw far refl in
    let selects = subst (λ n. Selects (first ∷ stored) n limit page.events) start s.selects in
    let next =
      last_seq-beyond first.seq since page.events selects.consecutive
        (selected_some stored page.events first limit h selects) in
    (ap (λ o. is_truncated o since) s.oldest ∙ far, omega (arith, next, beyond.0))

some_length : (es : List Event) → es ≢ [] → 1 ≤ length es
some_length [] h = absurd (h refl)
some_length (e ∷ es) h = omega arith

-- A client whose next event is not there yet, when all that is stored of the run lies beyond it,
-- is told of a gap and moved past that event, and no page that it then asks for, whatever has
-- arrived by that time, holds it; where something is stored and the limit is at least 1.
pub run_page-overtaken :
    (events later : List Event) (since limit : ℕ)
    → 1 ≤ limit
    → events ≢ []
    → All (λ e. since + 1 < e.seq) events
    → let page = run_page events since limit in
      (page.truncated ≡ true)
      × (since + 1 < page.next_seq)
      × All (λ e. since + 1 < e.seq) (run_page later page.next_seq limit).events
unfolding run_page event_page
run_page-overtaken events later since limit h some_event beyond =
    let s = run_page-Serves events since limit h in
    let p =
      page_beyond (sorted by_seq events) since limit (run_page events since limit) h
        (rw (length-sorted by_seq events) (some_length events some_event))
        (All-sorted by_seq (λ e. since + 1 < e.seq) events beyond) s in
    (
      p.0,
      p.1,
      All_map (λ e k. omega (arith, p.1))
          (run_page later (run_page events since limit).next_seq limit).events
          (served-later later (run_page events since limit).next_seq limit h),
    )
