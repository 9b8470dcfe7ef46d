-- ===== src/Poller/Paging.antt =====
-- `_read_all` over a listing that does not change while its pages are read.
use taskflow_meter.Prelude.{
  ℕ, zero, suc, ◌+◌, ◌≤◌, ◌<◌, List, ◌++◌, String, ◌≡◌, refl, ap, ◌∙◌, Option, none, some, true,
  false, arith, take, drop, last, length, take_all, take-join, Bool-cases, inl, inr, ltb,
}
use taskflow_meter.Prelude.Dict.{Distinct}
use taskflow_meter.Prelude.Sort.{sorted, length-sorted}
use taskflow_meter.Models.{FlowSnapshot}
use taskflow_meter.DataSource.{
  ok, FlowPage, start_of, page_at, page_of, run_id_of, run_ids, newest_first,
}
use taskflow_meter.DataSource.Order.{listing-Distinct}
use taskflow_meter.DataSource.Windows.{nth, nth_within, last-window, start_of-nth}
use taskflow_meter.Poller.{Source, read_pages, read_all}

module _ (source : Source) (size fuel : ℕ) (marker : Option String) (flows : List FlowSnapshot)
    (page : FlowPage) where
  read_pages-last :
      source size marker ≡ ok page
      → page.next_marker ≡ none
      → read_pages source size (suc fuel) marker flows ≡ some (ok (flows ++ page.items))
  unfolding read_pages
  read_pages-last h k = ground arith

  read_pages-more :
      (m : String)
      → source size marker ≡ ok page
      → page.next_marker ≡ some m
      → read_pages source size (suc fuel) marker flows
        ≡ read_pages source size fuel (some m) (flows ++ page.items)
  unfolding read_pages
  read_pages-more m h k = ground arith

pub page_of-start :
    (flows : List FlowSnapshot) (limit start : ℕ) (marker : Option String)
    → start_of marker (sorted newest_first flows) ≡ ok start
    → page_of flows limit marker ≡ ok (page_at (sorted newest_first flows) limit start)
unfolding page_of
page_of-start flows limit start marker h = ground arith

-- the marker of a page that is not the last
marker_more :
    (fs : List FlowSnapshot) (start k : ℕ) (g : FlowSnapshot)
    → start + suc k < length fs
    → nth (start + k) fs ≡ some g
    → (page_at fs (suc k) start).next_marker ≡ some g.run_id
unfolding page_at
marker_more fs start k g h e =
    let m : run_id_of (last (take (suc k) (drop start fs))) ≡ some g.run_id =
      ap run_id_of (last-window start k fs (omega arith) ∙ e) in
    let more : ltb (start + suc k) (length fs) ≡ true = ground arith in rw (more, m) refl

marker_last :
    (fs : List FlowSnapshot) (start limit : ℕ)
    → length fs ≤ start + limit
    → (page_at fs limit start).next_marker ≡ none
unfolding page_at
marker_last fs start limit h =
    let more : ltb (start + limit) (length fs) ≡ false = ground arith in rw more refl

-- a source that answers from `flows` at any limit of at least 1 and at each marker of its listing
module _ (source : Source) (flows : List FlowSnapshot) (distinct : Distinct (run_ids flows))
    (reads : (k start : ℕ) (marker : Option String)
      → start_of marker (sorted newest_first flows) ≡ ok start
      → source (suc k) marker ≡ ok (page_at (sorted newest_first flows) (suc k) start)) where
  abbrev listing : List FlowSnapshot
  listing = sorted newest_first flows

  read_from :
      (k fuel start : ℕ) (marker : Option String)
      → start_of marker listing ≡ ok start
      → start ≤ length listing
      → length listing < fuel + start
      → read_pages source (suc k) fuel marker (take start listing) ≡ some (ok listing)
  unfolding page_at
  read_from k zero start marker h b l = absurd (omega arith)
  read_from k (suc fuel) start marker h b l =
      let page = reads k start marker h in
      elim (Bool-cases (ltb (start + suc k) (length listing))) [
        | inl e ↦
            let found = nth_within (start + k) listing (ground arith) in
            let next : start + k + 1 ≡ start + suc k = omega arith in
            read_pages-more source (suc k) fuel marker (take start listing)
              (page_at listing (suc k) start) found.0.run_id page
              (marker_more listing start k found.0 (ground arith) found.1)
            ∙ (ap (read_pages source (suc k) fuel (some found.0.run_id))
                  (take-join start (suc k) listing)
                ∙ read_from k fuel (start + suc k) (some found.0.run_id)
                    (start_of-nth (start + k) listing found.0 (listing-Distinct flows distinct)
                        found.1
                      ∙ ap ok next)
                    (ground arith) (omega arith))
        | inr e ↦
            read_pages-last source (suc k) fuel marker (take start listing)
              (page_at listing (suc k) start) page
              (marker_last listing start (suc k) (ground arith))
            ∙ ap (λ fs. some (ok fs))
                (take-join start (suc k) listing ∙ take_all (start + suc k) listing (ground arith))
      ]

  -- Reading page after page gives the whole listing, at any page size of at least 1.
  pub read_all-page_of :
      (page_size : ℕ)
      → 1 ≤ page_size
      → read_all source page_size (suc (length flows)) ≡ some (ok listing)
  unfolding read_all
  read_all-page_of zero h = absurd (omega arith)
  read_all-page_of (suc k) h =
      read_from k (suc (length flows)) 0 none (unfold start_of in refl) (omega arith)
        (omega (arith, length-sorted newest_first flows))
