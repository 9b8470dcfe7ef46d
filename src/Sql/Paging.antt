-- ===== src/Sql/Paging.antt =====
-- The pages of the SQL store's listing: the keyset finds the place where the page before ended.
use taskflow_meter.Prelude.{
  ℕ, suc, ◌+◌, ◌≤◌, Bool, true, false, not, ◌&&◌, ◌||◌, Option, none, some, List, [], ◌∷◌, String,
  ◌≡◌, refl, ap, sym, ◌∙◌, subst, arith, ltb, All, map, take, drop, length, length-take,
  length-drop, take-take, min, ◌==◌, le_str,
}
use taskflow_meter.Prelude.Dict
use taskflow_meter.Prelude.Dict.{Dict, Distinct, mem, mem-keys}
use mathlib.Core.Path.{fun_ext}
use taskflow_meter.Prelude.Sort.{sorted, All-sorted}
use taskflow_meter.Prelude.Select.{
  keep, keep_all, All-keep, keep-map, take-map, sorted-map, keep-sorted,
}
use taskflow_meter.States.{State}
use taskflow_meter.Models.{FlowSnapshot}
use taskflow_meter.Events.{Event}
use taskflow_meter.DataSource.{
  ok, matching, has_state, has_book, newest_first, run_ids, start_of, page_at,
}
use taskflow_meter.DataSource.Order.{
  listing-Ascending, newest_first_total, newest_first_trans, listing-Distinct,
}
use taskflow_meter.Memory.Listing.{matching-Distinct}
use taskflow_meter.Poller.{read_all}
use taskflow_meter.Poller.Paging.{read_all-page_of}
use taskflow_meter.Sql.Rows.{FlowRow, flow_from_row}
use taskflow_meter.Sql.Statements.{Engine, Laws, Anchor, anchor_of, in_listing, row_newest_first}
use taskflow_meter.Sql.{listing_page, anchored, list_from, list_flows}
use taskflow_meter.Sql.Keys.{Holds}
use taskflow_meter.Sql.Following.{
  after_flow, nth-All, keep-after, start_of-nth_inv, all_flows, InTable, flows-InTable,
  flows-Distinct, matching-keep, keep-keep,
}

-- the rows of a listing, as flows
abbrev after_anchor : Option Anchor → FlowSnapshot → Bool
after_anchor none f = true
after_anchor (some (observed_at, run_id)) f =
    ltb f.observed_at observed_at
    || (f.observed_at == observed_at && (not (le_str f.run_id run_id)))

pointwise :
    (state : Option State) (book_id : Option String) (anchor : Option Anchor) (r : FlowRow)
    → in_listing state book_id anchor r ≡ (
        (has_state state (flow_from_row r) && has_book book_id (flow_from_row r))
        && after_anchor anchor (flow_from_row r))
unfolding has_state has_book flow_from_row
pointwise none none none r = refl
pointwise none none (some a) r = refl
pointwise none (some b) none r = refl
pointwise none (some b) (some a) r = refl
pointwise (some s) none none r = refl
pointwise (some s) none (some a) r = refl
pointwise (some s) (some b) none r = refl
pointwise (some s) (some b) (some a) r = refl

rows-listing :
    (state : Option State) (book_id : Option String) (anchor : Option Anchor) (rows : List FlowRow)
    → map flow_from_row (sorted row_newest_first (keep (in_listing state book_id anchor) rows))
      ≡ keep
          (after_anchor anchor)
          (sorted newest_first (matching state book_id (map flow_from_row rows)))
rows-listing state book_id anchor rows =
    let p = λ (f : FlowSnapshot). has_state state f && has_book book_id f in
    let s =
      λ (f : FlowSnapshot). (has_state state f && has_book book_id f) && after_anchor anchor f in
    let flows = map flow_from_row rows in
    ap (map flow_from_row) (same_order (keep (in_listing state book_id anchor) rows))
    ∙ (sym (sorted-map flow_from_row newest_first (keep (in_listing state book_id anchor) rows))
        ∙ (ap (sorted newest_first) (
              ap (map flow_from_row) (same_test rows)
              ∙ (sym (keep-map flow_from_row s rows)
                  ∙ keep-keep p (after_anchor anchor) s (λ f. refl) flows))
            ∙ (sym (
                  keep-sorted newest_first newest_first_total newest_first_trans
                    (after_anchor anchor) (keep p flows))
                ∙ ap (λ fs. keep (after_anchor anchor) (sorted newest_first fs))
                    (sym (matching-keep state book_id flows)))))
  where
    same_order :
        (rs : List FlowRow)
        → sorted row_newest_first rs
          ≡ sorted (λ r q. newest_first (flow_from_row r) (flow_from_row q)) rs
    same_order rs = unfold newest_first flow_from_row in refl

    same_test :
        (rs : List FlowRow)
        → keep (in_listing state book_id anchor) rs
          ≡ keep
              (λ r.
                (has_state state (flow_from_row r) && has_book book_id (flow_from_row r))
                && after_anchor anchor (flow_from_row r))
              rs
    same_test rs = ap (λ t. keep t rs) (fun_ext (λ r. pointwise state book_id anchor r))

all_true : (fs : List FlowSnapshot) → All (λ f. after_anchor none f ≡ true) fs
all_true [] = tt
all_true (f ∷ fs) = (refl, all_true fs)

anchored_at :
    (row : FlowRow) (g : FlowSnapshot)
    → flow_from_row row ≡ g
    → ◌≡◌ {A = Option Anchor} (some (row.observed_at, row.run_id)) (some (g.observed_at, g.run_id))
unfolding flow_from_row
anchored_at row g h = ap (λ (f : FlowSnapshot). some (f.observed_at, f.run_id)) h

-- the condition of the keyset is the order of the listing
keyset : (g f : FlowSnapshot) → after_anchor (some (g.observed_at, g.run_id)) f ≡ after_flow g f
unfolding after_flow newest_first
keyset g f = ground arith

-- a page of `limit` rows out of one more
page-rows :
    (limit start : ℕ) (rows : List FlowRow) (listing : List FlowSnapshot)
    → map flow_from_row rows ≡ take (limit + 1) (drop start listing)
    → (e : Engine) → listing_page e limit rows ≡ page_at listing limit start
unfolding listing_page page_at
page-rows limit start rows listing h e =
    let shorter : min limit (limit + 1) ≡ limit = omega arith in
    let window : map flow_from_row (take limit rows) ≡ take limit (drop start listing) =
      sym (take-map flow_from_row limit rows)
      ∙ (ap (take limit) h
          ∙ (take-take limit (limit + 1) (drop start listing)
              ∙ ap (λ n. take n (drop start listing)) shorter)) in
    let count : length rows ≡ length (take (limit + 1) (drop start listing)) =
      sym (length-map_rows rows) ∙ ap length h in
    let more : ltb limit (length rows) ≡ ltb (start + limit) (length listing) =
      ground
        (arith, count, length-take (limit + 1) (drop start listing), length-drop start listing) in
    rw (window, more) refl
  where
    length-map_rows : (rs : List FlowRow) → length (map flow_from_row rs) ≡ length rs
    length-map_rows [] = refl
    length-map_rows (r ∷ rs) = ap suc (length-map_rows rs)

-- the flows that pass the filters
abbrev pub wanted : Option State → Option String → Dict FlowRow → List FlowSnapshot
wanted state book_id d = matching state book_id (all_flows d)

module _ (e : Engine) (laws : Laws e) (db : e.DB) (es : List Event) (holds : Holds e db es)
    (state : Option State) (book_id : Option String) where
  abbrev chosen : List FlowSnapshot
  chosen = wanted state book_id (e.flow_rows db)

  abbrev listed : List FlowSnapshot
  listed = sorted newest_first chosen

  wanted-Distinct : Distinct (run_ids chosen)
  wanted-Distinct =
      matching-Distinct state book_id (all_flows (e.flow_rows db))
        (flows-Distinct (e.flow_rows db) holds.keyed holds.distinct)

  selected :
      (anchor : Option Anchor) (n : ℕ)
      → map flow_from_row (e.select_listing state book_id anchor n db)
        ≡ take n (keep (after_anchor anchor) listed)
  selected anchor n =
      let values = Dict.values (e.flow_rows db) in
      ap (map flow_from_row) (laws.select_listing_lem state book_id anchor n db)
      ∙ (sym (
            take-map flow_from_row n
              (sorted row_newest_first (keep (in_listing state book_id anchor) values)))
          ∙ ap (take n) (rows-listing state book_id anchor values))

  listed-InTable : All (InTable (e.flow_rows db)) listed
  listed-InTable = All-sorted newest_first (InTable (e.flow_rows db)) chosen (
      subst (All (InTable (e.flow_rows db)))
        (sym (matching-keep state book_id (all_flows (e.flow_rows db))))
        (All-keep (λ f. has_state state f && has_book book_id f) (InTable (e.flow_rows db))
          (all_flows (e.flow_rows db)) (flows-InTable (e.flow_rows db) holds.keyed holds.distinct)))

  list_from-page :
      (limit start : ℕ) (marker : Option String)
      → start_of marker listed ≡ ok start
      → list_from e state book_id limit marker db ≡ ok (page_at listed limit start)
  unfolding list_from start_of anchored
  list_from-page limit start none h =
      let first : start ≡ 0 = ground (arith, h) in
      ap ok (
        page-rows limit start (e.select_listing state book_id none (limit + 1) db) listed
          (selected none (limit + 1)
            ∙ (ap (take (limit + 1)) (keep_all (after_anchor none) listed (all_true listed))
                ∙ ap (λ n. take (limit + 1) (drop n listed)) (sym first)))
          e)
  list_from-page limit start (some marker) h =
      let (i, g, next, found, named) = start_of-nth_inv marker listed start h in
      let (row, there, shown) =
        nth-All (InTable (e.flow_rows db)) i listed g found listed-InTable in
      let anchor : Option Anchor = some (g.observed_at, g.run_id) in
      let at : e.select_anchor marker db ≡ anchor =
        laws.select_anchor_lem marker db
        ∙ (ap (λ k. anchor_of (Dict.get k (e.flow_rows db))) (sym named)
            ∙ (ap anchor_of there ∙ anchored_at row g shown)) in
      ap (λ a. anchored e state book_id limit marker a db) at
      ∙ ap ok (
          page-rows limit start (e.select_listing state book_id anchor (limit + 1) db) listed
            (selected anchor (limit + 1)
              ∙ (ap (take (limit + 1)) (
                    ap (λ t. keep t listed) (fun_ext (λ f. keyset g f))
                    ∙ keep-after i listed g (listing-Ascending chosen)
                        (listing-Distinct chosen wanted-Distinct) found)
                  ∙ ap (λ n. take (limit + 1) (drop n listed)) (sym next)))
            e)

  -- A walk over the pages of the SQL store's listing, at any page size of at least 1 and over a
  -- database that does not change meanwhile, gives every run that passes the filters, in the order
  -- of the listing, none left out and none given twice, and ends after at most one page more than
  -- there are such runs.
  pub read_all-keyset :
      (page_size : ℕ)
      → 1 ≤ page_size
      → read_all
          (list_flows e db state book_id)
          page_size
          (suc (length (wanted state book_id (e.flow_rows db))))
        ≡ some (ok (sorted newest_first (wanted state book_id (e.flow_rows db))))
  unfolding list_flows
  read_all-keyset page_size h =
      read_all-page_of (list_flows e db state book_id) chosen wanted-Distinct
        (λ k start marker q.
          let enough : ltb (suc k) 1 ≡ false = ground arith in
          rw enough (list_from-page (suc k) start marker q))
        page_size h
