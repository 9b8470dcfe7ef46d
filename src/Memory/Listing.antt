-- ===== src/Memory/Listing.antt =====
-- A walk over the pages of the memory store's listing.
use taskflow_meter.Prelude.{
  ℕ, suc, ◌≤◌, false, ◌&&◌, Option, some, List, [], ◌∷◌, String, ◌≡◌, refl, ap, sym, ◌∙◌, subst,
  arith, length, ltb, if◌then◌else◌, Bool-cases, inl, inr,
}
use taskflow_meter.Prelude.Dict
use taskflow_meter.Prelude.Dict.{Dict, AllValues, Distinct, mem}
use taskflow_meter.Prelude.Sort.{sorted}
use taskflow_meter.States.{State}
use taskflow_meter.Models.{FlowSnapshot}
use taskflow_meter.DataSource.{
  ok, value_error, page_of, matching, has_state, has_book, run_ids, newest_first,
}
use taskflow_meter.Memory.{Run, Memory, flows, list_flows}
use taskflow_meter.Memory.Invariant.{Sound, WellFormed}
use taskflow_meter.Poller.{read_all}
use taskflow_meter.Poller.Paging.{page_of-start, read_all-page_of}

run_ids-flows :
    (limit : ℕ) (d : Dict Run)
    → AllValues (Sound limit) d
    → run_ids (flows (Dict.values d)) ≡ Dict.keys d
run_ids-flows limit [] h = refl
run_ids-flows limit ((k, run) ∷ d) h =
    ap (λ j. j ∷ run_ids (flows (Dict.values d))) h.0.own_key
    ∙ ap (◌∷◌ k) (run_ids-flows limit d h.1)

module _ (state : Option State) (book_id : Option String) where
  mem-matching :
      (r : String) (fs : List FlowSnapshot)
      → mem r (run_ids fs) ≡ false
      → mem r (run_ids (matching state book_id fs)) ≡ false
  unfolding matching
  mem-matching r [] h = refl
  mem-matching r (f ∷ fs) h = ground (arith, mem-matching r fs)

  pub matching-Distinct :
      (fs : List FlowSnapshot)
      → Distinct (run_ids fs)
      → Distinct (run_ids (matching state book_id fs))
  unfolding matching
  matching-Distinct [] h = tt
  matching-Distinct (f ∷ fs) h =
      let rest = matching-Distinct fs h.1 in
      elim (Bool-cases (has_state state f && has_book book_id f)) [
        | inl e ↦ rw e (mem-matching f.run_id fs h.0, rest)
        | inr e ↦ rw e rest
      ]

list_flows-page_of :
    (m : Memory) (state : Option State) (book_id : Option String) (k : ℕ) (marker : Option String)
    → list_flows m state book_id (suc k) marker
      ≡ page_of (matching state book_id (flows (Dict.values m.runs))) (suc k) marker
unfolding list_flows
list_flows-page_of m state book_id k marker =
    let enough : ltb (suc k) 1 ≡ false = ground arith in
    ap
      (λ b.
        if b
        then value_error
        else page_of (matching state book_id (flows (Dict.values m.runs))) (suc k) marker)
      enough

-- A walk over the pages of the listing of a well-formed store that does not change meanwhile, at
-- any page size of at least 1, gives every run that passes the filters, in the order of the
-- listing, none left out and none given twice, and ends after at most one page more than there are
-- such runs.
pub read_all-list_flows :
    (m : Memory) (state : Option State) (book_id : Option String) (page_size : ℕ)
    → WellFormed m
    → 1 ≤ page_size
    → let wanted = matching state book_id (flows (Dict.values m.runs)) in
      read_all (list_flows m state book_id) page_size (suc (length wanted))
      ≡ some (ok (sorted newest_first wanted))
read_all-list_flows m state book_id page_size h =
    read_all-page_of (list_flows m state book_id)
      (matching state book_id (flows (Dict.values m.runs)))
      (matching-Distinct state book_id (flows (Dict.values m.runs))
        (subst Distinct (sym (run_ids-flows m.max_events_per_run m.runs h.sound)) h.distinct))
      (λ k start marker q.
        list_flows-page_of m state book_id k marker
        ∙ page_of-start (matching state book_id (flows (Dict.values m.runs))) (suc k) start marker
            q)
      page_size
