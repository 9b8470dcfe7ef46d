-- ===== src/Sql/Reads.antt =====
-- `events_since` of the SQL store: what the filtered and limited query gives up makes no difference.
use taskflow_meter.Prelude.{
  ℕ, ◌≤◌, true, false, ◌&&◌, some, List, [], ◌∷◌, String, ◌≡◌, ◌≢◌, ap, sym, ◌∙◌, arith, ltb, take,
  Bool-cases, inl, inr,
}
use taskflow_meter.Prelude.Sort.{sorted, Ascending}
use taskflow_meter.Prelude.Select.{
  keep, keep_yes, keep_no, All-keep, keep-map, take-map, sorted-map, keep-sorted,
}
use taskflow_meter.Events.{Event}
use taskflow_meter.Fold.{contiguous_from}
use taskflow_meter.Fold.Contiguous.{by_seq}
use taskflow_meter.DataSource.{ok, event_page, expected_seq}
use taskflow_meter.Memory.{run_page, first_seq}
use taskflow_meter.Memory.Resume.{stored-Ascending}
use taskflow_meter.Sql.Rows.{event_row, events_from_rows, events_from_rows-map}
use taskflow_meter.Sql.Statements.{Engine, Laws, of_run, of_run_after, row_by_seq, lowest}
use taskflow_meter.Sql.{page_from, events_since}
use taskflow_meter.Sql.Keys.{
  is_of, own, Holds, DistinctSeqs, own-DistinctSeqs, sorted-DistinctSeqs, Rising-of_sorted,
  loop-after, loop-take, lowest-sorted, keep-and, after_since, above,
}

module _ (e : Engine) (laws : Laws e) (db : e.DB) (es : List Event) (holds : Holds e db es)
    (r : String) where
  oldest-stored : e.select_oldest r db ≡ first_seq (sorted by_seq (own r es))
  unfolding event_row
  oldest-stored =
      laws.select_oldest_lem r db
      ∙ (ap (λ rows. lowest (keep (of_run r) rows)) holds.rows
          ∙ (ap lowest (keep-map event_row (of_run r) es) ∙ lowest-sorted (own r es)))

  events-stored :
      (since n : ℕ)
      → events_from_rows (e.select_events r since n db)
        ≡ some (take n (keep (λ x. ltb since x.seq) (sorted by_seq (own r es))))
  unfolding event_row
  events-stored since n =
      let p = λ (x : Event). is_of r x && ltb since x.seq in
      ap events_from_rows (
        laws.select_events_lem r since n db
        ∙ (ap (λ rows. take n (sorted row_by_seq (keep (of_run_after r since) rows))) holds.rows
            ∙ (ap (λ rows. take n (sorted row_by_seq rows))
                  (keep-map event_row (of_run_after r since) es)
                ∙ (ap (take n) (sorted-map event_row row_by_seq (keep p es))
                    ∙ take-map event_row n (sorted by_seq (keep p es))))))
      ∙ (events_from_rows-map (take n (sorted by_seq (keep p es)))
          ∙ ap (λ xs. some (take n xs))
              (ap (sorted by_seq) (keep-and r since es)
                ∙ sym (
                    keep-sorted by_seq (λ a b. ground arith) (λ a b c u v. ground arith)
                      (λ x. ltb since x.seq) (own r es))))

  -- what the query leaves out
  selection :
      (since limit : ℕ)
      → 1 ≤ limit
      → let stored = sorted by_seq (own r es) in
        let from = expected_seq (first_seq stored) since in
        contiguous_from (take limit (keep (λ x. ltb since x.seq) stored)) from limit
        ≡ contiguous_from stored from limit
  unfolding contiguous_from
  selection since limit h =
      let stored = sorted by_seq (own r es) in
      let from = expected_seq (first_seq stored) since in
      let after = keep (λ (x : Event). ltb since x.seq) stored in
      loop-take limit after from h (
        Rising-of_sorted from after (after-Ascending stored (stored-Ascending (own r es)))
          (keep-DistinctSeqs stored
            (sorted-DistinctSeqs (own r es) (own-DistinctSeqs r es holds.unique)))
          (above since stored (stored-Ascending (own r es))))
      ∙ loop-after since limit stored from (after_since (first_seq stored) since)
    where
      after-Ascending :
          (xs : List Event)
          → Ascending by_seq xs
          → Ascending by_seq (keep (λ x. ltb since x.seq) xs)
      after-Ascending [] k = unfold keep in tt
      after-Ascending (x ∷ xs) k = elim (Bool-cases (ltb since x.seq)) [
        | inl q ↦ rw (keep_yes (λ z. ltb since z.seq) x xs q) (
          All-keep (λ z. ltb since z.seq) (λ z. by_seq x z ≡ true) xs k.0,
          after-Ascending xs k.1,
        )
        | inr q ↦ rw (keep_no (λ z. ltb since z.seq) x xs q) (after-Ascending xs k.1)
      ]

      keep-DistinctSeqs :
          (xs : List Event) → DistinctSeqs xs → DistinctSeqs (keep (λ x. ltb since x.seq) xs)
      keep-DistinctSeqs [] k = unfold keep in tt
      keep-DistinctSeqs (x ∷ xs) k = elim (Bool-cases (ltb since x.seq)) [
        | inl q ↦
            rw (keep_yes (λ z. ltb since z.seq) x xs q) (
              All-keep (λ z. ltb since z.seq) (λ z. z.seq ≢ x.seq) xs k.0,
              keep-DistinctSeqs xs k.1,
            )
        | inr q ↦ rw (keep_no (λ z. ltb since z.seq) x xs q) (keep-DistinctSeqs xs k.1)
      ]

  -- Where the table of events holds each key once, a read of a run at a limit of at least 1, which
  -- asks for the numbers after the last one seen and for no more of them than the limit, gives the
  -- page that the memory store makes of the whole history of the run.
  pub events_since-run_page :
      (since limit : ℕ)
      → 1 ≤ limit
      → events_since e db r since limit ≡ ok (run_page (own r es) since limit)
  unfolding events_since page_from run_page
  events_since-run_page since limit h =
      let stored = sorted by_seq (own r es) in
      let oldest = first_seq stored in
      let enough : ltb limit 1 ≡ false = ground arith in
      rw (enough, oldest-stored, events-stored since limit)
        (ap (λ xs. ok (event_page oldest since xs)) (selection since limit h))
