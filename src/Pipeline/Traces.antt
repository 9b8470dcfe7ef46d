-- ===== src/Pipeline/Traces.antt =====
-- Every sequence of submissions, turns of the sender and requests to stop.
use taskflow_meter.Prelude.{
  ℕ, ◌+◌, ◌≤◌, ◌<◌, Bool, false, some, List, [], ◌∷◌, ◌++◌, ◌≡◌, refl, ap, sym, ◌∙◌, subst, arith,
  length, length-append, ltb, Bool-cases, inl, inr,
}
use mathlib.Core.List.{append-nil, append_assoc}
use taskflow_meter.Events.{Event}
use taskflow_meter.DataSource.{ok}
use taskflow_meter.Pipeline.{
  Entry, Publish, Pipeline, submit, request_stop, events_in, has_stop, turn, new_pipeline,
  put_nowait,
}
use taskflow_meter.Pipeline.Delivery.{
  Thinned, Thinned-snoc, Thinned-drop, events_in-append, submit_room, submit_full, turn-Turned,
}

-- What can have happened since `start`: the events that were submitted, in order, the entries that
-- the sender took from the queue, in order, and the number of requests to stop.
pub data Reaches {P : Type 0} (publish : Publish P) (start : Pipeline P)
    : List Event → List Entry → ℕ → Pipeline P → Type 0 where
  begin : Reaches publish start [] [] 0 start
  submitted :
      {a : List Event} {h : List Entry} {k : ℕ} {p : Pipeline P} (e : Event)
      → Reaches publish start a h k p
      → Reaches publish start (a ++ e ∷ []) h k (submit e p).0
  asked :
      {a : List Event} {h : List Entry} {k : ℕ} {p : Pipeline P} (q : Pipeline P)
      → Reaches publish start a h k p
      → request_stop p ≡ some q
      → Reaches publish start a h (k + 1) q
  turned :
      {a : List Event} {h : List Entry} {k : ℕ} {p : Pipeline P} (q : Pipeline P) (last : Bool)
      (taken : List Entry)
      → Reaches publish start a h k p
      → turn publish p ≡ some (q, last)
      → p.queue ≡ taken ++ q.queue
      → Reaches publish start a (h ++ taken) k q

-- The sender has taken, and the queue holds, the submitted events in their order with none twice and
-- none made up; each entry ever queued has been taken, or is queued, or is counted as dropped; and
-- the queue is within its bound.
pub record Accounts {P : Type 0} (a : List Event) (h : List Entry) (k : ℕ) (p : Pipeline P)
    : Type 0 where
  pub in_order : Thinned (events_in h ++ events_in p.queue) a
  pub counted : p.stats.submitted ≡ length a
  pub balance : p.stats.dropped + length h + length p.queue ≡ length a + k
  pub bounded : length p.queue ≤ p.max_queue
  pub room : 1 ≤ p.max_queue
  pub batch : 1 ≤ p.batch_size

first_entry :
    (xs : List Entry) → 1 ≤ length xs → (x : Entry) × (rest : List Entry) × (xs ≡ x ∷ rest)
first_entry [] h = absurd (omega arith)
first_entry (x ∷ xs) h = (x, xs, refl)

-- one more event at the end of the queue
queue_snoc :
    (hs : List Event) (q : List Entry) (a : List Event) (e : Event)
    → Thinned (hs ++ events_in q) a
    → Thinned (hs ++ events_in (q ++ Entry.item e ∷ [])) (a ++ e ∷ [])
queue_snoc hs q a e h =
    subst (λ xs. Thinned xs (a ++ e ∷ []))
      (append_assoc hs (events_in q) (e ∷ [])
        ∙ ap (λ xs. hs ++ xs) (sym (events_in-append q (Entry.item e ∷ []))))
      (Thinned-snoc (hs ++ events_in q) a e h)

-- and one less at its front
queue_tail :
    (hs : List Event) (x : Entry) (xs : List Entry) (a : List Event)
    → Thinned (hs ++ events_in (x ∷ xs)) a
    → Thinned (hs ++ events_in xs) a
queue_tail hs (Entry.item e) xs a h = Thinned-drop hs e (events_in xs) a h
queue_tail hs Entry.stop xs a h = h

has_stop-snoc : (xs : List Entry) (e : Event) → has_stop (xs ++ Entry.item e ∷ []) ≡ has_stop xs
has_stop-snoc [] e = refl
has_stop-snoc (Entry.item x ∷ xs) e = has_stop-snoc xs e
has_stop-snoc (Entry.stop ∷ xs) e = refl

module _ {P : Type 0} where
  submit-Accounts :
      (e : Event) (a : List Event) (h : List Entry) (k : ℕ) (p : Pipeline P)
      → Accounts a h k p
      → Accounts (a ++ e ∷ []) h k (submit e p).0
  submit-Accounts e a h k p s =
      let longer = length-append a (e ∷ []) in
      elim (Bool-cases (ltb (length p.queue) p.max_queue)) [
        | inl fits ↦
            subst (λ (r : Pipeline P × Bool). Accounts (a ++ e ∷ []) h k r.0)
              (sym (submit_room e p (ground arith)))
              (record {
                in_order = queue_snoc (events_in h) p.queue a e s.in_order;
                counted = omega (arith, s.counted, longer);
                balance =
                    omega (arith, s.balance, longer, length-append p.queue (Entry.item e ∷ []));
                bounded = ground (arith, length-append p.queue (Entry.item e ∷ []));
                room = s.room;
                batch = s.batch;
              })
        | inr full ↦
            let at_bound : length p.queue ≡ p.max_queue = ground (arith, s.bounded) in
            let front = first_entry p.queue (omega (arith, at_bound, s.room)) in
            let shape : p.queue ≡ front.0 ∷ front.1 = front.2 in
            let size : length p.queue ≡ length front.1 + 1 = ap length shape ∙ omega arith in
            subst (λ (r : Pipeline P × Bool). Accounts (a ++ e ∷ []) h k r.0)
              (sym (submit_full e p front.0 front.1 shape at_bound))
              (record {
                in_order = queue_snoc (events_in h) front.1 a e (
                    queue_tail (events_in h) front.0 front.1 a
                      (subst (λ xs. Thinned (events_in h ++ events_in xs) a) shape s.in_order));
                counted = omega (arith, s.counted, longer);
                balance =
                    omega
                      (arith, s.balance, longer, size, length-append front.1 (Entry.item e ∷ []));
                bounded = omega (arith, size, at_bound, length-append front.1 (Entry.item e ∷ []));
                room = s.room;
                batch = s.batch;
              })
      ]

  asked-Accounts :
      (a : List Event) (h : List Entry) (k : ℕ) (p q : Pipeline P)
      → request_stop p ≡ some q
      → Accounts a h k p
      → Accounts a h (k + 1) q
  asked-Accounts a h k p q r s =
      let (fits, shape) = stopped in
      subst (Accounts a h (k + 1)) shape (record {
        in_order =
            subst (λ xs. Thinned (events_in h ++ xs) a)
              (sym (events_in-append p.queue (Entry.stop ∷ []) ∙ append-nil (events_in p.queue)))
              s.in_order;
        counted = s.counted;
        balance = omega (arith, s.balance, length-append p.queue (Entry.stop ∷ []));
        bounded = omega (arith, fits, length-append p.queue (Entry.stop ∷ []));
        room = s.room;
        batch = s.batch;
      })
    where
      stopped :
          (length p.queue < p.max_queue) × (record p { queue = p.queue ++ Entry.stop ∷ [] } ≡ q)
      stopped = unfold request_stop put_nowait in ground (arith, r)

  turned-Accounts :
      (publish : Publish P) (a : List Event) (h taken : List Entry) (k : ℕ) (p q : Pipeline P)
      (last : Bool)
      → turn publish p ≡ some (q, last)
      → p.queue ≡ taken ++ q.queue
      → Accounts a h k p
      → Accounts a (h ++ taken) k q
  turned-Accounts publish a h taken k p q last t split s =
      let u = (turn-Turned publish p q last s.batch t).1.untouched in
      let size : length p.queue ≡ length taken + length q.queue =
        ap length split ∙ length-append taken q.queue in
      record {
        in_order =
            subst (λ xs. Thinned xs a)
              (ap (λ xs. events_in h ++ events_in xs) split
                ∙ (ap (λ xs. events_in h ++ xs) (events_in-append taken q.queue)
                    ∙ (sym (append_assoc (events_in h) (events_in taken) (events_in q.queue))
                        ∙ ap (λ xs. xs ++ events_in q.queue) (sym (events_in-append h taken)))))
              s.in_order;
        counted = u.submitted ∙ s.counted;
        balance = omega (arith, u.dropped, s.balance, size, length-append h taken);
        bounded = omega (arith, size, s.bounded, u.max_queue);
        room = omega (arith, u.max_queue, s.room);
        batch = omega (arith, u.batch_size, s.batch);
      }

new-Accounts :
    {P : Type 0} (ps : List P) (max_queue batch_size : ℕ) (p : Pipeline P)
    → new_pipeline ps max_queue batch_size ≡ ok p
    → Accounts [] [] 0 p
unfolding new_pipeline
new-Accounts ps max_queue batch_size p h = record {
  in_order =
      let empty : p.queue ≡ [] = ground (arith, h) in
      subst (λ xs. Thinned (events_in xs) []) (sym empty) Thinned.done;
  counted = ground (arith, h);
  balance = ground (arith, h);
  bounded = ground (arith, h);
  room = ground (arith, h);
  batch = ground (arith, h);
}

run-Accounts :
    {P : Type 0} (publish : Publish P) (start : Pipeline P)
    → Accounts [] [] 0 start
    → (a : List Event) (h : List Entry) (k : ℕ) (p : Pipeline P) → Reaches publish start a h k p
    → Accounts a h k p
run-Accounts publish start new _ _ _ _ begin = new
run-Accounts publish start new _ h k _ (submitted {a} {p} e r) =
    submit-Accounts e a h k p (run-Accounts publish start new a h k p r)
run-Accounts publish start new a h _ _ (asked {k} {p} q r s) =
    asked-Accounts a h k p q s (run-Accounts publish start new a h k p r)
run-Accounts publish start new a _ k _ (turned {h} {p} q last taken r t split) =
    turned-Accounts publish a h taken k p q last t split (run-Accounts publish start new a h k p r)

-- From a new pipeline on, through every sequence of submissions, turns of the sender and requests
-- to stop, what the sender has taken and what is queued is in the order of submission with no
-- event twice, each entry is taken, queued or counted as dropped, and the queue is within its
-- bound.
pub Reaches-Accounts :
    {P : Type 0} (publish : Publish P) (ps : List P) (max_queue batch_size : ℕ) (start : Pipeline P)
    → new_pipeline ps max_queue batch_size ≡ ok start
    → {a : List Event} {h : List Entry} {k : ℕ} {p : Pipeline P} → Reaches publish start a h k p
    → Accounts a h k p
Reaches-Accounts publish ps max_queue batch_size start new {a} {h} {k} {p} r =
    run-Accounts publish start (new-Accounts ps max_queue batch_size start new) a h k p r

-- A submission to a full queue whose oldest entry is the only request to stop leaves no request in
-- the queue, counts it as a dropped event, and calls the handler of drops with the event that was
-- queued.
pub submit-lost_stop :
    {P : Type 0} (e : Event) (p : Pipeline P) (xs : List Entry)
    → p.queue ≡ Entry.stop ∷ xs
    → length p.queue ≡ p.max_queue
    → has_stop xs ≡ false
    → let q = (submit e p).0 in
      (has_stop q.queue ≡ false)
      × (q.stats.dropped ≡ p.stats.dropped + 1)
      × (q.drop_calls ≡ e ∷ p.drop_calls)
submit-lost_stop e p xs shape full none_left =
    rw (submit_full e p Entry.stop xs shape full) (has_stop-snoc xs e ∙ none_left, refl, refl)
