-- ===== src/Pipeline/Delivery.antt =====
-- What reaches the publishers of a pipeline, and what is lost.
use taskflow_meter.Prelude.{
  ℕ, String, zero, suc, ◌+◌, ◌-◌, ◌≤◌, ◌<◌, Bool, true, false, Option, none, some, List, [], ◌∷◌,
  ◌++◌, ◌≡◌, refl, ap, sym, ◌∙◌, subst, arith, take, drop, length, length-take, take-append-drop,
  ltb,
}
use mathlib.Core.Option.{some-injective}
use taskflow_meter.Events.{Event}
use taskflow_meter.Pipeline.{
  Entry, Publish, Pipeline, PipelineStats, put_nowait, after_room, make_room_for, after_put, submit,
  take_more, events_in, has_stop, publish_all, deliver, set_idle, turn, turn_on, count_delivery,
}

-- `xs` is `ys` with some elements left out
pub data Thinned : List Event → List Event → Type 0 where
  done : Thinned [] []
  keep : (x : Event) {xs ys : List Event} → Thinned xs ys → Thinned (x ∷ xs) (x ∷ ys)
  skip : (y : Event) {xs ys : List Event} → Thinned xs ys → Thinned xs (y ∷ ys)

pub Thinned-snoc :
    (xs ys : List Event) (e : Event) → Thinned xs ys → Thinned (xs ++ e ∷ []) (ys ++ e ∷ [])
Thinned-snoc [] [] e h = Thinned.keep e Thinned.done
Thinned-snoc (_ ∷ xs) [] e h = elim h [ ]
Thinned-snoc (_ ∷ xs) (_ ∷ ys) e (keep x h) = Thinned.keep x (Thinned-snoc xs ys e h)
Thinned-snoc xs (_ ∷ ys) e (skip y h) = Thinned.skip y (Thinned-snoc xs ys e h)

Thinned-tail : (e : Event) (xs ys : List Event) → Thinned (e ∷ xs) ys → Thinned xs ys
Thinned-tail e xs [] h = elim h [ ]
Thinned-tail e xs (_ ∷ ys) (keep x h) = Thinned.skip x h
Thinned-tail e xs (_ ∷ ys) (skip y h) = Thinned.skip y (Thinned-tail e xs ys h)

-- leaving out one element more
pub Thinned-drop :
    (hs : List Event) (e : Event) (xs ys : List Event)
    → Thinned (hs ++ e ∷ xs) ys
    → Thinned (hs ++ xs) ys
Thinned-drop [] e xs ys h = Thinned-tail e xs ys h
Thinned-drop (x ∷ hs) e xs [] h = elim h [ ]
Thinned-drop (_ ∷ hs) e xs (_ ∷ ys) (keep x h) = Thinned.keep x (Thinned-drop hs e xs ys h)
Thinned-drop (x ∷ hs) e xs (_ ∷ ys) (skip y h) = Thinned.skip y (Thinned-drop (x ∷ hs) e xs ys h)

pub events_in-append : (xs ys : List Entry) → events_in (xs ++ ys) ≡ events_in xs ++ events_in ys
events_in-append [] ys = refl
events_in-append (Entry.item e ∷ xs) ys = ap (◌∷◌ e) (events_in-append xs ys)
events_in-append (Entry.stop ∷ xs) ys = events_in-append xs ys

-- the sender takes a prefix of the queue
pub take_more-take :
    (room : ℕ) (queue : List Entry) → take_more room queue ≡ (take room queue, drop room queue)
unfolding take_more
take_more-take zero queue = refl
take_more-take (suc room) [] = refl
take_more-take (suc room) (x ∷ queue) =
    ap (λ (r : List Entry × List Entry). (x ∷ r.0, r.1)) (take_more-take room queue)

module _ {P : Type 0} (e : Event) (p : Pipeline P) where
  abbrev counted : PipelineStats
  counted = record (p.stats) { submitted = p.stats.submitted + 1 }

  pub submit_room :
      length p.queue < p.max_queue
      → submit e p
        ≡ (record p { stats = counted; queue = p.queue ++ Entry.item e ∷ []; idle = false }, true)
  unfolding submit put_nowait after_put
  submit_room h = let room : ltb (length p.queue) p.max_queue ≡ true = ground arith in rw room refl

  pub submit_full :
      (x : Entry) (xs : List Entry)
      → p.queue ≡ x ∷ xs
      → length p.queue ≡ p.max_queue
      → submit e p ≡ (
        record p {
          stats = record counted { dropped = p.stats.dropped + 1 };
          queue = xs ++ Entry.item e ∷ [];
          idle = false;
          drop_calls = e ∷ p.drop_calls;
        },
        true,
      )
  unfolding submit put_nowait after_put make_room_for after_room
  submit_full x xs q h =
      let full : ltb (length p.queue) p.max_queue ≡ false = ground arith in
      let room : ltb (length xs) p.max_queue ≡ true = ground (arith, ap length q) in
      rw full (rw q (rw room refl))

-- what a delivery leaves alone
pub record Untouched {P : Type 0} (p q : Pipeline P) : Type 0 where
  pub max_queue : q.max_queue ≡ p.max_queue
  pub batch_size : q.batch_size ≡ p.batch_size
  pub submitted : q.stats.submitted ≡ p.stats.submitted
  pub dropped : q.stats.dropped ≡ p.stats.dropped

module _ {P : Type 0} (publish : Publish P) where
  publish_all-stats :
      (es : List Event) (ps : List P) (s : PipelineStats)
      → ((publish_all publish es ps s).1.submitted ≡ s.submitted)
        × ((publish_all publish es ps s).1.dropped ≡ s.dropped)
  unfolding publish_all count_delivery
  publish_all-stats es [] s = (refl, refl)
  publish_all-stats es (publisher ∷ ps) s =
      let raised = (publish publisher es).1 in
      let rest = publish_all-stats es ps (count_delivery publish (length es) raised s) in
      let own = counts raised in (rest.0 ∙ own.0, rest.1 ∙ own.1)
    where
      counts :
          (raised : Option String)
          → ((count_delivery publish (length es) raised s).submitted ≡ s.submitted)
            × ((count_delivery publish (length es) raised s).dropped ≡ s.dropped)
      counts none = (refl, refl)
      counts (some error) = (refl, refl)

  deliver-Untouched :
      (es : List Event) (p : Pipeline P)
      → Untouched p (deliver publish es p) × ((deliver publish es p).queue ≡ p.queue)
  unfolding deliver
  deliver-Untouched [] p =
      (record { max_queue = refl; batch_size = refl; submitted = refl; dropped = refl }, refl)
  deliver-Untouched (e ∷ es) p =
      let s = publish_all-stats (e ∷ es) p.publishers p.stats in
      (record { max_queue = refl; batch_size = refl; submitted = s.0; dropped = s.1 }, refl)

  -- the sender's turn takes a batch from the front of the queue
  pub record Turned (p q : Pipeline P) (taken : List Entry) (last : Bool) : Type 0 where
    pub untouched : Untouched p q
    pub split : p.queue ≡ taken ++ q.queue
    pub bounded : length taken ≤ p.batch_size
    pub some_taken : 1 ≤ length taken
    pub is_last : last ≡ has_stop taken

  turn_on-Turned :
      (x : Entry) (queue : List Entry) (p q : Pipeline P) (last : Bool)
      → p.queue ≡ x ∷ queue
      → 1 ≤ p.batch_size
      → turn_on publish (x ∷ queue) p ≡ some (q, last)
      → Turned p q (x ∷ take (p.batch_size - 1) queue) last
  unfolding turn_on
  turn_on-Turned x queue p q last e b h =
      let more = take (p.batch_size - 1) queue in
      let rest = drop (p.batch_size - 1) queue in
      let start : Pipeline P = record p { queue = rest } in
      let d = deliver-Untouched (events_in (x ∷ more)) start in
      let result =
        ap
          (λ (r : List Entry × List Entry). some (
            set_idle publish (deliver publish (events_in (x ∷ r.0)) (record p { queue = r.1 })),
            has_stop (x ∷ r.0),
          ))
          (take_more-take (p.batch_size - 1) queue) in
      let pair = some-injective _ _ (sym result ∙ h) in
      subst (λ (r : Pipeline P × Bool). Turned p r.0 (x ∷ more) r.1) pair
        (record {
          untouched = record {
            max_queue = d.0.max_queue;
            batch_size = d.0.batch_size;
            submitted = d.0.submitted;
            dropped = d.0.dropped;
          };
          split =
              e
              ∙ (ap (◌∷◌ x) (
                  sym (take-append-drop (p.batch_size - 1) queue)
                  ∙ ap (λ ys. more ++ ys) (sym d.1)));
          bounded = omega (arith, length-take (p.batch_size - 1) queue);
          some_taken = omega arith;
          is_last = refl;
        })

  pub turn-Turned :
      (p q : Pipeline P) (last : Bool)
      → 1 ≤ p.batch_size
      → turn publish p ≡ some (q, last)
      → (taken : List Entry) × Turned p q taken last
  unfolding turn
  turn-Turned p q last b h = go p.queue refl h
    where
      go :
          (queue : List Entry)
          → p.queue ≡ queue
          → turn_on publish queue p ≡ some (q, last)
          → (taken : List Entry) × Turned p q taken last
      go [] e h = absurd (unfold turn_on in ground (arith, h))
      go (x ∷ queue) e h =
          (x ∷ take (p.batch_size - 1) queue, turn_on-Turned x queue p q last e b h)
