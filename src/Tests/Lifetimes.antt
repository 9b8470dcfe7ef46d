-- ===== src/Tests/Lifetimes.antt =====
-- Witnesses for the theorems on the pipeline, the buffer and the meter.
use taskflow_meter.Prelude.{
  ℕ, ◌+◌, ◌≤◌, none, some, List, [], ◌∷◌, ◌≡◌, refl, arith, Bool, true, false, length, ◌<◌, ◌*◌,
  ◌==◌, ℕ_discrete, if◌then◌else◌,
}
use Prim.Native.Nat.{◌^◌}
use taskflow_meter.DataSource.{ok}
use taskflow_meter.Pipeline.{Entry, Publish, Pipeline, new_stats, new_pipeline, submit, has_stop}
use taskflow_meter.Pipeline.Traces.{Reaches, Accounts, Reaches-Accounts, submit-lost_stop}
use taskflow_meter.Transport.{MemoryTransport}
use taskflow_meter.Transport.Buffer.{Call, run, sent, run-counts}
use taskflow_meter.Transport.Posting.{
  Attempt, HttpTransport, is_retryable, is_retryable_status, publish, total, publish-recovers,
}
use taskflow_meter.Meter.{Component, new_meter, start, stop}
use taskflow_meter.Meter.Lifecycle
use taskflow_meter.Meter.Lifecycle.{
  Whole, never, after_calls, after_calls-Whole, start-keeps_reference,
}
use taskflow_meter.Tests.{numbered, three}

-- one publisher that counts its batches
abbrev counting : Publish ℕ
counting n es = (n + 1, none)

abbrev fresh : Pipeline ℕ
fresh = record {
  publishers = 0 ∷ [];
  batch_size = 2;
  max_queue = 2;
  stats = new_stats;
  queue = [];
  idle = true;
  drop_calls = [];
}

made : new_pipeline (0 ∷ []) 2 2 ≡ ok fresh
unfolding new_pipeline
made = refl

abbrev after_three : Pipeline ℕ
after_three = (submit (numbered 3) (submit (numbered 2) (submit (numbered 1) fresh).0).0).0

Reaches-Accounts_example : Accounts three [] 0 after_three
Reaches-Accounts_example = Reaches-Accounts counting (0 ∷ []) 2 2 fresh made (
    Reaches.submitted (numbered 3)
      (Reaches.submitted (numbered 2) (Reaches.submitted (numbered 1) Reaches.begin)))

abbrev stopping : Pipeline ℕ
stopping = record fresh { queue = Entry.stop ∷ Entry.item (numbered 1) ∷ [] }

submit-lost_stop_example :
    let q = (submit (numbered 2) stopping).0 in
    (has_stop q.queue ≡ false) × (q.stats.dropped ≡ 0 + 1) × (q.drop_calls ≡ numbered 2 ∷ [])
submit-lost_stop_example =
    submit-lost_stop (numbered 2) stopping (Entry.item (numbered 1) ∷ []) refl refl refl

abbrev buffer : MemoryTransport
buffer = record { max_events = 2; events = []; dropped = 0 }

abbrev calls : List Call
calls = Call.published three ∷ Call.drained ∷ Call.published (numbered 4 ∷ []) ∷ []

run-counts_example :
    let r = run calls buffer in
    (r.1.dropped + length r.0 + length r.1.events ≡ 0 + 0 + length (sent calls))
    × (length r.1.events ≤ r.1.max_events)
run-counts_example = run-counts calls buffer (omega arith)

abbrev uses : List Lifecycle.Call
uses =
    Lifecycle.Call.ensured ∷ Lifecycle.Call.started ∷ Lifecycle.Call.stopped
    ∷ Lifecycle.Call.at_exit ∷ []

after_calls-Whole_example : Whole (after_calls (new_meter false true) uses)
after_calls-Whole_example = after_calls-Whole false true uses

abbrev unreachable : Component → Bool
unreachable Component.source = true
unreachable _ = false

start-keeps_reference_example :
    let failed = start unreachable (new_meter false true) in
    (failed.1 ≡ some Component.source)
    × (failed.0.holders ≡ 1)
    × ((stop (start never failed.0).0).started ≡ true)
start-keeps_reference_example =
    start-keeps_reference unreachable (new_meter false true) (unfold new_meter in refl)
      (unfold new_meter in refl) refl

abbrev post_twice : HttpTransport
post_twice = record { retries = 2; backoff = 200 }

-- a server that is busy, then cannot be reached, then accepts
abbrev recovering : ℕ → Attempt
recovering n =
    if n == 0
    then Attempt.answered 503
    else if n == 1
    then Attempt.unreachable "timed out"
    else Attempt.accepted

recovering_first : (i : ℕ) → i < 2 → is_retryable (recovering i) ≡ true
unfolding is_retryable is_retryable_status
recovering_first i h = elim (ℕ_discrete i 0) [
  | yes e ↦ rw e refl
  | no n ↦ let e : i ≡ 1 = omega arith in rw e refl
]

publish-recovers_example :
    let p = publish post_twice recovering in
    (p.raised ≡ none) × (p.posts ≡ 3) × (total p.slept + 200 ≡ 200 * 2 ^ 2)
publish-recovers_example =
    publish-recovers post_twice recovering 2 (omega arith) recovering_first refl
