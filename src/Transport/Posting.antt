-- ===== src/Transport/Posting.antt =====
-- transports/http.py: the POST of a batch of events, and when it is tried again. What an attempt meets
-- is given by its number, and what is slept is kept as a list.
use Prim.Native.Nat.{◌^◌}
use native.Mathlib.Nat.{two-pow-succ, mul-add}
use taskflow_meter.Prelude.{
  ℕ, zero, suc, ◌+◌, ◌*◌, ◌≤◌, ◌<◌, Bool, true, false, Option, none, some, List, [], ◌∷◌, String,
  ◌≡◌, refl, ap, sym, ◌∙◌, ◌==◌, ◌||◌, ltb, arith, Bool-cases, inl, inr, if◌then◌else◌,
}
use taskflow_meter.Prelude.Int.{ℤ, pos, pos_part, ltb_ℤ}
use taskflow_meter.DataSource.{Outcome, ok, value_error}

abbrev pub default_timeout : ℕ
default_timeout = 5

abbrev pub default_retries : ℕ
default_retries = 2

-- what one POST meets: an answer that is no error, an error status, an `OSError` without an answer, or
-- an exception that `publish` does not catch
pub data Attempt : Type 0 where
  accepted : Attempt
  answered : ℕ → Attempt
  unreachable : String → Attempt
  uncaught : String → Attempt

-- `RETRYABLE_STATUSES`
unfoldable pub is_retryable_status : ℕ → Bool
is_retryable_status code =
    code == 408
    || code == 425
    || code == 429
    || code == 500
    || code == 502
    || code == 503
    || code == 504

-- whether the loop goes on after an attempt
unfoldable pub is_retryable : Attempt → Bool
is_retryable Attempt.accepted = false
is_retryable (Attempt.answered code) = is_retryable_status code
is_retryable (Attempt.unreachable error) = true
is_retryable (Attempt.uncaught error) = false

pub record HttpTransport : Type 0 where
  pub retries : ℕ
  pub backoff : ℕ

-- `HTTPTransport`, as far as `publish` repeats itself
unfoldable pub new_http_transport : ℤ → ℕ → Outcome HttpTransport
new_http_transport retries backoff =
    if ltb_ℤ retries (pos 0)
    then value_error
    else ok (record { retries = pos_part retries; backoff = backoff })

-- how many POSTs a call of `publish` has made, how long it slept after each, and what it raised
pub record Publication : Type 0 where
  pub posts : ℕ
  pub slept : List ℕ
  pub raised : Option Attempt

abbrev pub raised_by : Attempt → Option Attempt
raised_by Attempt.accepted = none
raised_by (Attempt.answered code) = some (Attempt.answered code)
raised_by (Attempt.unreachable error) = some (Attempt.unreachable error)
raised_by (Attempt.uncaught error) = some (Attempt.uncaught error)

abbrev pub last_attempt : Attempt → Publication
last_attempt a = record { posts = 1; slept = []; raised = raised_by a }

abbrev pub after_sleep : ℕ → Publication → Publication
after_sleep time p = record p { posts = p.posts + 1; slept = time ∷ p.slept }

module _ (backoff : ℕ) (meets : ℕ → Attempt) where
  -- the loop of `publish` from an attempt on, with so many left after it
  unfoldable pub attempts : ℕ → ℕ → Publication
  attempts zero attempt = last_attempt (meets attempt)
  attempts (suc left) attempt =
      let rest = attempts left (attempt + 1) in
      if is_retryable (meets attempt)
      then after_sleep (backoff * 2 ^ attempt) rest
      else last_attempt (meets attempt)

unfoldable pub publish : HttpTransport → (ℕ → Attempt) → Publication
publish t meets = attempts t.backoff meets t.retries 0

-- all that has been slept
unfoldable pub total : List ℕ → ℕ
total [] = 0
total (x ∷ xs) = x + total xs

-- the run of attempts from number `from` up to the last, which is number `from + more`
record Ends (backoff : ℕ) (meets : ℕ → Attempt) (left from : ℕ) (p : Publication) : Type 0 where
  pub more : ℕ
  pub within : more ≤ left
  pub retried : (i : ℕ) → i < more → is_retryable (meets (from + i)) ≡ true
  pub stopped : more < left → is_retryable (meets (from + more)) ≡ false
  pub posted : p.posts ≡ more + 1
  pub raises : p.raised ≡ raised_by (meets (from + more))
  pub slept : total p.slept + backoff * 2 ^ from ≡ backoff * 2 ^ (from + more)

doubled : (b n : ℕ) → b * 2 ^ (n + 1) ≡ b * 2 ^ n + b * 2 ^ n
doubled b n =
    let next : n + 1 ≡ suc n = omega arith in
    ap (λ m. b * 2 ^ m) next ∙ (ap (λ m. b * m) (two-pow-succ n) ∙ mul-add b (2 ^ n) (2 ^ n))

abbrev again : (ℕ → Attempt) → ℕ → Bool
again meets n = is_retryable (meets n)

-- the attempt is the last
stop_here :
    (backoff : ℕ) (meets : ℕ → Attempt) (left from : ℕ)
    → (0 < left → again meets from ≡ false)
    → Ends backoff meets left from (last_attempt (meets from))
unfolding total
stop_here backoff meets left from h =
    let same : from ≡ from + 0 = omega arith in
    record {
      more = 0;
      within = omega arith;
      retried = λ i k. absurd (omega arith);
      stopped = λ k. ap (again meets) (sym same) ∙ h k;
      posted = refl;
      raises = ap (λ n. raised_by (meets n)) same;
      slept = omega (arith, ap (λ n. backoff * 2 ^ n) same);
    }

-- the attempt is tried again, and the rest ends
go_on :
    (backoff : ℕ) (meets : ℕ → Attempt) (left from : ℕ) (p : Publication)
    → again meets from ≡ true
    → Ends backoff meets left (from + 1) p
    → Ends backoff meets (suc left) from (after_sleep (backoff * 2 ^ from) p)
unfolding total
go_on backoff meets left from p h e =
    let shift : (i : ℕ) → from + 1 + i ≡ from + suc i = λ i. omega arith in
    record {
      more = suc e.more;
      within = omega (arith, e.within);
      retried = λ i k.
          elim i as (λ j. j < suc e.more → again meets (from + j) ≡ true) [
            | zero ↦ λ _. ap (again meets) (omega arith) ∙ h
            | suc j ↦ λ l. ap (again meets) (sym (shift j)) ∙ e.retried j (omega arith)
          ]
            k;
      stopped = λ k. ap (again meets) (sym (shift e.more)) ∙ e.stopped (omega arith);
      posted = omega (arith, e.posted);
      raises = e.raises ∙ ap (λ n. raised_by (meets n)) (shift e.more);
      slept =
          omega (arith, e.slept, doubled backoff from, ap (λ n. backoff * 2 ^ n) (shift e.more));
    }

attempts-Ends :
    (backoff : ℕ) (meets : ℕ → Attempt) (left from : ℕ)
    → Ends backoff meets left from (attempts backoff meets left from)
unfolding attempts
attempts-Ends backoff meets zero from = stop_here backoff meets 0 from (λ k. absurd (omega arith))
attempts-Ends backoff meets (suc left) from = elim (Bool-cases (again meets from)) [
  | inl h ↦ rw h (
      go_on backoff meets left from (attempts backoff meets left (from + 1)) h
        (attempts-Ends backoff meets left (from + 1)))
  | inr h ↦ rw h (stop_here backoff meets (suc left) from (λ _. h))
]

publish-Ends :
    (t : HttpTransport) (meets : ℕ → Attempt) → Ends t.backoff meets t.retries 0 (publish t meets)
unfolding publish
publish-Ends t meets = attempts-Ends t.backoff meets t.retries 0

-- the attempt that is accepted is the last
last_accepted :
    (t : HttpTransport) (meets : ℕ → Attempt) (n last : ℕ)
    → n ≤ t.retries
    → ((i : ℕ) → i < n → again meets i ≡ true)
    → again meets n ≡ false
    → ((i : ℕ) → i < last → again meets (0 + i) ≡ true)
    → (last < t.retries → again meets (0 + last) ≡ false)
    → last ≡ n
last_accepted t meets n last within before refused retried stopped =
    elim (Bool-cases (ltb last n)) [
      | inl l ↦ absurd (grind (arith, before last (ground arith), stopped (ground arith)))
      | inr l ↦ elim (Bool-cases (ltb n last)) [
        | inl k ↦ absurd (grind (arith, retried n (ground arith)))
        | inr k ↦ ground arith
      ]
    ]

-- A server that fails in a way worth trying again for each attempt before the nth, counted from 0,
-- and then accepts, gets the batch if n is within the retries: nothing is raised, n + 1 POSTs are
-- made, and the time slept is the backoff times 2 ^ n - 1.
pub publish-recovers :
    (t : HttpTransport) (meets : ℕ → Attempt) (n : ℕ)
    → n ≤ t.retries
    → ((i : ℕ) → i < n → is_retryable (meets i) ≡ true)
    → meets n ≡ Attempt.accepted
    → let p = publish t meets in
      (p.raised ≡ none) × (p.posts ≡ n + 1) × (total p.slept + t.backoff ≡ t.backoff * 2 ^ n)
unfolding is_retryable
publish-recovers t meets n within before h =
    let e = publish-Ends t meets in
    let same =
      last_accepted t meets n e.more within before (ap is_retryable h) e.retried e.stopped in
    let last : 0 + e.more ≡ n = omega (arith, same) in
    (
      e.raises ∙ ap raised_by (ap meets last ∙ h),
      omega (arith, e.posted, same),
      omega (arith, e.slept, ap (λ m. t.backoff * 2 ^ m) last),
    )
