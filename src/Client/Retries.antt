-- ===== src/Client/Retries.antt =====
-- src/eda_lab/client.py: how often a submission is retried, and with what it ends.
use semiconductor_domain_lab.Prelude.{
  ℕ, zero, suc, ◌+◌, ◌*◌, ◌<◌, ◌≤◌, String, true, List, [], ◌∷◌, ◌≡◌, refl, ap, ◌∙◌, arith,
}
use semiconductor_domain_lab.Models.{JobSpec}
use semiconductor_domain_lab.Client.{
  Response, RetryingJobClient, Submission, request, delay_of, slept, exhausted_message, judge,
  rounds, submit,
}

-- The delays of `count` retries from `retry_number` on, in microseconds: the milliseconds that each
-- response asks for, and the random part.
unfoldable pub delays : RetryingJobClient → (ℕ → ℕ) → ℕ → ℕ → List ℕ
delays client retry_after_ms retry_number zero = []
delays client retry_after_ms retry_number (suc count) =
    (retry_after_ms retry_number * 1000 + client.jitter retry_number)
    ∷ delays client retry_after_ms (suc retry_number) count

accepted_lem :
    (client : RetryingJobClient) (spec : JobSpec) (n : ℕ) (again : Submission × List ℕ)
    (text : String)
    → judge client spec n again (Response.opened text) ≡ (Submission.returned text, [])
unfolding judge
accepted_lem client spec n again text = refl

given_up :
    (client : RetryingJobClient) (spec : JobSpec) (n ms : ℕ) (again : Submission × List ℕ)
    → n ≡ client.max_backpressure_retries
    → judge client spec n again (Response.http_error 429 true ms)
      ≡ (Submission.exhausted (exhausted_message spec client.max_backpressure_retries), [])
unfolding judge
given_up client spec n ms again e = rw e (ground arith)

module _ (client : RetryingJobClient) (spec : JobSpec) (retry_after_ms : ℕ → ℕ) where
  -- The response to the n-th request is 429, and retryable.
  abbrev Backpressure : ℕ → Type 0
  Backpressure n =
      client.opener n (request client spec) ≡ Response.http_error 429 true (retry_after_ms n)

  -- A retry is made where the response asks for one and one is left.
  retried :
      (n : ℕ) (again : Submission × List ℕ) (response : Response)
      → n < client.max_backpressure_retries
      → response ≡ Response.http_error 429 true (retry_after_ms n)
      → judge client spec n again response ≡ slept (delay_of client n (retry_after_ms n)) again
  unfolding judge
  retried n again response bound h = rw h (ground (arith, bound))

  rounds-accepted :
      (count left n : ℕ) (text : String)
      → n + count ≤ client.max_backpressure_retries
      → count < left
      → ((i : ℕ) → n ≤ i → i < n + count → Backpressure i)
      → client.opener (n + count) (request client spec) ≡ Response.opened text
      → rounds client spec n left ≡ (Submission.returned text, delays client retry_after_ms n count)
  unfolding rounds delays
  rounds-accepted count zero n text bound room h k = absurd (omega (arith, room))
  rounds-accepted zero (suc left) n text bound room h k =
      ap (judge client spec n (rounds client spec (suc n) left))
        (ap (λ i. client.opener i (request client spec)) (omega arith) ∙ k)
      ∙ accepted_lem client spec n (rounds client spec (suc n) left) text
  rounds-accepted (suc count) (suc left) n text bound room h k =
      retried n (rounds client spec (suc n) left) (client.opener n (request client spec))
        (omega (arith, bound)) (h n (omega arith) (omega arith))
      ∙ ap (slept (delay_of client n (retry_after_ms n))) (
          rounds-accepted count left (suc n) text (omega (arith, bound)) (omega (arith, room))
            (λ i low high. h i (omega (arith, low)) (omega (arith, high)))
            (ap (λ i. client.opener i (request client spec)) (omega arith) ∙ k))

  rounds-exhausted :
      (count n : ℕ)
      → n + count ≡ client.max_backpressure_retries
      → ((i : ℕ) → n ≤ i → i ≤ n + count → Backpressure i)
      → rounds client spec n (suc count) ≡ (
        Submission.exhausted (exhausted_message spec client.max_backpressure_retries),
        delays client retry_after_ms n count,
      )
  unfolding rounds delays
  rounds-exhausted zero n bound h =
      ap (judge client spec n (Submission.exhausted "unreachable", []))
        (h n (omega arith) (omega arith))
      ∙ given_up client spec n (retry_after_ms n) _ (omega (arith, bound))
  rounds-exhausted (suc count) n bound h =
      retried n (rounds client spec (suc n) (suc count)) (client.opener n (request client spec))
        (omega (arith, bound)) (h n (omega arith) (omega arith))
      ∙ ap (slept (delay_of client n (retry_after_ms n))) (
          rounds-exhausted count (suc n) (omega (arith, bound))
            (λ i low high. h i (omega (arith, low)) (omega (arith, high))))

  -- A submission that the server turns away `count` times with a retryable 429, within the number of
  -- retries, and then takes, returns what the server says, and sleeps exactly `count` times, each time
  -- the milliseconds that the response asks for and the random part of that retry.
  pub submit-accepted :
      (count : ℕ) (text : String)
      → count ≤ client.max_backpressure_retries
      → ((i : ℕ) → i < count → Backpressure i)
      → client.opener count (request client spec) ≡ Response.opened text
      → submit client spec ≡ (Submission.returned text, delays client retry_after_ms 0 count)
  unfolding submit
  submit-accepted count text bound h k =
      rounds-accepted count (suc client.max_backpressure_retries) 0 text (omega (arith, bound))
        (omega (arith, bound)) (λ i low high. h i (omega (arith, high)))
        (ap (λ i. client.opener i (request client spec)) (omega arith) ∙ k)

  -- A submission that the server turns away with a retryable 429 on its first request and on each of
  -- its retries ends: it raises BackpressureRetryExhausted after the last one, having slept once less
  -- than it has sent requests.
  pub submit-exhausted :
      ((i : ℕ) → i ≤ client.max_backpressure_retries → Backpressure i)
      → submit client spec ≡ (
        Submission.exhausted (exhausted_message spec client.max_backpressure_retries),
        delays client retry_after_ms 0 client.max_backpressure_retries,
      )
  unfolding submit
  submit-exhausted h =
      rounds-exhausted client.max_backpressure_retries 0 (omega arith)
        (λ i low high. h i (omega (arith, high)))
