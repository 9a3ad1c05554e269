-- ===== src/Serve/Upload/Retries.antt =====
-- How an upload is retried.
use passalong.Prelude.{
  ℕ, zero, suc, ◌+◌, ◌^◌, ◌≡◌, refl, ap, ◌∙◌, min, none, List, [], ◌∷◌, ◌++◌, length, All, arith,
}
use passalong.Serve.Backoff
use passalong.Serve.Backoff.{Backoff, after_attempts, reset, next_delay-after_attempts, max_delay}
use passalong.Serve.Upload.{Round, at_once, after_wait, handle_with_retries}

-- A round after which the job is tried again
abbrev pub IsRetry : Round → Type 0
IsRetry r = (at_once r.attempt ≡ none) × (after_wait r ≡ none)

-- The delays of `n` retries, the first after `k` others
pub delays_from : ℕ → ℕ → List ℕ
delays_from k zero = []
delays_from k (suc n) = min (2 ^ k) max_delay ∷ delays_from (suc k) n

zero_plus : (n : ℕ) → 0 + n ≡ n
zero_plus n = omega arith

-- A round that is tried again costs its delay.
retry-step :
    (b : Backoff) (r : Round) (rounds : List Round)
    → IsRetry r
    → handle_with_retries b (r ∷ rounds) ≡ (
      (Backoff.next_delay b).0 ∷ (handle_with_retries (Backoff.next_delay b).1 rounds).0,
      (handle_with_retries (Backoff.next_delay b).1 rounds).1,
    )
unfolding handle_with_retries
retry-step b r rounds h = ground (arith, h.0, h.1)

next-after_attempts :
    (k : ℕ) (b : Backoff) → (Backoff.next_delay (after_attempts k b)).1 ≡ after_attempts (suc k) b
unfolding after_attempts
next-after_attempts k b = refl

retries-from :
    (b : Backoff) (k : ℕ) (failed rest : List Round)
    → All IsRetry failed
    → handle_with_retries (after_attempts k (reset b)) (failed ++ rest) ≡ (
      delays_from k (length failed)
          ++ (handle_with_retries (after_attempts (k + length failed) (reset b)) rest).0,
      (handle_with_retries (after_attempts (k + length failed) (reset b)) rest).1,
    )
unfolding delays_from
retries-from b k [] rest h =
    ap (λ n. handle_with_retries (after_attempts n (reset b)) rest) (omega arith)
retries-from b k (r ∷ failed) rest h =
    let ih = retries-from b (suc k) failed rest h.1 in
    let delay = next_delay-after_attempts k b in
    let next = next-after_attempts k (reset b) in
    let sums : suc k + length failed ≡ k + length (r ∷ failed) = omega arith in
    let answer = λ (n : ℕ). handle_with_retries (after_attempts n (reset b)) rest in
    retry-step (after_attempts k (reset b)) r (failed ++ rest) h.0
    ∙ rw (delay, next, ih)
        (ap
          (λ n. (
            min (2 ^ k) max_delay ∷ (delays_from (suc k) (length failed) ++ (answer n).0),
            (answer n).1,
          ))
          sums)

-- Rounds after which the job is tried again are waited for 1, 2, 4, ... and at most 60 seconds, and
-- then the job goes as the rounds after them say, with the backoff that these failures left.
pub handle_with_retries-append :
    (b : Backoff) (failed rest : List Round)
    → All IsRetry failed
    → handle_with_retries (reset b) (failed ++ rest) ≡ (
      delays_from 0 (length failed)
          ++ (handle_with_retries (after_attempts (length failed) (reset b)) rest).0,
      (handle_with_retries (after_attempts (length failed) (reset b)) rest).1,
    )
unfolding after_attempts
handle_with_retries-append b failed rest h =
    retries-from b 0 failed rest h
    ∙ ap
        (λ n. (
          delays_from 0 (length failed)
              ++ (handle_with_retries (after_attempts n (reset b)) rest).0,
          (handle_with_retries (after_attempts n (reset b)) rest).1,
        ))
        (zero_plus (length failed))
