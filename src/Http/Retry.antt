-- ===== src/Http/Retry.antt =====
-- internal/http/retry.go: the transport that repeats a request. The wrapped transport is a function
-- from the attempt to its reply, so is the cancellation of the request's context while the backoff
-- is waited for. The backoff before the cap is a parameter: it is computed in floats with a random
-- jitter. Durations are numbers of nanoseconds, and the number of retries is not negative.
pub mod Attempts
use ec_cli.Base.{
  ℕ, zero, suc, ◌+◌, Text, List, [], ◌∷◌, ◌++◌, Option, none, some, Bool, true, false, ◌||◌, ltb,
  ◌==◌, nat_eq, if◌then◌else◌,
}

pub data Reply : Type 0 where
  network_error : Text → Reply
  response : ℕ → Reply

-- An error of the wrapped transport, or that of the cancelled context.
pub data TripError : Type 0 where
  transport_error : Text → TripError
  cancelled : TripError

-- The pair that `RoundTrip` returns, with the backoffs that were waited for on the way.
pub record Trip : Type 0 where
  pub last_response : Option ℕ
  pub last_error : Option TripError
  pub waits : List ℕ

pub record RetryTransport : Type 0 where
  pub max_wait : ℕ
  pub max_retry : ℕ
  pub duration : ℕ
  pub raw_backoff : ℕ → ℕ

-- 429, 408 and 503
unfoldable pub is_retried : ℕ → Bool
is_retried status = status == 429 || status == 408 || status == 503

unfoldable pub calculate_backoff : RetryTransport → ℕ → ℕ
calculate_backoff t attempt =
    if attempt == 0
    then t.duration
    else if ltb t.max_wait (t.raw_backoff attempt)
    then t.max_wait
    else t.raw_backoff attempt

module _ (t : RetryTransport) (base : ℕ → Reply) (is_done : ℕ → Bool) where
  -- The loop with `left` attempts to go.
  unfoldable pub attempts : ℕ → ℕ → Trip → Trip
  attempts zero attempt trip = trip
  attempts (suc left) attempt trip = elim (base attempt) [
    | network_error e ↦
        attempts left (attempt + 1) (record trip { last_error = some (transport_error e) })
    | response status ↦ elim (is_retried status) [
      | true ↦ elim (is_done attempt) [
        | true ↦ record trip { last_response = some status; last_error = some cancelled }
        | false ↦ attempts left (attempt + 1) (record {
          last_response = some status;
          last_error = none;
          waits = trip.waits ++ calculate_backoff t attempt ∷ [];
        })
      ]
      | false ↦ record trip { last_response = some status; last_error = none }
    ]
  ]

  unfoldable pub round_trip : Trip
  round_trip =
      attempts (suc t.max_retry) 0 (record { last_response = none; last_error = none; waits = [] })
