-- ===== src/Http/Retry/Attempts.antt =====
-- Which attempts are made, and what the transport returns after them.
use ec_cli.Base.{
  refl, ℕ, zero, suc, ◌+◌, ◌≤◌, ◌≡◌, sym, contains, nat_eq, ap, ap₂, ◌-◌, ◌∙◌, arith, Text, [], ◌∷◌,
  ◌++◌, none, some, Bool, true, false,
}
use ec_cli.Http.Retry.{
  Reply, network_error, response, transport_error, Trip, RetryTransport, is_retried,
  calculate_backoff, attempts, round_trip,
}

-- A reply after which the transport tries again: a network error, or one of three statuses.
unfoldable pub tries_again : Reply → Bool
tries_again (network_error e) = true
tries_again (response status) = contains (429 ∷ 408 ∷ 503 ∷ []) status

is_retried_lem : (status : ℕ) → is_retried status ≡ contains (429 ∷ 408 ∷ 503 ∷ []) status
unfolding is_retried contains
is_retried_lem status = ground arith

unfoldable is_tried_again : Reply → Bool
is_tried_again (network_error e) = true
is_tried_again (response status) = is_retried status

tries_again_lem : (r : Reply) → tries_again r ≡ is_tried_again r
unfolding tries_again is_tried_again
tries_again_lem (network_error e) = refl
tries_again_lem (response status) = sym (is_retried_lem status)

module _ (t : RetryTransport) (base : ℕ → Reply) (is_done : ℕ → Bool) where
  -- What one attempt that is followed by another leaves.
  abbrev noted : Reply → ℕ → Trip → Trip
  noted (network_error e) attempt trip = record trip { last_error = some (transport_error e) }
  noted (response status) attempt trip = record {
    last_response = some status;
    last_error = none;
    waits = trip.waits ++ calculate_backoff t attempt ∷ [];
  }

  -- What `k` such attempts leave.
  noted_all : ℕ → ℕ → Trip → Trip
  noted_all zero attempt trip = trip
  noted_all (suc k) attempt trip = noted_all k (attempt + 1) (noted (base attempt) attempt trip)

  -- The `k` attempts from this one on are each followed by another.
  abbrev pub AllRetried : ℕ → ℕ → Type 0
  AllRetried zero attempt = Unit
  AllRetried (suc k) attempt =
      (tries_again (base attempt) ≡ true) × (is_done attempt ≡ false) × AllRetried k (attempt + 1)

  attempts_retried :
      (left attempt : ℕ) (trip : Trip)
      → tries_again (base attempt) ≡ true
      → is_done attempt ≡ false
      → attempts t base is_done (suc left) attempt trip
        ≡ attempts t base is_done left (attempt + 1) (noted (base attempt) attempt trip)
  attempts_retried left attempt trip h k = retried (sym (tries_again_lem (base attempt)) ∙ h)
    where
      retried :
          is_tried_again (base attempt) ≡ true
          → attempts t base is_done (suc left) attempt trip
            ≡ attempts t base is_done left (attempt + 1) (noted (base attempt) attempt trip)
      retried h = unfold is_tried_again attempts in ground arith

  attempts-AllRetried :
      (k left attempt : ℕ) (trip : Trip)
      → AllRetried k attempt
      → attempts t base is_done (k + left) attempt trip
        ≡ attempts t base is_done left (attempt + k) (noted_all k attempt trip)
  unfolding noted_all
  attempts-AllRetried zero left attempt trip h =
      ap₂ (λ l a. attempts t base is_done l a trip) (omega arith) (omega arith)
  attempts-AllRetried (suc k) left attempt trip (h, g, hs) =
      ap (λ l. attempts t base is_done l attempt trip) (omega arith)
      ∙ attempts_retried (k + left) attempt trip h g
      ∙ attempts-AllRetried k left (attempt + 1) _ hs
      ∙ ap (λ a. attempts t base is_done left a (noted_all (suc k) attempt trip)) (omega arith)

  abbrev fresh : Trip
  fresh = record { last_response = none; last_error = none; waits = [] }

  round_trip_after :
      (k left : ℕ)
      → suc t.max_retry ≡ k + suc left
      → AllRetried k 0
      → round_trip t base is_done ≡ attempts t base is_done (suc left) k (noted_all k 0 fresh)
  unfolding round_trip
  round_trip_after k left e h =
      ap (λ l. attempts t base is_done l 0 fresh) e
      ∙ attempts-AllRetried k (suc left) 0 fresh h
      ∙ ap (λ a. attempts t base is_done (suc left) a (noted_all k 0 fresh)) (omega arith)

  -- A response whose status is not 429, 408 or 503 ends the request with that status and no error,
  -- if all attempts before it are network errors or have one of these three statuses, the request
  -- is not cancelled at any of them, and they are no more than the retries.
  pub round_trip_decisive :
      (k status : ℕ)
      → k ≤ t.max_retry
      → AllRetried k 0
      → base k ≡ response status
      → contains (429 ∷ 408 ∷ 503 ∷ []) status ≡ false
      → ((round_trip t base is_done).last_response ≡ some status)
        × ((round_trip t base is_done).last_error ≡ none)
  round_trip_decisive k status le h e r =
      let after = round_trip_after k (t.max_retry - k) (omega arith) h in
      let last =
        decided (t.max_retry - k) k status (noted_all k 0 fresh) e (is_retried_lem status ∙ r) in
      (
        ap (λ (x : Trip). x.last_response) after ∙ last.0,
        ap (λ (x : Trip). x.last_error) after ∙ last.1,
      )
    where
      decided :
          (left attempt status : ℕ) (trip : Trip)
          → base attempt ≡ response status
          → is_retried status ≡ false
          → ((attempts t base is_done (suc left) attempt trip).last_response ≡ some status)
            × ((attempts t base is_done (suc left) attempt trip).last_error ≡ none)
      decided left attempt status trip e r = unfold attempts in ground arith

  zero-add : (n : ℕ) → 0 + n ≡ n
  zero-add n = omega arith

  noted_all-snoc :
      (k attempt : ℕ) (trip : Trip)
      → noted_all (suc k) attempt trip
        ≡ noted (base (attempt + k)) (attempt + k) (noted_all k attempt trip)
  unfolding noted_all
  noted_all-snoc zero attempt trip = ap (λ a. noted (base a) a trip) (omega arith)
  noted_all-snoc (suc k) attempt trip =
      noted_all-snoc k (attempt + 1) _
      ∙ ap (λ a. noted (base a) a (noted_all (suc k) attempt trip)) (omega arith)

  -- After the last attempt there is nothing left to do.
  round_trip_exhausted :
      AllRetried (suc t.max_retry) 0
      → round_trip t base is_done ≡ noted_all (suc t.max_retry) 0 fresh
  unfolding round_trip attempts
  round_trip_exhausted h =
      let e : suc t.max_retry ≡ suc t.max_retry + 0 = omega arith in
      ap (λ l. attempts t base is_done l 0 fresh) e
      ∙ attempts-AllRetried (suc t.max_retry) 0 0 fresh h

  last_noted :
      AllRetried (suc t.max_retry) 0
      → round_trip t base is_done
        ≡ noted (base t.max_retry) t.max_retry (noted_all t.max_retry 0 fresh)
  last_noted h =
      let e : 0 + t.max_retry ≡ t.max_retry = omega arith in
      round_trip_exhausted h
      ∙ noted_all-snoc t.max_retry 0 fresh
      ∙ ap (λ a. noted (base a) a (noted_all t.max_retry 0 fresh)) e

  -- With every attempt retried, the transport returns what the last one gave: a response without an
  -- error, or an error.
  round_trip_exhausted_lem :
      AllRetried (suc t.max_retry) 0
      → ((status : ℕ)
          → base t.max_retry ≡ response status
          → ((round_trip t base is_done).last_response ≡ some status)
            × ((round_trip t base is_done).last_error ≡ none))
        × ((e : Text)
            → base t.max_retry ≡ network_error e
            → (round_trip t base is_done).last_error ≡ some (transport_error e))
  round_trip_exhausted_lem h =
      let l = last_noted h in (λ status e. ground arith, λ x e. ground arith)

  -- A response with one of the three statuses, followed by a network error in the last attempt, is
  -- returned together with that error: both parts of the result are set. All attempts are retried,
  -- and the request is not cancelled.
  pub round_trip_both :
      (before status : ℕ) (e : Text)
      → t.max_retry ≡ suc before
      → AllRetried (suc t.max_retry) 0
      → base before ≡ response status
      → base t.max_retry ≡ network_error e
      → ((round_trip t base is_done).last_response ≡ some status)
        × ((round_trip t base is_done).last_error ≡ some (transport_error e))
  round_trip_both before status e m h b l =
      let last = last_noted h in
      let n : noted_all t.max_retry 0 fresh
          ≡ noted (base before) before (noted_all before 0 fresh) =
        ap (λ k. noted_all k 0 fresh) m
        ∙ noted_all-snoc before 0 fresh
        ∙ ap (λ a. noted (base a) a (noted_all before 0 fresh)) (zero-add before) in
      (ground arith, ground arith)
