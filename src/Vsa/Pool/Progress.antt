-- ===== src/Vsa/Pool/Progress.antt =====
-- The number of workers, how many steps they make, and that they never wait for each other forever.
use ec_cli.Base.{
  ℕ, zero, suc, ◌+◌, ◌*◌, ◌≤◌, ◌<◌, ◌≡◌, ◌⊎◌, refl, sym, ap, subst, Text, List, [], ◌∷◌, ◌++◌,
  Option, none, if◌then◌else◌, length, length-append, arith, inl, inr, Bool-cases, true, false,
}
use ec_cli.Vsa.Rekor.{LogEntry}
use ec_cli.Vsa.Pool.{
  Pool, start, fetch, Step, send, close, stop_sending, take, begin, drop, deliver, fail, abandon,
  quit, close_results, collect, cancel, Reach, here, next, IsDone, get_worker_count,
  worker_count_for,
}

-- Where there is a UUID to fetch, between one and 64 workers are started, whatever the setting, and
-- not more than there are UUIDs.
pub worker_count_for_lem :
    (setting : Option ℕ) (u : Text) (us : List Text)
    → let workers = worker_count_for setting (u ∷ us) in
      (0 < workers) × (workers ≤ 64) × (workers ≤ length (u ∷ us))
unfolding worker_count_for get_worker_count
worker_count_for_lem setting u us = ground arith

ℕ-cases : (n : ℕ) → (n ≡ 0) ⊎ ((m : ℕ) × (n ≡ suc m))
ℕ-cases zero = inl refl
ℕ-cases (suc n) = inr (n, refl)

List-cases {ℓ} : {A : Type ℓ} (xs : List A) → (xs ≡ []) ⊎ ((x : A) × (ys : List A) × (xs ≡ x ∷ ys))
List-cases [] = inl refl
List-cases (x ∷ xs) = inr (x, xs, refl)

-- The steps that are left, at most.
abbrev work : Pool → ℕ
work p =
    5 * length p.unsent
    + 4 * length p.sent
    + 4 * length p.taken
    + 3 * length p.fetching
    + length p.results
    + p.idle
    + (if p.is_sent then 0 else 1)
    + (if p.is_closed then 0 else 1)
    + (if p.cancelled then 0 else 1)

taken_out :
    (l xs : List Text) (u : Text) (ys : List Text)
    → l ≡ xs ++ (u ∷ ys)
    → length l ≡ suc (length (xs ++ ys))
taken_out l xs u ys h = omega (arith, ap length h, length-append xs (u ∷ ys), length-append xs ys)

module _ (get : Text → Option LogEntry) where
  Step-work : (p q : Pool) → Step get p q → work q < work p
  Step-work p q (send u us f h e) =
      subst (λ r. work r < work p) (sym e)
        (omega (arith, ap length h, length-append p.sent (u ∷ [])))
  Step-work p q (close f h e) = subst (λ r. work r < work p) (sym e) (rw f (omega arith))
  Step-work p q (stop_sending c f e) = subst (λ r. work r < work p) (sym e) (rw f (omega arith))
  Step-work p q (take n u us i h e) =
      subst (λ r. work r < work p) (sym e) (omega (arith, ap length h, i))
  Step-work p q (begin xs u ys c h e) =
      subst (λ r. work r < work p) (sym e) (omega (arith, taken_out p.taken xs u ys h))
  Step-work p q (drop xs u ys c h e) =
      subst (λ r. work r < work p) (sym e) (omega (arith, taken_out p.taken xs u ys h))
  Step-work p q (deliver xs u ys h e) =
      subst (λ r. work r < work p) (sym e)
        (omega (arith, taken_out p.fetching xs u ys h, length-append p.results (fetch get u ∷ [])))
  Step-work p q (fail xs u ys c h e) =
      subst (λ r. work r < work p) (sym e)
        (omega (
          arith,
          taken_out p.fetching xs u ys h,
          length-append p.results (record { uuid = u; entry = none } ∷ []),
        ))
  Step-work p q (abandon xs u ys c h e) =
      subst (λ r. work r < work p) (sym e) (omega (arith, taken_out p.fetching xs u ys h))
  Step-work p q (quit n i h k e) = subst (λ r. work r < work p) (sym e) (omega (arith, i))
  Step-work p q (close_results i a b c e) =
      subst (λ r. work r < work p) (sym e) (rw c (omega arith))
  Step-work p q (collect r rs h e) =
      subst (λ s. work s < work p) (sym e) (omega (arith, ap length h))
  Step-work p q (cancel f e) = subst (λ r. work r < work p) (sym e) (rw f (omega arith))

  unfoldable pub count_steps : {p q : Pool} → Reach get p q → ℕ
  count_steps here = 0
  count_steps (next s r) = 1 + count_steps r

  Reach-work : {p q : Pool} (r : Reach get p q) → count_steps r + work q ≤ work p
  unfolding count_steps
  Reach-work here = omega arith
  Reach-work (next s r) = omega (arith, Step-work _ _ s, Reach-work r)

  -- No run of the pool has more than five steps for each UUID, one for each worker and three more.
  pub count_steps_bound :
      (workers : ℕ) (uuids : List Text) {p : Pool} (r : Reach get (start workers uuids) p)
      → count_steps r ≤ 5 * length uuids + workers + 3
  unfolding start
  count_steps_bound workers uuids r = omega (arith, Reach-work r)

  abbrev Moves : Pool → Type 0
  Moves p = (q : Pool) × Step get p q × (q.cancelled ≡ p.cancelled)

  sender-Moves : (p : Pool) → p.is_sent ≡ false → Moves p
  sender-Moves p f = elim (List-cases p.unsent) [
    | inl h ↦ (_, close f h refl, refl)
    | inr (u, us, h) ↦ (_, send u us f h refl, refl)
  ]

  idle-Moves : (p : Pool) (n : ℕ) → p.idle ≡ suc n → p.is_sent ≡ true → Moves p
  idle-Moves p n i s = elim (List-cases p.sent) [
    | inl h ↦ (_, quit n i h s refl, refl)
    | inr (u, us, h) ↦ (_, take n u us i h refl, refl)
  ]

  taken-Moves : (p : Pool) (u : Text) (us : List Text) → p.taken ≡ u ∷ us → Moves p
  taken-Moves p u us h = elim (Bool-cases p.cancelled) [
    | inl c ↦ (_, drop [] u us c h refl, refl)
    | inr c ↦ (_, begin [] u us c h refl, refl)
  ]

  results_move : (p : Pool) → p.is_closed ≡ true → IsDone p ⊎ Moves p
  results_move p c = elim (List-cases p.results) [
    | inl h ↦ inl (record { closed = c; results = h })
    | inr (r, rs, h) ↦ inr (_, collect r rs h refl, refl)
  ]

  -- The pool never blocks: in every state of it, the loop over the results is at its end, or the
  -- sender, a worker, the goroutine that waits for the workers or the loop can make a step, whether
  -- the context is cancelled or not, and without cancelling it.
  pub pool_moves : (p : Pool) → IsDone p ⊎ ((q : Pool) × Step get p q × (q.cancelled ≡ p.cancelled))
  pool_moves p = elim (Bool-cases p.is_sent) [
    | inr f ↦ inr (sender-Moves p f)
    | inl s ↦ elim (ℕ-cases p.idle) [
      | inr (n, i) ↦ inr (idle-Moves p n i s)
      | inl i ↦ elim (List-cases p.taken) [
        | inr (u, us, h) ↦ inr (taken-Moves p u us h)
        | inl a ↦ elim (List-cases p.fetching) [
          | inr (u, us, h) ↦ inr (_, deliver [] u us h refl, refl)
          | inl b ↦ elim (Bool-cases p.is_closed) [
            | inr c ↦ inr (_, close_results i a b c refl, refl)
            | inl c ↦ results_move p c
          ]
        ]
      ]
    ]
  ]
