-- ===== src/Vsa/Pool/Closing.antt =====
-- When the channels are closed: with a context that is not cancelled, not before all UUIDs are
-- fetched.
use ec_cli.Base.{
  ℕ, ◌+◌, ◌≡◌, ◌⊎◌, refl, sym, ◌∙◌, ap, subst, Text, List, [], ◌∷◌, Option, Bool, true, false,
  length, length-append, count_if, arith, inl, inr,
}
use ec_cli.Vsa.Rekor.{LogEntry}
use ec_cli.Vsa.Pool.{
  Pool, start, Step, send, close, stop_sending, take, begin, drop, deliver, fail, abandon, quit,
  close_results, collect, cancel, Reach, here, next, IsDone, get_worker_count, worker_count_for,
}

abbrev busy : Pool → ℕ
busy p = p.idle + length p.taken + length p.fetching

-- Workers end only at the closed and empty channel, the sender closes it after the last UUID, and
-- the results are closed after the last worker.
record IsOrderly (workers : ℕ) (p : Pool) : Type 0 where
  pub staffed : (busy p ≡ workers) ⊎ ((p.is_sent ≡ true) × (p.sent ≡ []))
  pub sent_all : p.is_sent ≡ true → p.unsent ≡ []
  pub ended : p.is_closed ≡ true → busy p ≡ 0

true-ne-false : {b : Bool} → b ≡ true → ¬ (b ≡ false)
true-ne-false h k = cc

module _ (get : Text → Option LogEntry) (workers : ℕ) where
  abbrev Goes : Pool → Pool → Type 0
  Goes p q =
      q.cancelled ≡ false → (p.cancelled ≡ false) × (IsOrderly workers p → IsOrderly workers q)

  Step-Goes : (p q : Pool) → Step get p q → Goes p q
  Step-Goes p q (send u us f h e) = subst (Goes p) (sym e) (λ n. (
    n,
    λ o. record {
      staffed = elim o.staffed [ inl b ↦ inl b | inr (s, x) ↦ absurd (true-ne-false s f) ];
      sent_all = λ s. absurd (true-ne-false s f);
      ended = o.ended;
    },
  ))
  Step-Goes p q (close f h e) = subst (Goes p) (sym e) (λ n. (
    n,
    λ o. record {
      staffed = elim o.staffed [ inl b ↦ inl b | inr (s, x) ↦ inr (refl, x) ];
      sent_all = λ s. h;
      ended = o.ended;
    },
  ))
  Step-Goes p q (stop_sending c f e) = subst (Goes p) (sym e) (λ n. absurd (true-ne-false c n))
  Step-Goes p q (take m u us i h e) = subst (Goes p) (sym e) (λ n. (
    n,
    λ o. record {
      staffed = elim o.staffed [ inl b ↦ inl (omega (arith, b, i)) | inr (s, x) ↦ cc ];
      sent_all = o.sent_all;
      ended = λ s. omega (arith, o.ended s, i);
    },
  ))
  Step-Goes p q (begin xs u ys c h e) = subst (Goes p) (sym e) (λ n. (
    n,
    λ o.
        let l = ap length h in
        let l1 = length-append xs (u ∷ ys) in
        let l2 = length-append xs ys in
        record {
          staffed = elim o.staffed [ inl b ↦ inl (omega (arith, b, l, l1, l2)) | inr x ↦ inr x ];
          sent_all = o.sent_all;
          ended = λ s. omega (arith, o.ended s, l, l1, l2);
        },
  ))
  Step-Goes p q (drop xs u ys c h e) = subst (Goes p) (sym e) (λ n. absurd (true-ne-false c n))
  Step-Goes p q (deliver xs u ys h e) = subst (Goes p) (sym e) (λ n. (
    n,
    λ o.
        let l = ap length h in
        let l1 = length-append xs (u ∷ ys) in
        let l2 = length-append xs ys in
        record {
          staffed = elim o.staffed [ inl b ↦ inl (omega (arith, b, l, l1, l2)) | inr x ↦ inr x ];
          sent_all = o.sent_all;
          ended = λ s. omega (arith, o.ended s, l, l1, l2);
        },
  ))
  Step-Goes p q (fail xs u ys c h e) = subst (Goes p) (sym e) (λ n. absurd (true-ne-false c n))
  Step-Goes p q (abandon xs u ys c h e) = subst (Goes p) (sym e) (λ n. absurd (true-ne-false c n))
  Step-Goes p q (quit m i h k e) = subst (Goes p) (sym e) (λ n. (
    n,
    λ o. record {
      staffed = inr (k, h);
      sent_all = o.sent_all;
      ended = λ s. omega (arith, o.ended s, i);
    },
  ))
  Step-Goes p q (close_results i a b c e) = subst (Goes p) (sym e) (λ n. (
    n,
    λ o. record {
      staffed = o.staffed;
      sent_all = o.sent_all;
      ended = λ s. omega (arith, i, ap length a, ap length b);
    },
  ))
  Step-Goes p q (collect r rs h e) =
      subst (Goes p) (sym e)
        (λ n. (n, λ o. record { staffed = o.staffed; sent_all = o.sent_all; ended = o.ended }))
  Step-Goes p q (cancel f e) = subst (Goes p) (sym e) (λ n. cc)

  Reach-Goes : {p q : Pool} → Reach get p q → Goes p q
  Reach-Goes here n = (n, λ o. o)
  Reach-Goes (next s r) n =
      let (m, f) = Reach-Goes r n in let (k, g) = Step-Goes _ _ s m in (k, λ o. f (g o))

start-IsOrderly : (workers : ℕ) (uuids : List Text) → IsOrderly workers (start workers uuids)
unfolding start
start-IsOrderly workers uuids = record {
  staffed = inl (omega arith);
  sent_all = λ s. cc;
  ended = λ s. cc;
}

no_elements : (w : Text → Bool) (xs : List Text) → length xs ≡ 0 → count_if w xs ≡ 0
unfolding count_if
no_elements w [] h = refl
no_elements w (x ∷ xs) h = absurd (omega (arith, h))

some_workers :
    (setting : Option ℕ) (uuids : List Text) → worker_count_for setting uuids ≡ 0 → length uuids ≡ 0
unfolding worker_count_for get_worker_count
some_workers setting uuids h = ground (arith, h)

-- At the end, no UUID is left anywhere; unless there was no worker, for there was no UUID.
pub nothing_left :
    (get : Text → Option LogEntry) (setting : Option ℕ) (uuids : List Text) (p : Pool)
    (w : Text → Bool)
    → Reach get (start (worker_count_for setting uuids) uuids) p
    → IsDone p
    → p.cancelled ≡ false
    → (count_if w uuids ≡ 0)
      ⊎ (count_if w p.unsent + count_if w p.sent + count_if w p.taken + count_if w p.fetching ≡ 0)
unfolding count_if
nothing_left get setting uuids p w r d n =
    let o = (Reach-Goes get _ r n).1 (start-IsOrderly _ uuids) in
    let b = o.ended d.closed in
    let taken = no_elements w p.taken (omega (arith, b)) in
    let fetching = no_elements w p.fetching (omega (arith, b)) in
    elim o.staffed [
      | inl a ↦ inl (no_elements w uuids (some_workers setting uuids (sym a ∙ b)))
      | inr (s, e) ↦
          inr (omega (arith, taken, fetching, ap (count_if w) e, ap (count_if w) (o.sent_all s)))
    ]
