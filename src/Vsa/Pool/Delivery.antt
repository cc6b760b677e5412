-- ===== src/Vsa/Pool/Delivery.antt =====
-- What the workers deliver: the entry of every UUID, whatever the interleaving.
use ec_cli.Base.{
  ℕ, ◌+◌, ◌≡◌, refl, sym, ◌∙◌, ap, subst, Text, List, [], ◌∷◌, ◌++◌, Option, none, some, Bool,
  false, if◌then◌else◌, count_if, arith, Bool-cases, Option-cases, inl, inr,
}
use ec_cli.Output.Counting.{count_if-append}
use ec_cli.Vsa.Rekor.{LogEntry}
use ec_cli.Vsa.Pool.{
  FetchResult, Pool, start, fetch, Step, send, close, stop_sending, take, begin, drop, deliver,
  fail, abandon, quit, close_results, collect, cancel, Reach, here, next, IsDone, entries_of,
  returned, worker_count_for,
}
use ec_cli.Vsa.Pool.Closing.{nothing_left}

-- A list that is taken apart at one element.
count_if_split {ℓ} :
    {A : Type ℓ} (t : A → Bool) (l xs : List A) (x : A) (ys : List A)
    → l ≡ xs ++ (x ∷ ys)
    → count_if t l ≡ (if t x then 1 else 0) + count_if t (xs ++ ys)
unfolding count_if
count_if_split t l xs x ys h =
    omega (arith, ap (count_if t) h, count_if-append t xs (x ∷ ys), count_if-append t xs ys)

count_if_last {ℓ} :
    {A : Type ℓ} (t : A → Bool) (xs : List A) (x : A)
    → count_if t (xs ++ (x ∷ [])) ≡ (if t x then 1 else 0) + count_if t xs
unfolding count_if
count_if_last t xs x = omega (arith, count_if-append t xs (x ∷ []))

module _ (get : Text → Option LogEntry) (t : FetchResult → Bool) where
  abbrev waiting : Text → Bool
  waiting u = t (fetch get u)

  -- How many results with a property there are or will be.
  abbrev total : Pool → ℕ
  total p =
      count_if waiting p.unsent
      + count_if waiting p.sent
      + count_if waiting p.taken
      + count_if waiting p.fetching
      + count_if t p.results
      + count_if t p.collected

  abbrev Keeps : Pool → Pool → Type 0
  Keeps p q = (p.cancelled ≡ false) × (total q ≡ total p)

  Step-Keeps : (p q : Pool) → Step get p q → q.cancelled ≡ false → Keeps p q
  unfolding count_if
  Step-Keeps p q (send u us f h e) n = subst (Keeps p) (sym e) (
    ap (λ x. x.cancelled) (sym e) ∙ n,
    omega (arith, count_if_split waiting p.unsent [] u us h, count_if_last waiting p.sent u),
  )
  Step-Keeps p q (close f h e) n = subst (Keeps p) (sym e) (ap (λ x. x.cancelled) (sym e) ∙ n, refl)
  Step-Keeps p q (stop_sending c f e) n = cc (ap (λ x. x.cancelled) e)
  Step-Keeps p q (take m u us i h e) n =
      subst (Keeps p) (sym e)
        (ap (λ x. x.cancelled) (sym e) ∙ n, omega (arith, count_if_split waiting p.sent [] u us h))
  Step-Keeps p q (begin xs u ys c h e) n =
      subst (Keeps p) (sym e) (c, omega (arith, count_if_split waiting p.taken xs u ys h))
  Step-Keeps p q (drop xs u ys c h e) n = cc (ap (λ x. x.cancelled) e)
  Step-Keeps p q (deliver xs u ys h e) n = subst (Keeps p) (sym e) (
    ap (λ x. x.cancelled) (sym e) ∙ n,
    omega (
      arith,
      count_if_split waiting p.fetching xs u ys h,
      count_if_last t p.results (fetch get u),
    ),
  )
  Step-Keeps p q (fail xs u ys c h e) n = cc (ap (λ x. x.cancelled) e)
  Step-Keeps p q (abandon xs u ys c h e) n = cc (ap (λ x. x.cancelled) e)
  Step-Keeps p q (quit m i h k e) n =
      subst (Keeps p) (sym e) (ap (λ x. x.cancelled) (sym e) ∙ n, refl)
  Step-Keeps p q (close_results i a b c e) n =
      subst (Keeps p) (sym e) (ap (λ x. x.cancelled) (sym e) ∙ n, refl)
  Step-Keeps p q (collect r rs h e) n = subst (Keeps p) (sym e) (
    ap (λ x. x.cancelled) (sym e) ∙ n,
    omega (arith, count_if_split t p.results [] r rs h, count_if_last t p.collected r),
  )
  Step-Keeps p q (cancel f e) n = cc (ap (λ x. x.cancelled) e)

  Reach-Keeps : {p q : Pool} → Reach get p q → q.cancelled ≡ false → Keeps p q
  Reach-Keeps here n = (n, refl)
  Reach-Keeps (next s r) n =
      let (m, e) = Reach-Keeps r n in let (k, f) = Step-Keeps _ _ s m in (k, e ∙ f)

unfoldable pub has_entry : (LogEntry → Bool) → Option LogEntry → Bool
has_entry t none = false
has_entry t (some e) = t e

count_if-entries_of :
    (t : LogEntry → Bool) (rs : List FetchResult)
    → count_if t (entries_of rs) ≡ count_if (λ r. has_entry t r.entry) rs
unfolding entries_of count_if has_entry
count_if-entries_of t [] = refl
count_if-entries_of t (r ∷ rs) = elim (Option-cases r.entry) [
  | inl e ↦ rw e (omega (arith, count_if-entries_of t rs))
  | inr (x, e) ↦ rw e (omega (arith, count_if-entries_of t rs))
]

-- Whatever the interleaving of the sender, the workers, the closing of the channels and the
-- collection, once the loop over the results has come to its end and unless the context was
-- cancelled, the entries that are returned are exactly those that the log has for the UUIDs, each
-- as often as its UUID is given; for any setting of the number of workers.
pub returned_lem :
    (get : Text → Option LogEntry) (setting : Option ℕ) (uuids : List Text) (p : Pool)
    (entries : List LogEntry) (t : LogEntry → Bool)
    → Reach get (start (worker_count_for setting uuids) uuids) p
    → IsDone p
    → returned p ≡ some entries
    → count_if t entries ≡ count_if (λ u. has_entry t (get u)) uuids
unfolding returned start fetch count_if
returned_lem get setting uuids p entries t r d h = elim (Bool-cases p.cancelled) [
  | inl e ↦ cc (rw e at h)
  | inr e ↦
      let c : FetchResult → Bool = λ x. has_entry t x.entry in
      let w : Text → Bool = λ u. has_entry t (get u) in
      let (m, k) = Reach-Keeps get c r e in
      let same : entries_of p.collected ≡ entries = cc (rw e at h) in
      let left = nothing_left get setting uuids p w r d e in
      ap (count_if t) (sym same)
      ∙ (count_if-entries_of t p.collected ∙ omega (arith, k, left, ap (count_if c) d.results))
]
