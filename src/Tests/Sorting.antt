-- ===== src/Tests/Sorting.antt =====
-- An insertion sort, latest first, as an instance of `sort.Slice`.
use ec_cli.Base.{
  ℕ, ◌≡◌, refl, ◌∙◌, ap, subst, List, [], ◌∷◌, Bool, false, ltb, ◌||◌, if◌then◌else◌, any, arith,
  Bool-cases, inl, inr,
}
use ec_cli.Validation.{is_after}
use ec_cli.Validation.AttestationTime.{SortsTimes}

insert_time : ℕ → List ℕ → List ℕ
insert_time t [] = t ∷ []
insert_time t (u ∷ us) = let rest = insert_time t us in if ltb t u then u ∷ rest else t ∷ u ∷ us

unfoldable pub sort_times : (ℕ → ℕ → Bool) → List ℕ → List ℕ
unfolding insert_time
sort_times less [] = []
sort_times less (t ∷ ts) = insert_time t (sort_times less ts)

any-insert_time :
    (p : ℕ → Bool) (t : ℕ) (us : List ℕ) → any p (insert_time t us) ≡ (p t || any p us)
unfolding any insert_time
any-insert_time p t [] = refl
any-insert_time p t (u ∷ us) = ground (arith, any-insert_time p t us)

any-sort_times :
    (less : ℕ → ℕ → Bool) (p : ℕ → Bool) (ts : List ℕ) → any p (sort_times less ts) ≡ any p ts
unfolding any sort_times
any-sort_times less p [] = refl
any-sort_times less p (t ∷ ts) =
    any-insert_time p t (sort_times less ts) ∙ ap (λ b. p t || b) (any-sort_times less p ts)

IsDescending : List ℕ → Type 0
IsDescending [] = Unit
IsDescending (t ∷ ts) = (any (λ u. ltb t u) ts ≡ false) × IsDescending ts

none_above :
    (t u : ℕ) (us : List ℕ)
    → ltb t u ≡ false
    → any (λ v. ltb u v) us ≡ false
    → any (λ v. ltb t v) us ≡ false
unfolding any
none_above t u [] h k = refl
none_above t u (v ∷ us) h k = ground (arith, none_above t u us h)

insert_time-IsDescending : (t : ℕ) (us : List ℕ) → IsDescending us → IsDescending (insert_time t us)
unfolding insert_time IsDescending any
insert_time-IsDescending t [] d = (refl, tt)
insert_time-IsDescending t (u ∷ us) (h, d) = elim (Bool-cases (ltb t u)) [
  | inl e ↦
      rw e (
        any-insert_time (λ v. ltb u v) t us ∙ ground (arith, h, e),
        insert_time-IsDescending t us d,
      )
  | inr e ↦ rw e (ground (arith, none_above t u us e h), (h, d))
]

sort_times-IsDescending : (less : ℕ → ℕ → Bool) (ts : List ℕ) → IsDescending (sort_times less ts)
unfolding sort_times IsDescending
sort_times-IsDescending less [] = tt
sort_times-IsDescending less (t ∷ ts) =
    insert_time-IsDescending t (sort_times less ts) (sort_times-IsDescending less ts)

pub sort_times-SortsTimes : SortsTimes sort_times
unfolding IsDescending is_after
sort_times-SortsTimes = record {
  keeps = any-sort_times is_after;
  first = λ ts t rest e. (subst IsDescending e (sort_times-IsDescending is_after ts)).0;
}
