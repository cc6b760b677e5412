-- ===== src/Tracker/Records.antt =====
-- The records of one group after filtering and expiry.
use ec_cli.Base.{
  ◌*◌, ap₂, Option-cases, ℕ, ◌+◌, ◌≡◌, ◌≢◌, refl, ap, ◌∙◌, sym, subst, arith, Text, List, [], ◌∷◌,
  is_empty, none, some, true, false, ◌==◌, text_eq, if◌then◌else◌, keep, All, Bool-cases, inl, inr,
}
use ec_cli.Tracker.{
  one_day, expire_one, TaskRecord, unique_from, filter_records, is_relevant, expire_records,
  expire_rest, Tracker, set_expiration,
}

-- Neighbours have different references, and the oldest reference is not empty.
abbrev pub Settled : List TaskRecord → Type 0
Settled [] = Unit
Settled (r ∷ []) = is_empty r.ref ≡ false
Settled (r ∷ s ∷ records) = (s.ref ≢ r.ref) × Settled (s ∷ records)

head_ref : List TaskRecord → Text
head_ref [] = []
head_ref (r ∷ records) = r.ref

-- The reference that the loop saw last is that of the newest record, kept or not.
last_ref_lem : (records : List TaskRecord) → (unique_from records).0 ≡ head_ref records
unfolding unique_from head_ref
last_ref_lem [] = refl
last_ref_lem (r ∷ records) = ground arith

-- Records of which each stands for a run of equal references: the oldest of the run. The run at the
-- old end is dropped if its reference is empty.
unfoldable pub oldest_of_runs : List TaskRecord → List TaskRecord
oldest_of_runs [] = []
oldest_of_runs (r ∷ []) = if is_empty r.ref then [] else r ∷ []
oldest_of_runs (r ∷ s ∷ records) =
    let rest = oldest_of_runs (s ∷ records) in if s.ref == r.ref then rest else r ∷ rest

nil-eq : (t : Text) → ([] == t) ≡ is_empty t
nil-eq [] = ground arith
nil-eq (c ∷ t) = ground arith

unique_from_lem : (records : List TaskRecord) → (unique_from records).1 ≡ oldest_of_runs records
unfolding unique_from oldest_of_runs
unique_from_lem [] = refl
unique_from_lem (r ∷ []) = ground (arith, nil-eq r.ref)
unique_from_lem (r ∷ s ∷ records) =
    ground (arith, last_ref_lem (s ∷ records), unique_from_lem (s ∷ records))

Settled-cons :
    (r : TaskRecord) (l : List TaskRecord) (next : Text)
    → next ≢ r.ref
    → (l ≢ [] → head_ref l ≡ next)
    → (l ≡ [] → is_empty r.ref ≡ false)
    → Settled l
    → Settled (r ∷ l)
unfolding head_ref
Settled-cons r [] next h g e s = e refl
Settled-cons r (t ∷ l) next h g e s = (λ q. h (sym (g (λ n. cc)) ∙ q), s)

head_ref-oldest_of_runs :
    (r : TaskRecord) (records : List TaskRecord)
    → oldest_of_runs (r ∷ records) ≢ []
    → head_ref (oldest_of_runs (r ∷ records)) ≡ r.ref
unfolding oldest_of_runs head_ref
head_ref-oldest_of_runs r [] h = ground arith
head_ref-oldest_of_runs r (s ∷ records) h = ground (arith, head_ref-oldest_of_runs s records)

oldest_of_runs-nil :
    (s : TaskRecord) (records : List TaskRecord) → oldest_of_runs (s ∷ records) ≡ [] → s.ref ≡ []
unfolding oldest_of_runs
oldest_of_runs-nil s [] h = go s.ref refl h
  where
    go : (t : Text) → s.ref ≡ t → (if is_empty s.ref then [] else s ∷ []) ≡ [] → s.ref ≡ []
    go [] e k = e
    go (c ∷ t) e k = ground arith
oldest_of_runs-nil s (t ∷ records) h = ground (arith, oldest_of_runs-nil t records)

oldest_of_runs-Settled : (records : List TaskRecord) → Settled (oldest_of_runs records)
unfolding oldest_of_runs
oldest_of_runs-Settled [] = tt
oldest_of_runs-Settled (r ∷ []) = elim (Bool-cases (is_empty r.ref)) [
  | inl e ↦ rw e tt
  | inr e ↦ rw e e
]
oldest_of_runs-Settled (r ∷ s ∷ records) = elim (Bool-cases (s.ref == r.ref)) [
  | inl e ↦ rw e (oldest_of_runs-Settled (s ∷ records))
  | inr e ↦ rw e (
      Settled-cons r (oldest_of_runs (s ∷ records)) s.ref (ground arith)
        (head_ref-oldest_of_runs s records)
        (λ n. not_empty r.ref (oldest_of_runs-nil s records n) e)
        (oldest_of_runs-Settled (s ∷ records)))
]
  where
    not_empty : (t : Text) → s.ref ≡ [] → (s.ref == t) ≡ false → is_empty t ≡ false
    not_empty [] n e = ground arith
    not_empty (c ∷ t) n e = refl

oldest_of_runs_id : (records : List TaskRecord) → Settled records → oldest_of_runs records ≡ records
unfolding oldest_of_runs
oldest_of_runs_id [] h = refl
oldest_of_runs_id (r ∷ []) h = ground arith
oldest_of_runs_id (r ∷ s ∷ records) (h, hs) = ground (arith, oldest_of_runs_id (s ∷ records) hs)

-- Without pruning, filtering keeps the oldest record of each run of equal references, except for a
-- run of empty references at the old end. No two neighbours are left with one reference, and
-- filtering again changes nothing.
pub filter_records_lem :
    (now : ℕ) (records : List TaskRecord)
    → (filter_records now false records ≡ oldest_of_runs records)
      × Settled (filter_records now false records)
      × (filter_records now false (filter_records now false records)
          ≡ filter_records now false records)
unfolding filter_records
filter_records_lem now records =
    let e = unique_from_lem records in
    let s = subst Settled (sym e) (oldest_of_runs-Settled records) in
    (e, s, unique_from_lem _ ∙ oldest_of_runs_id _ s)

-- Pruning drops the records that have expired, after the runs were reduced.
filter_records-prune :
    (now : ℕ) (records : List TaskRecord)
    → filter_records now true records ≡ keep (is_relevant now) (oldest_of_runs records)
unfolding filter_records
filter_records-prune now records = ap (keep (is_relevant now)) (unique_from_lem records)

-- A record that expires.
abbrev pub Expires : TaskRecord → Type 0
Expires r = r.expires_on ≢ none

expire_one-dated : (at x : ℕ) (r : TaskRecord) → r.expires_on ≡ some x → expire_one at r ≡ r
unfolding expire_one
expire_one-dated at x r e = rw e refl

expire_one_lem :
    (at later : ℕ) (r : TaskRecord)
    → Expires (expire_one at r) × (expire_one later (expire_one at r) ≡ expire_one at r)
expire_one_lem at later r = elim (Option-cases r.expires_on) [
  | inl e ↦
      let one : expire_one at r ≡ record r { expires_on = some at } =
        unfold expire_one in rw e refl in
      rw one (λ n. cc, expire_one-dated later at (record r { expires_on = some at }) refl)
  | inr (x, e) ↦ rw (expire_one-dated at x r e) (λ n. cc, expire_one-dated later x r e)
]

expire_rest_lem :
    (at later : ℕ) (records : List TaskRecord)
    → All Expires (expire_rest at records)
      × (expire_rest later (expire_rest at records) ≡ expire_rest at records)
unfolding expire_rest
expire_rest_lem at later [] = (tt, refl)
expire_rest_lem at later (r ∷ records) =
    let (one, again) = expire_one_lem at later r in
    let (rest, rest_again) = expire_rest_lem at later records in
    ((one, rest), ap₂ ◌∷◌ again rest_again)

-- The newest record has no date and all others have one.
abbrev pub IsDated : List TaskRecord → Type 0
IsDated [] = Unit
IsDated (r ∷ records) = (r.expires_on ≡ none) × All Expires records

expire_records_lem :
    (at later : ℕ) (records : List TaskRecord)
    → IsDated (expire_records at records)
      × (expire_records later (expire_records at records) ≡ expire_records at records)
unfolding expire_records
expire_records_lem at later [] = (tt, refl)
expire_records_lem at later (r ∷ records) =
    let (dated, again) = expire_rest_lem at later records in
    ((refl, dated), ap (λ l. record r { expires_on = none } ∷ l) again)

-- In every group of the tracker the newest record does not expire and all others do. A date that
-- was set stays: setting the dates again, at a later time and for another period, changes nothing.
set_expiration_lem :
    (today days later days' : ℕ) (t : Tracker)
    → All (λ (_, records). IsDated records) (set_expiration today days t)
      × (set_expiration later days' (set_expiration today days t) ≡ set_expiration today days t)
unfolding set_expiration
set_expiration_lem today days later days' [] = (tt, refl)
set_expiration_lem today days later days' ((group, records) ∷ t) =
    let (dated, again) =
      expire_records_lem (today + days * one_day) (later + days' * one_day) records in
    let (rest, rest_again) = set_expiration_lem today days later days' t in
    ((dated, rest), ap₂ (λ l m. (group, l) ∷ m) again rest_again)
