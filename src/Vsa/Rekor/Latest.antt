-- ===== src/Vsa/Rekor/Latest.antt =====
-- Which entry of the log `findLatestEntryByIntegratedTime` and `RetrieveVSA` choose.
use ec_cli.Base.{
  ℕ, suc, ◌≤◌, ◌<◌, ◌≡◌, refl, subst, Text, List, [], ◌∷◌, is_empty, Option, none, some, true,
  false, arith, All, Bool-cases, inl, inr,
}
use ec_cli.Base.Json.{JsonFields}
use ec_cli.Vsa.Rekor.{
  LogEntry, is_later, latest_of, find_latest_entry_by_integrated_time, Envelope, Retrieved, found,
  failed, ◌>>=◌, need, RetrieveError, build_dsse_envelope, v002_entries, retrieve_vsa,
  is_valid_image_digest, search_failed, no_v002_entry,
}

-- An entry's place in time: one without an integrated time is before all others.
unfoldable pub time_of : LogEntry → ℕ
time_of e = elim e.integrated_time [ none ↦ 0 | some t ↦ suc t ]

earlier_of_later : (a b : LogEntry) → is_later a b ≡ true → time_of b < time_of a
unfolding is_later time_of
earlier_of_later a b h = ground arith

not_later_lem : (a b : LogEntry) → is_later a b ≡ false → time_of a ≤ time_of b
unfolding is_later time_of
not_later_lem a b h = ground arith

-- The first of the latest entries: all before it are earlier, and none after it is later.
pub data IsLatest (e : LogEntry) : List LogEntry → Type 0 where
  here : {es : List LogEntry} → All (λ x. time_of x ≤ time_of e) es → IsLatest e (e ∷ es)
  there :
      {x : LogEntry} {es : List LogEntry}
      → time_of x < time_of e
      → IsLatest e es
      → IsLatest e (x ∷ es)

later_than_head :
    {e x : LogEntry} {es : List LogEntry} (y : LogEntry)
    → IsLatest e (x ∷ es)
    → time_of y < time_of x
    → time_of y < time_of e
later_than_head y (here h) k = k
later_than_head y (there l c) k = omega (arith, l, k)

insert_not_later :
    {e l : LogEntry} {es : List LogEntry} (x : LogEntry)
    → time_of x ≤ time_of l
    → IsLatest e (l ∷ es)
    → IsLatest e (l ∷ x ∷ es)
insert_not_later x n (here h) = here (n, h)
insert_not_later x n (there k c) = there k (there (omega (arith, k, n)) c)

latest_of-IsLatest : (l : LogEntry) (es : List LogEntry) → IsLatest (latest_of l es) (l ∷ es)
unfolding latest_of
latest_of-IsLatest l [] = here tt
latest_of-IsLatest l (x ∷ es) = elim (Bool-cases (is_later x l)) [
  | inl e ↦
      let rest = latest_of-IsLatest x es in
      rw e (there (later_than_head l rest (earlier_of_later x l e)) rest)
  | inr e ↦ rw e (insert_not_later x (not_later_lem x l e) (latest_of-IsLatest l es))
]

find_latest_entry_by_integrated_time-IsLatest :
    (es : List LogEntry) (e : LogEntry)
    → find_latest_entry_by_integrated_time es ≡ some e
    → IsLatest e es
unfolding find_latest_entry_by_integrated_time
find_latest_entry_by_integrated_time-IsLatest [] e h = cc
find_latest_entry_by_integrated_time-IsLatest (x ∷ es) e h =
    let same : latest_of x es ≡ e = cc h in
    subst (λ y. IsLatest y (x ∷ es)) same (latest_of-IsLatest x es)

pub >>=-found {ℓ κ} :
    {A : Type ℓ} {B : Type κ} (m : Retrieved A) (f : A → Retrieved B) {b : B}
    → (m >>= f) ≡ found b
    → (a : A) × (m ≡ found a) × (f a ≡ found b)
>>=-found (found a) f h = (a, refl, h)
>>=-found (failed e) f h = cc

need-found {ℓ} :
    {A : Type ℓ} (e : RetrieveError) (o : Option A) {a : A} → need e o ≡ found a → o ≡ some a
need-found e none h = cc
need-found e (some x) h = cc

module _ (decode_base64 : Text → Option Text) (unmarshal : Text → Option JsonFields)
    (search_index : Text → Option (List LogEntry)) where
  -- Where a retrieved envelope comes from.
  pub record IsFrom (digest : Text) (envelope : Envelope) : Type 0 where
    pub entries : List LogEntry
    pub chosen : LogEntry
    pub valid : is_valid_image_digest digest ≡ true
    pub searched : search_index digest ≡ some entries
    pub latest : IsLatest chosen (v002_entries decode_base64 unmarshal search_index entries)
    pub built : build_dsse_envelope decode_base64 unmarshal chosen ≡ found envelope

  -- A retrieved envelope is for a valid digest and is built from one of the in-toto 0.0.2 entries
  -- that the search gives: the first of the latest ones, with every entry before it earlier and
  -- none after it later. An entry without an integrated time is earlier than one with a time.
  pub retrieve_vsa-IsFrom :
      (digest : Text) (envelope : Envelope)
      → retrieve_vsa decode_base64 unmarshal search_index digest ≡ found envelope
      → IsFrom digest envelope
  unfolding retrieve_vsa
  retrieve_vsa-IsFrom digest envelope h = elim (Bool-cases (is_empty digest)) [
    | inl e ↦ cc (rw e at h)
    | inr e ↦ elim (Bool-cases (is_valid_image_digest digest)) [
      | inr v ↦ cc (rw (e, v) at h)
      | inl v ↦
          let (entries, s, h1) =
            >>=-found (need search_failed (search_index digest)) _ (rw (e, v) at h) in
          elim (Bool-cases (is_empty entries)) [
            | inl n ↦ cc (rw n at h1)
            | inr n ↦
                let (chosen, l, h2) =
                  >>=-found
                    (need no_v002_entry (
                      find_latest_entry_by_integrated_time
                        (v002_entries decode_base64 unmarshal search_index entries)))
                    _ (rw n at h1) in
                record {
                  entries = entries;
                  chosen = chosen;
                  valid = v;
                  searched = need-found search_failed _ s;
                  latest =
                      find_latest_entry_by_integrated_time-IsLatest _ chosen
                        (need-found no_v002_entry _ l);
                  built = h2;
                }
          ]
    ]
  ]
