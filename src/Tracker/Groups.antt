-- ===== src/Tracker/Groups.antt =====
-- References sorted by kind, git references taken apart, and the group that a record goes to.
use ec_cli.Base.{
  ℕ, suc, ◌+◌, ◌<◌, ◌≡◌, refl, ap, arith, Text, lit, List, [], ◌∷◌, ◌++◌, is_empty, Option, none,
  some, Bool, true, false, not, ◌==◌, text_eq, nat_eq, leb, if◌then◌else◌, keep, Bool-cases, inl,
  inr, length, ◌||◌, has_prefix, lookup, lookup-insert, get_or, cut-append, Free, has_prefix-append,
  trim_prefix-append,
}
use ec_cli.Tracker.{
  TaskRecord, Tracker, ok, group_of, add_trusted_task_record, group_urls, oci_ref_from_group,
  oci_prefix, is_slashes, index_slashes, last_index_slashes, path_separator, take, drop,
  track_git_reference, path_and_revision,
}

-- Sorting the references keeps their order: those with the prefix `git+` are the git references,
-- all others the images.
group_urls_lem :
    (urls : List Text)
    → group_urls urls ≡ (
      keep (λ u. not (has_prefix u (lit "git+"))) urls,
      keep (λ u. has_prefix u (lit "git+")) urls,
    )
unfolding group_urls keep
group_urls_lem [] = refl
group_urls_lem (u ∷ urls) = ground (arith, group_urls_lem urls)

-- A new record is put in front of its group; the other groups stay as they are.
lookup-add_trusted_task_record :
    (prefix : Text) (r : TaskRecord) (t : Tracker) (group : Text)
    → lookup group (add_trusted_task_record prefix r t)
      ≡ (if group_of prefix r == group then some (r ∷ get_or [] group t) else lookup group t)
unfolding add_trusted_task_record
lookup-add_trusted_task_record prefix r t group = ground (
  arith,
  lookup-insert group (group_of prefix r) (r ∷ []) t,
  lookup-insert group (group_of prefix r) (r ∷ get_or [] (group_of prefix r) t) t,
)

-- The group of a bundle's record names the bundle: the reference that `--freshen` reads from it is
-- the record's repository and tag.
oci_ref_from_group-group_of :
    (r : TaskRecord)
    → oci_ref_from_group (group_of oci_prefix r)
      ≡ (if is_empty r.tag then r.repository else r.repository ++ (lit ":" ++ r.tag))
unfolding oci_ref_from_group group_of
oci_ref_from_group-group_of r = elim (Bool-cases (is_empty r.tag)) [
  | inl e ↦ rw e (rw has_prefix-append (trim_prefix-append oci_prefix r.repository))
  | inr e ↦
      rw e
        (rw has_prefix-append (trim_prefix-append oci_prefix (r.repository ++ (lit ":" ++ r.tag))))
]

-- No two slashes stand next to one another.
unfoldable pub has_slashes : Text → Bool
has_slashes [] = false
has_slashes (c ∷ []) = false
has_slashes (c ∷ d ∷ s) = is_slashes c d || has_slashes (d ∷ s)

last_index_free : (s : Text) → has_slashes s ≡ false → last_index_slashes s ≡ none
unfolding has_slashes last_index_slashes
last_index_free [] h = refl
last_index_free (c ∷ []) h = refl
last_index_free (c ∷ d ∷ s) h = ground (arith, last_index_free (d ∷ s))

slashes : is_slashes b'/' b'/' ≡ true
unfolding is_slashes nat_eq
slashes = refl

last_index-append :
    (a b : Text)
    → has_slashes (b'/' ∷ b) ≡ false
    → last_index_slashes (a ++ (lit "//" ++ b)) ≡ some (length a)
unfolding last_index_slashes
last_index-append [] b h = rw (last_index_free (b'/' ∷ b) h, slashes) refl
last_index-append (c ∷ []) b h = rw (last_index-append [] b h) refl
last_index-append (c ∷ d ∷ a) b h = rw (last_index-append (d ∷ a) b h) refl

take-append : (a b : Text) → take (length a) (a ++ b) ≡ a
unfolding take
take-append [] b = refl
take-append (c ∷ a) b = ap (λ s. c ∷ s) (take-append a b)

drop-append : (a b : Text) → drop (length a + 2) (a ++ (lit "//" ++ b)) ≡ b
unfolding drop
drop-append [] b = refl
drop-append (c ∷ a) b =
    let next : suc (length a) + 2 ≡ suc (length a + 2) = omega arith in rw next (drop-append a b)

path_separator-append :
    (a b : Text) (scheme : ℕ)
    → index_slashes (a ++ (lit "//" ++ b)) ≡ some scheme
    → scheme < length a
    → has_slashes (b'/' ∷ b) ≡ false
    → path_separator (a ++ (lit "//" ++ b)) ≡ some (length a)
unfolding path_separator
path_separator-append a b scheme e h g =
    let later : leb (length a) scheme ≡ false = ground arith in
    rw (last_index-append a b g, path_separator) (rw (e, later) refl)

-- A git reference that has a path and a revision is taken apart at the last `//` and at the `@`
-- behind it, and goes to the group of its repository and path; the git client is not asked. The
-- `//` of the scheme stands before the path's, and the path and the revision contain no other.
track_git_reference_lem :
    (git_resolve : Text → Text → Option Text) (freshen : Bool) (repository path rev : Text)
    (scheme : ℕ) (t : Tracker)
    → index_slashes (repository ++ (lit "//" ++ (path ++ (b'@' ∷ rev)))) ≡ some scheme
    → scheme < length repository
    → has_slashes (b'/' ∷ (path ++ (b'@' ∷ rev))) ≡ false
    → Free b'@' path
    → track_git_reference git_resolve freshen (repository ++ (lit "//" ++ (path ++ (b'@' ∷ rev)))) t
      ≡ ok (
          add_trusted_task_record []
            (record {
              ref = rev;
              expires_on = none;
              tag = [];
              repository = repository ++ (lit "//" ++ path);
            })
            t)
unfolding track_git_reference path_and_revision
track_git_reference_lem git_resolve freshen repository path rev scheme t e h g f =
    let rest = path ++ (b'@' ∷ rev) in
    rw (path_separator-append repository rest scheme e h g) (
      rw (take-append repository (lit "//" ++ rest), drop-append repository rest)
        (rw (cut-append b'@' path rev f) refl))
