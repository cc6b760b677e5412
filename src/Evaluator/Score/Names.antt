-- ===== src/Evaluator/Score/Names.antt =====
-- The scores that the comment on `LegacyScore` lists, for names of every form, and their order.
use ec_cli.Base.{
  ℕ, suc, ◌+◌, ◌*◌, ◌<◌, ◌≡◌, refl, ap, ap₂, contains_byte, ◌∙◌, Text, lit, true, false, List, [],
  ◌∷◌, ◌++◌, ◌&&◌, not, arith, ◌==◌, text_eq, nat_eq, if◌then◌else◌, length, All, has_prefix, cut,
  split, join, Free, Free-append, split-join, split-Free, cut-Free, cut-append, length-split_pos,
  is_empty, ◌↔◌, contains, any,
}
use ec_cli.Evaluator.Score.{legacy_score, path_score, last, all_but_last}
use ec_cli.Evaluator.Score.Matches.{match_total, hay_total}

path_score_pos : (s : Text) (parts : List Text) → 0 < length parts → 0 < path_score s parts
unfolding path_score
path_score_pos s [] h = elim h [ ]
path_score_pos s (p ∷ []) h = ground arith
path_score_pos s (p ∷ q ∷ ps) h = ground arith

-- Every name scores at least 1.
legacy_score_pos : (name : Text) → 0 < legacy_score name
unfolding legacy_score
legacy_score_pos name = ground (
  arith,
  path_score_pos (cut b':' name).0 (split b'.' (cut b':' name).0)
      (length-split_pos b'.' (cut b':' name).0),
)

hay_total_pos :
    (needle : Text) (haystack : List Text)
    → (0 < hay_total needle haystack) ↔ (contains haystack needle ≡ true)
unfolding hay_total contains
hay_total_pos needle [] = ground arith
hay_total_pos needle (hay ∷ haystack) =
    ground (arith, hay_total_pos needle haystack, legacy_score_pos hay)

-- The score of a match is positive exactly if the two lists share a name.
match_total_pos :
    (needles haystack : List Text)
    → (0 < match_total needles haystack) ↔ (any (contains haystack) needles ≡ true)
unfolding match_total any
match_total_pos [] haystack = ground arith
match_total_pos (needle ∷ needles) haystack =
    ground (arith, hay_total_pos needle haystack, match_total_pos needles haystack)

last-append : (ps : List Text) (r : Text) → last (ps ++ r ∷ []) ≡ r
unfolding last
last-append [] r = refl
last-append (p ∷ []) r = refl
last-append (p ∷ q ∷ ps) r = last-append (q ∷ ps) r

all_but_last-append : (ps : List Text) (r : Text) → all_but_last (ps ++ r ∷ []) ≡ ps
unfolding all_but_last
all_but_last-append [] r = refl
all_but_last-append (p ∷ []) r = refl
all_but_last-append (p ∷ q ∷ ps) r = ap (λ l. p ∷ l) (all_but_last-append (q ∷ ps) r)

-- What a rule adds to the score: nothing if it is empty or a star.
abbrev pub rule_points : Text → ℕ
rule_points rule = if not (rule == lit "*") && not (is_empty rule) then 100 else 0

-- What a package path adds: 10 for each of its parts.
abbrev pub path_points : List Text → ℕ
path_points path = if join (lit ".") path == lit "*" then 1 else 10 * length path

-- `path.rule`
abbrev pub qualified : List Text → Text → Text
qualified path rule = join (lit ".") (path ++ rule ∷ [])

length-all_but_last : (p : Text) (ps : List Text) → length (all_but_last (p ∷ ps)) ≡ length ps
unfolding all_but_last
length-all_but_last p [] = refl
length-all_but_last p (q ∷ ps) = ap suc (length-all_but_last q ps)

path_score_many :
    (s p q : Text) (ps : List Text)
    → path_score s (p ∷ q ∷ ps)
      ≡ path_points (all_but_last (p ∷ q ∷ ps)) + rule_points (last (p ∷ q ∷ ps))
unfolding path_score
path_score_many s p q ps = ground (arith, length-all_but_last p (q ∷ ps))

path_score-append :
    (s p : Text) (ps : List Text) (rule : Text)
    → path_score s (p ∷ (ps ++ rule ∷ [])) ≡ path_points (p ∷ ps) + rule_points rule
path_score-append s p [] rule =
    path_score_many s p rule []
    ∙ ap₂ (λ l r. path_points l + rule_points r) (all_but_last-append (p ∷ []) rule)
        (last-append (p ∷ []) rule)
path_score-append s p (q ∷ ps) rule =
    path_score_many s p q (ps ++ rule ∷ [])
    ∙ ap₂ (λ l r. path_points l + rule_points r) (all_but_last-append (p ∷ q ∷ ps) rule)
        (last-append (p ∷ q ∷ ps) rule)

-- A part of a name: no dot and no colon.
abbrev pub IsPart : Text → Type 0
IsPart s = Free b'.' s × Free b':' s

abbrev pub term_points : Text → ℕ
term_points term = if is_empty term then 0 else 100

Free-join :
    (p : Text) (ps : List Text) → All (Free b':') (p ∷ ps) → Free b':' (join (lit ".") (p ∷ ps))
unfolding join contains_byte
Free-join p [] (h, _) = h
Free-join p (q ∷ ps) (h, hs) = Free-append b':' p (lit "." ++ join (lit ".") (q ∷ ps)) h (
    Free-append b':' (lit ".") (join (lit ".") (q ∷ ps)) (unfold nat_eq in refl)
      (Free-join q ps hs))

All-parts :
    (path : List Text) (rule : Text)
    → All IsPart path
    → IsPart rule
    → All (Free b'.') (path ++ rule ∷ []) × All (Free b':') (path ++ rule ∷ [])
All-parts [] rule _ (h, k) = ((h, tt), (k, tt))
All-parts (p ∷ path) rule ((h, k), hs) hr =
    let (dots, colons) = All-parts path rule hs hr in ((h, dots), (k, colons))

-- A rule of a package, with a term: 10 for each part of the package's path, or 1 if the path is a
-- star; 100 for the rule unless it is a star or empty; 100 for a term that is not empty. The parts
-- contain neither dot nor colon, and the name does not begin with `@`.
legacy_score-qualified_term :
    (p : Text) (ps : List Text) (rule term : Text)
    → All IsPart (p ∷ ps)
    → IsPart rule
    → has_prefix (qualified (p ∷ ps) rule ++ b':' ∷ term) (lit "@") ≡ false
    → legacy_score (qualified (p ∷ ps) rule ++ b':' ∷ term)
      ≡ term_points term + (path_points (p ∷ ps) + rule_points rule)
unfolding legacy_score
legacy_score-qualified_term p ps rule term hs hr h =
    let (dots, colons) = All-parts (p ∷ ps) rule hs hr in
    rw
      (
        h,
        cut-append b':' (qualified (p ∷ ps) rule) term (Free-join p (ps ++ rule ∷ []) colons),
        split-join b'.' p (ps ++ rule ∷ []) dots,
        path_score-append,
      )
      refl

-- The same without a term.
legacy_score-qualified :
    (p : Text) (ps : List Text) (rule : Text)
    → All IsPart (p ∷ ps)
    → IsPart rule
    → has_prefix (qualified (p ∷ ps) rule) (lit "@") ≡ false
    → legacy_score (qualified (p ∷ ps) rule) ≡ path_points (p ∷ ps) + rule_points rule
unfolding legacy_score
legacy_score-qualified p ps rule hs hr h =
    let (dots, colons) = All-parts (p ∷ ps) rule hs hr in
    rw
      (
        h,
        cut-Free b':' (qualified (p ∷ ps) rule) (Free-join p (ps ++ rule ∷ []) colons),
        split-join b'.' p (ps ++ rule ∷ []) dots,
        path_score-append,
      )
      (omega arith)

-- A package with a term scores 10, a star 1, and 100 more for a term that is not empty. The package
-- contains neither dot nor colon, and the name does not begin with `@`.
legacy_score-package_term :
    (p term : Text)
    → IsPart p
    → has_prefix (p ++ b':' ∷ term) (lit "@") ≡ false
    → legacy_score (p ++ b':' ∷ term) ≡ term_points term + (if p == lit "*" then 1 else 10)
unfolding legacy_score path_score
legacy_score-package_term p term (dots, colons) h =
    rw (h, cut-append b':' p term colons, split-Free b'.' p dots) refl
