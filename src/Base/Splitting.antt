-- ===== src/Base/Splitting.antt =====
-- Laws of the byte-string functions: splitting, joining and cutting at a separator.
use Prim.Native.Nat.{ℕ, ◌<◌}
use mathlib.Core.Path.{◌≡◌, refl, ap, ◌∙◌}
use mathlib.Core.Bool.{true, false}
use mathlib.Core.List.{List, [], ◌∷◌, ◌++◌}
use native.Mathlib.Omega.{arith}
use ec_cli.Base.Tests.{Text, nat_eq}
use ec_cli.Base.Lists.{All, length}
use ec_cli.Base.Strings.{
  split, onto_first, join, cut, contains_byte, has_prefix, trim_prefix, drop_matched,
}

-- The byte does not occur.
abbrev pub Free : ℕ → Text → Type 0
Free sep s = contains_byte sep s ≡ false

pub Free-append : (sep : ℕ) (a b : Text) → Free sep a → Free sep b → Free sep (a ++ b)
unfolding contains_byte
Free-append sep [] b ha hb = hb
Free-append sep (c ∷ a) b ha hb = ground (arith, Free-append sep a b)

pub split-Free : (sep : ℕ) (s : Text) → Free sep s → split sep s ≡ s ∷ []
unfolding split contains_byte onto_first
split-Free sep [] h = refl
split-Free sep (c ∷ s) h = ground (arith, split-Free sep s)

split-append : (sep : ℕ) (a b : Text) → Free sep a → split sep (a ++ sep ∷ b) ≡ a ∷ split sep b
unfolding split contains_byte onto_first
split-append sep [] b h = ground arith
split-append sep (c ∷ a) b h = ground (arith, split-append sep a b)

-- Splitting undoes joining parts without the separator.
pub split-join :
    (sep : ℕ) (p : Text) (ps : List Text)
    → All (Free sep) (p ∷ ps)
    → split sep (join (sep ∷ []) (p ∷ ps)) ≡ p ∷ ps
unfolding join
split-join sep p [] (h, _) = split-Free sep p h
split-join sep p (q ∷ ps) (h, hs) =
    split-append sep p (join (sep ∷ []) (q ∷ ps)) h
    ∙ ap (λ parts. p ∷ parts) (split-join sep q ps hs)

pub cut-Free : (sep : ℕ) (s : Text) → Free sep s → cut sep s ≡ (s, [], false)
unfolding cut contains_byte
cut-Free sep [] h = refl
cut-Free sep (c ∷ s) h = ground (arith, cut-Free sep s)

pub cut-append : (sep : ℕ) (a b : Text) → Free sep a → cut sep (a ++ sep ∷ b) ≡ (a, b, true)
unfolding cut contains_byte
cut-append sep [] b h = ground arith
cut-append sep (c ∷ a) b h = ground (arith, cut-append sep a b)

-- `strings.Split` never gives an empty slice.
pub length-split_pos : (sep : ℕ) (s : Text) → 0 < length (split sep s)
unfolding split onto_first
length-split_pos sep [] = omega arith
length-split_pos sep (c ∷ s) = ground (arith, length-split_pos sep s)

pub has_prefix-append : (p s : Text) → has_prefix (p ++ s) p ≡ true
unfolding has_prefix
has_prefix-append [] s = refl
has_prefix-append (c ∷ p) s = ground (arith, has_prefix-append p s)

drop_matched-append : (p s : Text) → drop_matched (p ++ s) p ≡ s
unfolding drop_matched
drop_matched-append [] s = refl
drop_matched-append (c ∷ p) s = drop_matched-append p s

pub trim_prefix-append : (p s : Text) → trim_prefix (p ++ s) p ≡ s
unfolding trim_prefix
trim_prefix-append p s = rw (has_prefix-append p s) (drop_matched-append p s)
