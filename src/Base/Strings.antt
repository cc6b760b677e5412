-- ===== src/Base/Strings.antt =====
-- The functions of Go's package strings that the source calls, over byte lists. Every separator
-- that the source passes is one ASCII byte.
use Prim.Native.Nat.{ℕ, ◌+◌}
use Prim.Native.Char.{code}
use Prim.Native.String.{String}
use mathlib.Core.Bool.{Bool, true, false, ◌&&◌, ◌||◌}
use mathlib.Core.List.{List, [], ◌∷◌, ◌++◌}
use ec_cli.Base.Tests.{Text, ◌==◌, nat_eq, text_eq, leb, if◌then◌else◌}

-- A string literal of the source.
abbrev pub lit : String → Text
lit String.[] = []
lit (String.◌∷◌ c s) = code c ∷ lit s

-- `strings.HasPrefix(s, prefix)`
unfoldable pub has_prefix : Text → Text → Bool
has_prefix s [] = true
has_prefix [] (p ∷ ps) = false
has_prefix (c ∷ s) (p ∷ ps) = c == p && has_prefix s ps

unfoldable pub drop_matched : Text → Text → Text
drop_matched s [] = s
drop_matched [] (p ∷ ps) = []
drop_matched (c ∷ s) (p ∷ ps) = drop_matched s ps

-- `strings.TrimPrefix(s, prefix)`
unfoldable pub trim_prefix : Text → Text → Text
trim_prefix s prefix = if has_prefix s prefix then drop_matched s prefix else s

-- `strings.Contains(s, sep)` for a one-byte `sep`
unfoldable pub contains_byte : ℕ → Text → Bool
contains_byte sep [] = false
contains_byte sep (c ∷ s) = c == sep || contains_byte sep s

unfoldable pub onto_first : ℕ → List Text → List Text
onto_first c [] = (c ∷ []) ∷ []
onto_first c (p ∷ ps) = (c ∷ p) ∷ ps

-- `strings.Split(s, sep)` for a one-byte `sep`; it is never empty.
unfoldable pub split : ℕ → Text → List Text
split sep [] = [] ∷ []
split sep (c ∷ s) = let parts = split sep s in if c == sep then [] ∷ parts else onto_first c parts

-- `strings.Cut(s, sep)` for a one-byte `sep`: before, after, found
unfoldable pub cut : ℕ → Text → Text × Text × Bool
cut sep [] = ([], [], false)
cut sep (c ∷ s) =
    let (before, after, found) = cut sep s in
    if c == sep then ([], s, true) else (c ∷ before, after, found)

-- `strings.SplitN(s, sep, 2)` for a one-byte `sep`
unfoldable pub split_two : ℕ → Text → List Text
split_two sep s =
    let (before, after, found) = cut sep s in if found then before ∷ after ∷ [] else s ∷ []

-- `strings.Join(parts, sep)`
unfoldable pub join : Text → List Text → Text
join sep [] = []
join sep (p ∷ []) = p
join sep (p ∷ q ∷ ps) = p ++ (sep ++ join sep (q ∷ ps))

-- `strings.Contains(s, sub)`
unfoldable pub contains_text : Text → Text → Bool
contains_text [] sub = has_prefix [] sub
contains_text (c ∷ s) sub = has_prefix (c ∷ s) sub || contains_text s sub

unfoldable pub lower_byte : ℕ → ℕ
lower_byte c = if leb b'A' c && leb c b'Z' then c + 32 else c

-- `strings.ToLower(s)`, to be compared with words of ASCII letters: two letters outside ASCII have
-- a lower case in it, the dotted I and the Kelvin sign; the other ones are left as they are.
unfoldable pub to_lower : Text → Text
to_lower [] = []
to_lower (c ∷ []) = lower_byte c ∷ []
to_lower (c ∷ d ∷ []) =
    if c == 0xc4 && d == 0xb0 then b'i' ∷ [] else lower_byte c ∷ lower_byte d ∷ []
to_lower (c ∷ d ∷ e ∷ s) =
    let dotted = b'i' ∷ to_lower (e ∷ s) in
    let kelvin = b'k' ∷ to_lower s in
    let plain = lower_byte c ∷ to_lower (d ∷ e ∷ s) in
    if c == 0xc4 && d == 0xb0
    then dotted
    else if c == 0xe2 && (d == 0x84 && e == 0xaa)
    then kelvin
    else plain

-- What `strings.EqualFold` compares with lower case letters of ASCII other than k: the long s folds
-- to one of these too.
unfoldable pub fold : Text → Text
fold [] = []
fold (c ∷ []) = lower_byte c ∷ []
fold (c ∷ d ∷ s) =
    let long_s = b's' ∷ fold s in
    let plain = lower_byte c ∷ fold (d ∷ s) in if c == 0xc5 && d == 0xbf then long_s else plain

-- `strings.EqualFold(s, word)`
unfoldable pub equal_fold : Text → Text → Bool
equal_fold s word = fold s == word
