-- ===== src/Tracing.antt =====
-- internal/tracing/type.go: the categories of tracing, five bits of a byte. White space outside
-- ASCII is left out.
pub mod Categories
use ec_cli.Base.{
  ℕ, Text, lit, List, [], ◌∷◌, ◌++◌, is_empty, Option, none, some, Bool, true, false, ◌==◌, ◌&&◌,
  ◌||◌, not, text_eq, nat_eq, if◌then◌else◌, contains, split, to_lower, leb, any,
}

pub record Trace : Type 0 where
  pub perf : Bool
  pub cpu : Bool
  pub memory : Bool
  pub opa : Bool
  pub log : Bool

abbrev pub none_traced : Trace
none_traced = record { perf = false; cpu = false; memory = false; opa = false; log = false }

abbrev pub all_traced : Trace
all_traced = record { perf = true; cpu = true; memory = true; opa = true; log = true }

abbrev pub default : Trace
default = record none_traced { log = true }

-- `t | u` and `t & u == u`
unfoldable pub union : Trace → Trace → Trace
union t u = record {
  perf = t.perf || u.perf;
  cpu = t.cpu || u.cpu;
  memory = t.memory || u.memory;
  opa = t.opa || u.opa;
  log = t.log || u.log;
}

unfoldable pub has_all : Trace → Trace → Bool
has_all t u =
    (t.perf || not u.perf)
    && ((t.cpu || not u.cpu)
        && ((t.memory || not u.memory) && ((t.opa || not u.opa) && (t.log || not u.log))))

-- `strconv.ParseBool`
unfoldable pub parse_bool : Text → Option Bool
parse_bool s =
    if contains (lit "1" ∷ lit "t" ∷ lit "T" ∷ lit "TRUE" ∷ lit "true" ∷ lit "True" ∷ []) s
    then some true
    else if contains (lit "0" ∷ lit "f" ∷ lit "F" ∷ lit "FALSE" ∷ lit "false" ∷ lit "False" ∷ []) s
    then some false
    else none

-- `strings.TrimSpace`
unfoldable pub is_space : ℕ → Bool
is_space c = c == b' ' || (leb 9 c && leb c 13)

unfoldable pub trim_left : Text → Text
trim_left [] = []
trim_left (c ∷ s) = let rest = trim_left s in if is_space c then rest else c ∷ s

unfoldable pub trim_right : Text → Text
trim_right [] = []
trim_right (c ∷ s) = let rest = trim_right s in if is_space c && is_empty rest then [] else c ∷ rest

-- The loop over the words, with the categories so far.
unfoldable pub parse_words : List Text → Trace → Trace
parse_words [] trace = trace
parse_words (t ∷ ts) trace =
    let v = to_lower (trim_right (trim_left t)) in
    let with_default = parse_words ts (union trace default) in
    let with_perf = parse_words ts (union trace (record none_traced { perf = true })) in
    let with_cpu = parse_words ts (union trace (record none_traced { cpu = true })) in
    let with_memory = parse_words ts (union trace (record none_traced { memory = true })) in
    let with_opa = parse_words ts (union trace (record none_traced { opa = true })) in
    let with_log = parse_words ts (union trace (record none_traced { log = true })) in
    let unchanged = parse_words ts trace in
    if is_empty v
    then with_default
    else if v == lit "none"
    then none_traced
    else if v == lit "perf"
    then with_perf
    else if v == lit "cpu"
    then with_cpu
    else if v == lit "mem"
    then with_memory
    else if v == lit "opa"
    then with_opa
    else if v == lit "log"
    then with_log
    else if v == lit "all"
    then all_traced
    else unchanged

unfoldable pub parse_trace : Text → Trace
parse_trace s = elim (parse_bool s) [
  | some v ↦ if v then default else none_traced
  | none ↦ parse_words (split b',' s) none_traced
]

unfoldable pub is_enabled : Trace → List Trace → Bool
is_enabled t categories = any (has_all t) categories

unfoldable pub word_if : Bool → Text → Text
word_if b word = if b then word else []

-- `strings.TrimRight(s, ",")`
unfoldable pub trim_commas : Text → Text
trim_commas [] = []
trim_commas (c ∷ s) =
    let rest = trim_commas s in if c == b',' && is_empty rest then [] else c ∷ rest

unfoldable pub to_string : Trace → Text
to_string t =
    if not (
      is_enabled t (
        record none_traced { perf = true }
        ∷ record none_traced { cpu = true }
        ∷ record none_traced { memory = true }
        ∷ record none_traced { opa = true }
        ∷ record none_traced { log = true }
        ∷ []))
    then lit "none"
    else trim_commas (
        word_if (is_enabled t (record none_traced { perf = true } ∷ [])) (lit "perf,")
        ++ (word_if (is_enabled t (record none_traced { cpu = true } ∷ [])) (lit "cpu,")
            ++ (word_if (is_enabled t (record none_traced { memory = true } ∷ [])) (lit "mem,")
                ++ (word_if (is_enabled t (record none_traced { opa = true } ∷ [])) (lit "opa,")
                    ++ word_if (is_enabled t (record none_traced { log = true } ∷ []))
                        (lit "log,")))))
