-- ===== src/Tracing/Categories.antt =====
-- The text of the categories and what is read back from it.
use ec_cli.Base.{
  ◌≡◌, refl, Bool, true, false, text_eq, nat_eq, contains, split, onto_first, to_lower, lower_byte,
  any,
}
use ec_cli.Tracing.{
  Trace, parse_trace, to_string, is_enabled, has_all, trim_commas, word_if, parse_bool, parse_words,
  trim_left, trim_right, is_space, union,
}

parse_trace_of_bits :
    (perf cpu memory opa log : Bool)
    → let t : Trace = record { perf = perf; cpu = cpu; memory = memory; opa = opa; log = log } in
      parse_trace (to_string t) ≡ t
unfolding parse_trace to_string is_enabled has_all trim_commas word_if parse_bool parse_words
    contains split onto_first trim_left trim_right is_space to_lower lower_byte union any text_eq
    nat_eq
parse_trace_of_bits true true true true true = refl
parse_trace_of_bits true true true true false = refl
parse_trace_of_bits true true true false true = refl
parse_trace_of_bits true true true false false = refl
parse_trace_of_bits true true false true true = refl
parse_trace_of_bits true true false true false = refl
parse_trace_of_bits true true false false true = refl
parse_trace_of_bits true true false false false = refl
parse_trace_of_bits true false true true true = refl
parse_trace_of_bits true false true true false = refl
parse_trace_of_bits true false true false true = refl
parse_trace_of_bits true false true false false = refl
parse_trace_of_bits true false false true true = refl
parse_trace_of_bits true false false true false = refl
parse_trace_of_bits true false false false true = refl
parse_trace_of_bits true false false false false = refl
parse_trace_of_bits false true true true true = refl
parse_trace_of_bits false true true true false = refl
parse_trace_of_bits false true true false true = refl
parse_trace_of_bits false true true false false = refl
parse_trace_of_bits false true false true true = refl
parse_trace_of_bits false true false true false = refl
parse_trace_of_bits false true false false true = refl
parse_trace_of_bits false true false false false = refl
parse_trace_of_bits false false true true true = refl
parse_trace_of_bits false false true true false = refl
parse_trace_of_bits false false true false true = refl
parse_trace_of_bits false false true false false = refl
parse_trace_of_bits false false false true true = refl
parse_trace_of_bits false false false true false = refl
parse_trace_of_bits false false false false true = refl
parse_trace_of_bits false false false false false = refl

parse_trace-to_string : (t : Trace) → parse_trace (to_string t) ≡ t
parse_trace-to_string t = parse_trace_of_bits t.perf t.cpu t.memory t.opa t.log
