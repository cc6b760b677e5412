-- ===== src/Support.antt =====
-- Smaller parts of the program: internal/format/target.go, internal/kubernetes/names.go,
-- internal/policy/source/chooser.go and internal/validate/helpers.go. Files, URLs, clusters and
-- downloads are parameters.
pub mod Choosing
use ec_cli.Base.{
  ℕ, Text, lit, List, [], ◌∷◌, ◌++◌, is_empty, Option, none, some, Bool, true, false, ◌==◌, ◌&&◌,
  ◌||◌, not, text_eq, nat_eq, if◌then◌else◌, cut, Dict, insert, lookup,
}
use ec_cli.Tracing.{parse_bool}

-- `Options` of a target
pub record TargetOptions : Type 0 where
  pub show_successes : Bool
  pub show_warnings : Bool

pub record Target : Type 0 where
  pub format : Text
  pub options : TargetOptions
  -- the file to write, or the default writer
  pub path : Option Text

-- `vals.Get(key)`
unfoldable pub first_value : Text → Dict (List Text) → Text
first_value key values = elim (lookup key values) [ none ↦ [] | some [] ↦ [] | some (v ∷ vs) ↦ v ]

-- The field for a value: as before where the value is empty, an error where it is no Boolean.
unfoldable pub flag_of : Text → Bool → Option Bool
flag_of value before = if is_empty value then some before else parse_bool value

unfoldable pub mutate :
    (Text → Option (Dict (List Text))) → Text → TargetOptions → Option TargetOptions
mutate parse_query given o = elim (parse_query given) [
  | none ↦ none
  | some vals ↦ elim (flag_of (first_value (lit "show-successes") vals) o.show_successes) [
    | none ↦ none
    | some successes ↦ elim (flag_of (first_value (lit "show-warnings") vals) o.show_warnings) [
      | none ↦ none
      | some warnings ↦ some (record { show_successes = successes; show_warnings = warnings })
    ]
  ]
]

-- `TargetParser.Parse`
unfoldable pub parse_target :
    (Text → Option (Dict (List Text))) → Text → TargetOptions → Text → Option Target
parse_target parse_query default_format default_options given =
    let (format_and_path, opts, found_opts) = cut b'?' given in
    let (format, path, _) = cut b'=' format_and_path in
    let options =
      if found_opts then mutate parse_query opts default_options else some default_options in
    elim options [
      | none ↦ none
      | some o ↦ some (record {
        format = if is_empty format then default_format else format;
        options = o;
        path = if is_empty path then none else some path;
      })
    ]

-- `NamespacedName`: the namespace and the name.
unfoldable pub namespaced_name : Option Text → Text → Option (Text × Text)
namespaced_name current_namespace name =
    let (namespace, rest, found) = cut b'/' name in
    if found
    then some (namespace, rest)
    else elim current_namespace [ none ↦ none | some ns ↦ some (ns, name) ]

-- The names that `choosePolicyFile` tries, in their order.
abbrev pub policy_file_names : List Text
policy_file_names =
    lit ".ec/policy.json"
    ∷ lit ".ec/policy.yaml"
    ∷ lit ".ec/policy.yml"
    ∷ lit "policy.json"
    ∷ lit "policy.yaml"
    ∷ lit "policy.yml"
    ∷ []

-- `afero.Exists` can fail; `path.Join` is a parameter.
module _ (exists : Text → Option Bool) (path_join : Text → Text → Text) (config_dir : Text) where
  unfoldable pub choose_from : List Text → Option Text
  choose_from [] = none
  choose_from (name ∷ names) =
      let rest = choose_from names in
      elim (exists (path_join config_dir name)) [
        | none ↦ none
        | some there ↦ if there then some (path_join config_dir name) else rest
      ]

  unfoldable pub choose_policy_file : Option Text
  choose_policy_file = choose_from policy_file_names

-- What `GetPolicyConfig` takes from the packages of sources and files.
pub record ConfigTools : Type 0 where
  pub source_is_git : Text → Bool
  pub source_is_file : Text → Bool
  pub source_is_http : Text → Bool
  pub has_json_or_yaml_ext : Text → Bool
  -- the config file of a download into a new directory
  pub download_config : Text → Option Text
  pub read : Text → Option Text

-- `ReadFile`: an empty file is an error.
unfoldable pub read_file : ConfigTools → Text → Option Text
read_file t name = elim (t.read name) [
  | none ↦ none
  | some content ↦ if is_empty content then none else some content
]

unfoldable pub starts_with_brace : Text → Bool
starts_with_brace [] = false
starts_with_brace (c ∷ s) = c == b'{'

unfoldable pub get_policy_config : ConfigTools → Text → Option Text
get_policy_config t configuration =
    if starts_with_brace configuration
    then some configuration
    else if (t.source_is_git configuration && not (t.source_is_file configuration))
        || t.source_is_http configuration
    then elim (t.download_config configuration) [
      | none ↦ none
      | some config_file ↦ read_file t config_file
    ]
    else if t.source_is_file configuration && t.has_json_or_yaml_ext configuration
    then read_file t configuration
    else some configuration
