-- ===== src/Rule.antt =====
-- internal/opa/rule/rule.go: what is read from the annotations of a rule. The regular expression
-- for links and the printing of paths and of other values are parameters: a value carries the text
-- that `fmt.Sprint` gives, and a time the text in RFC 3339.
pub mod Reading
use ec_cli.Base.{
  Text, lit, List, [], ◌∷◌, ◌++◌, is_empty, Option, none, some, Bool, true, false, ◌==◌, ◌&&◌, ◌||◌,
  not, text_eq, nat_eq, if◌then◌else◌, Dict, lookup, join, split,
}
use ec_cli.Evaluator.Info.{RuleKind, deny, warn, other, Info}

pub data Element : Type 0 where
  text opaque : Text → Element

pub data Value : Type 0 where
  string time opaque_value : Text → Value
  array : List Element → Value

pub record Annotations : Type 0 where
  pub title : Text
  pub description : Text
  pub custom : Option (Dict Value)

-- `ast.AnnotationsRef`, with the terms of its path and of its package's, if it has one.
pub record AnnotationsRef : Type 0 where
  pub annotations : Option Annotations
  pub path : List Text
  pub path_text : Text
  pub package_path : Option (List Text)

-- `xrefRegExp`: each match replaced by its fourth group, or by a function of the match and its
-- groups.
pub record Links : Type 0 where
  pub replace_by_label : Text → Text
  pub replace_by_function : (Text → List Text → Text) → Text → Text

-- A missing reference, a missing annotation and a missing map.
unfoldable pub annotations_of : Option AnnotationsRef → Option Annotations
annotations_of none = none
annotations_of (some a) = a.annotations

unfoldable pub custom_of : Option AnnotationsRef → Text → Option Value
custom_of a field = elim (annotations_of a) [
  | none ↦ none
  | some n ↦ elim n.custom [ none ↦ none | some custom ↦ lookup field custom ]
]

unfoldable pub title : Option AnnotationsRef → Text
title a = elim (annotations_of a) [ none ↦ [] | some n ↦ n.title ]

unfoldable pub description : Links → Option AnnotationsRef → Text
description l a = elim (annotations_of a) [ none ↦ [] | some n ↦ l.replace_by_label n.description ]

-- What stands for a match with its groups.
unfoldable pub url_of_match : Text → List Text → Text
url_of_match whole (full ∷ group ∷ filename ∷ anchor ∷ label ∷ _) =
    if is_empty group || (is_empty filename || is_empty anchor)
    then whole
    else lit "https://conforma.dev/docs/"
      ++ (group ++ (lit "/" ++ (filename ++ (lit ".html" ++ anchor))))
url_of_match whole _ = whole

unfoldable pub replace_xref_references_with_url : Links → Text → Text
replace_xref_references_with_url l input = l.replace_by_function url_of_match input

unfoldable pub custom_annotation_string : Links → Option AnnotationsRef → Text → Text
custom_annotation_string l a field = elim (custom_of a field) [
  | some (string t) ↦ replace_xref_references_with_url l t
  | some (time t) ↦ t
  | _ ↦ []
]

unfoldable pub effective_on : Links → Option AnnotationsRef → Text
effective_on l a = custom_annotation_string l a (lit "effective_on")

unfoldable pub solution : Links → Option AnnotationsRef → Text
solution l a = l.replace_by_label (custom_annotation_string l a (lit "solution"))

-- `strings.Trim(s, "\"")`
unfoldable pub trim_left_quotes : Text → Text
trim_left_quotes [] = []
trim_left_quotes (c ∷ s) = let rest = trim_left_quotes s in if c == b'"' then rest else c ∷ s

unfoldable pub trim_right_quotes : Text → Text
trim_right_quotes [] = []
trim_right_quotes (c ∷ s) =
    let rest = trim_right_quotes s in if c == b'"' && is_empty rest then [] else c ∷ rest

unfoldable pub trim_quotes : Text → Text
trim_quotes s = trim_right_quotes (trim_left_quotes s)

-- The last term, and the terms before it.
unfoldable pub last_of_path : List Text → Text
last_of_path [] = []
last_of_path (t ∷ []) = t
last_of_path (t ∷ u ∷ ts) = last_of_path (u ∷ ts)

unfoldable pub but_last : List Text → List Text
but_last [] = []
but_last (t ∷ []) = []
but_last (t ∷ u ∷ ts) = t ∷ but_last (u ∷ ts)

unfoldable pub last_term : Option AnnotationsRef → Text
last_term none = []
last_term (some a) = if is_empty a.path then [] else trim_quotes (last_of_path a.path)

unfoldable pub kind : Option AnnotationsRef → RuleKind
kind a =
    if last_term a == lit "deny" then deny else if last_term a == lit "warn" then warn else other

-- `fmt.Sprint`
unfoldable pub sprint_element : Element → Text
sprint_element (text t) = t
sprint_element (opaque t) = t

unfoldable pub sprint_elements : List Element → List Text
sprint_elements [] = []
sprint_elements (e ∷ es) = sprint_element e ∷ sprint_elements es

unfoldable pub sprint : Value → Text
sprint (string t) = t
sprint (time t) = t
sprint (opaque_value t) = t
sprint (array es) = lit "[" ++ (join (lit " ") (sprint_elements es) ++ lit "]")

unfoldable pub short_name : Option AnnotationsRef → Text
short_name a = elim (custom_of a (lit "short_name")) [ none ↦ [] | some v ↦ sprint v ]

unfoldable pub strings_of_elements : List Element → List Text
strings_of_elements [] = []
strings_of_elements (text t ∷ es) = t ∷ strings_of_elements es
strings_of_elements (opaque t ∷ es) = strings_of_elements es

-- The strings of a list under a field.
unfoldable pub strings_under : Text → Option AnnotationsRef → List Text
strings_under field a = elim (custom_of a field) [
  | some (array es) ↦ strings_of_elements es
  | _ ↦ []
]

unfoldable pub collections : Option AnnotationsRef → List Text
collections a = strings_under (lit "collections") a

unfoldable pub pipeline_intention : Option AnnotationsRef → List Text
pipeline_intention a = strings_under (lit "pipeline_intention") a

unfoldable pub trim_all : List Text → List Text
trim_all [] = []
trim_all (t ∷ ts) = trim_quotes t ∷ trim_all ts

unfoldable pub without_data : List Text → List Text
without_data [] = []
without_data (t ∷ ts) = if t == lit "data" then ts else t ∷ ts

unfoldable pub packages : Option AnnotationsRef → List Text
packages none = []
packages (some a) =
    without_data (trim_all (elim a.package_path [ none ↦ but_last a.path | some path ↦ path ]))

unfoldable pub package_name : Option AnnotationsRef → Text
package_name a = join (lit ".") (packages a)

unfoldable pub code : Option AnnotationsRef → Text
code none = []
code (some a) = package_name (some a) ++ (lit "." ++ short_name (some a))

-- The last but one of at least three parts.
unfoldable pub last_but_one : List Text → Option Text
last_but_one [] = none
last_but_one (a ∷ []) = none
last_but_one (a ∷ b ∷ []) = none
last_but_one (a ∷ b ∷ c ∷ parts) = elim (last_but_one (b ∷ c ∷ parts)) [
  | none ↦ some b
  | some part ↦ some part
]

unfoldable pub documentation_url : Option AnnotationsRef → Text
documentation_url none = []
documentation_url (some a) =
    let name = short_name (some a) in
    elim (last_but_one (split b'.' a.path_text)) [
      | none ↦ []
      | some part ↦
          if is_empty part || is_empty name
          then []
          else lit "https://conforma.dev/docs/policy/packages/release_"
            ++ (part ++ (lit ".html#" ++ (part ++ (lit "__" ++ name))))
    ]

unfoldable pub depends_on_of : Option Value → List Text
depends_on_of none = []
depends_on_of (some (array es)) = sprint_elements es
depends_on_of (some v) = sprint v ∷ []

-- `none` where the code reads the map of annotations that are missing, and panics.
unfoldable pub depends_on : Option AnnotationsRef → Option (List Text)
depends_on none = some []
depends_on (some a) = elim a.annotations [
  | none ↦ none
  | some n ↦ some (depends_on_of (custom_of (some a) (lit "depends_on")))
]

unfoldable pub rule_info : Links → Option AnnotationsRef → Option Info
rule_info l a = elim (depends_on a) [
  | none ↦ none
  | some names ↦ some (record {
    code = code a;
    collections = collections a;
    depends_on = names;
    description = description l a;
    documentation_url = documentation_url a;
    severity = [];
    effective_on = effective_on l a;
    kind = kind a;
    package_name = package_name a;
    pipeline_intention = pipeline_intention a;
    short_name = short_name a;
    solution = solution l a;
    title = title a;
  })
]
