-- ===== src/Policy/Sources.antt =====
-- `PolicySourcesFrom` of internal/policy/source/source.go, and `PreProcessPolicy` of
-- internal/policy/policy.go, which downloads the sources and pins their URLs. The work directory,
-- the base64 encoding and the downloads are parameters. The cache of downloads is the map of the
-- destinations by URL; its other map, which is only logged, is left out.
use ec_cli.Base.{
  ℕ, suc, Text, lit, List, [], ◌∷◌, ◌++◌, Option, none, some, Bool, true, false, text_eq, nat_eq,
  if◌then◌else◌, Dict, insert, lookup, has_prefix,
}
use ec_cli.Policy.{
  SourceGroup, Policy, Checked, ok, ◌>>=◌, require, Services, work_dir_failed, download_failed,
}
use ec_cli.Policy.Making.{Options, new_policy, with_spec}

-- `PolicyType`, of the sources that `PolicySourcesFrom` makes
pub data Kind : Type 0 where
  policy_kind data_kind inline_data_kind : Kind

unfoldable pub same_kind : Kind → Kind → Bool
same_kind policy_kind policy_kind = true
same_kind data_kind data_kind = true
same_kind inline_data_kind inline_data_kind = true
same_kind _ _ = false

-- A `*PolicyUrl` or an `inlineData`.
pub data PolicySource : Type 0 where
  url_source : Kind → Text → PolicySource
  inline_data : Text → PolicySource

unfoldable pub kind_of : PolicySource → Kind
kind_of (url_source kind url) = kind
kind_of (inline_data source) = inline_data_kind

unfoldable pub url_sources : Kind → List Text → List PolicySource
url_sources kind [] = []
url_sources kind (url ∷ urls) = url_source kind url ∷ url_sources kind urls

unfoldable pub inline_sources : Option Text → List PolicySource
inline_sources none = []
inline_sources (some raw) =
    inline_data (lit "{\"rule_data__configuration__\":" ++ (raw ++ lit "}")) ∷ []

unfoldable pub policy_sources_from : SourceGroup → List PolicySource
policy_sources_from g =
    url_sources policy_kind g.policy
    ++ (url_sources data_kind g.data_urls ++ inline_sources g.rule_data)

module _ (base64 : Text → Text) where
  -- `PolicyUrl`
  unfoldable pub policy_url : PolicySource → Text
  policy_url (url_source kind url) = url
  policy_url (inline_data source) = lit "data:application/json;base64," ++ base64 source

  unfoldable pub urls : List PolicySource → Kind → List Text
  urls [] kind = []
  urls (s ∷ sources) kind =
      let rest = urls sources kind in
      if same_kind (kind_of s) kind then policy_url s ∷ rest else rest

-- `GetPolicy` of a URL below the work directory: the destination and the pinned URL.
abbrev pub Download : Type 0
Download = Text → Text → Option (Text × Text)

module _ (base64 : Text → Text) (download : Download) (dir : Text) where
  unfoldable pub get_policy : PolicySource → Checked (PolicySource × Text)
  get_policy (url_source kind url) = do
    (dest, pinned) ← require download_failed (download dir url)
    ok (url_source kind pinned, dest)
  get_policy (inline_data source) = do
    (dest, _) ← require download_failed (download dir (policy_url base64 (inline_data source)))
    ok (inline_data source, dest)

  unfoldable pub cache_new : Text → Text → Dict Text → Dict Text
  cache_new url dest cache = elim (lookup url cache) [
    | none ↦ insert url dest cache
    | some _ ↦ cache
  ]

  -- The loop over the sources of a group. An inline source is passed over.
  unfoldable pub fetch_sources :
      List PolicySource → Dict Text → Checked (List PolicySource × Dict Text)
  fetch_sources [] cache = ok ([], cache)
  fetch_sources (s ∷ sources) cache =
      let skip = (do (rest, cache') ← fetch_sources sources cache; ok (s ∷ rest, cache')) in
      let fetch = (do
        (s', dest) ← get_policy s
        (rest, cache') ← fetch_sources sources (cache_new (policy_url base64 s') dest cache)
        ok (s' ∷ rest, cache')) in
      if has_prefix (policy_url base64 s) (lit "data:") then skip else fetch

-- `utils.CreateWorkDir` is a function from the number of the call: each gives another directory.
module _ (base64 : Text → Text) (download : Download) (create_work_dir : ℕ → Option Text) where
  unfoldable pub process_group : ℕ → SourceGroup → Dict Text → Checked (SourceGroup × Dict Text)
  process_group n g cache = do
    dir ← require work_dir_failed (create_work_dir n)
    (sources, cache') ← fetch_sources base64 download dir (policy_sources_from g) cache
    ok (
      record g {
        policy = urls base64 sources policy_kind;
        data_urls = urls base64 sources data_kind;
      },
      cache',
    )

  -- The loop over the groups from a number on, which are replaced in place.
  unfoldable pub process_groups :
      ℕ → List SourceGroup → Dict Text → Checked (List SourceGroup × Dict Text)
  process_groups n [] cache = ok ([], cache)
  process_groups n (g ∷ groups) cache = do
    (g', cache') ← process_group n g cache
    (rest, cache'') ← process_groups (suc n) groups cache'
    ok (g' ∷ rest, cache'')

  unfoldable pub pre_process_policy : Services → Options → Dict Text → Checked (Policy × Dict Text)
  pre_process_policy s o cache = do
    p ← new_policy s o
    (groups, cache') ← process_groups 0 p.spec.sources cache
    ok (with_spec (record p.spec { sources = groups }) p, cache')
