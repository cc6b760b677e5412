-- ===== src/Policy/Pinning.antt =====
-- What the preprocessing of a policy makes of its sources.
use ec_cli.Base.{
  ℕ, suc, ◌≡◌, refl, sym, ◌∙◌, ap, subst, Text, lit, List, [], ◌∷◌, ◌++◌, Option, none, some, true,
  false, Bool-cases, inl, inr, if◌then◌else◌, has_prefix, append-nil, text_eq, nat_eq, Dict,
}
use ec_cli.Policy.{SourceGroup, Policy, ok, Services, require, download_failed, work_dir_failed}
use ec_cli.Policy.Making.{Options, new_policy, with_spec}
use ec_cli.Policy.Laws.{>>=-ok, ok_same, require-ok}
use ec_cli.Policy.Sources.{
  Kind, policy_kind, data_kind, inline_data_kind, PolicySource, url_source, inline_data,
  url_sources, inline_sources, policy_sources_from, same_kind, kind_of, policy_url, urls, Download,
  get_policy, fetch_sources, process_group, process_groups, pre_process_policy,
}

module _ (base64 : Text → Text) where
  urls-append :
      (xs ys : List PolicySource) (k : Kind)
      → urls base64 (xs ++ ys) k ≡ urls base64 xs k ++ urls base64 ys k
  unfolding urls
  urls-append [] ys k = refl
  urls-append (x ∷ xs) ys k = elim (Bool-cases (same_kind (kind_of x) k)) [
    | inl e ↦ rw e (ap (λ r. policy_url base64 x ∷ r) (urls-append xs ys k))
    | inr e ↦ rw e (urls-append xs ys k)
  ]

  urls-url_sources :
      (k : Kind) (us : List Text) → same_kind k k ≡ true → urls base64 (url_sources k us) k ≡ us
  unfolding urls url_sources kind_of policy_url
  urls-url_sources k [] h = refl
  urls-url_sources k (u ∷ us) h = rw h (ap (λ r. u ∷ r) (urls-url_sources k us h))

  urls-other :
      (j k : Kind) (us : List Text) → same_kind j k ≡ false → urls base64 (url_sources j us) k ≡ []
  unfolding urls url_sources kind_of policy_url
  urls-other j k [] h = refl
  urls-other j k (u ∷ us) h = rw h (urls-other j k us h)

  urls-inline :
      (raw : Option Text) (k : Kind)
      → same_kind inline_data_kind k ≡ false
      → urls base64 (inline_sources raw) k ≡ []
  unfolding urls inline_sources kind_of
  urls-inline none k h = refl
  urls-inline (some t) k h = rw h refl

  urls-policy_sources_from :
      (g : SourceGroup)
      → (urls base64 (policy_sources_from g) policy_kind ≡ g.policy)
        × (urls base64 (policy_sources_from g) data_kind ≡ g.data_urls)
  unfolding policy_sources_from same_kind
  urls-policy_sources_from g = (
    rw
        (
          urls-append (url_sources policy_kind g.policy)
              (url_sources data_kind g.data_urls ++ inline_sources g.rule_data) policy_kind,
          urls-append (url_sources data_kind g.data_urls) (inline_sources g.rule_data) policy_kind,
          urls-url_sources policy_kind g.policy refl,
          urls-other data_kind policy_kind g.data_urls refl,
          urls-inline g.rule_data policy_kind refl,
        )
        (append-nil g.policy),
    rw
        (
          urls-append (url_sources policy_kind g.policy)
              (url_sources data_kind g.data_urls ++ inline_sources g.rule_data) data_kind,
          urls-append (url_sources data_kind g.data_urls) (inline_sources g.rule_data) data_kind,
          urls-other policy_kind data_kind g.policy refl,
          urls-url_sources data_kind g.data_urls refl,
          urls-inline g.rule_data data_kind refl,
        )
        (append-nil g.data_urls),
  )

module _ (download : Download) (dir : Text) where
  -- What a URL is replaced by.
  unfoldable pub pin : Text → Option Text
  pin url =
      if has_prefix url (lit "data:")
      then some url
      else elim (download dir url) [ none ↦ none | some (dest, pinned) ↦ some pinned ]

  unfoldable pub cons_if : Option Text → Option (List Text) → Option (List Text)
  cons_if (some u) (some us) = some (u ∷ us)
  cons_if _ _ = none

  -- All URLs, if every download succeeds.
  unfoldable pub pin_all : List Text → Option (List Text)
  pin_all [] = some []
  pin_all (url ∷ urls) = cons_if (pin url) (pin_all urls)

  module _ (base64 : Text → Text) (k : Kind) (outer : same_kind inline_data_kind k ≡ false) where
    PinsTo : List PolicySource → List PolicySource → Type 0
    PinsTo ss ss' = pin_all (urls base64 ss k) ≡ some (urls base64 ss' k)

    PinsTo-cons :
        (j : Kind) (u v : Text) (ss ss' : List PolicySource)
        → pin u ≡ some v
        → PinsTo ss ss'
        → PinsTo (url_source j u ∷ ss) (url_source j v ∷ ss')
    unfolding PinsTo urls pin_all cons_if kind_of policy_url
    PinsTo-cons j u v ss ss' h hs = elim (Bool-cases (same_kind j k)) [
      | inr e ↦ rw e hs
      | inl e ↦ rw (e, h, hs) refl
    ]

    PinsTo-inline :
        (t : Text) (ss ss' : List PolicySource)
        → PinsTo ss ss'
        → PinsTo (inline_data t ∷ ss) (inline_data t ∷ ss')
    unfolding PinsTo urls kind_of
    PinsTo-inline t ss ss' hs = rw outer hs

    get_policy-pin :
        (j : Kind) (u : Text) (s : PolicySource) (dest : Text)
        → has_prefix u (lit "data:") ≡ false
        → get_policy base64 download dir (url_source j u) ≡ ok (s, dest)
        → (v : Text) × (s ≡ url_source j v) × (pin u ≡ some v)
    unfolding get_policy pin
    get_policy-pin j u s dest e h =
        let ((d, v), f, g) = >>=-ok (require download_failed (download dir u)) _ h in
        (
          v,
          sym (ap (λ r. r.0) (ok_same g)),
          rw (e, require-ok download_failed (download dir u) f) refl,
        )

    fetch_sources-PinsTo :
        (ss : List PolicySource) (cache : Dict Text) (ss' : List PolicySource) (cache' : Dict Text)
        → fetch_sources base64 download dir ss cache ≡ ok (ss', cache')
        → PinsTo ss ss'
    unfolding fetch_sources PinsTo pin_all urls get_policy policy_url has_prefix text_eq nat_eq pin
    fetch_sources-PinsTo [] cache ss' cache' h = subst (PinsTo []) (ap (λ r. r.0) (ok_same h)) refl
    fetch_sources-PinsTo (inline_data t ∷ ss) cache ss' cache' h =
        let ((rest, c), f, h1) = >>=-ok (fetch_sources base64 download dir ss cache) _ h in
        subst (PinsTo (inline_data t ∷ ss)) (ap (λ r. r.0) (ok_same h1))
          (PinsTo-inline t ss rest (fetch_sources-PinsTo ss cache rest c f))
    fetch_sources-PinsTo (url_source j u ∷ ss) cache ss' cache' h =
        elim (Bool-cases (has_prefix u (lit "data:"))) [
          | inl e ↦
              let ((rest, c), f, h1) =
                >>=-ok (fetch_sources base64 download dir ss cache) _ (rw e at h) in
              subst (PinsTo (url_source j u ∷ ss)) (ap (λ r. r.0) (ok_same h1))
                (PinsTo-cons j u u ss rest (rw e refl) (fetch_sources-PinsTo ss cache rest c f))
          | inr e ↦
              let ((s, dest), g, h0) =
                >>=-ok (get_policy base64 download dir (url_source j u)) _ (rw e at h) in
              let (v, same, p) = get_policy-pin j u s dest e g in
              let ((rest, c), f, h1) = >>=-ok (fetch_sources base64 download dir ss _) _ h0 in
              subst (PinsTo (url_source j u ∷ ss)) (ap (λ r. r.0) (ok_same h1)) (
                subst (λ x. PinsTo (url_source j u ∷ ss) (x ∷ rest)) (sym same)
                  (PinsTo-cons j u v ss rest p (fetch_sources-PinsTo ss _ rest c f)))
        ]

module _ (base64 : Text → Text) (download : Download) where
  -- A group with its URLs pinned by downloads into a directory, and nothing else changed.
  pub record IsPinned (dir : Text) (g g' : SourceGroup) : Type 0 where
    pub policy : pin_all download dir g.policy ≡ some g'.policy
    pub data_urls : pin_all download dir g.data_urls ≡ some g'.data_urls
    pub rest : record g { policy = []; data_urls = [] } ≡ record g' { policy = []; data_urls = [] }

  module _ (create_work_dir : ℕ → Option Text) where
    process_group-IsPinned :
        (n : ℕ) (g g' : SourceGroup) (cache cache' : Dict Text)
        → process_group base64 download create_work_dir n g cache ≡ ok (g', cache')
        → (dir : Text) × (create_work_dir n ≡ some dir) × IsPinned dir g g'
    unfolding process_group same_kind PinsTo
    process_group-IsPinned n g g' cache cache' h =
        let (dir, made, h0) = >>=-ok (require work_dir_failed (create_work_dir n)) _ h in
        let ((ss, c), f, h1) =
          >>=-ok (fetch_sources base64 download dir (policy_sources_from g) cache) _ h0 in
        let (p, d) = urls-policy_sources_from base64 g in
        (
          dir,
          require-ok work_dir_failed (create_work_dir n) made,
          subst (IsPinned dir g) (ap (λ r. r.0) (ok_same h1)) (record {
            policy =
                ap (pin_all download dir) (sym p)
                ∙ fetch_sources-PinsTo download dir base64 policy_kind refl _ cache ss c f;
            data_urls =
                ap (pin_all download dir) (sym d)
                ∙ fetch_sources-PinsTo download dir base64 data_kind refl _ cache ss c f;
            rest = refl;
          }),
        )

    -- Groups pinned one by one, each by downloads into a directory of its own.
    unfoldable pub ArePinned : ℕ → List SourceGroup → List SourceGroup → Type 0
    ArePinned n [] [] = Unit
    ArePinned n (g ∷ gs) (g' ∷ gs') =
        ((dir : Text) × (create_work_dir n ≡ some dir) × IsPinned dir g g')
        × ArePinned (suc n) gs gs'
    ArePinned _ _ _ = ⊥

    process_groups-ArePinned :
        (n : ℕ) (gs : List SourceGroup) (cache : Dict Text) (gs' : List SourceGroup)
        (cache' : Dict Text)
        → process_groups base64 download create_work_dir n gs cache ≡ ok (gs', cache')
        → ArePinned n gs gs'
    unfolding process_groups ArePinned
    process_groups-ArePinned n [] cache gs' cache' h =
        subst (ArePinned n []) (ap (λ r. r.0) (ok_same h)) tt
    process_groups-ArePinned n (g ∷ gs) cache gs' cache' h =
        let ((g1, c), f, h1) =
          >>=-ok (process_group base64 download create_work_dir n g cache) _ h in
        let ((rest, c1), f1, h2) =
          >>=-ok (process_groups base64 download create_work_dir (suc n) gs c) _ h1 in
        subst (ArePinned n (g ∷ gs)) (ap (λ r. r.0) (ok_same h2)) (
          process_group-IsPinned n g g1 cache c f,
          process_groups-ArePinned (suc n) gs c rest c1 f1,
        )

    -- The preprocessing of a policy keeps its groups of sources, in their order and with all but
    -- their URLs unchanged; each URL of policies and of data is replaced by its pinned form, and a
    -- URL of the scheme "data" stays. The work directory of a group is the one made for it.
    pub pre_process_policy-ArePinned :
        (s : Services) (o : Options) (cache cache' : Dict Text) (made p : Policy)
        → new_policy s o ≡ ok made
        → pre_process_policy base64 download create_work_dir s o cache ≡ ok (p, cache')
        → ArePinned 0 made.spec.sources p.spec.sources
    unfolding pre_process_policy with_spec
    pre_process_policy-ArePinned s o cache cache' made p m h =
        let (q, f, h1) = >>=-ok (new_policy s o) _ h in
        let same = ok_same (sym m ∙ f) in
        let ((groups, c), g, h2) =
          >>=-ok (process_groups base64 download create_work_dir 0 q.spec.sources cache) _ h1 in
        subst (λ r. ArePinned 0 made.spec.sources r.spec.sources) (ap (λ r. r.0) (ok_same h2))
          (subst (λ r. ArePinned 0 r.spec.sources groups) (sym same)
            (process_groups-ArePinned 0 _ cache groups c g))
