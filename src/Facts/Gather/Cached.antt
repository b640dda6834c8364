-- ===== src/Facts/Gather/Cached.antt =====
-- The cache of `Gather` serves the next run.
use node_configurator.Prelude.{
  true, false, [], ◌∷◌, some, ◌≡◌, inl, inr, refl, sym, ap, ◌∙◌, arith, List, Option, ℤ, ltb_ℤ, pos,
  Option-cases,
}
use node_configurator.Text.{Text, is_nil, text_eq}
use node_configurator.Text.Equality.{text_eq_refl}
use node_configurator.System.{FilePath, Error, Fallible, value, done, ◌>>◌, Os}
use node_configurator.System.Post.{Fallible-cases, Outcome-cases, done-injective}
use node_configurator.Sysutil.Paths.{path, dir}
use node_configurator.Facts.{Facts}
use node_configurator.Facts.Host.{Host, IdentityDocument, InstanceTypeInfo, CacheEnvelope}
use node_configurator.Facts.Cache.{load_cache, save_cache, usable_facts, is_expired}
use node_configurator.Facts.Instance.{
  gather_identity, fetch_identity_document, gather_instance_type_info, identity_facts,
}
use node_configurator.Facts.Gather.{
  Gatherer, env_of, cache_path_of, with_family, with_host, without_api, enriched, cache_facts,
  query_api, cached_facts, identified, gather,
}
use node_configurator.Facts.Gather.Answers.{append-ne-nil}

module _ (os : Os) (host : Host os.State) (g : Gatherer) where
  open os use {State}

  cached_facts-load_cache :
      (identity : Facts) (s : State)
      → g.refresh ≡ false
      → cached_facts os host g identity s
        ≡ load_cache os
            (env_of g.env)
            host
            (cache_path_of g.cache_path)
            identity.instance_id
            g.cache_ttl
            s
  unfolding cached_facts
  cached_facts-load_cache identity s r = ground arith

  identified_hit :
      (identity c : Facts) (s : State)
      → cached_facts os host g identity s ≡ some c
      → identified os host g identity s ≡ done (with_host os host g s c) s
  unfolding identified
  identified_hit identity c s k = rw (identified, k) refl

-- What the next run relies on: JSON reads back what it has written, and so does the file system.
pub record ReadsBack (os : Os) (host : Host os.State) : Type 0 where
  pub json : (e : CacheEnvelope) (c : Text) → host.marshal e ≡ value c → host.unmarshal c ≡ value e
  pub file :
      (p : FilePath) (c : Text) (s t : os.State)
      → os.write_file p c s ≡ done tt t
      → os.read_file t p ≡ value c

module _ (os : Os) (host : Host os.State) (g : Gatherer) (back : ReadsBack os host) where
  open os use {State, read_file, mkdir_all, write_file}

  -- The cache holds these facts.
  abbrev Cached : Facts → State → Type 0
  Cached f t =
      (c : Text) × (e : CacheEnvelope) × (read_file t
          (path (env_of g.env) (cache_path_of g.cache_path ∷ []))
        ≡ value c)
      × (host.unmarshal c ≡ value e)
      × (e.facts ≡ f)

  save_cache-Cached :
      (f : Facts) (s t : State)
      → save_cache os (env_of g.env) host (cache_path_of g.cache_path) f s ≡ done tt t
      → Cached f t
  unfolding save_cache
  save_cache-Cached f s t h =
      let e : CacheEnvelope = record { facts = f; cached_at = host.now s } in
      elim (Fallible-cases (host.marshal e)) [
        | inl (c, m) ↦
            let full = path (env_of g.env) (cache_path_of g.cache_path ∷ []) in
            elim (Outcome-cases (mkdir_all (dir full) s)) [
              | inl (a, u, k) ↦ (
                c,
                e,
                back.file full c u t (rw (save_cache, m, ◌>>◌, k) at h),
                back.json e c m,
                refl,
              )
              | inr (x, u, k) ↦ absurd (cc (rw (save_cache, m, ◌>>◌, k) at h))
            ]
        | inr (x, m) ↦ absurd (cc (rw (save_cache, m) at h))
      ]

  usable_facts_lem :
      (want : Text) (now : ℤ) (e : CacheEnvelope)
      → ltb_ℤ (pos 0) g.cache_ttl ≡ false
      → is_nil want ≡ false
      → text_eq e.facts.instance_id want ≡ true
      → usable_facts want g.cache_ttl now e ≡ some e.facts
  unfolding usable_facts is_expired
  usable_facts_lem want now e ttl n i = ground arith

  load_cache-Cached :
      (f : Facts) (want : Text) (t : State)
      → Cached f t
      → ltb_ℤ (pos 0) g.cache_ttl ≡ false
      → is_nil want ≡ false
      → f.instance_id ≡ want
      → load_cache os (env_of g.env) host (cache_path_of g.cache_path) want g.cache_ttl t ≡ some f
  unfolding load_cache
  load_cache-Cached f want t c ttl n i =
      let (x, e, r, u, k) = c in
      let same : e.facts.instance_id ≡ want = ap (λ (y : Facts). y.instance_id) k ∙ i in
      rw (load_cache, r, u)
        (usable_facts_lem want (host.now t) e ttl n (rw same (text_eq_refl want)) ∙ ap some k)

  -- The facts that a run with no warning has got are the cached ones, or are cached now.
  Served : Text → Facts → State → Type 0
  Served want f t =
      (c : Facts) × (load_cache os (env_of g.env) host (cache_path_of g.cache_path) want g.cache_ttl
          t
        ≡ some c)
      × (with_host os host g t f ≡ with_host os host g t c)

  module _ (doc : IdentityDocument) (fresh : g.refresh ≡ false)
      (ttl : ltb_ℤ (pos 0) g.cache_ttl ≡ false) (known : is_nil doc.instance_id ≡ false) where
    named : Facts
    named = with_family (identity_facts doc)

    cache_facts-Served :
        (en f : Facts) (s t : State)
        → cache_facts os host g (enriched os host g named en s) s ≡ done f t
        → f.warnings ≡ []
        → Served doc.instance_id f t
    unfolding cache_facts enriched with_host named Served
    cache_facts-Served en f s t h w =
        let e = enriched os host g named en s in
        elim (Outcome-cases (save_cache os (env_of g.env) host (cache_path_of g.cache_path) e s)) [
          | inl (a, u, k) ↦
              let (same, there) = done-injective (rw (cache_facts, k) at h) in
              (
                e,
                rw there at (
                    load_cache-Cached e doc.instance_id u (save_cache-Cached e s u k) ttl known
                      refl),
                ap (with_host os host g t) (sym same),
              )
          | inr (x, u, k) ↦
              let (same, _) = done-injective (rw (cache_facts, k) at h) in
              absurd (append-ne-nil e.warnings _ (ap (λ (y : Facts). y.warnings) same ∙ w))
        ]

    query_api-Served :
        (f : Facts) (s t : State)
        → query_api os host g named s ≡ done f t
        → f.warnings ≡ []
        → Served doc.instance_id f t
    unfolding query_api without_api with_host
    query_api-Served f s t h w =
        elim (Fallible-cases (gather_instance_type_info host named.region named.instance_type s)) [
          | inl (en, k) ↦ cache_facts-Served en f s t (rw (query_api, k) at h) w
          | inr (x, k) ↦
              let (same, _) = done-injective (rw (query_api, k) at h) in
              absurd (append-ne-nil named.warnings _ (ap (λ (y : Facts). y.warnings) same ∙ w))
        ]

    identified-Served :
        (f : Facts) (s t : State)
        → identified os host g named s ≡ done f t
        → f.warnings ≡ []
        → Served doc.instance_id f t
    unfolding identified cached_facts Served with_host named
    identified-Served f s t h w = elim (Option-cases (cached_facts os host g named s)) [
      | inl k ↦ query_api-Served f s t (rw (identified, k) at h) w
      | inr (c, k) ↦
          let (same, there) = done-injective (rw (identified, k) at h) in
          (
            c,
            rw there at (sym (cached_facts-load_cache os host g named s fresh) ∙ k),
            ap (with_host os host g t) (sym same),
          )
    ]

    gather-Served :
        (f : Facts) (s t : State)
        → host.get_identity s ≡ value doc
        → gather os host g s ≡ done f t
        → f.warnings ≡ []
        → Served doc.instance_id f t
    unfolding gather gather_identity fetch_identity_document named
    gather-Served f s t i h w =
        identified-Served f s t (rw (gather, gather_identity, fetch_identity_document, i) at h) w

    -- If a run gets facts with no warning, then the next run on the same instance gets the same facts,
    -- with the distribution and the kernel as they are then, and changes nothing, whatever the EC2 API
    -- answers: the cache serves it, where entries do not expire and the files keep what is written.
    pub gather_cached :
        (describe : Text → Text → State → Fallible (List InstanceTypeInfo))
        (load : Text → State → Option Error) (f : Facts) (s t : State)
        → host.get_identity s ≡ value doc
        → host.get_identity t ≡ value doc
        → gather os host g s ≡ done f t
        → f.warnings ≡ []
        → gather os
            (record host { describe_instance_types = describe; load_default_config = load })
            g
            t
          ≡ done (with_host os host g t f) t
    unfolding gather gather_identity fetch_identity_document load_cache Served with_host
    gather_cached describe load f s t i j h w =
        let (c, k, same) = gather-Served f s t i h w in
        let next : Host State = record host {
          describe_instance_types = describe;
          load_default_config = load;
        } in
        let id = with_family (identity_facts doc) in
        rw (gather, gather_identity, fetch_identity_document, j)
          (identified_hit os next g id c t (cached_facts-load_cache os next g id t fresh ∙ k)
            ∙ ap (λ x. done x t) (sym same))
