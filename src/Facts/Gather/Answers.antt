-- ===== src/Facts/Gather/Answers.antt =====
-- The branches of `Gather`, each with the origin of its facts.
use node_configurator.Prelude.{
  true, false, [], ◌∷◌, ◌++◌, none, some, ◌≡◌, ◌≢◌, inl, inr, refl, arith, List, Option-cases,
  Bool-cases,
}
use node_configurator.Text.{Text, codes}
use node_configurator.System.{value, done, Os}
use node_configurator.System.Post.{Fallible-cases, Outcome-cases}
use node_configurator.Facts.{Facts}
use node_configurator.Facts.Host.{Host}
use node_configurator.Facts.Local.{local_fallback}
use node_configurator.Facts.Cache.{save_cache}
use node_configurator.Facts.Instance.{gather_identity, gather_instance_type_info}
use node_configurator.Facts.Gather.{
  Gatherer, env_of, cache_path_of, warn, with_family, with_host, without_identity, without_api,
  enriched, cache_facts, query_api, cached_facts, identified, gather,
}
use node_configurator.Facts.Gather.Origin.{
  IsInstance, HasSizes, stored_for, Misses, saved, unsaved, from_cache, from_api, without_answer,
  without_metadata, IsAnswer,
}

pub append-ne-nil : (l : List Text) (w : Text) → l ++ w ∷ [] ≢ []
append-ne-nil [] w e = cc e
append-ne-nil (x ∷ l) w e = cc e

module _ (os : Os) (host : Host os.State) (g : Gatherer) where
  open os use {State}

  module _ (s : State) (identity : Facts) (known : gather_identity host s ≡ value identity) where
    enriched-IsInstance :
        (info : Facts) (ws : List Text)
        → IsInstance identity
            (record (enriched os host g (with_family identity) info s) { warnings = ws })
    unfolding enriched with_host
    enriched-IsInstance info ws = record {
      instance_id = refl;
      instance_type = refl;
      family = refl;
      region = refl;
      availability_zone = refl;
      arch = refl;
    }

    enriched-HasSizes :
        (info : Facts) (ws : List Text)
        → HasSizes info
            (record (enriched os host g (with_family identity) info s) { warnings = ws })
    unfolding enriched with_host
    enriched-HasSizes info ws = record {
      vcpus = refl;
      mem_mib = refl;
      network = refl;
      ena = refl;
      max_enis = refl;
      addresses = refl;
      instance_store = refl;
      bare_metal = refl;
      hypervisor = refl;
    }

    cache_facts-IsAnswer :
        (info : Facts)
        → Misses os host g identity s
        → gather_instance_type_info host identity.region identity.instance_type s ≡ value info
        → IsAnswer os host g s
            (cache_facts os host g (enriched os host g (with_family identity) info s) s)
    unfolding cache_facts enriched with_host
    cache_facts-IsAnswer info m h =
        let f = enriched os host g (with_family identity) info s in
        elim (Outcome-cases (save_cache os (env_of g.env) host (cache_path_of g.cache_path) f s)) [
          | inl (a, t, e) ↦ (
            f,
            t,
            rw (cache_facts, e) refl,
            record { distro = refl; kernel = refl },
            from_api identity info known m h (enriched-IsInstance info f.warnings)
                (enriched-HasSizes info f.warnings) refl (saved refl e),
          )
          | inr (x, t, e) ↦ (
            warn (codes "caching facts: " ++ x.message) f,
            t,
            rw (cache_facts, e) refl,
            record { distro = refl; kernel = refl },
            from_api identity info known m h (enriched-IsInstance info _) (enriched-HasSizes info _)
                refl (unsaved x refl e),
          )
        ]

    query_api-IsAnswer :
        Misses os host g identity s
        → IsAnswer os host g s (query_api os host g (with_family identity) s)
    unfolding query_api without_api with_host
    query_api-IsAnswer m =
        let o = gather_instance_type_info host identity.region identity.instance_type s in
        elim (Fallible-cases o) [
          | inl (info, h) ↦ rw (query_api, h) (cache_facts-IsAnswer info m h)
          | inr (x, h) ↦ (
            without_api os host g x (with_family identity) s,
            s,
            rw (query_api, h) refl,
            record { distro = refl; kernel = refl },
            without_answer identity x known m h
                (record {
                  instance_id = refl;
                  instance_type = refl;
                  family = refl;
                  region = refl;
                  availability_zone = refl;
                  arch = refl;
                })
                (record { vcpus = refl; mem_mib = refl; network = refl; instance_store = refl })
                refl (append-ne-nil identity.warnings _) refl,
          )
        ]

    from_stored :
        (stored : Facts)
        → g.refresh ≡ false
        → stored_for os host g identity s ≡ some stored
        → IsAnswer os host g s (done (with_host os host g s stored) s)
    unfolding with_host
    from_stored stored r h = (
      with_host os host g s stored,
      s,
      refl,
      record { distro = refl; kernel = refl },
      from_cache identity stored known r h refl refl,
    )

    bypassed : g.refresh ≡ true → cached_facts os host g (with_family identity) s ≡ none
    unfolding cached_facts
    bypassed r = ground arith

    looked_up :
        g.refresh ≡ false
        → cached_facts os host g (with_family identity) s ≡ stored_for os host g identity s
    unfolding cached_facts
    looked_up r = ground arith

    identified-IsAnswer : IsAnswer os host g s (identified os host g (with_family identity) s)
    unfolding identified
    identified-IsAnswer = elim (Bool-cases g.refresh) [
      | inl r ↦ rw (identified, bypassed r) (query_api-IsAnswer (inl r))
      | inr r ↦ elim (Option-cases (stored_for os host g identity s)) [
        | inl h ↦ rw (identified, looked_up r, h) (query_api-IsAnswer (inr h))
        | inr (stored, h) ↦ rw (identified, looked_up r, h) (from_stored stored r h)
      ]
    ]

  -- `Gather` never fails, and its facts are of one of four kinds. They are what the cache holds for
  -- the instance, only if the cache is not bypassed. Or, if it is bypassed or has nothing for the
  -- instance, they have the instance of the identity document and the sizes that the EC2 API answers,
  -- and they are written to the cache or carry a warning that this failed. Or, where the API fails,
  -- they have that instance and the sizes that the kernel shows; or, where the metadata fail, the
  -- kernel's sizes alone: these two say that they are local, carry a warning, and change nothing, the
  -- cache included. The distribution and the kernel version are always the present ones.
  pub gather-IsAnswer : (s : State) → IsAnswer os host g s (gather os host g s)
  unfolding gather without_identity with_host local_fallback
  gather-IsAnswer s = elim (Fallible-cases (gather_identity host s)) [
    | inl (identity, h) ↦ rw (gather, h) (identified-IsAnswer s identity h)
    | inr (x, h) ↦ (
      without_identity os host g x s,
      s,
      rw (gather, h) refl,
      record { distro = refl; kernel = refl },
      without_metadata x h refl
          (record { vcpus = refl; mem_mib = refl; network = refl; instance_store = refl }) refl
          (append-ne-nil [] _) refl,
    )
  ]
