-- ===== src/Tests/Gathering.antt =====
-- A host whose facts come from the EC2 API, and are cached.
use node_configurator.Prelude.{
  false, [], ◌∷◌, none, some, ◌≡◌, refl, sym, ◌∙◌, pos, ap, if◌then◌else◌,
}
use mathlib.Core.Logic.{ite, if_pos, if_neg}
use native.Mathlib.Decide.{ℕ_discrete}
use node_configurator.Text.{Text, codes, text_eq, split, cut}
use node_configurator.System.{FilePath, Fallible, value, failure, done, fail}
use node_configurator.Sysutil.Paths.{new, path, filepath_join, clean_element}
use node_configurator.Facts.{Facts, empty_facts, family_from_instance_type}
use node_configurator.Facts.Host.{Host, IdentityDocument, InstanceTypeInfo, CacheEnvelope}
use node_configurator.Facts.Cache.{default_cache_path, save_cache, load_cache}
use node_configurator.Facts.Instance.{
  identity_facts, apply_instance_type_info, gather_identity, fetch_identity_document,
  apply_network_info, bandwidth_from_network_info, gather_instance_type_info, card_bandwidth,
  fetch_instance_type_info, parse_network_performance_gbps, first_type,
}
use node_configurator.Facts.Gather.{
  Gatherer, with_family, with_host, enriched, gather, cache_facts, cached_facts, query_api,
  identified,
}
use node_configurator.Facts.Gather.Origin.{IsAnswer}
use node_configurator.Facts.Gather.Answers.{gather-IsAnswer}
use node_configurator.Facts.Gather.Cached.{ReadsBack, gather_cached}
use node_configurator.Tests.Memory.{Store, read, set, set_same, overwrite, path_eq}
use node_configurator.Tests.Kernel.{overwrite_done}
use node_configurator.Tests.Toy.{toy, start, broken}

Envelope-discrete : Discrete CacheEnvelope
Envelope-discrete = hlevel (ℕ_discrete)

abbrev document : IdentityDocument
document = record {
  instance_id = codes "i-1";
  instance_type = codes "m6i.2xlarge";
  region = codes "eu-west-1";
  availability_zone = codes "eu-west-1a";
  architecture = codes "x86_64";
}

abbrev instance_info : InstanceTypeInfo
instance_info = record {
  vcpu_info = some (record { default_vcpus = some (pos 8) });
  memory_info = some (record { size_in_mib = some (pos 32768) });
  bare_metal = some false;
  hypervisor = codes "nitro";
  instance_storage_info = none;
  network_info = some (record {
    ena_support = codes "required";
    maximum_network_interfaces = some (pos 4);
    ipv4_addresses_per_interface = some (pos 15);
    network_cards = [];
    network_performance = some (codes "Up to 12.5 Gigabit");
  });
}

abbrev written_form : Text
written_form = codes "{facts}"

-- The text of one envelope alone.
marshal_one : CacheEnvelope → CacheEnvelope → Fallible Text
marshal_one known e = ite (Envelope-discrete e known) (value written_form) (failure broken)

unmarshal_one : CacheEnvelope → Text → Fallible CacheEnvelope
unmarshal_one known s = if text_eq s written_form then value known else failure broken

abbrev host_with : CacheEnvelope → Host Store
host_with known = record {
  num_cpu = pos 8;
  goarch = codes "amd64";
  now = λ s. pos 1000;
  get_identity = λ s. value document;
  load_default_config = λ region s. none;
  describe_instance_types = λ region type s. value (instance_info ∷ []);
  marshal = marshal_one known;
  unmarshal = unmarshal_one known;
}

abbrev cache_file : FilePath
cache_file = codes "var" ∷ codes "lib" ∷ codes "node-configurator" ∷ codes "facts.json" ∷ []

abbrev with_cache : Store
with_cache = set cache_file (some (codes "old")) start

abbrev gatherer : Gatherer
gatherer = record { env = some new; cache_path = []; cache_ttl = pos 0; refresh = false }

-- The facts do not depend on what the cache can hold.
abbrev known_facts : Facts
known_facts =
    enriched toy (host_with (record { facts = empty_facts; cached_at = pos 0 })) gatherer
      (with_family (identity_facts document)) (apply_instance_type_info empty_facts instance_info)
      with_cache

abbrev known : CacheEnvelope
known = record { facts = known_facts; cached_at = pos 1000 }

abbrev host : Host Store
host = host_with known

gather-IsAnswer_example :
    IsAnswer toy host gatherer with_cache (gather toy host gatherer with_cache)
gather-IsAnswer_example = gather-IsAnswer toy host gatherer with_cache

unmarshal_written : (k : CacheEnvelope) → unmarshal_one k written_form ≡ value k
unfolding unmarshal_one text_eq
unmarshal_written k = refl

read-set : (p : FilePath) (c : Text) (s : Store) → read (set p (some c) s) p ≡ value c
unfolding read
read-set p c s = rw (read, set_same p (some c) s)

marshal_one_lem :
    (k e : CacheEnvelope) (c : Text) → marshal_one k e ≡ value c → unmarshal_one k c ≡ value e
unfolding marshal_one
marshal_one_lem k e c h = elim (Envelope-discrete e k) [
  | yes p ↦
      let q : written_form ≡ c = cc (rw (if_pos _ p) at h) in
      ap (unmarshal_one k) (sym q) ∙ unmarshal_written k ∙ ap value (sym p)
  | no n ↦ absurd (cc (rw (if_neg _ n) at h))
]

host-ReadsBack : ReadsBack toy host
host-ReadsBack = record {
  json = marshal_one_lem known;
  file = λ p c s t h.
      rw
        (overwrite_done (λ s p. failure broken) (λ s p. failure broken) (λ c args s. fail broken s)
          p c s t h)
        (read-set p c s);
}

abbrev next : Store
next = set (path new (default_cache_path ∷ [])) (some written_form) with_cache

marshal_same : (k : CacheEnvelope) → marshal_one k k ≡ value written_form
unfolding marshal_one
marshal_same k = rw (if_pos (Envelope-discrete k k) refl) refl

saved : save_cache toy new host default_cache_path known_facts with_cache ≡ done tt next
unfolding save_cache overwrite set path_eq path filepath_join split new clean_element text_eq
saved = rw (save_cache, marshal_same known) refl

asked : gather toy host gatherer with_cache ≡ cache_facts toy host gatherer known_facts with_cache
unfolding gather identified query_api cached_facts load_cache gather_identity
    fetch_identity_document read set enriched path_eq with_host path filepath_join
    family_from_instance_type split cut new apply_instance_type_info clean_element
    apply_network_info unmarshal_one bandwidth_from_network_info gather_instance_type_info
    card_bandwidth fetch_instance_type_info parse_network_performance_gbps first_type text_eq
asked = refl

gather_once : gather toy host gatherer with_cache ≡ done known_facts next
unfolding cache_facts
gather_once = asked ∙ rw (cache_facts, saved) refl

no_warnings : known_facts.warnings ≡ []
unfolding enriched with_host
no_warnings = refl

gather_cached_example :
    gather toy
      (record host {
        describe_instance_types = λ region type s. failure broken;
        load_default_config = λ region s. some broken;
      })
      gatherer
      next
    ≡ done (with_host toy host gatherer next known_facts) next
gather_cached_example =
    gather_cached toy host gatherer host-ReadsBack document refl refl refl
      (λ region type s. failure broken) (λ region s. some broken) known_facts with_cache next refl
      refl gather_once no_warnings
