-- ===== src/Facts/Cache.antt =====
-- internal/facts/cache.go: the facts of the last run.
use node_configurator.Prelude.{
  ℕ, ◌+◌, ◌-◌, ◌^◌, suc, Bool, not, ◌&&◌, ◌||◌, leb, ltb, [], ◌∷◌, if◌then◌else◌, Option, none,
  some, ℤ, pos, negsuc, ltb_ℤ,
}
use node_configurator.Text.{Text, codes, is_nil, text_eq}
use node_configurator.System.{value, failure, Outcome, fail, ◌>>◌, Os}
use node_configurator.Sysutil.Paths.{Env, path, dir}
use node_configurator.Facts.{Facts}
use node_configurator.Facts.Host.{CacheEnvelope, Host}

abbrev pub default_cache_path : Text
default_cache_path = codes "/var/lib/node-configurator/facts.json"

-- `a - b` for natural numbers, as an integer
abbrev difference : ℕ → ℕ → ℤ
difference a b = if leb b a then pos (a - b) else negsuc (b - a - 1)

-- `a - b`
unfoldable pub minus : ℤ → ℤ → ℤ
minus (pos a) (pos b) = difference a b
minus (pos a) (negsuc b) = pos (a + suc b)
minus (negsuc a) (pos b) = negsuc (a + b)
minus (negsuc a) (negsuc b) = difference b a

-- The nearest `int64`.
unfoldable pub saturate : ℤ → ℤ
saturate (pos n) = if ltb n (2 ^ 63) then pos n else pos (2 ^ 63 - 1)
saturate (negsuc n) = if ltb n (2 ^ 63) then negsuc n else negsuc (2 ^ 63 - 1)

-- `time.Since`, at a time `now`: a `Duration` that does not wrap around.
unfoldable pub since : ℤ → ℤ → ℤ
since now t = saturate (minus now t)

-- `ttl > 0 && time.Since(cachedAt) > ttl`
unfoldable pub is_expired : ℤ → ℤ → ℤ → Bool
unfolding since
is_expired ttl now cached_at = ltb_ℤ (pos 0) ttl && ltb_ℤ ttl (since now cached_at)

-- The facts of an envelope that is for this instance and not too old.
unfoldable pub usable_facts : Text → ℤ → ℤ → CacheEnvelope → Option Facts
usable_facts want ttl now envelope =
    if is_nil want || not (text_eq envelope.facts.instance_id want)
    then none
    else if is_expired ttl now envelope.cached_at
    then none
    else some envelope.facts

module _ (os : Os) (env : Env) (host : Host os.State) where
  open os use {State, read_file, mkdir_all, write_file}

  -- `loadCache`, where `none` is no hit
  unfoldable pub load_cache : Text → Text → ℤ → State → Option Facts
  load_cache cache_path want ttl s = elim (read_file s (path env (cache_path ∷ []))) [
    | failure _ ↦ none
    | value content ↦ elim (host.unmarshal content) [
      | failure _ ↦ none
      | value envelope ↦ usable_facts want ttl (host.now s) envelope
    ]
  ]

  -- `saveCache`
  unfoldable pub save_cache : Text → Facts → State → Outcome State (Unit {0})
  save_cache cache_path f s =
      let full = path env (cache_path ∷ []) in
      elim (host.marshal (record { facts = f; cached_at = host.now s })) [
        | failure e ↦ fail e s
        | value content ↦ (mkdir_all (dir full) >> write_file full content) s
      ]
