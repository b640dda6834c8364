-- ===== src/Sysutil/Netdev.antt =====
-- internal/sysutil/netdev.go: the interface to tune.
pub mod Laws
use node_configurator.Prelude.{
  ℕ, Bool, true, false, List, [], ◌∷◌, if◌then◌else◌, Option, none, some,
}
use node_configurator.Text.{Text, codes, is_nil, text_eq}
use node_configurator.System.{FilePath, Error, Fallible, value, failure, Os}
use node_configurator.Sysutil.Paths.{Env, path}

module _ (os : Os) (env : Env) where
  open os use {State, read_dir, stat}

  -- The interface has a `device`.
  unfoldable pub has_device : State → Text → Bool
  has_device s name =
      elim (stat s
        (path env (codes "sys" ∷ codes "class" ∷ codes "net" ∷ name ∷ codes "device" ∷ []))) [
          | none ↦ true
          | some _ ↦ false
        ]

  -- The loop of `PrimaryInterface`, with its fallback.
  unfoldable pub pick_interface : State → Text → List Text → Text
  pick_interface s fallback [] = fallback
  pick_interface s fallback (name ∷ names) =
      let skipped = pick_interface s fallback names in
      let kept = if is_nil fallback then name else fallback in
      let rest = pick_interface s kept names in
      if text_eq name (codes "lo") then skipped else if has_device s name then name else rest

  -- `PrimaryInterface`
  unfoldable pub primary_interface : State → Text
  primary_interface s =
      elim (read_dir s (path env (codes "sys" ∷ codes "class" ∷ codes "net" ∷ []))) [
        | failure _ ↦ []
        | value names ↦ pick_interface s [] names
      ]
