-- ===== src/Engine/Filter.antt =====
-- `filterResources` of internal/engine/engine.go.
pub mod Laws
use node_configurator.Prelude.{
  Bool, true, false, not, ◌&&◌, ◌||◌, List, [], ◌∷◌, ◌++◌, if◌then◌else◌,
}
use node_configurator.Text.{Text, contains, is_nil}
use node_configurator.Resource.{Resource}

pub record Options : Type 0 where
  pub only : List Text
  pub skip : List Text

-- Whether the loop appends the resource of this name.
unfoldable pub is_kept : List Text → Options → Text → Bool
is_kept disabled opts name =
    if contains disabled name || contains opts.skip name
    then false
    else if not (is_nil opts.only) && not (contains opts.only name)
    then false
    else true

unfoldable pub filter_resources :
    {S : Type 0} → List (Resource S) → List Text → Options → List (Resource S)
unfolding is_kept
filter_resources [] disabled opts = []
filter_resources (r ∷ rs) disabled opts =
    let rest = filter_resources rs disabled opts in
    if is_kept disabled opts r.name then r ∷ rest else rest
