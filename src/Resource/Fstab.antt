-- ===== src/Resource/Fstab.antt =====
-- /etc/fstab as internal/resource/swap.go and internal/resource/mount.go read and edit it.
pub mod Laws
pub mod Entries
use node_configurator.Prelude.{
  ℕ, Bool, true, false, ◌&&◌, ◌||◌, not, List, [], ◌∷◌, ◌++◌, map, if◌then◌else◌, Option, none,
  some, any,
}
use node_configurator.Text.{
  Text, codes, is_nil, text_eq, has_prefix, ends_in, split, join, fields, trim_space,
}
use node_configurator.System.{FilePath}
use node_configurator.Sysutil.Paths.{Env, path}

-- The second element of a list, as `len(fields) >= 2` guards it, and the third one.
abbrev second : List Text → Option Text
second (a ∷ b ∷ more) = some b
second _ = none

abbrev third : List Text → Option Text
third (a ∷ b ∷ c ∷ more) = some c
third _ = none

abbrev is_text : Option Text → Text → Bool
is_text none t = false
is_text (some s) t = text_eq s t

-- What the loops over fstab skip: empty lines and comments.
unfoldable pub is_ignored : Text → Bool
is_ignored trimmed = is_nil trimmed || has_prefix trimmed (codes "#")

-- A line whose type is swap, in both loops of swap.go.
unfoldable pub is_swap_line : Text → Bool
unfolding is_ignored
is_swap_line line =
    if is_ignored (trim_space line)
    then false
    else is_text (third (fields (trim_space line))) (codes "swap")

-- `fstabHasActiveSwapLines`
unfoldable pub fstab_has_active_swap_lines : Text → Bool
fstab_has_active_swap_lines content = any is_swap_line (split b'\n' content)

-- One round of the loop of `commentFstabSwapLines`.
unfoldable pub comment_line : Text → Text
comment_line line =
    if is_swap_line line then codes "# disabled by node-configurator: " ++ line else line

-- The content that `commentFstabSwapLines` writes.
unfoldable pub comment_swap_lines : Text → Text
comment_swap_lines content = join (codes "\n") (map comment_line (split b'\n' content))

-- A line whose mount point is `mount_point`, in the loop of `fstabLineExists`.
unfoldable pub is_entry_for : Text → Text → Bool
unfolding is_ignored
is_entry_for mount_point line =
    if is_ignored (trim_space line)
    then false
    else is_text (second (fields (trim_space line))) mount_point

-- `fstabLineExists`
unfoldable pub fstab_line_exists : Text → Text → Bool
fstab_line_exists content mount_point = any (is_entry_for mount_point) (split b'\n' content)

-- The entry that `persistFstab` appends, with its newline.
unfoldable pub fstab_entry : Text → Text → Text → Text → Text
fstab_entry device mount_point fs_type options =
    device
    ++ (codes " "
        ++ (mount_point ++ (codes " " ++ (fs_type ++ (codes " " ++ (options ++ codes " 0 0\n"))))))

-- The content that `persistFstab` writes.
unfoldable pub append_entry : Text → Text → Text
append_entry existing entry =
    if not (is_nil existing) && not (ends_in b'\n' existing)
    then existing ++ (codes "\n" ++ entry)
    else existing ++ entry

-- `fstabPath`
unfoldable pub fstab_path : Env → FilePath
fstab_path env = path env (codes "etc" ∷ codes "fstab" ∷ [])
