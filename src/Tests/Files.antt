-- ===== src/Tests/Files.antt =====
-- Tests of the file helpers and of the sysctl resource.
use node_configurator.Prelude.{true, false, [], ◌∷◌, none, some, ◌≡◌, ◌↔◌, refl}
use node_configurator.Text.{Text, codes, text_eq, fields, contains}
use node_configurator.Text.Dict.{Dict, NodupKeys, keys}
use node_configurator.System.{FilePath, done}
use node_configurator.System.Post.{Post}
use node_configurator.Sysutil.Paths.{new, path, dir, base}
use node_configurator.Sysutil.Atomic.{
  write_file_if_changed, replace_file, fill_and_rename, then_remove, or_close, temp_prefix,
}
use node_configurator.Sysutil.Atomic.Temp.{Written, Untouched}
use node_configurator.Sysutil.Atomic.Laws.{write_file_if_changed_lem, write_file_if_changed_twice}
use node_configurator.Sysutil.Procsys.{sysctl_path}
use node_configurator.Sysutil.Procsys.Laws.{IsBelow, sysctl_path-IsBelow}
use node_configurator.Resource.Sysctl.{normalize_sysctl_value, render_sysctl_file}
use node_configurator.Resource.Sysctl.Values.{
  normalize_sysctl_value_iff, render_sysctl_file_of_perm,
}
use node_configurator.Resource.Sysctl.Settles.{sysctl-Converges}
use node_configurator.Engine.Run.Converge.{Converges}
use node_configurator.Tests.Memory.{
  Store, set, read, overwrite, create, move, delete, drop_star, path_eq,
}
use node_configurator.Tests.Kernel.{is_kernel}
use node_configurator.Tests.Toy.{
  toy, toy-HasFiles, toy-HasSysctls, sysctls, sysctls-IsApart, sysctls-AllApart, start, tuned,
}
use mathlib.Core.List.{Permᴰ}

abbrev drop_in : FilePath
drop_in = codes "etc" ∷ codes "sysctl.d" ∷ codes "99-tuning.conf" ∷ []

write_file_if_changed_lem_example :
    Post
      (λ _. Written toy toy-HasFiles drop_in (codes "a") start)
      (Untouched toy toy-HasFiles drop_in (codes "a") start)
      (write_file_if_changed toy drop_in (codes "a") 0o644 start)
write_file_if_changed_lem_example =
    write_file_if_changed_lem toy toy-HasFiles drop_in (codes "a") start 0o644

abbrev temporary : FilePath
temporary = codes "etc" ∷ codes "sysctl.d" ∷ codes ".99-tuning.conf.tmp-0" ∷ []

abbrev written : Store
written = set temporary none (
    set drop_in (some (codes "a"))
      (set temporary none (set temporary (some (codes "a")) (set temporary (some []) start))))

first_write : write_file_if_changed toy drop_in (codes "a") 0o644 start ≡ done true written
unfolding write_file_if_changed replace_file fill_and_rename then_remove or_close temp_prefix dir
    base set read overwrite create move delete drop_star path_eq is_kernel text_eq
first_write = refl

write_file_if_changed_twice_example :
    write_file_if_changed toy drop_in (codes "a") 0o644 written ≡ done false written
write_file_if_changed_twice_example =
    write_file_if_changed_twice toy toy-HasFiles drop_in (codes "a") 0o644 start first_write

sysctl_path-IsBelow_example :
    IsBelow
      (path new (codes "proc" ∷ codes "sys" ∷ []))
      (sysctl_path new (codes "../../etc/passwd"))
sysctl_path-IsBelow_example = sysctl_path-IsBelow new (codes "../../etc/passwd")

normalize_sysctl_value_iff_example :
    (normalize_sysctl_value (codes "1\t2\n") ≡ normalize_sysctl_value (codes "1 2"))
    ↔ (fields (codes "1\t2\n") ≡ fields (codes "1 2"))
normalize_sysctl_value_iff_example = normalize_sysctl_value_iff (codes "1\t2\n") (codes "1 2")

abbrev one_way : Dict Text
one_way = (codes "b", codes "1") ∷ (codes "a", codes "2") ∷ []

abbrev other_way : Dict Text
other_way = (codes "a", codes "2") ∷ (codes "b", codes "1") ∷ []

one_way-NodupKeys : NodupKeys one_way
unfolding contains keys text_eq
one_way-NodupKeys = (refl, (refl, tt))

render_sysctl_file_of_perm_example : render_sysctl_file one_way ≡ render_sysctl_file other_way
render_sysctl_file_of_perm_example =
    render_sysctl_file_of_perm one_way other_way one_way-NodupKeys (∣ Permᴰ.swap refl refl ∣₁)

sysctl-Converges_example : Converges tuned
sysctl-Converges_example =
    sysctl-Converges toy sysctls toy-HasFiles toy-HasSysctls sysctls-IsApart sysctls-AllApart
