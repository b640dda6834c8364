-- ===== src/Tests/Disks.antt =====
-- A system with two disks, whose kernel shows the active scheduler in brackets.
use node_configurator.Prelude.{[], ◌∷◌, ◌++◌, ◌≡◌, refl, inl, inr, some, Bool-cases}
use node_configurator.Text.{
  Text, codes, trim_space, trim_left, trim_right, is_space, trim, fields, has_prefix, ends_in,
}
use node_configurator.System.{FilePath, value, failure, done, fail, Os}
use node_configurator.Sysutil.Paths.{new}
use node_configurator.Resource.IoScheduler.{scheduler_path, nvme_devices, io_scheduler_resource}
use node_configurator.Resource.IoScheduler.Active.{IsShown}
use node_configurator.Resource.IoScheduler.Settles.{HasSchedulers, io_scheduler-Converges}
use node_configurator.Engine.Run.Converge.{Converges}
use node_configurator.Tests.Memory.{
  Store, read, set, set_same, set_other, overwrite, path_eq, path_eq_iff, path_eq-false,
}
use node_configurator.Tests.Kernel.{system, overwrite_done}
use node_configurator.Tests.Toy.{broken}

abbrev shown : Text
shown = codes "[none] mq-deadline\n"

abbrev no_scheduler : Text
no_scheduler = codes "none"

abbrev two_disks : Os
two_disks =
    record (system (λ s p. value (codes "nvme0n1" ∷ codes "nvme1n1" ∷ [])) (λ s p. failure broken)
      (λ c args s. fail broken s)) {
        write_file = λ p c s. overwrite p (codes "[" ++ (c ++ codes "] mq-deadline\n")) s;
      }

written :
    (p : FilePath) (s t : Store)
    → two_disks.write_file p no_scheduler s ≡ done tt t
    → t ≡ set p (some shown) s
written p s t h =
    overwrite_done (λ s p. value (codes "nvme0n1" ∷ codes "nvme1n1" ∷ [])) (λ s p. failure broken)
      (λ c args s. fail broken s) p shown s t h

none-IsShown : IsShown no_scheduler shown
unfolding trim_space trim_left trim_right is_space trim fields has_prefix ends_in
none-IsShown = record {
  before = [];
  word = codes "[none]";
  after = codes "mq-deadline" ∷ [];
  splits = refl;
  bracketed = refl;
  names = refl;
  alone = (refl, tt);
}

read-set : (p : FilePath) (s : Store) → read (set p (some shown) s) p ≡ value shown
unfolding read
read-set p s = rw (read, set_same p (some shown) s)

read-same : (p : FilePath) (s t : Store) → t p ≡ s p → read t p ≡ read s p
unfolding read
read-same p s t h = rw (read, h)

two_disks-HasSchedulers : HasSchedulers two_disks new no_scheduler
unfolding nvme_devices
two_disks-HasSchedulers = record {
  shows = λ dev s t w. (shown, rw (written _ s t w) (read-set _ s), none-IsShown);
  others = λ dev other s t w.
      let p = scheduler_path two_disks new no_scheduler dev in
      let q = scheduler_path two_disks new no_scheduler other in
      elim (Bool-cases (path_eq q p)) [
        | inl e ↦ inl ((path_eq_iff q p).0 e)
        | inr e ↦ inr (
            rw (written p s t w)
              (read-same q s _ (set_other p q (some shown) s (path_eq-false q p e))))
      ];
  same_devices = λ dev s t w. refl;
}

io_scheduler-Converges_example : Converges (io_scheduler_resource two_disks new no_scheduler)
io_scheduler-Converges_example =
    io_scheduler-Converges two_disks new no_scheduler two_disks-HasSchedulers
