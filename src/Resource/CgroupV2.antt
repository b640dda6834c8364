-- ===== src/Resource/CgroupV2.antt =====
-- internal/resource/cgroupv2.go
use node_configurator.Prelude.{[], if◌then◌else◌}
use node_configurator.Text.{Text, codes}
use node_configurator.System.{Outcome, return, Os}
use node_configurator.Sysutil.Paths.{Env}
use node_configurator.Sysutil.Distro.{cgroup_v2_unified}
use node_configurator.Resource.{unchanged, reboot_required, Checked, Resource, result_of, checked}

-- `CgroupV2Resource.Name`
abbrev pub cgroup_v2_name : Text
cgroup_v2_name = codes "cgroup-v2"

module _ (os : Os) (env : Env) where
  open os use {State}

  -- `Check`
  unfoldable pub check : State → Checked State
  check s =
      if cgroup_v2_unified os env s
      then checked (result_of cgroup_v2_name unchanged []) s
      else checked
          (result_of cgroup_v2_name reboot_required (
            codes
              "host is on the cgroup v1 hierarchy; add systemd.unified_cgroup_hierarchy=1 to the kernel command line and reboot"))
          s

  -- `Apply`
  unfoldable pub apply : State → Outcome State (Unit {0})
  apply = return tt

  abbrev pub cgroup_v2_resource : Resource State
  cgroup_v2_resource = record { name = cgroup_v2_name; check = check; apply = apply }
