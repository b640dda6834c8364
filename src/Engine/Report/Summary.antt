-- ===== src/Engine/Report/Summary.antt =====
-- `WriteFactsSummary` of internal/engine/report.go: the text that it writes.
use node_configurator.Prelude.{Bool, true, false, ◌&&◌, [], ◌++◌, if◌then◌else◌, ltb_ℤ, pos}
use node_configurator.Text.{Text, codes, is_nil}
use node_configurator.Text.Number.{show_int}
use node_configurator.Float.Decimal.{show_float}
use node_configurator.Facts.{Facts}

-- The verb `%t`.
abbrev pub show_bool : Bool → Text
show_bool true = codes "true"
show_bool false = codes "false"

-- The line of the instance.
unfoldable pub instance_line : Facts → Text
instance_line f =
    if is_nil f.instance_type
    then codes "Instance:  unknown (arch " ++ (f.arch ++ codes ")\n")
    else codes "Instance:  "
      ++ (f.instance_type
          ++ (codes " (family "
              ++ (f.family
                  ++ (codes ", "
                      ++ (f.arch
                          ++ ((if is_nil f.hypervisor
                                then []
                                else codes ", " ++ (f.hypervisor ++ codes " hypervisor"))
                              ++ codes ")\n"))))))

unfoldable pub region_line : Facts → Text
region_line f =
    if is_nil f.region
    then []
    else codes "Region:    "
      ++ (f.region ++ (codes " (az " ++ (f.availability_zone ++ codes ")\n")))

unfoldable pub sizing_line : Facts → Text
sizing_line f =
    codes "Sizing:    "
    ++ (show_int f.vcpus
        ++ (codes " vCPUs, "
            ++ (show_int f.mem_mib
                ++ (codes " MiB memory, ~"
                    ++ (show_float f.network_bandwidth_gbps
                        ++ (codes " Gbps network"
                            ++ ((if f.ena_support then codes " (ENA)" else [])
                                ++ ((if ltb_ℤ (pos 0) f.max_enis
                                      then codes ", maxENIs=" ++ show_int f.max_enis
                                      else [])
                                    ++ codes "\n"))))))))

unfoldable pub storage_line : Facts → Text
storage_line f =
    codes "Storage:   NVMe instance store="
    ++ (show_bool f.nvme_instance_store
        ++ (codes ", bare metal=" ++ (show_bool f.bare_metal ++ codes "\n")))

unfoldable pub host_line : Facts → Text
host_line f =
    if is_nil f.distro.id && is_nil f.kernel_version
    then []
    else codes "Host:      "
      ++ (f.distro.id
          ++ (codes " "
              ++ (f.distro.version_id ++ (codes ", kernel " ++ (f.kernel_version ++ codes "\n")))))

-- What `WriteFactsSummary` writes.
unfoldable pub facts_summary : Facts → Text
unfolding instance_line region_line sizing_line storage_line host_line
facts_summary f =
    (codes "=== Discovered facts (source: " ++ (f.source ++ codes ") ===\n"))
    ++ (instance_line f ++ (region_line f ++ (sizing_line f ++ (storage_line f ++ host_line f))))
