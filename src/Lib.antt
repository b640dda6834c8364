-- ===== src/Lib.antt =====
-- node-configurator: idempotent tuning of the nodes of a Kubernetes cluster on EC2.
--
-- A run gathers facts of the host, computes a profile of desired settings, builds one resource for
-- each kind of setting, and lets the engine check each resource and, in apply mode, change what has
-- drifted.
--
-- Parts:
-- - Text models Go strings as lists of code points, with the functions of `strings`, `sort`,
--   `strconv`, `bufio` and `fmt` that the program calls, and maps with string keys (Text/Dict).
-- - System stands for the operating system: an abstract state and the calls of `os`,
--   `path/filepath` (`Glob`) and `os/exec` that the program makes, as a record of operations. What
--   the theorems rely on in a file system is the record `HasFiles` of Sysutil/Files. What a
--   resource relies on in the kernel is a record beside its theorem. System/Loop is the loop that the
--   first error ends. Tests/Memory gives a system in memory that meets the laws of files.
-- - Sysutil/Paths is internal/sysutil/env.go, Sysutil/Atomic internal/sysutil/atomic.go, and
--   Sysutil/Procsys internal/sysutil/procsys.go. A path is the list of its elements. Sysutil/Cmd is
--   internal/sysutil/cmd.go, the runner behind the commands of System.
-- - Resource is internal/resource/resource.go, and its children are the files beside it: the
--   interface `Resource` is a record of a name, `check` and `apply`. A method that may fail returns
--   an `Outcome`, which holds the state that is left also when it fails.
--   The children are Sysctl, KernelModule, Swap, CgroupV2, Mount, DropInFile, Limits, CpuGovernor,
--   IoScheduler, IrqAffinity and Nic. Fstab holds the edits of /etc/fstab of swap.go and mount.go, and
--   CpuMask and RingParams the CPU masks and the ring buffers of nictuning.go.
-- - Float is float64 as far as the formulas of the profile use it. What the conversion to int64 gives
--   out of range is left open by the language, and is a parameter here.
--   Float/Decimal has quotients, `ParseFloat` and the verb `%v`.
-- - Facts is internal/facts: Facts itself and Gather are facts.go, Local is local.go, Cache is cache.go,
--   and Instance is ec2meta.go and imds.go. Host is what they ask beside files: the machine, the clock,
--   the AWS SDK and the JSON of the cache.
-- - Profile is internal/profile: Base is base.go, Scaling scaling.go, Cilium cilium.go, and Merge is
--   merge.go, which composes them. Config is internal/config/config.go, which gives the overrides.
-- - Engine is internal/engine: Build, Run and Filter are engine.go, and Report, with Summary, is
--   report.go. Build/Every is how a fact about each kind of resource becomes one about all resources of a
--   profile.
-- - Command is cmd/node-configurator/main.go: Flags reads the arguments, and Main has the subcommands,
--   which put the facts, the profile, the resources and the run together. World is what they run on: a
--   system, a host, the standard streams, and the formats of files and reports.
-- - Tests holds tests, and the theorems applied to concrete values.
--
-- The text of an error keeps what the program adds to it; `%v` and `%w` print the message of the
-- error. Strings are texts: bytes that are not UTF-8 do not occur. Contexts are never cancelled, but for
-- the timeout of a command.
--
-- Loops are recursion on the list they read. Some run on a number of rounds: the decimal digits of n
-- take n + 1 rounds, and a number has fewer digits; the bits of a mask word take 32, its width; the
-- rounding to 53 bits takes 128, and the mantissas of the formulas have fewer than 181 bits.
--
-- The digits of a `float64` that are shown are at most 17, which tell any two values apart.
--
-- Not modelled: the calls of the AWS SDK, the parsers and printers of YAML and JSON, and the parser of
-- durations, which are parameters; what the package `flag` prints on an error; and the start of processes
-- by `os/exec`. Bounds of exponents: a `float64` that is subnormal is not rounded further.
pub mod Prelude
pub mod Text
pub mod System
pub mod Float
pub mod Sysutil
pub mod Facts
pub mod Profile
pub mod Config
pub mod Resource
pub mod Engine
pub mod Command
mod Tests
