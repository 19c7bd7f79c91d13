-- ===== src/Bundle.antt =====
-- src/shared/work-bundle.ts: the resources that a piece of work declares, and the host's budget.
--
-- The quotas 0.75 and 0.6 are written as 3 / 4 and 3 / 5 over whole numbers, which floors as the
-- source's floating-point product does for every memory size below 2 ^ 50 bytes.
pub mod Laws
use dex_reach.Common.{
  ℕ, ◌*◌, ◌/◌, max, Bool, true, false, not, ◌&&◌, ◌||◌, Option, none, some, leb, if◌then◌else◌,
}
use dex_reach.Common.Outcome.{Result, ok, err}
use dex_reach.Capacity.{WorkloadClass, AccessClass, is_light, is_read, is_exclusive}

pub data IoClass : Type 0 where
  low normal high : IoClass

pub data NetworkClass : Type 0 where
  no_network light heavy : NetworkClass

pub record WorkBundle : Type 0 where
  pub cpu_units : ℕ
  pub memory_mib : ℕ
  pub io : IoClass
  pub network : NetworkClass
  pub repository_write : Bool
  pub machine_exclusive : Bool

pub data BundleError : Type 0 where
  malformed must_declare_write must_declare_exclusive : BundleError

unfoldable pub legacy_work_bundle : WorkloadClass → AccessClass → WorkBundle
legacy_work_bundle WorkloadClass.light access = record {
  cpu_units = 1;
  memory_mib = 512;
  io = low;
  network = no_network;
  repository_write = not (is_read access);
  machine_exclusive = is_exclusive access;
}
legacy_work_bundle WorkloadClass.medium access = record {
  cpu_units = 2;
  memory_mib = 2048;
  io = normal;
  network = light;
  repository_write = not (is_read access);
  machine_exclusive = is_exclusive access;
}
legacy_work_bundle WorkloadClass.heavy access = record {
  cpu_units = 4;
  memory_mib = 4096;
  io = high;
  network = heavy;
  repository_write = not (is_read access);
  machine_exclusive = is_exclusive access;
}

-- The ranges; that the fields have their types is given by the record.
unfoldable pub is_work_bundle : WorkBundle → Bool
is_work_bundle b =
    leb 1 b.cpu_units && (leb b.cpu_units 64 && (leb 64 b.memory_mib && leb b.memory_mib 1048576))

unfoldable pub normalize_work_bundle :
    WorkloadClass → AccessClass → Option WorkBundle → Result BundleError WorkBundle
normalize_work_bundle workload access none = ok (legacy_work_bundle workload access)
normalize_work_bundle workload access (some b) =
    if not (is_work_bundle b)
    then err malformed
    else if not (is_read access) && not b.repository_write
    then err must_declare_write
    else if is_exclusive access && not b.machine_exclusive
    then err must_declare_exclusive
    else ok b

unfoldable pub cpu_budget : ℕ → ℕ
cpu_budget cpus = max 1 (max 1 cpus * 3 / 4)

unfoldable pub memory_budget : ℕ → ℕ
memory_budget bytes = max 1024 (bytes * 3 / (5 * 1048576))

abbrev pub is_high_io : IoClass → Bool
is_high_io high = true
is_high_io _ = false

abbrev pub is_heavy_network : NetworkClass → Bool
is_heavy_network heavy = true
is_heavy_network _ = false
