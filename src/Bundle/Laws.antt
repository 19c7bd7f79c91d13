-- ===== src/Bundle/Laws.antt =====
-- Laws of src/shared/work-bundle.ts.
use dex_reach.Common.{◌≡◌, ◌≢◌, ◌⊎◌, true, Option, some, arith}
use dex_reach.Common.Outcome.{ok}
use dex_reach.Capacity.{WorkloadClass, AccessClass, read, exclusive}
use dex_reach.Bundle.{WorkBundle, legacy_work_bundle, is_work_bundle, normalize_work_bundle}

-- A bundle that is accepted lies within the ranges, declares the repository write of work that is not
-- a read and the machine exclusivity of exclusive work, and is accepted again unchanged.
pub normalize_work_bundle-accepts :
    (workload : WorkloadClass) (access : AccessClass) (value : Option WorkBundle) (b : WorkBundle)
    → normalize_work_bundle workload access value ≡ ok b
    → (is_work_bundle b ≡ true)
      × ((access ≡ read) ⊎ (b.repository_write ≡ true))
      × ((access ≢ exclusive) ⊎ (b.machine_exclusive ≡ true))
      × (normalize_work_bundle workload access (some b) ≡ ok b)
unfolding normalize_work_bundle is_work_bundle legacy_work_bundle
normalize_work_bundle-accepts workload access value b h =
    (ground arith, ground arith, ground arith, ground arith)
