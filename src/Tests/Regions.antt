-- ===== src/Tests/Regions.antt =====
-- The table of regions (vm/ubpf_safe.c) at concrete inputs.
use ubpf.Prelude.{◌≡◌, refl, arith, true, false, some}
use ubpf.Vm.{Helper, RegionKind, ResultKind, safe}
use ubpf.Safe.Access.{find_region_by_id}
use ubpf.Api.{create}
use ubpf.Api.Profile.{
  HelperDescriptor, RegionDescriptor, region_of, register_safe_region, set_execution_profile,
  register_safe_helper,
}
use ubpf.Api.Profile.Refused.{Unchanged, UnchangedOrEntered, refused-Unchanged}
use ubpf.Api.Profile.Regions.{ValidTable, find_region_by_id-register_safe_region}
use ubpf.Api.Lifecycle.{created, called, region_registered}
use ubpf.Api.Lifecycle.Tables.{Reachable-ValidTable}

abbrev region : RegionDescriptor
region = record { id = 7; kind = RegionKind.pointer; base = 16384; size = 32; permissions = 3 }

region-registered : (register_safe_region create region).1 ≡ true
unfolding register_safe_region create
region-registered = refl

find_region_by_id-register_safe_region_example :
    let vm' = (register_safe_region create region).0 in
    (find_region_by_id vm' 7 ≡ some (region_of region))
    × (find_region_by_id vm' 8 ≡ find_region_by_id create 8)
find_region_by_id-register_safe_region_example =
    find_region_by_id-register_safe_region create region 8 region-registered (λ e. omega (arith, e))

Reachable-ValidTable_example : ValidTable (register_safe_region create region).0.safe_regions
Reachable-ValidTable_example =
    Reachable-ValidTable (called created (region_registered region (omega arith) (omega arith)))

-- It returns its first argument.
abbrev host_function : Helper
host_function a b c d e f m = (a, m)

abbrev helper : HelperDescriptor
helper = record {
  index = 3;
  name = 42;
  fn = some host_function;
  result_kind = ResultKind.scalar;
  region_id = 0;
  region_size = 0;
}

refused-Unchanged_example :
    Unchanged create (set_execution_profile create safe)
    × UnchangedOrEntered create false helper (register_safe_helper create false helper)
    × Unchanged create (register_safe_region create region)
refused-Unchanged_example = refused-Unchanged create safe false helper region
