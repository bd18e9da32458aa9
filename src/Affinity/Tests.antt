-- ===== src/Affinity/Tests.antt =====
-- The encoding of an affinity at an input.
use nosv.Base.{◌%◌, ◌^◌, arith}
use nosv.Affinity.{NosvSys, IsNosv, strict_cpu, to_raw, Encodes, to_raw-Encodes}

abbrev sys : NosvSys
sys = record {
  level_none = 0;
  level_cpu = 1;
  level_numa = 2;
  level_user_complex = 3;
  type_preferred = 0;
  type_strict = 1;
  set_index = λ i. i % 2 ^ 29;
}

sys-IsNosv : IsNosv sys
sys-IsNosv = record {
  none_cpu = omega arith;
  none_numa = omega arith;
  none_complex = omega arith;
  cpu_numa = omega arith;
  cpu_complex = omega arith;
  numa_complex = omega arith;
  types = omega arith;
  index_fits = λ i h. omega arith;
}

to_raw-Encodes_example : Encodes sys (strict_cpu 12) (to_raw sys (strict_cpu 12))
to_raw-Encodes_example = to_raw-Encodes sys sys-IsNosv (strict_cpu 12)
