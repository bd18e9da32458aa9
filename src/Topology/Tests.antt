-- ===== src/Topology/Tests.antt =====
-- A query at an input.
use nosv.Base.{◌≡◌, refl, Option, some, List, [], ◌∷◌}
use nosv.Base.Int.{ℤ, pos, negsuc}
use nosv.Base.Result.{ok}
use nosv.Error.{NosvSys}
use nosv.Topology.{query_ids, id_from_native, Answered, query_ids-Answered}

abbrev sys : NosvSys
sys = record {
  success = pos 0;
  err_invalid_callback = negsuc 0;
  err_invalid_metadata_size = negsuc 1;
  err_invalid_operation = negsuc 2;
  err_invalid_parameter = negsuc 3;
  err_not_initialized = negsuc 4;
  err_out_of_memory = negsuc 5;
  err_outside_task = negsuc 6;
  err_busy = negsuc 7;
  err_timeout = negsuc 8;
}

abbrev two_cpus : Option (List ℤ)
two_cpus = some (pos 0 ∷ pos 4 ∷ [])

query_runs : query_ids sys id_from_native (pos 2) two_cpus ≡ (ok (0 ∷ 4 ∷ []), 1)
unfolding query_ids id_from_native
query_runs = refl

query_ids-Answered_example :
    Answered sys id_from_native (pos 2) two_cpus (query_ids sys id_from_native (pos 2) two_cpus)
query_ids-Answered_example = query_ids-Answered sys id_from_native (pos 2) two_cpus
