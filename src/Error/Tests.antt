-- ===== src/Error/Tests.antt =====
-- src/error.rs with codes as the C header may have them.
use nosv.Base.{◌≡◌, arith}
use nosv.Base.Int.{pos, negsuc}
use nosv.Error.{NosvSys, from_code}
use nosv.Error.Codes.{status, status-from_code, IsDistinct, constants}

abbrev sys : NosvSys
sys = record {
  success = pos 0;
  err_invalid_callback = negsuc 0;
  err_invalid_metadata_size = negsuc 1;
  err_invalid_operation = negsuc 2;
  err_invalid_parameter = negsuc 3;
  err_not_initialized = negsuc 4;
  err_out_of_memory = negsuc 5;
  err_outside_task = negsuc 6;
  err_busy = negsuc 7;
  err_timeout = negsuc 8;
}

sys-IsDistinct : IsDistinct (constants sys)
sys-IsDistinct = ground arith

status-from_code_example : status sys (from_code sys (negsuc 40)) ≡ negsuc 40
status-from_code_example = status-from_code sys (negsuc 40)
