-- ===== src/IoUring/Config/Tests.antt =====
-- A configuration of src/io_uring.rs.
use nosv.Base.{◌≡◌, ◌↔◌}
use nosv.Base.Result.{ok}
use nosv.IoUring.Config.{validate, default, IsUsable, validate-IsUsable}

validate-IsUsable_example : (validate default ≡ ok default) ↔ IsUsable default
validate-IsUsable_example = validate-IsUsable default
