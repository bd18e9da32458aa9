-- ===== src/Error.antt =====
-- src/error.rs: the status codes of nOS-V as Rust values, and the errors of a joined task.
pub mod Codes
mod Tests
use nosv.Base.{ℕ, Bool, true, false, Option, none, some, if◌then◌else◌}
use nosv.Base.Int.{ℤ, eq_ℤ}
use nosv.Base.Result.{Result, ok, err}

pub data NativeError : Type 0 where
  invalid_callback invalid_metadata_size invalid_operation invalid_parameter : NativeError
  not_initialized out_of_memory outside_task busy timeout : NativeError
  unknown : ℤ → NativeError

-- The constants that `nosv-sys` takes from the C header.
pub record NosvSys : Type 0 where
  pub success : ℤ
  pub err_invalid_callback : ℤ
  pub err_invalid_metadata_size : ℤ
  pub err_invalid_operation : ℤ
  pub err_invalid_parameter : ℤ
  pub err_not_initialized : ℤ
  pub err_out_of_memory : ℤ
  pub err_outside_task : ℤ
  pub err_busy : ℤ
  pub err_timeout : ℤ

module _ (sys : NosvSys) where
  pub from_code : ℤ → Result (Unit {0}) NativeError
  from_code code =
      if eq_ℤ code sys.success
      then ok tt
      else if eq_ℤ code sys.err_invalid_callback
      then err invalid_callback
      else if eq_ℤ code sys.err_invalid_metadata_size
      then err invalid_metadata_size
      else if eq_ℤ code sys.err_invalid_operation
      then err invalid_operation
      else if eq_ℤ code sys.err_invalid_parameter
      then err invalid_parameter
      else if eq_ℤ code sys.err_not_initialized
      then err not_initialized
      else if eq_ℤ code sys.err_out_of_memory
      then err out_of_memory
      else if eq_ℤ code sys.err_outside_task
      then err outside_task
      else if eq_ℤ code sys.err_busy
      then err busy
      else if eq_ℤ code sys.err_timeout
      then err timeout
      else err (unknown code)

  pub code : NativeError → ℤ
  code invalid_callback = sys.err_invalid_callback
  code invalid_metadata_size = sys.err_invalid_metadata_size
  code invalid_operation = sys.err_invalid_operation
  code invalid_parameter = sys.err_invalid_parameter
  code not_initialized = sys.err_not_initialized
  code out_of_memory = sys.err_out_of_memory
  code outside_task = sys.err_outside_task
  code busy = sys.err_busy
  code timeout = sys.err_timeout
  code (unknown c) = c

-- What a joiner may get instead of the output: `P` is the payload of a panic.
pub data JoinError {ℓ} (P : Type ℓ) : Type ℓ where
  cancelled : JoinError P
  panic : P → JoinError P
  runtime : NativeError → JoinError P

module _ {ℓ} {P : Type ℓ} where
  pub is_cancelled : JoinError P → Bool
  is_cancelled cancelled = true
  is_cancelled _ = false

  pub is_panic : JoinError P → Bool
  is_panic (panic _) = true
  is_panic _ = false

  pub into_panic : JoinError P → Option P
  into_panic (panic payload) = some payload
  into_panic _ = none
