-- ===== src/Io.antt =====
-- src/io.rs: the errors of an operation, the contract of owned buffers with the buffers that the crate
-- supplies, and what a work item does with its one terminal answer.
pub mod Op
pub mod Refines
pub mod Exact
pub mod Prefix
mod Tests
use nosv.Base.{
  ℕ, ◌+◌, ◌-◌, ◌*◌, ◌^◌, ◌≤◌, ◌<◌, max, ◌≡◌, refl, Bool, true, false, Option, none, some, arith,
  leb, ltb, if◌then◌else◌,
}
use nosv.Base.Int.{ℤ, pos, negsuc}
use nosv.Base.Result.{Result, ok, err}

-- The kinds of `std::io::ErrorKind` that the crate makes.
pub data ErrorKind : Type 0 where
  invalid_input invalid_data unexpected_eof write_zero broken_pipe unsupported : ErrorKind
  not_connected : ErrorKind

-- `std::io::Error`: one made from a kind, or one made from a Linux error number.
pub data IoError : Type 0 where
  of_kind : ErrorKind → IoError
  os_error : ℕ → IoError

-- `-(n + 1)` is the error number `n + 1`.
unfoldable pub result : ℤ → Result ℕ IoError
result (pos n) = ok n
result (negsuc n) = err (os_error (n + 1))

abbrev pub runtime_closed_error : IoError
runtime_closed_error = of_kind broken_pipe

abbrev pub unsupported_opcode_error : IoError
unsupported_opcode_error = of_kind unsupported

-- `BufResult`: the result comes with the buffer.
abbrev pub BufResult : Type 0 → Type 0 → Type 0
BufResult T B = Result T IoError × B

-- The two buffer traits, with the contract that they demand. `byte` is a byte of the allocation and
-- `fill` what the kernel does to it: it writes `n` bytes from an offset on.
pub record IoBufMut (B : Type 0) : Type 0 where
  pub bytes_init : B → ℕ
  pub bytes_total : B → ℕ
  pub set_init : ℕ → B → B
  pub byte : B → ℕ → ℕ
  pub fill : ℕ → ℕ → (ℕ → ℕ) → B → B
  pub init_le_total : (b : B) → bytes_init b ≤ bytes_total b
  pub init_set : (n : ℕ) (b : B) → n ≤ bytes_total b → n ≤ bytes_init (set_init n b)
  pub total_set : (n : ℕ) (b : B) → n ≤ bytes_total b → bytes_total (set_init n b) ≡ bytes_total b
  pub byte_set : (n : ℕ) (b : B) (i : ℕ) → byte (set_init n b) i ≡ byte b i
  pub init_fill : (at n : ℕ) (f : ℕ → ℕ) (b : B) → bytes_init (fill at n f b) ≡ bytes_init b
  pub total_fill : (at n : ℕ) (f : ℕ → ℕ) (b : B) → bytes_total (fill at n f b) ≡ bytes_total b
  pub byte_fill :
      (at n : ℕ) (f : ℕ → ℕ) (b : B) (i : ℕ)
      → byte (fill at n f b) i
        ≡ (if leb at i then (if ltb i (at + n) then f (i - at) else byte b i) else byte b i)

-- The bytes of an allocation after a write of `n` bytes from `at` on.
abbrev pub filled : ℕ → ℕ → (ℕ → ℕ) → (ℕ → ℕ) → ℕ → ℕ
filled at n f old i = if leb at i then (if ltb i (at + n) then f (i - at) else old i) else old i

-- `Vec<u8>`: its capacity is its length and the spare bytes.
pub record Vec : Type 0 where
  pub len : ℕ
  pub spare : ℕ
  pub memory : ℕ → ℕ

abbrev pub capacity : Vec → ℕ
capacity v = v.len + v.spare

-- `Vec::set_len`
abbrev pub set_len : ℕ → Vec → Vec
set_len n v = record v { len = n; spare = capacity v - n }

pub vec-total_set : (n : ℕ) (v : Vec) → n ≤ capacity v → capacity (set_len n v) ≡ capacity v
vec-total_set n v h = omega arith

pub vec-init_set : (n : ℕ) (v : Vec) → n ≤ capacity v → n ≤ (set_len n v).len
vec-init_set n v h = omega arith

pub vec-init_le_total : (v : Vec) → v.len ≤ capacity v
vec-init_le_total v = omega arith

-- `IoBuf` and `IoBufMut` of `Vec<u8>`.
abbrev pub vec_buf : IoBufMut Vec
vec_buf = record {
  bytes_init = λ v. v.len;
  bytes_total = capacity;
  set_init = set_len;
  byte = λ v. v.memory;
  fill = λ at n f v. record v { memory = filled at n f v.memory };
  init_le_total = vec-init_le_total;
  init_set = vec-init_set;
  total_set = vec-total_set;
  byte_set = λ n v i. refl;
  init_fill = λ at n f v. refl;
  total_fill = λ at n f v. refl;
  byte_fill = λ at n f v i. refl;
}

-- `Box<[u8]>` and `&'static mut [u8]`: every byte is initialized.
pub record Slice : Type 0 where
  pub len : ℕ
  pub memory : ℕ → ℕ

pub slice-le : (s : Slice) → s.len ≤ s.len
slice-le s = omega arith

-- `IoBuf` and `IoBufMut` of a slice; `set_init` changes nothing.
abbrev pub slice_buf : IoBufMut Slice
slice_buf = record {
  bytes_init = λ s. s.len;
  bytes_total = λ s. s.len;
  set_init = λ n s. s;
  byte = λ s. s.memory;
  fill = λ at n f s. record s { memory = filled at n f s.memory };
  init_le_total = slice-le;
  init_set = λ n s h. h;
  total_set = λ n s h. refl;
  byte_set = λ n s i. refl;
  init_fill = λ at n f s. refl;
  total_fill = λ at n f s. refl;
  byte_fill = λ at n f s i. refl;
}

-- `OpWork`: what a work item of type `W` makes of a terminal kernel result, and of a failure before
-- its submission.
pub record OpWork (W T : Type 0) : Type 0 where
  pub complete : W → ℤ → T
  pub fail : W → IoError → T

-- How the one operation of a work item ends.
pub data Terminal : Type 0 where
  completed : ℤ → Terminal
  failed : IoError → Terminal

-- What awaiting the operation gives.
abbrev pub ended : {W T : Type 0} → OpWork W T → W → Terminal → T
ended op work (completed code) = op.complete work code
ended op work (failed error) = op.fail work error
