-- ===== src/Fs/Works.antt =====
-- The work items of src/fs.rs: the entry that each gives to the kernel, and the result and the buffer
-- that it makes of the answer.
use nosv.Base.{ℕ, ◌+◌, ◌%◌, ◌^◌, max, min, leb, if◌then◌else◌}
use nosv.Base.Int.{ℤ, pos, negsuc}
use nosv.Base.Result.{Result, ok, err}
use nosv.Io.{
  IoError, of_kind, os_error, invalid_data, result, BufResult, IoBufMut, OpWork, Terminal,
}

-- What the kernel is asked to do. `position` is a byte of the allocation, `bytes` what stands there on.
pub data Opcode : Type 0 where
  read write : Opcode

pub record Entry : Type 0 where
  pub opcode : Opcode
  pub position : ℕ
  pub length : ℕ
  pub file_offset : ℕ
  pub bytes : ℕ → ℕ

-- How the kernel ends an operation: `deposited` bytes have been put into the buffer of a read, which
-- are `bytes`; never more than it was asked for.
pub record Answer : Type 0 where
  pub terminal : Terminal
  pub deposited : ℕ
  pub bytes : ℕ → ℕ

-- The descriptor of a work item is the file that the kernel is asked about.
pub record ReadWork (B : Type 0) : Type 0 where
  pub buf : B
  pub file_offset : ℕ
  pub buffer_offset : ℕ
  pub remaining : ℕ

pub record WriteWork (B : Type 0) : Type 0 where
  pub buf : B
  pub file_offset : ℕ
  pub buffer_offset : ℕ
  pub remaining : ℕ

module _ {B : Type 0} (io : IoBufMut B) where
  -- `remaining as u32` is the low part of the number.
  unfoldable pub read_entry : ReadWork B → Entry
  read_entry w = record {
    opcode = read;
    position = w.buffer_offset;
    length = w.remaining % 2 ^ 32;
    file_offset = w.file_offset;
    bytes = λ i. io.byte w.buf (w.buffer_offset + i);
  }

  unfoldable pub write_entry : WriteWork B → Entry
  write_entry w = record {
    opcode = write;
    position = w.buffer_offset;
    length = w.remaining % 2 ^ 32;
    file_offset = w.file_offset;
    bytes = λ i. io.byte w.buf (w.buffer_offset + i);
  }

  -- `ReadWork::complete`
  unfoldable pub complete_read : ReadWork B → ℤ → BufResult ℕ B
  unfolding result
  complete_read w code = elim (result code) [
    | ok count ↦
        if leb count w.remaining
        then (ok count, io.set_init (max (io.bytes_init w.buf) (w.buffer_offset + count)) w.buf)
        else (err (of_kind invalid_data), w.buf)
    | err error ↦ (err error, w.buf)
  ]

  -- `WriteWork::complete`
  unfoldable pub complete_write : WriteWork B → ℤ → BufResult ℕ B
  unfolding result
  complete_write w code = elim (result code) [
    | ok count ↦
        if leb count w.remaining then (ok count, w.buf) else (err (of_kind invalid_data), w.buf)
    | err error ↦ (err error, w.buf)
  ]

  abbrev pub read_work : OpWork (ReadWork B) (BufResult ℕ B)
  read_work = record { complete = complete_read; fail = λ w error. (err error, w.buf) }

  abbrev pub write_work : OpWork (WriteWork B) (BufResult ℕ B)
  write_work = record { complete = complete_write; fail = λ w error. (err error, w.buf) }

  -- The buffer of a read after the kernel has written to it.
  abbrev pub deposit : Answer → ReadWork B → ReadWork B
  deposit a w = record w {
    buf = io.fill w.buffer_offset (min a.deposited (read_entry w).length) a.bytes w.buf;
  }

-- `OpenWork`: the result is the new descriptor.
unfoldable pub complete_open : ℤ → Result ℕ IoError
complete_open (pos fd) = ok fd
complete_open (negsuc n) = err (os_error (n + 1))

-- `SyncWork`
unfoldable pub complete_sync : ℤ → Result (Unit {0}) IoError
unfolding result
complete_sync code = elim (result code) [ ok _ ↦ ok tt | err error ↦ err error ]
