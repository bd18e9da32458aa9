-- ===== src/Fs/Files.antt =====
-- The operations of `File` of src/fs.rs on a file that is open. `K` is the state of the kernel and `ask`
-- submits an entry, awaits its end and gives the state after it.
use nosv.Base.{ℕ, ◌+◌, ◌-◌, ◌^◌, Bool, not, Option, some, ltb, if◌then◌else◌}
use nosv.Base.Result.{err}
use nosv.Io.{of_kind, invalid_input, unexpected_eof, write_zero, BufResult, IoBufMut, ended}
use nosv.Io.Exact.{exact_loop}
use nosv.Fs.Works.{
  Entry, Answer, ReadWork, WriteWork, read_entry, write_entry, read_work, write_work, deposit,
}

abbrev pub u32_max : ℕ
u32_max = 2 ^ 32 - 1

abbrev pub u64_max : ℕ
u64_max = 2 ^ 64 - 1

module _ {K B : Type 0} (ask : K → Entry → K × Answer) (io : IoBufMut B) where
  -- The work item is with the kernel until its answer.
  unfoldable pub await_read : K → ReadWork B → K × BufResult ℕ B
  unfolding read_entry
  await_read k w =
      let (k', a) = ask k (read_entry io w) in
      (k', ended (read_work io) (deposit io a w) a.terminal)

  unfoldable pub await_write : K → WriteWork B → K × BufResult ℕ B
  unfolding write_entry
  await_write k w =
      let (k', a) = ask k (write_entry io w) in (k', ended (write_work io) w a.terminal)

  -- `File::read_at_offset`; subtraction on ℕ stops at 0, as `saturating_sub` does.
  unfoldable pub read_at_offset : K → B → ℕ → ℕ → K × BufResult ℕ B
  unfolding await_read
  read_at_offset k buf file_offset buffer_offset =
      let remaining = io.bytes_total buf - buffer_offset in
      if ltb u32_max remaining
      then (k, (err (of_kind invalid_input), buf))
      else await_read k (record {
        buf = buf;
        file_offset = file_offset;
        buffer_offset = buffer_offset;
        remaining = remaining;
      })

  -- `File::write_at_offset`
  unfoldable pub write_at_offset : K → B → ℕ → ℕ → K × BufResult ℕ B
  unfolding await_write
  write_at_offset k buf file_offset buffer_offset =
      let remaining = io.bytes_init buf - buffer_offset in
      if ltb u32_max remaining
      then (k, (err (of_kind invalid_input), buf))
      else await_write k (record {
        buf = buf;
        file_offset = file_offset;
        buffer_offset = buffer_offset;
        remaining = remaining;
      })

  -- `File::read_at`
  unfoldable pub read_at : K → B → ℕ → K × BufResult ℕ B
  unfolding read_at_offset
  read_at k buf offset = read_at_offset k buf offset 0

  -- One round of `read_exact_at`; `checked_add` fails above the largest `u64`.
  unfoldable pub read_round : ℕ → K → ℕ → B → K × BufResult ℕ B
  unfolding read_at_offset
  read_round offset k filled buf =
      if ltb u64_max (offset + filled)
      then (k, (err (of_kind invalid_input), buf))
      else read_at_offset k buf (offset + filled) filled

  -- `File::read_exact_at`
  unfoldable pub read_exact_at : ℕ → K → B → ℕ → Option (K × BufResult (Unit {0}) B)
  unfolding read_round exact_loop
  read_exact_at fuel k buf offset =
      exact_loop (of_kind unexpected_eof) (read_round offset) (io.bytes_total buf) fuel k 0 buf

  -- One round of `write_all_at`.
  unfoldable pub write_round : ℕ → K → ℕ → B → K × BufResult ℕ B
  unfolding write_at_offset
  write_round offset k written buf =
      if ltb u64_max (offset + written)
      then (k, (err (of_kind invalid_input), buf))
      else write_at_offset k buf (offset + written) written

  -- `File::write_at`; `append` says whether the file is open in append mode.
  unfoldable pub write_at : Bool → K → B → ℕ → K × BufResult ℕ B
  unfolding write_at_offset
  write_at append k buf offset =
      if append then (k, (err (of_kind invalid_input), buf)) else write_at_offset k buf offset 0

  -- `File::write_all_at`
  unfoldable pub write_all_at : Bool → ℕ → K → B → ℕ → Option (K × BufResult (Unit {0}) B)
  unfolding write_round exact_loop
  write_all_at append fuel k buf offset =
      if append
      then some (k, (err (of_kind invalid_input), buf))
      else exact_loop (of_kind write_zero) (write_round offset) (io.bytes_init buf) fuel k 0 buf

  -- `File::append`; the offset is not used by the kernel.
  unfoldable pub append_to : Bool → K → B → K × BufResult ℕ B
  unfolding write_at_offset
  append_to append k buf =
      if not append
      then (k, (err (of_kind invalid_input), buf))
      else write_at_offset k buf u64_max 0
