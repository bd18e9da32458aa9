-- ===== src/Net/Streams.antt =====
-- The sends and receives of src/net.rs that own their buffers. `K` is the state of the kernel and `ask`
-- submits an entry, awaits its end and gives the state after it.
use nosv.Base.{ℕ, ◌+◌, ◌-◌, ◌%◌, ◌^◌, max, min, Option, leb, ltb, if◌then◌else◌}
use nosv.Base.Int.{ℤ}
use nosv.Base.Result.{Result, ok, err}
use nosv.Io.{
  IoError, of_kind, invalid_input, invalid_data, unexpected_eof, write_zero, result, BufResult,
  IoBufMut, OpWork, Terminal, ended,
}
use nosv.Io.Exact.{exact_loop}

pub data Opcode : Type 0 where
  recv send : Opcode

-- `position` is a byte of the allocation, `bytes` what stands there on.
pub record Entry : Type 0 where
  pub opcode : Opcode
  pub position : ℕ
  pub length : ℕ
  pub bytes : ℕ → ℕ

-- How the kernel ends an operation; `deposited` bytes have been put into the buffer of a receive.
pub record Answer : Type 0 where
  pub terminal : Terminal
  pub deposited : ℕ
  pub bytes : ℕ → ℕ

pub record RecvWork (B : Type 0) : Type 0 where
  pub buf : B
  pub buffer_offset : ℕ
  pub remaining : ℕ

pub record SendWork (B : Type 0) : Type 0 where
  pub buf : B
  pub buffer_offset : ℕ
  pub remaining : ℕ

module _ {B : Type 0} (io : IoBufMut B) where
  -- `remaining as u32` is the low part of the number.
  unfoldable pub recv_entry : RecvWork B → Entry
  recv_entry w = record {
    opcode = recv;
    position = w.buffer_offset;
    length = w.remaining % 2 ^ 32;
    bytes = λ i. io.byte w.buf (w.buffer_offset + i);
  }

  unfoldable pub send_entry : SendWork B → Entry
  send_entry w = record {
    opcode = send;
    position = w.buffer_offset;
    length = w.remaining % 2 ^ 32;
    bytes = λ i. io.byte w.buf (w.buffer_offset + i);
  }

  -- `RecvWork::complete`
  unfoldable pub complete_recv : RecvWork B → ℤ → BufResult ℕ B
  unfolding result
  complete_recv w code = elim (result code) [
    | ok count ↦
        if leb count w.remaining
        then (ok count, io.set_init (max (io.bytes_init w.buf) (w.buffer_offset + count)) w.buf)
        else (err (of_kind invalid_data), w.buf)
    | err error ↦ (err error, w.buf)
  ]

  -- `SendWork::complete`
  unfoldable pub complete_send : SendWork B → ℤ → BufResult ℕ B
  unfolding result
  complete_send w code = elim (result code) [
    | ok count ↦
        if leb count w.remaining then (ok count, w.buf) else (err (of_kind invalid_data), w.buf)
    | err error ↦ (err error, w.buf)
  ]

  abbrev pub recv_work : OpWork (RecvWork B) (BufResult ℕ B)
  recv_work = record { complete = complete_recv; fail = λ w error. (err error, w.buf) }

  abbrev pub send_work : OpWork (SendWork B) (BufResult ℕ B)
  send_work = record { complete = complete_send; fail = λ w error. (err error, w.buf) }

  -- The buffer of a receive after the kernel has written to it.
  abbrev pub deposit : Answer → RecvWork B → RecvWork B
  deposit a w = record w {
    buf = io.fill w.buffer_offset (min a.deposited (recv_entry w).length) a.bytes w.buf;
  }

-- `PollWork::complete`
unfoldable pub complete_poll : ℤ → Result (Unit {0}) IoError
unfolding result
complete_poll code = elim (result code) [ ok _ ↦ ok tt | err error ↦ err error ]

abbrev pub u32_max : ℕ
u32_max = 2 ^ 32 - 1

module _ {K B : Type 0} (ask : K → Entry → K × Answer) (io : IoBufMut B) where
  unfoldable pub await_recv : K → RecvWork B → K × BufResult ℕ B
  unfolding recv_entry
  await_recv k w =
      let (k', a) = ask k (recv_entry io w) in
      (k', ended (recv_work io) (deposit io a w) a.terminal)

  unfoldable pub await_send : K → SendWork B → K × BufResult ℕ B
  unfolding send_entry
  await_send k w = let (k', a) = ask k (send_entry io w) in (k', ended (send_work io) w a.terminal)

  -- `TcpStream::recv_offset`; subtraction on ℕ stops at 0, as `saturating_sub` does.
  unfoldable pub recv_offset : K → ℕ → B → K × BufResult ℕ B
  unfolding await_recv
  recv_offset k buffer_offset buf =
      let remaining = io.bytes_total buf - buffer_offset in
      if ltb u32_max remaining
      then (k, (err (of_kind invalid_input), buf))
      else await_recv k (record { buf = buf; buffer_offset = buffer_offset; remaining = remaining })

  -- `TcpStream::send_offset`
  unfoldable pub send_offset : K → ℕ → B → K × BufResult ℕ B
  unfolding await_send
  send_offset k buffer_offset buf =
      let remaining = io.bytes_init buf - buffer_offset in
      if ltb u32_max remaining
      then (k, (err (of_kind invalid_input), buf))
      else await_send k (record { buf = buf; buffer_offset = buffer_offset; remaining = remaining })

  -- `TcpStream::recv` and `TcpStream::send`
  unfoldable pub recv_once : K → B → K × BufResult ℕ B
  unfolding recv_offset
  recv_once k buf = recv_offset k 0 buf

  unfoldable pub send_once : K → B → K × BufResult ℕ B
  unfolding send_offset
  send_once k buf = send_offset k 0 buf

  -- `TcpStream::recv_exact`
  unfoldable pub recv_exact : ℕ → K → B → Option (K × BufResult (Unit {0}) B)
  unfolding recv_offset exact_loop
  recv_exact fuel k buf =
      exact_loop (of_kind unexpected_eof) recv_offset (io.bytes_total buf) fuel k 0 buf

  -- `TcpStream::send_all`
  unfoldable pub send_all : ℕ → K → B → Option (K × BufResult (Unit {0}) B)
  unfolding send_offset exact_loop
  send_all fuel k buf = exact_loop (of_kind write_zero) send_offset (io.bytes_init buf) fuel k 0 buf
