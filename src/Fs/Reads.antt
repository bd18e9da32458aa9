-- ===== src/Fs/Reads.antt =====
-- The positional reads of src/fs.rs against a file with known contents.
use nosv.Base.{
  ℕ, zero, suc, ◌+◌, ◌-◌, ◌%◌, ◌^◌, ◌≤◌, ◌<◌, max, min, ◌≡◌, arith, refl, ap, ltb, leb, ◌∙◌,
  Bool-cases, inl, inr,
}
use nosv.Base.Int.{pos, negsuc}
use nosv.Io.{of_kind, unexpected_eof, BufResult, IoBufMut, Terminal, completed, failed, ended}
use nosv.Io.Exact.{Ends, Round, exact_loop-Ends}
use nosv.Io.Prefix.{Holds, fill-Holds, grow-Holds}
use nosv.Fs.Works.{Entry, Answer, read_work, complete_read, read}
use nosv.Fs.Files.{u32_max, u64_max, read_round, read_exact_at}

module _ {K B : Type 0} (ask : K → Entry → K × Answer) (io : IoBufMut B) (content : ℕ → ℕ) where
  -- The kernel reads a file with these contents: a read that reports `n` bytes has put the `n` bytes of
  -- the file that stand at its offset into the buffer.
  abbrev pub ReadsFile : Type 0
  ReadsFile =
      (k : K) (e : Entry) (n : ℕ)
      → (ask k e).1.terminal ≡ completed (pos n)
      → n ≤ e.length
      → (n ≤ (ask k e).1.deposited)
        × ((i : ℕ) → i < n → (ask k e).1.bytes i ≡ content (e.file_offset + i))

  module _ (offset total init : ℕ) where
    -- The first `filled` bytes of the buffer are those of the file from `offset` on.
    abbrev pub HasRead : ℕ → B → Type 0
    HasRead = Holds io (λ i. content (offset + i)) total init

    -- What is known of the buffer after an error: some prefix has been read.
    abbrev pub HasReadSome : B → Type 0
    HasReadSome buf = (filled : ℕ) × (filled ≤ total) × HasRead filled buf

    abbrev Kept : ℕ → K × BufResult ℕ B → Type 0
    Kept = Round (of_kind unexpected_eof) total (λ n k b. HasRead n b) (λ e k b. HasReadSome b)

    module _ (filled m : ℕ) (f : ℕ → ℕ) (buf : B) (k : K) (le : filled ≤ total)
        (h : HasRead filled buf) where
      unread : HasReadSome (io.fill filled m f buf)
      unread = (filled, le, fill-Holds io (λ i. content (offset + i)) total init filled m f buf h)

      grown :
          (n : ℕ)
          → n ≤ total - filled
          → (n ≤ m) × ((i : ℕ) → i < n → f i ≡ content (offset + filled + i))
          → HasRead (filled + n) (
              io.set_init
                (max (io.bytes_init (io.fill filled m f buf)) (filled + n))
                (io.fill filled m f buf))
      grown n fits good =
          grow-Holds io (λ i. content (offset + i)) total init filled m f buf h n good.0
            (omega arith) (λ i lt. good.1 i lt ∙ ap content (omega arith))

      -- The end of one read, whatever the kernel says.
      ended_read-Kept :
          (t : Terminal)
          → ((n : ℕ)
              → t ≡ completed (pos n)
              → n ≤ total - filled
              → (n ≤ m) × ((i : ℕ) → i < n → f i ≡ content (offset + filled + i)))
          → Kept filled (
            k,
            ended
                (read_work io)
                (record {
                  buf = io.fill filled m f buf;
                  file_offset = offset + filled;
                  buffer_offset = filled;
                  remaining = total - filled;
                })
                t,
          )
      unfolding complete_read
      ended_read-Kept (failed e) good = unread
      ended_read-Kept (completed (negsuc n)) good = unread
      ended_read-Kept (completed (pos zero)) good = elim (Bool-cases (leb zero (total - filled))) [
        | inl fits ↦
            rw fits
              (filled + zero, omega arith, grown zero (omega arith) (good zero refl (omega arith)))
        | inr big ↦ absurd (ground arith)
      ]
      ended_read-Kept (completed (pos (suc n))) good =
          elim (Bool-cases (leb (suc n) (total - filled))) [
            | inl fits ↦
                let le' : suc n ≤ total - filled = ground arith in
                rw fits (omega arith, grown (suc n) le' (good (suc n) refl le'))
            | inr big ↦ rw big unread
          ]

    -- A round of `read_exact_at`.
    read_round-Kept :
        ReadsFile
        → (filled : ℕ) (k : K) (buf : B) → filled < total
        → HasRead filled buf
        → Kept filled (read_round ask io offset k filled buf)
    unfolding read_round
    read_round-Kept file filled k buf below h = elim (Bool-cases (ltb u64_max (offset + filled))) [
      | inl over ↦ rw (over, Round) (filled, omega arith, h)
      | inr fits ↦ elim (Bool-cases (ltb u32_max (total - filled))) [
        | inl over ↦ rw (fits, h.sized, over) (filled, omega arith, h)
        | inr small ↦
            let e : Entry = record {
              opcode = read;
              position = filled;
              length = (total - filled) % 2 ^ 32;
              file_offset = offset + filled;
              bytes = λ i. io.byte buf (filled + i);
            } in
            let a : Answer = (ask k e).1 in
            let exact : total - filled ≡ (total - filled) % 2 ^ 32 = ground arith in
            rw (fits, h.sized, small)
              (ended_read-Kept filled (min a.deposited ((total - filled) % 2 ^ 32)) a.bytes buf
                (ask k e).0 (omega arith) h a.terminal
                (λ n ends le.
                  let got = file k e n ends (omega (arith, exact)) in
                  (omega (arith, exact, got.0), got.1)))
      ]
    ]

  -- With more fuel than the buffer has bytes, an exact read ends. If it succeeds, all bytes of the buffer
  -- are initialized and are those of the file from the offset on, as one read of the whole range would
  -- leave them. After an error the buffer still has its size, gives up no initialized byte, and
  -- begins with a prefix of that range.
  pub read_exact_at-Reads :
      ReadsFile
      → (fuel : ℕ) (k : K) (buf : B) (offset : ℕ) → io.bytes_total buf < fuel
      → Ends
          (λ k' buf'.
            HasRead offset (io.bytes_total buf) (io.bytes_init buf) (io.bytes_total buf) buf')
          (λ e k' buf'. HasReadSome offset (io.bytes_total buf) (io.bytes_init buf) buf')
          (read_exact_at ask io fuel k buf offset)
  unfolding read_exact_at
  read_exact_at-Reads file fuel k buf offset enough =
      let total = io.bytes_total buf in
      let init = io.bytes_init buf in
      exact_loop-Ends (of_kind unexpected_eof) (read_round ask io offset) total
        (λ n k b. HasRead offset total init n b) (λ e k b. HasReadSome offset total init b)
        (read_round-Kept offset total init file) fuel k 0 buf (omega arith) (omega arith)
        (record {
          sized = refl;
          kept = omega arith;
          initialized = omega arith;
          wanted = λ i lt. absurd (omega arith);
        })
