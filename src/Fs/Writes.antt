-- ===== src/Fs/Writes.antt =====
-- The positional writes of src/fs.rs against a file.
use nosv.Base.{
  ℕ, zero, suc, ◌+◌, ◌-◌, ◌%◌, ◌^◌, ◌≤◌, ◌<◌, ◌≡◌, arith, refl, ltb, leb, ◌∙◌, Bool-cases, false,
  inl, inr, true,
}
use nosv.Base.Int.{pos, negsuc}
use nosv.Io.{of_kind, write_zero, BufResult, IoBufMut, Terminal, completed, failed, ended, filled}
use nosv.Io.Exact.{Ends, Round, exact_loop-Ends}
use nosv.Io.Prefix.{more_filled}
use nosv.Fs.Works.{Entry, Answer, write_work, complete_write, write}
use nosv.Fs.Files.{u32_max, u64_max, write_round, write_all_at}

module _ {K B : Type 0} (ask : K → Entry → K × Answer) (io : IoBufMut B) (file : K → ℕ → ℕ) where
  -- What a write does to the file: the bytes that it reports are put at its offset, never more than it was
  -- asked for, and a write that fails changes nothing.
  abbrev pub Wrote : K → Entry → K → Terminal → Type 0
  Wrote k e k' (completed (pos n)) =
      (n ≤ e.length) × ((j : ℕ) → file k' j ≡ filled e.file_offset n e.bytes (file k) j)
  Wrote k e k' (completed (negsuc _)) = (j : ℕ) → file k' j ≡ file k j
  Wrote k e k' (failed _) = (j : ℕ) → file k' j ≡ file k j

  abbrev pub WritesFile : Type 0
  WritesFile = (k : K) (e : Entry) → Wrote k e (ask k e).0 (ask k e).1.terminal

  module _ (offset : ℕ) (buf : B) (start : K) where
    -- The first `n` bytes of the buffer stand in the file, which is otherwise as at the start.
    abbrev pub HasWritten : ℕ → K → Type 0
    HasWritten n k = (j : ℕ) → file k j ≡ filled offset n (io.byte buf) (file start) j

    abbrev pub HasWrittenSome : K → Type 0
    HasWrittenSome k = (n : ℕ) × (n ≤ io.bytes_init buf) × HasWritten n k

    abbrev Kept : ℕ → K × BufResult ℕ B → Type 0
    Kept =
        Round (of_kind write_zero) (io.bytes_init buf) (λ n k b. (b ≡ buf) × HasWritten n k)
          (λ e k b. (b ≡ buf) × HasWrittenSome k)

    abbrev entry : ℕ → ℕ → Entry
    entry n len = record {
      opcode = write;
      position = n;
      length = len;
      file_offset = offset + n;
      bytes = λ i. io.byte buf (n + i);
    }

    -- The end of one write, whatever the kernel says.
    ended_write-Kept :
        (n len : ℕ) (k k' : K) (t : Terminal)
        → n < io.bytes_init buf
        → len ≡ io.bytes_init buf - n
        → HasWritten n k
        → Wrote k (entry n len) k' t
        → Kept n (
          k',
          ended
              (write_work io)
              (record {
                buf = buf;
                file_offset = offset + n;
                buffer_offset = n;
                remaining = io.bytes_init buf - n;
              })
              t,
        )
    unfolding complete_write
    ended_write-Kept n len k k' (failed error) below long h w =
        (refl, (n, omega arith, λ j. w j ∙ h j))
    ended_write-Kept n len k k' (completed (negsuc c)) below long h w =
        (refl, (n, omega arith, λ j. w j ∙ h j))
    ended_write-Kept n len k k' (completed (pos zero)) below long h w =
        let fits : leb zero (io.bytes_init buf - n) ≡ true = ground arith in
        rw fits (
          refl,
          (
            n + zero,
            omega arith,
            λ j.
                more_filled offset n zero (io.byte buf) (file start) (file k) (file k') j (h j)
                  (w.1 j),
          ),
        )
    ended_write-Kept n len k k' (completed (pos (suc c))) below long h w =
        let fits : leb (suc c) (io.bytes_init buf - n) ≡ true = ground arith in
        rw fits (
          omega (arith, w.0),
          (
            refl,
            λ j.
                more_filled offset n (suc c) (io.byte buf) (file start) (file k) (file k') j (h j)
                  (w.1 j),
          ),
        )

    write_round-Kept :
        WritesFile
        → (n : ℕ) (k : K) (b : B) → n < io.bytes_init buf
        → (b ≡ buf) × HasWritten n k
        → Kept n (write_round ask io offset k n b)
    unfolding write_round
    write_round-Kept law n k b below (same, h) = elim (Bool-cases (ltb u64_max (offset + n))) [
      | inl over ↦ rw (over, same) (refl, (n, omega arith, h))
      | inr fits ↦ elim (Bool-cases (ltb u32_max (io.bytes_init buf - n))) [
        | inl over ↦ rw (fits, same, over) (refl, (n, omega arith, h))
        | inr small ↦
            let len : ℕ = (io.bytes_init buf - n) % 2 ^ 32 in
            rw (fits, same, small)
              (ended_write-Kept n len k (ask k (entry n len)).0 (ask k (entry n len)).1.terminal
                below (ground arith) h (law k (entry n len)))
      ]
    ]

    -- On a file that is not in append mode, with more fuel than there are bytes to write, a complete
    -- write ends and gives the buffer back as it was. If it succeeds, the file holds the initialized bytes of
    -- the buffer from the offset on and is otherwise as before; after an error it holds a prefix of them.
    pub write_all_at-Writes :
        WritesFile
        → (fuel : ℕ) → io.bytes_init buf < fuel
        → Ends
            (λ k b. (b ≡ buf) × HasWritten (io.bytes_init buf) k)
            (λ e k b. (b ≡ buf) × HasWrittenSome k)
            (write_all_at ask io false fuel start buf offset)
    unfolding write_all_at
    write_all_at-Writes law fuel enough =
        exact_loop-Ends (of_kind write_zero) (write_round ask io offset) (io.bytes_init buf)
          (λ n k b. (b ≡ buf) × HasWritten n k) (λ e k b. (b ≡ buf) × HasWrittenSome k)
          (write_round-Kept law) fuel start 0 buf (omega arith) (omega arith)
          (refl, λ j. ground arith)
