-- ===== src/Fs/Bounds.antt =====
-- What the exact operations of src/fs.rs ask of the kernel stays within the buffer and within the widths of
-- the entry, whatever the kernel answers.
use nosv.Base.{
  ℕ, zero, suc, ◌+◌, ◌-◌, ◌%◌, ◌^◌, ◌≤◌, ◌<◌, ◌≡◌, arith, refl, ltb, leb, ◌∙◌, Bool-cases, true,
  false, inl, inr, min, max, ◌⊎◌,
}
use nosv.Base.Int.{pos, negsuc}
use nosv.Io.{
  IoError, of_kind, write_zero, unexpected_eof, IoBufMut, Terminal, completed, failed, ended,
}
use nosv.Io.Exact.{Ends, Round, exact_loop-Ends}
use nosv.Fs.Works.{Entry, Answer, read_work, write_work, complete_read, complete_write, read, write}
use nosv.Fs.Files.{u32_max, u64_max, read_round, write_round, read_exact_at, write_all_at}

-- An entry for the rest of the `total` bytes of a buffer from its position on, and for a file from `offset`
-- on: the lengths and offsets fit their widths, and something is asked for.
pub record IsWithin (offset total : ℕ) (e : Entry) : Type 0 where
  pub in_buffer : e.position + e.length ≡ total
  pub in_file : e.file_offset ≡ offset + e.position
  pub offset_fits : e.file_offset ≤ u64_max
  pub length_fits : e.length ≤ u32_max
  pub not_empty : 0 < e.length

module _ {K B : Type 0} (ask : K → Entry → K × Answer) (io : IoBufMut B) (offset total : ℕ)
    (Inv : K → Type 0)
    (kept : (k : K) (e : Entry) → IsWithin offset total e → Inv k → Inv (ask k e).0) where
  -- The entry of one round, in the form in which both loops make it.
  asked-Inv :
      (e : Entry) (n : ℕ) (k : K)
      → n < total
      → ltb u64_max (offset + n) ≡ false
      → ltb u32_max (total - n) ≡ false
      → e.position ≡ n
      → e.length ≡ (total - n) % 2 ^ 32
      → e.file_offset ≡ offset + n
      → Inv k
      → Inv (ask k e).0
  asked-Inv e n k below fits small p l f i =
      kept k e
        (record {
          in_buffer = ground (arith, p, l);
          in_file = ground (arith, p, f);
          offset_fits = ground (arith, f);
          length_fits = ground (arith, l);
          not_empty = ground (arith, l);
        })
        i

  module _ (no_progress : IoError) where
    -- What holds on between the rounds.
    abbrev Sized : ℕ → K → B → Type 0
    Sized n k b = (io.bytes_total b ≡ total) × Inv k

    ended_read-Sized :
        (n m : ℕ) (f : ℕ → ℕ) (b : B) (k : K) (t : Terminal)
        → n < total
        → io.bytes_total b ≡ total
        → Inv k
        → Round no_progress total Sized
            (λ e. Sized 0)
            n
            (
              k,
              ended
                  (read_work io)
                  (record {
                    buf = io.fill n m f b;
                    file_offset = offset + n;
                    buffer_offset = n;
                    remaining = total - n;
                  })
                  t,
            )
    unfolding complete_read
    ended_read-Sized n m f b k t below s i =
        let b' : B = io.fill n m f b in
        let s' : io.bytes_total b' ≡ total = io.total_fill n m f b ∙ s in by_terminal b' s' t
      where
        by_terminal :
            (b' : B)
            → io.bytes_total b' ≡ total
            → (t : Terminal)
            → Round no_progress total Sized
                (λ e. Sized 0)
                n
                (
                  k,
                  ended
                      (read_work io)
                      (record {
                        buf = b';
                        file_offset = offset + n;
                        buffer_offset = n;
                        remaining = total - n;
                      })
                      t,
                )
        by_terminal b' s' (failed e) = (s', i)
        by_terminal b' s' (completed (negsuc c)) = (s', i)
        by_terminal b' s' (completed (pos zero)) =
            let fits : leb zero (total - n) ≡ true = ground arith in
            let small : max (io.bytes_init b') (n + zero) ≤ io.bytes_total b' =
              ground (arith, io.init_le_total b') in
            rw fits (io.total_set _ b' small ∙ s', i)
        by_terminal b' s' (completed (pos (suc c))) = elim (Bool-cases (leb (suc c) (total - n))) [
          | inr big ↦ rw big (s', i)
          | inl fits ↦
              let small : max (io.bytes_init b') (n + suc c) ≤ io.bytes_total b' =
                ground (arith, io.init_le_total b') in
              rw fits (ground arith, (io.total_set _ b' small ∙ s', i))
        ]

    read_round-Sized :
        (n : ℕ) (k : K) (b : B)
        → n < total
        → Sized n k b
        → Round no_progress total Sized (λ e. Sized 0) n (read_round ask io offset k n b)
    unfolding read_round
    read_round-Sized n k b below (s, i) = elim (Bool-cases (ltb u64_max (offset + n))) [
      | inl over ↦ rw over (s, i)
      | inr fits ↦ elim (Bool-cases (ltb u32_max (total - n))) [
        | inl over ↦ rw (fits, s, over) (s, i)
        | inr small ↦
            let e : Entry = record {
              opcode = read;
              position = n;
              length = (total - n) % 2 ^ 32;
              file_offset = offset + n;
              bytes = λ j. io.byte b (n + j);
            } in
            let a : Answer = (ask k e).1 in
            rw (fits, s, small)
              (ended_read-Sized n (min a.deposited ((total - n) % 2 ^ 32)) a.bytes b (ask k e).0
                a.terminal below s (asked-Inv e n k below fits small refl refl refl i))
      ]
    ]

    abbrev Same : B → ℕ → K → B → Type 0
    Same buf n k b = (b ≡ buf) × Inv k

    ended_write-Same :
        (buf : B) (n : ℕ) (k : K) (t : Terminal)
        → n < total
        → Inv k
        → Round no_progress total
            (Same buf)
            (λ e. Same buf 0)
            n
            (
              k,
              ended
                  (write_work io)
                  (record {
                    buf = buf;
                    file_offset = offset + n;
                    buffer_offset = n;
                    remaining = total - n;
                  })
                  t,
            )
    unfolding complete_write
    ended_write-Same buf n k (failed e) below i = (refl, i)
    ended_write-Same buf n k (completed (negsuc c)) below i = (refl, i)
    ended_write-Same buf n k (completed (pos zero)) below i =
        let fits : leb zero (total - n) ≡ true = ground arith in rw fits (refl, i)
    ended_write-Same buf n k (completed (pos (suc c))) below i =
        elim (Bool-cases (leb (suc c) (total - n))) [
          | inr big ↦ rw big (refl, i)
          | inl fits ↦ rw fits (ground arith, (refl, i))
        ]

    write_round-Same :
        (buf : B)
        → io.bytes_init buf ≡ total
        → (n : ℕ) (k : K) (b : B) → n < total
        → Same buf n k b
        → Round no_progress total (Same buf) (λ e. Same buf 0) n (write_round ask io offset k n b)
    unfolding write_round
    write_round-Same buf s n k b below (same, i) = elim (Bool-cases (ltb u64_max (offset + n))) [
      | inl over ↦ rw over (same, i)
      | inr fits ↦ elim (Bool-cases (ltb u32_max (total - n))) [
        | inl over ↦ rw (fits, same, s, over) (refl, i)
        | inr small ↦
            let e : Entry = record {
              opcode = write;
              position = n;
              length = (total - n) % 2 ^ 32;
              file_offset = offset + n;
              bytes = λ j. io.byte buf (n + j);
            } in
            rw (fits, same, s, small)
              (ended_write-Same buf n (ask k e).0 (ask k e).1.terminal below
                (asked-Inv e n k below fits small refl refl refl i))
      ]
    ]

module _ {K B : Type 0} (ask : K → Entry → K × Answer) (io : IoBufMut B) (offset : ℕ) (buf : B)
    (Inv : K → Type 0) where
  -- Whatever the kernel answers, with enough fuel an exact read and a complete write end, and every entry
  -- that they submit is within bounds: what such entries keep holds at the end. A read leaves the
  -- size of its buffer, and a write leaves its buffer.
  pub exact_entries-IsWithin :
      (k : K) (fuel : ℕ)
      → ((k' : K) (e : Entry)
          → IsWithin offset (io.bytes_total buf) e ⊎ IsWithin offset (io.bytes_init buf) e
          → Inv k'
          → Inv (ask k' e).0)
      → Inv k
      → io.bytes_total buf < fuel
      → Ends
          (λ k' b. (io.bytes_total b ≡ io.bytes_total buf) × Inv k')
          (λ e k' b. (io.bytes_total b ≡ io.bytes_total buf) × Inv k')
          (read_exact_at ask io fuel k buf offset)
        × Ends
            (λ k' b. (b ≡ buf) × Inv k')
            (λ e k' b. (b ≡ buf) × Inv k')
            (write_all_at ask io false fuel k buf offset)
  unfolding read_exact_at write_all_at
  exact_entries-IsWithin k fuel kept i enough =
      let total = io.bytes_total buf in
      let init = io.bytes_init buf in
      let read_kept = λ (k' : K) (e : Entry) (h : IsWithin offset total e). kept k' e (inl h) in
      let write_kept = λ (k' : K) (e : Entry) (h : IsWithin offset init e). kept k' e (inr h) in
      let eof = of_kind unexpected_eof in
      let stuck = of_kind write_zero in
      (
        exact_loop-Ends eof (read_round ask io offset) total
            (Sized ask io offset total Inv read_kept eof)
            (λ e. Sized ask io offset total Inv read_kept eof 0)
            (read_round-Sized ask io offset total Inv read_kept eof) fuel k 0 buf (omega arith)
            (omega arith) (refl, i),
        exact_loop-Ends stuck (write_round ask io offset) init
            (Same ask io offset init Inv write_kept stuck buf)
            (λ e. Same ask io offset init Inv write_kept stuck buf 0)
            (write_round-Same ask io offset init Inv write_kept stuck buf refl) fuel k 0 buf
            (omega (arith, io.init_le_total buf)) (omega arith) (refl, i),
      )
