-- ===== src/Io/Prefix.antt =====
-- What a read or a receive leaves in its buffer: a prefix of the bytes that are wanted.
use nosv.Base.{ℕ, ◌+◌, ◌-◌, ◌≤◌, ◌<◌, max, ◌≡◌, arith, ap, ◌∙◌}
use nosv.Io.{IoBufMut, filled}

module _ {B : Type 0} (io : IoBufMut B) (want : ℕ → ℕ) (total init : ℕ) where
  -- The first `filled` bytes of the buffer are those wanted, and initialized; the buffer has its size and
  -- no byte that was initialized is given up.
  pub record Holds (filled : ℕ) (buf : B) : Type 0 where
    pub sized : io.bytes_total buf ≡ total
    pub kept : init ≤ io.bytes_init buf
    pub initialized : filled ≤ io.bytes_init buf
    pub wanted : (i : ℕ) → i < filled → io.byte buf i ≡ want i

  module _ (filled m : ℕ) (f : ℕ → ℕ) (buf : B) (h : Holds filled buf) where
    -- A write of the kernel behind the prefix leaves it.
    pub fill-Holds : Holds filled (io.fill filled m f buf)
    fill-Holds = record {
      sized = io.total_fill filled m f buf ∙ h.sized;
      kept = ground (arith, h.kept, io.init_fill filled m f buf);
      initialized = ground (arith, h.initialized, io.init_fill filled m f buf);
      wanted = λ i lt. ground (arith, io.byte_fill filled m f buf i, h.wanted i lt);
    }

    -- A write of the wanted bytes that is published extends it.
    pub grow-Holds :
        (c : ℕ)
        → c ≤ m
        → filled + c ≤ total
        → ((i : ℕ) → i < c → f i ≡ want (filled + i))
        → Holds (filled + c) (
            io.set_init
              (max (io.bytes_init (io.fill filled m f buf)) (filled + c))
              (io.fill filled m f buf))
    grow-Holds c le fits good =
        let b : B = io.fill filled m f buf in
        let n : ℕ = max (io.bytes_init b) (filled + c) in
        let t : io.bytes_total b ≡ total = io.total_fill filled m f buf ∙ h.sized in
        let small : n ≤ io.bytes_total b = ground (arith, t, io.init_le_total b) in
        let s : n ≤ io.bytes_init (io.set_init n b) = io.init_set n b small in
        record {
          sized = io.total_set n b small ∙ t;
          kept = ground (arith, s, h.kept, io.init_fill filled m f buf);
          initialized = ground (arith, s);
          wanted = λ i lt.
              io.byte_set n b i
              ∙ (ground (
                arith,
                io.byte_fill filled m f buf i,
                λ (p : i < filled). h.wanted i p,
                λ (p : i - filled < c). good (i - filled) p,
                offset_back i,
              ));
        }
      where
        offset_back : (i : ℕ) → filled ≤ i → want (filled + (i - filled)) ≡ want i
        offset_back i le' = ap want (omega arith)

-- A write of `c` bytes behind one of `n` bytes makes one of `n + c` bytes.
pub more_filled :
    (at n c : ℕ) (bytes start old new : ℕ → ℕ) (j : ℕ)
    → old j ≡ filled at n bytes start j
    → new j ≡ filled (at + n) c (λ i. bytes (n + i)) old j
    → new j ≡ filled at (n + c) bytes start j
more_filled at n c bytes start old new j p q = ground (arith, λ (h : at + n ≤ j). same_byte h)
  where
    same_byte : at + n ≤ j → bytes (n + (j - (at + n))) ≡ bytes (j - at)
    same_byte h = ap bytes (omega arith)
