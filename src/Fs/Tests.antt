-- ===== src/Fs/Tests.antt =====
-- Runs of the file operations, and each theorem at an input.
use nosv.Base.{
  ℕ, ◌+◌, ◌*◌, ◌≤◌, ◌≡◌, refl, min, false, arith, leb, ◌==◌, if◌then◌else◌, inl, inr, ◌⊎◌, List, [],
  ◌∷◌, All,
}
use nosv.Base.Int.{pos}
use nosv.Io.{completed, Vec, vec_buf, filled}
use nosv.Io.Exact.{Ends}
use nosv.Fs.Open.{Libc, IsLinux, flags, Bits, no_bits, to_create, FlagsOf, flags-FlagsOf}
use nosv.Fs.Works.{Entry, Answer, complete_read}
use nosv.Fs.Files.{read_exact_at, write_all_at}
use nosv.Fs.Reads.{ReadsFile, HasRead, HasReadSome, read_exact_at-Reads}
use nosv.Fs.Writes.{WritesFile, HasWritten, HasWrittenSome, write_all_at-Writes}
use nosv.Fs.Bounds.{IsWithin, exact_entries-IsWithin}

abbrev content : ℕ → ℕ
content j = j * 10

-- A kernel that transfers at most three bytes at a time and counts its operations.
abbrev reading : ℕ → Entry → ℕ × Answer
reading k e = (
  k + 1,
  record {
    terminal = completed (pos (min 3 e.length));
    deposited = min 3 e.length;
    bytes = λ i. content (e.file_offset + i);
  },
)

reading-ReadsFile : ReadsFile reading vec_buf content
reading-ReadsFile k e n ends le = (ground arith, λ i lt. refl)

abbrev empty_vec : Vec
empty_vec = record { len = 0; spare = 8; memory = λ i. 0 }

read_runs :
    Ends
      (λ k b. (k ≡ 3) × (b.len ≡ 8) × (b.memory 7 ≡ 120))
      (λ e k b. ⊥)
      (read_exact_at reading vec_buf 9 0 empty_vec 5)
unfolding read_exact_at complete_read
read_runs = (refl, refl, refl)

read_exact_at-Reads_example :
    Ends
      (λ k b. HasRead reading vec_buf content 5 8 0 8 b)
      (λ e k b. HasReadSome reading vec_buf content 5 8 0 b)
      (read_exact_at reading vec_buf 9 0 empty_vec 5)
read_exact_at-Reads_example =
    read_exact_at-Reads reading vec_buf content reading-ReadsFile 9 0 empty_vec 5 (omega arith)

-- A kernel whose state is the file.
abbrev writing : (ℕ → ℕ) → Entry → (ℕ → ℕ) × Answer
writing file e = (
  filled e.file_offset (min 3 e.length) e.bytes file,
  record { terminal = completed (pos (min 3 e.length)); deposited = 0; bytes = λ i. 0 },
)

abbrev zeros : ℕ → ℕ
zeros j = 0

abbrev full_vec : Vec
full_vec = record { len = 7; spare = 1; memory = λ i. i + 1 }

writing-WritesFile : WritesFile writing vec_buf (λ file. file)
writing-WritesFile k e = (omega arith, λ j. refl)

write_all_at-Writes_example :
    Ends
      (λ k b. (b ≡ full_vec) × HasWritten writing vec_buf (λ file. file) 100 full_vec zeros 7 k)
      (λ e k b. (b ≡ full_vec) × HasWrittenSome writing vec_buf (λ file. file) 100 full_vec zeros k)
      (write_all_at writing vec_buf false 8 zeros full_vec 100)
write_all_at-Writes_example =
    write_all_at-Writes writing vec_buf (λ file. file) 100 full_vec zeros writing-WritesFile 8
      (omega arith)

-- A kernel that keeps the entries and answers with more bytes than any entry asks for.
abbrev logging : List Entry → Entry → List Entry × Answer
logging log e = (
  e ∷ log,
  record {
    terminal = completed (pos (if leb 8 e.length then 2 else 9));
    deposited = 0;
    bytes = λ i. 0;
  },
)

abbrev AllWithin : List Entry → Type 0
AllWithin = All (λ e. e.position + e.length ≤ 8)

logged :
    (log : List Entry) (e : Entry)
    → IsWithin 100 8 e ⊎ IsWithin 100 7 e
    → AllWithin log
    → AllWithin (logging log e).0
logged log e (inl w) all = (omega (arith, w.in_buffer), all)
logged log e (inr w) all = (omega (arith, w.in_buffer), all)

exact_entries-IsWithin_example :
    Ends
      (λ k b. (b.len + b.spare ≡ 8) × AllWithin k)
      (λ e k b. (b.len + b.spare ≡ 8) × AllWithin k)
      (read_exact_at logging vec_buf 9 [] full_vec 100)
    × Ends
        (λ k b. (b ≡ full_vec) × AllWithin k)
        (λ e k b. (b ≡ full_vec) × AllWithin k)
        (write_all_at logging vec_buf false 9 [] full_vec 100)
exact_entries-IsWithin_example =
    exact_entries-IsWithin logging vec_buf 100 full_vec AllWithin [] 9 logged tt (omega arith)

abbrev bit : ℕ → Bits
bit n i = i == n

-- The access modes of Linux are 0, 1 and 2, in the two lowest bits.
abbrev linux : Libc
linux = record {
  o_rdonly = no_bits;
  o_wronly = bit 0;
  o_rdwr = bit 1;
  o_accmode = λ i. leb i 1;
  o_cloexec = bit 19;
  o_append = bit 10;
  o_trunc = bit 9;
  o_creat = bit 6;
  o_excl = bit 7;
}

linux-IsLinux : IsLinux linux
linux-IsLinux = record {
  rdonly_in = λ i h. refl;
  wronly_in = λ i h. ground arith;
  rdwr_in = λ i h. ground arith;
  cloexec_out = λ i h. ground arith;
  append_out = λ i h. ground arith;
  trunc_out = λ i h. ground arith;
  creat_out = λ i h. ground arith;
  excl_out = λ i h. ground arith;
}

flags-FlagsOf_example : FlagsOf linux linux-IsLinux to_create (flags linux to_create)
flags-FlagsOf_example = flags-FlagsOf linux linux-IsLinux to_create
