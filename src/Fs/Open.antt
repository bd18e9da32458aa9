-- ===== src/Fs/Open.antt =====
-- `OpenOptions` of src/fs.rs. An `i32` of flags is the function that tells its bits.
use nosv.Base.{
  ℕ, ◌≡◌, ◌⊎◌, Bool, true, false, not, ◌&&◌, ◌||◌, Option, none, some, arith, if◌then◌else◌,
}
use nosv.Base.Result.{Result, ok, err, ◌>>=◌}
use nosv.Io.{IoError, of_kind, invalid_input}

abbrev pub Bits : Type 0
Bits = ℕ → Bool

abbrev pub no_bits : Bits
no_bits i = false

infixl 40 ◌bit_or◌ ◌bit_and◌
abbrev pub ◌bit_or◌ : Bits → Bits → Bits
◌bit_or◌ a b i = a i || b i

abbrev pub ◌bit_and◌ : Bits → Bits → Bits
◌bit_and◌ a b i = a i && b i

abbrev pub bit_not : Bits → Bits
bit_not a i = not (a i)

-- The constants of the `libc` crate.
pub record Libc : Type 0 where
  pub o_rdonly : Bits
  pub o_wronly : Bits
  pub o_rdwr : Bits
  pub o_accmode : Bits
  pub o_cloexec : Bits
  pub o_append : Bits
  pub o_trunc : Bits
  pub o_creat : Bits
  pub o_excl : Bits

pub record OpenOptions : Type 0 where
  pub read : Bool
  pub write : Bool
  pub append : Bool
  pub truncate : Bool
  pub create : Bool
  pub create_new : Bool
  pub mode : ℕ
  pub custom_flags : Bits

-- `OpenOptions::new`; the mode is 0o666.
unfoldable pub new : OpenOptions
new = record {
  read = false;
  write = false;
  append = false;
  truncate = false;
  create = false;
  create_new = false;
  mode = 438;
  custom_flags = no_bits;
}

abbrev pub set_read : Bool → OpenOptions → OpenOptions
set_read b o = record o { read = b }

abbrev pub set_write : Bool → OpenOptions → OpenOptions
set_write b o = record o { write = b }

abbrev pub set_append : Bool → OpenOptions → OpenOptions
set_append b o = record o { append = b }

abbrev pub set_truncate : Bool → OpenOptions → OpenOptions
set_truncate b o = record o { truncate = b }

abbrev pub set_create : Bool → OpenOptions → OpenOptions
set_create b o = record o { create = b }

abbrev pub set_create_new : Bool → OpenOptions → OpenOptions
set_create_new b o = record o { create_new = b }

abbrev pub set_mode : ℕ → OpenOptions → OpenOptions
set_mode m o = record o { mode = m }

abbrev pub set_custom_flags : Bits → OpenOptions → OpenOptions
set_custom_flags f o = record o { custom_flags = f }

abbrev pub when : Bool → Bits → Bits
when true a = a
when false a = no_bits

module _ (libc : Libc) where
  -- The access mode of the two tests; the case that validation excludes is never read.
  abbrev pub access : Bool → Bool → Bits
  access true true = libc.o_rdwr
  access true false = libc.o_rdonly
  access false true = libc.o_wronly
  access false false = no_bits

  -- The flags of options that are validated.
  unfoldable pub open_bits : OpenOptions → Bits
  open_bits o =
      let base = access o.read (o.write || o.append) bit_or libc.o_cloexec in
      let appending = base bit_or when o.append libc.o_append in
      let truncating = appending bit_or when (o.truncate && not o.create_new) libc.o_trunc in
      let creating = truncating bit_or when (o.create || o.create_new) libc.o_creat in
      let exclusive = creating bit_or when o.create_new libc.o_excl in
      exclusive bit_or (o.custom_flags bit_and bit_not libc.o_accmode)

  -- `OpenOptions::flags`
  unfoldable pub flags : OpenOptions → Result (Bits × ℕ) IoError
  flags o =
      if not o.read && not o.write && not o.append
      then err (of_kind invalid_input)
      else if (o.truncate || o.create || o.create_new) && not o.write && not o.append
      then err (of_kind invalid_input)
      else ok (open_bits o, o.mode)

  -- `OpenOptions::open_on`: `path` is `none` if it has a NUL byte inside, and `openat` is the operation.
  unfoldable pub open_on :
      {Path_ Fd : Type 0}
      → (Path_ → Bits → ℕ → Result Fd IoError)
      → Option Path_
      → OpenOptions
      → Result (Fd × Bool) IoError
  open_on openat path o = flags o >>= λ (bits, mode). elim path [
    | none ↦ err (of_kind invalid_input)
    | some p ↦ openat p bits mode >>= λ fd. ok (fd, o.append)
  ]

-- `File::open_on`, `File::create_on` and `File::create_new_on` open with these options.
unfoldable pub to_open : OpenOptions
unfolding new
to_open = set_read true new

unfoldable pub to_create : OpenOptions
unfolding new
to_create = set_truncate true (set_create true (set_write true new))

unfoldable pub to_create_new : OpenOptions
unfolding new
to_create_new = set_create_new true (set_write true new)

-- What Linux says of its flags: the access modes lie within O_ACCMODE and all others outside.
pub record IsLinux (libc : Libc) : Type 0 where
  pub rdonly_in : (i : ℕ) → libc.o_accmode i ≡ false → libc.o_rdonly i ≡ false
  pub wronly_in : (i : ℕ) → libc.o_accmode i ≡ false → libc.o_wronly i ≡ false
  pub rdwr_in : (i : ℕ) → libc.o_accmode i ≡ false → libc.o_rdwr i ≡ false
  pub cloexec_out : (i : ℕ) → libc.o_accmode i ≡ true → libc.o_cloexec i ≡ false
  pub append_out : (i : ℕ) → libc.o_accmode i ≡ true → libc.o_append i ≡ false
  pub trunc_out : (i : ℕ) → libc.o_accmode i ≡ true → libc.o_trunc i ≡ false
  pub creat_out : (i : ℕ) → libc.o_accmode i ≡ true → libc.o_creat i ≡ false
  pub excl_out : (i : ℕ) → libc.o_accmode i ≡ true → libc.o_excl i ≡ false

-- The combinations that open a file: a write access, or a read access that neither creates nor
-- truncates.
abbrev pub IsAllowed : OpenOptions → Type 0
IsAllowed o =
    ((o.write || o.append) ≡ true)
    ⊎ ((o.read ≡ true) × ((o.truncate || o.create || o.create_new) ≡ false))

-- What validated flags say: the bits of the access mode are those of the requested access whatever the
-- custom flags are, the descriptor is always closed on exec, and exclusive creation drops truncation.
pub record Opens (libc : Libc) (o : OpenOptions) (bits : Bits) : Type 0 where
  pub access_bits :
      (i : ℕ) → libc.o_accmode i ≡ true → bits i ≡ access libc o.read (o.write || o.append) i
  pub cloexec_bits : (i : ℕ) → libc.o_cloexec i ≡ true → bits i ≡ true
  pub other_bits :
      (i : ℕ)
      → libc.o_accmode i ≡ false
      → bits i ≡ (
          libc.o_cloexec i
          || o.append && libc.o_append i
          || o.truncate && not o.create_new && libc.o_trunc i
          || (o.create || o.create_new) && libc.o_creat i
          || o.create_new && libc.o_excl i
          || o.custom_flags i)

module _ (libc : Libc) (linux : IsLinux libc) (o : OpenOptions) where
  access_bits-open_bits :
      (i : ℕ)
      → libc.o_accmode i ≡ true
      → open_bits libc o i ≡ access libc o.read (o.write || o.append) i
  unfolding open_bits
  access_bits-open_bits i h = ground (
    arith,
    linux.cloexec_out i h,
    linux.append_out i h,
    linux.trunc_out i h,
    linux.creat_out i h,
    linux.excl_out i h,
  )

  other_bits-open_bits :
      (i : ℕ)
      → libc.o_accmode i ≡ false
      → open_bits libc o i ≡ (
          libc.o_cloexec i
          || o.append && libc.o_append i
          || o.truncate && not o.create_new && libc.o_trunc i
          || (o.create || o.create_new) && libc.o_creat i
          || o.create_new && libc.o_excl i
          || o.custom_flags i)
  unfolding open_bits
  other_bits-open_bits i h =
      ground (arith, linux.rdonly_in i h, linux.wronly_in i h, linux.rdwr_in i h)

  cloexec_bits-open_bits : (i : ℕ) → libc.o_cloexec i ≡ true → open_bits libc o i ≡ true
  unfolding open_bits
  cloexec_bits-open_bits i h = ground arith

  -- What the flags are made of: they are those of an allowed combination with its mode, and a combination
  -- that is not allowed is invalid input.
  abbrev pub FlagsOf : Result (Bits × ℕ) IoError → Type 0
  FlagsOf (ok (bits, mode)) = IsAllowed o × (mode ≡ o.mode) × Opens libc o bits
  FlagsOf (err e) = ¬ IsAllowed o × (e ≡ of_kind invalid_input)

  -- With the flags of Linux, the options give flags exactly if they ask for write access, or for read access
  -- without creating or truncating; any other combination is invalid input. The access mode in the
  -- flags is the requested one whatever the custom flags are, close-on-exec is always set, and every
  -- other bit is that of a requested option or a custom one, where exclusive creation drops truncation.
  pub flags-FlagsOf : FlagsOf (flags libc o)
  unfolding flags
  flags-FlagsOf =
      let opens : Opens libc o (open_bits libc o) = record {
        access_bits = access_bits-open_bits;
        cloexec_bits = cloexec_bits-open_bits;
        other_bits = other_bits-open_bits;
      } in
      ground (arith, opens)
