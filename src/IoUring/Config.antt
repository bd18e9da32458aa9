-- ===== src/IoUring/Config.antt =====
-- `IoUringConfig` of src/io_uring.rs. A duration is its number of nanoseconds.
mod Tests
use nosv.Base.{
  ℕ, zero, suc, ◌+◌, ◌≤◌, ◌<◌, ◌^◌, ◌↔◌, ◌≡◌, ◌≢◌, refl, arith, Bool-cases, inl, inr, ◌%◌, ◌/◌,
  Bool, true, false, ◌==◌, not, if◌then◌else◌,
}
use nosv.Base.Result.{Result, ok, err}

pub record IoUringConfig : Type 0 where
  pub entries : ℕ
  pub reap_size : ℕ
  pub poll_interval : ℕ
  pub max_buffered_completions : ℕ

-- `IoUringConfig::default`
abbrev pub default : IoUringConfig
default = record {
  entries = 256;
  reap_size = 256;
  poll_interval = 50000;
  max_buffered_completions = 65536;
}

pub data InvalidIoUringConfig : Type 0 where
  zero_entries entries_not_power_of_two zero_reap_size : InvalidIoUringConfig
  zero_poll_interval zero_completion_buffer : InvalidIoUringConfig

-- The documented meaning of `u32::is_power_of_two`, by halving.
unfoldable pub halves_to_one : ℕ → ℕ → Bool
halves_to_one zero n = false
halves_to_one (suc f) n =
    let rest = halves_to_one f (n / 2) in
    if n == 1 then true else if n % 2 == 0 then rest else false

-- `u32::is_power_of_two`
unfoldable pub is_power_of_two : ℕ → Bool
is_power_of_two n = halves_to_one 32 n

unfoldable pub validate : IoUringConfig → Result IoUringConfig InvalidIoUringConfig
validate c =
    if c.entries == 0
    then err zero_entries
    else if not (is_power_of_two c.entries)
    then err entries_not_power_of_two
    else if c.reap_size == 0
    then err zero_reap_size
    else if c.poll_interval == 0
    then err zero_poll_interval
    else if c.max_buffered_completions == 0
    then err zero_completion_buffer
    else ok c

halves_to_one-pow : (f k : ℕ) → k < f → halves_to_one f (2 ^ k) ≡ true
unfolding halves_to_one
halves_to_one-pow zero k h = absurd (omega arith)
halves_to_one-pow (suc f) zero h = ground arith
halves_to_one-pow (suc f) (suc k) h = ground (arith, halves_to_one-pow f k (omega arith))

pow-halves_to_one : (f n : ℕ) → halves_to_one f n ≡ true → (k : ℕ) × (k < f) × (n ≡ 2 ^ k)
unfolding halves_to_one
pow-halves_to_one zero n h = absurd (ground arith)
pow-halves_to_one (suc f) n h = elim (Bool-cases (n == 1)) [
  | inl e ↦ (0, omega arith, ground arith)
  | inr e ↦
      let (k, below, half) = pow-halves_to_one f (n / 2) (ground arith) in
      (suc k, omega arith, ground arith)
]

is_power_of_two_iff : (n : ℕ) → (is_power_of_two n ≡ true) ↔ ((k : ℕ) × (k < 32) × (n ≡ 2 ^ k))
unfolding is_power_of_two
is_power_of_two_iff n =
    (pow-halves_to_one 32 n, (λ (k, below, e). rw e (halves_to_one-pow 32 k below)))

-- What a configuration must be.
pub record IsUsable (c : IoUringConfig) : Type 0 where
  pub entries_pow : (k : ℕ) × (k < 32) × (c.entries ≡ 2 ^ k)
  pub reap_some : c.reap_size ≢ 0
  pub poll_some : c.poll_interval ≢ 0
  pub buffer_some : c.max_buffered_completions ≢ 0

pow-some : (k : ℕ) → 2 ^ k ≢ 0
pow-some zero h = ground arith
pow-some (suc k) h = ground (arith, pow-some k)

-- A configuration is returned unchanged exactly if it asks for a power of two below 2 ^ 32 entries, and
-- for a nonzero batch, interval and buffer; any other is refused.
pub validate-IsUsable : (c : IoUringConfig) → (validate c ≡ ok c) ↔ IsUsable c
unfolding validate
validate-IsUsable c = (
  (λ h. record {
    entries_pow = (is_power_of_two_iff c.entries).0 (ground arith);
    reap_some = ground arith;
    poll_some = ground arith;
    buffer_some = ground arith;
  }),
  (λ u.
      let (k, below, e) = u.entries_pow in
      ground (arith, (is_power_of_two_iff c.entries).1 u.entries_pow, e, pow-some k, u)),
)
