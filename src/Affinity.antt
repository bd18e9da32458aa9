-- ===== src/Affinity.antt =====
-- src/affinity.rs: the affinities of a task and their encoding for nOS-V.
mod Tests
use nosv.Base.{
  ℕ, ◌+◌, ◌-◌, ◌^◌, ◌≤◌, ◌<◌, ◌≡◌, ◌≢◌, refl, Bool, true, false, arith, ltb, ap, ◌∙◌, sym,
  if◌then◌else◌, Bool-cases, inl, inr,
}
use nosv.Base.Result.{Result, ok, err}
use nosv.Error.{NativeError, invalid_parameter}

abbrev pub max_index : ℕ
max_index = 2 ^ 29 - 1

pub data AffinityKind : Type 0 where
  preferred strict : AffinityKind

-- A CPU and a NUMA node by their numbers.
pub data AffinityTarget : Type 0 where
  cpu numa_node complex_set : ℕ → AffinityTarget

pub data Affinity : Type 0 where
  any : Affinity
  target : AffinityKind → AffinityTarget → Affinity

abbrev pub preferred_cpu : ℕ → Affinity
preferred_cpu id = target preferred (cpu id)

abbrev pub strict_cpu : ℕ → Affinity
strict_cpu id = target strict (cpu id)

abbrev pub preferred_numa_node : ℕ → Affinity
preferred_numa_node id = target preferred (numa_node id)

abbrev pub strict_numa_node : ℕ → Affinity
strict_numa_node id = target strict (numa_node id)

-- The constants of `nosv-sys`, and what its setter of the index bitfield stores.
pub record NosvSys : Type 0 where
  pub level_none : ℕ
  pub level_cpu : ℕ
  pub level_numa : ℕ
  pub level_user_complex : ℕ
  pub type_preferred : ℕ
  pub type_strict : ℕ
  pub set_index : ℕ → ℕ

-- `nosv_affinity_t`
pub record RawAffinity : Type 0 where
  pub level : ℕ
  pub kind : ℕ
  pub index : ℕ

module _ (sys : NosvSys) where
  unfoldable pub level_of : AffinityTarget → ℕ
  level_of (cpu id) = sys.level_cpu
  level_of (numa_node id) = sys.level_numa
  level_of (complex_set id) = sys.level_user_complex

  unfoldable pub index_of : AffinityTarget → ℕ
  index_of (cpu id) = id
  index_of (numa_node id) = id
  index_of (complex_set id) = id

  unfoldable pub type_of : AffinityKind → ℕ
  type_of preferred = sys.type_preferred
  type_of strict = sys.type_strict

  -- `Affinity::to_raw`
  unfoldable pub to_raw : Affinity → Result RawAffinity NativeError
  unfolding level_of index_of type_of
  to_raw any =
      ok (record { level = sys.level_none; kind = sys.type_preferred; index = sys.set_index 0 })
  to_raw (target kind t) =
      if ltb max_index (index_of t)
      then err invalid_parameter
      else ok
          (record { level = level_of t; kind = type_of kind; index = sys.set_index (index_of t) })

-- What the header says: the levels differ, the types differ, and the bitfield of the index has 29 bits.
pub record IsNosv (sys : NosvSys) : Type 0 where
  pub none_cpu : sys.level_none ≢ sys.level_cpu
  pub none_numa : sys.level_none ≢ sys.level_numa
  pub none_complex : sys.level_none ≢ sys.level_user_complex
  pub cpu_numa : sys.level_cpu ≢ sys.level_numa
  pub cpu_complex : sys.level_cpu ≢ sys.level_user_complex
  pub numa_complex : sys.level_numa ≢ sys.level_user_complex
  pub types : sys.type_preferred ≢ sys.type_strict
  pub index_fits : (i : ℕ) → i ≤ max_index → sys.set_index i ≡ i

-- The index of an affinity, zero where it names nothing.
abbrev pub wanted_index : Affinity → ℕ
wanted_index any = 0
wanted_index (target kind (cpu id)) = id
wanted_index (target kind (numa_node id)) = id
wanted_index (target kind (complex_set id)) = id

-- An affinity and the result of its encoding.
abbrev pub Encodes : NosvSys → Affinity → Result RawAffinity NativeError → Type 0
Encodes sys a (ok raw) =
    (wanted_index a ≤ max_index)
    × (raw.index ≡ wanted_index a)
    × ((b : Affinity) → to_raw sys b ≡ ok raw → b ≡ a)
Encodes sys a (err e) = (max_index < wanted_index a) × (e ≡ invalid_parameter)

module _ (sys : NosvSys) (nosv_ : IsNosv sys) where
  same_raw :
      (a b : Affinity) (raw : RawAffinity) → to_raw sys a ≡ ok raw → to_raw sys b ≡ ok raw → b ≡ a
  unfolding to_raw
  same_raw any any raw p q = refl
  same_raw any (target l t) raw p q = ground (arith, nosv_)
  same_raw (target k s) any raw p q = ground (arith, nosv_)
  same_raw (target k s) (target l t) raw p q = ground (
    arith,
    nosv_,
    nosv_.index_fits (wanted_index (target k s)),
    nosv_.index_fits (wanted_index (target l t)),
  )

  raw_index :
      (a : Affinity) (raw : RawAffinity)
      → to_raw sys a ≡ ok raw
      → (wanted_index a ≤ max_index) × (raw.index ≡ wanted_index a)
  unfolding to_raw
  raw_index any raw e = ground (arith, nosv_.index_fits 0)
  raw_index (target k t) raw e = ground (arith, nosv_.index_fits (wanted_index (target k t)))

  refused :
      (a : Affinity) (error : NativeError)
      → to_raw sys a ≡ err error
      → (max_index < wanted_index a) × (error ≡ invalid_parameter)
  unfolding to_raw
  refused any error e = ground arith
  refused (target k t) error e = ground arith

  encoded : (a : Affinity) (r : Result RawAffinity NativeError) → to_raw sys a ≡ r → Encodes sys a r
  encoded a (ok raw) e = let i = raw_index a raw e in (i.0, i.1, λ b same. same_raw a b raw e same)
  encoded a (err error) e = refused a error e

  -- Under what the header of nOS-V says, an affinity is encoded exactly if its index fits 29 bits; the
  -- encoding keeps the index, and no other affinity has it. Any other index is an invalid parameter.
  pub to_raw-Encodes : (a : Affinity) → Encodes sys a (to_raw sys a)
  to_raw-Encodes a = encoded a (to_raw sys a) refl
