-- ===== src/Topology.antt =====
-- src/topology.rs and src/memory.rs: the queries of a running runtime. A pointer is `none` if it is null, and
-- else the list that stands there.
mod Tests
use nosv.Base.{
  ℕ, zero, suc, ◌+◌, ◌-◌, ◌/◌, ◌^◌, ◌≤◌, ◌<◌, ◌≡◌, refl, Bool, true, false, not, ◌&&◌, ◌||◌, Option,
  none, some, List, [], ◌∷◌, arith, ltb, leb, length, take, is_none, to_ℕ, if◌then◌else◌, subst,
  Bool-cases, inl, inr,
}
use nosv.Base.Int.{ℤ, pos, negsuc, is_negative, magnitude}
use nosv.Base.Result.{Result, ok, err, ◌>>=◌}
use nosv.Error.{
  NosvSys, NativeError, from_code, invalid_parameter, invalid_operation, out_of_memory,
  not_initialized,
}
use nosv.Runtime.{RuntimeState, is_running}

abbrev pub i32_max : ℕ
i32_max = 2 ^ 31 - 1

abbrev pub isize_max : ℕ
isize_max = 2 ^ 63 - 1

-- `CpuId` and `NumaNodeId` are numbers, made by `new` from a `u32` or by `from_native` from an `i32`.
unfoldable pub new_id : ℕ → Result ℕ NativeError
new_id value = if ltb i32_max value then err invalid_parameter else ok value

unfoldable pub id_from_native : ℤ → Result ℕ NativeError
id_from_native (pos n) = ok n
id_from_native (negsuc _) = err invalid_parameter

pub data TopologyLevel : Type 0 where
  node numa complex_set core cpu : TopologyLevel

pub record DomainId : Type 0 where
  pub level : TopologyLevel
  pub system_id : ℤ

-- `DomainId::new`
unfoldable pub new_domain : TopologyLevel → ℤ → Result DomainId NativeError
new_domain level id =
    if is_negative id then err invalid_parameter else ok (record { level = level; system_id = id })

-- `Topology::with_live`: `upgraded` is the state of the runtime if it is still there.
unfoldable pub with_live :
    {R : Type 0} → Option RuntimeState → Bool → Result R NativeError → Result R NativeError
with_live none process_matches query = err not_initialized
with_live (some s) process_matches query =
    if not process_matches
    then err not_initialized
    else if not (is_running s.lifecycle)
    then err not_initialized
    else query

-- `collect`: the first error ends it.
unfoldable pub collect :
    {A B : Type 0} → (A → Result B NativeError) → List A → Result (List B) NativeError
collect f [] = ok []
collect f (x ∷ xs) = f x >>= λ y. collect f xs >>= λ ys. ok (y ∷ ys)

module _ (sys : NosvSys) where
  unfoldable pub native_count_error : {T : Type 0} → ℤ → Result T NativeError
  native_count_error count = elim (from_code sys count) [
    | err e ↦ err e
    | ok _ ↦ err invalid_operation
  ]

  -- `free` of a pointer; how often it frees.
  abbrev pub frees : Option (List ℤ) → ℕ
  frees values = to_ℕ (not (is_none values))

  -- `copy_ids`, with the number of frees.
  unfoldable pub copy_ids : ℤ → Option (List ℤ) → Result (List ℤ) NativeError × ℕ
  unfolding native_count_error
  copy_ids (negsuc c) values = (native_count_error (negsuc c), frees values)
  copy_ids (pos zero) values = (ok [], frees values)
  copy_ids (pos (suc n)) none = (err out_of_memory, 0)
  copy_ids (pos (suc n)) (some ids) =
      if ltb (isize_max / 4) (suc n)
      then (err invalid_parameter, frees (some ids))
      else (ok (take (suc n) ids), frees (some ids))

  -- The four queries: the count, the list, and what is made of each number in it.
  unfoldable pub query_ids :
      {I : Type 0}
      → (ℤ → Result I NativeError)
      → ℤ
      → Option (List ℤ)
      → Result (List I) NativeError × ℕ
  unfolding copy_ids collect
  query_ids make count values =
      if is_negative count
      then (native_count_error count, 0)
      else (let (copied, freed) = copy_ids count values in (copied >>= collect make, freed))

-- The raw level of nOS-V: the constants are its.
pub record Levels : Type 0 where
  pub topo_node : ℕ
  pub topo_numa : ℕ
  pub topo_complex_set : ℕ
  pub topo_core : ℕ
  pub topo_cpu : ℕ

-- `TopologyLevel::raw`
unfoldable pub raw_level : Levels → TopologyLevel → ℕ
raw_level l node = l.topo_node
raw_level l numa = l.topo_numa
raw_level l complex_set = l.topo_complex_set
raw_level l core = l.topo_core
raw_level l cpu = l.topo_cpu

abbrev pub ids_of : Option (List ℤ) → List ℤ
ids_of none = []
ids_of (some ids) = ids

-- What a query gives: the identifiers that `count` numbers of the array stand for, and in any case the array
-- is freed exactly if it was asked for and is there.
abbrev pub Answered :
    {I : Type 0}
    → NosvSys
    → (ℤ → Result I NativeError)
    → ℤ
    → Option (List ℤ)
    → Result (List I) NativeError × ℕ
    → Type 0
Answered sys make count values (ok ids, freed) =
    (is_negative count ≡ false)
    × (freed ≡ frees sys values)
    × (collect make (take (magnitude count) (ids_of values)) ≡ ok ids)
Answered sys make count values (err e, freed) =
    freed ≡ (if is_negative count then 0 else frees sys values)

module _ {I : Type 0} (sys : NosvSys) (make : ℤ → Result I NativeError) where
  made :
      (count : ℤ) (values : Option (List ℤ)) (ids : List ℤ)
      → is_negative count ≡ false
      → ids ≡ take (magnitude count) (ids_of values)
      → (r : Result (List I) NativeError) → collect make ids ≡ r
      → Answered sys make count values (r, frees sys values)
  made count values ids positive same (ok is) e =
      (positive, refl, subst (λ l. collect make l ≡ ok is) same e)
  made count values ids positive same (err x) e = rw positive refl

  -- A query frees the array that it gets exactly once, on every way out, and gives the identifiers of all the
  -- numbers that the library counted, or an error.
  pub query_ids-Answered :
      (count : ℤ) (values : Option (List ℤ))
      → Answered sys make count values (query_ids sys make count values)
  unfolding query_ids native_count_error
  query_ids-Answered (negsuc c) values = ground arith
  query_ids-Answered (pos zero) values = (refl, refl, refl)
  query_ids-Answered (pos (suc n)) none = refl
  query_ids-Answered (pos (suc n)) (some ids) = elim (Bool-cases (ltb (isize_max / 4) (suc n))) [
    | inl over ↦ rw over refl
    | inr fits ↦ rw fits (
        made (pos (suc n)) (some ids) (take (suc n) ids) refl refl (collect make (take (suc n) ids))
          refl)
  ]

-- `MemoryStats`; the pressure is known by what is checked of it, that it is finite and from 0 to 1.
pub record MemoryStats : Type 0 where
  pub used : ℕ
  pub size : ℕ
  pub pressure : ℕ

-- `MemoryStats::query`, with the answers to its three calls and the check of the pressure.
unfoldable pub query_memory :
    (ℕ → Bool)
    → Result ℕ NativeError
    → Result ℕ NativeError
    → Result ℕ NativeError
    → Result MemoryStats NativeError
query_memory is_ratio used size pressure = used >>= λ u. size >>= λ s. pressure >>= λ p.
    if ltb s u || not (is_ratio p)
    then err invalid_operation
    else ok (record { used = u; size = s; pressure = p })

query_memory_consistent :
    (is_ratio : ℕ → Bool) (used size pressure : Result ℕ NativeError) (m : MemoryStats)
    → query_memory is_ratio used size pressure ≡ ok m
    → (m.used ≤ m.size) × (is_ratio m.pressure ≡ true)
unfolding query_memory
query_memory_consistent is_ratio used size pressure m e = ground arith
