-- ===== src/Base/Dict.antt =====
-- A map keyed by numbers, such as a HashMap keyed by a pointer or an identifier, and sums over its
-- values.
use Prim.Native.Nat.{ℕ, ◌+◌, ◌≤◌}
use mathlib.Core.Path.{◌≡◌, refl}
use mathlib.Core.Bool.{Bool, true, false}
use mathlib.Core.Option.{Option, none, some}
use mathlib.Core.List.{List, [], ◌∷◌}
use native.Mathlib.Omega.{arith}
use nosv.Base.Tests.{◌==◌, if◌then◌else◌}

abbrev pub Dict {ℓ} : Type ℓ → Type ℓ
Dict V = List (ℕ × V)

module _ {ℓ} {V : Type ℓ} where
  abbrev pub lookup : ℕ → Dict V → Option V
  lookup k [] = none
  lookup k (e ∷ d) = if e.0 == k then some e.1 else lookup k d

  abbrev pub contains_key : ℕ → Dict V → Bool
  contains_key k d = elim (lookup k d) [ none ↦ false | some _ ↦ true ]

  unfoldable pub insert : ℕ → V → Dict V → Dict V
  insert k v [] = (k, v) ∷ []
  insert k v (e ∷ d) = if e.0 == k then (k, v) ∷ d else e ∷ insert k v d

  unfoldable pub erase : ℕ → Dict V → Dict V
  erase k [] = []
  erase k (e ∷ d) = if e.0 == k then d else e ∷ erase k d

  -- No key is listed twice.
  abbrev pub IsMap : Dict V → Type ℓ
  IsMap [] = Unit
  IsMap (e ∷ d) = (lookup e.0 d ≡ none) × IsMap d

  pub lookup-insert :
      (k j : ℕ) (v : V) (d : Dict V)
      → lookup j (insert k v d) ≡ (if k == j then some v else lookup j d)
  unfolding insert
  lookup-insert k j v [] = refl
  lookup-insert k j v (e ∷ d) = ground (arith, lookup-insert k j v d)

  pub lookup-erase :
      (k j : ℕ) (d : Dict V)
      → IsMap d
      → lookup j (erase k d) ≡ (if k == j then none else lookup j d)
  unfolding erase
  lookup-erase k j [] m = ground arith
  lookup-erase k j (e ∷ d) m = ground (arith, lookup-erase k j d m.1)

  pub insert-IsMap : (k : ℕ) (v : V) (d : Dict V) → IsMap d → IsMap (insert k v d)
  unfolding insert
  insert-IsMap k v [] m = (refl, tt)
  insert-IsMap k v (e ∷ d) m = ground (arith, insert-IsMap k v d m.1, lookup-insert k e.0 v d)

  pub erase-IsMap : (k : ℕ) (d : Dict V) → IsMap d → IsMap (erase k d)
  unfolding erase
  erase-IsMap k [] m = tt
  erase-IsMap k (e ∷ d) m = ground (arith, erase-IsMap k d m.1, lookup-erase k e.0 d m.1)

  -- The sum of a weight over the values.
  abbrev pub total : (V → ℕ) → Dict V → ℕ
  total w [] = 0
  total w (e ∷ d) = w e.1 + total w d

  pub total-insert_new :
      (w : V → ℕ) (k : ℕ) (v : V) (d : Dict V)
      → lookup k d ≡ none
      → total w (insert k v d) ≡ total w d + w v
  unfolding insert
  total-insert_new w k v [] h = omega arith
  total-insert_new w k v (e ∷ d) h = ground (arith, total-insert_new w k v d)

  pub total-insert :
      (w : V → ℕ) (k : ℕ) (v u : V) (d : Dict V)
      → lookup k d ≡ some u
      → total w (insert k v d) + w u ≡ total w d + w v
  unfolding insert
  total-insert w k v u [] h = cc
  total-insert w k v u (e ∷ d) h = ground (arith, total-insert w k v u d)

  pub total-erase :
      (w : V → ℕ) (k : ℕ) (u : V) (d : Dict V)
      → lookup k d ≡ some u
      → total w (erase k d) + w u ≡ total w d
  unfolding erase
  total-erase w k u [] h = cc
  total-erase w k u (e ∷ d) h = ground (arith, total-erase w k u d)

  pub le-total : (w : V → ℕ) (k : ℕ) (u : V) (d : Dict V) → lookup k d ≡ some u → w u ≤ total w d
  le-total w k u d h = omega (arith, total-erase w k u d h)

  pub total-le : (w u : V → ℕ) (d : Dict V) → ((v : V) → w v ≤ u v) → total w d ≤ total u d
  total-le w u [] h = omega arith
  total-le w u (e ∷ d) h = omega (arith, h e.1, total-le w u d h)

  pub total-zero :
      (w : V → ℕ) (d : Dict V)
      → IsMap d
      → ((k : ℕ) (v : V) → lookup k d ≡ some v → w v ≡ 0)
      → total w d ≡ 0
  total-zero w [] m h = refl
  total-zero w ((k, v) ∷ d) m h =
      let tail : total w d ≡ 0 = total-zero w d m.1 (λ j u e. h j u (ground (arith, m.0))) in
      omega (arith, tail, h k v (ground arith))

  -- A property of every value.
  abbrev pub Every {κ} : (V → Type κ) → Dict V → Type κ
  Every P [] = Unit
  Every P (e ∷ d) = P e.1 × Every P d

  pub Every-lookup :
      (P : V → Type 0) (k : ℕ) (u : V) (d : Dict V) → Every P d → lookup k d ≡ some u → P u
  Every-lookup P k u [] h e = cc
  Every-lookup P k u (x ∷ d) h e = ground (arith, Every-lookup P k u d h.1)

  pub Every-insert :
      (P : V → Type 0) (k : ℕ) (v : V) (d : Dict V) → Every P d → P v → Every P (insert k v d)
  unfolding insert
  Every-insert P k v [] h p = (p, tt)
  Every-insert P k v (x ∷ d) h p = ground (arith, Every-insert P k v d h.1 p)

  pub Every-erase : (P : V → Type 0) (k : ℕ) (d : Dict V) → Every P d → Every P (erase k d)
  unfolding erase
  Every-erase P k [] h = tt
  Every-erase P k (x ∷ d) h = ground (arith, Every-erase P k d h.1)
