-- ===== src/Io/Exact.antt =====
-- The loop that the exact reads, writes, receives and sends of src/fs.rs and src/net.rs share: short
-- counts are retried until everything is transferred.
use nosv.Base.{
  ℕ, zero, suc, ◌+◌, ◌≤◌, ◌<◌, ◌≡◌, true, false, Option, none, some, arith, ltb, Bool-cases, subst,
  inl, inr,
}
use nosv.Base.Result.{ok, err}
use nosv.Io.{IoError, BufResult}

module _ {K B : Type 0} where
  -- What a round does with the answer of its operation: `next` is the following round.
  abbrev pub after_round :
      IoError
      → (K → ℕ → B → Option (K × BufResult (Unit {0}) B))
      → ℕ
      → K × BufResult ℕ B
      → Option (K × BufResult (Unit {0}) B)
  after_round no_progress next filled (k, (ok zero, buf)) = some (k, (err no_progress, buf))
  after_round no_progress next filled (k, (ok (suc n), buf)) = next k (filled + suc n) buf
  after_round no_progress next filled (k, (err error, buf)) = some (k, (err error, buf))

  -- `while filled < total`: `issue` is the operation of one round, which starts `filled` bytes into the
  -- buffer, and `K` what it acts on. `none` means that the fuel ran out.
  unfoldable pub exact_loop :
      IoError
      → (K → ℕ → B → K × BufResult ℕ B)
      → ℕ
      → ℕ
      → K
      → ℕ
      → B
      → Option (K × BufResult (Unit {0}) B)
  exact_loop no_progress issue total zero k filled buf = none
  exact_loop no_progress issue total (suc fuel) k filled buf = elim (ltb filled total) [
    | false ↦ some (k, (ok tt, buf))
    | true ↦
        after_round no_progress (exact_loop no_progress issue total fuel) filled
          (issue k filled buf)
  ]

  -- The loop has ended: all is transferred, in a state that has `P`, or an error in one that has `Q`.
  abbrev pub Ends :
      (K → B → Type 0) → (IoError → K → B → Type 0) → Option (K × BufResult (Unit {0}) B) → Type 0
  Ends P Q none = ⊥
  Ends P Q (some (k, (ok _, buf))) = P k buf
  Ends P Q (some (k, (err e, buf))) = Q e k buf

  -- What a round must keep: it transfers no more than is left, and an error has `Q`, also the error of a
  -- round that transfers nothing.
  abbrev pub Round :
      IoError
      → ℕ
      → (ℕ → K → B → Type 0)
      → (IoError → K → B → Type 0)
      → ℕ
      → K × BufResult ℕ B
      → Type 0
  Round no_progress total P Q filled (k, (ok zero, buf)) = Q no_progress k buf
  Round no_progress total P Q filled (k, (ok (suc n), buf)) =
      (filled + suc n ≤ total) × P (filled + suc n) k buf
  Round no_progress total P Q filled (k, (err e, buf)) = Q e k buf

  after_round-Ends :
      (no_progress : IoError) (total : ℕ) (P : ℕ → K → B → Type 0) (Q : IoError → K → B → Type 0)
      (next : K → ℕ → B → Option (K × BufResult (Unit {0}) B)) (filled : ℕ) (x : K × BufResult ℕ B)
      → Round no_progress total P Q filled x
      → ((k : K) (n : ℕ) (buf : B)
          → filled < n
          → n ≤ total
          → P n k buf
          → Ends (P total) Q (next k n buf))
      → Ends (P total) Q (after_round no_progress next filled x)
  after_round-Ends e total P Q next filled (k, (ok zero, buf)) r ih = r
  after_round-Ends e total P Q next filled (k, (ok (suc n), buf)) r ih =
      ih k (filled + suc n) buf (omega arith) r.0 r.1
  after_round-Ends e total P Q next filled (k, (err error, buf)) r ih = r

  module _ (no_progress : IoError) (issue : K → ℕ → B → K × BufResult ℕ B) (total : ℕ)
      (P : ℕ → K → B → Type 0) (Q : IoError → K → B → Type 0)
      (keep : (filled : ℕ) (k : K) (buf : B)
        → filled < total
        → P filled k buf
        → Round no_progress total P Q filled (issue k filled buf)) where
    -- Fuel above what is left is enough.
    pub exact_loop-Ends :
        (fuel : ℕ) (k : K) (filled : ℕ) (buf : B)
        → total < fuel + filled
        → filled ≤ total
        → P filled k buf
        → Ends (P total) Q (exact_loop no_progress issue total fuel k filled buf)
    unfolding exact_loop
    exact_loop-Ends zero k filled buf h le p = absurd (omega arith)
    exact_loop-Ends (suc fuel) k filled buf h le p = elim (Bool-cases (ltb filled total)) [
      | inr full ↦
          let e : filled ≡ total = ground arith in
          rw (full, Ends, exact_loop) (subst (λ n. P n k buf) e p)
      | inl more ↦
          rw (more, Ends, exact_loop)
            (after_round-Ends no_progress total P Q _ filled (issue k filled buf)
              (keep filled k buf (ground arith) p)
              (λ k' n buf' lt le' p'. exact_loop-Ends fuel k' n buf' (omega arith) le' p'))
    ]
