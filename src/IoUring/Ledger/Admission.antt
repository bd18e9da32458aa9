-- ===== src/IoUring/Ledger/Admission.antt =====
-- Admission of a caller's entries in src/io_uring.rs and the books.
use nosv.Base.{
  ℕ, zero, suc, ◌+◌, ◌<◌, ◌≡◌, refl, false, Option, none, some, List, [], ◌∷◌, length, ◌==◌, arith,
  if◌then◌else◌,
}
use nosv.Base.Outcome.{done, Returns, Returns-next, WhenSome}
use nosv.Base.Dict.{lookup, total, lookup-insert, insert-IsMap, total-insert_new, Every-insert}
use nosv.IoUring.Data.{
  Ptr, SubmissionId, CqeContext, Sqe, SubmissionQueue, DriverData, Driver, inner_of, set_inner,
}
use nosv.IoUring.Cancel.{stage}
use nosv.IoUring.Admit.{
  Admission, usize_max, original_context, stage_original, admit_rest, admit_loop,
}
use nosv.IoUring.Ledger.{live, waiting, cancelling_of, aiming_at, IsSound, Balanced, Inv}
use nosv.IoUring.Ledger.Staging.{
  IsFresh, times_staged-append, times_owned-append, times_cancel-append,
}

module _ (alloc : DriverData → Ptr) (fresh : IsFresh alloc) (s : SubmissionId) where
  module _ (index : ℕ) (entry : Sqe) (d : Driver) (v : Inv d) where
    abbrev at : Ptr
    at = alloc d.data_

    abbrev context : CqeContext
    context = original_context s index entry

    abbrev next : Driver
    next =
        set_inner s (record (inner_of d s) { originals = (inner_of d s).originals + 1 })
          (record d { data_ = stage at context d.data_ })

    at-fresh : lookup at d.data_.contexts ≡ none
    at-fresh = (fresh d.data_).0

    next-total :
        (w : CqeContext → ℕ) → total w next.data_.contexts ≡ total w d.data_.contexts + w context
    next-total w = total-insert_new w at context d.data_.contexts at-fresh

    next-lookup :
        (q : Ptr)
        → lookup q next.data_.contexts
          ≡ (if at == q then some context else lookup q d.data_.contexts)
    next-lookup q = lookup-insert at q context d.data_.contexts

    next-Balanced :
        (u : SubmissionId) → Balanced (inner_of next u) u next.data_.contexts d.data_.cancel_queue
    next-Balanced u = ground (
      arith,
      v.balanced u,
      next-total (live u),
      next-total (waiting u),
      next-total (cancelling_of u),
    )

    next-Inv : Inv next
    next-Inv = record {
      is_map = insert-IsMap at context d.data_.contexts v.is_map;
      nonnull = ground (arith, next-lookup 0, v.nonnull, (fresh d.data_).1);
      sound =
          Every-insert IsSound at context d.data_.contexts v.sound
            (record { zombie = λ _ e. cc; aimed = λ e. cc; fresh = λ e. cc; unseen = λ _. refl });
      balanced = next-Balanced;
      aimed =
          λ u t. ground (arith, v.aimed u t, next-total (aiming_at u t), next-lookup t, at-fresh);
      in_order = λ p.
          ground
            (arith, v.in_order p, next-lookup p, at-fresh, times_staged-append p at d.data_.staged);
      owned_order = λ p. ground (arith, v.owned_order p, times_owned-append p at d.data_.staged);
      cancel_order = λ p. ground (arith, v.cancel_order p, times_cancel-append p at d.data_.staged);
    }

  abbrev sq_of : ℕ → List Sqe → SubmissionQueue
  sq_of free pushed = record { free = free; pushed = pushed }

  stage_original-full :
      (index : ℕ) (entry : Sqe) (d : Driver) (v : Inv d) (pushed : List Sqe)
      → stage_original alloc s (index, entry) (d, sq_of zero pushed) ≡ done none
  unfolding stage_original
  stage_original-full index entry d v pushed = ground (arith, at-fresh index entry d v)

  stage_original-next :
      (index : ℕ) (entry : Sqe) (d : Driver) (v : Inv d) (free : ℕ) (pushed : List Sqe)
      → stage_original alloc s (index, entry) (d, sq_of (suc free) pushed)
        ≡ done (
            some (
              next index entry d v,
              sq_of free (record entry { user_data = at index entry d v } ∷ pushed),
            ))
  unfolding stage_original
  stage_original-next index entry d v free pushed = ground (arith, at-fresh index entry d v)

  -- Staging one entry keeps the books right and does not stop the process.
  stage_original-Inv :
      (ie : ℕ × Sqe) (d : Driver) (free : ℕ) (pushed : List Sqe)
      → Inv d
      → Returns (stage_original alloc s ie (d, sq_of free pushed)) (WhenSome (λ (d', _). Inv d'))
  stage_original-Inv (index, entry) d zero pushed v =
      rw (stage_original-full index entry d v pushed) tt
  stage_original-Inv (index, entry) d (suc free) pushed v =
      rw (stage_original-next index entry d v free pushed) (next-Inv index entry d v)

  -- The iterator ends: the counters stay.
  finished-Inv :
      (n : ℕ) (d : Driver) (sq : SubmissionQueue)
      → Inv d
      → Returns (admit_rest alloc s [] n (d, sq)) (λ (_, d', _). Inv d')
  unfolding admit_rest
  finished-Inv n d sq v = record {
    is_map = v.is_map;
    nonnull = v.nonnull;
    sound = v.sound;
    balanced = λ u. ground (arith, v.balanced u);
    aimed = v.aimed;
    in_order = v.in_order;
    owned_order = v.owned_order;
    cancel_order = v.cancel_order;
  }

  below_max : (n : ℕ) → n < usize_max → (n == usize_max) ≡ false
  below_max n h = ground arith

  admit_rest-next :
      (e : Sqe) (es : List Sqe) (n : ℕ) (d : Driver) (sq : SubmissionQueue)
      → n < usize_max
      → Inv d
      → ((d' : Driver) (sq' : SubmissionQueue)
          → Inv d'
          → Returns (admit_rest alloc s es (n + 1) (d', sq')) (λ (_, d'', _). Inv d''))
      → Returns (admit_rest alloc s (e ∷ es) n (d, sq)) (λ (_, d', _). Inv d')
  unfolding admit_rest
  admit_rest-next e es n d sq h v next_round = rw (below_max n h) (
      Returns-next (stage_original alloc s (n, e) (d, sq)) _ _ (λ (d', _). Inv d') _
        (stage_original-Inv (n, e) d sq.free sq.pushed v) v (λ (d', sq') v'. next_round d' sq' v'))

  admit_rest-Inv :
      (es : List Sqe) (n : ℕ) (d : Driver) (sq : SubmissionQueue)
      → n + length es < usize_max
      → Inv d
      → Returns (admit_rest alloc s es n (d, sq)) (λ (_, d', _). Inv d')
  admit_rest-Inv [] n d sq h v = finished-Inv n d sq v
  admit_rest-Inv (e ∷ es) n d sq h v =
      admit_rest-next e es n d sq (omega arith) v
        (λ d' sq' v'. admit_rest-Inv es (n + 1) d' sq' (omega arith) v')

  admit_pending-Inv :
      (p : Option (ℕ × Sqe)) (es : List Sqe) (n : ℕ) (d : Driver) (sq : SubmissionQueue)
      → n + length es < usize_max
      → Inv d
      → Returns
          (admit_loop alloc s (record { iterator = es; pending = p; next_index = n }) (d, sq))
          (λ (_, d', _). Inv d')
  unfolding admit_loop
  admit_pending-Inv none es n d sq h v = admit_rest-Inv es n d sq h v
  admit_pending-Inv (some entry) es n d sq h v =
      Returns-next (stage_original alloc s entry (d, sq)) _ _ (λ (d', _). Inv d') _
        (stage_original-Inv entry d sq.free sq.pushed v) v
        (λ (d', sq') v'. admit_rest-Inv es n d' sq' h v')

  -- The loop of `admit` keeps the books right and does not stop the process, if the indices of the
  -- entries that are left do not reach the largest `usize`.
  pub admit_loop-Inv :
      (a : Admission) (d : Driver) (sq : SubmissionQueue)
      → a.next_index + length a.iterator < usize_max
      → Inv d
      → Returns (admit_loop alloc s a (d, sq)) (λ (_, d', _). Inv d')
  admit_loop-Inv a d sq h v = admit_pending-Inv a.pending a.iterator a.next_index d sq h v
