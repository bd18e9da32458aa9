-- ===== src/IoUring/Ledger/Original.antt =====
-- The completion of an original operation in `dispatch_raw` of src/io_uring.rs, and the books.
use nosv.Base.{
  ℕ, ◌+◌, ◌≡◌, Bool, true, not, ◌&&◌, ◌||◌, none, some, to_ℕ, ◌==◌, arith, if◌then◌else◌,
  Bool-cases, inl, inr,
}
use nosv.Base.Dict.{
  Dict, lookup, insert, erase, IsMap, total, Every, lookup-insert, lookup-erase, insert-IsMap,
  erase-IsMap, total-insert_new, total-erase, Every-lookup, Every-insert, Every-erase,
}
use nosv.IoUring.Data.{
  Ptr, SubmissionId, CqeContext, Cqe, original, submitted, terminal, Driver, inner_of,
}
use nosv.IoUring.Dispatch.{set_contexts, complete_original, dispatch_original}
use nosv.IoUring.Ledger.{
  live, waiting, cancelling_of, aiming_at, queued_at, owed, times_staged, unaccepted, IsSound,
  Balanced, Inv,
}
use nosv.IoUring.Ledger.Counts.{Counted, complete_original-Counted}

-- An original context `c` at `p` that has a completion.
module _ (p : Ptr) (c : CqeContext) (cqe : Cqe) (d : Driver) (v : Inv d)
    (at : lookup p d.data_.contexts ≡ some c) (kind : c.kind ≡ original)
    (phase : c.phase ≡ submitted) where
  abbrev pub before : Dict CqeContext
  before = d.data_.contexts

  abbrev pub rest : Dict CqeContext
  rest = erase p before

  abbrev kept : CqeContext
  kept = if cqe.more then c else record c { phase = terminal }

  abbrev keeps : Bool
  keeps = cqe.more || (c.cancel_queued && not c.cancel_seen)

  abbrev left : Dict CqeContext
  left = if keeps then insert p kept rest else rest

  rest-lookup : (q : Ptr) → lookup q rest ≡ (if p == q then none else lookup q before)
  rest-lookup q = lookup-erase p q before v.is_map

  left-lookup :
      (q : Ptr)
      → lookup q left ≡ (if p == q then (if keeps then some kept else none) else lookup q before)
  left-lookup q = ground (arith, rest-lookup q, lookup-insert p q kept rest)

  left-total :
      (w : CqeContext → ℕ) → total w left + w c ≡ total w before + (if keeps then w kept else 0)
  left-total w =
      ground (arith, total-erase w p c before at, total-insert_new w p kept rest, rest-lookup p)

  left-IsMap : IsMap left
  left-IsMap = ground (arith, erase-IsMap p before v.is_map, insert-IsMap p kept rest)

  kept-IsSound : keeps ≡ true → IsSound kept
  kept-IsSound h = ground (arith, Every-lookup IsSound p c before v.sound at)

  left-IsSound : Every IsSound left
  left-IsSound =
      let rest_sound : Every IsSound rest = Every-erase IsSound p before v.sound in
      elim (Bool-cases keeps) [
        | inl e ↦ rw e (Every-insert IsSound p kept rest rest_sound (kept-IsSound e))
        | inr e ↦ rw e rest_sound
      ]

  abbrev pub after : Driver
  after = (dispatch_original p c cqe (set_contexts rest d)).0

  after-data : after.data_ ≡ record d.data_ { contexts = left }
  unfolding dispatch_original complete_original
  after-data = ground arith

  after-inner :
      (s : SubmissionId)
      → Counted (inner_of d s) (inner_of after s) (to_ℕ (not cqe.more && (c.state == s))) 0
  unfolding dispatch_original
  after-inner s = ground (arith, complete_original-Counted c cqe (set_contexts rest d) s)

  left-Balanced : (s : SubmissionId) → Balanced (inner_of after s) s left d.data_.cancel_queue
  left-Balanced s = ground (
    arith,
    after-inner s,
    v.balanced s,
    left-total (live s),
    left-total (waiting s),
    left-total (cancelling_of s),
  )

  left-aimed :
      (s : SubmissionId) (t : Ptr)
      → total (aiming_at s t) left + queued_at s t d.data_.cancel_queue ≡ owed s (lookup t left)
  left-aimed s t = ground (arith, v.aimed s t, left-total (aiming_at s t), left-lookup t)

  left-in_order : (q : Ptr) → times_staged q d.data_.staged ≡ unaccepted (lookup q left)
  left-in_order q = ground (arith, v.in_order q, left-lookup q)

  pub dispatch_original-Inv : Inv after
  dispatch_original-Inv = record {
    is_map = rw after-data left-IsMap;
    nonnull = rw after-data (ground (arith, left-lookup 0, v.nonnull));
    sound = rw after-data left-IsSound;
    balanced = λ s. rw after-data (left-Balanced s);
    aimed = λ s t. rw after-data (left-aimed s t);
    in_order = λ q. rw after-data (left-in_order q);
    owned_order = λ q. rw after-data (v.owned_order q);
    cancel_order = λ q. rw after-data (v.cancel_order q);
  }
