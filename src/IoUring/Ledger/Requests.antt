-- ===== src/IoUring/Ledger/Requests.antt =====
-- `request_cancel` of src/io_uring.rs and the books.
use nosv.Base.{
  ℕ, ◌+◌, ◌≡◌, refl, true, Option, none, some, List, [], ◌∷◌, ◌++◌, to_ℕ, length, ◌==◌, arith,
  if◌then◌else◌,
}
use nosv.Base.Dict.{Dict, lookup, IsMap, total, Every, Every-lookup}
use nosv.IoUring.Data.{
  Ptr, SubmissionId, SubmissionInner, CqeContext, CancelCommand, Delivery, Driver, inner_of,
}
use nosv.IoUring.Cancel.{is_target, mark, commands, close_delivery, request_cancel}
use nosv.IoUring.Ledger.{
  live, waiting, cancelling_of, aiming_at, queued_of, queued_at, owed, IsSound, Balanced, Inv,
}

abbrev marked : SubmissionId → CqeContext → CqeContext
marked s c = if is_target s c then record c { cancel_queued = true } else c

abbrev pub marked_option : SubmissionId → Option CqeContext → Option CqeContext
marked_option s none = none
marked_option s (some c) = some (marked s c)

pub lookup-mark :
    (s : SubmissionId) (p : Ptr) (d : Dict CqeContext)
    → lookup p (mark s d) ≡ marked_option s (lookup p d)
unfolding mark
lookup-mark s p [] = refl
lookup-mark s p ((q, c) ∷ d) = ground (arith, lookup-mark s p d)

mark-IsMap : (s : SubmissionId) (d : Dict CqeContext) → IsMap d → IsMap (mark s d)
unfolding mark
mark-IsMap s [] m = tt
mark-IsMap s ((q, c) ∷ d) m = ground (arith, mark-IsMap s d m.1, lookup-mark s q d)

total-mark :
    (w : CqeContext → ℕ) (s : SubmissionId) (d : Dict CqeContext)
    → ((c : CqeContext) → w (record c { cancel_queued = true }) ≡ w c)
    → total w (mark s d) ≡ total w d
unfolding mark
total-mark w s [] h = refl
total-mark w s ((q, c) ∷ d) h = ground (arith, total-mark w s d h, h c)

mark-IsSound : (s : SubmissionId) (d : Dict CqeContext) → Every IsSound d → Every IsSound (mark s d)
unfolding mark
mark-IsSound s [] e = tt
mark-IsSound s ((q, c) ∷ d) e = ground (arith, mark-IsSound s d e.1)

pub queued_of-append :
    (s : SubmissionId) (xs ys : List CancelCommand)
    → queued_of s (xs ++ ys) ≡ queued_of s xs + queued_of s ys
queued_of-append s [] ys = omega arith
queued_of-append s (x ∷ xs) ys = omega (arith, queued_of-append s xs ys)

pub queued_at-append :
    (s : SubmissionId) (t : Ptr) (xs ys : List CancelCommand)
    → queued_at s t (xs ++ ys) ≡ queued_at s t xs + queued_at s t ys
queued_at-append s t [] ys = omega arith
queued_at-append s t (x ∷ xs) ys = omega (arith, queued_at-append s t xs ys)

queued_of-commands :
    (s u : SubmissionId) (d : Dict CqeContext)
    → queued_of u (commands s d) ≡ (if s == u then length (commands s d) else 0)
unfolding commands
queued_of-commands s u [] = ground arith
queued_of-commands s u ((q, c) ∷ d) = ground (arith, queued_of-commands s u d)

abbrev targeted : SubmissionId → Option CqeContext → ℕ
targeted s none = 0
targeted s (some c) = to_ℕ (is_target s c)

queued_at-commands :
    (s u : SubmissionId) (t : Ptr) (d : Dict CqeContext)
    → IsMap d
    → queued_at u t (commands s d) ≡ (if s == u then targeted s (lookup t d) else 0)
unfolding commands
queued_at-commands s u t [] m = ground arith
queued_at-commands s u t ((q, c) ∷ d) m = ground (arith, queued_at-commands s u t d m.1)

close_delivery-counters :
    (delivery : Delivery) (i : SubmissionInner)
    → let j = close_delivery delivery i in
      (j.originals ≡ i.originals)
      × (j.accepted ≡ i.accepted)
      × (j.original_terminal ≡ i.original_terminal)
      × (j.cancels ≡ i.cancels)
      × (j.cancel_terminal ≡ i.cancel_terminal)
unfolding close_delivery
close_delivery-counters delivery i = ground arith

module _ (s : SubmissionId) (delivery : Delivery) (d : Driver) (v : Inv d) where
  abbrev contexts : Dict CqeContext
  contexts = d.data_.contexts

  owed-marked_option :
      (u : SubmissionId) (t : Ptr) (o : Option CqeContext)
      → lookup t contexts ≡ o
      → owed u (marked_option s o) ≡ owed u o + (if s == u then targeted s o else 0)
  owed-marked_option u t none e = ground arith
  owed-marked_option u t (some c) e = ground (arith, Every-lookup IsSound t c contexts v.sound e)

  request_cancel-Balanced :
      (u : SubmissionId)
      → Balanced
          (inner_of (request_cancel s delivery d) u)
          u
          (mark s contexts)
          (d.data_.cancel_queue ++ commands s contexts)
  unfolding request_cancel
  request_cancel-Balanced u = ground (
    arith,
    v.balanced u,
    close_delivery-counters delivery (inner_of d s),
    total-mark (live u) s contexts (λ c. refl),
    total-mark (waiting u) s contexts (λ c. refl),
    total-mark (cancelling_of u) s contexts (λ c. refl),
    queued_of-append u d.data_.cancel_queue (commands s contexts),
    queued_of-commands s u contexts,
  )

  -- A request for cancellation keeps the books right.
  pub request_cancel-Inv : Inv (request_cancel s delivery d)
  unfolding request_cancel
  request_cancel-Inv = record {
    is_map = mark-IsMap s contexts v.is_map;
    nonnull = ground (arith, lookup-mark s 0 contexts, v.nonnull);
    sound = mark-IsSound s contexts v.sound;
    balanced = request_cancel-Balanced;
    aimed = λ u t. ground (
      arith,
      v.aimed u t,
      total-mark (aiming_at u t) s contexts (λ c. refl),
      lookup-mark s t contexts,
      queued_at-append u t d.data_.cancel_queue (commands s contexts),
      queued_at-commands s u t contexts v.is_map,
      owed-marked_option u t (lookup t contexts) refl,
    );
    in_order = λ p. ground (arith, v.in_order p, lookup-mark s p contexts);
    owned_order = v.owned_order;
    cancel_order = v.cancel_order;
  }
