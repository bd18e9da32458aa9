-- ===== src/IoUring/Ledger/Submission.antt =====
-- `submit_staged` of src/io_uring.rs and the books.
use nosv.Base.{
  ℕ, zero, suc, ◌+◌, ◌≤◌, ◌≡◌, refl, true, Option, none, some, List, [], ◌∷◌, length, ◌==◌, arith,
  if◌then◌else◌,
}
use nosv.Base.Outcome.{done, Returns, Returns->>=}
use nosv.Base.Result.{Result, ok, err}
use nosv.Base.Dict.{
  Dict, lookup, insert, total, lookup-insert, insert-IsMap, total-insert, Every-lookup,
  Every-insert,
}
use nosv.IoUring.Data.{
  Ptr, SubmissionId, SubmissionInner, CqeContext, OwnedCqeContext, OwnedCancelContext, submitted,
  StagedContext, raw, owned, owned_cancel, Driver, inner_of, set_inner, is_original, is_staged,
}
use nosv.IoUring.Submission.{take_into}
use nosv.IoUring.Submit.{
  Errnos, is_retryable, submitted_context, accept, accept_prefix, submit_staged,
}
use nosv.IoUring.Ledger.{live, waiting, cancelling_of, aiming_at, IsSound, Balanced, Inv}

-- The books, with the order of the queue that is still to be accepted.
abbrev Books : Driver → List StagedContext → Type 0
Books d staged_ = Inv (record d { data_ = record d.data_ { staged = staged_ } })

module _ (p : Ptr) (cs : List StagedContext) (d : Driver) where
  module _ (b : Books d (raw p ∷ cs)) (c : CqeContext) (at : lookup p d.data_.contexts ≡ some c)
      (phase : is_staged c.phase ≡ true) where
    abbrev after : Dict CqeContext
    after = insert p (submitted_context c) d.data_.contexts

    after-lookup :
        (q : Ptr)
        → lookup q after
          ≡ (if p == q then some (submitted_context c) else lookup q d.data_.contexts)
    after-lookup q = lookup-insert p q (submitted_context c) d.data_.contexts

    after-total :
        (w : CqeContext → ℕ)
        → total w after + w c ≡ total w d.data_.contexts + w (submitted_context c)
    after-total w = total-insert w p (submitted_context c) c d.data_.contexts at

    abbrev inner : SubmissionInner
    inner = inner_of d c.state

    abbrev next : Driver
    next = record {
      data_ = record d.data_ { contexts = after };
      states =
          if is_original c.kind
          then (set_inner c.state
              (record inner { accepted = inner.accepted + 1; admission_waker = none }) d).states
          else d.states;
      wakes = if is_original c.kind then take_into inner.admission_waker d.wakes else d.wakes;
    }

    accept-raw : accept (raw p) d ≡ done next
    unfolding accept
    accept-raw = ground (arith, at, phase)

    next-IsSound : IsSound (submitted_context c)
    next-IsSound = ground (arith, Every-lookup IsSound p c d.data_.contexts b.sound at)

    next-Balanced : (s : SubmissionId) → Balanced (inner_of next s) s after d.data_.cancel_queue
    next-Balanced s = ground (
      arith,
      b.balanced s,
      after-total (live s),
      after-total (waiting s),
      after-total (cancelling_of s),
      phase,
    )

    next-Books : Books next cs
    next-Books = record {
      is_map = insert-IsMap p (submitted_context c) d.data_.contexts b.is_map;
      nonnull = ground (arith, after-lookup 0, b.nonnull, at);
      sound = Every-insert IsSound p (submitted_context c) d.data_.contexts b.sound next-IsSound;
      balanced = next-Balanced;
      aimed = λ u t. ground (arith, b.aimed u t, after-total (aiming_at u t), after-lookup t, at);
      in_order = λ q. ground (arith, b.in_order q, after-lookup q, at, phase);
      owned_order = b.owned_order;
      cancel_order = b.cancel_order;
    }

  waiting_of :
      Books d (raw p ∷ cs)
      → (o : Option CqeContext) → lookup p d.data_.contexts ≡ o
      → (c : CqeContext) × (o ≡ some c) × (is_staged c.phase ≡ true)
  waiting_of b none e = absurd (ground (arith, b.in_order p, e))
  waiting_of b (some c) e = (c, refl, ground (arith, b.in_order p, e))

  raw-Books : Books d (raw p ∷ cs) → Returns (accept (raw p) d) (λ d'. Books d' cs)
  raw-Books b =
      let (c, at, phase) = waiting_of b (lookup p d.data_.contexts) refl in
      rw (accept-raw b c at phase) (next-Books b c at phase)

  module _ (b : Books d (owned p ∷ cs)) (c : OwnedCqeContext)
      (at : lookup p d.data_.owned_contexts ≡ some c) (phase : is_staged c.phase ≡ true) where
    abbrev owned_next : Driver
    owned_next = record d {
      data_ = record d.data_ {
        owned_contexts = insert p (record c { phase = submitted }) d.data_.owned_contexts;
      };
    }

    accept-owned : accept (owned p) d ≡ done owned_next
    unfolding accept
    accept-owned = ground (arith, at, phase)

    owned_next-Books : Books owned_next cs
    owned_next-Books = record {
      is_map = b.is_map;
      nonnull = b.nonnull;
      sound = b.sound;
      balanced = b.balanced;
      aimed = b.aimed;
      in_order = b.in_order;
      owned_order = λ q. ground (
        arith,
        b.owned_order q,
        lookup-insert p q (record c { phase = submitted }) d.data_.owned_contexts,
        at,
        phase,
      );
      cancel_order = b.cancel_order;
    }

  owned_waiting :
      Books d (owned p ∷ cs)
      → (o : Option OwnedCqeContext) → lookup p d.data_.owned_contexts ≡ o
      → (c : OwnedCqeContext) × (o ≡ some c) × (is_staged c.phase ≡ true)
  owned_waiting b none e = absurd (ground (arith, b.owned_order p, e))
  owned_waiting b (some c) e = (c, refl, ground (arith, b.owned_order p, e))

  owned-Books : Books d (owned p ∷ cs) → Returns (accept (owned p) d) (λ d'. Books d' cs)
  owned-Books b =
      let (c, at, phase) = owned_waiting b (lookup p d.data_.owned_contexts) refl in
      rw (accept-owned b c at phase) (owned_next-Books b c at phase)

  module _ (b : Books d (owned_cancel p ∷ cs)) (c : OwnedCancelContext)
      (at : lookup p d.data_.owned_cancel_contexts ≡ some c)
      (phase : is_staged c.phase ≡ true) where
    abbrev cancel_next : Driver
    cancel_next = record d {
      data_ = record d.data_ {
        owned_cancel_contexts =
            insert p (record c { phase = submitted }) d.data_.owned_cancel_contexts;
      };
    }

    accept-owned_cancel : accept (owned_cancel p) d ≡ done cancel_next
    unfolding accept
    accept-owned_cancel = ground (arith, at, phase)

    cancel_next-Books : Books cancel_next cs
    cancel_next-Books = record {
      is_map = b.is_map;
      nonnull = b.nonnull;
      sound = b.sound;
      balanced = b.balanced;
      aimed = b.aimed;
      in_order = b.in_order;
      cancel_order = λ q. ground (
        arith,
        b.cancel_order q,
        lookup-insert p q (record c { phase = submitted }) d.data_.owned_cancel_contexts,
        at,
        phase,
      );
      owned_order = b.owned_order;
    }

  cancel_waiting :
      Books d (owned_cancel p ∷ cs)
      → (o : Option OwnedCancelContext) → lookup p d.data_.owned_cancel_contexts ≡ o
      → (c : OwnedCancelContext) × (o ≡ some c) × (is_staged c.phase ≡ true)
  cancel_waiting b none e = absurd (ground (arith, b.cancel_order p, e))
  cancel_waiting b (some c) e = (c, refl, ground (arith, b.cancel_order p, e))

  cancel-Books :
      Books d (owned_cancel p ∷ cs) → Returns (accept (owned_cancel p) d) (λ d'. Books d' cs)
  cancel-Books b =
      let (c, at, phase) = cancel_waiting b (lookup p d.data_.owned_cancel_contexts) refl in
      rw (accept-owned_cancel b c at phase) (cancel_next-Books b c at phase)

accept-Books :
    (c : StagedContext) (cs : List StagedContext) (d : Driver)
    → Books d (c ∷ cs)
    → Returns (accept c d) (λ d'. Books d' cs)
accept-Books (raw p) cs d b = raw-Books p cs d b
accept-Books (owned p) cs d b = owned-Books p cs d b
accept-Books (owned_cancel p) cs d b = cancel-Books p cs d b

accept_prefix-Inv :
    (n : ℕ) (cs : List StagedContext) (d : Driver)
    → n ≤ length cs
    → Books d cs
    → Returns (accept_prefix n cs d) Inv
unfolding accept_prefix
accept_prefix-Inv zero cs d h b = record {
  is_map = b.is_map;
  nonnull = b.nonnull;
  sound = b.sound;
  balanced = b.balanced;
  aimed = b.aimed;
  in_order = b.in_order;
  owned_order = b.owned_order;
  cancel_order = b.cancel_order;
}
accept_prefix-Inv (suc n) [] d h b = absurd (omega arith)
accept_prefix-Inv (suc n) (c ∷ cs) d h b =
    Returns->>= (accept c d) _ (λ d'. Books d' cs) _ (accept-Books c cs d b)
      (λ d' b'. accept_prefix-Inv n cs d' (omega arith) b')

-- What `ring.submit` may answer when so many entries are in order: that it accepted no more of them,
-- or an error that is retried.
abbrev pub IsAnswer : Errnos → ℕ → Result ℕ (Option ℕ) → Type 0
IsAnswer errnos n (ok count) = count ≤ n
IsAnswer errnos n (err e) = is_retryable errnos e ≡ true

-- When the books are right, and the kernel accepts no more entries than were staged or gives an error
-- that is retried, `submit_staged` does not stop the process and leaves the books right.
pub submit_staged-Inv :
    (errnos : Errnos) (answer : Result ℕ (Option ℕ)) (d : Driver)
    → Inv d
    → IsAnswer errnos (length d.data_.staged) answer
    → Returns (submit_staged errnos answer d) Inv
unfolding submit_staged
submit_staged-Inv errnos (ok count) d b h =
    ground (arith, accept_prefix-Inv count d.data_.staged d h b)
submit_staged-Inv errnos (err e) d b h = rw h b
