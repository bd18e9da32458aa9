-- ===== src/IoUring/Ledger.antt =====
-- The books of the ring driver of src/io_uring.rs: how the counters of each submission, the contexts
-- that the kernel may still write to, and the queues of the driver fit together.
pub mod Counts
pub mod Original
pub mod Cancelled
pub mod Dispatch
pub mod Requests
pub mod Staging
pub mod Admission
pub mod Submission
use nosv.Base.{
  ℕ, suc, ◌+◌, ◌≡◌, Bool, true, false, not, ◌&&◌, Option, none, some, List, [], ◌∷◌, to_ℕ, ◌==◌,
  arith,
}
use nosv.Base.Dict.{Dict, lookup, IsMap, total, Every}
use nosv.IoUring.Data.{
  Ptr, SubmissionId, SubmissionInner, CqeContext, CancelCommand, StagedContext, raw, owned,
  owned_cancel, OwnedCqeContext, OwnedCancelContext, Driver, inner_of, is_original, is_terminal,
  is_staged,
}

-- The weights that the books sum over the contexts: the originals of `s` that are not terminal, those
-- that are not accepted, the cancellations of `s`, and those of `s` that target the
-- context at `t`.
abbrev pub live : SubmissionId → CqeContext → ℕ
live s c = to_ℕ (is_original c.kind && not (is_terminal c.phase) && (c.state == s))

abbrev pub waiting : SubmissionId → CqeContext → ℕ
waiting s c = to_ℕ (is_original c.kind && is_staged c.phase && (c.state == s))

abbrev pub cancelling_of : SubmissionId → CqeContext → ℕ
cancelling_of s c = to_ℕ (not (is_original c.kind) && (c.state == s))

abbrev pub aims : Ptr → Option Ptr → Bool
aims t none = false
aims t (some u) = u == t

abbrev pub aiming_at : SubmissionId → Ptr → CqeContext → ℕ
aiming_at s t c = to_ℕ (not (is_original c.kind) && aims t c.target && (c.state == s))

-- The same over the commands that have no slot yet.
abbrev pub queued_of : SubmissionId → List CancelCommand → ℕ
queued_of s [] = 0
queued_of s (c ∷ cs) = to_ℕ (c.state == s) + queued_of s cs

abbrev pub queued_at : SubmissionId → Ptr → List CancelCommand → ℕ
queued_at s t [] = 0
queued_at s t (c ∷ cs) = to_ℕ ((c.target == t) && (c.state == s)) + queued_at s t cs

-- How many cancellations of `s` are on their way to what a pointer leads to.
abbrev pub owed : SubmissionId → Option CqeContext → ℕ
owed s none = 0
owed s (some c) =
    to_ℕ (is_original c.kind && c.cancel_queued && not c.cancel_seen && (c.state == s))

abbrev pub times_staged : Ptr → List StagedContext → ℕ
times_staged p [] = 0
times_staged p (raw q ∷ cs) = to_ℕ (q == p) + times_staged p cs
times_staged p (owned q ∷ cs) = times_staged p cs
times_staged p (owned_cancel q ∷ cs) = times_staged p cs

abbrev pub unaccepted : Option CqeContext → ℕ
unaccepted none = 0
unaccepted (some c) = to_ℕ (is_staged c.phase)

-- The same for the contexts of owned operations and of their cancellations.
abbrev pub times_owned : Ptr → List StagedContext → ℕ
times_owned p [] = 0
times_owned p (raw q ∷ cs) = times_owned p cs
times_owned p (owned q ∷ cs) = to_ℕ (q == p) + times_owned p cs
times_owned p (owned_cancel q ∷ cs) = times_owned p cs

abbrev pub times_cancel : Ptr → List StagedContext → ℕ
times_cancel p [] = 0
times_cancel p (raw q ∷ cs) = times_cancel p cs
times_cancel p (owned q ∷ cs) = times_cancel p cs
times_cancel p (owned_cancel q ∷ cs) = to_ℕ (q == p) + times_cancel p cs

abbrev pub unaccepted_owned : Option OwnedCqeContext → ℕ
unaccepted_owned none = 0
unaccepted_owned (some c) = to_ℕ (is_staged c.phase)

abbrev pub unaccepted_cancel : Option OwnedCancelContext → ℕ
unaccepted_cancel none = 0
unaccepted_cancel (some c) = to_ℕ (is_staged c.phase)

-- A context in the registry: a terminal original is kept only for a cancellation that is on its way,
-- a cancellation has a target and is not terminal, and none is seen that was not queued.
pub record IsSound (c : CqeContext) : Type 0 where
  pub zombie :
      is_original c.kind ≡ true
      → is_terminal c.phase ≡ true
      → (c.cancel_queued ≡ true) × (c.cancel_seen ≡ false)
  pub aimed : is_original c.kind ≡ false → (t : Ptr) × (c.target ≡ some t)
  pub fresh : is_original c.kind ≡ false → is_terminal c.phase ≡ false
  pub unseen : c.cancel_queued ≡ false → c.cancel_seen ≡ false

-- The counters of one submission.
pub record Balanced (i : SubmissionInner) (s : SubmissionId) (contexts : Dict CqeContext)
    (queue : List CancelCommand) : Type 0 where
  pub originals : i.originals ≡ i.original_terminal + total (live s) contexts
  pub accepted : i.accepted + total (waiting s) contexts ≡ i.originals
  pub cancels : i.cancels ≡ i.cancel_terminal + total (cancelling_of s) contexts + queued_of s queue

pub record Inv (d : Driver) : Type 0 where
  pub is_map : IsMap d.data_.contexts
  pub nonnull : lookup 0 d.data_.contexts ≡ none
  pub sound : Every IsSound d.data_.contexts
  pub balanced :
      (s : SubmissionId) → Balanced (inner_of d s) s d.data_.contexts d.data_.cancel_queue
  pub aimed :
      (s : SubmissionId) (t : Ptr)
      → total (aiming_at s t) d.data_.contexts + queued_at s t d.data_.cancel_queue
        ≡ owed s (lookup t d.data_.contexts)
  pub in_order : (p : Ptr) → times_staged p d.data_.staged ≡ unaccepted (lookup p d.data_.contexts)
  pub owned_order :
      (p : Ptr) → times_owned p d.data_.staged ≡ unaccepted_owned (lookup p d.data_.owned_contexts)
  pub cancel_order :
      (p : Ptr)
      → times_cancel p d.data_.staged ≡ unaccepted_cancel (lookup p d.data_.owned_cancel_contexts)
