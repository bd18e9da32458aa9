-- ===== src/IoUring/Entries/Results.antt =====
-- What a poll of `SubmitEntries` of src/io_uring.rs gives.
use nosv.Base.{
  if◌then◌else◌, ℕ, ◌+◌, ◌≡◌, ◌<◌, ◌&&◌, ◌||◌, refl, ap, sym, subst, ◌∙◌, Bool, true, false, Option,
  none, some, ◌==◌, length, is_empty, arith, Bool-cases, inl, inr,
}
use nosv.Base.Outcome.{Outcome, done, stop, Returns, Returns->>=, ◌>>=◌}
use nosv.Base.Result.{Result, ok, err}
use nosv.Base.Dict.{lookup, total}
use nosv.IoUring.Data.{
  Ptr, SubmissionId, SubmissionInner, Waker, Delivery, overflow, detached, open_, cancelling,
  CqeContext, DriverData, Driver, SubmissionQueue, inner_of, set_inner,
}
use nosv.IoUring.Submission.{pending, ready, replace_waker}
use nosv.IoUring.Cancel.{is_target, request_cancel}
use nosv.IoUring.Submit.{Errnos}
use nosv.IoUring.Admit.{Admission, usize_max, admit}
use nosv.IoUring.Ledger.{Inv, waiting}
use nosv.IoUring.Ledger.Requests.{request_cancel-Inv}
use nosv.IoUring.Ledger.Staging.{IsFresh}
use nosv.IoUring.Ledger.Submission.{IsAnswer}
use nosv.IoUring.Turns.{admit-Inv}
use nosv.IoUring.Gate.{Wake, submit, submit_deadline_wake, notify}
use nosv.IoUring.Shutdown.{Shared, notified}
use nosv.IoUring.Shutdown.Closing.{detach-asked}
use nosv.IoUring.Entries.{
  SubmissionErrorKind, SubmitEntries, failure, ended_entries, Polled, admit_notifies, admit_with,
  cancel_with, settle, poll,
}

abbrev pub all_accepted : SubmissionInner → Bool
all_accepted i = i.iterator_finished && (i.accepted == i.originals)

-- A success: the kernel has accepted every entry, and completions are delivered. An error: each entry
-- that was staged is complete or a cancellation is asked for it. A pending poll leaves its waker,
-- tells the driver, and is not for nothing.
pub data Settles (s : SubmissionId) (w : Waker) : Polled → Type 0 where
  admitted :
      {f : SubmitEntries} {x : Shared} {sq : SubmissionQueue}
      → f.ended ≡ true
      → (inner_of x.driver s).delivery ≡ open_
      → (inner_of x.driver s).iterator_finished ≡ true
      → total (waiting s) x.driver.data_.contexts ≡ 0
      → Settles s w (f, x, sq, ready (ok tt))
  refused :
      {f : SubmitEntries} {x : Shared} {sq : SubmissionQueue} {kind : SubmissionErrorKind}
      → f.ended ≡ true
      → ((p : Ptr) (c : CqeContext)
          → lookup p x.driver.data_.contexts ≡ some c
          → is_target s c ≡ false)
      → Settles s w (f, x, sq, ready (err kind))
  waits :
      {f : SubmitEntries} {x : Shared} {sq : SubmissionQueue}
      → f.ended ≡ false
      → (inner_of x.driver s).admission_waker ≡ some w
      → x.gate.notified ≡ true
      → all_accepted (inner_of x.driver s) ≡ false
      → Settles s w (f, x, sq, pending)

module _ (accepts : Wake → Bool) (wakes : (w : Wake) → accepts w ≡ true) where
  notified-keeps :
      (x : Shared)
      → x.gate.raw ≡ true
      → Returns
          (notified accepts x)
          (λ x'. (x'.driver ≡ x.driver) × (x'.gate.raw ≡ true) × (x'.gate.notified ≡ true))
  unfolding notified notify
  notified-keeps x v = ground (arith, wakes submit, wakes submit_deadline_wake, v)

failure-open : (b : Bool) (delivery : Delivery) → failure b delivery ≡ none → delivery ≡ open_
unfolding failure
failure-open b overflow e = absurd (ground arith)
failure-open b cancelling e = absurd (ground arith)
failure-open b detached e = absurd (ground arith)
failure-open b open_ e = refl

module _ (s : SubmissionId) (w : Waker) (x : Shared) (v : Inv x.driver) where
  abbrev i : SubmissionInner
  i = inner_of x.driver s

  abbrev registered : Driver
  registered =
      set_inner s (record i { admission_waker = replace_waker i.admission_waker w }) x.driver

  registered-Inv : Inv registered
  registered-Inv = record {
    is_map = v.is_map;
    nonnull = v.nonnull;
    sound = v.sound;
    balanced = λ u. record {
      originals = ground (arith, (v.balanced u).originals);
      accepted = ground (arith, (v.balanced u).accepted);
      cancels = ground (arith, (v.balanced u).cancels);
    };
    aimed = v.aimed;
    in_order = v.in_order;
    owned_order = v.owned_order;
    cancel_order = v.cancel_order;
  }

  registered-waker : (inner_of registered s).admission_waker ≡ some w
  registered-waker = ground arith

  none_waiting : i.accepted ≡ i.originals → total (waiting s) x.driver.data_.contexts ≡ 0
  none_waiting h = omega (arith, (v.balanced s).accepted, h)

  none_targeted :
      (p : Ptr) (c : CqeContext)
      → lookup p (request_cancel s cancelling x.driver).data_.contexts ≡ some c
      → is_target s c ≡ false
  unfolding request_cancel
  none_targeted p c e = detach-asked s s p c x.driver.data_.contexts _ refl e (inl refl)

Returns-else :
    (b : Bool) (m : Outcome Polled) (P : Polled → Type 0)
    → b ≡ false
    → Returns m P
    → Returns (if b then stop else m) P
Returns-else false m P e h = h
Returns-else true m P e h = absurd (ground arith)

-- The submission has as many entries as before, or the driver is told.
abbrev pub IsTold : SubmissionId → ℕ → Shared → Type 0
IsTold s count x = ((inner_of x.driver s).originals == count) || x.gate.notified ≡ true

abbrev pub IsPolled : SubmissionId → Waker → ℕ → Polled → Type 0
IsPolled s w count (f, x, sq, r) = Inv x.driver × IsTold s count x × Settles s w (f, x, sq, r)

module _ (accepts : Wake → Bool) (wakes : (w : Wake) → accepts w ≡ true) (s : SubmissionId)
    (w : Waker) where
  module _ (f : SubmitEntries) (x : Shared) (sq : SubmissionQueue) (v : Inv x.driver)
      (raw : x.gate.raw ≡ true) (live : f.ended ≡ false) (count : ℕ) (told : IsTold s count x) where
    refused-IsPolled :
        (kind : SubmissionErrorKind) (x' : Shared)
        → x'.driver ≡ request_cancel s cancelling x.driver
        → x'.gate.notified ≡ true
        → IsPolled s w count (ended_entries f, x', sq, ready (err kind))
    refused-IsPolled kind x' same heard = (
      subst Inv (sym same) (request_cancel-Inv s cancelling x.driver v),
      ground (arith, heard),
      refused refl
          (λ p c e. none_targeted s w x v p c (ap (λ d. lookup p d.data_.contexts) (sym same) ∙ e)),
    )

    waits-IsPolled :
        (x' : Shared)
        → all_accepted (inner_of x.driver s) ≡ false
        → x'.driver ≡ registered s w x v
        → x'.gate.notified ≡ true
        → IsPolled s w count (f, x', sq, pending)
    waits-IsPolled x' e same heard = (
      subst Inv (sym same) (registered-Inv s w x v),
      ground (arith, heard),
      waits live (ap (λ d. (inner_of d s).admission_waker) same ∙ registered-waker s w x v) heard
          (ground (arith, ap (λ d. inner_of d s) same, e)),
    )

    settled :
        (o : Option SubmissionErrorKind)
        → failure f.closed (inner_of x.driver s).delivery ≡ o
        → Returns (settle accepts s w f x sq) (IsPolled s w count)
    unfolding settle cancel_with
    settled (some kind) e =
        rw (e, Returns, settle)
          (Returns->>= (cancel_with accepts s cancelling x) _ _ _
            (notified-keeps accepts wakes
              (record x { driver = request_cancel s cancelling x.driver }) raw)
            (λ x' h. refused-IsPolled kind x' h.0 h.2))
    settled none e = elim (Bool-cases (all_accepted (inner_of x.driver s))) [
      | inl b ↦
          rw (e, b, Returns, settle)
            (
              v,
              told,
              admitted refl (failure-open f.closed _ e) (ground (arith, b))
                  (none_waiting s w x v (ground (arith, b))),
            )
      | inr b ↦
          rw (e, b, Returns, settle)
            (Returns->>= (notified accepts (record x { driver = registered s w x v })) _ _ _
              (notified-keeps accepts wakes (record x { driver = registered s w x v }) raw)
              (λ x' h. waits-IsPolled x' b h.0 h.2))
    ]

    settle-IsPolled : Returns (settle accepts s w f x sq) (IsPolled s w count)
    settle-IsPolled = settled (failure f.closed (inner_of x.driver s).delivery) refl

  module _ (alloc : DriverData → Ptr) (fresh : IsFresh alloc) (errnos : Errnos)
      (answer : ℕ → Result ℕ (Option ℕ)) (answers : (n : ℕ) → IsAnswer errnos n (answer n))
      (f : SubmitEntries) (x : Shared) (sq : SubmissionQueue) (v : Inv x.driver)
      (raw : x.gate.raw ≡ true) (live : f.ended ≡ false)
      (in_range : f.admission.next_index + length f.admission.iterator < usize_max) where
    abbrev count : ℕ
    count = (inner_of x.driver s).originals

    -- What the attempt at admission leaves.
    abbrev Tried : Admission × Shared × SubmissionQueue → Type 0
    Tried (a, x', sq') = Inv x'.driver × (x'.gate.raw ≡ true) × IsTold s count x'

    tell :
        (a : Admission) (d : Driver) (sq' : SubmissionQueue) (b : Bool)
        → admit_notifies accepts s x a d ≡ b
        → Inv d
        → Returns
            (if admit_notifies accepts s x a d
              then (notified accepts (record x { driver = d }) >>= λ told. done (a, told, sq'))
              else done (a, record x { driver = d }, sq'))
            Tried
    unfolding admit_notifies
    tell a d sq' true e v' =
        rw (e, Returns)
          (Returns->>= (notified accepts (record x { driver = d })) _ _ _
            (notified-keeps accepts wakes (record x { driver = d }) raw)
            (λ y (same, still, heard). (subst Inv (sym same) v', still, ground (arith, heard))))
    tell a d sq' false e v' = rw (e, Returns) (v', raw, ground (arith, e))

    admit_with-Tried : Returns (admit_with accepts alloc errnos answer s f.admission x sq) Tried
    unfolding admit_with
    admit_with-Tried =
        Returns->>=
          (admit alloc errnos (is_empty x.owned_queue) answer s f.admission (x.driver, sq)) _ _ _
          (admit-Inv alloc fresh errnos answer answers (is_empty x.owned_queue) s f.admission
            x.driver sq in_range v)
          (λ (a, d, sq') v'. tell a d sq' (admit_notifies accepts s x a d) refl v')

    abbrev tried : Outcome (Admission × Shared × SubmissionQueue)
    tried =
        if f.closed
        then done (f.admission, x, sq)
        else admit_with accepts alloc errnos answer s f.admission x sq

    tried-Tried : Returns tried Tried
    tried-Tried = elim (Bool-cases f.closed) [
      | inl b ↦ rw b (v, raw, ground arith)
      | inr b ↦ rw b admit_with-Tried
    ]

    -- When the books are right, the descriptor of the driver is there and native wakes succeed, the
    -- addresses of new boxes are fresh, the kernel answers as it may and the indices do not run out,
    -- a poll of a future that has not ended does not stop the process and keeps the books right. If it
    -- has staged an entry, the driver is told, however it ends. It is a success only when the iterator is
    -- at its end and no entry of the submission waits for the kernel; an error only when each of its
    -- staged entries is complete or a cancellation is asked for it; and pending only with its waker kept,
    -- the driver told, and something left to admit.
    pub poll-IsPolled : Returns (poll accepts alloc errnos answer s w f x sq) (IsPolled s w count)
    unfolding poll
    poll-IsPolled = Returns-else f.ended _ _ live (
        Returns->>= tried _ _ _ tried-Tried (λ (a, x', sq') (v', raw', told).
          settle-IsPolled (record f { admission = a }) x' sq' v' raw' live count told))
