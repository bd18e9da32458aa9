-- ===== src/IoUring/Pass/Books.antt =====
-- The `dispatch` of src/io_uring.rs keeps the books of both registries.
use nosv.Base.{◌≡◌, refl, ap, sym, subst, ◌∙◌, false, Option, none, some, List, [], ◌∷◌, arith}
use nosv.Base.Outcome.{Outcome, done, stop, Returns, Returns->>=, Returns-map}
use nosv.Base.Dict.{Dict, lookup, erase, total, IsMap, Every}
use nosv.IoUring.Data.{
  Ptr, SubmissionId, Cqe, CqeContext, ContextKind, original, cancel, OwnedCqeContext,
  OwnedCancelContext, submitted, Driver,
}
use nosv.IoUring.Dispatch.{
  complete_original, dispatch_original, dispatch_cancel, dispatch_kind, set_contexts, dispatch_raw,
}
use nosv.IoUring.Owned.{dispatch_owned, Completed}
use nosv.IoUring.Owned.Books.{
  IsSound, aiming_owned, queued_owned, OwnedInv, left, left-lookup, has_handler,
  dispatch_owned-completed, dispatch_owned-completes, remains, remains-lookup, cancels,
  cancels-lookup, target_there, dispatch_owned-retired, dispatch_owned-cancels,
}
use nosv.IoUring.Ledger.{Inv, unaccepted_owned, unaccepted_cancel}
use nosv.IoUring.Ledger.Dispatch.{IsExpected, dispatch_raw-Inv}
use nosv.IoUring.Ledger.Staging.{with_data}
use nosv.IoUring.Pass.{dispatch, dispatch_all}

-- What a completion of a caller's entry leaves alone.
record IsAside (d d' : Driver) : Type 0 where
  owned_contexts : d'.data_.owned_contexts ≡ d.data_.owned_contexts
  owned_cancel_contexts : d'.data_.owned_cancel_contexts ≡ d.data_.owned_cancel_contexts
  owned_cancel_queue : d'.data_.owned_cancel_queue ≡ d.data_.owned_cancel_queue

abbrev Leaves : Driver → Outcome (Driver × Option SubmissionId) → Type 0
Leaves d stop = Unit
Leaves d (done (d', _)) = IsAside d d'

dispatch_original-IsAside :
    (p : Ptr) (c : CqeContext) (cqe : Cqe) (d : Driver) → IsAside d (dispatch_original p c cqe d).0
unfolding dispatch_original complete_original
dispatch_original-IsAside p c cqe d = ground arith

dispatch_kind-Leaves :
    (k : ContextKind) (p : Ptr) (c : CqeContext) (cqe : Cqe) (contexts : Dict CqeContext)
    (d : Driver)
    → Leaves d (dispatch_kind k p c cqe (set_contexts contexts d))
unfolding dispatch_kind dispatch_cancel
dispatch_kind-Leaves original p c cqe contexts d =
    let h = dispatch_original-IsAside p c cqe (set_contexts contexts d) in
    record {
      owned_contexts = h.owned_contexts;
      owned_cancel_contexts = h.owned_cancel_contexts;
      owned_cancel_queue = h.owned_cancel_queue;
    }
dispatch_kind-Leaves cancel p c cqe contexts d = ground arith

dispatch_raw-Leaves :
    (cqe : Cqe) (d : Driver) (c : CqeContext)
    → Inv d
    → IsExpected cqe d c
    → Leaves d (dispatch_raw cqe d)
unfolding dispatch_raw
dispatch_raw-Leaves cqe d c v e = ground (
  arith,
  v.nonnull,
  e.found,
  e.phase,
  dispatch_kind-Leaves c.kind cqe.user_data c cqe (erase cqe.user_data d.data_.contexts) d,
)

IsAside-OwnedInv : (d d' : Driver) → IsAside d d' → OwnedInv d.data_ → OwnedInv d'.data_
IsAside-OwnedInv d d' h w = record {
  is_map = subst IsMap (sym h.owned_contexts) w.is_map;
  cancels_map = subst IsMap (sym h.owned_cancel_contexts) w.cancels_map;
  nonnull =
      ground
        (arith, w.nonnull, ap (lookup 0) h.owned_contexts, ap (lookup 0) h.owned_cancel_contexts);
  sound = subst (Every IsSound) (sym h.owned_contexts) w.sound;
  aimed = λ t. ground (
    arith,
    w.aimed t,
    ap (lookup t) h.owned_contexts,
    ap (total (aiming_owned t)) h.owned_cancel_contexts,
    ap (queued_owned t) h.owned_cancel_queue,
  );
}

raw-Books :
    (d : Driver) (m : Outcome (Driver × Option SubmissionId))
    → OwnedInv d.data_
    → Returns m (λ (d', _). Inv d')
    → Leaves d m
    → Returns m (λ (d', _). Inv d' × OwnedInv d'.data_)
raw-Books d stop w h k = h
raw-Books d (done (d', o)) w h k = (h, IsAside-OwnedInv d d' k w)

-- A completion that the kernel may give: of an entry or its cancellation, of an operation, or of the
-- cancellation of one.
pub data Expected (cqe : Cqe) (d : Driver) : Type 0 where
  of_entry : (c : CqeContext) → IsExpected cqe d c → Expected cqe d
  of_operation :
      (c : OwnedCqeContext)
      → lookup cqe.user_data d.data_.contexts ≡ none
      → lookup cqe.user_data d.data_.owned_contexts ≡ some c
      → c.phase ≡ submitted
      → cqe.more ≡ false
      → Expected cqe d
  of_cancellation :
      (c : OwnedCancelContext)
      → lookup cqe.user_data d.data_.contexts ≡ none
      → lookup cqe.user_data d.data_.owned_contexts ≡ none
      → lookup cqe.user_data d.data_.owned_cancel_contexts ≡ some c
      → c.phase ≡ submitted
      → cqe.more ≡ false
      → Expected cqe d

-- What holds of the driver after a dispatch that returns.
abbrev pub Later : (Driver → Type 0) → Outcome (Driver × Option SubmissionId × Completed) → Type 0
Later P stop = Unit
Later P (done (d', _, _)) = P d'

-- Each completion is one that the kernel may give once those before it are dispatched.
abbrev pub AllExpected : List Cqe → Driver → Type 0
AllExpected [] d = Unit
AllExpected (cqe ∷ cqes) d = Expected cqe d × Later (AllExpected cqes) (dispatch cqe d)

module _ (d : Driver) (v : Inv d) where
  exchanged-Inv :
      (owned : Dict OwnedCqeContext) (cancels_ : Dict OwnedCancelContext)
      → ((p : Ptr)
          → unaccepted_owned (lookup p owned) ≡ unaccepted_owned (lookup p d.data_.owned_contexts))
      → ((p : Ptr)
          → unaccepted_cancel (lookup p cancels_)
            ≡ unaccepted_cancel (lookup p d.data_.owned_cancel_contexts))
      → Inv (
          with_data d (record d.data_ { owned_contexts = owned; owned_cancel_contexts = cancels_ }))
  exchanged-Inv owned cancels_ h k = record {
    is_map = v.is_map;
    nonnull = v.nonnull;
    sound = v.sound;
    balanced = v.balanced;
    aimed = v.aimed;
    in_order = v.in_order;
    owned_order = λ p. v.owned_order p ∙ sym (h p);
    cancel_order = λ p. v.cancel_order p ∙ sym (k p);
  }

  module _ (cqe : Cqe) (w : OwnedInv d.data_) (single : cqe.more ≡ false) where
    owned-Books :
        (c : OwnedCqeContext)
        → lookup cqe.user_data d.data_.owned_contexts ≡ some c
        → c.phase ≡ submitted
        → Returns
            (dispatch_owned cqe d.data_)
            (λ (data', _). Inv (with_data d data') × OwnedInv data')
    owned-Books c at phase =
        let (h, e) = has_handler cqe d.data_ w single c at phase c.handler refl in
        let books = dispatch_owned-completes cqe d.data_ w single c at phase in
        let moved = dispatch_owned-completed cqe d.data_ w single c at phase h e in
        subst (λ m. Returns m (λ (data', _). Inv (with_data d data') × OwnedInv data')) (sym moved)
          (
            exchanged-Inv (left cqe d.data_ w single c at phase) d.data_.owned_cancel_contexts
                (λ p. ground (arith, left-lookup cqe d.data_ w single c at phase p, at, phase))
                (λ p. refl),
            (subst (λ m. Returns m (λ (data', _). OwnedInv data')) moved
                (Returns-map (dispatch_owned cqe d.data_) _ _ books (λ a b. b.0))),
          )

    cancelled-Books :
        (c : OwnedCancelContext)
        → lookup cqe.user_data d.data_.owned_cancel_contexts ≡ some c
        → c.phase ≡ submitted
        → lookup cqe.user_data d.data_.owned_contexts ≡ none
        → Returns
            (dispatch_owned cqe d.data_)
            (λ (data', _). Inv (with_data d data') × OwnedInv data')
    cancelled-Books c at phase no_operation =
        let (o, there) =
          target_there cqe d.data_ w single c at phase no_operation
            (lookup c.target d.data_.owned_contexts) refl in
        let books = dispatch_owned-cancels cqe d.data_ w single c at phase no_operation in
        let moved = dispatch_owned-retired cqe d.data_ w single c at phase no_operation o there in
        subst (λ m. Returns m (λ (data', _). Inv (with_data d data') × OwnedInv data')) (sym moved)
          (
            exchanged-Inv (remains cqe d.data_ w single c at phase no_operation o there)
                (cancels cqe d.data_ w single c at phase no_operation)
                (λ p. ground (
                  arith,
                  remains-lookup cqe d.data_ w single c at phase no_operation o there p,
                  there,
                ))
                (λ p. ground (
                  arith,
                  cancels-lookup cqe d.data_ w single c at phase no_operation p,
                  at,
                  phase,
                )),
            subst (λ m. Returns m (λ (data', _). OwnedInv data')) moved
                (Returns-map (dispatch_owned cqe d.data_) _ _ books (λ a b. b.0)),
          )

  through_owned :
      (cqe : Cqe)
      → lookup cqe.user_data d.data_.contexts ≡ none
      → Returns
          (dispatch_owned cqe d.data_)
          (λ (data', _). Inv (with_data d data') × OwnedInv data')
      → Returns (dispatch cqe d) (λ (d', _, _). Inv d' × OwnedInv d'.data_)
  unfolding dispatch
  through_owned cqe e h =
      rw (e, Returns, dispatch)
        (Returns->>= (dispatch_owned cqe d.data_) _ _ _ h (λ (data', k) b. b))

  through_raw :
      (cqe : Cqe) (c : CqeContext)
      → lookup cqe.user_data d.data_.contexts ≡ some c
      → Returns (dispatch_raw cqe d) (λ (d', _). Inv d' × OwnedInv d'.data_)
      → Returns (dispatch cqe d) (λ (d', _, _). Inv d' × OwnedInv d'.data_)
  unfolding dispatch
  through_raw cqe c e h =
      rw (e, Returns, dispatch) (Returns->>= (dispatch_raw cqe d) _ _ _ h (λ (d', k) b. b))

  dispatch-Books :
      (cqe : Cqe)
      → OwnedInv d.data_
      → Expected cqe d
      → Returns (dispatch cqe d) (λ (d', _, _). Inv d' × OwnedInv d'.data_)
  dispatch-Books cqe w (of_entry c e) = through_raw cqe c e.found (
      raw-Books d (dispatch_raw cqe d) w (dispatch_raw-Inv cqe d c v e)
        (dispatch_raw-Leaves cqe d c v e))
  dispatch-Books cqe w (of_operation c none_raw at phase single) =
      through_owned cqe none_raw (owned-Books cqe w single c at phase)
  dispatch-Books cqe w (of_cancellation c none_raw no_operation at phase single) =
      through_owned cqe none_raw (cancelled-Books cqe w single c at phase no_operation)

follow :
    (cqes : List Cqe) (m : Outcome (Driver × Option SubmissionId × Completed))
    → Returns m (λ (d', _, _). Inv d' × OwnedInv d'.data_)
    → Later (AllExpected cqes) m
    → Returns m (λ (d', _, _). (Inv d' × OwnedInv d'.data_) × AllExpected cqes d')
follow cqes (done a) h k = (h, k)
follow cqes stop h k = h

-- When the books of both registries are right, and each completion is one that the kernel may give
-- once those before it are dispatched, all of them are dispatched without stopping the process, and
-- the books are right after that.
pub dispatch_all-Books :
    (cqes : List Cqe) (d : Driver)
    → Inv d
    → OwnedInv d.data_
    → AllExpected cqes d
    → Returns (dispatch_all cqes d) (λ (d', _, _). Inv d' × OwnedInv d'.data_)
unfolding dispatch_all
dispatch_all-Books [] d v w e = (v, w)
dispatch_all-Books (cqe ∷ cqes) d v w e =
    Returns->>= (dispatch cqe d) _ _ _
      (follow cqes (dispatch cqe d) (dispatch-Books d v cqe w e.0) e.1)
      (λ (d', o, k) (books, rest).
        Returns->>= (dispatch_all cqes d') _ _ _ (dispatch_all-Books cqes d' books.0 books.1 rest)
          (λ (d'', ss, cs) b. b))
