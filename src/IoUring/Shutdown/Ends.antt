-- ===== src/IoUring/Shutdown/Ends.antt =====
-- The whole shutdown of the ring driver of src/io_uring.rs, up to its wait.
use nosv.Base.{
  ◌+◌, ◌≡◌, ◌≤◌, refl, ap, sym, subst, ◌∙◌, Bool, true, false, some, List, [], arith, inl,
}
use nosv.Base.Outcome.{done, Returns, Returns->>=, Returns-map, ◌>>=◌}
use nosv.Base.Result.{err}
use nosv.Base.Dict.{lookup, total, le-total}
use nosv.IoUring.Data.{
  Ptr, SubmissionId, ControlId, OwnedCqeContext, QueuedOwnedOp, Driver, detached,
}
use nosv.IoUring.Gate.{Wake}
use nosv.IoUring.Owned.{is_owned_target}
use nosv.IoUring.Owned.Books.{OwnedInv}
use nosv.IoUring.Ledger.{Inv}
use nosv.IoUring.Shutdown.{
  Shared, notified, enqueue, detach_all, cancel_all, upgraded, live_controls, closed,
  shutdown_and_wait,
}
use nosv.IoUring.Shutdown.Requests.{unasked, count, live_controls-count}
use nosv.IoUring.Shutdown.Closing.{
  Closing, IsDetached, listed, listed-upgraded, Detached, Cancelled, notified-Closing,
  detach_all-Detached, cancel_all-Cancelled,
}

-- A driver that is shut down: it refuses and announces, its descriptor has been told, each submission
-- that its holder still had is detached, and no operation that is not completed still waits for
-- a cancellation to be asked for.
pub record Closes (accepts : Wake → Bool) (alive : SubmissionId → Bool) (x x' : Shared)
    : Type 0 where
  pub closing : Closing x'
  pub told : x'.gate.notified ≡ true
  pub detached_ :
      (s : SubmissionId)
      → alive s ≡ true
      → listed s x.driver.data_.submissions ≡ true
      → IsDetached s x'.driver
  pub asked :
      (p : Ptr) (c : OwnedCqeContext)
      → lookup p x'.driver.data_.owned_contexts ≡ some c
      → is_owned_target c.control c ≡ false
  pub refused : (op : QueuedOwnedOp) → enqueue accepts op x' ≡ done (err op, x')

module _ (accepts : Wake → Bool) (wakes : (w : Wake) → accepts w ≡ true)
    (alive : SubmissionId → Bool) (x : Shared) (v : Inv x.driver) (w : OwnedInv x.driver.data_)
    (descriptor : x.gate.raw ≡ true) where
  closed-Closing : Closing (closed x)
  closed-Closing = record {
    books = record {
      is_map = v.is_map;
      nonnull = v.nonnull;
      sound = v.sound;
      balanced = v.balanced;
      aimed = v.aimed;
      in_order = v.in_order;
      owned_order = v.owned_order;
      cancel_order = v.cancel_order;
    };
    owned = record {
      is_map = w.is_map;
      cancels_map = w.cancels_map;
      nonnull = w.nonnull;
      sound = w.sound;
      aimed = w.aimed;
    };
    descriptor = descriptor;
    refuses = (refl, refl);
    announced = refl;
  }

  abbrev submissions : List SubmissionId
  submissions = upgraded alive x.driver.data_.submissions

  abbrev controls : List ControlId
  controls = live_controls x.driver.data_.owned_contexts

  IsDetached-same :
      (s : SubmissionId) (d d' : Driver)
      → d'.data_.contexts ≡ d.data_.contexts
      → d'.states ≡ d.states
      → IsDetached s d
      → IsDetached s d'
  IsDetached-same s d d' e f h = record {
    asked = λ p c q. h.asked p c (ap (lookup p) (sym e) ∙ q);
    emptied =
        subst
          (λ states.
            let i = (states s).inner in
            (i.delivery ≡ detached) × (i.normal ≡ []) × (i.cancellations ≡ []))
          (sym f) h.emptied;
  }

  none_unasked :
      (y z : Shared)
      → Detached submissions (closed x) y
      → Cancelled controls y z
      → (p : Ptr) (c : OwnedCqeContext) → lookup p z.driver.data_.owned_contexts ≡ some c
      → is_owned_target c.control c ≡ false
  none_unasked y z h k p c e =
      let start : total (unasked c.control) y.driver.data_.owned_contexts
          ≤ count c.control controls + 0 =
        omega (
          arith,
          live_controls-count c.control x.driver.data_.owned_contexts,
          ap (total (unasked c.control)) h.same,
        ) in
      ground (
        arith,
        k.fewer c.control 0 start,
        le-total (unasked c.control) p c z.driver.data_.owned_contexts e,
      )

  ended-Closes :
      (y z x' : Shared)
      → Detached submissions (closed x) y
      → Cancelled controls y z
      → Closing x'
      → x'.driver ≡ z.driver
      → x'.gate.notified ≡ true
      → Closes accepts alive x x'
  unfolding enqueue
  ended-Closes y z x' h k c same told = record {
    closing = c;
    told = told;
    detached_ = λ s a l.
        IsDetached-same s y.driver x'.driver (ap (λ d. d.data_.contexts) same ∙ k.same.0)
          (ap (λ d. d.states) same ∙ k.same.1)
          (h.each s (inl (listed-upgraded alive s x.driver.data_.submissions a ∙ l)));
    asked = λ p o e.
        none_unasked y z h k p o (ap (λ d. lookup p d.data_.owned_contexts) (sym same) ∙ e);
    refused = λ op. ground (arith, c.refuses);
  }

  -- When the books are right, the driver has its descriptor and native wakes succeed, the shutdown gets
  -- to its wait without stopping the process: the books stay right, nothing is admitted any more,
  -- the driver is told, every submission that is still held is detached with its completions
  -- dropped, and a cancellation is asked for every entry of these submissions and every operation
  -- that is not completed.
  pub shutdown_and_wait-Closes :
      Returns (shutdown_and_wait accepts alive x) (Closes accepts alive x)
  unfolding shutdown_and_wait
  shutdown_and_wait-Closes =
      Returns->>= (detach_all accepts submissions (closed x) >>= cancel_all accepts controls) _
        (λ z. (y : Shared) × Detached submissions (closed x) y × Cancelled controls y z) _
        (Returns->>= (detach_all accepts submissions (closed x)) _ _ _
          (detach_all-Detached accepts wakes submissions (closed x) closed-Closing)
          (λ y h.
            Returns-map (cancel_all accepts controls y) _ _
              (cancel_all-Cancelled accepts wakes controls y h.closing) (λ z k. (y, h, k))))
        (λ z (y, h, k).
          Returns-map (notified accepts z) _ _ (notified-Closing accepts wakes z k.closing)
            (λ x' (c, same, told). ended-Closes y z x' h k c same told))
