-- ===== src/IoUring/Shutdown/Closing.antt =====
-- What the shutdown of the ring driver of src/io_uring.rs leaves.
use nosv.Base.{
  ℕ, ◌+◌, ◌≡◌, ◌≤◌, refl, ap, sym, subst, ◌∙◌, Bool, true, false, ◌||◌, Option, none, some, List,
  [], ◌∷◌, ◌==◌, arith, Bool-cases, inl, inr, ◌⊎◌,
}
use nosv.Base.Outcome.{Returns, Returns->>=, Returns-map}
use nosv.Base.Dict.{Dict, lookup, total}
use nosv.IoUring.Data.{Ptr, SubmissionId, ControlId, CqeContext, Driver, detached, inner_of}
use nosv.IoUring.Cancel.{mark, is_target, close_delivery, request_cancel}
use nosv.IoUring.Gate.{Wake, submit, submit_deadline_wake, notify}
use nosv.IoUring.Owned.{request_owned_cancel}
use nosv.IoUring.Owned.Books.{OwnedInv}
use nosv.IoUring.Ledger.{Inv}
use nosv.IoUring.Ledger.Requests.{request_cancel-Inv, lookup-mark}
use nosv.IoUring.Ledger.Staging.{with_data}
use nosv.IoUring.Shutdown.{Shared, notified, detach_all, cancel_owned, cancel_all, upgraded}
use nosv.IoUring.Shutdown.Requests.{unasked, count, Asked, request_owned_cancel-Asked}

-- What holds throughout a shutdown.
pub record Closing (x : Shared) : Type 0 where
  pub books : Inv x.driver
  pub owned : OwnedInv x.driver.data_
  pub descriptor : x.gate.raw ≡ true
  pub refuses : (x.owned_admission ≡ false) × (x.driver.data_.accepting ≡ false)
  pub announced : x.driver.data_.shutdown ≡ true

-- No entry of the submission still waits for a cancellation to be asked for, and nobody is given its
-- completions.
pub record IsDetached (s : SubmissionId) (d : Driver) : Type 0 where
  pub asked :
      (p : Ptr) (c : CqeContext) → lookup p d.data_.contexts ≡ some c → is_target s c ≡ false
  pub emptied :
      ((inner_of d s).delivery ≡ detached)
      × ((inner_of d s).normal ≡ [])
      × ((inner_of d s).cancellations ≡ [])

pub detach-asked :
    (s u : SubmissionId) (p : Ptr) (c : CqeContext) (contexts : Dict CqeContext)
    (o : Option CqeContext)
    → lookup p contexts ≡ o
    → lookup p (mark u contexts) ≡ some c
    → (s ≡ u) ⊎ ((c : CqeContext) → o ≡ some c → is_target s c ≡ false)
    → is_target s c ≡ false
detach-asked s u p c contexts none e h k = absurd (ground (arith, lookup-mark u p contexts))
detach-asked s u p c contexts (some b) e h (inl k) = ground (arith, lookup-mark u p contexts)
detach-asked s u p c contexts (some b) e h (inr k) =
    ground (arith, lookup-mark u p contexts, k b refl)

module _ (s u : SubmissionId) (d : Driver) where
  detach-emptied :
      (s ≡ u) ⊎ IsDetached s d
      → let i = inner_of (request_cancel u detached d) s in
        (i.delivery ≡ detached) × (i.normal ≡ []) × (i.cancellations ≡ [])
  unfolding request_cancel close_delivery
  detach-emptied (inl k) = ground (arith, k)
  detach-emptied (inr k) = ground (arith, k.emptied)

  detach-IsDetached : (s ≡ u) ⊎ IsDetached s d → IsDetached s (request_cancel u detached d)
  unfolding request_cancel
  detach-IsDetached (inl k) = record {
    asked = λ p c e. detach-asked s u p c d.data_.contexts _ refl e (inl k);
    emptied = detach-emptied (inl k);
  }
  detach-IsDetached (inr k) = record {
    asked = λ p c e. detach-asked s u p c d.data_.contexts _ refl e (inr (k.asked p));
    emptied = detach-emptied (inr k);
  }

abbrev pub listed : SubmissionId → List SubmissionId → Bool
listed s [] = false
listed s (u ∷ us) = (u == s) || listed s us

listed-cases :
    (s u : SubmissionId) (us : List SubmissionId)
    → listed s (u ∷ us) ≡ true
    → (s ≡ u) ⊎ (listed s us ≡ true)
listed-cases s u us h = elim (Bool-cases (u == s)) [
  | inl e ↦ inl (ground arith)
  | inr e ↦ inr (ground (arith, e))
]

pub listed-upgraded :
    (alive : SubmissionId → Bool) (s : SubmissionId) (ss : List SubmissionId)
    → alive s ≡ true
    → listed s (upgraded alive ss) ≡ listed s ss
unfolding upgraded
listed-upgraded alive s [] h = refl
listed-upgraded alive s (u ∷ ss) h = elim (Bool-cases (u == s)) [
  | inl e ↦ let equal : u ≡ s = ground (arith, e) in ground (arith, e, h, ap alive equal)
  | inr e ↦ ground (arith, e, listed-upgraded alive s ss h)
]

pub record Detached (ss : List SubmissionId) (x x' : Shared) : Type 0 where
  pub closing : Closing x'
  pub same : x'.driver.data_.owned_contexts ≡ x.driver.data_.owned_contexts
  pub each :
      (s : SubmissionId) → (listed s ss ≡ true) ⊎ IsDetached s x.driver → IsDetached s x'.driver

pub record Cancelled (cs : List ControlId) (x x' : Shared) : Type 0 where
  pub closing : Closing x'
  pub same :
      (x'.driver.data_.contexts ≡ x.driver.data_.contexts) × (x'.driver.states ≡ x.driver.states)
  pub fewer :
      (k : ControlId) (n : ℕ)
      → total (unasked k) x.driver.data_.owned_contexts ≤ count k cs + n
      → total (unasked k) x'.driver.data_.owned_contexts ≤ n

module _ (accepts : Wake → Bool) (wakes : (w : Wake) → accepts w ≡ true) where
  pub notified-Closing :
      (x : Shared)
      → Closing x
      → Returns
          (notified accepts x)
          (λ x'. Closing x' × (x'.driver ≡ x.driver) × (x'.gate.notified ≡ true))
  unfolding notified notify
  notified-Closing x v = ground (arith, wakes submit, wakes submit_deadline_wake, v)

  Closing-detach :
      (u : SubmissionId) (x : Shared)
      → Closing x
      → Closing (record x { driver = request_cancel u detached x.driver })
  unfolding request_cancel
  Closing-detach u x v = record {
    books = request_cancel-Inv u detached x.driver v.books;
    owned = record {
      is_map = v.owned.is_map;
      cancels_map = v.owned.cancels_map;
      nonnull = v.owned.nonnull;
      sound = v.owned.sound;
      aimed = v.owned.aimed;
    };
    descriptor = v.descriptor;
    refuses = v.refuses;
    announced = v.announced;
  }

  pub detach_all-Detached :
      (ss : List SubmissionId) (x : Shared)
      → Closing x
      → Returns (detach_all accepts ss x) (Detached ss x)
  unfolding detach_all request_cancel
  detach_all-Detached [] x v = record {
    closing = v;
    same = refl;
    each = λ s h. elim h [ inl e ↦ absurd (ground arith) | inr k ↦ k ];
  }
  detach_all-Detached (u ∷ ss) x v =
      Returns->>= (notified accepts (record x { driver = request_cancel u detached x.driver })) _ _
        _ (notified-Closing _ (Closing-detach u x v))
        (λ y (w, same, _).
          Returns-map (detach_all accepts ss y) _ _ (detach_all-Detached ss y w) (λ x' r. record {
            closing = r.closing;
            same = r.same ∙ ap (λ d. d.data_.owned_contexts) same;
            each = λ s h. r.each s (elim h [
              | inl e ↦ elim (listed-cases s u ss e) [
                | inl k ↦
                    inr (subst (IsDetached s) (sym same) (detach-IsDetached s u x.driver (inl k)))
                | inr k ↦ inl k
              ]
              | inr k ↦
                  inr (subst (IsDetached s) (sym same) (detach-IsDetached s u x.driver (inr k)))
            ]);
          }))

  cancel_owned-Asked :
      (c : ControlId) (x : Shared)
      → Closing x
      → Returns (cancel_owned accepts c x) (λ x'.
        Closing x' × Asked c x.driver x'.driver.data_ × (x'.driver.states ≡ x.driver.states))
  unfolding cancel_owned
  cancel_owned-Asked c x v =
      Returns->>= (request_owned_cancel c x.driver.data_) _ _ _
        (request_owned_cancel-Asked c x.driver v.books v.owned)
        (λ data' a.
          Returns-map (notified accepts (record x { driver = with_data x.driver data' })) _ _
            (notified-Closing _ (record {
              books = a.books;
              owned = a.owned;
              descriptor = v.descriptor;
              refuses = (v.refuses.0, a.flags.0 ∙ v.refuses.1);
              announced = a.flags.1 ∙ v.announced;
            }))
            (λ x' (w, same, _).
              (w, subst (λ d. Asked c x.driver d.data_) (sym same) a, ap (λ d. d.states) same)))

  pub cancel_all-Cancelled :
      (cs : List ControlId) (x : Shared)
      → Closing x
      → Returns (cancel_all accepts cs x) (Cancelled cs x)
  unfolding cancel_all
  cancel_all-Cancelled [] x v = record {
    closing = v;
    same = (refl, refl);
    fewer = λ k n h. omega (arith, h);
  }
  cancel_all-Cancelled (c ∷ cs) x v =
      Returns->>= (cancel_owned accepts c x) _ _ _ (cancel_owned-Asked c x v) (λ y (w, a, states).
        Returns-map (cancel_all accepts cs y) _ _ (cancel_all-Cancelled cs y w) (λ x' r. record {
          closing = r.closing;
          same = (r.same.0 ∙ a.contexts, r.same.1 ∙ states);
          fewer = λ k n h. r.fewer k n (a.fewer k (count k cs + n) (omega (arith, h)));
        }))
