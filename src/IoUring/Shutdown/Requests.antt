-- ===== src/IoUring/Shutdown/Requests.antt =====
-- The requests that the shutdown of the ring driver of src/io_uring.rs makes.
use nosv.Base.{
  ℕ, ◌+◌, ◌≡◌, ◌≤◌, refl, true, Option, none, some, List, [], ◌∷◌, ◌++◌, to_ℕ, ◌==◌, arith,
}
use nosv.Base.Outcome.{Returns}
use nosv.Base.Dict.{Dict, lookup, insert, total, total-insert, lookup-insert}
use nosv.IoUring.Data.{Ptr, ControlId, OwnedCqeContext, DriverData, Driver}
use nosv.IoUring.Owned.{is_owned_target, find_owned, request_owned_cancel}
use nosv.IoUring.Owned.Books.{OwnedInv}
use nosv.IoUring.Owned.Requests.{find_owned-found, request_owned_cancel-OwnedInv}
use nosv.IoUring.Ledger.{Inv}
use nosv.IoUring.Ledger.Staging.{with_data}
use nosv.IoUring.Shutdown.{live_controls}

-- The contexts of an operation that no cancellation is asked for.
abbrev pub unasked : ControlId → OwnedCqeContext → ℕ
unasked k c = to_ℕ (is_owned_target k c)

abbrev pub count : ControlId → List ControlId → ℕ
count k [] = 0
count k (c ∷ cs) = to_ℕ (c == k) + count k cs

pub live_controls-count :
    (k : ControlId) (d : Dict OwnedCqeContext) → total (unasked k) d ≤ count k (live_controls d)
unfolding live_controls
live_controls-count k [] = omega arith
live_controls-count k ((p, c) ∷ d) = ground (arith, live_controls-count k d)

find_owned-none :
    (k : ControlId) (d : Dict OwnedCqeContext) → find_owned k d ≡ none → total (unasked k) d ≡ 0
unfolding find_owned
find_owned-none k [] e = refl
find_owned-none k ((p, c) ∷ d) e = ground (arith, find_owned-none k d)

-- What a request for one operation does to the books of the driver and to the number of contexts that
-- no cancellation is asked for.
pub record Asked (control : ControlId) (d : Driver) (data' : DriverData) : Type 0 where
  pub owned : OwnedInv data'
  pub books : Inv (with_data d data')
  pub fewer :
      (k : ControlId) (n : ℕ)
      → total (unasked k) d.data_.owned_contexts ≤ to_ℕ (control == k) + n
      → total (unasked k) data'.owned_contexts ≤ n
  pub contexts : data'.contexts ≡ d.data_.contexts
  pub flags : (data'.accepting ≡ d.data_.accepting) × (data'.shutdown ≡ d.data_.shutdown)

module _ (control : ControlId) (d : Driver) (v : Inv d) (w : OwnedInv d.data_) where
  module _ (p : Ptr) (c : OwnedCqeContext) (at : lookup p d.data_.owned_contexts ≡ some c)
      (target : is_owned_target control c ≡ true) where
    abbrev requested : OwnedCqeContext
    requested = record c { cancel_queued = true }

    requested-fewer :
        (k : ControlId) (n : ℕ)
        → total (unasked k) d.data_.owned_contexts ≤ to_ℕ (control == k) + n
        → total (unasked k) (insert p requested d.data_.owned_contexts) ≤ n
    requested-fewer k n h =
        ground (arith, target, h, total-insert (unasked k) p requested c d.data_.owned_contexts at)

    requested-Inv : Inv (
        with_data d (record d.data_ {
          owned_contexts = insert p requested d.data_.owned_contexts;
          owned_cancel_queue = d.data_.owned_cancel_queue ++ p ∷ [];
        }))
    requested-Inv = record {
      is_map = v.is_map;
      nonnull = v.nonnull;
      sound = v.sound;
      balanced = v.balanced;
      aimed = v.aimed;
      in_order = v.in_order;
      owned_order = λ q.
          ground (arith, v.owned_order q, lookup-insert p q requested d.data_.owned_contexts, at);
      cancel_order = v.cancel_order;
    }

  found-Asked :
      (o : Option Ptr)
      → find_owned control d.data_.owned_contexts ≡ o
      → Returns (request_owned_cancel control d.data_) OwnedInv
      → Returns (request_owned_cancel control d.data_) (Asked control d)
  unfolding request_owned_cancel
  found-Asked none e h =
      rw (e, Returns, request_owned_cancel)
        (record {
          owned = w;
          books = v;
          fewer = λ k n le. ground (arith, find_owned-none control d.data_.owned_contexts e);
          contexts = refl;
          flags = (refl, refl);
        })
  found-Asked (some p) e h =
      let (c, at, target) = find_owned-found control d.data_.owned_contexts p w.is_map e in
      rw (e, at, Returns, request_owned_cancel)
        (record {
          owned = ground (arith, h, e, at);
          books = requested-Inv p c at target;
          fewer = requested-fewer p c at target;
          contexts = refl;
          flags = (refl, refl);
        })

  pub request_owned_cancel-Asked : Returns (request_owned_cancel control d.data_) (Asked control d)
  request_owned_cancel-Asked =
      found-Asked (find_owned control d.data_.owned_contexts) refl
        (request_owned_cancel-OwnedInv control d.data_ w)
