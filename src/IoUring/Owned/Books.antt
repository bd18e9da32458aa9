-- ===== src/IoUring/Owned/Books.antt =====
-- The books of the completion-native operations of src/io_uring.rs.
use nosv.Base.{
  ℕ, ◌+◌, ◌≡◌, refl, true, false, not, ◌&&◌, Option, none, some, List, [], ◌∷◌, to_ℕ, ◌==◌, arith,
  if◌then◌else◌, is_none, Bool-cases, inl, inr,
}
use nosv.Base.Outcome.{done, Returns}
use nosv.Base.Dict.{
  Dict, lookup, insert, erase, IsMap, total, Every, lookup-insert, lookup-erase, insert-IsMap,
  erase-IsMap, total-erase, Every-lookup, Every-insert, Every-erase,
}
use nosv.IoUring.Data.{
  Ptr, Cqe, Handler, OwnedCqeContext, OwnedCancelContext, submitted, terminal, DriverData,
  is_terminal,
}
use nosv.IoUring.Owned.{complete_owned, complete_owned_cancel, dispatch_owned}

abbrev pub aiming_owned : Ptr → OwnedCancelContext → ℕ
aiming_owned t c = to_ℕ (c.target == t)

abbrev pub queued_owned : Ptr → List Ptr → ℕ
queued_owned t [] = 0
queued_owned t (p ∷ ps) = to_ℕ (p == t) + queued_owned t ps

abbrev pub owed_owned : Option OwnedCqeContext → ℕ
owed_owned none = 0
owed_owned (some c) = to_ℕ (c.cancel_queued && not c.cancel_seen)

-- A context keeps its handler until its completion, and is kept after that only for a cancellation
-- that is on its way.
pub record IsSound (c : OwnedCqeContext) : Type 0 where
  pub held : is_terminal c.phase ≡ false → is_none c.handler ≡ false
  pub zombie :
      is_terminal c.phase ≡ true
      → (c.handler ≡ none) × (c.cancel_queued ≡ true) × (c.cancel_seen ≡ false)
  pub unseen : c.cancel_queued ≡ false → c.cancel_seen ≡ false

-- Every cancellation that is queued or with the kernel has its target in the registry, which waits for
-- it, and no target waits for two.
pub record OwnedInv (d : DriverData) : Type 0 where
  pub is_map : IsMap d.owned_contexts
  pub cancels_map : IsMap d.owned_cancel_contexts
  pub nonnull : (lookup 0 d.owned_contexts ≡ none) × (lookup 0 d.owned_cancel_contexts ≡ none)
  pub sound : Every IsSound d.owned_contexts
  pub aimed :
      (t : Ptr)
      → total (aiming_owned t) d.owned_cancel_contexts + queued_owned t d.owned_cancel_queue
        ≡ owed_owned (lookup t d.owned_contexts)

module _ (cqe : Cqe) (d : DriverData) (v : OwnedInv d) (single : cqe.more ≡ false) where
  module _ (c : OwnedCqeContext) (at : lookup cqe.user_data d.owned_contexts ≡ some c)
      (phase : c.phase ≡ submitted) where
    abbrev pub others : Dict OwnedCqeContext
    others = erase cqe.user_data d.owned_contexts

    abbrev pub kept : OwnedCqeContext
    kept = record c { phase = terminal; handler = none }

    abbrev pub left : Dict OwnedCqeContext
    left = if c.cancel_queued && not c.cancel_seen then insert cqe.user_data kept others else others

    pub left-lookup :
        (q : Ptr)
        → lookup q left ≡ (
            if cqe.user_data == q
            then (if c.cancel_queued && not c.cancel_seen then some kept else none)
            else lookup q d.owned_contexts)
    left-lookup q = ground (
      arith,
      lookup-erase cqe.user_data q d.owned_contexts v.is_map,
      lookup-insert cqe.user_data q kept others,
    )

    left-IsSound : Every IsSound left
    left-IsSound =
        let rest : Every IsSound others =
          Every-erase IsSound cqe.user_data d.owned_contexts v.sound in
        elim (Bool-cases (c.cancel_queued && not c.cancel_seen)) [
          | inl e ↦ rw e (
              Every-insert IsSound cqe.user_data kept others rest (record {
                held = λ h. ground arith;
                zombie = λ h. ground arith;
                unseen = λ h. ground arith;
              }))
          | inr e ↦ rw e rest
        ]

    left-OwnedInv : OwnedInv (record d { owned_contexts = left })
    left-OwnedInv = record {
      is_map = ground (
        arith,
        erase-IsMap cqe.user_data d.owned_contexts v.is_map,
        insert-IsMap cqe.user_data kept others,
      );
      cancels_map = v.cancels_map;
      nonnull = ground (arith, left-lookup 0, v.nonnull, at);
      sound = left-IsSound;
      aimed = λ t. ground (arith, v.aimed t, left-lookup t, at);
    }

    pub has_handler : (o : Option Handler) → c.handler ≡ o → (h : Handler) × (o ≡ some h)
    has_handler none e =
        absurd (ground (arith, Every-lookup IsSound cqe.user_data c d.owned_contexts v.sound at))
    has_handler (some h) e = (h, refl)

    pub dispatch_owned-completed :
        (h : Handler)
        → c.handler ≡ some h
        → dispatch_owned cqe d ≡ done (record d { owned_contexts = left }, some (h, cqe.result))
    unfolding dispatch_owned complete_owned
    dispatch_owned-completed h e = ground (arith, v.nonnull, at, phase, single)

    -- When the books are right and the kernel completes an operation that it has accepted, with one
    -- completion, the dispatch does not stop the process, hands out the handler of the operation
    -- with the result of the kernel, and leaves the books right, in which no completed operation has
    -- a handler any more.
    pub dispatch_owned-completes : Returns (dispatch_owned cqe d) (λ (d', completed).
        OwnedInv d' × ((h : Handler) × (c.handler ≡ some h) × (completed ≡ some (h, cqe.result))))
    dispatch_owned-completes =
        let (h, e) = has_handler c.handler refl in
        rw (dispatch_owned-completed h e) (left-OwnedInv, (h, e, refl))

  module _ (c : OwnedCancelContext) (at : lookup cqe.user_data d.owned_cancel_contexts ≡ some c)
      (phase : c.phase ≡ submitted)
      (no_operation : lookup cqe.user_data d.owned_contexts ≡ none) where
    abbrev pub cancels : Dict OwnedCancelContext
    cancels = erase cqe.user_data d.owned_cancel_contexts

    pub cancels-lookup :
        (q : Ptr)
        → lookup q cancels ≡ (if cqe.user_data == q then none else lookup q d.owned_cancel_contexts)
    cancels-lookup q = lookup-erase cqe.user_data q d.owned_cancel_contexts v.cancels_map

    cancels-total :
        (w : OwnedCancelContext → ℕ) → total w cancels + w c ≡ total w d.owned_cancel_contexts
    cancels-total w = total-erase w cqe.user_data c d.owned_cancel_contexts at

    module _ (o : OwnedCqeContext) (there : lookup c.target d.owned_contexts ≡ some o) where
      abbrev pub remains : Dict OwnedCqeContext
      remains =
          if is_terminal o.phase
          then erase c.target d.owned_contexts
          else insert c.target (record o { cancel_seen = true }) d.owned_contexts

      o-IsSound : IsSound o
      o-IsSound = Every-lookup IsSound c.target o d.owned_contexts v.sound there

      awaited : (o.cancel_queued ≡ true) × (o.cancel_seen ≡ false)
      awaited = ground (arith, v.aimed c.target, cancels-total (aiming_owned c.target), there)

      pub remains-lookup :
          (q : Ptr)
          → lookup q remains ≡ (
              if c.target == q
              then (if is_terminal o.phase then none else some (record o { cancel_seen = true }))
              else lookup q d.owned_contexts)
      remains-lookup q = ground (
        arith,
        lookup-erase c.target q d.owned_contexts v.is_map,
        lookup-insert c.target q (record o { cancel_seen = true }) d.owned_contexts,
      )

      remains-IsSound : Every IsSound remains
      remains-IsSound = elim (Bool-cases (is_terminal o.phase)) [
        | inl e ↦ rw e (Every-erase IsSound c.target d.owned_contexts v.sound)
        | inr e ↦ rw e (
            Every-insert IsSound c.target (record o { cancel_seen = true }) d.owned_contexts v.sound
              (ground (arith, o-IsSound, awaited, e)))
      ]

      remains-OwnedInv :
          OwnedInv (record d { owned_contexts = remains; owned_cancel_contexts = cancels })
      remains-OwnedInv = record {
        is_map = ground (
          arith,
          erase-IsMap c.target d.owned_contexts v.is_map,
          insert-IsMap c.target (record o { cancel_seen = true }) d.owned_contexts v.is_map,
        );
        cancels_map = erase-IsMap cqe.user_data d.owned_cancel_contexts v.cancels_map;
        nonnull = ground (arith, remains-lookup 0, cancels-lookup 0, v.nonnull, there);
        sound = remains-IsSound;
        aimed = λ t.
            ground
              (arith, v.aimed t, cancels-total (aiming_owned t), remains-lookup t, there, awaited);
      }

      pub dispatch_owned-retired :
          dispatch_owned cqe d
          ≡ done (record d { owned_contexts = remains; owned_cancel_contexts = cancels }, none)
      unfolding dispatch_owned complete_owned_cancel
      dispatch_owned-retired = ground (arith, v.nonnull, at, phase, single, no_operation, there)

    pub target_there :
        (o : Option OwnedCqeContext)
        → lookup c.target d.owned_contexts ≡ o
        → (u : OwnedCqeContext) × (o ≡ some u)
    target_there none e =
        absurd (ground (arith, v.aimed c.target, cancels-total (aiming_owned c.target), e))
    target_there (some o) e = (o, refl)

    -- When the books are right and the kernel completes a cancellation that it has accepted, with one
    -- completion, the dispatch finds the target, does not stop the process, hands out no handler,
    -- and leaves the books right.
    pub dispatch_owned-cancels :
        Returns (dispatch_owned cqe d) (λ (d', completed). OwnedInv d' × (completed ≡ none))
    dispatch_owned-cancels =
        let (o, there) = target_there (lookup c.target d.owned_contexts) refl in
        rw (dispatch_owned-retired o there) (remains-OwnedInv o there, refl)
