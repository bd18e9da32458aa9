-- ===== src/IoUring/Data.antt =====
-- The state of the ring driver of src/io_uring.rs. A pointer of a boxed context, a submission shared
-- by `Arc`, an `Arc<OwnedControl>` and a waker are known by numbers.
use nosv.Base.{ℕ, Bool, true, false, Option, none, List, [], ◌==◌, if◌then◌else◌}
use nosv.Base.Int.{ℤ}
use nosv.Base.Dict.{Dict}

abbrev pub Ptr : Type 0
Ptr = ℕ

abbrev pub SubmissionId : Type 0
SubmissionId = ℕ

abbrev pub ControlId : Type 0
ControlId = ℕ

abbrev pub Waker : Type 0
Waker = ℕ

-- `more` is what `cqueue::more` reads from the flags.
pub record Cqe : Type 0 where
  pub user_data : ℕ
  pub result : ℤ
  pub more : Bool

-- What an entry asks of the kernel: an operation of the caller, or the cancellation of a context.
pub data Opcode : Type 0 where
  operation : ℕ → Opcode
  async_cancel : Ptr → Opcode

pub record Sqe : Type 0 where
  pub user_data : ℕ
  pub opcode : Opcode

-- The submission queue: its free slots and the entries pushed by now, newest first.
pub record SubmissionQueue : Type 0 where
  pub free : ℕ
  pub pushed : List Sqe

pub record Completion : Type 0 where
  pub index : ℕ
  pub cqe : Cqe

pub data Delivery : Type 0 where
  open_ cancelling overflow detached : Delivery

pub record SubmissionInner : Type 0 where
  pub delivery : Delivery
  pub normal : List Completion
  pub cancellations : List Completion
  pub normal_overflow : Bool
  pub cancel_overflow : Bool
  pub iterator_finished : Bool
  pub originals : ℕ
  pub accepted : ℕ
  pub original_terminal : ℕ
  pub cancels : ℕ
  pub cancel_terminal : ℕ
  pub admission_waker : Option Waker
  pub normal_waker : Option Waker
  pub cancel_waker : Option Waker
  pub drain_waker : Option Waker

pub record SubmissionState : Type 0 where
  pub inner : SubmissionInner
  pub limit : ℕ

-- `SubmissionState::new`
abbrev pub new_state : ℕ → SubmissionState
new_state limit = record {
  limit = limit;
  inner = record {
    delivery = open_;
    normal = [];
    cancellations = [];
    normal_overflow = false;
    cancel_overflow = false;
    iterator_finished = false;
    originals = 0;
    accepted = 0;
    original_terminal = 0;
    cancels = 0;
    cancel_terminal = 0;
    admission_waker = none;
    normal_waker = none;
    cancel_waker = none;
    drain_waker = none;
  };
}

pub data ContextKind : Type 0 where
  original cancel : ContextKind

-- `unsubmitted` is the source's `Staged`.
pub data ContextPhase : Type 0 where
  unsubmitted submitted terminal : ContextPhase

pub record CqeContext : Type 0 where
  pub kind : ContextKind
  pub phase : ContextPhase
  pub index : ℕ
  pub original_user_data : ℕ
  pub state : SubmissionId
  pub target : Option Ptr
  pub cancel_queued : Bool
  pub cancel_seen : Bool

pub record CancelCommand : Type 0 where
  pub target : Ptr
  pub index : ℕ
  pub original_user_data : ℕ
  pub state : SubmissionId

-- The operation that an owned future hands over: the opcode that the probe is asked for, and the
-- number by which its resources and its result slot are known.
pub record Handler : Type 0 where
  pub id : ℕ
  pub opcode : ℕ

pub record QueuedOwnedOp : Type 0 where
  pub control : ControlId
  pub handler : Handler

pub record OwnedCqeContext : Type 0 where
  pub phase : ContextPhase
  pub control : ControlId
  pub handler : Option Handler
  pub cancel_queued : Bool
  pub cancel_seen : Bool

-- `OwnedCancelCommand` is its target alone.
pub record OwnedCancelContext : Type 0 where
  pub phase : ContextPhase
  pub target : Ptr

pub data StagedContext : Type 0 where
  raw owned owned_cancel : Ptr → StagedContext

pub record DriverData : Type 0 where
  pub contexts : Dict CqeContext
  pub staged : List StagedContext
  pub cancel_queue : List CancelCommand
  pub owned_contexts : Dict OwnedCqeContext
  pub owned_cancel_contexts : Dict OwnedCancelContext
  pub owned_pending : List QueuedOwnedOp
  pub owned_cancel_queue : List Ptr
  pub submissions : List SubmissionId
  pub accepting : Bool
  pub shutdown : Bool

-- The driver with the submissions it shares with its callers, and the wakers collected by a pass,
-- newest first.
pub record Driver : Type 0 where
  pub data_ : DriverData
  pub states : SubmissionId → SubmissionState
  pub wakes : List Waker

abbrev pub update {ℓ} : {A : Type ℓ} → (ℕ → A) → ℕ → A → ℕ → A
update f k v j = if k == j then v else f j

abbrev pub inner_of : Driver → SubmissionId → SubmissionInner
inner_of d s = (d.states s).inner

abbrev pub set_inner : SubmissionId → SubmissionInner → Driver → Driver
set_inner s i d = record d {
  states = update d.states s (record { inner = i; limit = (d.states s).limit });
}

abbrev pub is_open : Delivery → Bool
is_open open_ = true
is_open _ = false

abbrev pub is_detached : Delivery → Bool
is_detached detached = true
is_detached _ = false

abbrev pub is_original : ContextKind → Bool
is_original original = true
is_original cancel = false

abbrev pub is_terminal : ContextPhase → Bool
is_terminal terminal = true
is_terminal _ = false

abbrev pub is_staged : ContextPhase → Bool
is_staged unsubmitted = true
is_staged _ = false

abbrev pub is_submitted : ContextPhase → Bool
is_submitted submitted = true
is_submitted _ = false
