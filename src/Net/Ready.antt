-- ===== src/Net/Ready.antt =====
-- The borrowed reads and writes of src/net.rs with the feature `tokio-compat`. `K` is the state of the
-- system.
use nosv.Base.{
  ℕ, zero, suc, ◌≡◌, refl, sym, subst, ◌∙◌, Bool, true, false, Option, none, some, List, [], ◌++◌,
  length, take, drop, is_empty, arith, is_none, Bool-cases, inl, inr,
}
use nosv.Base.Result.{Result, ok, err}
use nosv.Io.{IoError}
use nosv.Io.Op.{Poll, pending, ready}

-- `ReadyLane`: the waiting operation, known by a number.
pub record ReadyLane : Type 0 where
  pub events : ℕ
  pub operation : Option ℕ

module _ {K : Type 0} (new_op : K → ℕ → K × ℕ)
    (poll_op : K → ℕ → K × Poll (Result (Unit {0}) IoError)) where
  -- `ReadyLane::poll`: an operation is made unless one is there, and is kept while it is pending.
  unfoldable pub poll_lane : K → ReadyLane → K × ReadyLane × Poll (Result (Unit {0}) IoError)
  poll_lane k lane =
      let started : K × ℕ = elim lane.operation [
        | none ↦ new_op k lane.events
        | some op ↦ (k, op)
      ] in
      let (k', polled) = poll_op started.0 started.1 in
      elim polled [
        | pending ↦ (k', record lane { operation = some started.1 }, pending)
        | ready r ↦ (k', record lane { operation = none }, ready r)
      ]

  module _ (would_block interrupted : IoError → Bool) (call : K → ℕ → K × Result ℕ IoError) where
    -- `poll_write`: `call` is the nonblocking `send` of `len` bytes. `none`: the fuel ran out.
    unfoldable pub poll_write :
        ℕ → K → ℕ → ReadyLane → Option (K × ReadyLane × Poll (Result ℕ IoError))
    unfolding poll_lane
    poll_write zero k len lane = none
    poll_write (suc fuel) k len lane =
        let (k1, answer) = call k len in
        elim answer [
          | ok n ↦ some (k1, lane, ready (ok n))
          | err e ↦ elim (interrupted e) [
            | true ↦ poll_write fuel k1 len lane
            | false ↦ elim (would_block e) [
              | false ↦ some (k1, lane, ready (err e))
              | true ↦
                  let (k2, lane', waited) = poll_lane k1 lane in
                  elim waited [
                    | pending ↦ some (k2, lane', pending)
                    | ready (err e') ↦ some (k2, lane', ready (err e'))
                    | ready (ok _) ↦ poll_write fuel k2 len lane'
                  ]
            ]
          ]
        ]

-- `tokio::io::ReadBuf`: the filled bytes, and the memory of the unfilled part.
pub record ReadBuf : Type 0 where
  pub filled : List ℕ
  pub unfilled : List ℕ

-- `assume_init` and `advance`
abbrev pub advance : ℕ → ReadBuf → ReadBuf
advance n b = record { filled = b.filled ++ take n b.unfilled; unfilled = drop n b.unfilled }

-- `call` is the nonblocking `recv` into the unfilled part: it answers with what that memory holds then.
module _ {K : Type 0} (new_op : K → ℕ → K × ℕ)
    (poll_op : K → ℕ → K × Poll (Result (Unit {0}) IoError))
    (would_block interrupted : IoError → Bool)
    (call : K → List ℕ → K × List ℕ × Result ℕ IoError) where
  -- `none`: the fuel ran out.
  unfoldable pub poll_read :
      ℕ
      → K
      → ReadBuf
      → ReadyLane
      → Option (K × ReadBuf × ReadyLane × Poll (Result (Unit {0}) IoError))
  unfolding poll_lane
  poll_read zero k buf lane = none
  poll_read (suc fuel) k buf lane = elim (is_empty buf.unfilled) [
    | true ↦ some (k, buf, lane, ready (ok tt))
    | false ↦
        let (k1, memory, answer) = call k buf.unfilled in
        let buf1 : ReadBuf = record buf { unfilled = memory } in
        elim answer [
          | ok n ↦ some (k1, advance n buf1, lane, ready (ok tt))
          | err e ↦ elim (interrupted e) [
            | true ↦ poll_read fuel k1 buf1 lane
            | false ↦ elim (would_block e) [
              | false ↦ some (k1, buf1, lane, ready (err e))
              | true ↦
                  let (k2, lane', waited) = poll_lane new_op poll_op k1 lane in
                  elim waited [
                    | pending ↦ some (k2, buf1, lane', pending)
                    | ready (err e') ↦ some (k2, buf1, lane', ready (err e'))
                    | ready (ok _) ↦ poll_read fuel k2 buf1 lane'
                  ]
            ]
          ]
        ]
  ]

  -- What a successful call of the system puts into a buffer: the bytes that it says it has received, and
  -- nothing else, follow those that were there.
  pub data Filled (buf : ReadBuf) (k : K) (buf' : ReadBuf) : Type 0 where
    full : buf.unfilled ≡ [] → buf' ≡ buf → Filled buf k buf'
    received :
        (k0 : K) (memory : List ℕ) (n : ℕ)
        → length memory ≡ length buf.unfilled
        → (call k0 memory).2 ≡ ok n
        → (call k0 memory).0 ≡ k
        → buf'.filled ≡ buf.filled ++ take n (call k0 memory).1
        → buf'.unfilled ≡ drop n (call k0 memory).1
        → Filled buf k buf'

  abbrev pub Untouched : ReadBuf → ReadBuf → Type 0
  Untouched buf buf' = (buf'.filled ≡ buf.filled) × (length buf'.unfilled ≡ length buf.unfilled)

  -- What a poll does to a borrowed buffer.
  abbrev pub Borrows :
      ReadBuf → Option (K × ReadBuf × ReadyLane × Poll (Result (Unit {0}) IoError)) → Type 0
  Borrows buf none = Unit
  Borrows buf (some (k, buf', lane, pending)) =
      Untouched buf buf' × (is_none lane.operation ≡ false)
  Borrows buf (some (k, buf', lane, ready (err e))) = Untouched buf buf'
  Borrows buf (some (k, buf', lane, ready (ok _))) = Filled buf k buf'

  -- The call writes into the memory that it is given, and no further.
  abbrev pub StaysInside : Type 0
  StaysInside = (k : K) (memory : List ℕ) → length (call k memory).1 ≡ length memory

  pending_lane :
      (k : K) (lane : ReadyLane)
      → (poll_lane new_op poll_op k lane).2 ≡ pending
      → is_none (poll_lane new_op poll_op k lane).1.operation ≡ false
  unfolding poll_lane
  pending_lane k lane h = ground arith

  -- What is done after a call that gave nothing is done to the buffer before it.
  Filled-before :
      (buf : ReadBuf) (memory : List ℕ) (k : K) (buf' : ReadBuf)
      → is_empty buf.unfilled ≡ false
      → length memory ≡ length buf.unfilled
      → Filled (record buf { unfilled = memory }) k buf'
      → Filled buf k buf'
  Filled-before buf memory k buf' some_left l (full e q) = absurd (ground (arith, l))
  Filled-before buf memory k buf' some_left l (received k0 m n lm a b c d) =
      received k0 m n (lm ∙ l) a b c d

  Borrows-before :
      (buf : ReadBuf) (memory : List ℕ)
      (r : Option (K × ReadBuf × ReadyLane × Poll (Result (Unit {0}) IoError)))
      → is_empty buf.unfilled ≡ false
      → length memory ≡ length buf.unfilled
      → Borrows (record buf { unfilled = memory }) r
      → Borrows buf r
  Borrows-before buf memory none s l h = tt
  Borrows-before buf memory (some (k, buf', lane, pending)) s l h = ground (arith, h)
  Borrows-before buf memory (some (k, buf', lane, ready (err e))) s l h = ground (arith, h)
  Borrows-before buf memory (some (k, buf', lane, ready (ok _))) s l h =
      Filled-before buf memory k buf' s l h

  module _ (inside : StaysInside) (fuel : ℕ) (k : K) (buf : ReadBuf) (lane : ReadyLane)
      (some_left : is_empty buf.unfilled ≡ false)
      (later : (k' : K) (buf' : ReadBuf) (lane' : ReadyLane)
        → Borrows buf' (poll_read fuel k' buf' lane')) where
    abbrev k1 : K
    k1 = (call k buf.unfilled).0

    abbrev buf1 : ReadBuf
    buf1 = record buf { unfilled = (call k buf.unfilled).1 }

    abbrev waited : K × ReadyLane × Poll (Result (Unit {0}) IoError)
    waited = poll_lane new_op poll_op k1 lane

    abbrev Goal : Type 0
    Goal = Borrows buf (poll_read (suc fuel) k buf lane)

    goes_on :
        (k' : K) (lane' : ReadyLane)
        → poll_read (suc fuel) k buf lane ≡ poll_read fuel k' buf1 lane'
        → Goal
    goes_on k' lane' e =
        subst (Borrows buf) (sym e) (
          Borrows-before buf buf1.unfilled _ some_left (inside k buf.unfilled)
            (later k' buf1 lane'))

    after_wait :
        (e : IoError) (p : Poll (Result (Unit {0}) IoError))
        → (call k buf.unfilled).2 ≡ err e
        → interrupted e ≡ false
        → would_block e ≡ true
        → waited.2 ≡ p
        → Goal
    unfolding poll_read
    after_wait e pending a i b q =
        let ends : poll_read (suc fuel) k buf lane ≡ some (waited.0, buf1, waited.1, pending) =
          ground (arith, some_left, a, i, b, q) in
        subst (Borrows buf) (sym ends) ((refl, inside k buf.unfilled), pending_lane k1 lane q)
    after_wait e (ready (err e')) a i b q =
        let ends : poll_read (suc fuel) k buf lane
            ≡ some (waited.0, buf1, waited.1, ready (err e')) =
          ground (arith, some_left, a, i, b, q) in
        subst (Borrows buf) (sym ends) (refl, inside k buf.unfilled)
    after_wait e (ready (ok _)) a i b q =
        goes_on waited.0 waited.1 (ground (arith, some_left, a, i, b, q))

    after_call : (q : Result ℕ IoError) → (call k buf.unfilled).2 ≡ q → Goal
    unfolding poll_read
    after_call (ok n) a =
        let ends : poll_read (suc fuel) k buf lane
            ≡ some (k1, advance n buf1, lane, ready (ok tt)) =
          ground (arith, some_left, a) in
        subst (Borrows buf) (sym ends) (received k buf.unfilled n refl a refl refl refl)
    after_call (err e) a = elim (Bool-cases (interrupted e)) [
      | inl i ↦ goes_on k1 lane (ground (arith, some_left, a, i))
      | inr i ↦ elim (Bool-cases (would_block e)) [
        | inl b ↦ after_wait e waited.2 a i b refl
        | inr b ↦
            let ends : poll_read (suc fuel) k buf lane ≡ some (k1, buf1, lane, ready (err e)) =
              ground (arith, some_left, a, i, b) in
            subst (Borrows buf) (sym ends) (refl, inside k buf.unfilled)
      ]
    ]

  -- A borrowed read that is pending or fails has left the filled bytes as they were and a pending one has
  -- a readiness operation in its lane. A successful one found the buffer full, or has added exactly the
  -- bytes that one call of the system says it has received.
  pub poll_read-Borrows :
      StaysInside
      → (fuel : ℕ) (k : K) (buf : ReadBuf) (lane : ReadyLane)
      → Borrows buf (poll_read fuel k buf lane)
  unfolding poll_read
  poll_read-Borrows inside zero k buf lane = tt
  poll_read-Borrows inside (suc fuel) k buf lane = elim (Bool-cases (is_empty buf.unfilled)) [
    | inl e ↦
        let ends : poll_read (suc fuel) k buf lane ≡ some (k, buf, lane, ready (ok tt)) =
          ground (arith, e) in
        subst (Borrows buf) (sym ends) (full (ground (arith, e)) refl)
    | inr e ↦
        after_call inside fuel k buf lane e (poll_read-Borrows inside fuel) (call k buf.unfilled).2
          refl
  ]
