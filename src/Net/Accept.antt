-- ===== src/Net/Accept.antt =====
-- `TcpListener::accept` of src/net.rs. `K` is the state of the system.
use nosv.Base.{ℕ, zero, suc, ◌<◌, ◌≡◌, Bool, true, false, Option, none, some, arith, ◌∙◌}
use nosv.Base.Result.{Result, ok, err}
use nosv.Io.{IoError, of_kind, invalid_data}
use nosv.Net.Addresses.{SocketAddr}

-- `socket_addr`: only internet addresses have a `SocketAddr`.
unfoldable pub socket_addr : Option SocketAddr → Result SocketAddr IoError
socket_addr (some a) = ok a
socket_addr none = err (of_kind invalid_data)

-- `would_block` and `interrupted` tell the kind of an error; `accept_socket` is the nonblocking call, and
-- `readable` the operation that waits for a connection.
module _ {K : Type 0} (would_block interrupted : IoError → Bool)
    (accept_socket : K → K × Result (ℕ × Option SocketAddr) IoError)
    (readable : K → K × Result (Unit {0}) IoError) where
  -- The accepted descriptor with its address; a descriptor without one is closed again.
  abbrev pub accepted : ℕ × Option SocketAddr → Result (ℕ × SocketAddr) IoError
  accepted (socket, address) = elim (socket_addr address) [ ok a ↦ ok (socket, a) | err e ↦ err e ]

  -- `TcpListener::accept`; `none` means that the fuel ran out.
  unfoldable pub accept : ℕ → K → Option (K × Result (ℕ × SocketAddr) IoError)
  unfolding socket_addr
  accept zero k = none
  accept (suc fuel) k =
      let (k1, answer) = accept_socket k in
      elim answer [
        | ok connection ↦ some (k1, accepted connection)
        | err e ↦ elim (would_block e) [
          | true ↦
              let (k2, waited) = readable k1 in
              elim waited [ ok _ ↦ accept fuel k2 | err e' ↦ some (k2, err e') ]
          | false ↦ elim (interrupted e) [ true ↦ accept fuel k1 | false ↦ some (k1, err e) ]
        ]
      ]

  -- One more try after which nothing has been accepted: interrupted, or nothing there and then a wait.
  pub data Retries (k : K) : K → Type 0 where
    interrupted_call :
        {e : IoError}
        → (accept_socket k).1 ≡ err e
        → would_block e ≡ false
        → interrupted e ≡ true
        → Retries k (accept_socket k).0
    nothing_there :
        {e : IoError}
        → (accept_socket k).1 ≡ err e
        → would_block e ≡ true
        → (readable (accept_socket k).0).1 ≡ ok tt
        → Retries k (readable (accept_socket k).0).0

  -- `n` such tries in a row.
  pub data RetriesTo : ℕ → K → K → Type 0 where
    here : {k : K} → RetriesTo zero k k
    again : {n : ℕ} {k k1 k2 : K} → Retries k k1 → RetriesTo n k1 k2 → RetriesTo (suc n) k k2

  -- How a try ends the call.
  pub data Final (k : K) : K × Result (ℕ × SocketAddr) IoError → Type 0 where
    connection :
        {c : ℕ × Option SocketAddr}
        → (accept_socket k).1 ≡ ok c
        → Final k ((accept_socket k).0, accepted c)
    call_failed :
        {e : IoError}
        → (accept_socket k).1 ≡ err e
        → would_block e ≡ false
        → interrupted e ≡ false
        → Final k ((accept_socket k).0, err e)
    wait_failed :
        {e e' : IoError}
        → (accept_socket k).1 ≡ err e
        → would_block e ≡ true
        → (readable (accept_socket k).0).1 ≡ err e'
        → Final k ((readable (accept_socket k).0).0, err e')

  accept-Final_once :
      (fuel : ℕ) (k : K) (x : K × Result (ℕ × SocketAddr) IoError)
      → Final k x
      → accept (suc fuel) k ≡ some x
  unfolding accept
  accept-Final_once fuel k x (connection a) = ground (arith, a)
  accept-Final_once fuel k x (call_failed a b i) = ground (arith, a, b, i)
  accept-Final_once fuel k x (wait_failed a b w) = ground (arith, a, b, w)

  accept_again : (fuel : ℕ) (k k1 : K) → Retries k k1 → accept (suc fuel) k ≡ accept fuel k1
  unfolding accept
  accept_again fuel k k1 (interrupted_call a b i) = ground (arith, a, b, i)
  accept_again fuel k k1 (nothing_there a b w) = ground (arith, a, b, w)

  -- However often the call is interrupted or finds nothing and waits, it ends with the first try that does
  -- neither: a connection, the error of the call, or the error of the wait.
  pub accept-Final :
      (n fuel : ℕ) (k k' : K) (x : K × Result (ℕ × SocketAddr) IoError)
      → RetriesTo n k k'
      → Final k' x
      → n < fuel
      → accept fuel k ≡ some x
  accept-Final n zero k k' x r f h = absurd (omega arith)
  accept-Final zero (suc fuel) k k' x here f h = accept-Final_once fuel k x f
  accept-Final (suc n) (suc fuel) k k' x (again {k1 = k1} step r) f h =
      accept_again fuel k k1 step ∙ accept-Final n fuel k1 k' x r f (omega arith)
