-- ===== src/Net/Addresses.antt =====
-- `ToSocketAddrs`, `TcpStream::connect_on` and `TcpListener::bind_on` of src/net.rs. A socket is its
-- descriptor, `S` is the state of the system and `log` of it what the calls return.
use nosv.Base.{
  ℕ, ◌≡◌, refl, Bool, true, false, Option, none, some, List, [], ◌∷◌, arith, subst, sym, is_empty,
  if◌then◌else◌,
}
use nosv.Base.Int.{ℤ}
use nosv.Base.Outcome.{Outcome, done, stop, ◌>>=◌, Returns, Returns-map}
use nosv.Base.Result.{Result, ok, err}
use nosv.Io.{
  IoError, of_kind, invalid_input, result, runtime_closed_error, Terminal, completed, failed,
}

pub data IpAddr : Type 0 where
  v4 v6 : ℕ → IpAddr

pub record SocketAddr : Type 0 where
  pub ip : IpAddr
  pub port : ℕ

abbrev pub is_ipv4 : IpAddr → Bool
is_ipv4 (v4 _) = true
is_ipv4 (v6 _) = false

-- The types that implement the sealed trait.
pub data Addresses : Type 0 where
  socket_addr : SocketAddr → Addresses
  ip_port : IpAddr → ℕ → Addresses
  ipv4_port ipv6_port : ℕ → ℕ → Addresses
  slice : List SocketAddr → Addresses
  reference : Addresses → Addresses

-- `to_socket_addrs`
unfoldable pub to_socket_addrs : Addresses → List SocketAddr
to_socket_addrs (socket_addr a) = a ∷ []
to_socket_addrs (ip_port ip port) = record { ip = ip; port = port } ∷ []
to_socket_addrs (ipv4_port ip port) = record { ip = v4 ip; port = port } ∷ []
to_socket_addrs (ipv6_port ip port) = record { ip = v6 ip; port = port } ∷ []
to_socket_addrs (slice candidates) = candidates
to_socket_addrs (reference a) = to_socket_addrs a

-- `ConnectWork`
pub record ConnectWork : Type 0 where
  pub socket : Option ℕ
  pub address : SocketAddr

-- `ConnectWork::complete`: a socket that is not there stops the process (`expect`).
unfoldable pub complete_connect : ConnectWork → ℤ → Outcome (Result ℕ IoError)
unfolding result
complete_connect w code = elim (result code) [
  | err e ↦ done (err e)
  | ok _ ↦ elim w.socket [ none ↦ stop | some socket ↦ done (ok socket) ]
]

abbrev pub ended_connect : ConnectWork → Terminal → Outcome (Result ℕ IoError)
ended_connect w (completed code) = complete_connect w code
ended_connect w (failed e) = done (err e)

module _ {S : Type 0} where
  -- The loop over the candidates: the first success, or else the last error; `last` is the error so far.
  unfoldable pub try_each :
      (S → SocketAddr → Outcome (S × Result ℕ IoError))
      → S
      → Option IoError
      → List SocketAddr
      → Outcome (S × Result ℕ IoError)
  try_each attempt s last [] = elim last [ none ↦ stop | some e ↦ done (s, err e) ]
  try_each attempt s last (a ∷ rest) = attempt s a >>= λ (s', r). elim r [
    | ok socket ↦ done (s', ok socket)
    | err e ↦ try_each attempt s' (some e) rest
  ]

  module _ (tcp_socket : S → Bool → S × Result ℕ IoError)
      (connect : S → ℕ → SocketAddr → S × Terminal) where
    -- One candidate of `connect_on`; `tcp_socket` makes a socket of the family of the address.
    unfoldable pub connect_one : S → SocketAddr → Outcome (S × Result ℕ IoError)
    unfolding complete_connect
    connect_one s address =
        let (s1, made) = tcp_socket s (is_ipv4 address.ip) in
        elim made [
          | err e ↦ done (s1, err e)
          | ok socket ↦
              let (s2, end) = connect s1 socket address in
              ended_connect (record { socket = some socket; address = address }) end >>= λ r.
              done (s2, r)
        ]

    -- `TcpStream::connect_on`
    unfoldable pub connect_on : S → Addresses → Outcome (S × Result ℕ IoError)
    unfolding to_socket_addrs
    connect_on s addresses =
        let candidates = to_socket_addrs addresses in
        if is_empty candidates
        then done (s, err (of_kind invalid_input))
        else try_each connect_one s none candidates

  module _ (tcp_socket : S → Bool → S × Result ℕ IoError)
      (bind listen : S → ℕ → SocketAddr → S × Result (Unit {0}) IoError) where
    -- `bind_socket`
    unfoldable pub bind_socket : S → SocketAddr → S × Result ℕ IoError
    bind_socket s address =
        let (s1, made) = tcp_socket s (is_ipv4 address.ip) in
        elim made [
          | err e ↦ (s1, err e)
          | ok socket ↦
              let (s2, bound) = bind s1 socket address in
              elim bound [
                | err e ↦ (s2, err e)
                | ok _ ↦
                    let (s3, listening) = listen s2 socket address in
                    elim listening [ err e ↦ (s3, err e) | ok _ ↦ (s3, ok socket) ]
              ]
        ]

    -- `TcpListener::bind_on`; `running` says whether the runtime is open and of this process.
    unfoldable pub bind_on : Bool → S → Addresses → Outcome (S × Result ℕ IoError)
    unfolding to_socket_addrs bind_socket
    bind_on running s addresses =
        if running
        then (let candidates = to_socket_addrs addresses in
            if is_empty candidates
            then done (s, err (of_kind invalid_input))
            else try_each (λ s' a. done (bind_socket s' a)) s none candidates)
        else done (s, err runtime_closed_error)

  -- What trying candidates in turn means: it ends at the first success or with the error of the last.
  pub data Tries (attempt : S → SocketAddr → Outcome (S × Result ℕ IoError))
      : S → List SocketAddr → S × Result ℕ IoError → Type 0 where
    hit :
        {a : SocketAddr} {rest : List SocketAddr} {s s' : S} {socket : ℕ}
        → attempt s a ≡ done (s', ok socket)
        → Tries attempt s (a ∷ rest) (s', ok socket)
    exhausted :
        {a : SocketAddr} {s s' : S} {e : IoError}
        → attempt s a ≡ done (s', err e)
        → Tries attempt s (a ∷ []) (s', err e)
    miss :
        {a b : SocketAddr} {rest : List SocketAddr} {s s' : S} {e : IoError}
        {r : S × Result ℕ IoError}
        → attempt s a ≡ done (s', err e)
        → Tries attempt s' (b ∷ rest) r
        → Tries attempt s (a ∷ b ∷ rest) r

  module _ (attempt : S → SocketAddr → Outcome (S × Result ℕ IoError))
      (returns : (s : S) (a : SocketAddr) → Returns (attempt s a) (λ r. Unit)) where
    -- What follows an attempt that failed with `e`.
    abbrev After : S → IoError → List SocketAddr → S × Result ℕ IoError → Type 0
    After s e [] r = r ≡ (s, err e)
    After s e (b ∷ rest) r = Tries attempt s (b ∷ rest) r

    After-Tries :
        (s s' : S) (a : SocketAddr) (e : IoError) (rest : List SocketAddr)
        (r : S × Result ℕ IoError)
        → attempt s a ≡ done (s', err e)
        → After s' e rest r
        → Tries attempt s (a ∷ rest) r
    After-Tries s s' a e [] r failed_ h =
        subst (Tries attempt s (a ∷ [])) (sym h) (exhausted failed_)
    After-Tries s s' a e (b ∷ rest) r failed_ h = miss failed_ h

    first_attempt :
        (s : S) (a : SocketAddr) (rest : List SocketAddr) (o : Outcome (S × Result ℕ IoError))
        → attempt s a ≡ o
        → Returns o (λ r. Unit)
        → ((s' : S) (e : IoError) → Returns (try_each attempt s' (some e) rest) (After s' e rest))
        → Returns
            (o >>= λ (s', r). elim r [
              | ok socket ↦ done (s', ok socket)
              | err e ↦ try_each attempt s' (some e) rest
            ])
            (Tries attempt s (a ∷ rest))
    first_attempt s a rest stop made t next = absurd t
    first_attempt s a rest (done (s', ok socket)) made t next = hit made
    first_attempt s a rest (done (s', err e)) made t next =
        Returns-map (try_each attempt s' (some e) rest) (After s' e rest)
          (Tries attempt s (a ∷ rest)) (next s' e) (λ r h. After-Tries s s' a e rest r made h)

    try_each-After :
        (s : S) (e : IoError) (rest : List SocketAddr)
        → Returns (try_each attempt s (some e) rest) (After s e rest)
    unfolding try_each
    try_each-After s e [] = refl
    try_each-After s e (b ∷ rest) =
        first_attempt s b rest (attempt s b) refl (returns s b) (λ s' e'. try_each-After s' e' rest)

    pub try_each-Tries :
        (s : S) (a : SocketAddr) (rest : List SocketAddr)
        → Returns (try_each attempt s none (a ∷ rest)) (Tries attempt s (a ∷ rest))
    unfolding try_each
    try_each-Tries s a rest =
        first_attempt s a rest (attempt s a) refl (returns s a) (λ s' e'. try_each-After s' e' rest)

  connect_one-Returns :
      (tcp_socket : S → Bool → S × Result ℕ IoError) (connect : S → ℕ → SocketAddr → S × Terminal)
      (s : S) (a : SocketAddr)
      → Returns (connect_one tcp_socket connect s a) (λ r. Unit)
  unfolding connect_one
  connect_one-Returns tcp_socket connect s a = ground arith

  -- Whatever the system answers, a connection and a listener do not stop the process when there is a candidate:
  -- the candidates are tried in order up to the first that succeeds, which gives the result, and the
  -- error of the last is the result when none does.
  pub candidates-Tries :
      (tcp_socket : S → Bool → S × Result ℕ IoError) (connect : S → ℕ → SocketAddr → S × Terminal)
      (bind listen : S → ℕ → SocketAddr → S × Result (Unit {0}) IoError) (s : S)
      (addresses : Addresses) (a : SocketAddr) (rest : List SocketAddr)
      → to_socket_addrs addresses ≡ a ∷ rest
      → Returns
          (connect_on tcp_socket connect s addresses)
          (Tries (connect_one tcp_socket connect) s (a ∷ rest))
        × Returns
            (bind_on tcp_socket bind listen true s addresses)
            (Tries (λ s' b. done (bind_socket tcp_socket bind listen s' b)) s (a ∷ rest))
  unfolding connect_on bind_on
  candidates-Tries tcp_socket connect bind listen s addresses a rest e = (
    rw e (
        try_each-Tries (connect_one tcp_socket connect) (connect_one-Returns tcp_socket connect) s a
          rest),
    rw e (
        try_each-Tries (λ s' b. done (bind_socket tcp_socket bind listen s' b)) (λ s' b. tt) s a
          rest),
  )

  -- Without a candidate it is invalid input, and without a running runtime nothing is tried.
  no_candidates :
      (tcp_socket : S → Bool → S × Result ℕ IoError) (connect : S → ℕ → SocketAddr → S × Terminal)
      (bind listen : S → ℕ → SocketAddr → S × Result (Unit {0}) IoError) (s : S)
      (addresses : Addresses)
      → to_socket_addrs addresses ≡ []
      → (connect_on tcp_socket connect s addresses ≡ done (s, err (of_kind invalid_input)))
        × (bind_on tcp_socket bind listen true s addresses ≡ done (s, err (of_kind invalid_input)))
        × (bind_on tcp_socket bind listen false s addresses ≡ done (s, err runtime_closed_error))
  unfolding connect_on bind_on
  no_candidates tcp_socket connect bind listen s addresses e = (rw e, rw e, refl)
