-- ===== src/Net/Tests.antt =====
-- Runs of the socket operations, and each theorem at an input.
use nosv.Base.{
  zero, suc, List, ℕ, ◌+◌, ◌<◌, ◌≡◌, refl, min, Bool, true, false, Option, none, some, arith, ◌==◌,
  if◌then◌else◌, [], ◌∷◌,
}
use nosv.Base.Int.{pos, negsuc}
use nosv.Base.Outcome.{done, Returns}
use nosv.Base.Result.{Result, ok, err}
use nosv.Io.{IoError, of_kind, os_error, Terminal, completed, Vec, vec_buf, filled}
use nosv.Io.Exact.{Ends}
use nosv.Io.Op.{Poll, pending}
use nosv.Net.Addresses.{
  SocketAddr, v4, slice, to_socket_addrs, connect_on, connect_one, bind_on, bind_socket, Tries,
  candidates-Tries,
}
use nosv.Net.Accept.{
  accept, socket_addr, nothing_there, interrupted_call, here, again, connection, accept-Final,
}
use nosv.Net.Ready.{ReadyLane, ReadBuf, poll_read, Borrows, StaysInside, poll_read-Borrows}
use nosv.Net.Streams.{Entry, Answer, recv_exact, send_all, complete_recv, complete_send}
use nosv.Net.Receives.{ReceivesStream, HasReceived, HasReceivedSome, recv_exact-Receives}
use nosv.Net.Sends.{SendsStream}
use nosv.Net.Transfers.{send_all-recv_exact}

-- A connection that brings at most three bytes at a time. The state is how many were taken; the bytes are
-- the numbers from ten on.
abbrev receiving : ℕ → Entry → ℕ × Answer
receiving k e = (
  k + min 3 e.length,
  record {
    terminal = completed (pos (min 3 e.length));
    deposited = min 3 e.length;
    bytes = λ i. 10 + (k + i);
  },
)

abbrev incoming : ℕ → ℕ → ℕ
incoming k i = 10 + (k + i)

receiving-ReceivesStream : ReceivesStream receiving vec_buf incoming
receiving-ReceivesStream k e = (omega arith, omega arith, λ i lt. refl, λ i. omega arith)

abbrev empty_vec : Vec
empty_vec = record { len = 0; spare = 7; memory = λ i. 0 }

abbrev full_vec : Vec
full_vec = record { len = 7; spare = 1; memory = λ i. 10 + i }

recv_exact-Receives_example :
    Ends
      (HasReceived receiving vec_buf incoming 4 7 0 7)
      (λ e. HasReceivedSome receiving vec_buf incoming 4 7 0)
      (recv_exact receiving vec_buf 8 4 empty_vec)
recv_exact-Receives_example =
    recv_exact-Receives receiving vec_buf incoming receiving-ReceivesStream 8 4 empty_vec
      (omega arith)

-- A connection that takes at most three bytes at a time; the state is how many and which were taken.
abbrev sending : ℕ × (ℕ → ℕ) → Entry → (ℕ × (ℕ → ℕ)) × Answer
sending (n, taken) e = (
  (n + min 3 e.length, filled n (min 3 e.length) e.bytes taken),
  record { terminal = completed (pos (min 3 e.length)); deposited = 0; bytes = λ i. 0 },
)

sending-SendsStream : SendsStream sending vec_buf (λ k. k.0) (λ k. k.1)
sending-SendsStream (n, taken) e = (omega arith, refl, λ j. refl)

abbrev nothing_sent : ℕ × (ℕ → ℕ)
nothing_sent = (0, λ j. 0)

abbrev all_sent : ℕ × (ℕ → ℕ)
all_sent = (
  7,
  filled 6 1 (λ i. 10 + (6 + i))
      (filled 3 3 (λ i. 10 + (3 + i)) (filled 0 3 (λ i. 10 + (0 + i)) (λ j. 0))),
)

abbrev received_vec : Vec
received_vec = record {
  len = 7;
  spare = 0;
  memory =
      filled 6 1 (λ i. 10 + (6 + i))
        (filled 3 3 (λ i. 10 + (3 + i)) (filled 0 3 (λ i. 10 + (0 + i)) (λ j. 0)));
}

send_runs : send_all sending vec_buf 8 nothing_sent full_vec ≡ some (all_sent, (ok tt, full_vec))
unfolding send_all complete_send
send_runs = refl

recv_runs : recv_exact receiving vec_buf 8 0 empty_vec ≡ some (7, (ok tt, received_vec))
unfolding recv_exact complete_recv
recv_runs = refl

joined : (i : ℕ) → i < 7 → incoming 0 i ≡ all_sent.1 (0 + i)
joined i lt = ground arith

send_all-recv_exact_example : received_vec.memory 5 ≡ 15
send_all-recv_exact_example =
    send_all-recv_exact sending vec_buf (λ k. k.0) (λ k. k.1) receiving vec_buf incoming 8
      nothing_sent all_sent full_vec full_vec 0 7 empty_vec received_vec sending-SendsStream
      receiving-ReceivesStream (omega arith) refl send_runs joined recv_runs 5 (omega arith)

abbrev host : ℕ → SocketAddr
host n = record { ip = v4 n; port = 80 }

-- Descriptors are numbered, and only the second host answers.
abbrev tcp_socket : ℕ → Bool → ℕ × Result ℕ IoError
tcp_socket s is_v4 = (s + 1, ok s)

abbrev connect : ℕ → ℕ → SocketAddr → ℕ × Terminal
connect s socket address =
    (s, if address.port == 80 then completed (negsuc 110) else completed (pos 0))

abbrev no_answer : ℕ → ℕ → SocketAddr → ℕ × Result (Unit {0}) IoError
no_answer s socket address = (s, err (os_error 98))

candidates-Tries_example :
    Returns
      (connect_on tcp_socket connect 3 (slice (host 1 ∷ host 2 ∷ [])))
      (Tries (connect_one tcp_socket connect) 3 (host 1 ∷ host 2 ∷ []))
    × Returns (bind_on tcp_socket no_answer no_answer true 3 (slice (host 1 ∷ host 2 ∷ []))) (
        Tries
          (λ s a. done (bind_socket tcp_socket no_answer no_answer s a))
          3
          (host 1 ∷ host 2 ∷ []))
unfolding to_socket_addrs
candidates-Tries_example =
    candidates-Tries tcp_socket connect no_answer no_answer 3 (slice (host 1 ∷ host 2 ∷ []))
      (host 1) (host 2 ∷ []) refl

-- The first call finds nothing, the second is interrupted, and the third accepts.
abbrev accept_socket : ℕ → ℕ × Result (ℕ × Option SocketAddr) IoError
accept_socket k =
    if k == 0
    then (1, err (os_error 11))
    else if k == 1
    then (2, err (os_error 4))
    else (3, ok (9, some (host 5)))

abbrev is_os : ℕ → IoError → Bool
is_os n (os_error m) = n == m
is_os n (of_kind _) = false

abbrev readable : ℕ → ℕ × Result (Unit {0}) IoError
readable k = (k, ok tt)

accept-Final_example :
    accept (is_os 11) (is_os 4) accept_socket readable 3 0 ≡ some (3, ok (9, host 5))
unfolding socket_addr
accept-Final_example =
    accept-Final (is_os 11) (is_os 4) accept_socket readable 2 3 0 2 (3, ok (9, host 5))
      (again (nothing_there refl refl refl) (again (interrupted_call refl refl refl) here))
      (connection refl) (omega arith)

-- Nothing can be read, and the readiness operation is pending.
abbrev new_op : ℕ → ℕ → ℕ × ℕ
new_op k events = (k, 7)

abbrev poll_op : ℕ → ℕ → ℕ × Poll (Result (Unit {0}) IoError)
poll_op k op = (k, pending)

-- Two bytes are there at the second call, and nothing at the first.
abbrev recv_two : ℕ → List ℕ → ℕ × List ℕ × Result ℕ IoError
recv_two zero memory = (1, memory, err (os_error 4))
recv_two (suc k) (_ ∷ _ ∷ memory) = (2, 7 ∷ 8 ∷ memory, ok 2)
recv_two (suc k) memory = (2, memory, ok 0)

recv_two-StaysInside : StaysInside new_op poll_op (is_os 11) (is_os 4) recv_two
recv_two-StaysInside zero memory = refl
recv_two-StaysInside (suc k) [] = refl
recv_two-StaysInside (suc k) (_ ∷ []) = refl
recv_two-StaysInside (suc k) (_ ∷ _ ∷ memory) = refl

abbrev read_buf : ReadBuf
read_buf = record { filled = 5 ∷ 6 ∷ []; unfilled = 0 ∷ 0 ∷ 0 ∷ [] }

abbrev idle : ReadyLane
idle = record { events = 1; operation = none }

poll_read-Borrows_example :
    Borrows new_op poll_op
      (is_os 11)
      (is_os 4)
      recv_two
      read_buf
      (poll_read new_op poll_op (is_os 11) (is_os 4) recv_two 2 0 read_buf idle)
poll_read-Borrows_example =
    poll_read-Borrows new_op poll_op (is_os 11) (is_os 4) recv_two recv_two-StaysInside 2 0 read_buf
      idle
