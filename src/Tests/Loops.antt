-- ===== src/Tests/Loops.antt =====
-- An event loop in which one of two descriptors is ready, and transfers that are cut in pieces.
use boutique.Common.{
  ◌^◌, ◌<◌, ◌≤◌, ◌⊎◌, ℕ, suc, ◌≡◌, ◌↔◌, refl, arith, Bool, true, false, none, some, [], ◌∷◌, ◌-◌,
  ◌==◌,
}
use boutique.Core.Serialize.{bind_option}
use boutique.Io.Context.{
  Context, Op, Span, Request, System, Program, send, halt, perform_all, turn, run,
}
use boutique.Io.Context.Queues.{IsQueued, left_over}
use boutique.Io.Context.Turn.{serve_all, turn_lem}
use boutique.Io.Context.Runs.{Turns, run-returns_iff}
use boutique.Io.Socket
use boutique.Io.Socket.{Posix, returned, would_block}
use boutique.Io.Socket.Sizes.{send-maxlen_iff}

abbrev ready : ℕ → Bool
ready fd = fd == 3

abbrev idle : ℕ → Bool
idle fd = false

-- The descriptor 3 can be read, and gives two bytes. The state counts the operations.
abbrev machine : System ℕ
machine = record {
  select = λ reads writes s. (s, ready, idle);
  recv = λ fd span s. some (suc s, 2);
  send = λ fd span s. some (suc s, span.maxlen);
  accept = λ fd s. some (suc s, none);
  expire_count = λ fd s. some (suc s, 1);
}

abbrev room : Span
room = record { buf = 0; maxlen = 8 }

-- a function of a receive sends what came and stops the loop
abbrev echo : Program ℕ ℕ ℕ
echo = record {
  call_int = λ fn n s. some (s, send 3 (record { buf = 0; maxlen = n }) fn ∷ halt ∷ []);
  call_socket = λ fn socket s. some (s, []);
}

abbrev reading : ℕ → Op Span ℕ
reading fd = record { fd = fd; arg = room; fn = 0; complete = false }

abbrev two_readers : Context ℕ ℕ
two_readers = record {
  m_stop = false;
  m_recv = reading 4 ∷ reading 3 ∷ [];
  m_send = [];
  m_accept = [];
  m_wait = [];
}

abbrev one_served : Context ℕ ℕ
one_served = record two_readers {
  m_stop = true;
  m_recv = reading 4 ∷ [];
  m_send = record { fd = 3; arg = record { buf = 0; maxlen = 2 }; fn = 0; complete = false } ∷ [];
}

two_readers-IsQueued : IsQueued two_readers
two_readers-IsQueued = record { recv = (refl, (refl, tt)); send = tt; accept = tt; wait = tt }

turn_lem_example :
    turn machine echo two_readers 0
    ≡ bind_option
        (serve_all machine echo ready idle two_readers 0)
        λ r. some (perform_all r.1 (left_over ready idle two_readers), r.0)
turn_lem_example = turn_lem machine echo two_readers 0 0 ready idle two_readers-IsQueued refl

one_turn : turn machine echo two_readers 0 ≡ some (one_served, 1)
unfolding turn boutique.Io.Context.dispatch boutique.Io.Context.on_recv boutique.Io.Context.perform
    perform_all boutique.Io.Context.incomplete_of boutique.Io.Context.async_send
    boutique.Io.Context.stop
one_turn = refl

one_run : run machine echo 1 two_readers 0 ≡ some (some (one_served, 1))
unfolding run boutique.Io.Context.run_loop turn boutique.Io.Context.dispatch
    boutique.Io.Context.on_recv boutique.Io.Context.perform perform_all
    boutique.Io.Context.incomplete_of boutique.Io.Context.async_send boutique.Io.Context.stop
one_run = refl

run-returns_iff_example : (run machine echo 1 two_readers 0 ≡ some (some (one_served, 1))) ↔ (
    (n : ℕ) × (n ≤ 1) × Turns machine echo n (record two_readers { m_stop = false }) 0 one_served 1)
run-returns_iff_example = run-returns_iff machine echo 1 two_readers one_served 0 1

-- a system that keeps the length that a call was given, and takes a byte
abbrev recording : Posix ℕ
recording = record {
  select = λ reads writes s. (s, idle, idle);
  recv = λ fd buf len s. (len, returned 1);
  send = λ fd buf len s. (len, returned 1);
  accept = λ fd s. (s, would_block);
  read = λ fd s. (s, would_block);
}

abbrev wide : Span
wide = record { buf = 0; maxlen = 2 ^ 31 }

sent_wide : (Socket.system recording).send 3 wide 0 ≡ some (2 ^ 64 - 2 ^ 31, 1)
unfolding Socket.system Socket.int_size
sent_wide = refl

send-maxlen_iff_example :
    (2 ^ 64 - 2 ^ 31 ≡ 2 ^ 31) ↔ ((2 ^ 31 < 2 ^ 31) ⊎ (2 ^ 64 - 2 ^ 31 ≤ 2 ^ 31))
send-maxlen_iff_example =
    send-maxlen_iff recording (λ s. s) 3 wide 0 (2 ^ 64 - 2 ^ 31) 1 (λ fd buf len s. refl)
      (omega arith) sent_wide
