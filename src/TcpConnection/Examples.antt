-- ===== src/TcpConnection/Examples.antt =====
-- A connection at work.
use agora_im.Shared.{
  length-take, length-replicate, replicate, ap, ◌+◌, ◌≤◌, ◌<◌, arith, take, max_bytes, ℕ, ◌≡◌, refl,
  List, true, false, none, some, [], ◌∷◌, Bytes, codes, length, ltb, if◌then◌else◌,
}
use agora_im.Buffer.{read_room, Buffer, Answer, failed, moved, readable_bytes, contents}
use agora_im.Buffer.Valid.{IsValid, new-IsValid}
use agora_im.Channel.{Events, is_writing, bits, added}
use agora_im.EPollPoller.Simulated.{epoll}
use agora_im.TcpConnection.{
  TcpConnection, Callbacks, connected, send_in_loop, handle_write, handle_events, shutdown,
}
use agora_im.TcpConnection.Invariant.{IsSound, stream}
use agora_im.TcpConnection.Within.{HasRoom, Within, AreBounded}
use agora_im.TcpConnection.Dispatch.{handle_events-Within}
use agora_im.Programs.Echo.{callbacks, on_connection, on_message}
use agora_im.Programs.Room.{callbacks-AreBounded}
use agora_im.Shared.{overwrite}
use agora_im.Buffer.{retrieve_all_as_string, retrieve_as_string}
use agora_im.TcpConnection.Finishes.{Takes, IsFinished, write_events, shutdown-finishes}
use agora_im.TcpConnection.Life.{
  Call, establishes, sends, meets_events, shuts_down, destroys, Mays, Goes, run, run-Goes, new,
  new-IsSound,
}
use agora_im.EPollPoller.{Poller}
use agora_im.Channel
use agora_im.Channel.{set_reading, set_writing, handle_event}
use agora_im.Buffer.{append, read_fd, write_fd}
use agora_im.TcpConnection.{after_write_fd}
use agora_im.Channel.{is_none_event}
use agora_im.Buffer.{retrieve}
use agora_im.EPollPoller.{update_as, control, update_channel, channel_call}
use agora_im.TcpConnection.{
  connect_established, send, wrote, notify, handle_read, after_read, after_write, shutdown_in_loop,
  force_close, connect_destroyed, after_send,
}
use agora_im.Channel.{clear_writing}
use agora_im.Shared.{◌++◌, Bytes}
use agora_im.Buffer

-- A connected connection on descriptor 7 that waits to read and has sent nothing.
abbrev quiet : TcpConnection epoll
quiet = record {
  state = connected;
  address = 64;
  channel = record {
    fd = 7;
    events = bits true true false false false;
    revents = bits false false false false false;
    index = added;
  };
  poller = record {
    kernel = λ fd. some (bits true true false false false);
    channels = λ fd. some 64;
    errors = 0;
  };
  input = Buffer.new;
  output = Buffer.new;
  taken = [];
  shut = false;
}

quiet-IsSound : IsSound {k = epoll} quiet
unfolding readable_bytes Buffer.new is_writing
quiet-IsSound = record {
  input = new-IsValid;
  output = new-IsValid;
  current = refl;
  waits = λ d. refl;
  quiet = λ d. absurd (cc);
  shut = λ y. absurd (cc);
}

-- No callback is set.
abbrev unset : Callbacks epoll
unset = record { connection = none; message = none; write_complete = none; close = none }

-- The kernel takes three bytes, and gives two.
abbrev three : Bytes → Answer ℕ
three bytes = moved (if ltb (length bytes) 3 then length bytes else 3)

abbrev hello : Bytes
hello = codes "hello"

abbrev answer : Answer ℕ → ℕ
answer (failed e) = 0
answer (moved n) = n

hello_honest : (n : ℕ) → three hello ≡ moved n → n ≤ 5
hello_honest n e = omega (arith, ap answer e)

hello_fits : quiet.output.writer_index + 5 < max_bytes
unfolding Buffer.new
hello_fits = omega arith

-- The same connection with four bytes of output.
abbrev four : Buffer
four = record { buffer = replicate 1032 0; reader_index = 8; writer_index = 12 }

abbrev waiting : TcpConnection epoll
waiting = record quiet {
  output = four;
  channel = record {
    fd = 7;
    events = bits true true true false false;
    revents = bits false false true false false;
    index = added;
  };
  poller = record {
    kernel = λ fd. some (bits true true true false false);
    channels = λ fd. some 64;
    errors = 0;
  };
}

four-IsValid : IsValid four
four-IsValid = omega (arith, length-replicate {A = ℕ} 1032 0)

waiting-IsSound : IsSound {k = epoll} waiting
unfolding readable_bytes is_writing
waiting-IsSound = record {
  input = new-IsValid;
  output = four-IsValid;
  current = refl;
  waits = λ d. refl;
  quiet = λ d. absurd (cc);
  shut = λ y. absurd (cc);
}

-- The peer sent two bytes.
abbrev two : ℕ → Answer Bytes
two n = moved (take n (1 ∷ 2 ∷ []))

abbrev bytes_of : Answer Bytes → Bytes
bytes_of (failed e) = []
bytes_of (moved bytes) = bytes

two_honest : (n : ℕ) (bytes : Bytes) → two n ≡ moved bytes → length bytes ≤ n
two_honest n bytes e =
    omega (arith, length-take {A = ℕ} n (1 ∷ 2 ∷ []), ap (λ r. length (bytes_of r)) e)

-- Input and room for output at once.
abbrev ready : Events
ready = bits true false true false false

room_waiting : length waiting.input.buffer + read_room waiting.input < max_bytes
unfolding Buffer.new read_room
room_waiting = omega arith

-- The bound on what waits and on what one callback sends.
abbrev bound : ℕ
bound = 100000

three_honest : (msg : Bytes) (n : ℕ) → three msg ≡ moved n → n ≤ length msg
three_honest msg n e = ground (arith, ap answer e)

-- The callbacks of the echo server.
abbrev echoing : Callbacks epoll
echoing = callbacks none three

echoing-AreBounded : AreBounded {k = epoll} bound echoing
echoing-AreBounded = callbacks-AreBounded {k = epoll} bound none three tt three_honest

waiting-HasRoom : HasRoom {k = epoll} bound (bound + bound + bound) waiting
unfolding readable_bytes Buffer.new
waiting-HasRoom = record { input = omega arith; output = omega arith }

waiting_most : readable_bytes waiting.input + read_room waiting.input ≤ bound
unfolding readable_bytes Buffer.new read_room
waiting_most = omega arith

handle_events-Within_example :
    Within {k = epoll} bound
      (bound + bound + bound)
      []
      waiting
      (handle_events echoing two three ready waiting)
handle_events-Within_example =
    handle_events-Within {k = epoll} bound echoing two three ready waiting echoing-AreBounded
      waiting-IsSound waiting-HasRoom refl refl two_honest room_waiting waiting_most

-- A connection on descriptor 7 from its constructor to its end: it is established, sends five bytes
-- of which the kernel takes three, reads two and echoes them while the kernel takes two more, is shut
-- down and destroyed.
abbrev unused : Poller epoll
unused = record { kernel = λ fd. none; channels = λ fd. none; errors = 0 }

-- The kernel takes two bytes.
abbrev rest_taken : Bytes → Answer ℕ
rest_taken bytes = moved 2

abbrev whole_life : List Call
whole_life =
    establishes ∷ sends three hello ∷ meets_events two rest_taken ready ∷ shuts_down ∷ destroys ∷ []

abbrev fresh : TcpConnection epoll
fresh = new 64 7 unused

whole_life_may : Mays {k = epoll} echoing bound whole_life fresh
unfolding new connect_established send send_in_loop wrote notify handle_event handle_read
    handle_write read_fd after_read after_write shutdown shutdown_in_loop force_close
    connect_destroyed readable_bytes is_writing Buffer.new Channel.new append channel_call
    update_channel control set_reading set_writing write_fd contents after_send read_room update_as
    is_none_event after_write_fd retrieve clear_writing on_connection on_message
    retrieve_all_as_string retrieve_as_string overwrite
whole_life_may = (
  record { input = omega arith; output = omega arith },
  refl,
  (
    record { input = omega arith; output = omega arith },
    (omega arith, hello_honest),
    (
      record { input = omega arith; output = omega arith },
      (refl, refl, two_honest, omega arith, omega arith),
      (
        record { input = omega arith; output = omega arith },
        tt,
        (record { input = omega arith; output = omega arith }, tt, tt),
      ),
    ),
  ),
)

fresh-IsSound : IsSound {k = epoll} fresh
fresh-IsSound = new-IsSound {k = epoll} 64 7 unused refl

run-Goes_example :
    (d : TcpConnection epoll) × (run {k = epoll} echoing whole_life fresh ≡ some d)
    × IsSound d
    × ((later : Bytes) × (stream d ≡ stream fresh ++ later)
        × Goes {k = epoll} echoing whole_life fresh later)
run-Goes_example =
    run-Goes {k = epoll} echoing bound whole_life fresh echoing-AreBounded fresh-IsSound
      whole_life_may

-- Four write events, each of which lets out up to three bytes.
abbrev four_writes : List (Bytes → Answer ℕ)
four_writes = three ∷ three ∷ three ∷ three ∷ []

three-Takes : Takes three
three-Takes bytes h =
    ((if ltb (length bytes) 3 then length bytes else 3), refl, (ground arith), (ground arith))

four_enough : length (contents waiting.output) ≤ 4
unfolding contents
four_enough = omega arith

shutdown-finishes_example :
    (c' : TcpConnection epoll) × (write_events unset four_writes (shutdown waiting) ≡ some c')
    × IsFinished {k = epoll} (stream waiting) c'
shutdown-finishes_example =
    shutdown-finishes {k = epoll} unset four_writes waiting refl
      (three-Takes, (three-Takes, (three-Takes, (three-Takes, tt)))) waiting-IsSound refl
      four_enough
