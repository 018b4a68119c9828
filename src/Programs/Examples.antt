-- ===== src/Programs/Examples.antt =====
-- Programs at work.
use agora_im.Shared.{
  ◌≤◌, ap, length-take, take, arith, ℕ, ◌≡◌, refl, true, false, none, some, List, [], ◌∷◌, Bytes,
  codes, length,
}
use agora_im.TcpConnection.{after_send}
use agora_im.Buffer.{retrieve_all}
use agora_im.Shared.{overwrite}
use agora_im.Buffer.{retrieve_all_as_string, retrieve_as_string, put, took}
use agora_im.Buffer
use agora_im.Buffer.{
  Buffer, Answer, failed, moved, readable_bytes, contents, read_room, read_fd, retrieve,
}
use agora_im.Buffer.Valid.{new-IsValid}
use agora_im.Channel.{is_writing, bits, added}
use agora_im.EPollPoller.Simulated.{epoll}
use agora_im.TcpConnection.{
  TcpConnection, connected, handle_read, after_read, notify, send, send_in_loop, wrote,
}
use agora_im.TcpConnection.Invariant.{IsSound}
use agora_im.Programs.Echo.{Arrival, serve, AllFine, Echoes, serve-Echoes, on_message}

-- A connected connection on descriptor 7.
abbrev quiet : TcpConnection epoll
quiet = record {
  state = connected;
  address = 64;
  channel = record {
    fd = 7;
    events = bits true true false false false;
    revents = bits false false false false false;
    index = added;
  };
  poller = record {
    kernel = λ fd. some (bits true true false false false);
    channels = λ fd. some 64;
    errors = 0;
  };
  input = Buffer.new;
  output = Buffer.new;
  taken = [];
  shut = false;
}

quiet-IsSound : IsSound {k = epoll} quiet
unfolding readable_bytes Buffer.new is_writing
quiet-IsSound = record {
  input = new-IsValid;
  output = new-IsValid;
  current = refl;
  waits = λ d. refl;
  quiet = λ d. absurd (cc);
  shut = λ y. absurd (cc);
}

abbrev gives : Bytes → ℕ → Answer Bytes
gives bytes n = moved (take n bytes)

abbrev bytes_of : Answer Bytes → Bytes
bytes_of (failed e) = []
bytes_of (moved bytes) = bytes

gives_honest : (bytes : Bytes) (n : ℕ) (more : Bytes) → gives bytes n ≡ moved more → length more ≤ n
gives_honest bytes n more e =
    omega (arith, length-take {A = ℕ} n bytes, ap (λ r. length (bytes_of r)) e)

abbrev takes_all : Bytes → Answer ℕ
takes_all bytes = moved (length bytes)

abbrev amount : Answer ℕ → ℕ
amount (failed e) = 0
amount (moved n) = n

takes_all_honest : (bytes : Bytes) (n : ℕ) → takes_all bytes ≡ moved n → n ≤ length bytes
takes_all_honest bytes n e = omega (arith, ap amount e)

abbrev arrival : Bytes → Arrival
arrival bytes = record { bytes = bytes; readv = gives bytes; write = takes_all }

abbrev two_reads : List Arrival
two_reads = arrival (codes "ab") ∷ arrival (codes "c") ∷ []

two_reads_fine : AllFine {k = epoll} none two_reads quiet
unfolding retrieve_all retrieve after_send retrieve_all_as_string retrieve_as_string put took
    overwrite Buffer.new read_room handle_read read_fd after_read notify on_message send
    send_in_loop wrote readable_bytes is_writing contents
two_reads_fine = (
  record {
    gives = refl;
    some_byte = omega arith;
    honest_read = gives_honest (codes "ab");
    small = omega arith;
    fits = omega arith;
    honest = takes_all_honest;
  },
  (
    record {
      gives = refl;
      some_byte = omega arith;
      honest_read = gives_honest (codes "c");
      small = omega arith;
      fits = omega arith;
      honest = takes_all_honest;
    },
    tt,
  ),
)

serve-Echoes_example :
    (d : TcpConnection epoll) × (serve {k = epoll} none two_reads quiet ≡ some d)
    × Echoes (codes "abc") quiet d
unfolding Buffer.new contents readable_bytes
serve-Echoes_example =
    serve-Echoes {k = epoll} none two_reads quiet quiet-IsSound refl refl two_reads_fine
