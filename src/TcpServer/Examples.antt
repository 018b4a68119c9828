-- ===== src/TcpServer/Examples.antt =====
-- A server that takes two connections and loses one.
use agora_im.Shared.{
  List, ℕ, ◌≤◌, ◌≡◌, ap, refl, true, some, [], ◌∷◌, arith, Bytes, codes, length, eq_bytes,
}
use agora_im.Shared.{replicate, length-replicate}
use agora_im.EventLoopThreadPool.{EventLoopThreadPool, get_next_loop}
use agora_im.EventLoopThreadPool.Rounds.{calls}
use agora_im.Acceptor.{Acceptor, failed, is_expected, handle_read}
use agora_im.Acceptor.Burst.{burst}
use agora_im.TcpServer.Accepts.{Took, handle_read-Took}
use agora_im.TcpServer.{
  Connection, TcpServer, establishes, assign, find, run_in_loop, remove_connection_in_loop,
  conn_name, admit, new_connection, destruct,
}
use agora_im.TcpServer.Live.{live, count}
use agora_im.TcpServer.Counts.{established, destroyed}
use agora_im.TcpServer.Admit.{IsBalanced}
use agora_im.TcpServer.Balance.{Run, here, then_step, accepts, removes, Run_destruct}

-- Numbers in unary.
abbrev unary : ℕ → Bytes
unary n = replicate n b'1'

unary_injective : (n m : ℕ) → unary n ≡ unary m → n ≡ m
unary_injective n m e =
    omega (arith, length-replicate {A = ℕ} n 49, length-replicate {A = ℕ} m 49, ap length e)

-- A started server without threads of its own.
abbrev listening : TcpServer
listening = record {
  name = codes "s";
  started = true;
  listening = true;
  pool = record {
    base_loop = 16;
    name = codes "s";
    started = true;
    num_threads = 0;
    next = 0;
    loops = [];
  };
  next_conn_id = 1;
  connections = [];
  tasks = [];
}

listening-IsBalanced : IsBalanced unary listening
unfolding live count
listening-IsBalanced = record {
  keyed = tt;
  balance = λ n. omega arith;
  once = λ n. omega arith;
  fresh = λ n h. refl;
}

abbrev first : Connection
first = record { name = codes "s#1"; loop = 16; fd = 9; peer = 1000 }

abbrev second : Connection
second = record { name = codes "s#11"; loop = 16; fd = 10; peer = 2000 }

abbrev with_both : TcpServer
with_both = record listening {
  next_conn_id = 3;
  connections = (first.name, first) ∷ (second.name, second) ∷ [];
  tasks = (16, establishes first) ∷ (16, establishes second) ∷ [];
}

abbrev with_first : TcpServer
with_first = record listening {
  next_conn_id = 2;
  connections = (first.name, first) ∷ [];
  tasks = (16, establishes first) ∷ [];
}

takes_first : new_connection unary 9 1000 listening ≡ some with_first
unfolding new_connection get_next_loop admit run_in_loop assign conn_name eq_bytes
takes_first = refl

takes_second : new_connection unary 10 2000 with_first ≡ some with_both
unfolding new_connection get_next_loop admit run_in_loop assign conn_name eq_bytes
takes_second = refl

finds_first : find first.name with_both.connections ≡ some first
unfolding find eq_bytes
finds_first = refl

run : Run unary listening (remove_connection_in_loop first with_both)
run =
    then_step
      (then_step (then_step (here listening) (accepts 9 1000 with_first takes_first))
        (accepts 10 2000 with_both takes_second))
      (removes first finds_first)

Run_destruct_example :
    (destroyed (codes "s#11") (destruct (remove_connection_in_loop first with_both))
      ≡ established (codes "s#11") (destruct (remove_connection_in_loop first with_both)))
    × (established (codes "s#11") (destruct (remove_connection_in_loop first with_both)) ≤ 1)
    × (established (codes "s#11") (destruct (remove_connection_in_loop first with_both))
        ≡ established (codes "s#11") (remove_connection_in_loop first with_both))
    × ((destruct (remove_connection_in_loop first with_both)).connections ≡ [])
Run_destruct_example =
    Run_destruct unary unary_injective listening (remove_connection_in_loop first with_both)
      (codes "s#11") listening-IsBalanced run

-- Three connections at once, for a server with two loops.
abbrev two_loops : TcpServer
two_loops = record listening {
  pool = record {
    base_loop = 16;
    name = codes "s";
    started = true;
    num_threads = 2;
    next = 0;
    loops = 32 ∷ 48 ∷ [];
  };
}

abbrev acceptor : Acceptor TcpServer
acceptor = record { listening = true; reading = true; callback = some (new_connection unary) }

abbrev three : List (ℕ × ℕ)
three = (9, 1000) ∷ (10, 2000) ∷ (11, 3000) ∷ []

abbrev turned : EventLoopThreadPool
turned = record {
  base_loop = 16;
  name = codes "s";
  started = true;
  num_threads = 2;
  next = 1;
  loops = 32 ∷ 48 ∷ [];
}

three_calls : calls 3 two_loops.pool ≡ some (32 ∷ 48 ∷ 32 ∷ [], turned)
unfolding calls get_next_loop
three_calls = refl

handle_read-Took_example :
    (s' : TcpServer) × (handle_read acceptor (burst three (failed 11 ∷ [])) (two_loops, [])
      ≡ some ((s', []), []))
    × Took unary two_loops (32 ∷ 48 ∷ 32 ∷ []) turned three s'
unfolding is_expected
handle_read-Took_example =
    handle_read-Took unary acceptor three 11 [] two_loops [] (32 ∷ 48 ∷ 32 ∷ []) turned refl refl
      three_calls (omega arith)
