-- ===== src/EventLoopThreadPool/Examples.antt =====
-- Two threads.
use agora_im.Shared.{ℕ, ◌+◌, ◌<◌, ◌≡◌, some, [], ◌∷◌, Bytes, codes, length}
use agora_im.Shared.{replicate}
use agora_im.EventLoopThreadPool.{EventLoopThreadPool, new, set_thread_num, start, get_next_loop}
use agora_im.EventLoopThreadPool.Rounds.{rounds, start-rounds}

abbrev decimal : ℕ → Bytes
decimal n = (b'0' + n) ∷ []

-- The loop of a thread stands at an address made of its name.
abbrev loop_at : Bytes → ℕ
loop_at [] = 64
loop_at (c ∷ cs) = c + loop_at cs

start-rounds_example :
    (p : EventLoopThreadPool) × (start decimal loop_at (set_thread_num 2 (new 16 (codes "io")))
      ≡ some p)
    × (length p.loops ≡ 2)
    × (0 < 2 → rounds 3 p ≡ some (replicate 3 p.loops, p))
    × (◌≡◌ {A = ℕ} 2 0 → get_next_loop p ≡ some (16, p))
start-rounds_example = start-rounds decimal loop_at 16 (codes "io") 2 3
