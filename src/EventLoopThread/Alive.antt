-- ===== src/EventLoopThread/Alive.antt =====
-- The pointer to the loop, and the join.
use agora_im.Shared.{◌≡◌, ◌≢◌, ◌∙◌, ◌⊎◌, ap, refl, Bool, true, false, if◌then◌else◌, inl, inr}
use agora_im.EventLoopThread.{
  Worker, unborn, building, ready, looping, leaving, exited, Owner, idle, running, joining, joined,
  EventLoopThread, new, Step, starts, publishes, returns, enters, quits_itself, leaves, clears,
  destroys_idle, destroys, joins, Reach, first, later,
}

-- The loop is an object on the thread's stack, which is there between these places.
abbrev pub has_loop : Worker → Bool
has_loop unborn = false
has_loop building = false
has_loop ready = true
has_loop looping = true
has_loop leaving = true
has_loop exited = false

-- The thread is joined only at its end, or was never started.
pub record IsSound (s : EventLoopThread) : Type 0 where
  pub alive : s.pointer ≡ has_loop s.worker
  pub fresh : s.owner ≡ idle → s.worker ≡ unborn
  pub ended : s.owner ≡ joined → (s.worker ≡ exited) ⊎ (s.worker ≡ unborn)

is_started : Worker → Bool
is_started unborn = false
is_started building = true
is_started ready = true
is_started looping = true
is_started leaving = true
is_started exited = false

-- The thread moves between two places where it is at work.
moves :
    (s : EventLoopThread) (w : Worker) (p q : Bool)
    → IsSound s
    → is_started s.worker ≡ true
    → p ≡ has_loop w
    → IsSound (record s { worker = w; pointer = p; quit = q })
unfolding is_started
moves s w p q i work e = record {
  alive = e;
  fresh = λ o. absurd (cc (work, ap is_started (i.fresh o)));
  ended = λ o. elim (i.ended o) [
    | inl x ↦ absurd (cc (work, ap is_started x))
    | inr x ↦ absurd (cc (work, ap is_started x))
  ];
}

-- The owner moves on to a place that is neither the first nor the last.
owns :
    (s : EventLoopThread) (o : Owner) (q : Bool)
    → IsSound s
    → o ≢ idle
    → o ≢ joined
    → IsSound (record s { owner = o; quit = q })
owns s o q i n m = record { alive = i.alive; fresh = λ e. absurd (n e); ended = λ e. absurd (m e) }

Step-IsSound : (s t : EventLoopThread) → IsSound s → Step s t → IsSound t
unfolding is_started
Step-IsSound s t i (starts o n) = record {
  alive = i.alive ∙ ap has_loop (i.fresh o);
  fresh = λ e. absurd (cc e);
  ended = λ e. absurd (cc e);
}
Step-IsSound s t i (publishes w) = moves s ready true s.quit i (ap is_started w) refl
Step-IsSound s t i (returns o p) = owns s running s.quit i (λ e. cc) (λ e. cc)
Step-IsSound s t i (enters w) =
    moves s looping s.pointer false i (ap is_started w) (i.alive ∙ ap has_loop w)
Step-IsSound s t i (quits_itself w) = record { alive = i.alive; fresh = i.fresh; ended = i.ended }
Step-IsSound s t i (leaves w q) =
    moves s leaving s.pointer s.quit i (ap is_started w) (i.alive ∙ ap has_loop w)
Step-IsSound s t i (clears w) = moves s exited false s.quit i (ap is_started w) refl
Step-IsSound s t i (destroys_idle o) = record {
  alive = i.alive;
  fresh = λ e. absurd (cc e);
  ended = λ e. inr (i.fresh o);
}
Step-IsSound s t i (destroys o) =
    owns s joining (if s.pointer then true else s.quit) i (λ e. cc) (λ e. cc)
Step-IsSound s t i (joins o w) = record {
  alive = i.alive;
  fresh = λ e. absurd (cc e);
  ended = λ e. inl w;
}

-- However the steps fall: the pointer is set just while the loop is on the thread's stack, so that
-- what `startLoop` returned stays a loop until the thread leaves it; and a destructor that is through
-- leaves no thread behind.
pub Reach-IsSound : (s : EventLoopThread) → Reach s → IsSound s
unfolding new
Reach-IsSound s first = record { alive = refl; fresh = λ e. refl; ended = λ e. inr refl }
Reach-IsSound s (later {s = r} h step) = Step-IsSound r s (Reach-IsSound r h) step

-- The owner waits for a thread that is told nothing.
pub record IsStuck (s : EventLoopThread) : Type 0 where
  pub waits : s.owner ≡ joining
  pub loops : s.worker ≡ looping
  pub told : s.quit ≡ false

-- A destructor that runs when the thread has set the pointer and has not entered `loop()` sets a flag
-- that `loop()` then clears: from there the owner waits until something in the loop itself quits it.
pub Reach-IsStuck :
    (s : EventLoopThread)
    → Reach s
    → s.owner ≡ running
    → s.worker ≡ ready
    → (t : EventLoopThread) × Reach t × IsStuck t
Reach-IsStuck s h o w = (
  record s { owner = joining; worker = looping; quit = false },
  later (later h (destroys o)) (enters w),
  record { waits = refl; loops = refl; told = refl },
)
