-- ===== src/EventLoop/Progress.antt =====
-- A batch of functors, from the swap to the next test of the loop, while other threads go on.
use agora_im.Shared.{
  ℕ, ◌+◌, ◌≤◌, ◌<◌, ◌≡◌, ◌∙◌, ap, refl, sym, Bool, true, false, List, [], ◌∷◌, ◌++◌, append-nil,
  append_assoc, arith,
}
use agora_im.EventLoop.{Calls, ends, queues, runs, quits, Functor, take_pending}
use agora_im.EventLoop.Threads.{
  names, batch, Pc, testing, polling, dispatching, starting, calling, stopped, System, Own, Other,
  before, goes_on, stops, reports, reports_wakeup, handler_queues, handler_runs, handler_quits,
  handlers_end, swaps, functor_queues, functor_runs, functor_quits, next_functor, batch_ends,
  other_pushes, other_quits, other_wakes,
}

-- Steps of all threads, in any order; the number counts those of the loop's thread.
pub data Run (s : System) : ℕ → System → Type 0 where
  here : Run s 0 s
  runs_on : {n : ℕ} {t u : System} → Run s n t → Own t u → Run s (n + 1) u
  meanwhile : {n : ℕ} {t u : System} → Run s n t → Other t u → Run s n u

-- The calls that a functor makes, those of the functors that it runs at once included.
abbrev pub size : Calls → ℕ
size ends = 0
size (queues f body cs) = 1 + size cs
size (runs f body cs) = 1 + size body + size cs
size (quits cs) = 1 + size cs

-- The steps that a batch takes: one to begin each functor, its calls, and one to end the batch.
abbrev pub load : List Functor → ℕ
load [] = 1
load (f ∷ fs) = 1 + size f.body + load fs

abbrev left : Pc → ℕ
left (calling cs fs) = size cs + load fs
left testing = 0
left polling = 0
left (dispatching cs) = 0
left starting = 0
left stopped = 0

-- In the batch, or just behind it.
abbrev about : Pc → Bool
about (calling cs fs) = true
about testing = true
about polling = false
about (dispatching cs) = false
about starting = false
about stopped = false

size-before : (cs ds : Calls) → size (before cs ds) ≡ size cs + size ds
size-before ends ds = omega arith
size-before (queues f body cs) ds = omega (arith, size-before cs ds)
size-before (runs f body cs) ds = omega (arith, size-before cs ds)
size-before (quits cs) ds = omega (arith, size-before cs ds)

some_load : (fs : List Functor) → 0 < load fs
some_load [] = omega arith
some_load (f ∷ fs) = omega (arith, some_load fs)

is_over : (p : Pc) → about p ≡ true → left p ≡ 0 → p ≡ testing
is_over testing a z = refl
is_over (calling cs fs) a z = absurd (omega (arith, z, some_load fs))
is_over polling a z = absurd (cc)
is_over (dispatching cs) a z = absurd (cc)
is_over starting a z = absurd (cc)
is_over stopped a z = absurd (cc)

-- The loop's thread is not stuck within a batch.
can_step : (s : System) (p : Pc) → s.pc ≡ p → about p ≡ true → 0 < left p → (t : System) × Own s t
can_step s (calling (queues f body cs) fs) e a h =
    let q : Functor = record { name = f; body = body } in (_, functor_queues q cs fs e)
can_step s (calling (runs f body cs) fs) e a h =
    let q : Functor = record { name = f; body = body } in (_, functor_runs q cs fs e)
can_step s (calling (quits cs) fs) e a h = (_, functor_quits cs fs e)
can_step s (calling ends (f ∷ fs)) e a h = (_, next_functor f fs e)
can_step s (calling ends []) e a h = (_, batch_ends e)
can_step s testing e a h = absurd (omega (arith, h))
can_step s polling e a h = absurd (cc)
can_step s (dispatching cs) e a h = absurd (cc)
can_step s starting e a h = absurd (cc)
can_step s stopped e a h = absurd (cc)

-- After `n` steps of a batch that takes `w`: what was called, and what is still to be, is `due`.
module _ (w : ℕ) (due : List ℕ) where
  record Progressed (n : ℕ) (t : System) : Type 0 where
    within : about t.pc ≡ true
    remains : n + left t.pc ≡ w
    flow : t.called ++ names (batch t.pc) ≡ due

  -- The call of a functor, which leaves what is to be called.
  goes_down :
      (n : ℕ) (t u : System) (cs : Calls) (fs : List Functor)
      → Progressed n t
      → names (batch t.pc) ≡ names fs
      → u.pc ≡ calling cs fs
      → u.called ≡ t.called
      → left t.pc ≡ 1 + (size cs + load fs)
      → Progressed (n + 1) u
  goes_down n t u cs fs p b e c l = record {
    within = ap about e;
    remains = omega (arith, p.remains, l, ap left e);
    flow =
        ap (λ q. u.called ++ names (batch q)) e
        ∙ ap (λ x. x ++ names fs) c
        ∙ ap (λ x. t.called ++ x) (sym b)
        ∙ p.flow;
  }

  Own-Progressed : (n : ℕ) (t u : System) → Progressed n t → n < w → Own t u → Progressed (n + 1) u
  Own-Progressed n t u p h (goes_on e q) = absurd (omega (arith, p.remains, ap left e, h))
  Own-Progressed n t u p h (stops e q) = absurd (omega (arith, p.remains, ap left e, h))
  Own-Progressed n t u p h (reports cs e) = absurd (cc (ap about e, p.within))
  Own-Progressed n t u p h (reports_wakeup cs e) = absurd (cc (ap about e, p.within))
  Own-Progressed n t u p h (handler_queues f cs e) = absurd (cc (ap about e, p.within))
  Own-Progressed n t u p h (handler_runs f cs e) = absurd (cc (ap about e, p.within))
  Own-Progressed n t u p h (handler_quits cs e) = absurd (cc (ap about e, p.within))
  Own-Progressed n t u p h (handlers_end e) = absurd (cc (ap about e, p.within))
  Own-Progressed n t u p h (swaps e) = absurd (cc (ap about e, p.within))
  Own-Progressed n t u p h (functor_queues f cs fs e) =
      goes_down n t _ cs fs p (ap (λ q. names (batch q)) e) refl refl (ap left e ∙ omega arith)
  Own-Progressed n t u p h (functor_runs f cs fs e) =
      goes_down n t _ (before f.body cs) fs p (ap (λ q. names (batch q)) e) refl refl
        (ap left e ∙ omega (arith, size-before f.body cs))
  Own-Progressed n t u p h (functor_quits cs fs e) =
      goes_down n t _ cs fs p (ap (λ q. names (batch q)) e) refl refl (ap left e ∙ omega arith)
  Own-Progressed n t u p h (next_functor f fs e) = record {
    within = refl;
    remains = omega (arith, p.remains, ap left e);
    flow =
        append_assoc t.called (f.name ∷ []) (names fs)
        ∙ ap (λ q. t.called ++ names (batch q)) (sym e)
        ∙ p.flow;
  }
  Own-Progressed n t u p h (batch_ends e) = record {
    within = refl;
    remains = omega (arith, p.remains, ap left e);
    flow = ap (λ q. t.called ++ names (batch q)) (sym e) ∙ p.flow;
  }

  Other-Progressed : (n : ℕ) (t u : System) → Progressed n t → Other t u → Progressed n u
  Other-Progressed n t u p (other_pushes f) = record {
    within = p.within;
    remains = p.remains;
    flow = p.flow;
  }
  Other-Progressed n t u p other_quits = record {
    within = p.within;
    remains = p.remains;
    flow = p.flow;
  }
  Other-Progressed n t u p (other_wakes m e) = record {
    within = p.within;
    remains = p.remains;
    flow = p.flow;
  }

  Run-Progressed :
      (s : System) {n : ℕ} {t : System} → Progressed 0 s → Run s n t → n ≤ w → Progressed n t
  Run-Progressed s p here h = p
  Run-Progressed s p (runs_on {n} {t} {u} r st) h =
      Own-Progressed n t u (Run-Progressed s p r (omega (arith, h))) (omega (arith, h)) st
  Run-Progressed s p (meanwhile {n} {t} {u} r st) h =
      Other-Progressed n t u (Run-Progressed s p r h) st

-- After the swap, in any interleaving of the loop's thread with others, whatever they and the functors
-- do: the functors called since, and those of the batch that are still to be called, are together just
-- those that waited at the swap, in order; the loop's thread is never stuck within the batch; and after
-- a number of its own steps that the batch fixes, one for each functor, for each call that one makes,
-- and for the end, it is back at the test whether to quit and has called them all, also when one
-- of them or another thread has quit the loop.
pub pending_called :
    (s s' : System) {n : ℕ} {t : System}
    → s.pc ≡ starting
    → Own s s'
    → Run s' n t
    → n ≤ load s.loop.pending
    → (t.called ++ names (batch t.pc) ≡ s.called ++ names s.loop.pending)
      × (n < load s.loop.pending → (u : System) × Own t u)
      × (n ≡ load s.loop.pending → (t.pc ≡ testing) × (t.called ≡ s.called ++ names s.loop.pending))
unfolding take_pending
pending_called s s' {n} {t} e first r h =
    let p =
      Run-Progressed (load s.loop.pending) (s.called ++ names s.loop.pending) s' (swapped first) r
        h in
    (
      p.flow,
      (λ more. can_step t t.pc refl p.within (omega (arith, p.remains, more))),
      λ all.
          let over = is_over t.pc p.within (omega (arith, p.remains, all)) in
          (
            over,
            sym (append-nil t.called) ∙ ap (λ q. t.called ++ names (batch q)) (sym over) ∙ p.flow,
          ),
    )
  where
    swapped :
        {u : System}
        → Own s u
        → Progressed (load s.loop.pending) (s.called ++ names s.loop.pending) 0 u
    swapped (swaps q) = record { within = refl; remains = omega arith; flow = refl }
    swapped (goes_on q _) = absurd (cc (e, q))
    swapped (stops q _) = absurd (cc (e, q))
    swapped (reports cs q) = absurd (cc (e, q))
    swapped (reports_wakeup cs q) = absurd (cc (e, q))
    swapped (handler_queues f cs q) = absurd (cc (e, q))
    swapped (handler_runs f cs q) = absurd (cc (e, q))
    swapped (handler_quits cs q) = absurd (cc (e, q))
    swapped (handlers_end q) = absurd (cc (e, q))
    swapped (functor_queues f cs fs q) = absurd (cc (e, q))
    swapped (functor_runs f cs fs q) = absurd (cc (e, q))
    swapped (functor_quits cs fs q) = absurd (cc (e, q))
    swapped (next_functor f fs q) = absurd (cc (e, q))
    swapped (batch_ends q) = absurd (cc (e, q))
