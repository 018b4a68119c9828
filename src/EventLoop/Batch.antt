-- ===== src/EventLoop/Batch.antt =====
-- One call of `doPendingFunctors`.
use agora_im.Shared.{
  ℕ, ◌+◌, ◌≡◌, ◌∙◌, ap, refl, sym, Bool, true, false, ◌||◌, List, [], ◌∷◌, ◌++◌, append-nil,
  append_assoc, if◌then◌else◌, Bool-cases, inl, inr, arith, length, length-append,
}
use agora_im.EventLoop.{
  Calls, ends, queues, runs, quits, Functor, EventLoop, wakeup, push, queue_in_loop, quit_loop,
  run_calls, run_functors, take_pending, do_pending_functors,
}

-- The functors that the calls run at once, those that they put in the queue, and whether they quit.
unfoldable pub runs_now : Calls → List ℕ
runs_now ends = []
runs_now (queues f body cs) = runs_now cs
runs_now (runs f body cs) = f ∷ runs_now body ++ runs_now cs
runs_now (quits cs) = runs_now cs

unfoldable pub queued_by : Calls → List Functor
queued_by ends = []
queued_by (queues f body cs) = record { name = f; body = body } ∷ queued_by cs
queued_by (runs f body cs) = queued_by body ++ queued_by cs
queued_by (quits cs) = queued_by cs

unfoldable pub has_quit : Calls → Bool
has_quit ends = false
has_quit (queues f body cs) = has_quit cs
has_quit (runs f body cs) = has_quit body || has_quit cs
has_quit (quits cs) = true

-- What running some calls leaves: these functors ran, those wait behind the ones that waited before,
-- and each of those has written to the eventfd if the loop was calling its functors.
pub record Leaves (ran : List ℕ) (more : List Functor) (stops : Bool) (l : EventLoop)
    (r : List ℕ × EventLoop) : Type 0 where
  pub ran_lem : r.0 ≡ ran
  pub pending : r.1.pending ≡ l.pending ++ more
  pub quit : r.1.quit ≡ (l.quit || stops)
  pub calling : r.1.calling ≡ l.calling
  pub wakeups : r.1.wakeups ≡ l.wakeups + (if l.calling then length more else 0)
  pub looping : r.1.looping ≡ l.looping

or_assoc : (a b c : Bool) → ((a || b) || c) ≡ (a || (b || c))
or_assoc true b c = refl
or_assoc false b c = refl

or_false : (a : Bool) → (a || false) ≡ a
or_false true = refl
or_false false = refl

counted :
    (b : Bool) (xs ys : List Functor)
    → (if b then length (xs ++ ys) else 0)
      ≡ (if b then length xs else 0) + (if b then length ys else 0)
counted true xs ys = length-append xs ys
counted false xs ys = refl

-- One run behind another.
Leaves-then :
    (xs ys : List ℕ) (fs gs : List Functor) (a b : Bool) (l : EventLoop) (r s : List ℕ × EventLoop)
    → Leaves xs fs a l r
    → Leaves ys gs b r.1 s
    → Leaves (xs ++ ys) (fs ++ gs) (a || b) l (r.0 ++ s.0, s.1)
Leaves-then xs ys fs gs a b l r s p q = record {
  ran_lem = rw (p.ran_lem, q.ran_lem);
  pending = q.pending ∙ ap (λ z. z ++ gs) p.pending ∙ append_assoc l.pending fs gs;
  quit = q.quit ∙ ap (λ z. z || b) p.quit ∙ or_assoc l.quit a b;
  calling = q.calling ∙ p.calling;
  wakeups =
      let e : s.1.wakeups ≡ r.1.wakeups + (if l.calling then length gs else 0) =
        rw p.calling at q.wakeups in
      omega (arith, p.wakeups, e, counted l.calling fs gs);
  looping = q.looping ∙ p.looping;
}

queue_in_loop-Leaves :
    (f : Functor) (l : EventLoop) → Leaves [] (f ∷ []) false l ([], queue_in_loop true f l)
unfolding queue_in_loop push wakeup
queue_in_loop-Leaves f l = elim (Bool-cases l.calling) [
  | inl c ↦ rw c record {
    ran_lem = refl;
    pending = refl;
    quit = sym (or_false l.quit);
    calling = refl;
    wakeups = refl;
    looping = refl;
  }
  | inr c ↦ rw c record {
    ran_lem = refl;
    pending = refl;
    quit = sym (or_false l.quit);
    calling = refl;
    wakeups = omega arith;
    looping = refl;
  }
]

or_true : (a : Bool) → true ≡ (a || true)
or_true true = refl
or_true false = refl

no_more : (b : Bool) (n : ℕ) → n ≡ n + (if b then 0 else 0)
no_more b n = ground arith

quit_loop-Leaves : (l : EventLoop) → Leaves [] [] true l ([], quit_loop true l)
unfolding quit_loop wakeup
quit_loop-Leaves l = record {
  ran_lem = refl;
  pending = sym (append-nil l.pending);
  quit = or_true l.quit;
  calling = refl;
  wakeups = no_more l.calling l.wakeups;
  looping = refl;
}

named :
    (f : ℕ) (xs : List ℕ) (fs : List Functor) (a : Bool) (l : EventLoop) (r : List ℕ × EventLoop)
    → Leaves xs fs a l r
    → Leaves (f ∷ xs) fs a l (f ∷ r.0, r.1)
named f xs fs a l r p = record {
  ran_lem = ap (λ z. f ∷ z) p.ran_lem;
  pending = p.pending;
  quit = p.quit;
  calling = p.calling;
  wakeups = p.wakeups;
  looping = p.looping;
}

pub run_calls-Leaves :
    (cs : Calls) (l : EventLoop)
    → Leaves (runs_now cs) (queued_by cs) (has_quit cs) l (run_calls cs l)
unfolding run_calls runs_now queued_by has_quit
run_calls-Leaves ends l = record {
  ran_lem = refl;
  pending = sym (append-nil l.pending);
  quit = sym (or_false l.quit);
  calling = refl;
  wakeups = no_more l.calling l.wakeups;
  looping = refl;
}
run_calls-Leaves (queues f body cs) l =
    let q : Functor = record { name = f; body = body } in
    let l' = queue_in_loop true q l in
    Leaves-then [] (runs_now cs) (q ∷ []) (queued_by cs) false (has_quit cs) l ([], l')
      (run_calls cs l') (queue_in_loop-Leaves q l) (run_calls-Leaves cs l')
run_calls-Leaves (runs f body cs) l =
    let r = run_calls body l in
    named f (runs_now body ++ runs_now cs) (queued_by body ++ queued_by cs) _ l _ (
      Leaves-then (runs_now body) (runs_now cs) (queued_by body) (queued_by cs) (has_quit body)
        (has_quit cs) l r (run_calls cs r.1) (run_calls-Leaves body l) (run_calls-Leaves cs r.1))
run_calls-Leaves (quits cs) l =
    let l' = quit_loop true l in
    Leaves-then [] (runs_now cs) [] (queued_by cs) true (has_quit cs) l ([], l') (run_calls cs l')
      (quit_loop-Leaves l) (run_calls-Leaves cs l')

-- The same of a batch of functors.
unfoldable pub batch_runs : List Functor → List ℕ
batch_runs [] = []
batch_runs (f ∷ fs) = f.name ∷ runs_now f.body ++ batch_runs fs

unfoldable pub batch_queued : List Functor → List Functor
batch_queued [] = []
batch_queued (f ∷ fs) = queued_by f.body ++ batch_queued fs

unfoldable pub batch_has_quit : List Functor → Bool
batch_has_quit [] = false
batch_has_quit (f ∷ fs) = has_quit f.body || batch_has_quit fs

run_functors-Leaves :
    (fs : List Functor) (l : EventLoop)
    → Leaves (batch_runs fs) (batch_queued fs) (batch_has_quit fs) l (run_functors fs l)
unfolding run_functors batch_runs batch_queued batch_has_quit
run_functors-Leaves [] l = record {
  ran_lem = refl;
  pending = sym (append-nil l.pending);
  quit = sym (or_false l.quit);
  calling = refl;
  wakeups = no_more l.calling l.wakeups;
  looping = refl;
}
run_functors-Leaves (f ∷ fs) l =
    let r = run_calls f.body l in
    named f.name (runs_now f.body ++ batch_runs fs) (queued_by f.body ++ batch_queued fs) _ l _ (
      Leaves-then (runs_now f.body) (batch_runs fs) (queued_by f.body) (batch_queued fs)
        (has_quit f.body) (batch_has_quit fs) l r (run_functors fs r.1) (run_calls-Leaves f.body l)
        (run_functors-Leaves fs r.1))

-- One call of `doPendingFunctors` runs every functor that waited, each once and in order, with what
-- these run at once. The functors that they queue wait for the next call, in order, and each of them
-- has written to the eventfd, so that the next poll does not sleep on it. A functor that quits is
-- remembered, and the flag that is set during the call is cleared.
pub do_pending_functors_lem :
    (l : EventLoop)
    → let (ran, l') = do_pending_functors l in
      (ran ≡ batch_runs l.pending)
      × (l'.pending ≡ batch_queued l.pending)
      × (l'.wakeups ≡ l.wakeups + length (batch_queued l.pending))
      × (l'.quit ≡ (l.quit || batch_has_quit l.pending))
      × (l'.calling ≡ false)
unfolding do_pending_functors take_pending
do_pending_functors_lem l =
    let r = run_functors-Leaves l.pending (record l { calling = true; pending = [] }) in
    (r.ran_lem, r.pending, r.wakeups, r.quit, refl)
