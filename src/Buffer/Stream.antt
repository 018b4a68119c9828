-- ===== src/Buffer/Stream.antt =====
-- The buffer as a byte queue: no sequence of calls tells them apart.
use agora_im.Shared.{
  ℕ, ◌+◌, ◌≤◌, ◌<◌, ◌≡◌, refl, ap, ◌∙◌, arith, List, [], ◌∷◌, ◌++◌, length, take, drop, Option,
  some, none, leb, if◌then◌else◌, max_bytes, Bool-cases, inl, inr,
}
use agora_im.Buffer.{
  Buffer, contents, append, retrieve, retrieve_all, retrieve_as_string, put, ensure_writable_bytes,
  make_space,
}
use agora_im.Buffer.Valid.{IsValid}
use agora_im.Buffer.Contents.{contents-append, contents-retrieve, retrieve_as_string_lem}

pub data Op : Type 0 where
  appends : List ℕ → Op
  retrieves : ℕ → Op
  takes : ℕ → Op
  clears : Op

-- The answers of the calls, and the bytes left; after a failed assertion nothing follows.
abbrev pub Trace : Type 0
Trace = List (List ℕ) × Option (List ℕ)

abbrev answered : List ℕ → Trace → Trace
answered bytes t = (bytes ∷ t.0, t.1)

unfoldable pub run : Buffer → List Op → Trace
run b [] = ([], some (contents b))
run b (appends bytes ∷ ops) = run (append b bytes) ops
run b (retrieves n ∷ ops) = run (retrieve b n) ops
run b (takes n ∷ ops) = elim (retrieve_as_string b n) [
  | none ↦ ([], none)
  | some (bytes, b') ↦ answered bytes (run b' ops)
]
run b (clears ∷ ops) = run (retrieve_all b) ops

-- The queue: a list of bytes, oldest first.
unfoldable pub run_queue : List ℕ → List Op → Trace
run_queue q [] = ([], some q)
run_queue q (appends bytes ∷ ops) = run_queue (q ++ bytes) ops
run_queue q (retrieves n ∷ ops) = run_queue (drop n q) ops
run_queue q (takes n ∷ ops) =
    if leb n (length q) then answered (take n q) (run_queue (drop n q) ops) else ([], none)
run_queue q (clears ∷ ops) = run_queue [] ops

-- The bytes that the calls append.
unfoldable pub appended : List Op → ℕ
appended [] = 0
appended (appends bytes ∷ ops) = length bytes + appended ops
appended (retrieves n ∷ ops) = appended ops
appended (takes n ∷ ops) = appended ops
appended (clears ∷ ops) = appended ops

writer_index-make_space :
    (b : Buffer) (len : ℕ) → IsValid b → (make_space b len).writer_index ≤ b.writer_index
unfolding make_space
writer_index-make_space b len v = ground arith

pub writer_index-append :
    (b : Buffer) (bytes : List ℕ)
    → IsValid b
    → (append b bytes).writer_index ≤ b.writer_index + length bytes
unfolding append put ensure_writable_bytes
writer_index-append b bytes v = ground (arith, writer_index-make_space b (length bytes) v)

writer_index-retrieve :
    (b : Buffer) (n : ℕ) → IsValid b → (retrieve b n).writer_index ≤ b.writer_index
unfolding retrieve
writer_index-retrieve b n v = ground arith

retrieve_all_lem :
    (b : Buffer) → IsValid b → IsValid (retrieve_all b) × (contents (retrieve_all b) ≡ [])
unfolding retrieve_all contents
retrieve_all_lem b v = (omega arith, refl)

writer_index-retrieve_all :
    (b : Buffer) → IsValid b → (retrieve_all b).writer_index ≤ b.writer_index
unfolding retrieve_all
writer_index-retrieve_all b v = omega arith

-- Every sequence of appends and retrievals on a valid buffer gives the answers of the queue that
-- starts with the readable bytes, a failed assertion included, provided that the bytes appended
-- would fit behind the writer index without reaching the vector's largest size.
pub run-run_queue :
    (b : Buffer) (ops : List Op)
    → IsValid b
    → b.writer_index + appended ops < max_bytes
    → run b ops ≡ run_queue (contents b) ops
unfolding run run_queue appended
run-run_queue b [] v h = refl
run-run_queue b (appends bytes ∷ ops) v h =
    let (v', e) = contents-append b bytes v (omega arith) in
    run-run_queue (append b bytes) ops v' (omega (arith, writer_index-append b bytes v))
    ∙ ap (λ q. run_queue q ops) e
run-run_queue b (retrieves n ∷ ops) v h =
    let (v', e) = contents-retrieve b n v in
    run-run_queue (retrieve b n) ops v' (omega (arith, writer_index-retrieve b n v))
    ∙ ap (λ q. run_queue q ops) e
run-run_queue b (takes n ∷ ops) v h =
    let (v', e) = contents-retrieve b n v in
    let ih = run-run_queue (retrieve b n) ops v' (omega (arith, writer_index-retrieve b n v)) in
    elim (Bool-cases (leb n (length (contents b)))) [
      | inl enough ↦
          rw (retrieve_as_string_lem b n v, enough, run)
            (ap (answered (take n (contents b))) (ih ∙ ap (λ q. run_queue q ops) e))
      | inr short ↦ rw (retrieve_as_string_lem b n v, short, run)
    ]
run-run_queue b (clears ∷ ops) v h =
    let (v', e) = retrieve_all_lem b v in
    run-run_queue (retrieve_all b) ops v' (omega (arith, writer_index-retrieve_all b v))
    ∙ ap (λ q. run_queue q ops) e
