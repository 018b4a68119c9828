-- ===== src/Buffer/Examples.antt =====
-- Runs of the buffer, and its theorems at concrete buffers.
use agora_im.Shared.{
  ℕ, ◌≤◌, ◌≡◌, refl, arith, List, [], ◌∷◌, ◌++◌, length, length-take, ap, take, some, none, leb,
  if◌then◌else◌, ◌⊎◌,
}
use agora_im.Buffer.{
  Buffer, contents, retrieve, retrieve_as_string, read_fd, read_room, Answer, failed, moved,
}
use agora_im.Buffer.Valid.{IsValid}
use agora_im.Buffer.Contents.{retrieve_as_string_lem}
use agora_im.Buffer.ReadFd.{read_fd_lem}
use agora_im.Buffer.Stream.{
  Op, appends, retrieves, takes, clears, run, run_queue, appended, run-run_queue,
}

-- A small vector: four bytes can be written at its end, and two have been read.
abbrev used : Buffer
used = record {
  buffer = 0 ∷ 0 ∷ 0 ∷ 0 ∷ 0 ∷ 0 ∷ 0 ∷ 0 ∷ 1 ∷ 2 ∷ 3 ∷ 13 ∷ 10 ∷ 4 ∷ 0 ∷ 0 ∷ 0 ∷ 0 ∷ [];
  reader_index = 10;
  writer_index = 14;
}

used-IsValid : IsValid used
used-IsValid = omega arith

contents-used : contents used ≡ 3 ∷ 13 ∷ 10 ∷ 4 ∷ []
unfolding contents
contents-used = refl

retrieve_as_string_lem_example : retrieve_as_string used 3 ≡ (
    if leb 3 (length (contents used)) then some (take 3 (contents used), retrieve used 3) else none)
retrieve_as_string_lem_example = retrieve_as_string_lem used 3 used-IsValid

-- The kernel has seven bytes, three more than fit.
abbrev seven : ℕ → Answer (List ℕ)
seven n = moved (take n (1 ∷ 2 ∷ 3 ∷ 4 ∷ 5 ∷ 6 ∷ 7 ∷ []))

moved-injective : {xs ys : List ℕ} → ◌≡◌ {A = Answer (List ℕ)} (moved xs) (moved ys) → xs ≡ ys
moved-injective e = cc

seven_fits : (n : ℕ) (bytes : List ℕ) → seven n ≡ moved bytes → length bytes ≤ n
seven_fits n bytes e =
    omega
      (arith, length-take {A = ℕ} n (1 ∷ 2 ∷ 3 ∷ 4 ∷ 5 ∷ 6 ∷ 7 ∷ []), ap length (moved-injective e))

read_room-used : read_room used ≡ 65540
unfolding read_room
read_room-used = refl

read_fd_lem_example :
    IsValid (read_fd seven used).1
    × (((e : ℕ) × (seven (read_room used) ≡ failed e) × (read_fd seven used ≡ (failed e, used)))
        ⊎ ((bytes : List ℕ) × (seven (read_room used) ≡ moved bytes)
            × ((read_fd seven used).0 ≡ moved (length bytes))
            × (contents (read_fd seven used).1 ≡ contents used ++ bytes)))
read_fd_lem_example = read_fd_lem seven used used-IsValid seven_fits (omega (arith, read_room-used))

abbrev calls : List Op
calls = appends (5 ∷ 6 ∷ 7 ∷ 8 ∷ 9 ∷ []) ∷ takes 2 ∷ retrieves 4 ∷ takes 9 ∷ clears ∷ []

run-run_queue_example : run used calls ≡ run_queue (contents used) calls
run-run_queue_example = run-run_queue used calls used-IsValid (unfold appended in omega arith)

run_stops : run_queue (contents used) calls ≡ ((3 ∷ 13 ∷ []) ∷ [], none)
unfolding run_queue contents
run_stops = refl
