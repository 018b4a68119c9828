-- ===== src/Logger/Examples.antt =====
-- The logger at work.
use agora_im.Shared.{ℕ, ◌≡◌, refl, List, [], ◌∷◌, true, Bytes, codes, decimal}
use agora_im.Logger.{info, warn, error, fatal, Place, new}
use agora_im.Logger.Printed.{Entry, logs, sets, run, lines, finish, dies, run-lines}

abbrev date : ℕ → Bytes
date n = codes "today"

abbrev main_line : Place
main_line = record { clock = 0; thread = 1; file = codes "main.cpp"; line = 9 }

-- A message, a higher threshold, a message below it, and one that aborts the process.
abbrev entries : List Entry
entries =
    logs main_line info (codes "up")
    ∷ sets error
    ∷ logs main_line warn (codes "slow")
    ∷ logs main_line fatal (codes "gone")
    ∷ logs main_line info (codes "never")
    ∷ []

entries_die : dies entries ≡ true
entries_die = refl

run-lines_example :
    run date decimal entries new
    ≡ finish true (record { level = error; printed = lines date decimal info entries })
run-lines_example = run-lines date decimal entries new
