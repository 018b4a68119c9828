-- ===== src/Logger/Printed.antt =====
-- What stands on the standard output after any calls of the logger.
use agora_im.Shared.{
  ℕ, ◌≡◌, ◌∙◌, ap, refl, sym, Bool, true, false, List, [], ◌∷◌, ◌++◌, append-nil, append_assoc, leb,
  if◌then◌else◌, Bool-cases, inl, inr, Bytes,
}
use agora_im.Logger.{
  LogLevel, info, warn, error, fatal, rank, Place, Logger, Outcome, goes_on, aborts, set_log_level,
  line_of, then_abort, log, no_tid, tid,
}

reaches : (x : LogLevel) → leb (rank x) (rank fatal) ≡ true
reaches info = refl
reaches warn = refl
reaches error = refl
reaches fatal = refl

pub data Entry : Type 0 where
  logs : Place → LogLevel → Bytes → Entry
  sets : LogLevel → Entry

abbrev pub is_fatal : LogLevel → Bool
is_fatal info = false
is_fatal warn = false
is_fatal error = false
is_fatal fatal = true

-- Whether a message of the highest level comes.
abbrev pub dies : List Entry → Bool
dies [] = false
dies (sets level ∷ es) = dies es
dies (logs at level msg ∷ es) = if is_fatal level then true else dies es

-- The threshold that is set when the process aborts, or in the end.
abbrev pub last_level : LogLevel → List Entry → LogLevel
last_level threshold [] = threshold
last_level threshold (sets level ∷ es) = last_level level es
last_level threshold (logs at level msg ∷ es) =
    if is_fatal level then threshold else last_level threshold es

abbrev pub finish : Bool → Logger → Outcome Unit
finish true l = aborts l
finish false l = goes_on tt l

module _ (put_time tid_text : ℕ → Bytes) where
  -- The calls one after the other, until the process aborts.
  unfoldable pub run : List Entry → Logger → Outcome Unit
  run [] l = goes_on tt l
  run (sets level ∷ es) l = run es (set_log_level level l)
  run (logs at level msg ∷ es) l = elim (log put_time tid_text at level msg l) [
    | aborts l' ↦ aborts l'
    | goes_on u l' ↦ run es l'
  ]

  -- The lines of the messages that reach the threshold of their time, up to the first of the highest
  -- level.
  abbrev pub lines : LogLevel → List Entry → List Bytes
  lines threshold [] = []
  lines threshold (sets level ∷ es) = lines level es
  lines threshold (logs at level msg ∷ es) =
      (if leb (rank threshold) (rank level)
        then line_of put_time tid_text at level msg ∷ []
        else [])
      ++ (if is_fatal level then [] else lines threshold es)

  -- A message below the highest level.
  pub log_mild :
      (at : Place) (level : LogLevel) (msg : Bytes) (l : Logger)
      → is_fatal level ≡ false
      → log put_time tid_text at level msg l
        ≡ goes_on tt (record l {
          printed =
              l.printed
              ++ (if leb (rank l.level) (rank level)
                  then line_of put_time tid_text at level msg ∷ []
                  else []);
        })
  unfolding log
  log_mild at level msg l h = elim (Bool-cases (leb (rank l.level) (rank level))) [
    | inl y ↦ rw y (mild level h)
    | inr n ↦ rw n (ap (λ p. goes_on tt (record l { printed = p })) (sym (append-nil l.printed)))
  ]
    where
      mild :
          (x : LogLevel)
          → is_fatal x ≡ false
          → {m : Logger} → then_abort put_time tid_text x m ≡ goes_on tt m
      mild info e = refl
      mild warn e = refl
      mild error e = refl
      mild fatal e = absurd (cc)

  -- A message of the highest level passes any threshold.
  pub log_fatal :
      (at : Place) (msg : Bytes) (l : Logger)
      → log put_time tid_text at fatal msg l
        ≡ aborts (record l { printed = l.printed ++ line_of put_time tid_text at fatal msg ∷ [] })
  unfolding log
  log_fatal at msg l = rw (reaches l.level) refl

  run_mild :
      (at : Place) (level : LogLevel) (msg : Bytes) (es : List Entry) (l : Logger)
      → is_fatal level ≡ false
      → ((m : Logger)
          → run es m
            ≡ finish (dies es) (record m {
              level = last_level m.level es;
              printed = m.printed ++ lines m.level es;
            }))
      → run (logs at level msg ∷ es) l
        ≡ finish (dies es) (record {
          level = last_level l.level es;
          printed =
              l.printed
              ++ ((if leb (rank l.level) (rank level)
                    then line_of put_time tid_text at level msg ∷ []
                    else [])
                  ++ lines l.level es);
        })
  unfolding run
  run_mild at level msg es l h ih =
      let shown =
        if leb (rank l.level) (rank level)
        then line_of put_time tid_text at level msg ∷ []
        else [] in
      rw (run, log_mild at level msg l h)
        (ih (record l { printed = l.printed ++ shown })
          ∙ ap (λ p. finish (dies es) (record { level = last_level l.level es; printed = p }))
              (append_assoc l.printed shown (lines l.level es)))

  -- After any calls of the logger the process has aborted just when one of them was of the highest
  -- level, whatever thresholds were set; and what is printed behind the lines of before is, in
  -- order, the line of each message that reached the threshold of its time, up to the one that
  -- aborted, which is printed too.
  pub run-lines :
      (es : List Entry) (l : Logger)
      → run es l
        ≡ finish
            (dies es)
            (record { level = last_level l.level es; printed = l.printed ++ lines l.level es })
  unfolding run set_log_level
  run-lines [] l = ap (λ p. goes_on tt (record l { printed = p })) (sym (append-nil l.printed))
  run-lines (sets level ∷ es) l = run-lines es (record l { level = level })
  run-lines (logs at fatal msg ∷ es) l = rw (run, log_fatal at msg l, reaches l.level) refl
  run-lines (logs at info msg ∷ es) l = run_mild at info msg es l refl (λ m. run-lines es m)
  run-lines (logs at warn msg ∷ es) l = run_mild at warn msg es l refl (λ m. run-lines es m)
  run-lines (logs at error msg ∷ es) l = run_mild at error msg es l refl (λ m. run-lines es m)

-- However often a thread asks for its id, it gets the id that the system gave it, and from the
-- first answer on the system is not asked again.
pub tid_lem :
    (get_id other : ℕ)
    → ((tid get_id no_tid).0 ≡ get_id)
      × (tid other (tid get_id no_tid).1 ≡ (get_id, (tid get_id no_tid).1))
unfolding tid
tid_lem get_id other = (refl, refl)
