-- ===== src/EventLog/Recovery.antt =====
-- The recovery brings a pending event to its end, or leaves it pending.
use guest_components.Prelude.{
  ℕ, ◌≡◌, refl, sym, ap, ◌∙◌, ◌⊎◌, inl, inr, none, some, ◌++◌, arith, Bytes, length, take, drop,
  Bool-cases, str_eq, str_eq_iff, length-append, take-length,
}
use guest_components.EventLog.Event.{Event, to_string}
use guest_components.EventLog.EventLaws.{try_from-to_string_total}
use guest_components.EventLog.Files.{write_at-append, take-overwrite, overwrite_whole}
use guest_components.EventLog.Machine.{
  Attester, Store, World, M, ◌>>◌, write, write_at, write_log, move_to, advance, seek,
  clean_wal_cache,
}
use guest_components.EventLog.Outcomes.{
  seek_then, clean_end, extend_then, after, get_measurement_eq, run_until, Never, Ensures,
  write_then,
}
use guest_components.EventLog.Journal.{recover, recover_register}
use guest_components.EventLog.States.{
  IsLawful, entry_of, value_of, extended, IsClean, IsPending, IsLoggable, IsPositioned,
}
use guest_components.EventLog.WalLaws.{serialize-congr, str_eq_of_eq}

module _ {S : Type 0} (a : Attester S) where
  module _ (pcr : ℕ) (base r : Bytes) (e : Event) where
    abbrev pub IsRecovered : Unit {0} → World S → Type 0
    IsRecovered x w =
        IsClean a pcr (base ++ entry_of a pcr e) (extended a pcr e r) w.store × IsPositioned w.store

    -- The entry is written over what is there of it.
    abbrev rewrite_entry : M S (Unit {0})
    rewrite_entry = do seek (length base); write (entry_of a pcr e); clean_wal_cache

    overwritten :
        (s : Store S) (p : IsPending a pcr base r e s) (x : Bytes)
        → write_at (length base) x s.log
          ≡ base ++ (x ++ drop (length x) (take p.written (entry_of a pcr e)))
    overwritten s p x = ap (write_at (length base) x) p.log_is ∙ write_at-append base x _

    -- An interrupted rewriting is still pending.
    write_log-IsPending :
        (s : Store S) (i : ℕ)
        → IsPending a pcr base r e s
        → IsPending a pcr base r e (write_log (take i (entry_of a pcr e)) (move_to (length base) s))
    write_log-IsPending s i p =
        let (k, same) = take-overwrite i p.written (entry_of a pcr e) in
        record {
          written = k;
          log_is = overwritten s p (take i (entry_of a pcr e)) ∙ ap (◌++◌ base) same;
          wal_is = p.wal_is;
          register_is = p.register_is;
        }

    write_log_whole :
        (s : Store S)
        → IsPending a pcr base r e s
        → (write_log (entry_of a pcr e) (move_to (length base) s)).log ≡ base ++ entry_of a pcr e
    write_log_whole s p =
        overwritten s p (entry_of a pcr e)
        ∙ ap (◌++◌ base) (overwrite_whole p.written (entry_of a pcr e))

    IsPending-whole :
        (s s' : Store S)
        → IsPending a pcr base r e s
        → s'.log ≡ base ++ entry_of a pcr e
        → s'.wal ≡ s.wal
        → s'.registers ≡ s.registers
        → IsPending a pcr base r e s'
    IsPending-whole s s' p log wal registers = record {
      written = length (entry_of a pcr e);
      log_is = log ∙ ap (◌++◌ base) (sym (take-length (entry_of a pcr e)));
      wal_is = wal ∙ p.wal_is;
      register_is = rw registers p.register_is;
    }

    -- Behind the entry both the cursor and the program's position are the end of the file.
    pub advance-IsPositioned :
        (s s' : Store S)
        → IsLoggable a pcr base e
        → s.writer ≡ record { cursor = length base; pos = length base }
        → s'.log ≡ base ++ entry_of a pcr e
        → s'.writer ≡ (advance (entry_of a pcr e) (write_log (entry_of a pcr e) s)).writer
        → IsPositioned s'
    advance-IsPositioned s s' fits at log writer =
        rw (writer, log, at) (ground (arith, length-append base (entry_of a pcr e)))

    rewrite_entry-Ensures :
        (s : Store S) (n torn : ℕ)
        → IsLoggable a pcr base e
        → IsPending a pcr base r e s
        → a.get_runtime_measurement s.registers pcr ≡ some (extended a pcr e r)
        → Ensures IsRecovered Never (IsPending a pcr base r e) (rewrite_entry (run_until s n torn))
    rewrite_entry-Ensures s n torn fits p x =
        let whole = write_log_whole s p in
        let end =
          advance (entry_of a pcr e) (write_log (entry_of a pcr e) (move_to (length base) s)) in
        seek_then (length base) (write (entry_of a pcr e) >> clean_wal_cache) s n torn p λ m.
          write_then (entry_of a pcr e) clean_wal_cache (move_to (length base) s) m torn
            (λ i. write_log-IsPending s i p) (IsPending-whole s _ p whole refl refl)
            λ m'. clean_end _ m' torn _ p.wal_is (IsPending-whole s _ p whole refl refl) (λ m''. (
              record { log_is = whole; no_wal = refl; register_is = x },
              advance-IsPositioned (move_to (length base) s) (record end { wal = none }) fits refl
                  whole refl,
            ))

    extended-IsPending :
        (s : Store S) (p : IsPending a pcr base r e s) (registers : S)
        → a.get_runtime_measurement registers pcr ≡ some (extended a pcr e r)
        → IsPending a pcr base r e (record s { registers = registers })
    extended-IsPending s p registers x = record {
      written = p.written;
      log_is = p.log_is;
      wal_is = p.wal_is;
      register_is = inr x;
    }

    current_register :
        (s : Store S)
        → IsPending a pcr base r e s
        → (current : Bytes) × (a.get_runtime_measurement s.registers pcr ≡ some current)
          × ((current ≡ r) ⊎ (current ≡ extended a pcr e r))
    current_register s p = elim p.register_is [
      | inl x ↦ (r, x, inl refl)
      | inr x ↦ (extended a pcr e r, x, inr refl)
    ]

    -- Bringing the register to its recorded value, and what follows.
    recover_register-Ensures :
        (s : Store S) (n torn : ℕ) (current : Bytes)
        → IsLawful a
        → IsLoggable a pcr base e
        → IsPending a pcr base r e s
        → a.get_runtime_measurement s.registers pcr ≡ some current
        → (current ≡ r) ⊎ (current ≡ extended a pcr e r)
        → Ensures IsRecovered Never (IsPending a pcr base r e) (
            (recover_register a current (value_of a pcr e) (extended a pcr e r) pcr
                >> rewrite_entry)
              (run_until s n torn))
    unfolding recover_register
    recover_register-Ensures s n torn current law fits p x (inr same) =
        rw (str_eq_of_eq a same) (rewrite_entry-Ensures s n torn fits p (x ∙ ap some same))
    recover_register-Ensures s n torn current law fits p x (inl same) =
        let (registers, extends, reads) =
          law.extends s.registers pcr current (value_of a pcr e) x in
        let value_is : a.get_runtime_measurement registers pcr ≡ some (extended a pcr e r) =
          reads ∙ ap (λ t. some (a.hash a.ccel_hash_algorithm (t ++ value_of a pcr e))) same in
        elim (Bool-cases (str_eq current (extended a pcr e r))) [
          | inl done_before ↦
              rw done_before (
                rewrite_entry-Ensures s n torn fits p
                  (x ∙ ap some ((str_eq_iff _ _).0 done_before)))
          | inr before ↦
              rw
                (
                  before,
                  str_eq_of_eq a
                      (ap (λ t. a.hash a.ccel_hash_algorithm (t ++ value_of a pcr e)) same),
                )
                (extend_then a (value_of a pcr e) pcr rewrite_entry s n torn registers extends p
                  λ m.
                    rewrite_entry-Ensures (record s { registers = registers }) m torn fits
                      (extended-IsPending s p registers value_is) value_is)
        ]

    -- The recovery, from the record that was read.
    pub recover-Ensures :
        (s : Store S) (n torn : ℕ)
        → IsLawful a
        → IsLoggable a pcr base e
        → IsPending a pcr base r e s
        → Ensures IsRecovered Never (IsPending a pcr base r e) (
            recover a
              (record {
                expected_pcr = extended a pcr e r;
                event_data = to_string e;
                event_offset = length base;
              })
              pcr
              (run_until s n torn))
    unfolding recover
    recover-Ensures s n torn law fits p =
        let (current, x, which) = current_register s p in
        let (e', parsed, same) = try_from-to_string_total e fits.one_line in
        after _ (sym (get_measurement_eq a pcr (run_until s n torn) x)) (
          rw parsed (
            rw (serialize-congr a e e' (a.pcr_to_ccmr pcr) a.ccel_hash_algorithm same)
              (recover_register-Ensures s n torn current law fits p x which)))
