-- ===== src/EventLog/Extend.antt =====
-- `extend_entry`: what it does, and what it leaves when it is killed.
use guest_components.Prelude.{
  ℕ, ◌≡◌, refl, sym, ap, ◌∙◌, ◌⊎◌, inl, inr, none, some, [], ◌++◌, append_assoc, append-nil, Bytes,
  length, take, drop, take-length, take-append-drop,
}
use mathlib.Core.Path.{subst}
use guest_components.Prelude.Words.{be_bytes}
use guest_components.EventLog.Event.{Event, to_string}
use guest_components.EventLog.Machine.{
  Attester, FileWriter, Store, M, ◌>>◌, untouched, advance, write_log, write, clean_wal_cache,
  extend_measurement,
}
use guest_components.EventLog.Outcomes.{
  run_until, Never, Ensures, act_end, bind_then, after, create_wal_then, write_wal_then,
  extend_then, write_then, clean_end, get_measurement_eq,
}
use guest_components.EventLog.Journal.{WalCache, write_wal_cache, extend_entry}
use guest_components.EventLog.States.{
  IsLawful, entry_of, value_of, extended, wal_file, IsClean, IsKilled, IsLoggable, IsPositioned,
}
use guest_components.EventLog.Recovery.{IsRecovered, advance-IsPositioned}
use guest_components.EventLog.Files.{write_at_end}
use guest_components.EventLog.Start.{handle}

-- A write that is cut short within one piece of a file.
torn_piece :
    (before piece behind : Bytes) (i : ℕ)
    → (before ++ take i piece) ++ (drop i piece ++ behind) ≡ before ++ (piece ++ behind)
torn_piece before piece behind i =
    append_assoc before (take i piece) (drop i piece ++ behind)
    ∙ ap (◌++◌ before) (
        sym (append_assoc (take i piece) (drop i piece) behind)
        ∙ ap (λ t. t ++ behind) (take-append-drop i piece))

module _ {S : Type 0} (a : Attester S) (pcr : ℕ) (base r : Bytes) (e : Event) where
  -- The store between two events.
  abbrev idle : S → Store S
  idle g = record {
    log = base;
    wal = none;
    registers = g;
    writer = record { cursor = length base; pos = length base };
  }

  abbrev with_wal : S → Bytes → Store S
  with_wal g file = record (idle g) { wal = some file }

  abbrev cache : WalCache
  cache = record {
    expected_pcr = extended a pcr e r;
    event_data = to_string e;
    event_offset = length base;
  }

  with_wal-IsTorn :
      (g : S) (written missing : Bytes)
      → a.get_runtime_measurement g pcr ≡ some r
      → written ++ missing ≡ wal_file a pcr base r e
      → IsKilled a pcr base r e (with_wal g written)
  with_wal-IsTorn g written missing x whole = inr (
      inl (record {
        written = written;
        missing = missing;
        whole = whole;
        wal_is = refl;
        log_is = refl;
        register_is = x;
      }))

  idle-IsClean : (g : S) → a.get_runtime_measurement g pcr ≡ some r → IsClean a pcr base r (idle g)
  idle-IsClean g x = record { log_is = refl; no_wal = refl; register_is = x }

  -- The whole record is written, or the log and the register are as before.
  write_wal_cache-Ensures :
      (g : S) (n torn : ℕ)
      → a.get_runtime_measurement g pcr ≡ some r
      → Ensures
          (λ x w. (m : ℕ) × (w ≡ run_until (with_wal g (wal_file a pcr base r e)) m torn))
          Never
          (IsKilled a pcr base r e)
          (write_wal_cache a cache (run_until (idle g) n torn))
  unfolding write_wal_cache
  write_wal_cache-Ensures g n torn x =
      let offset = be_bytes 8 (length base) in
      let expected = extended a pcr e r in
      let text = to_string e in
      create_wal_then _ (idle g) n torn (inl (idle-IsClean g x)) λ m.
        write_wal_then offset _ (with_wal g []) m torn
          (λ i.
            with_wal-IsTorn g (take i offset) (drop i offset ++ (expected ++ text)) x
              (torn_piece [] offset (expected ++ text) i ∙ sym (append_assoc offset expected text)))
          λ m.
            write_wal_then expected _ (with_wal g offset) m torn
              (λ i.
                with_wal-IsTorn g (offset ++ take i expected) (drop i expected ++ text) x
                  (torn_piece offset expected text i ∙ sym (append_assoc offset expected text)))
              λ m.
                write_wal_then text _ (with_wal g (offset ++ expected)) m torn
                  (λ i.
                    with_wal-IsTorn g ((offset ++ expected) ++ take i text) (drop i text ++ []) x (
                      torn_piece (offset ++ expected) text [] i
                      ∙ ap (◌++◌ (offset ++ expected)) (append-nil text)))
                  λ m.
                    act_end (λ s. s) untouched _ m torn
                      (with_wal-IsTorn g (wal_file a pcr base r e) [] x (append-nil _))
                      (λ m'. (m', refl))

  -- Once the record is written the event is under way, up to the removal of the record.
  log_entry : M S (Unit {0})
  log_entry = do
    extend_measurement a (value_of a pcr e) pcr
    write (entry_of a pcr e)
    clean_wal_cache

  abbrev in_progress : S → Bytes → FileWriter → Store S
  in_progress g log writer = record {
    log = log;
    wal = some (wal_file a pcr base r e);
    registers = g;
    writer = writer;
  }

  in_progress-IsPending :
      (g : S) (i : ℕ) (log : Bytes) (writer : FileWriter)
      → log ≡ base ++ take i (entry_of a pcr e)
      → (a.get_runtime_measurement g pcr ≡ some r)
        ⊎ (a.get_runtime_measurement g pcr ≡ some (extended a pcr e r))
      → IsKilled a pcr base r e (in_progress g log writer)
  in_progress-IsPending g i log writer at x =
      inr (inr (record { written = i; log_is = at; wal_is = refl; register_is = x }))

  log_entry-Ensures :
      (g : S) (n torn : ℕ)
      → IsLawful a
      → IsLoggable a pcr base e
      → a.get_runtime_measurement g pcr ≡ some r
      → Ensures
          (IsRecovered a pcr base r e)
          Never
          (IsKilled a pcr base r e)
          (log_entry (run_until (with_wal g (wal_file a pcr base r e)) n torn))
  unfolding log_entry
  log_entry-Ensures g n torn law fits x =
      let (g', extends, x') = law.extends g pcr r (value_of a pcr e) x in
      let entry = entry_of a pcr e in
      let s' = with_wal g' (wal_file a pcr base r e) in
      let whole : base ++ entry ≡ base ++ take (length entry) entry =
        ap (◌++◌ base) (sym (take-length entry)) in
      let final = record (advance entry (write_log entry s')) { wal = none } in
      extend_then a (value_of a pcr e) pcr _ (with_wal g (wal_file a pcr base r e)) n torn g'
        extends (in_progress-IsPending g 0 base _ (sym (append-nil base)) (inl x))
        λ m.
          write_then entry clean_wal_cache s' m torn
            (λ i. in_progress-IsPending g' i _ _ (write_at_end base (take i entry)) (inr x'))
            (in_progress-IsPending g' (length entry) _ _ (write_at_end base entry ∙ whole) (inr x'))
            λ m.
              clean_end _ m torn _ refl
                (in_progress-IsPending g' (length entry) _ _ (write_at_end base entry ∙ whole)
                  (inr x'))
                (λ m'. (
                  record { log_is = write_at_end base entry; no_wal = refl; register_is = x' },
                  advance-IsPositioned a pcr base r e s' final fits refl (write_at_end base entry)
                      refl,
                ))

  extend_entry-idle :
      (g : S) (n torn : ℕ)
      → IsLawful a
      → IsLoggable a pcr base e
      → a.get_runtime_measurement g pcr ≡ some r
      → Ensures
          (IsRecovered a pcr base r e)
          Never
          (IsKilled a pcr base r e)
          (extend_entry a (handle a pcr) e pcr (run_until (idle g) n torn))
  unfolding extend_entry log_entry
  extend_entry-idle g n torn law fits x =
      after _ (sym (get_measurement_eq a pcr (run_until (idle g) n torn) x)) (
        bind_then _ (write_wal_cache-Ensures g n torn x) (λ _ w (m, at).
          subst
            (λ w'.
              Ensures (IsRecovered a pcr base r e) Never (IsKilled a pcr base r e) (log_entry w'))
            (sym at) (log_entry-Ensures g m torn law fits x)))

  -- From a clean state the entry is recorded in the log and in the register; a kill leaves the
  -- event unrecorded, its write-ahead record torn, or the event under way.
  pub extend_entry-Ensures :
      (s : Store S) (n torn : ℕ)
      → IsLawful a
      → IsLoggable a pcr base e
      → IsClean a pcr base r s
      → IsPositioned s
      → Ensures
          (IsRecovered a pcr base r e)
          Never
          (IsKilled a pcr base r e)
          (extend_entry a (handle a pcr) e pcr (run_until s n torn))
  extend_entry-Ensures s n torn law fits c at =
      subst
        (λ s'.
          Ensures (IsRecovered a pcr base r e) Never (IsKilled a pcr base r e)
            (extend_entry a (handle a pcr) e pcr (run_until s' n torn)))
        (sym s-eq-idle) (extend_entry-idle s.registers n torn law fits c.register_is)
    where
      writer_is : s.writer ≡ record { cursor = length base; pos = length base }
      writer_is = at ∙ ap (λ l. record { cursor = length l; pos = length l }) c.log_is

      s-eq-idle : s ≡ idle s.registers
      s-eq-idle = λ i. record {
        log = c.log_is i;
        wal = c.no_wal i;
        registers = s.registers;
        writer = writer_is i;
      }
