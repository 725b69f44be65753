-- ===== src/EventLog/Another.antt =====
-- A start on the write-ahead record of an event that was recorded with another register than the log's.
use guest_components.Prelude.{ℕ, ◌≤◌, ◌≡◌, ◌≢◌, refl, sym, some, Bytes, length, str_eq_of_ne}
use guest_components.EventLog.Event.{Event, to_string}
use guest_components.EventLog.EventLaws.{try_from-to_string_total}
use guest_components.EventLog.Machine.{Attester, Store, World, LogError, fail, move_to, untouched}
use guest_components.EventLog.Outcomes.{
  run_until, Ensures, on_fail, act_then, open_then, bind_then, after, get_measurement_eq,
}
use guest_components.EventLog.Journal.{recover, recover_register, new}
use guest_components.EventLog.States.{IsLawful, extended, wal_file, IsLoggable}
use guest_components.EventLog.WalLaws.{parse_wal_cache-wal_file, serialize-congr}
use guest_components.EventLog.Start.{read_wal_cache-some}
use guest_components.EventLog.Torn.{IsUntouched}
use guest_components.EventLog.Takes.{refusal}
use guest_components.EventLog.Cost.{Takes-new}

module _ {S : Type 0} (a : Attester S) (pcr : ℕ) (base r r' : Bytes) (e : Event) where
  -- There is the whole record of an event whose register held `r'`, and the log's own register, which
  -- holds `r`, has not the value that is expected, and would not have it when extended by the event.
  pub record IsElsewhere (s : Store S) : Type 0 where
    pub wal_is : s.wal ≡ some (wal_file a pcr base r' e)
    pub register_is : a.get_runtime_measurement s.registers pcr ≡ some r
    pub not_expected : r ≢ extended a pcr e r'
    pub not_extended : extended a pcr e r ≢ extended a pcr e r'

  abbrev NoResult : {A : Type 0} → A → World S → Type 0
  NoResult x w = ⊥

  recover_elsewhere :
      (s : Store S) (n torn : ℕ)
      → IsLoggable a pcr base e
      → IsElsewhere s
      → Ensures NoResult
          (λ x s'. IsUntouched a pcr base r e s s')
          (IsUntouched a pcr base r e s)
          (recover a
            (record {
              expected_pcr = extended a pcr e r';
              event_data = to_string e;
              event_offset = length base;
            })
            pcr
            (run_until s n torn))
  unfolding recover recover_register
  recover_elsewhere s n torn fits t =
      let (e', parsed, same) = try_from-to_string_total e fits.one_line in
      after _ (sym (get_measurement_eq a pcr (run_until s n torn) t.register_is)) (
        rw parsed (
          rw (serialize-congr a e e' (a.pcr_to_ccmr pcr) a.ccel_hash_algorithm same) (
            rw (str_eq_of_ne _ _ t.not_expected, recover_register)
              (rw (str_eq_of_ne _ _ t.not_extended) (on_fail (refl, refl, refl))))))

  new-IsElsewhere :
      (s : Store S) (n torn : ℕ)
      → IsLawful a
      → IsLoggable a pcr base e
      → IsElsewhere s
      → Ensures NoResult
          (λ x s'. IsUntouched a pcr base r e s s')
          (IsUntouched a pcr base r e s)
          (new a pcr (run_until s n torn))
  unfolding new
  new-IsElsewhere s n torn law fits t =
      let opened = move_to (length s.log) s in
      let moved : IsElsewhere opened = record {
        wal_is = t.wal_is;
        register_is = t.register_is;
        not_expected = t.not_expected;
        not_extended = t.not_extended;
      } in
      act_then (λ s'. s') untouched _ s n torn (refl, refl, refl)
        λ m.
          open_then _ s m torn (refl, refl, refl)
            λ m'.
              after _
                (sym (
                  read_wal_cache-some a _ _ _ (run_until opened m' torn) t.wal_is
                    (parse_wal_cache-wal_file a pcr base r' e law fits)))
                (bind_then _ (recover_elsewhere opened m' torn fits moved)
                  (λ x w never. absurd never))

  -- For an attester whose digests have their stated length and whose registers hold, when extended, the
  -- digest of both, and an event whose text is one line of UTF-8 with its place in the log below 2 ^ 64:
  -- a start that is not killed in its eight actions, on the whole record of that event as it is written
  -- when another register that holds `r'` is to be extended, fails
  -- unless the log's own register, which holds `r`, has the value that is expected of the other one
  -- already, or has it when extended by the event. It leaves the log, the record and the registers as
  -- they were.
  pub new_refuses_another :
      (s : Store S) (n torn : ℕ)
      → 8 ≤ n
      → IsLawful a
      → IsLoggable a pcr base e
      → IsElsewhere s
      → (x : LogError) × (w : World S) × (new a pcr (run_until s n torn) ≡ fail x w)
        × IsUntouched a pcr base r e s w.store
  new_refuses_another s n torn h law fits t =
      refusal (new a pcr (run_until s n torn)) (Takes-new a pcr (run_until s n torn) h)
        (new-IsElsewhere s n torn law fits t)
