-- ===== src/EventLog/Torn.antt =====
-- A start on a write-ahead record that was cut short.
use guest_components.Prelude.{
  ℕ, ◌≡◌, ◌≢◌, refl, sym, ap, ◌∙◌, ◌⊎◌, inl, inr, none, some, [], ◌++◌, arith, Bytes, length,
  length-append, Bool-cases, str_eq_of_ne, Result-cases,
}
use guest_components.Prelude.Words.{be_bytes, from_be_bytes, length-be_bytes}
use guest_components.EventLog.Event
use guest_components.EventLog.Event.{Event, to_string}
use guest_components.EventLog.EventLaws.{to_string-try_from}
use guest_components.EventLog.Files.{prefix-append}
use guest_components.EventLog.Machine.{Attester, Store, World, move_to, untouched}
use guest_components.EventLog.Outcomes.{
  run_until, Ensures, on_fail, act_then, open_then, bind_then, after, get_measurement_eq,
}
use guest_components.EventLog.Journal.{parse_wal_cache, recover, recover_register, new}
use guest_components.EventLog.States.{IsLawful, value_of, extended, IsTorn}
use guest_components.EventLog.WalLaws.{parse_wal_cache-append, parse_wal_cache_short}
use guest_components.EventLog.Start.{read_wal_cache-some, read_wal_cache_bad}

module _ {S : Type 0} (a : Attester S) (pcr : ℕ) (base r : Bytes) (e : Event) where
  -- The register's next value tells the event from those that a part of its text stands for, and
  -- from no event at all.
  pub record IsTelling : Type 0 where
    pub moves : r ≢ extended a pcr e r
    pub no_collision :
        (e' : Event) (cut : Bytes)
        → cut ≢ []
        → to_string e' ++ cut ≡ to_string e
        → extended a pcr e' r ≢ extended a pcr e r

  -- The log, the record and the registers are as they were.
  abbrev pub IsUntouched : Store S → Store S → Type 0
  IsUntouched s s' = (s'.log ≡ s.log) × (s'.wal ≡ s.wal) × (s'.registers ≡ s.registers)

  abbrev NoResult : {A : Type 0} → A → World S → Type 0
  NoResult x w = ⊥

  recover_torn :
      (s : Store S) (n torn offset : ℕ) (text missing : Bytes)
      → IsTelling
      → a.get_runtime_measurement s.registers pcr ≡ some r
      → missing ≢ []
      → text ++ missing ≡ to_string e
      → Ensures NoResult
          (λ x s'. IsUntouched s s')
          (IsUntouched s)
          (recover a
            (record { expected_pcr = extended a pcr e r; event_data = text; event_offset = offset })
            pcr
            (run_until s n torn))
  unfolding recover recover_register
  recover_torn s n torn offset text missing tells x cut whole =
      after _ (sym (get_measurement_eq a pcr (run_until s n torn) x))
        (elim (Result-cases (Event.try_from text)) [
          | inr (bad, e'') ↦ rw e'' (on_fail (refl, refl, refl))
          | inl (e', parsed) ↦
              let text_is = (to_string-try_from text e' parsed).0 in
              let other =
                tells.no_collision e' missing cut (ap (λ t. t ++ missing) text_is ∙ whole) in
              rw parsed (
                rw (str_eq_of_ne _ _ tells.moves, recover_register)
                  (rw (str_eq_of_ne _ _ other) (on_fail (refl, refl, refl))))
        ])

  -- Of a record that was cut short nothing is read, or all but the end of the text.
  parse_wal_cache_torn :
      (s : Store S) (t : IsTorn a pcr base r e s)
      → IsLawful a
      → (parse_wal_cache a (a.digest_len a.ccel_hash_algorithm) t.written ≡ none)
        ⊎ ((text : Bytes) × (parse_wal_cache a (a.digest_len a.ccel_hash_algorithm) t.written
              ≡ some (record {
                expected_pcr = extended a pcr e r;
                event_data = text;
                event_offset = from_be_bytes 0 (be_bytes 8 (length base));
              }))
            × (text ++ t.missing ≡ to_string e))
  parse_wal_cache_torn s t law =
      let offset = be_bytes 8 (length base) in
      let expected = extended a pcr e r in
      let n = a.digest_len a.ccel_hash_algorithm in
      let long = length-be_bytes 8 (length base) in
      let wide = law.digest_length a.ccel_hash_algorithm (r ++ value_of a pcr e) in
      elim (prefix-append t.written t.missing (offset ++ expected) (to_string e) t.whole) [
        | inl short ↦ inl (
            parse_wal_cache_short a n t.written
              (omega (arith, length-append offset expected, long, wide)))
        | inr (text, same, rest) ↦
            let parsed =
              ap (parse_wal_cache a n) same
              ∙ parse_wal_cache-append a n offset expected text long wide in
            elim (Bool-cases (a.is_utf8 text)) [
              | inl valid ↦ inr (text, parsed ∙ rw valid, rest)
              | inr invalid ↦ inl (parsed ∙ rw invalid)
            ]
      ]

  -- A start whose record was cut short is refused, or killed: it changes neither the log nor the
  -- record nor a register.
  pub new-IsTorn :
      (s : Store S) (n torn : ℕ)
      → IsLawful a
      → IsTelling
      → (t : IsTorn a pcr base r e s) → t.missing ≢ []
      → Ensures NoResult (λ x s'. IsUntouched s s') (IsUntouched s) (new a pcr (run_until s n torn))
  unfolding new
  new-IsTorn s n torn law tells t cut =
      let opened = move_to (length s.log) s in
      act_then (λ s'. s') untouched _ s n torn (refl, refl, refl)
        λ m.
          open_then _ s m torn (refl, refl, refl)
            λ m'. elim (parse_wal_cache_torn s t law) [
              | inl bad ↦
                  after _
                    (sym (read_wal_cache_bad a _ t.written (run_until opened m' torn) t.wal_is bad))
                    (on_fail (refl, refl, refl))
              | inr (text, parsed, rest) ↦
                  after _
                    (sym (
                      read_wal_cache-some a _ t.written _ (run_until opened m' torn) t.wal_is
                        parsed))
                    (bind_then _
                      (recover_torn opened m' torn _ text t.missing tells t.register_is cut rest)
                      (λ x w never. absurd never))
            ]
