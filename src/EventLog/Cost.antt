-- ===== src/EventLog/Cost.antt =====
-- How many actions the operations of the event log take: a process that is not killed during them
-- comes to a result.
use guest_components.Prelude.{
  ℕ, ◌≤◌, ◌≡◌, Option, none, some, ◌++◌, arith, ◌≢◌, [], Bytes, str_eq, Bool-cases, inl, inr,
}
use guest_components.EventLog.Event
use guest_components.EventLog.Event.{Event}
use guest_components.EventLog.Machine.{
  Attester, Store, World, LogError, done, fail, ◌>>=◌, ◌>>◌, pure, lift_option, no_measurement,
  extension_failed, bad_event, bad_wal_cache, untouched, seek, create_wal, write_wal,
  get_measurement, extend_measurement,
}
use guest_components.EventLog.Outcomes.{run_until}
use guest_components.EventLog.Journal.{
  WalCache, EventLog, parse_wal_cache, read_wal_cache, write_wal_cache, recover_register, recover,
  new, extend_entry,
}
use guest_components.EventLog.States.{
  IsLawful, IsTorn, entry_of, extended, IsClean, IsPending, IsLoggable, IsPositioned,
}
use guest_components.EventLog.Start.{handle, IsStarted, new-IsPending}
use guest_components.EventLog.Recovery.{IsRecovered}
use guest_components.EventLog.Torn.{IsTelling, IsUntouched, new-IsTorn}
use guest_components.EventLog.Extend.{extend_entry-Ensures}
use guest_components.EventLog.Takes.{
  Takes, result, refusal, Takes-bind, Takes-act, Takes-pure, Takes-lift_option, Takes-lift_then,
  Takes-lift, Takes-gets, Takes-write, Takes-open_writer, Takes-clean_wal_cache, on_time, failed,
}

module _ {S : Type 0} where
  module _ (a : Attester S) where
    Takes-get_measurement : (pcr : ℕ) → Takes 0 (get_measurement a pcr)
    unfolding get_measurement
    Takes-get_measurement pcr w h =
        Takes-lift_option (a.get_runtime_measurement w.store.registers pcr) no_measurement w h

    Takes-extend_measurement : (value : Bytes) (pcr : ℕ) → Takes 1 (extend_measurement a value pcr)
    unfolding extend_measurement
    Takes-extend_measurement value pcr w h =
        Takes-lift_then (a.extend_runtime_measurement w.store.registers value pcr) extension_failed
          _ (λ g. Takes-act (λ s. record s { registers = g }) untouched) w h

    Takes-write_wal_cache : (cache : WalCache) → Takes 5 (write_wal_cache a cache)
    unfolding write_wal_cache create_wal write_wal
    Takes-write_wal_cache cache = Takes-bind {k = 1} {l = 4} _ _ (Takes-act _ _) λ _.
        Takes-bind {k = 1} {l = 3} _ _ (Takes-act _ _) λ _.
          Takes-bind {k = 1} {l = 2} _ _ (Takes-act _ _)
            λ _. Takes-bind {k = 1} {l = 1} _ _ (Takes-act _ _) λ _. Takes-act _ _

    Takes-recover_register :
        (current value expected : Bytes) (pcr : ℕ)
        → Takes 1 (recover_register a current value expected pcr)
    unfolding recover_register
    Takes-recover_register current value expected pcr w h =
        elim (Bool-cases (str_eq current expected)) [
          | inl same ↦ rw same (on_time (omega arith))
          | inr before ↦
              elim (Bool-cases
                (str_eq (a.hash a.ccel_hash_algorithm (current ++ value)) expected)) [
                  | inl good ↦ rw (before, good) (Takes-extend_measurement value pcr w h)
                  | inr bad ↦ rw (before, bad) failed
                ]
        ]

    Takes-recover : (cache : WalCache) (pcr : ℕ) → Takes 5 (recover a cache pcr)
    unfolding recover seek
    Takes-recover cache pcr = Takes-bind {k = 0} {l = 5} _ _ (Takes-get_measurement pcr) λ current.
        Takes-bind {k = 0} {l = 5} _ _ (Takes-lift (Event.try_from cache.event_data) bad_event) λ e.
          Takes-bind {k = 1} {l = 4} _ _ (Takes-recover_register current _ _ pcr) λ _.
            Takes-bind {k = 1} {l = 3} _ _ (Takes-act _ _)
              λ _. Takes-bind {k = 2} {l = 1} _ _ (Takes-write _) λ _. Takes-clean_wal_cache

    Takes-extend_entry :
        (self : EventLog) (e : Event) (pcr : ℕ) → Takes 9 (extend_entry a self e pcr)
    unfolding extend_entry
    Takes-extend_entry self e pcr =
        Takes-bind {k = 0} {l = 9} _ _ (Takes-get_measurement pcr) λ current.
          Takes-bind {k = 0} {l = 9} _ _ (Takes-gets (λ s. s.writer.pos)) λ offset.
            Takes-bind {k = 5} {l = 4} _ _ (Takes-write_wal_cache _) λ _.
              Takes-bind {k = 1} {l = 3} _ _ (Takes-extend_measurement _ pcr)
                λ _. Takes-bind {k = 2} {l = 1} _ _ (Takes-write _) λ _. Takes-clean_wal_cache

    Takes-start :
        (cache : Option WalCache) (pcr : ℕ)
        → Takes {S = S} 5 (elim cache [
          | some wal_cache ↦ do recover a wal_cache pcr; pure (handle a pcr)
          | none ↦ pure (handle a pcr)
        ])
    Takes-start none pcr w h = on_time (omega arith)
    Takes-start (some cache) pcr w h =
        Takes-bind {k = 5} {l = 0} _ _ (Takes-recover cache pcr) (λ _. Takes-pure (handle a pcr)) w
          h

    Takes-read_file :
        (n : ℕ) (file : Option Bytes)
        → Takes {S = S} {A = Option WalCache} 0 (elim file [
          | none ↦ pure none
          | some bytes ↦ do
            cache ← lift_option (parse_wal_cache a n bytes) bad_wal_cache
            pure (some cache)
        ])
    Takes-read_file n none w h = on_time (omega arith)
    Takes-read_file n (some bytes) w h =
        Takes-lift_then (parse_wal_cache a n bytes) bad_wal_cache _ (λ c. Takes-pure (some c)) w h

    Takes-read_wal_cache : (n : ℕ) → Takes 0 (read_wal_cache a n)
    unfolding read_wal_cache
    Takes-read_wal_cache n w h = Takes-read_file n w.store.wal w h

    pub Takes-new : (pcr : ℕ) → Takes 8 (new a pcr)
    unfolding new
    Takes-new pcr = Takes-bind {k = 1} {l = 7} _ _ (Takes-act _ _) λ _.
        Takes-bind {k = 2} {l = 5} _ _ Takes-open_writer λ _.
          Takes-bind {k = 0} {l = 5} _ _ (Takes-read_wal_cache _) λ cache. Takes-start cache pcr

    -- For an attester whose digests have their stated length and whose registers hold, when
    -- extended, the digest of both, and an event whose text is one line of UTF-8 with its place
    -- in the log below 2 ^ 64: a start that is not killed in its eight actions brings that
    -- event, when it is under way with the register that the log is made with, to its end. An event
    -- that is under way with another register is not covered. The log has the event's entry, however much of
    -- it was there, and the register is extended by it once.
    pub new_total :
        (pcr : ℕ) (base r : Bytes) (e : Event) (s : Store S) (n torn : ℕ)
        → 8 ≤ n
        → IsLawful a
        → IsLoggable a pcr base e
        → IsPending a pcr base r e s
        → (self : EventLog) × (w : World S) × (new a pcr (run_until s n torn) ≡ done self w)
          × IsStarted a pcr (base ++ entry_of a pcr e) (extended a pcr e r) self w
    new_total pcr base r e s n torn h law fits p =
        result (new a pcr (run_until s n torn)) (Takes-new pcr (run_until s n torn) h)
          (new-IsPending a pcr base r e s n torn law fits p)

    -- For an attester whose digests have their stated length and whose registers hold, when
    -- extended, the digest of both, and an event whose text is one line of UTF-8 with its place
    -- in the log below 2 ^ 64: with nothing under way and the writer at the end of the log, a
    -- process that is not killed in its nine actions records the event in the log and in the
    -- register.
    pub extend_entry_total :
        (pcr : ℕ) (base r : Bytes) (e : Event) (s : Store S) (n torn : ℕ)
        → 9 ≤ n
        → IsLawful a
        → IsLoggable a pcr base e
        → IsClean a pcr base r s
        → IsPositioned s
        → (x : Unit {0}) × (w : World S) × (extend_entry a (handle a pcr) e pcr (run_until s n torn)
            ≡ done x w)
          × IsRecovered a pcr base r e x w
    extend_entry_total pcr base r e s n torn h law fits c at =
        result (extend_entry a (handle a pcr) e pcr (run_until s n torn))
          (Takes-extend_entry (handle a pcr) e pcr (run_until s n torn) h)
          (extend_entry-Ensures a pcr base r e s n torn law fits c at)

    -- For an attester whose digests have their stated length and whose registers hold, when
    -- extended, the digest of both, and an event whose extended register differs from the
    -- register before and from that of each event whose text is a proper beginning of its text:
    -- a start that is not killed in its eight actions fails on a record of that event that was
    -- cut short, and leaves the log, the record and the registers as they were.
    pub new_refuses_torn :
        (pcr : ℕ) (base r : Bytes) (e : Event) (s : Store S) (n torn : ℕ)
        → 8 ≤ n
        → IsLawful a
        → IsTelling a pcr base r e
        → (t : IsTorn a pcr base r e s) → t.missing ≢ []
        → (x : LogError) × (w : World S) × (new a pcr (run_until s n torn) ≡ fail x w)
          × IsUntouched a pcr base r e s w.store
    new_refuses_torn pcr base r e s n torn h law tells t cut =
        refusal (new a pcr (run_until s n torn)) (Takes-new pcr (run_until s n torn) h)
          (new-IsTorn a pcr base r e s n torn law tells t cut)
