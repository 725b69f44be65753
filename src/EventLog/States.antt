-- ===== src/EventLog/States.antt =====
-- The states between which the event log moves, and what it assumes of the hardware.
use guest_components.Prelude.{
  ℕ, ◌+◌, ◌^◌, ◌<◌, ◌≡◌, ◌⊎◌, true, false, none, some, ◌++◌, Bytes, length, take, contains,
}
use guest_components.Prelude.Words.{be_bytes}
use guest_components.EventLog.Event.{Event, to_string}
use guest_components.EventLog.Tcg2.{HashAlgorithm, serialize_tcg2_event}
use guest_components.EventLog.Machine.{Attester, Store}

-- What the hardware and the hash function are documented to do.
pub record IsLawful {S : Type 0} (a : Attester S) : Type 0 where
  -- A digest has the length that its algorithm states.
  pub digest_length : (alg : HashAlgorithm) (b : Bytes) → length (a.hash alg b) ≡ a.digest_len alg
  -- A register that can be read can be extended, and then holds the digest of both.
  pub extends :
      (s : S) (pcr : ℕ) (r value : Bytes)
      → a.get_runtime_measurement s pcr ≡ some r
      → (s' : S) × (a.extend_runtime_measurement s value pcr ≡ some s')
        × (a.get_runtime_measurement s' pcr ≡ some (a.hash a.ccel_hash_algorithm (r ++ value)))

module _ {S : Type 0} (a : Attester S) where
  -- The bytes of an event's log entry, its digest, and the value of a register that it extends.
  abbrev pub entry_of : ℕ → Event → Bytes
  entry_of pcr e = (serialize_tcg2_event a.hash e (a.pcr_to_ccmr pcr) a.ccel_hash_algorithm).0

  abbrev pub value_of : ℕ → Event → Bytes
  value_of pcr e = (serialize_tcg2_event a.hash e (a.pcr_to_ccmr pcr) a.ccel_hash_algorithm).1

  abbrev pub extended : ℕ → Event → Bytes → Bytes
  extended pcr e r = a.hash a.ccel_hash_algorithm (r ++ value_of pcr e)

  -- The whole write-ahead record of an event that is to be logged behind `base`.
  abbrev pub wal_file : ℕ → Bytes → Bytes → Event → Bytes
  wal_file pcr base r e = (be_bytes 8 (length base) ++ extended pcr e r) ++ to_string e

  -- Nothing is under way: the log is `log`, and the register holds `r`.
  pub record IsClean (pcr : ℕ) (log r : Bytes) (s : Store S) : Type 0 where
    pub log_is : s.log ≡ log
    pub no_wal : s.wal ≡ none
    pub register_is : a.get_runtime_measurement s.registers pcr ≡ some r

  -- The event is under way: the register may be extended, and part of the entry written.
  pub record IsPending (pcr : ℕ) (base r : Bytes) (e : Event) (s : Store S) : Type 0 where
    pub written : ℕ
    pub log_is : s.log ≡ base ++ take written (entry_of pcr e)
    pub wal_is : s.wal ≡ some (wal_file pcr base r e)
    pub register_is :
        (a.get_runtime_measurement s.registers pcr ≡ some r)
        ⊎ (a.get_runtime_measurement s.registers pcr ≡ some (extended pcr e r))

  -- A write-ahead record that may be incomplete: `missing` did not reach the file.
  pub record IsTorn (pcr : ℕ) (base r : Bytes) (e : Event) (s : Store S) : Type 0 where
    pub written : Bytes
    pub missing : Bytes
    pub whole : written ++ missing ≡ wal_file pcr base r e
    pub wal_is : s.wal ≡ some written
    pub log_is : s.log ≡ base
    pub register_is : a.get_runtime_measurement s.registers pcr ≡ some r

  -- What a process leaves that is killed while it records an event.
  abbrev pub IsKilled : ℕ → Bytes → Bytes → Event → Store S → Type 0
  IsKilled pcr base r e s = IsClean pcr base r s ⊎ IsTorn pcr base r e s ⊎ IsPending pcr base r e s

  -- What the event log records and recovers: one line of UTF-8, at an offset of 64 bits.
  pub record IsLoggable (pcr : ℕ) (base : Bytes) (e : Event) : Type 0 where
    pub one_line : contains b'\n' (to_string e) ≡ false
    pub utf8 : a.is_utf8 (to_string e) ≡ true
    pub offset_fits : length base + length (entry_of pcr e) < 2 ^ 64

-- The open log file stands at its end.
abbrev pub IsPositioned : {S : Type 0} → Store S → Type 0
IsPositioned s = s.writer ≡ record { cursor = length s.log; pos = length s.log }
