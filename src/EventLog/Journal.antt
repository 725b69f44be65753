-- ===== src/EventLog/Journal.antt =====
-- `EventLog` of eventlog/mod.rs: the write-ahead log, the recovery in `new`, and `extend_entry`.
use guest_components.Prelude.{ℕ, not, Option, none, some, ◌++◌, Bytes, Str, str_eq, if◌then◌else◌}
use guest_components.Prelude.Words.{be_bytes, from_be_bytes}
use guest_components.EventLog.Event
use guest_components.EventLog.Event.{Event}
use guest_components.EventLog.Tcg2.{HashAlgorithm, serialize_tcg2_event}
use guest_components.EventLog.Machine.{
  Attester, corrupted, bad_wal_cache, bad_event, M, ◌>>=◌, ◌>>◌, pure, throw, lift, lift_option,
  gets, act, read_exact, untouched, write, seek, open_writer, create_wal, write_wal,
  clean_wal_cache, get_measurement, extend_measurement,
}

pub record WalCache : Type 0 where
  pub expected_pcr : Bytes
  pub event_data : Str
  pub event_offset : ℕ

-- The struct, less the writer, which is in the store.
pub record EventLog : Type 0 where
  pub alg : HashAlgorithm
  pub pcr : ℕ

module _ {S : Type 0} (a : Attester S) where
  -- `read_wal_cache_from`: the contents of the file, if there is one
  unfoldable pub parse_wal_cache : ℕ → Bytes → Option WalCache
  parse_wal_cache digest_len file = elim (read_exact 8 file) [
    | none ↦ none
    | some (offset, after_offset) ↦ elim (read_exact digest_len after_offset) [
      | none ↦ none
      | some (expected, text) ↦
          if a.is_utf8 text
          then some (record {
            expected_pcr = expected;
            event_data = text;
            event_offset = from_be_bytes 0 offset;
          })
          else none
    ]
  ]

  -- `none`: there is no file
  unfoldable pub read_wal_cache : ℕ → M S (Option WalCache)
  read_wal_cache digest_len = do
    file ← gets (λ s. s.wal)
    elim file [
      | none ↦ pure none
      | some bytes ↦ do
        cache ← lift_option (parse_wal_cache digest_len bytes) bad_wal_cache
        pure (some cache)
    ]

  unfoldable pub write_wal_cache : WalCache → M S (Unit {0})
  write_wal_cache cache = do
    create_wal
    write_wal (be_bytes 8 cache.event_offset)
    write_wal cache.expected_pcr
    write_wal cache.event_data
    act (λ s. s) untouched

  -- The part of the recovery that brings the register to its recorded value.
  unfoldable pub recover_register : Bytes → Bytes → Bytes → ℕ → M S (Unit {0})
  recover_register current_pcr value expected_pcr pcr =
      if not (str_eq current_pcr expected_pcr)
      then (if not (str_eq (a.hash a.ccel_hash_algorithm (current_pcr ++ value)) expected_pcr)
          then throw corrupted
          else extend_measurement a value pcr)
      else pure tt

  unfoldable pub recover : WalCache → ℕ → M S (Unit {0})
  recover cache pcr = do
    current_pcr ← get_measurement a pcr
    aael_event ← lift (Event.try_from cache.event_data) bad_event
    let rtmr = a.pcr_to_ccmr pcr
    let serialized = serialize_tcg2_event a.hash aael_event rtmr a.ccel_hash_algorithm
    recover_register current_pcr serialized.1 cache.expected_pcr pcr
    seek cache.event_offset
    write serialized.0
    clean_wal_cache

  -- `EventLog::new`
  unfoldable pub new : ℕ → M S EventLog
  new pcr = do
    act (λ s. s) untouched
    open_writer
    cache ← read_wal_cache (a.digest_len a.ccel_hash_algorithm)
    elim cache [
      | some wal_cache ↦ do
        recover wal_cache pcr
        pure (record { alg = a.ccel_hash_algorithm; pcr = pcr })
      | none ↦ pure (record { alg = a.ccel_hash_algorithm; pcr = pcr })
    ]

  -- `extend_entry`
  unfoldable pub extend_entry : EventLog → Event → ℕ → M S (Unit {0})
  extend_entry self log_entry pcr = do
    let aael_event_data = Event.to_string log_entry
    let rtmr = a.pcr_to_ccmr self.pcr
    let serialized = serialize_tcg2_event a.hash log_entry rtmr self.alg
    current_pcr ← get_measurement a pcr
    let expected_pcr = a.hash self.alg (current_pcr ++ serialized.1)
    event_offset ← gets (λ s. s.writer.pos)
    write_wal_cache (record {
      expected_pcr = expected_pcr;
      event_data = aael_event_data;
      event_offset = event_offset;
    })
    extend_measurement a serialized.1 pcr
    write serialized.0
    clean_wal_cache
