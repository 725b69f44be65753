-- ===== src/EventLog/WalLaws.antt =====
-- The write-ahead record is read back as it was written.
use guest_components.Prelude.{
  none, if◌then◌else◌, ◌+◌, ◌<◌, sym, take, drop, take-append-drop, length-drop, ℕ, ◌≡◌, ◌∙◌, true,
  some, ◌++◌, append_assoc, arith, Bytes, length, str_eq, str_eq_iff,
}
use guest_components.Prelude.Words.{
  be_bytes, from_be_bytes, length-be_bytes, from_be_bytes-be_bytes,
}
use guest_components.EventLog.Event.{Event, to_string}
use guest_components.EventLog.Tcg2.{HashAlgorithm, serialize_tcg2_event, from_event}
use native.Mathlib.Decide.{dec_lt}
use guest_components.EventLog.Files.{read_exact-append, read_exact_short, read_exact_enough}
use guest_components.EventLog.Machine.{Attester}
use guest_components.EventLog.Journal.{parse_wal_cache}
use guest_components.EventLog.States.{IsLawful, extended, wal_file, IsLoggable}

module _ {S : Type 0} (a : Attester S) where
  -- A record with all of its head is read if its text is UTF-8.
  pub parse_wal_cache-append :
      (n : ℕ) (offset expected text : Bytes)
      → length offset ≡ 8
      → length expected ≡ n
      → parse_wal_cache a n ((offset ++ expected) ++ text) ≡ (
          if a.is_utf8 text
          then some (record {
            expected_pcr = expected;
            event_data = text;
            event_offset = from_be_bytes 0 offset;
          })
          else none)
  unfolding parse_wal_cache
  parse_wal_cache-append n offset expected text o x = rw (append_assoc offset expected text) (
      rw (read_exact-append 8 offset (expected ++ text) o, parse_wal_cache)
        (rw (read_exact-append n expected text x)))

  -- A record with less than its head is not.
  pub parse_wal_cache_short :
      (n : ℕ) (file : Bytes) → length file < 8 + n → parse_wal_cache a n file ≡ none
  unfolding parse_wal_cache
  parse_wal_cache_short n file h = elim (dec_lt (length file) 8) [
    | yes short ↦ rw (read_exact_short 8 file short, parse_wal_cache)
    | no enough ↦
        let head : file ≡ take 8 file ++ drop 8 file = sym (take-append-drop 8 file) in
        rw (read_exact_enough 8 file enough, parse_wal_cache)
          (rw (read_exact_short n (drop 8 file) (omega (arith, length-drop 8 file))))
  ]

  -- The whole record is read back.
  pub parse_wal_cache-wal_file :
      (pcr : ℕ) (base r : Bytes) (e : Event)
      → IsLawful a
      → IsLoggable a pcr base e
      → parse_wal_cache a (a.digest_len a.ccel_hash_algorithm) (wal_file a pcr base r e)
        ≡ some (record {
          expected_pcr = extended a pcr e r;
          event_data = to_string e;
          event_offset = length base;
        })
  parse_wal_cache-wal_file pcr base r e law fits =
      parse_wal_cache-append (a.digest_len a.ccel_hash_algorithm) (be_bytes 8 (length base))
        (extended a pcr e r) (to_string e) (length-be_bytes 8 (length base)) (law.digest_length _ _)
      ∙ rw (fits.utf8, from_be_bytes-be_bytes 8 (length base) (omega arith))

  pub str_eq_of_eq : {x y : Bytes} → x ≡ y → str_eq x y ≡ true
  str_eq_of_eq {x} {y} h = (str_eq_iff x y).1 h

  -- Events of the same text have the same entry.
  pub serialize-congr :
      (e e' : Event) (rtmr : ℕ) (alg : HashAlgorithm)
      → to_string e' ≡ to_string e
      → serialize_tcg2_event a.hash e' rtmr alg ≡ serialize_tcg2_event a.hash e rtmr alg
  unfolding serialize_tcg2_event from_event
  serialize-congr e e' rtmr alg h = rw h
