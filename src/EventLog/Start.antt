-- ===== src/EventLog/Start.antt =====
-- A start of the agent (`EventLog::new`) on what earlier runs left behind.
use guest_components.Prelude.{ℕ, ◌≡◌, refl, sym, none, some, ◌++◌, Bytes, length}
use guest_components.EventLog.Event.{Event}
use guest_components.EventLog.Machine.{
  Attester, Store, World, done, fail, untouched, move_to, bad_wal_cache,
}
use guest_components.EventLog.Outcomes.{
  run_until, Never, Ensures, on_done, act_then, open_then, bind_then, after,
}
use guest_components.EventLog.Journal.{WalCache, EventLog, parse_wal_cache, read_wal_cache, new}
use guest_components.EventLog.States.{
  IsLawful, entry_of, extended, IsClean, IsPending, IsLoggable, IsPositioned,
}
use guest_components.EventLog.WalLaws.{parse_wal_cache-wal_file}
use guest_components.EventLog.Recovery.{recover-Ensures}

module _ {S : Type 0} (a : Attester S) where
  -- The handle that a start returns.
  abbrev pub handle : ℕ → EventLog
  handle pcr = record { alg = a.ccel_hash_algorithm; pcr = pcr }

  -- A start has succeeded, on a log and a register with nothing under way.
  abbrev pub IsStarted : ℕ → Bytes → Bytes → EventLog → World S → Type 0
  IsStarted pcr log r self w =
      (self ≡ handle pcr) × IsClean a pcr log r w.store × IsPositioned w.store

  pub read_wal_cache-some :
      (n : ℕ) (file : Bytes) (cache : WalCache) (w : World S)
      → w.store.wal ≡ some file
      → parse_wal_cache a n file ≡ some cache
      → read_wal_cache a n w ≡ done (some cache) w
  unfolding read_wal_cache
  read_wal_cache-some n file cache w wal parsed = rw (wal, parsed)

  pub read_wal_cache_bad :
      (n : ℕ) (file : Bytes) (w : World S)
      → w.store.wal ≡ some file
      → parse_wal_cache a n file ≡ none
      → read_wal_cache a n w ≡ fail bad_wal_cache w
  unfolding read_wal_cache
  read_wal_cache_bad n file w wal bad = rw (wal, bad)

  read_wal_cache-none :
      (n : ℕ) (w : World S) → w.store.wal ≡ none → read_wal_cache a n w ≡ done none w
  unfolding read_wal_cache
  read_wal_cache-none n w wal = rw wal

  -- A start with nothing under way keeps the log and the register.
  pub new-IsClean :
      (pcr : ℕ) (log r : Bytes) (s : Store S) (n torn : ℕ)
      → IsClean a pcr log r s
      → Ensures (IsStarted pcr log r) Never (IsClean a pcr log r) (new a pcr (run_until s n torn))
  unfolding new
  new-IsClean pcr log r s n torn c =
      let opened = move_to (length s.log) s in
      act_then (λ s'. s') untouched _ s n torn c
        λ m. open_then _ s m torn c λ m'.
          after _
            (sym (
              read_wal_cache-none (a.digest_len a.ccel_hash_algorithm) (run_until opened m' torn)
                c.no_wal))
            (on_done (
              refl,
              record { log_is = c.log_is; no_wal = c.no_wal; register_is = c.register_is },
              refl,
            ))

  move_to-IsPending :
      (pcr : ℕ) (base r : Bytes) (e : Event) (s : Store S) (pos : ℕ)
      → IsPending a pcr base r e s
      → IsPending a pcr base r e (move_to pos s)
  move_to-IsPending pcr base r e s pos p = record {
    written = p.written;
    log_is = p.log_is;
    wal_is = p.wal_is;
    register_is = p.register_is;
  }

  -- A start with an event under way brings it to its end; killed, it leaves it under way.
  pub new-IsPending :
      (pcr : ℕ) (base r : Bytes) (e : Event) (s : Store S) (n torn : ℕ)
      → IsLawful a
      → IsLoggable a pcr base e
      → IsPending a pcr base r e s
      → Ensures
          (IsStarted pcr (base ++ entry_of a pcr e) (extended a pcr e r))
          Never
          (IsPending a pcr base r e)
          (new a pcr (run_until s n torn))
  unfolding new
  new-IsPending pcr base r e s n torn law fits p =
      let opened = move_to (length s.log) s in
      act_then (λ s'. s') untouched _ s n torn p
        λ m. open_then _ s m torn p λ m'.
          after _
            (sym (
              read_wal_cache-some _ _ _ (run_until opened m' torn) p.wal_is
                (parse_wal_cache-wal_file a pcr base r e law fits)))
            (bind_then _
              (recover-Ensures a pcr base r e opened m' torn law fits
                (move_to-IsPending pcr base r e s (length s.log) p))
              (λ x w recovered. on_done (refl, recovered.0, recovered.1)))
