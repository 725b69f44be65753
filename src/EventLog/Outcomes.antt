-- ===== src/EventLog/Outcomes.antt =====
-- Rules for programs that may be killed at any action.
use guest_components.Prelude.{sym, ap, ℕ, zero, suc, ◌≡◌, none, some, [], Bytes, length, take}
use mathlib.Core.Path.{subst}
use guest_components.EventLog.Machine.{
  Attester, Store, World, killed, LogError, io, no_measurement, extension_failed, resume, Outcome,
  done, fail, crash, M, ◌>>◌, act, untouched, advance, move_to, seek, create_wal, write_wal,
  wal_append, open_writer, clean_wal_cache, write, write_log, get_measurement, extend_measurement,
  lift_option,
}

module _ {S : Type 0} where
  -- A process in store `s` that is killed at the action behind the next `n`.
  abbrev pub run_until : Store S → ℕ → ℕ → World S
  run_until s n torn = record { store = s; budget = n; torn = torn; interrupt = killed }

  abbrev pub Never : LogError → Store S → Type 0
  Never e s = ⊥

  -- What holds of the result, of an error, and of the store that a kill leaves behind.
  pub data Ensures {A : Type 0} (Done : A → World S → Type 0) (Fail : LogError → Store S → Type 0)
      (Crash : Store S → Type 0) : Outcome S A → Type 0 where
    on_done : {x : A} {w : World S} → Done x w → Ensures Done Fail Crash (done x w)
    on_fail : {e : LogError} {w : World S} → Fail e w.store → Ensures Done Fail Crash (fail e w)
    on_crash : {w : World S} → Crash w.store → Ensures Done Fail Crash (crash w)

  -- `extend_measurement` and `clean_wal_cache` where their guards pass.
  extend_measurement_eq :
      (a : Attester S) (value : Bytes) (pcr : ℕ) (w : World S) {registers : S}
      → a.extend_runtime_measurement w.store.registers value pcr ≡ some registers
      → extend_measurement a value pcr w ≡ act (λ s. record s { registers = registers }) untouched w
  unfolding extend_measurement
  extend_measurement_eq a value pcr w e =
      ap
        (λ o.
          resume (lift_option o extension_failed w)
            (λ registers'. act (λ s. record s { registers = registers' }) untouched))
        e

  pub get_measurement_eq :
      (a : Attester S) (pcr : ℕ) (w : World S) {r : Bytes}
      → a.get_runtime_measurement w.store.registers pcr ≡ some r
      → get_measurement a pcr w ≡ done r w
  unfolding get_measurement
  get_measurement_eq a pcr w e = ap (λ o. lift_option o no_measurement w) e

  clean_wal_cache_eq :
      (w : World S) {file : Bytes}
      → w.store.wal ≡ some file
      → clean_wal_cache w ≡ act (λ s. record s { wal = none }) untouched w
  unfolding clean_wal_cache
  clean_wal_cache_eq w e =
      ap (λ o. resume (lift_option o io w) (λ _. act (λ s. record s { wal = none }) untouched)) e

  -- A rule for a first step whose outcome is known.
  pub after :
      {A B : Type 0} {Done : B → World S → Type 0} {Fail : LogError → Store S → Type 0}
      {Crash : Store S → Type 0} {o o' : Outcome S A} (k : A → M S B)
      → o ≡ o'
      → Ensures Done Fail Crash (resume o k)
      → Ensures Done Fail Crash (resume o' k)
  after {Done = Done} {Fail = Fail} {Crash = Crash} k e =
      subst (λ o. Ensures Done Fail Crash (resume o k)) e

  -- A rule for a first step whose result satisfies a condition.
  pub bind_then :
      {A B : Type 0} {Mid : A → World S → Type 0} {Done : B → World S → Type 0}
      {Fail : LogError → Store S → Type 0} {Crash : Store S → Type 0} {o : Outcome S A}
      (k : A → M S B)
      → Ensures Mid Fail Crash o
      → ((x : A) (w : World S) → Mid x w → Ensures Done Fail Crash (k x w))
      → Ensures Done Fail Crash (resume o k)
  bind_then k (on_done {x} {w} m) next = next x w m
  bind_then k (on_fail f) next = on_fail f
  bind_then k (on_crash c) next = on_crash c

  module _ {A : Type 0} {Done : A → World S → Type 0} {Fail : LogError → Store S → Type 0}
      {Crash : Store S → Type 0} where
    -- One action, and what follows it.
    pub act_then :
        (full : Store S → Store S) (part : ℕ → Store S → Store S) (k : M S A) (s : Store S)
        (n torn : ℕ)
        → Crash (part torn s)
        → ((m : ℕ) → Ensures Done Fail Crash (k (run_until (full s) m torn)))
        → Ensures Done Fail Crash ((act full part >> k) (run_until s n torn))
    unfolding act
    act_then full part k s zero torn c d = on_crash c
    act_then full part k s (suc n) torn c d = d n

    pub write_then :
        (bytes : Bytes) (k : M S A) (s : Store S) (n torn : ℕ)
        → ((i : ℕ) → Crash (write_log (take i bytes) s))
        → Crash (write_log bytes s)
        → ((m : ℕ)
            → Ensures Done Fail Crash (k (run_until (advance bytes (write_log bytes s)) m torn)))
        → Ensures Done Fail Crash ((write bytes >> k) (run_until s n torn))
    unfolding write
    write_then bytes k s zero torn c c' d = on_crash (c torn)
    write_then bytes k s (suc zero) torn c c' d = on_crash c'
    write_then bytes k s (suc (suc n)) torn c c' d = d n

    pub open_then :
        (k : M S A) (s : Store S) (n torn : ℕ)
        → Crash s
        → ((m : ℕ) → Ensures Done Fail Crash (k (run_until (move_to (length s.log) s) m torn)))
        → Ensures Done Fail Crash ((open_writer >> k) (run_until s n torn))
    unfolding open_writer
    open_then k s zero torn c d = on_crash c
    open_then k s (suc zero) torn c d = on_crash c
    open_then k s (suc (suc n)) torn c d = d n

    pub create_wal_then :
        (k : M S A) (s : Store S) (n torn : ℕ)
        → Crash s
        → ((m : ℕ) → Ensures Done Fail Crash (k (run_until (record s { wal = some [] }) m torn)))
        → Ensures Done Fail Crash ((create_wal >> k) (run_until s n torn))
    unfolding create_wal
    create_wal_then = act_then (λ s'. record s' { wal = some [] }) untouched

    pub write_wal_then :
        (bytes : Bytes) (k : M S A) (s : Store S) (n torn : ℕ)
        → ((i : ℕ) → Crash (wal_append (take i bytes) s))
        → ((m : ℕ) → Ensures Done Fail Crash (k (run_until (wal_append bytes s) m torn)))
        → Ensures Done Fail Crash ((write_wal bytes >> k) (run_until s n torn))
    unfolding write_wal
    write_wal_then bytes k s n torn c d =
        act_then (wal_append bytes) (λ torn s'. wal_append (take torn bytes) s') k s n torn (c torn)
          d

    pub seek_then :
        (pos : ℕ) (k : M S A) (s : Store S) (n torn : ℕ)
        → Crash s
        → ((m : ℕ) → Ensures Done Fail Crash (k (run_until (move_to pos s) m torn)))
        → Ensures Done Fail Crash ((seek pos >> k) (run_until s n torn))
    unfolding seek
    seek_then pos = act_then (move_to pos) untouched

    -- Extending a register, and what follows.
    pub extend_then :
        (a : Attester S) (value : Bytes) (pcr : ℕ) (k : M S A) (s : Store S) (n torn : ℕ)
        (registers : S)
        → a.extend_runtime_measurement s.registers value pcr ≡ some registers
        → Crash s
        → ((m : ℕ)
            → Ensures Done Fail Crash (k (run_until (record s { registers = registers }) m torn)))
        → Ensures Done Fail Crash ((extend_measurement a value pcr >> k) (run_until s n torn))
    extend_then a value pcr k s n torn registers e c d =
        after (λ _. k) (sym (extend_measurement_eq a value pcr (run_until s n torn) e))
          (act_then (λ s'. record s' { registers = registers }) untouched k s n torn c d)

  module _ {Done : Unit {0} → World S → Type 0} {Fail : LogError → Store S → Type 0}
      {Crash : Store S → Type 0} where
    pub act_end :
        (full : Store S → Store S) (part : ℕ → Store S → Store S) (s : Store S) (n torn : ℕ)
        → Crash (part torn s)
        → ((m : ℕ) → Done tt (run_until (full s) m torn))
        → Ensures Done Fail Crash (act full part (run_until s n torn))
    unfolding act
    act_end full part s zero torn c d = on_crash c
    act_end full part s (suc n) torn c d = on_done (d n)

    -- Removing the write-ahead record.
    pub clean_end :
        (s : Store S) (n torn : ℕ) (file : Bytes)
        → s.wal ≡ some file
        → Crash s
        → ((m : ℕ) → Done tt (run_until (record s { wal = none }) m torn))
        → Ensures Done Fail Crash (clean_wal_cache (run_until s n torn))
    clean_end s n torn file e c d =
        subst (Ensures Done Fail Crash) (sym (clean_wal_cache_eq (run_until s n torn) e))
          (act_end (λ s'. record s' { wal = none }) untouched s n torn c d)

  abbrev Returned : {A : Type 0} → (A → World S → Type 0) → Outcome S A → Type 0
  Returned P (done x w) = P x w
  Returned P (fail e w) = ⊥
  Returned P (crash w) = ⊥

  abbrev Killed : {A : Type 0} → (Store S → Type 0) → Outcome S A → Type 0
  Killed P (done x w) = ⊥
  Killed P (fail e w) = ⊥
  Killed P (crash w) = P w.store

  -- What is known of an outcome that came about.
  module _ {A : Type 0} {Done : A → World S → Type 0} {Fail : LogError → Store S → Type 0}
      {Crash : Store S → Type 0} where
    pub of_done :
        {o : Outcome S A} {x : A} {w : World S}
        → Ensures Done Fail Crash o
        → o ≡ done x w
        → Done x w
    of_done (on_done {x} {w} d) e = subst (Returned Done) e d
    of_done (on_fail f) e = cc
    of_done (on_crash c) e = cc

    pub of_crash :
        {o : Outcome S A} {w : World S} → Ensures Done Fail Crash o → o ≡ crash w → Crash w.store
    of_crash (on_done d) e = cc
    of_crash (on_fail f) e = cc
    of_crash (on_crash c) e = subst (Killed Crash) e c
