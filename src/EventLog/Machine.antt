-- ===== src/EventLog/Machine.antt =====
-- What the event log acts on: its two files, the open log file, and the measurement registers; and
-- the monad of its actions, any of which may be the one at which the process is killed.
use guest_components.Prelude.{
  ℕ, zero, suc, ◌+◌, ◌-◌, ◌%◌, Bool, Option, none, some, [], ◌∷◌, ◌++◌, Bytes, length, take, drop,
  ltb, if◌then◌else◌, Result, ok, err,
}
use guest_components.Prelude.Words.{u64_mod}
use guest_components.EventLog.Tcg2.{HashAlgorithm}

-- The TEE driver and the standard library, as far as the event log uses them.
pub record Attester (S : Type 0) : Type 0 where
  -- `ccel_hash_algorithm`, `HashAlgorithm::digest`, `HashAlgorithm::digest_len`
  pub ccel_hash_algorithm : HashAlgorithm
  pub hash : HashAlgorithm → Bytes → Bytes
  pub digest_len : HashAlgorithm → ℕ
  pub pcr_to_ccmr : ℕ → ℕ
  pub get_runtime_measurement : S → ℕ → Option Bytes
  pub extend_runtime_measurement : S → Bytes → ℕ → Option S
  -- whether bytes are UTF-8, which `read_to_string` checks
  pub is_utf8 : Bytes → Bool

-- `FileWriter`: the cursor of the open file, and the position that the program keeps
pub record FileWriter : Type 0 where
  pub cursor : ℕ
  pub pos : ℕ

-- `log` is the file EVENTLOG_PATH, `wal` the file WAL_CACHE (`none`: there is no such file), and
-- `registers` the measurement registers. These outlive the process; `writer` does not.
pub record Store (S : Type 0) : Type 0 where
  pub log : Bytes
  pub wal : Option Bytes
  pub registers : S
  pub writer : FileWriter

pub data Interrupt : Type 0 where
  killed io_error : Interrupt

-- `budget` actions succeed; the next one is interrupted, and of what it writes only the first
-- `torn` bytes reach the file.
pub record World (S : Type 0) : Type 0 where
  pub store : Store S
  pub budget : ℕ
  pub torn : ℕ
  pub interrupt : Interrupt

pub data LogError : Type 0 where
  io no_measurement extension_failed corrupted bad_wal_cache bad_event : LogError

pub data Outcome (S A : Type 0) : Type 0 where
  done : A → World S → Outcome S A
  fail : LogError → World S → Outcome S A
  crash : World S → Outcome S A

abbrev pub M : Type 0 → Type 0 → Type 0
M S A = World S → Outcome S A

module _ {S : Type 0} where
  abbrev pub resume : {A B : Type 0} → Outcome S A → (A → M S B) → Outcome S B
  resume (done a w) f = f a w
  resume (fail e w) f = fail e w
  resume (crash w) f = crash w

  infixl 5 ◌>>=◌ ◌>>◌
  abbrev pub ◌>>=◌ : {A B : Type 0} → M S A → (A → M S B) → M S B
  ◌>>=◌ m f w = resume (m w) f

  abbrev pub ◌>>◌ : {B : Type 0} → M S (Unit {0}) → M S B → M S B
  m >> k = m >>= λ _. k

  abbrev pub pure : {A : Type 0} → A → M S A
  pure a w = done a w

  abbrev pub throw : {A : Type 0} → LogError → M S A
  throw e w = fail e w

  -- `res?` and `opt.ok_or(…)?`
  abbrev pub lift : {A : Type 0} {E : Type 0} → Result E A → LogError → M S A
  lift (ok a) e = pure a
  lift (err _) e = throw e

  abbrev pub lift_option : {A : Type 0} → Option A → LogError → M S A
  lift_option (some a) e = pure a
  lift_option none e = throw e

  abbrev pub gets : {A : Type 0} → (Store S → A) → M S A
  gets f w = done (f w.store) w

  abbrev stop : {A : Type 0} → Interrupt → World S → Outcome S A
  stop killed w = crash w
  stop io_error w = fail io w

  -- One action with its effect, and its effect when it is the interrupted one.
  unfoldable pub act : (Store S → Store S) → (ℕ → Store S → Store S) → M S (Unit {0})
  act full part w = elim w.budget [
    | zero ↦ stop w.interrupt (record w { store = part w.torn w.store })
    | suc n ↦ done tt (record w { store = full w.store; budget = n })
  ]

  abbrev pub untouched : ℕ → Store S → Store S
  untouched torn s = s

-- `write_all` at a position of a file: zeros fill a gap, as for a sparse file.
unfoldable pub zeros : ℕ → Bytes
zeros zero = []
zeros (suc n) = 0 ∷ zeros n

unfoldable pub write_at : ℕ → Bytes → Bytes → Bytes
unfolding zeros
write_at pos bytes file =
    take pos (file ++ zeros (pos - length file)) ++ (bytes ++ drop (pos + length bytes) file)

-- `read_exact`: fails on a file with fewer bytes left
unfoldable pub read_exact : ℕ → Bytes → Option (Bytes × Bytes)
read_exact n file = if ltb (length file) n then none else some (take n file, drop n file)

module _ {S : Type 0} where
  abbrev pub write_log : Bytes → Store S → Store S
  write_log bytes s = record s {
    log = write_at s.writer.cursor bytes s.log;
    writer = record { cursor = s.writer.cursor + length bytes; pos = s.writer.pos };
  }

  -- the program's own count of the bytes
  abbrev pub advance : Bytes → Store S → Store S
  advance bytes s = record s {
    writer = record { cursor = s.writer.cursor; pos = (s.writer.pos + length bytes) % u64_mod };
  }

  -- `FileWriter::write`
  unfoldable pub write : Bytes → M S (Unit {0})
  unfolding act
  write bytes = do
    act (write_log bytes) (λ torn s. write_log (take torn bytes) s)
    act (λ s. s) untouched
    λ w. done tt (record w { store = advance bytes w.store })

  abbrev pub move_to : ℕ → Store S → Store S
  move_to pos s = record s { writer = record { cursor = pos; pos = pos } }

  -- `FileWriter::seek`
  unfoldable pub seek : ℕ → M S (Unit {0})
  unfolding act
  seek pos = act (move_to pos) untouched

  -- `FileWriter::open`: creates the file if it is missing, and seeks its end
  unfoldable pub open_writer : M S (Unit {0})
  unfolding act
  open_writer = do act (λ s. s) untouched; act (λ s. move_to (length s.log) s) untouched

  -- `File::create(WAL_CACHE)`, which empties the file, and a `write_all` to it
  abbrev pub wal_append : Bytes → Store S → Store S
  wal_append bytes s = record s {
    wal = elim s.wal [ none ↦ none | some file ↦ some (file ++ bytes) ];
  }

  unfoldable pub create_wal : M S (Unit {0})
  unfolding act
  create_wal = act (λ s. record s { wal = some [] }) untouched

  unfoldable pub write_wal : Bytes → M S (Unit {0})
  unfolding act
  write_wal bytes = act (wal_append bytes) (λ torn s. wal_append (take torn bytes) s)

  -- `remove_file(WAL_CACHE)`: an error if there is no such file
  unfoldable pub clean_wal_cache : M S (Unit {0})
  unfolding act
  clean_wal_cache = do
    file ← gets (λ s. s.wal)
    _ ← lift_option file io
    act (λ s. record s { wal = none }) untouched

  module _ (a : Attester S) where
    unfoldable pub get_measurement : ℕ → M S Bytes
    get_measurement pcr = do
      registers ← gets (λ s. s.registers)
      lift_option (a.get_runtime_measurement registers pcr) no_measurement

    -- `extend_runtime_measurement`
    unfoldable pub extend_measurement : Bytes → ℕ → M S (Unit {0})
    unfolding act
    extend_measurement value pcr = do
      registers ← gets (λ s. s.registers)
      registers' ← lift_option (a.extend_runtime_measurement registers value pcr) extension_failed
      act (λ s. record s { registers = registers' }) untouched
