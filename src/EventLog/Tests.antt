-- ===== src/EventLog/Tests.antt =====
-- The event log on a toy attester with one register, and its theorems at concrete inputs.
use guest_components.Prelude.{
  ℕ, suc, ◌+◌, ◌<◌, ◌≡◌, refl, ap, ◌≢◌, inr, true, false, none, some, [], ◌∷◌, ◌++◌, arith, Bytes,
  codes, length, take, append_assoc, err, length-append, contains, split_once, ok,
}
use guest_components.Prelude.Words.{le_bytes, be_bytes}
use guest_components.EventLog.Event
use guest_components.EventLog.Event.{content_contains_newline, Event, to_string}
use guest_components.EventLog.EventLaws.{
  to_string-try_from, try_from-to_string_total, new-try_from_newline,
}
use guest_components.EventLog.Tcg2.{
  sha384, serialize_tcg2_event, digest, from_event, tcg2_of_text, tagged_bytes, entry_bytes,
  el_digest_bytes, with_target_measurement_register,
}
use guest_components.EventLog.Machine.{
  Attester, Store, World, LogError, Outcome, done, fail, crash, act, write, write_at, create_wal,
  write_wal, clean_wal_cache, get_measurement, extend_measurement,
}
use guest_components.EventLog.Outcomes.{run_until}
use guest_components.EventLog.Journal.{EventLog, new, extend_entry, write_wal_cache}
use guest_components.EventLog.States.{
  IsLawful, entry_of, value_of, wal_file, extended, IsClean, IsPending, IsTorn, IsLoggable,
}
use guest_components.EventLog.Start.{handle, IsStarted}
use guest_components.EventLog.Recovery.{IsRecovered}
use guest_components.EventLog.Torn.{IsTelling, IsUntouched}
use guest_components.EventLog.Another.{IsElsewhere, new_refuses_another}
use guest_components.EventLog.Cost.{new_total, new_refuses_torn, extend_entry_total}

-- A digest of one number, which grows with every byte.
abbrev weight : Bytes → ℕ
weight [] = 0
weight (b ∷ bs) = suc (b + weight bs)

abbrev toy : Attester Bytes
toy = record {
  ccel_hash_algorithm = sha384;
  hash = λ alg b. weight b ∷ [];
  digest_len = λ alg. 1;
  pcr_to_ccmr = λ pcr. 3;
  get_runtime_measurement = λ r pcr. some r;
  extend_runtime_measurement = λ r value pcr. some (weight (r ++ value) ∷ []);
  is_utf8 = λ b. true;
}

toy-IsLawful : IsLawful toy
toy-IsLawful = record {
  digest_length = λ alg b. refl;
  extends = λ s pcr r value h. (weight (s ++ value) ∷ [], refl, ground arith);
}

abbrev login : Event
login = record { domain = codes "d"; operation = codes "o p"; content = codes "c" }

abbrev start : Store Bytes
start = record { log = 7 ∷ []; wal = none; registers = []; writer = record { cursor = 1; pos = 1 } }

start-IsClean : IsClean toy 17 (7 ∷ []) [] start
start-IsClean = record { log_is = refl; no_wal = refl; register_is = refl }

weight-append : (xs ys : Bytes) → weight (xs ++ ys) ≡ weight xs + weight ys
weight-append [] ys = omega arith
weight-append (x ∷ xs) ys = omega (arith, weight-append xs ys)

abbrev world_of : {A : Type 0} → Outcome Bytes A → World Bytes
world_of (done x w) = w
world_of (fail e w) = w
world_of (crash w) = w

login-IsLoggable : IsLoggable toy 17 (7 ∷ []) login
unfolding to_string contains serialize_tcg2_event from_event tcg2_of_text digest entry_bytes
    tagged_bytes el_digest_bytes le_bytes with_target_measurement_register
login-IsLoggable = record { one_line = refl; utf8 = refl; offset_fits = omega arith }

extend_entry_total_example :
    (x : Unit {0}) × (w : World Bytes) × (extend_entry toy
        (handle toy 17)
        login
        17
        (run_until start 9 0)
      ≡ done x w)
    × IsRecovered toy 17 (7 ∷ []) [] login x w
extend_entry_total_example =
    extend_entry_total toy 17 (7 ∷ []) [] login start 9 0 (omega arith) toy-IsLawful
      login-IsLoggable start-IsClean refl

value_weight :
    (e : Event) (n : ℕ)
    → length (to_string e) ≡ n
    → n < 256
    → weight (extended toy 17 e []) ≡ weight (to_string e) + n + 285
unfolding serialize_tcg2_event from_event tcg2_of_text digest tagged_bytes le_bytes
    with_target_measurement_register
value_weight e n h small = omega (arith, h)

weight_pos : (cut : Bytes) → cut ≢ [] → 0 < weight cut
weight_pos [] h = absurd (h refl)
weight_pos (b ∷ cut) h = omega arith

login_no_collision :
    (e' : Event) (cut : Bytes)
    → cut ≢ []
    → to_string e' ++ cut ≡ to_string login
    → extended toy 17 e' [] ≢ extended toy 17 login []
unfolding to_string
login_no_collision e' cut ne whole same = absurd (
    omega (
      arith,
      ap weight same,
      ap weight whole,
      ap length whole,
      weight_pos cut ne,
      weight-append (to_string e') cut,
      length-append (to_string e') cut,
      value_weight e' (length (to_string e')) refl,
      value_weight login 7 refl,
    ))

login-IsTelling : IsTelling toy 17 (7 ∷ []) [] login
login-IsTelling = record {
  moves = λ h. absurd (omega (arith, ap length h));
  no_collision = login_no_collision;
}

-- Killed while the entry is half written, then killed again, then started.
abbrev first_kill : World Bytes
first_kill = world_of (extend_entry toy (handle toy 17) login 17 (run_until start 6 5))

abbrev second_kill : World Bytes
second_kill = world_of (new toy 17 (run_until first_kill.store 4 2))

abbrev last_start : World Bytes
last_start = world_of (new toy 17 (run_until second_kill.store 20 0))

first_kill-IsPending : IsPending toy 17 (7 ∷ []) [] login first_kill.store
unfolding extend_entry write_wal_cache write create_wal write_wal clean_wal_cache get_measurement
    extend_measurement act write_at
first_kill-IsPending = record {
  written = 5;
  log_is = write_five;
  wal_is = refl;
  register_is = inr refl;
}
  where
    write_five :
        write_at 1 (take 5 (entry_of toy 17 login)) (7 ∷ [])
        ≡ (7 ∷ []) ++ take 5 (entry_of toy 17 login)
    write_five =
        unfold serialize_tcg2_event from_event tcg2_of_text digest entry_bytes tagged_bytes
          el_digest_bytes le_bytes with_target_measurement_register in
        refl

new_total_example :
    (self : EventLog) × (w : World Bytes) × (new toy 17 (run_until first_kill.store 8 0)
      ≡ done self w)
    × IsStarted toy 17 ((7 ∷ []) ++ entry_of toy 17 login) (extended toy 17 login []) self w
new_total_example =
    new_total toy 17 (7 ∷ []) [] login first_kill.store 8 0 (omega arith) toy-IsLawful
      login-IsLoggable first_kill-IsPending

-- Killed while the text of the event is written to the write-ahead record.
abbrev torn_kill : World Bytes
torn_kill = world_of (extend_entry toy (handle toy 17) login 17 (run_until start 3 2))

torn_kill-IsTorn : IsTorn toy 17 (7 ∷ []) [] login torn_kill.store
unfolding extend_entry write_wal_cache create_wal write_wal get_measurement act to_string
torn_kill-IsTorn = record {
  written = (be_bytes 8 1 ++ extended toy 17 login []) ++ codes "d ";
  missing = codes "o p c";
  whole = append_assoc (be_bytes 8 1 ++ extended toy 17 login []) (codes "d ") (codes "o p c");
  wal_is = refl;
  log_is = refl;
  register_is = refl;
}

new_refuses_torn_example :
    (x : LogError) × (w : World Bytes) × (new toy 17 (run_until torn_kill.store 8 0) ≡ fail x w)
    × IsUntouched toy 17 (7 ∷ []) [] login torn_kill.store w.store
unfolding torn_kill-IsTorn
new_refuses_torn_example =
    new_refuses_torn toy 17 (7 ∷ []) [] login torn_kill.store 8 0 (omega arith) toy-IsLawful
      login-IsTelling torn_kill-IsTorn (λ h. cc)

-- The record of an event whose register held 4, while the log's own register is empty.
abbrev elsewhere : Store Bytes
elsewhere = record start { wal = some (wal_file toy 17 (7 ∷ []) (4 ∷ []) login) }

elsewhere-IsElsewhere : IsElsewhere toy 17 (7 ∷ []) [] (4 ∷ []) login elsewhere
elsewhere-IsElsewhere = record {
  wal_is = refl;
  register_is = refl;
  not_expected = λ h. absurd (omega (arith, ap length h));
  not_extended = λ h.
      let value = value_of toy 17 login in
      let same : weight value ≡ suc (4 + weight value) = cc in absurd (omega (arith, same));
}

new_refuses_another_example :
    (x : LogError) × (w : World Bytes) × (new toy 17 (run_until elsewhere 8 0) ≡ fail x w)
    × IsUntouched toy 17 (7 ∷ []) [] login elsewhere w.store
new_refuses_another_example =
    new_refuses_another toy 17 (7 ∷ []) [] (4 ∷ []) login elsewhere 8 0 (omega arith) toy-IsLawful
      login-IsLoggable elsewhere-IsElsewhere

abbrev parsed_event : Event
parsed_event = record { domain = codes "d"; operation = codes "o"; content = codes "p c" }

to_string-try_from_example :
    (to_string parsed_event ≡ codes "d o p c") × (contains b'\n' parsed_event.content ≡ false)
unfolding Event.try_from Event.content_try_from split_once contains
to_string-try_from_example = to_string-try_from (codes "d o p c") parsed_event refl

try_from-to_string_total_example :
    (e' : Event) × (Event.try_from (to_string login) ≡ ok e') × (to_string e' ≡ to_string login)
unfolding to_string contains
try_from-to_string_total_example = try_from-to_string_total login refl

new-try_from_newline_example :
    (e : Event) × (Event.new (codes "a b " ++ (10 ∷ codes "c")) (codes "op") (codes "x") ≡ ok e)
    × (Event.try_from (to_string e) ≡ err content_contains_newline)
unfolding contains
new-try_from_newline_example =
    new-try_from_newline (codes "a") (codes "b") (10 ∷ codes "c") (codes "op") (codes "x") refl refl
      refl refl
