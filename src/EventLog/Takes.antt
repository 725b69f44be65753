-- ===== src/EventLog/Takes.antt =====
-- How many actions a part of an operation takes: those of a sequence add up.
use guest_components.Prelude.{
  ℕ, zero, suc, ◌+◌, ◌≤◌, ◌≡◌, refl, Option, none, some, arith, Bytes, Result, ok, err,
}
use guest_components.EventLog.Machine.{
  Interrupt, Store, World, LogError, Outcome, done, fail, crash, M, resume, ◌>>=◌, pure, lift,
  lift_option, io, untouched, gets, act, write, open_writer, clean_wal_cache,
}
use guest_components.EventLog.Outcomes.{Never, Ensures, on_done, on_fail}

module _ {S : Type 0} where
  -- From `n` actions at least `n - k` are left, and the process was not killed.
  pub data Within (k n : ℕ) {A : Type 0} : Outcome S A → Type 0 where
    on_time : {x : A} {w : World S} → n ≤ w.budget + k → Within k n (done x w)
    failed : {e : LogError} {w : World S} → Within k n (fail e w)

  abbrev pub Takes : {A : Type 0} → ℕ → M S A → Type 0
  Takes k m = (w : World S) → k ≤ w.budget → Within k w.budget (m w)

  Within-mono : {A : Type 0} {k l n : ℕ} {o : Outcome S A} → k ≤ l → Within k n o → Within l n o
  Within-mono h (on_time x) = on_time (omega arith)
  Within-mono h failed = failed

  Within-shift :
      {A : Type 0} (k l n m : ℕ) {o : Outcome S A} → n ≤ m + k → Within l m o → Within (k + l) n o
  Within-shift k l n m h (on_time x) = on_time (omega arith)
  Within-shift k l n m h failed = failed

  Within-resume :
      {A B : Type 0} {k l n : ℕ} {o : Outcome S A} (f : A → M S B)
      → k + l ≤ n
      → Within k n o
      → ((x : A) → Takes l (f x))
      → Within (k + l) n (resume o f)
  Within-resume {k = k} {l = l} {n = n} f h (on_time {x} {w} t) g =
      Within-shift k l n w.budget t (g x w (omega arith))
  Within-resume f h failed g = failed

  -- Neither killed nor refused: there is a result, and what is ensured of it.
  pub result :
      {A : Type 0} {k n : ℕ} {Done : A → World S → Type 0} {Crash : Store S → Type 0}
      (o : Outcome S A)
      → Within k n o
      → Ensures Done Never Crash o
      → (x : A) × (w : World S) × (o ≡ done x w) × Done x w
  result (done x w) t (on_done d) = (x, w, refl, d)
  result (fail e w) t (on_fail f) = absurd f
  result (crash w) t d = elim t [ ]

  -- Neither killed nor accepted: there is an error, and what is ensured of the store.
  pub refusal :
      {A : Type 0} {k n : ℕ} {Fail Crash : Store S → Type 0} (o : Outcome S A)
      → Within k n o
      → Ensures (λ x w. ⊥) (λ e. Fail) Crash o
      → (x : LogError) × (w : World S) × (o ≡ fail x w) × Fail w.store
  refusal (done x w) t (on_done d) = absurd d
  refusal (fail e w) t (on_fail f) = (e, w, refl, f)
  refusal (crash w) t d = elim t [ ]

  pub Takes-bind :
      {A B : Type 0} {k l : ℕ} (m : M S A) (f : A → M S B)
      → Takes k m
      → ((x : A) → Takes l (f x))
      → Takes (k + l) (m >>= f)
  Takes-bind m f p q w h = Within-resume f h (p w (omega arith)) q

  Takes-act_at :
      (full : Store S → Store S) (part : ℕ → Store S → Store S) (s : Store S) (torn : ℕ)
      (i : Interrupt) (n : ℕ)
      → 1 ≤ n
      → Within 1 n (act full part (record { store = s; budget = n; torn = torn; interrupt = i }))
  unfolding act
  Takes-act_at full part s torn i zero h = absurd (omega arith)
  Takes-act_at full part s torn i (suc n) h = on_time (omega arith)

  pub Takes-act :
      (full : Store S → Store S) (part : ℕ → Store S → Store S) → Takes 1 (act full part)
  Takes-act full part w h = Takes-act_at full part w.store w.torn w.interrupt w.budget h

  pub Takes-pure : {A : Type 0} (x : A) → Takes 0 (pure x)
  Takes-pure x w h = on_time (omega arith)

  pub Takes-lift_option : {A : Type 0} (o : Option A) (e : LogError) → Takes 0 (lift_option o e)
  Takes-lift_option (some x) e w h = on_time (omega arith)
  Takes-lift_option none e w h = failed

  pub Takes-lift_then :
      {A B : Type 0} {k : ℕ} (o : Option A) (e : LogError) (f : A → M S B)
      → ((x : A) → Takes k (f x))
      → Takes k (lift_option o e >>= f)
  Takes-lift_then (some x) e f g w h = g x w h
  Takes-lift_then none e f g w h = failed

  pub Takes-lift : {A E : Type 0} (m : Result E A) (e : LogError) → Takes 0 (lift m e)
  Takes-lift (ok x) e w h = on_time (omega arith)
  Takes-lift (err x) e w h = failed

  pub Takes-gets : {A : Type 0} (f : Store S → A) → Takes 0 (gets f)
  Takes-gets f w h = on_time (omega arith)

  pub Takes-write : (bytes : Bytes) → Takes 2 (write bytes)
  unfolding write
  Takes-write bytes =
      Takes-bind {k = 1} {l = 1} _ _ (Takes-act _ _)
        λ _. Takes-bind {k = 1} {l = 0} _ _ (Takes-act _ _) λ _ w h. on_time (omega arith)

  pub Takes-open_writer : Takes 2 open_writer
  unfolding open_writer
  Takes-open_writer = Takes-bind {k = 1} {l = 1} _ _ (Takes-act _ _) λ _. Takes-act _ _

  pub Takes-clean_wal_cache : Takes 1 clean_wal_cache
  unfolding clean_wal_cache
  Takes-clean_wal_cache w h =
      Takes-lift_then w.store.wal io _ (λ _. Takes-act (λ s. record s { wal = none }) untouched) w h
