-- ===== src/EventLog/Reach.antt =====
-- An event that is recorded across any number of kills.
use guest_components.Prelude.{ℕ, ◌≡◌, ◌⊎◌, ◌++◌, Bytes}
use guest_components.EventLog.Event.{Event}
use guest_components.EventLog.Machine.{Attester, Store, World, crash}
use guest_components.EventLog.Outcomes.{run_until}
use guest_components.EventLog.Journal.{EventLog, new}
use guest_components.EventLog.States.{IsLawful, entry_of, extended, IsClean, IsLoggable}
use guest_components.EventLog.Torn.{IsTelling}

module _ {S : Type 0} (a : Attester S) (pcr : ℕ) where
  -- Starts of the agent each of which is killed.
  pub data KilledStarts : Store S → Store S → Type 0 where
    none_yet : {s : Store S} → KilledStarts s s
    one_more :
        {s s' s'' : Store S} (n torn : ℕ) (w : World S)
        → KilledStarts s s'
        → new a pcr (run_until s' n torn) ≡ crash w
        → w.store ≡ s''
        → KilledStarts s s''

  module _ (base r : Bytes) (e : Event) (law : IsLawful a) (fits : IsLoggable a pcr base e)
      (tells : IsTelling a pcr base r e) where
    -- Log and register agree: both have the event, or neither has.
    abbrev pub IsAllOrNothing : Store S → Type 0
    IsAllOrNothing s =
        IsClean a pcr base r s ⊎ IsClean a pcr (base ++ entry_of a pcr e) (extended a pcr e r) s
