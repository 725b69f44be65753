-- ===== src/EventLog/Tcg2.antt =====
-- The TCG2 encoding of an event: eventlog/tcg2.rs, and `serialize_tcg2_event` of eventlog/mod.rs.
use guest_components.Prelude.{ℕ, ◌%◌, List, [], ◌∷◌, ◌++◌, length, Bytes}
use guest_components.Prelude.Words.{u32_mod, le_bytes}
use guest_components.EventLog.Event
use guest_components.EventLog.Event.{Event}

-- `kbs_types::HashAlgorithm`
pub data HashAlgorithm : Type 0 where
  sha256 sha384 sha512 sm3 : HashAlgorithm

pub data TcgAlgorithm : Type 0 where
  tcg_sha256 tcg_sha384 tcg_sha512 tcg_sm3 : TcgAlgorithm

abbrev from_hash_algorithm : HashAlgorithm → TcgAlgorithm
from_hash_algorithm sha256 = tcg_sha256
from_hash_algorithm sha384 = tcg_sha384
from_hash_algorithm sha512 = tcg_sha512
from_hash_algorithm sm3 = tcg_sm3

-- The discriminants of the enumeration.
abbrev discriminant : TcgAlgorithm → ℕ
discriminant tcg_sha256 = 0xB
discriminant tcg_sha384 = 0xC
discriminant tcg_sha512 = 0xD
discriminant tcg_sm3 = 0x12

pub record ElDigest : Type 0 where
  pub alg : TcgAlgorithm
  pub digest : Bytes

unfoldable pub el_digest_bytes : ElDigest → Bytes
el_digest_bytes d = le_bytes 2 (discriminant d.alg) ++ d.digest

pub record Tcg2EventEntry : Type 0 where
  pub target_measurement_register : ℕ
  pub event_type_num : ℕ
  pub digest_count : ℕ
  pub digest : List ElDigest
  pub event_data_length : ℕ
  pub event_data : Bytes

unfoldable digests_bytes : List ElDigest → Bytes
digests_bytes [] = []
digests_bytes (d ∷ ds) = el_digest_bytes d ++ digests_bytes ds

unfoldable pub entry_bytes : Tcg2EventEntry → Bytes
unfolding digests_bytes
entry_bytes e =
    le_bytes 4 e.target_measurement_register
    ++ (le_bytes 4 e.event_type_num
        ++ (le_bytes 4 e.digest_count
            ++ (digests_bytes e.digest ++ (le_bytes 4 e.event_data_length ++ e.event_data))))

pub record TaggedEvent : Type 0 where
  pub tagged_id : ℕ
  pub tagged_event_size : ℕ
  pub event_data : Bytes

unfoldable pub tagged_bytes : TaggedEvent → Bytes
tagged_bytes t = le_bytes 4 t.tagged_id ++ (le_bytes 4 t.tagged_event_size ++ t.event_data)

abbrev ev_event_tag_type : ℕ
ev_event_tag_type = 0x6

abbrev aael_tagged_event_id : ℕ
aael_tagged_event_id = 0x4141454c

-- `From<Event> for Tcg2EventEntry`, over the event's text
unfoldable pub tcg2_of_text : Bytes → Tcg2EventEntry
tcg2_of_text text =
    let tagged = tagged_bytes (record {
      tagged_id = aael_tagged_event_id;
      tagged_event_size = length text % u32_mod;
      event_data = text;
    }) in
    record {
      target_measurement_register = 1;
      event_type_num = ev_event_tag_type;
      digest_count = 0;
      digest = [];
      event_data_length = length tagged % u32_mod;
      event_data = tagged;
    }

unfoldable pub from_event : Event → Tcg2EventEntry
from_event e = tcg2_of_text (Event.to_string e)

unfoldable pub with_target_measurement_register : Tcg2EventEntry → ℕ → Tcg2EventEntry
with_target_measurement_register e register = record e { target_measurement_register = register }

-- The digests are computed by a crate: `hash` is `HashAlgorithm::digest`.
module _ (hash : HashAlgorithm → Bytes → Bytes) where
  unfoldable pub digest : Tcg2EventEntry → HashAlgorithm → Tcg2EventEntry × Bytes
  digest e algorithm =
      let value = hash algorithm e.event_data in
      (
        record e {
          digest_count = 1;
          digest = record { alg = from_hash_algorithm algorithm; digest = value } ∷ [];
        },
        value,
      )

  unfoldable pub serialize_tcg2_event : Event → ℕ → HashAlgorithm → Bytes × Bytes
  serialize_tcg2_event event rtmr alg =
      let (tcg2_event, value) =
        digest (with_target_measurement_register (from_event event) (rtmr % u32_mod)) alg in
      (entry_bytes tcg2_event, value)
