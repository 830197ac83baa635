-- ===== src/Inbound.antt =====
-- Inbound messages: the canonical form of crates/privchat-sdk/src/canonical_inbound.rs that the realtime and
-- the sync path share, and the duplicate window of room broadcasts of crates/privchat-sdk/src/lib.rs. The
-- metadata that a message's `extra` holds is JSON: reading it is a parameter.
pub mod Agreement
pub mod Room
use privchat_sdk.Base.{
  ltb, leb, ◌==◌, if◌then◌else◌, length, ℕ, ◌+◌, ◌*◌, ◌/◌, Bool, true, false, not, ◌&&◌, ◌||◌,
  Option, none, some, List, [], ◌∷◌, ◌++◌,
}
use privchat_sdk.Base.Int.{ℤ, pos, negsuc, sub_ℕ, ltb_ℤ, leb_ℤ, eqb_ℤ}
use privchat_sdk.Base.Text.{Text, text_eq}

pub data TimePrecision : Type 0 where
  seconds : TimePrecision
  milliseconds : TimePrecision

pub record CanonicalInboundMessage : Type 0 where
  pub server_message_id : ℕ
  pub local_message_id : ℕ
  pub channel_id : ℕ
  pub channel_type : ℤ
  pub from_uid : ℕ
  pub message_type : ℤ
  pub content : Text
  pub extra : Text
  pub pts : ℤ
  pub sent_at_ms : ℤ
  pub sent_at_precision : TimePrecision
  pub revoked : Bool

-- `/` of an `i64` by a positive number, towards zero.
abbrev pub quotient : ℤ → ℕ → ℤ
quotient (pos n) m = pos (n / m)
quotient (negsuc n) m = sub_ℕ 0 ((n + 1) / m)

abbrev max_ℤ : ℤ → ℤ → ℤ
max_ℤ a b = if leb_ℤ a b then b else a

unfoldable pub prefer_precise_sent_at : ℤ → ℤ → ℤ
prefer_precise_sent_at existing_ms incoming_ms =
    if ltb_ℤ (pos 0) existing_ms && eqb_ℤ (quotient existing_ms 1000) (quotient incoming_ms 1000)
    then max_ℤ existing_ms incoming_ms
    else incoming_ms

abbrev pub min_plausible_ms : ℕ
min_plausible_ms = 100000000000

-- A product of a number below the bound with 1000 does not saturate.
unfoldable pub normalize_sent_at_ms : ℤ → ℤ
normalize_sent_at_ms (negsuc n) = pos 0
normalize_sent_at_ms (pos n) = if leb min_plausible_ms n then pos n else pos (n * 1000)

unfoldable pub from_sync_entity :
    ℕ → ℕ → ℕ → ℤ → ℕ → ℤ → Text → Text → ℤ → ℤ → CanonicalInboundMessage
unfolding normalize_sent_at_ms
from_sync_entity server_message_id local_message_id channel_id channel_type from_uid message_type
      content extra pts timestamp =
    record {
      server_message_id = server_message_id;
      local_message_id = local_message_id;
      channel_id = channel_id;
      channel_type = channel_type;
      from_uid = from_uid;
      message_type = message_type;
      content = content;
      extra = extra;
      pts = pts;
      sent_at_ms = normalize_sent_at_ms timestamp;
      sent_at_precision = milliseconds;
      revoked = false;
    }

unfoldable pub from_push : ℕ → ℕ → ℕ → ℤ → ℕ → ℤ → Text → Text → ℤ → ℤ → CanonicalInboundMessage
unfolding normalize_sent_at_ms
from_push server_message_id local_message_id channel_id channel_type from_uid message_type content
      extra message_seq timestamp_secs =
    record {
      server_message_id = server_message_id;
      local_message_id = local_message_id;
      channel_id = channel_id;
      channel_type = channel_type;
      from_uid = from_uid;
      message_type = message_type;
      content = content;
      extra = extra;
      pts = message_seq;
      sent_at_ms = normalize_sent_at_ms timestamp_secs;
      sent_at_precision = seconds;
      revoked = false;
    }

pub record UpsertRemoteMessageInput : Type 0 where
  pub server_message_id : ℕ
  pub local_message_id : ℕ
  pub channel_id : ℕ
  pub channel_type : ℤ
  pub timestamp : ℤ
  pub from_uid : ℕ
  pub message_type : ℤ
  pub content : Text
  pub status : ℤ
  pub pts : ℤ
  pub setting : ℤ
  pub order_seq : ℤ
  pub searchable_word : Text
  pub extra : Text
  pub timestamp_precision : TimePrecision
  pub mime_type : Option Text
  pub revoked : Bool

unfoldable pub to_upsert_input :
    CanonicalInboundMessage → ℤ → Option Text → UpsertRemoteMessageInput
to_upsert_input m status mime_type = record {
  server_message_id = m.server_message_id;
  local_message_id = m.local_message_id;
  channel_id = m.channel_id;
  channel_type = if eqb_ℤ m.channel_type (pos 0) then pos 1 else m.channel_type;
  timestamp = m.sent_at_ms;
  from_uid = m.from_uid;
  message_type = m.message_type;
  content = m.content;
  status = status;
  pts = m.pts;
  setting = pos 0;
  order_seq = m.pts;
  searchable_word = [];
  extra = m.extra;
  timestamp_precision = m.sent_at_precision;
  mime_type = mime_type;
  revoked = m.revoked;
}

abbrev pub eq_bool : Bool → Bool → Bool
eq_bool true b = b
eq_bool false b = not b

-- `metadata` reads the metadata of an `extra`, and `same` compares two of them.
module _ {Metadata : Type 0} (metadata : Text → Option Metadata)
    (same : Option Metadata → Option Metadata → Bool) where
  pub record SemanticProjection : Type 0 where
    pub server_message_id : ℕ
    pub channel_id : ℕ
    pub channel_type : ℤ
    pub from_uid : ℕ
    pub message_type : ℤ
    pub content : Text
    pub metadata_value : Option Metadata
    pub pts : ℤ
    pub sent_at_ms : ℤ
    pub revoked : Bool

  unfoldable pub semantic : CanonicalInboundMessage → SemanticProjection
  semantic m = record {
    server_message_id = m.server_message_id;
    channel_id = m.channel_id;
    channel_type = m.channel_type;
    from_uid = m.from_uid;
    message_type = m.message_type;
    content = m.content;
    metadata_value = metadata m.extra;
    pts = m.pts;
    sent_at_ms = m.sent_at_ms;
    revoked = m.revoked;
  }

  unfoldable pub agrees_with : SemanticProjection → SemanticProjection → Bool
  agrees_with a b =
      a.server_message_id == b.server_message_id
      && a.channel_id == b.channel_id
      && eqb_ℤ a.channel_type b.channel_type
      && a.from_uid == b.from_uid
      && eqb_ℤ a.message_type b.message_type
      && text_eq a.content b.content
      && same a.metadata_value b.metadata_value
      && eqb_ℤ a.pts b.pts
      && eq_bool a.revoked b.revoked
      && eqb_ℤ (quotient a.sent_at_ms 1000) (quotient b.sent_at_ms 1000)

-- `room_seen_msg_ids`: by channel, the ids seen, oldest first.
abbrev pub Seen : Type 0
Seen = ℕ → List ℕ

unfoldable pub seen_id : ℕ → List ℕ → Bool
seen_id id [] = false
seen_id id (x ∷ xs) = x == id || seen_id id xs

abbrev pub room_dedup_window : ℕ
room_dedup_window = 256

-- `push_back`, and `pop_front` above the window.
remember_id : ℕ → List ℕ → List ℕ
remember_id id seen = elim seen [
  | [] ↦ id ∷ []
  | x ∷ xs ↦
      if ltb room_dedup_window (length (x ∷ xs) + 1) then xs ++ (id ∷ []) else x ∷ xs ++ (id ∷ [])
]

unfoldable pub room_message_is_duplicate : Seen → ℕ → Option ℕ → Bool × Seen
unfolding seen_id remember_id
room_message_is_duplicate seen channel_id none = (false, seen)
room_message_is_duplicate seen channel_id (some id) =
    if seen_id id (seen channel_id)
    then (true, seen)
    else (false, λ c. if c == channel_id then remember_id id (seen channel_id) else seen c)
