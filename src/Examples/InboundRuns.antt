-- ===== src/Examples/InboundRuns.antt =====
-- Inbound messages of crates/privchat-sdk/src/canonical_inbound.rs and the room window of lib.rs on
-- concrete inputs. The metadata of an `extra` is the `extra` itself here.
use privchat_sdk.Base.{
  ℕ, List, none, length, ◌≤◌, ◌≡◌, refl, Bool, true, false, Option, some, [], ◌∷◌, arith,
}
use privchat_sdk.Base.Int.{pos}
use privchat_sdk.Base.Text.{Text, text_eq, text_eq_refl}
use privchat_sdk.Inbound.{
  prefer_precise_sent_at, from_sync_entity, from_push, semantic, agrees_with, Seen,
  room_dedup_window, room_message_is_duplicate, seen_id,
}
use privchat_sdk.Inbound.Agreement.{push_sync-agree}
use privchat_sdk.Inbound.Room.{receive_all, heard, room_message_is_duplicate-repeat}

abbrev read : Text → Option Text
read extra = some extra

abbrev same : Option Text → Option Text → Bool
same (some s) (some t) = text_eq s t
same _ _ = false

abbrev hello : Text
hello = b'h' ∷ b'i' ∷ []

push_sync-agree_example :
    let push = from_push 9 0 4 (pos 1) 7 (pos 0) hello hello (pos 12) (pos 1700000000) in
    let sync = from_sync_entity 9 55 4 (pos 1) 7 (pos 0) hello hello (pos 12) (pos 1700000000317) in
    (agrees_with read same (semantic read same push) (semantic read same sync) ≡ true)
    × (prefer_precise_sent_at push.sent_at_ms sync.sent_at_ms ≡ pos 1700000000317)
    × (prefer_precise_sent_at sync.sent_at_ms push.sent_at_ms ≡ pos 1700000000317)
push_sync-agree_example =
    push_sync-agree read same 9 0 55 4 (pos 1) 7 (pos 0) hello hello (pos 12) 1700000000
      1700000000317 (text_eq_refl hello) (omega arith) (omega arith) refl

abbrev quiet : Seen
quiet c = 31 ∷ []

abbrev between : List (ℕ × Option ℕ)
between = (5, some 31) ∷ (6, some 30) ∷ (5, none) ∷ (5, some 32) ∷ []

room_message_is_duplicate-repeat_example :
    let first = (room_message_is_duplicate quiet 5 (some 30)).1 in
    let after = receive_all between first in
    (room_message_is_duplicate after 5 (some 30) ≡ (true, after))
    × (first 6 ≡ quiet 6)
    × (length (after 5) ≤ room_dedup_window)
unfolding room_message_is_duplicate seen_id heard
room_message_is_duplicate-repeat_example =
    room_message_is_duplicate-repeat quiet 5 6 30 between refl (omega arith) (omega arith)
      (λ e. omega arith)
