-- ===== src/Outbox/Delivery.antt =====
-- What the transactions of the outbox of crates/privchat-sdk/src/local_store.rs do to a message and its row
-- together.
use privchat_sdk.Base.{
  ◌==◌, Bool-cases, All, ℕ, ◌≡◌, refl, ap, ◌∙◌, ◌≢◌, inl, inr, true, some, List, [], ◌∷◌, arith,
}
use privchat_sdk.Base.Int.{ℤ}
use privchat_sdk.Outbox.{
  Message, Tables, has_server_id, find_message, update_message, sent, outbox_reject,
}
use privchat_sdk.Outbox.Rows.{count_rows, delete_rows-count}

pub find-update_message :
    (id : ℕ) (f : Message → Message) (ms : List Message) (m : Message)
    → ((x : Message) → (f x).id ≡ x.id)
    → find_message id ms ≡ some m
    → find_message id (update_message id f ms) ≡ some (f m)
unfolding find_message
find-update_message id f [] m same h = cc
find-update_message id f (x ∷ ms) m same h = elim (Bool-cases (x.id == id)) [
  | inl here ↦
      let it : x ≡ m = ground arith in
      let still : ((f x).id == id) ≡ true = ap (λ n. n == id) (same x) ∙ here in
      rw (here, still) (ap (λ y. some (f y)) it)
  | inr there ↦ rw (there, there) (find-update_message id f ms m same (ground arith))
]

-- No other message holds a server's id.
abbrev pub OwnedBy : ℕ → ℕ → List Message → Type 0
OwnedBy server_id id = All (λ m. has_server_id server_id m ≡ true → m.id ≡ id)

-- What an acknowledgement leaves: the message sent, with the server's id and the sequence number, no other
-- message with that id, no row of the message in the outbox, and the rows of every other message as before.
abbrev pub IsDelivered : ℕ → ℕ → ℕ → ℤ → Tables → Message → Tables → Type 0
IsDelivered id server_id seq now_ms t m after =
    (find_message id after.messages ≡ some (sent server_id seq now_ms m))
    × OwnedBy server_id id after.messages
    × (count_rows id after.outbox ≡ 0)
    × ((other : ℕ) → other ≢ id → count_rows other after.outbox ≡ count_rows other t.outbox)

-- A rejection gives a message that the tables hold the status and takes its row away at once; every
-- other message has its rows as before.
pub outbox_reject-settles :
    (id status : ℕ) (now_ms : ℤ) (t : Tables) (m : Message)
    → find_message id t.messages ≡ some m
    → let after = outbox_reject id status now_ms t in
      (find_message id after.messages ≡ some (record m { status = status; updated_at = now_ms }))
      × (count_rows id after.outbox ≡ 0)
      × ((other : ℕ) → other ≢ id → count_rows other after.outbox ≡ count_rows other t.outbox)
unfolding outbox_reject
outbox_reject-settles id status now_ms t m found =
    let (gone, others) = delete_rows-count id t.outbox in
    (find-update_message id _ t.messages m (λ x. refl) found, gone, others)
