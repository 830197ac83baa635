-- ===== src/Outbox.antt =====
-- The outbox of crates/privchat-sdk/src/local_store.rs: the two tables that its transactions touch, and each
-- transaction as a function that returns the new tables or fails and leaves the old ones. A statement of
-- SQL is a function on the rows; `message_id` is unique in `outbox`, as is `command_id`, and a positive
-- `server_message_id` in `message` (crates/privchat-sdk/migrations). Ids are the unsigned numbers of the
-- callers, which the cast to `i64` keeps apart. Texts of database errors are not modelled.
pub mod Delivery
pub mod Queued
pub mod Rows
use privchat_sdk.Base.{
  ltb, leb, ◌==◌, if◌then◌else◌, keep_if, ℕ, zero, suc, ◌+◌, ◌^◌, ◌⊎◌, inl, inr, Bool, true, false,
  not, ◌&&◌, ◌||◌, Option, none, some, List, [], ◌∷◌, ◌++◌, map,
}
use privchat_sdk.Base.Int.{ℤ, pos, negsuc, ltb_ℤ, leb_ℤ}
use privchat_sdk.Base.Text.{Text, text_eq, decimal}

pub record Message : Type 0 where
  pub id : ℕ
  pub local_message_id : ℤ  -- i64
  pub server_message_id : Option ℕ
  pub status : ℕ
  pub pts : ℕ
  pub order_seq : ℕ
  pub updated_at : ℤ

pub record OutboxRow : Type 0 where
  pub row_id : ℕ
  pub command_id : Text
  pub command_type : Text
  pub message_id : Option ℕ
  pub channel_id : ℕ
  pub payload : List ℕ
  pub route_key : Option Text
  pub status : Text
  pub retry_count : ℕ
  pub next_attempt_at : ℤ
  pub last_error : Option Text
  pub created_at : ℤ
  pub updated_at : ℤ

pub record Tables : Type 0 where
  pub messages : List Message
  pub outbox : List OutboxRow
  pub next_row_id : ℕ  -- AUTOINCREMENT

pub data Failure : Type 0 where
  not_found : ℕ → Failure
  missing_local_message_id : ℕ → Failure
  constraint_violated : Failure

abbrev pending : Text
pending = b'p' ∷ b'e' ∷ b'n' ∷ b'd' ∷ b'i' ∷ b'n' ∷ b'g' ∷ []

abbrev pub has_server_id : ℕ → Message → Bool
has_server_id server_id m = elim (m.server_message_id) [ none ↦ false | some s ↦ s == server_id ]

abbrev pub row_of : ℕ → OutboxRow → Bool
row_of id r = elim (r.message_id) [ none ↦ false | some m ↦ m == id ]

-- `SELECT ... WHERE id = ?1`.
unfoldable pub find_message : ℕ → List Message → Option Message
find_message id [] = none
find_message id (m ∷ ms) = if m.id == id then some m else find_message id ms

-- `UPDATE message ... WHERE id = ?`, and the same of the rows of a message in the outbox.
abbrev pub update_message : ℕ → (Message → Message) → List Message → List Message
update_message id f = map (λ m. if m.id == id then f m else m)

abbrev pub update_rows : ℕ → (OutboxRow → OutboxRow) → List OutboxRow → List OutboxRow
update_rows id f = map (λ r. if row_of id r then f r else r)

-- `DELETE FROM outbox WHERE message_id = ?1`.
unfoldable pub delete_rows : ℕ → List OutboxRow → List OutboxRow
unfolding keep_if
delete_rows id = keep_if (λ r. not (row_of id r))

-- `DELETE FROM message WHERE server_message_id = ?1 AND id != ?2`.
unfoldable pub delete_duplicates : ℕ → ℕ → List Message → List Message
unfolding keep_if
delete_duplicates server_id id = keep_if (λ m. not (has_server_id server_id m && not (m.id == id)))

-- Whether the unique index would hold a server's id twice; it covers the positive `i64`.
index_violated : ℕ → ℕ → List Message → Bool
index_violated server_id id [] = false
index_violated server_id id (m ∷ ms) =
    (ltb 0 server_id && ltb server_id (2 ^ 63) && has_server_id server_id m && not (m.id == id))
    || index_violated server_id id ms

-- What an acknowledgement writes: the server's id, `status = 2`, and the sequence number twice.
abbrev pub sent : ℕ → ℕ → ℤ → Message → Message
sent server_id seq now_ms m = record m {
  server_message_id = some server_id;
  status = 2;
  updated_at = now_ms;
  pts = seq;
  order_seq = seq;
}

-- `else { return Err(...) }` where the message is missing.
known : Option Message → ℕ → Tables → Tables ⊎ Failure
known none id after = inr (not_found id)
known (some m) id after = inl after

unfoldable pub mark_message_sent : ℕ → ℕ → ℕ → ℤ → Tables → Tables ⊎ Failure
unfolding find_message delete_duplicates known
mark_message_sent id server_id seq now_ms t = known (find_message id t.messages) id (record t {
  messages =
      update_message id (sent server_id seq now_ms) (delete_duplicates server_id id t.messages);
})

-- `INSERT ... ON CONFLICT(command_id) DO UPDATE`; another row of the same message fails the insert.
unfoldable pub has_command : Text → List OutboxRow → Bool
has_command command_id [] = false
has_command command_id (r ∷ rs) = text_eq r.command_id command_id || has_command command_id rs

unfoldable pub has_row : ℕ → List OutboxRow → Bool
has_row id [] = false
has_row id (r ∷ rs) = row_of id r || has_row id rs

abbrev pub refresh : OutboxRow → OutboxRow → OutboxRow
refresh new r =
    if text_eq r.command_id new.command_id
    then record r {
      payload = new.payload;
      route_key = new.route_key;
      status = pending;
      next_attempt_at = pos 0;
      updated_at = new.updated_at;
    }
    else r

upsert : ℕ → OutboxRow → Tables → Tables ⊎ Failure
unfolding has_command has_row
upsert id new t =
    if has_command new.command_id t.outbox
    then inl (record t { outbox = map (refresh new) t.outbox })
    else if has_row id t.outbox
    then inr constraint_violated
    else inl (record t { outbox = t.outbox ++ (new ∷ []); next_row_id = t.next_row_id + 1 })

-- `format!("msg:{snowflake}")` of a positive number.
unfoldable pub command_id_of : ℕ → Text
command_id_of snowflake = b'm' ∷ b's' ∷ b'g' ∷ b':' ∷ decimal snowflake

-- The identity of a message, 0 where there is none; only a positive one will do.
identity : Option Message → ℤ
identity none = pos 0
identity (some m) = m.local_message_id

enqueue_with : ℤ → ℕ → (ℕ → OutboxRow) → ℤ → Tables → Tables ⊎ Failure
unfolding upsert
enqueue_with (negsuc n) id new now_ms t = inr (missing_local_message_id id)
enqueue_with (pos zero) id new now_ms t = inr (missing_local_message_id id)
enqueue_with (pos (suc n)) id new now_ms t = upsert id (new (suc n)) (record t {
  messages = update_message id (λ m. record m { status = 1; updated_at = now_ms }) t.messages;
})

abbrev pub new_row : ℕ → Text → ℕ → List ℕ → Option Text → ℤ → Tables → ℕ → OutboxRow
new_row id command_type channel_id payload route_key now_ms t snowflake = record {
  row_id = t.next_row_id;
  command_id = command_id_of snowflake;
  command_type = command_type;
  message_id = some id;
  channel_id = channel_id;
  payload = payload;
  route_key = route_key;
  status = pending;
  retry_count = 0;
  next_attempt_at = pos 0;
  last_error = none;
  created_at = now_ms;
  updated_at = now_ms;
}

unfoldable pub outbox_enqueue : ℕ → Text → ℕ → List ℕ → Option Text → ℤ → Tables → Tables ⊎ Failure
unfolding enqueue_with identity find_message
outbox_enqueue id command_type channel_id payload route_key now_ms t =
    enqueue_with (identity (find_message id t.messages)) id
      (new_row id command_type channel_id payload route_key now_ms t) now_ms t

unfoldable pub outbox_ack_sent : ℕ → ℕ → ℕ → ℤ → Tables → Tables ⊎ Failure
unfolding find_message delete_duplicates delete_rows known
outbox_ack_sent id server_id seq now_ms t =
    let kept = delete_duplicates server_id id t.messages in
    known (find_message id kept) id (record t {
      messages = update_message id (sent server_id seq now_ms) kept;
      outbox = delete_rows id t.outbox;
    })

abbrev pub bumped : ℤ → Text → ℤ → OutboxRow → OutboxRow
bumped next_attempt_at last_error now_ms r = record r {
  retry_count = r.retry_count + 1;
  next_attempt_at = next_attempt_at;
  last_error = some last_error;
  updated_at = now_ms;
}

unfoldable pub outbox_bump_retry : ℕ → ℤ → Text → ℤ → Tables → Tables
outbox_bump_retry id next_attempt_at last_error now_ms t = record t {
  outbox = update_rows id (bumped next_attempt_at last_error now_ms) t.outbox;
}

unfoldable pub outbox_reject : ℕ → ℕ → ℤ → Tables → Tables
unfolding delete_rows
outbox_reject id status now_ms t = record t {
  messages = update_message id (λ m. record m { status = status; updated_at = now_ms }) t.messages;
  outbox = delete_rows id t.outbox;
}

exists : Option Message → Bool
exists none = false
exists (some m) = true

-- Unlike an acknowledgement it deletes no duplicate, so the unique index may refuse it.
unfoldable pub outbox_reconcile_sent : ℕ → ℕ → ℤ → Tables → Tables ⊎ Failure
unfolding index_violated find_message delete_rows exists
outbox_reconcile_sent id server_id now_ms t =
    if exists (find_message id t.messages) && index_violated server_id id t.messages
    then inr constraint_violated
    else inl (record t {
      messages =
          update_message id
            (λ m. record m { server_message_id = some server_id; status = 2; updated_at = now_ms })
            t.messages;
      outbox = delete_rows id t.outbox;
    })

unfoldable pub outbox_drop : ℕ → Tables → Tables
unfolding delete_rows
outbox_drop id t = record t { outbox = delete_rows id t.outbox }

-- `ORDER BY created_at ASC, id ASC`.
comes_first : OutboxRow → OutboxRow → Bool
comes_first r q =
    ltb_ℤ r.created_at q.created_at || (leb_ℤ r.created_at q.created_at && leb r.row_id q.row_id)

insert_row : OutboxRow → List OutboxRow → List OutboxRow
unfolding comes_first
insert_row r [] = r ∷ []
insert_row r (q ∷ qs) = if comes_first r q then r ∷ q ∷ qs else q ∷ insert_row r qs

sort_rows : List OutboxRow → List OutboxRow
unfolding insert_row
sort_rows [] = []
sort_rows (r ∷ rs) = insert_row r (sort_rows rs)

limit_to : ℕ → List OutboxRow → List OutboxRow
limit_to zero rs = []
limit_to (suc n) [] = []
limit_to (suc n) (r ∷ rs) = r ∷ limit_to n rs

-- The rows that `outbox_peek` reads its columns of.
abbrev pub is_due : Text → ℤ → OutboxRow → Bool
is_due command_type now_ms r =
    text_eq r.command_type command_type
    && text_eq r.status pending
    && leb_ℤ r.next_attempt_at now_ms
    && (elim (r.message_id) [ none ↦ false | some m ↦ true ])

unfoldable pub outbox_peek : Text → ℕ → ℤ → Tables → List OutboxRow
unfolding sort_rows limit_to keep_if
outbox_peek command_type limit now_ms t =
    limit_to limit (sort_rows (keep_if (is_due command_type now_ms) t.outbox))
