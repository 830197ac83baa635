-- ===== src/Examples/OutboxRuns.antt =====
-- The outbox of crates/privchat-sdk/src/local_store.rs on concrete tables.
use privchat_sdk.Base.{ℕ, refl, none, List, [], ◌∷◌, arith}
use privchat_sdk.Base.Int.{ℤ, pos}
use privchat_sdk.Base.Text.{Text}
use privchat_sdk.Outbox.{Message, Tables, find_message, has_command, has_row, outbox_enqueue}
use privchat_sdk.Outbox.Rows.{
  Operation, enqueue, count_rows, OneEach, operate_all, operate_all-OneEach,
}
use privchat_sdk.Outbox.Queued.{Enqueued, outbox_enqueue-queues}

abbrev message : ℕ → ℤ → Message
message id snowflake = record {
  id = id;
  local_message_id = snowflake;
  server_message_id = none;
  status = 0;
  pts = 0;
  order_seq = 0;
  updated_at = pos 0;
}

abbrev tables : Tables
tables = record {
  messages = message 1 (pos 77) ∷ message 2 (pos 78) ∷ [];
  outbox = [];
  next_row_id = 1;
}

abbrev send : Text
send = b's' ∷ []

abbrev twice : List Operation
twice = enqueue 1 send 4 [] none (pos 3) ∷ enqueue 1 send 4 [] none (pos 5) ∷ []

operate_all-OneEach_example : OneEach (operate_all twice tables)
unfolding count_rows
operate_all-OneEach_example = operate_all-OneEach twice tables (λ id. omega arith)

outbox_enqueue-queues_example :
    Enqueued 1 send 4
      (7 ∷ [])
      none
      (pos 3)
      (pos 9)
      5
      tables
      (message 1 (pos 77))
      (pos 77)
      (outbox_enqueue 1 send 4 (7 ∷ []) none (pos 3) tables)
unfolding find_message has_command has_row
outbox_enqueue-queues_example =
    outbox_enqueue-queues 1 send 4 (7 ∷ []) none (pos 3) (pos 9) 5 tables (message 1 (pos 77)) refl
      refl refl (omega arith) (omega arith)
