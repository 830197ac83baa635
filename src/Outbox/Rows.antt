-- ===== src/Outbox/Rows.antt =====
-- The rows of the outbox of crates/privchat-sdk/src/local_store.rs: how many a message has, through every
-- operation.
use privchat_sdk.Base.{
  if◌then◌else◌, Bool-cases, keep_if, ℕ, zero, suc, ◌+◌, ◌≤◌, ◌≡◌, refl, ◌≢◌, ◌⊎◌, inl, inr, false,
  ◌&&◌, Option, none, some, List, [], ◌∷◌, ◌++◌, map, arith, ℕ_discrete,
}
use privchat_sdk.Base.Int.{ℤ, pos, negsuc}
use privchat_sdk.Base.Text.{Text}
use privchat_sdk.Outbox.{
  Failure, Message, OutboxRow, Tables, row_of, find_message, update_message, delete_rows,
  delete_duplicates, index_violated, known, mark_message_sent, has_command, has_row, refresh,
  upsert, enqueue_with, outbox_enqueue, outbox_ack_sent, bumped, outbox_bump_retry, outbox_reject,
  exists, outbox_reconcile_sent, outbox_drop,
}

unfoldable pub count_rows : ℕ → List OutboxRow → ℕ
count_rows id [] = 0
count_rows id (r ∷ rs) = if row_of id r then suc (count_rows id rs) else count_rows id rs

-- No message has two rows.
abbrev pub OneEach : Tables → Type 0
OneEach t = (id : ℕ) → count_rows id t.outbox ≤ 1

pub count_rows-append :
    (id : ℕ) (rs qs : List OutboxRow)
    → count_rows id (rs ++ qs) ≡ count_rows id rs + count_rows id qs
unfolding count_rows
count_rows-append id [] qs = omega arith
count_rows-append id (r ∷ rs) qs = ground (arith, count_rows-append id rs qs)

-- A change of rows that leaves each with its message.
count_rows-map :
    (id : ℕ) (f : OutboxRow → OutboxRow) (rs : List OutboxRow)
    → ((r : OutboxRow) → (f r).message_id ≡ r.message_id)
    → count_rows id (map f rs) ≡ count_rows id rs
unfolding count_rows
count_rows-map id f [] same = refl
count_rows-map id f (r ∷ rs) same = rw (same r) (ground (arith, count_rows-map id f rs same))

pub has_row-count : (id : ℕ) (rs : List OutboxRow) → has_row id rs ≡ false → count_rows id rs ≡ 0
unfolding has_row count_rows
has_row-count id [] h = refl
has_row-count id (r ∷ rs) h = ground (arith, has_row-count id rs)

pub delete_rows-count :
    (id : ℕ) (rs : List OutboxRow)
    → (count_rows id (delete_rows id rs) ≡ 0)
      × ((other : ℕ) → other ≢ id → count_rows other (delete_rows id rs) ≡ count_rows other rs)
unfolding delete_rows keep_if count_rows
delete_rows-count id [] = (refl, λ other h. refl)
delete_rows-count id (r ∷ rs) =
    let (gone, others) = delete_rows-count id rs in
    (ground (arith, gone), λ other h. ground (arith, others other h))

delete_rows-le :
    (id any : ℕ) (rs : List OutboxRow) → count_rows any (delete_rows id rs) ≤ count_rows any rs
delete_rows-le id any rs = elim (ℕ_discrete any id) [
  | yes e ↦ rw (e, (delete_rows-count id rs).0) (omega arith)
  | no n ↦ rw ((delete_rows-count id rs).1 any n) (omega arith)
]

pub count_row-one :
    (id : ℕ) (r : OutboxRow) → r.message_id ≡ some id → 0 + count_rows id (r ∷ []) ≡ 1
unfolding count_rows
count_row-one id r e = ground arith

-- An operation on the outbox, with its time.
pub data Operation : Type 0 where
  enqueue : ℕ → Text → ℕ → List ℕ → Option Text → ℤ → Operation
  ack_sent : ℕ → ℕ → ℕ → ℤ → Operation
  bump_retry : ℕ → ℤ → Text → ℤ → Operation
  reject : ℕ → ℕ → ℤ → Operation
  reconcile_sent : ℕ → ℕ → ℤ → Operation
  drop : ℕ → Operation
  mark_sent : ℕ → ℕ → ℕ → ℤ → Operation

-- A transaction that fails is rolled back.
pub settle : Tables → Tables ⊎ Failure → Tables
settle t (inl after) = after
settle t (inr e) = t

pub operate : Operation → Tables → Tables
unfolding settle
operate (enqueue id kind channel payload route now) t =
    settle t (outbox_enqueue id kind channel payload route now t)
operate (ack_sent id server_id seq now) t = settle t (outbox_ack_sent id server_id seq now t)
operate (bump_retry id next error now) t = outbox_bump_retry id next error now t
operate (reject id status now) t = outbox_reject id status now t
operate (reconcile_sent id server_id now) t = settle t (outbox_reconcile_sent id server_id now t)
operate (drop id) t = outbox_drop id t
operate (mark_sent id server_id seq now) t = settle t (mark_message_sent id server_id seq now t)

pub operate_all : List Operation → Tables → Tables
operate_all [] t = t
operate_all (o ∷ os) t = operate_all os (operate o t)

upsert-OneEach :
    (id : ℕ) (new : OutboxRow) (base t : Tables)
    → new.message_id ≡ some id
    → OneEach t
    → base.outbox ≡ t.outbox
    → OneEach (settle base (upsert id new t))
unfolding upsert settle count_rows
upsert-OneEach id new base t e one same any =
    elim (Bool-cases (has_command new.command_id t.outbox)) [
      | inl known ↦
          rw known (rw (count_rows-map any (refresh new) t.outbox (λ r. ground arith)) (one any))
      | inr fresh ↦ elim (Bool-cases (has_row id t.outbox)) [
        | inl taken ↦ rw (fresh, taken, same) (one any)
        | inr free ↦
            rw (fresh, free, count_rows-append any t.outbox (new ∷ []))
              (last any (one any) (has_row-count id t.outbox free) e)
      ]
    ]
  where
    last :
        (any : ℕ)
        → count_rows any t.outbox ≤ 1
        → count_rows id t.outbox ≡ 0
        → new.message_id ≡ some id
        → count_rows any t.outbox + count_rows any (new ∷ []) ≤ 1
    last any one none_yet e = rw e (elim (ℕ_discrete any id) [
      | yes same ↦ rw (same, none_yet) (ground arith)
      | no other ↦ ground arith
    ])

enqueue_with-OneEach :
    (snowflake : ℤ) (id : ℕ) (new : ℕ → OutboxRow) (now_ms : ℤ) (t : Tables)
    → ((n : ℕ) → (new n).message_id ≡ some id)
    → OneEach t
    → OneEach (settle t (enqueue_with snowflake id new now_ms t))
unfolding enqueue_with settle upsert
enqueue_with-OneEach (negsuc n) id new now_ms t e one = one
enqueue_with-OneEach (pos zero) id new now_ms t e one = one
enqueue_with-OneEach (pos (suc n)) id new now_ms t e one =
    let marked = update_message id (λ m. record m { status = 1; updated_at = now_ms }) t.messages in
    upsert-OneEach id (new (suc n)) t (record t { messages = marked }) (e (suc n)) one refl

known-count :
    (o : Option Message) (id any : ℕ) (t after : Tables)
    → count_rows any t.outbox ≤ 1
    → count_rows any after.outbox ≤ 1
    → count_rows any (settle t (known o id after)).outbox ≤ 1
unfolding known settle
known-count none id any t after h k = h
known-count (some m) id any t after h k = k

operate-OneEach :
    (o : Operation) (t : Tables) → OneEach t → (any : ℕ) → count_rows any (operate o t).outbox ≤ 1
unfolding operate settle outbox_enqueue outbox_ack_sent outbox_bump_retry outbox_reject
    outbox_reconcile_sent outbox_drop mark_message_sent
operate-OneEach (enqueue id kind channel payload route now) t one any =
    enqueue_with-OneEach _ id _ now t (λ n. refl) one any
operate-OneEach (ack_sent id server_id seq now) t one any =
    known-count (find_message id (delete_duplicates server_id id t.messages)) id any t _ (one any)
      (omega (arith, delete_rows-le id any t.outbox, one any))
operate-OneEach (bump_retry id next error now) t one any =
    rw
      (count_rows-map any (λ r. if row_of id r then bumped next error now r else r) t.outbox
        (λ r. ground arith))
      (one any)
operate-OneEach (reject id status now) t one any =
    omega (arith, delete_rows-le id any t.outbox, one any)
operate-OneEach (reconcile_sent id server_id now) t one any =
    elim (Bool-cases
      (exists (find_message id t.messages) && index_violated server_id id t.messages)) [
        | inl refused ↦ rw refused (one any)
        | inr fine ↦ rw fine (omega (arith, delete_rows-le id any t.outbox, one any))
      ]
operate-OneEach (drop id) t one any = omega (arith, delete_rows-le id any t.outbox, one any)
operate-OneEach (mark_sent id server_id seq now) t one any =
    known-count (find_message id t.messages) id any t _ (one any) (one any)

-- Through any sequence of operations, each with any arguments and a failed one rolled back, no message
-- ever has two rows in the outbox, if none had at the start.
pub operate_all-OneEach :
    (os : List Operation) (t : Tables) → OneEach t → OneEach (operate_all os t)
unfolding operate_all
operate_all-OneEach [] t one = one
operate_all-OneEach (o ∷ os) t one = operate_all-OneEach os (operate o t) (operate-OneEach o t one)
