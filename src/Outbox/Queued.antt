-- ===== src/Outbox/Queued.antt =====
-- What `outbox_enqueue` of crates/privchat-sdk/src/local_store.rs puts in the outbox, and that `outbox_peek`
-- finds it there.
use privchat_sdk.Base.{
  Bool-cases, if_elim, length, length-append, keep_if, length-keep_if, ℕ, zero, suc, ◌+◌, ◌≤◌, ◌<◌,
  ◌≡◌, refl, ap, ◌∙◌, ◌⊎◌, inl, inr, Bool, true, false, Option, some, List, [], ◌∷◌, ◌++◌, arith,
}
use privchat_sdk.Base.Int.{ℤ, pos, negsuc, pos_part, ◌≤ℤ◌, ◌<ℤ◌, leb_ℤ}
use privchat_sdk.Base.Text.{Text, text_eq, text_eq_refl}
use privchat_sdk.Outbox.{
  Failure, missing_local_message_id, Message, OutboxRow, Tables, find_message, update_message,
  has_command, has_row, upsert, command_id_of, identity, enqueue_with, new_row, outbox_enqueue,
  comes_first, insert_row, sort_rows, limit_to, is_due, outbox_peek,
}
use privchat_sdk.Outbox.Rows.{count_rows, count_rows-append, has_row-count, count_row-one}
use privchat_sdk.Outbox.Delivery.{find-update_message}

-- A row is one of a list.
abbrev pub Among : OutboxRow → List OutboxRow → Type 0
Among r [] = ⊥
Among r (q ∷ qs) = (q ≡ r) ⊎ Among r qs

keep_if-Among :
    (p : OutboxRow → Bool) (r : OutboxRow) (rs : List OutboxRow)
    → p r ≡ true
    → Among r (keep_if p (rs ++ (r ∷ [])))
unfolding keep_if
keep_if-Among p r [] h = rw h (inl refl)
keep_if-Among p r (q ∷ rs) h = elim (Bool-cases (p q)) [
  | inl e ↦ rw e (inr (keep_if-Among p r rs h))
  | inr e ↦ rw e (keep_if-Among p r rs h)
]

insert_row-Among : (r : OutboxRow) (rs : List OutboxRow) → Among r (insert_row r rs)
unfolding insert_row
insert_row-Among r [] = inl refl
insert_row-Among r (q ∷ qs) =
    if_elim (Among r) (comes_first r q) (λ first. inl refl) (λ later. inr (insert_row-Among r qs))

insert_row-kept : (q r : OutboxRow) (rs : List OutboxRow) → Among r rs → Among r (insert_row q rs)
unfolding insert_row
insert_row-kept q r [] h = absurd h
insert_row-kept q r (x ∷ rs) (inl same) =
    if_elim (Among r) (comes_first q x) (λ first. inr (inl same)) (λ later. inl same)
insert_row-kept q r (x ∷ rs) (inr h) =
    if_elim (Among r) (comes_first q x) (λ first. inr (inr h))
      (λ later. inr (insert_row-kept q r rs h))

sort_rows-Among : (r : OutboxRow) (rs : List OutboxRow) → Among r rs → Among r (sort_rows rs)
unfolding sort_rows
sort_rows-Among r [] h = absurd h
sort_rows-Among r (q ∷ rs) (inl same) = rw same (insert_row-Among r (sort_rows rs))
sort_rows-Among r (q ∷ rs) (inr h) = insert_row-kept q r (sort_rows rs) (sort_rows-Among r rs h)

length-insert_row : (q : OutboxRow) (rs : List OutboxRow) → length (insert_row q rs) ≡ length rs + 1
unfolding insert_row
length-insert_row q [] = refl
length-insert_row q (x ∷ rs) = ground (arith, length-insert_row q rs)

length-sort_rows : (rs : List OutboxRow) → length (sort_rows rs) ≡ length rs
unfolding sort_rows
length-sort_rows [] = refl
length-sort_rows (q ∷ rs) = omega (arith, length-insert_row q (sort_rows rs), length-sort_rows rs)

limit_to-all : (n : ℕ) (rs : List OutboxRow) → length rs ≤ n → limit_to n rs ≡ rs
unfolding limit_to
limit_to-all zero [] h = refl
limit_to-all zero (r ∷ rs) h = absurd (omega arith)
limit_to-all (suc n) [] h = refl
limit_to-all (suc n) (r ∷ rs) h = ap (λ qs. r ∷ qs) (limit_to-all n rs (omega arith))

-- A row that is due is peeked at, where the limit leaves room for every row.
peek-Among :
    (kind : Text) (limit : ℕ) (later : ℤ) (t : Tables) (r : OutboxRow) (rs : List OutboxRow)
    → t.outbox ≡ rs ++ (r ∷ [])
    → length rs < limit
    → is_due kind later r ≡ true
    → Among r (outbox_peek kind limit later t)
unfolding outbox_peek
peek-Among kind limit later t r rs e room due =
    let kept = keep_if (is_due kind later) (rs ++ (r ∷ [])) in
    let fits : length (sort_rows kept) ≤ limit = omega (
      arith,
      length-sort_rows kept,
      length-keep_if (is_due kind later) (rs ++ (r ∷ [])),
      length-append rs (r ∷ []),
      room,
    ) in
    rw (e, limit_to-all limit (sort_rows kept) fits)
      (sort_rows-Among r kept (keep_if-Among (is_due kind later) r rs due))

abbrev pub queued : ℤ → Message → Message
queued now_ms m = record m { status = 1; updated_at = now_ms }

-- A row that carries a message as it was handed over, and was not tried yet.
abbrev pub Carries : ℕ → Text → ℕ → List ℕ → Option Text → OutboxRow → Type 0
Carries id kind channel payload route r =
    (r.message_id ≡ some id)
    × (r.command_type ≡ kind)
    × (r.channel_id ≡ channel)
    × (r.payload ≡ payload)
    × (r.route_key ≡ route)
    × (r.retry_count ≡ 0)

module _ (id : ℕ) (kind : Text) (channel : ℕ) (payload : List ℕ) (route : Option Text)
    (now_ms later : ℤ) (limit : ℕ) (t : Tables) (m : Message) where
  -- A refusal of a message without a positive identity; or its queueing, after which the message is sending
  -- and has one row, and a look at the outbox from a later time on finds a row that carries it.
  abbrev pub Enqueued : ℤ → Tables ⊎ Failure → Type 0
  Enqueued identity answer =
      ((identity ≤ℤ pos 0) × (answer ≡ inr (missing_local_message_id id)))
      ⊎ ((pos 0 <ℤ identity)
          × ((after : Tables) × (answer ≡ inl after)
              × (find_message id after.messages ≡ some (queued now_ms m))
              × (count_rows id after.outbox ≡ 1)
              × ((r : OutboxRow) × Carries id kind channel payload route r
                  × Among r (outbox_peek kind limit later after))))

  enqueue_with-Enqueued :
      (identity : ℤ)
      → find_message id t.messages ≡ some m
      → has_row id t.outbox ≡ false
      → has_command (command_id_of (pos_part identity)) t.outbox ≡ false
      → pos 0 ≤ℤ later
      → length t.outbox < limit
      → Enqueued identity
          (enqueue_with identity id (new_row id kind channel payload route now_ms t) now_ms t)
  unfolding enqueue_with upsert text_eq
  enqueue_with-Enqueued (negsuc n) found free fresh due room = inl (omega arith, refl)
  enqueue_with-Enqueued (pos zero) found free fresh due room = inl (omega arith, refl)
  enqueue_with-Enqueued (pos (suc n)) found free fresh due room =
      let new = new_row id kind channel payload route now_ms t (suc n) in
      let after = record t {
        messages = update_message id (queued now_ms) t.messages;
        outbox = t.outbox ++ (new ∷ []);
        next_row_id = t.next_row_id + 1;
      } in
      let is_kind : text_eq kind kind ≡ true = text_eq_refl kind in
      let in_time : leb_ℤ (pos 0) later ≡ true = ground arith in
      inr (
        omega arith,
        (
          after,
          rw (fresh, free) refl,
          find-update_message id (queued now_ms) t.messages m (λ x. refl) found,
          count_rows-append id t.outbox (new ∷ [])
              ∙ rw (has_row-count id t.outbox free) (count_row-one id new refl),
          (
            new,
            (refl, refl, refl, refl, refl, refl),
            peek-Among kind limit later after new t.outbox refl room (rw (is_kind, in_time) refl),
          ),
        ),
      )

  -- A message that the tables hold, of which the outbox holds neither a row nor the command, is refused
  -- where its identity is not positive, and else queued: it is sending and has exactly one row, and a
  -- look at the outbox for its kind, at any time from 0 on, with a limit above the rows that were there,
  -- finds a row with its id, channel, payload and route, and no retry.
  pub outbox_enqueue-queues :
      find_message id t.messages ≡ some m
      → has_row id t.outbox ≡ false
      → has_command (command_id_of (pos_part m.local_message_id)) t.outbox ≡ false
      → pos 0 ≤ℤ later
      → length t.outbox < limit
      → Enqueued m.local_message_id (outbox_enqueue id kind channel payload route now_ms t)
  unfolding outbox_enqueue identity
  outbox_enqueue-queues found free fresh due room =
      rw (ap identity found) (enqueue_with-Enqueued m.local_message_id found free fresh due room)
