-- ===== src/Pipeline/Drain.antt =====
-- Draining the queue of crates/privchat-sdk/src/receive_pipeline.rs, and the two loops of
-- crates/privchat-sdk/src/lib.rs that apply the batches drained.
use privchat_sdk.Base.{
  length, ℕ, zero, suc, ◌+◌, ◌<◌, ◌≡◌, refl, ap, ◌∙◌, inl, inr, true, Option, none, some, List, [],
  ◌∷◌, ◌++◌, arith,
}
use privchat_sdk.Base.Text.{Text}
use privchat_sdk.Pipeline.{
  SyncEntityItem, SyncBatch, ReceivePipeline, contains, dedupe_key, enqueue, requeue_front,
  drain_from, drain_batches, apply_batches, drain_and_apply,
}
use privchat_sdk.Pipeline.Window.Replay.{enqueue-Held}

module _ {Payload : Type 0} where
  drain_from-queue :
      (fuel : ℕ) (queue : List (SyncBatch Payload)) (p : ReceivePipeline Payload)
      → length queue < fuel
      → p.queue ≡ queue
      → drain_from fuel p ≡ (queue, record p { queue = [] })
  unfolding drain_from
  drain_from-queue zero queue p h e = elim h [ ]
  drain_from-queue (suc fuel) [] p h e = ground arith
  drain_from-queue (suc fuel) (b ∷ queue) p h e =
      ground (arith, drain_from-queue fuel queue (record p { queue = queue }) (omega arith) refl)

  -- Draining ends, hands out all the batches in their order, and leaves an empty queue and the window.
  pub drain_batches-all :
      (p : ReceivePipeline Payload) → drain_batches p ≡ (p.queue, record p { queue = [] })
  unfolding drain_batches
  drain_batches-all p = drain_from-queue (suc (length p.queue)) p.queue p (omega arith) refl

  module _ {Store Failure : Type 0}
      (apply : Store → SyncBatch Payload → Store × Option Failure) where
    -- The batches are applied one after the other, and none fails.
    pub data Applies : Store → List (SyncBatch Payload) → Store → Type 0 where
      done : (s : Store) → Applies s [] s
      next :
          {s u : Store} {batches : List (SyncBatch Payload)} (s' : Store) (b : SyncBatch Payload)
          → apply s b ≡ (s', none)
          → Applies s' batches u
          → Applies s (b ∷ batches) u

    abbrev items_in : List (SyncBatch Payload) → ℕ
    items_in [] = 0
    items_in (b ∷ batches) = length b.items + items_in batches

    apply_batches-ok :
        (s s' : Store) (p : ReceivePipeline Payload) (applied : ℕ) (b : SyncBatch Payload)
        (batches : List (SyncBatch Payload))
        → apply s b ≡ (s', none)
        → apply_batches apply s p applied (b ∷ batches)
          ≡ apply_batches apply s' p (applied + length b.items) batches
    unfolding apply_batches
    apply_batches-ok s s' p applied b batches e = ground arith

    apply_batches-err :
        (s u : Store) (p : ReceivePipeline Payload) (applied : ℕ) (b : SyncBatch Payload)
        (batches : List (SyncBatch Payload)) (e : Failure)
        → apply s b ≡ (u, some e)
        → apply_batches apply s p applied (b ∷ batches) ≡ (u, requeue_front p b, inr e)
    unfolding apply_batches
    apply_batches-err s u p applied b batches e bad = ground arith

    apply_batches-done :
        (p : ReceivePipeline Payload) (applied : ℕ) {s u : Store}
        {batches : List (SyncBatch Payload)}
        → Applies s batches u
        → apply_batches apply s p applied batches ≡ (u, p, inl (applied + items_in batches))
    unfolding apply_batches
    apply_batches-done p applied (done s) = ground arith
    apply_batches-done p applied (next {s = s} {batches = batches} s' b e rest) =
        let total : applied + length b.items + items_in batches ≡ applied + items_in (b ∷ batches) =
          omega arith in
        apply_batches-ok s s' p applied b batches e
        ∙ rw (← total) (apply_batches-done p (applied + length b.items) rest)

    -- If every batch queued is applied, the queue is left empty, the window unchanged, and the count
    -- returned is the number of items of all the batches.
    pub drain_and_apply-done :
        (p : ReceivePipeline Payload) {s u : Store}
        → Applies s p.queue u
        → drain_and_apply apply s p ≡ (u, record p { queue = [] }, inl (items_in p.queue))
    unfolding drain_and_apply
    drain_and_apply-done p {s} steps =
        ap (λ r. apply_batches apply s r.1 0 r.0) (drain_batches-all p)
        ∙ apply_batches-done (record p { queue = [] }) 0 steps
        ∙ ground arith

    apply_batches-failed :
        (p : ReceivePipeline Payload) (applied : ℕ) {s s' : Store}
        {before : List (SyncBatch Payload)} (u : Store) (b : SyncBatch Payload)
        (behind : List (SyncBatch Payload)) (e : Failure)
        → Applies s before s'
        → apply s' b ≡ (u, some e)
        → apply_batches apply s p applied (before ++ (b ∷ behind)) ≡ (u, requeue_front p b, inr e)
    apply_batches-failed p applied u b behind e (done s) bad =
        apply_batches-err s u p applied b behind e bad
    apply_batches-failed p applied u b behind e (next {s = s} {batches = batches} s' c ok rest)
          bad =
        apply_batches-ok s s' p applied c (batches ++ (b ∷ behind)) ok
        ∙ apply_batches-failed p (applied + length c.items) u b behind e rest bad

    drain_and_apply-failed :
        (p : ReceivePipeline Payload) {s s' : Store} (before : List (SyncBatch Payload)) (u : Store)
        (b : SyncBatch Payload) (behind : List (SyncBatch Payload)) (e : Failure)
        → p.queue ≡ before ++ (b ∷ behind)
        → Applies s before s'
        → apply s' b ≡ (u, some e)
        → drain_and_apply apply s p ≡ (u, record p { queue = b ∷ [] }, inr e)
    unfolding drain_and_apply requeue_front
    drain_and_apply-failed p {s} before u b behind e split ok bad =
        ap (λ r. apply_batches apply s r.1 0 r.0) (drain_batches-all p)
        ∙ ap (apply_batches apply s (record p { queue = [] }) 0) split
        ∙ apply_batches-failed (record p { queue = [] }) 0 u b behind e ok bad

    -- If the batches before one are applied and that one fails, it alone is queued again. The batches
    -- behind it are in no queue any more, whereas the window still holds their keys: each of their
    -- items whose key it holds is dropped as a duplicate when it is sent again.
    pub failed_apply_loses :
        (p : ReceivePipeline Payload) {s s' : Store} (before : List (SyncBatch Payload)) (u : Store)
        (b : SyncBatch Payload) (behind : List (SyncBatch Payload)) (e : Failure)
        → p.queue ≡ before ++ (b ∷ behind)
        → Applies s before s'
        → apply s' b ≡ (u, some e)
        → let q = (drain_and_apply apply s p).1 in
          (q.queue ≡ b ∷ [])
          × (q.recent_keys ≡ p.recent_keys)
          × ((t : Text) (scope : Option Text) (item : SyncEntityItem Payload)
              → contains p.recent_keys (dedupe_key t scope item) ≡ true
              → enqueue q t scope (item ∷ [])
                ≡ (q, record { queued_items = 0; dropped_duplicates = 1 }))
    failed_apply_loses p before u b behind e split ok bad =
        let left = drain_and_apply-failed p before u b behind e split ok bad in
        rw left (refl, refl, λ t scope item held. enqueue-Held _ t scope (item ∷ []) (held, tt))
