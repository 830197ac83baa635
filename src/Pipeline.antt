-- ===== src/Pipeline.antt =====
-- crates/privchat-sdk/src/receive_pipeline.rs and sync_commit_applier.rs: entity batches deduplicated
-- over a window of recent keys, queued, and drained; and the two loops of crates/privchat-sdk/src/lib.rs
-- that apply what was drained. A `HashSet` is a list of its members, front to back as inserted.
pub mod Key
pub mod Window
pub mod Drain
use privchat_sdk.Base.{
  ltb, if◌then◌else◌, length, is_empty, ℕ, zero, suc, ◌+◌, max, ◌⊎◌, inl, inr, Bool, true, false,
  ◌||◌, Option, none, some, List, [], ◌∷◌, ◌++◌,
}
use privchat_sdk.Base.Text.{Text, text_eq, decimal, bool_text}

-- An item of the wire protocol; the pipeline never looks into the payload.
pub record SyncEntityItem (Payload : Type 0) : Type 0 where
  pub entity_id : Text
  pub version : ℕ
  pub deleted : Bool
  pub payload : Option Payload

pub record SyncBatch (Payload : Type 0) : Type 0 where
  pub entity_type : Text
  pub scope : Option Text
  pub items : List (SyncEntityItem Payload)

pub record ReceivePipelineStats : Type 0 where
  pub queued_items : ℕ
  pub dropped_duplicates : ℕ

pub record ReceivePipeline (Payload : Type 0) : Type 0 where
  pub queue : List (SyncBatch Payload)
  pub recent_keys : List Text
  pub recent_key_order : List Text
  pub recent_key_limit : ℕ

abbrev pub or_empty : Option Text → Text
or_empty none = []
or_empty (some s) = s

abbrev bar : ℕ
bar = b'|'

unfoldable pub contains : List Text → Text → Bool
contains [] key = false
contains (k ∷ keys) key = text_eq k key || contains keys key

-- `HashSet::insert`.
insert : Text → List Text → List Text
unfolding contains
insert key keys = if contains keys key then keys else keys ++ key ∷ []

-- `HashSet::remove`.
remove : Text → List Text → List Text
remove key [] = []
remove key (k ∷ keys) = if text_eq k key then keys else k ∷ remove key keys

-- `while order.len() > limit { pop_front; remove }`.
evict : ℕ → List Text → List Text → List Text × List Text
unfolding remove
evict limit keys [] = (keys, [])
evict limit keys (old ∷ order) =
    let rest = evict limit (remove old keys) order in
    if ltb limit (length (old ∷ order)) then rest else (keys, old ∷ order)

module _ {Payload : Type 0} where
  unfoldable pub new : ℕ → ReceivePipeline Payload
  new limit = record {
    queue = [];
    recent_keys = [];
    recent_key_order = [];
    recent_key_limit = max limit 512;
  }

  -- `format!("{}|{}|{}|{}|{}", …)`.
  unfoldable pub dedupe_key : Text → Option Text → SyncEntityItem Payload → Text
  dedupe_key entity_type scope item =
      entity_type
      ++ (bar
          ∷ (or_empty scope
              ++ (bar
                  ∷ (item.entity_id
                      ++ (bar ∷ (decimal item.version ++ (bar ∷ bool_text item.deleted)))))))

  unfoldable pub remember_key : ReceivePipeline Payload → Text → ReceivePipeline Payload
  unfolding insert evict
  remember_key p key =
      let (keys, order) =
        evict p.recent_key_limit (insert key p.recent_keys) (p.recent_key_order ++ key ∷ []) in
      record p { recent_keys = keys; recent_key_order = order }

  -- The loop of `enqueue`: the pipeline, the accepted items in order, the count of duplicates.
  unfoldable pub accept :
      ReceivePipeline Payload
      → Text
      → Option Text
      → List (SyncEntityItem Payload)
      → ReceivePipeline Payload × List (SyncEntityItem Payload) × ℕ
  accept p entity_type scope [] = (p, [], 0)
  accept p entity_type scope (item ∷ items) =
      let key = dedupe_key entity_type scope item in
      elim (contains p.recent_keys key) [
        | true ↦
            let (p', accepted, dropped) = accept p entity_type scope items in
            (p', accepted, dropped + 1)
        | false ↦
            let (p', accepted, dropped) = accept (remember_key p key) entity_type scope items in
            (p', item ∷ accepted, dropped)
      ]

  unfoldable pub enqueue :
      ReceivePipeline Payload
      → Text
      → Option Text
      → List (SyncEntityItem Payload)
      → ReceivePipeline Payload × ReceivePipelineStats
  unfolding accept
  enqueue p entity_type scope items =
      let (p', accepted, dropped) = accept p entity_type scope items in
      let stats : ReceivePipelineStats = record {
        queued_items = length accepted;
        dropped_duplicates = dropped;
      } in
      let batch : SyncBatch Payload = record {
        entity_type = entity_type;
        scope = scope;
        items = accepted;
      } in
      (if is_empty accepted then p' else record p' { queue = p'.queue ++ batch ∷ [] }, stats)

  pop_front : List (SyncBatch Payload) → Option (SyncBatch Payload) × List (SyncBatch Payload)
  pop_front [] = (none, [])
  pop_front (b ∷ bs) = (some b, bs)

  unfoldable pub pop_batch :
      ReceivePipeline Payload → Option (SyncBatch Payload) × ReceivePipeline Payload
  unfolding pop_front
  pop_batch p = let (b, rest) = pop_front p.queue in (b, record p { queue = rest })

  unfoldable pub requeue_front :
      ReceivePipeline Payload → SyncBatch Payload → ReceivePipeline Payload
  requeue_front p batch = record p { queue = batch ∷ p.queue }

  -- `while let Some(batch) = pipeline.pop_batch()`; the fuel is one more than the batches queued.
  drain_from : ℕ → ReceivePipeline Payload → List (SyncBatch Payload) × ReceivePipeline Payload
  unfolding pop_batch
  drain_from zero p = ([], p)
  drain_from (suc fuel) p = elim ((pop_batch p).0) [
    | none ↦ ([], (pop_batch p).1)
    | some b ↦ let (bs, p') = drain_from fuel (pop_batch p).1 in (b ∷ bs, p')
  ]

  unfoldable pub drain_batches :
      ReceivePipeline Payload → List (SyncBatch Payload) × ReceivePipeline Payload
  unfolding drain_from
  drain_batches p = drain_from (suc (length p.queue)) p

  -- The loop that applies drained batches, in `sync_entities` and `enqueue_and_apply_sync_items`.
  -- `apply` stands for `apply_sync_entities`: it moves the store on, and fails with an error or not.
  -- The first failure puts its batch back at the front and ends the loop.
  module _ {Store Failure : Type 0}
      (apply : Store → SyncBatch Payload → Store × Option Failure) where
    unfoldable pub apply_batches :
        Store
        → ReceivePipeline Payload
        → ℕ
        → List (SyncBatch Payload)
        → Store × ReceivePipeline Payload × (ℕ ⊎ Failure)
    apply_batches s p applied [] = (s, p, inl applied)
    apply_batches s p applied (batch ∷ batches) =
        let (s', failure) = apply s batch in
        elim failure [
          | none ↦ apply_batches s' p (applied + length batch.items) batches
          | some e ↦ (s', requeue_front p batch, inr e)
        ]

    unfoldable pub drain_and_apply :
        Store → ReceivePipeline Payload → Store × ReceivePipeline Payload × (ℕ ⊎ Failure)
    unfolding apply_batches drain_batches
    drain_and_apply s p = let (batches, p') = drain_batches p in apply_batches s p' 0 batches
