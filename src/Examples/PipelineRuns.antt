-- ===== src/Examples/PipelineRuns.antt =====
-- The pipeline of crates/privchat-sdk/src/receive_pipeline.rs on concrete items.
use privchat_sdk.Base.{
  ◌==◌, if◌then◌else◌, ℕ, ◌+◌, ◌≡◌, refl, true, false, Option, none, some, List, [], ◌∷◌, arith,
}
use privchat_sdk.Base.Text.{Text}
use privchat_sdk.Pipeline.{
  SyncEntityItem, SyncBatch, ReceivePipeline, or_empty, contains, new, dedupe_key, enqueue,
  drain_and_apply,
}
use privchat_sdk.Pipeline.Key.{dedupe_key-injective}
use privchat_sdk.Pipeline.Window.{new-Inv}
use privchat_sdk.Pipeline.Window.Replay.{replay_dropped}
use privchat_sdk.Pipeline.Drain.{failed_apply_loses, next, done}

abbrev item : ℕ → SyncEntityItem ℕ
item id = record { entity_id = id ∷ []; version = 7; deleted = false; payload = some id }

abbrev friend : Text
friend = b'f' ∷ []

abbrev two_items : List (SyncEntityItem ℕ)
two_items = item 49 ∷ item 50 ∷ []

abbrev empty : ReceivePipeline ℕ
empty = new 512

replay_dropped_example :
    let p' = (enqueue empty friend none two_items).0 in
    enqueue p' friend none two_items ≡ (p', record { queued_items = 0; dropped_duplicates = 2 })
unfolding new
replay_dropped_example = replay_dropped empty friend none two_items (new-Inv 512) (omega arith)

dedupe_key-injective_example :
    (friend ≡ friend)
    × (or_empty none ≡ or_empty (some []))
    × ((item 49).entity_id ≡ (item 49).entity_id)
    × ((item 49).version ≡ (item 49).version)
    × ((item 49).deleted ≡ (item 49).deleted)
unfolding dedupe_key
dedupe_key-injective_example =
    dedupe_key-injective friend friend none (some []) (item 49) (item 49) (omega arith, tt)
      (omega arith, tt) tt tt (omega arith, tt) (omega arith, tt) refl

abbrev batch : ℕ → SyncBatch ℕ
batch id = record { entity_type = friend; scope = none; items = item id ∷ [] }

abbrev queued : ReceivePipeline ℕ
queued = record {
  queue = batch 49 ∷ batch 50 ∷ batch 51 ∷ [];
  recent_keys = dedupe_key friend none (item 51) ∷ [];
  recent_key_order = dedupe_key friend none (item 51) ∷ [];
  recent_key_limit = 512;
}

-- A store that counts the batches, and one that refuses the second.
abbrev count_batch : ℕ → SyncBatch ℕ → ℕ × Option Text
count_batch n b = (n + 1, none)

abbrev refuse_second : ℕ → SyncBatch ℕ → ℕ × Option Text
refuse_second n b = if n == 1 then (n, some friend) else (n + 1, none)

failed_apply_loses_example :
    let q = (drain_and_apply refuse_second 0 queued).1 in
    (q.queue ≡ batch 50 ∷ [])
    × (q.recent_keys ≡ queued.recent_keys)
    × ((t : Text) (scope : Option Text) (i : SyncEntityItem ℕ)
        → contains queued.recent_keys (dedupe_key t scope i) ≡ true
        → enqueue q t scope (i ∷ []) ≡ (q, record { queued_items = 0; dropped_duplicates = 1 }))
failed_apply_loses_example =
    failed_apply_loses refuse_second queued (batch 49 ∷ []) 1 (batch 50) (batch 51 ∷ []) friend refl
      (next 1 (batch 49) refl (done 1)) refl
