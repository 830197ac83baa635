-- ===== src/Pipeline/Window.antt =====
-- The window of recent keys of crates/privchat-sdk/src/receive_pipeline.rs.
pub mod Replay
use privchat_sdk.Base.{
  ltb, if◌then◌else◌, Bool-cases, length, is_empty, is_empty-length, length_pos, ℕ, ◌+◌, ◌≤◌, ◌<◌,
  ◌≡◌, refl, ◌⊎◌, inl, inr, false, ◌||◌, Option, List, [], ◌∷◌, ◌++◌, map, arith,
}
use privchat_sdk.Base.Text.{Text, text_eq, text_eq_sound, text_eq_refl}
use privchat_sdk.Pipeline.{
  SyncEntityItem, SyncBatch, ReceivePipeline, contains, evict, new, dedupe_key, remember_key,
  accept, enqueue,
}

-- Each key once.
abbrev pub Distinct : List Text → Type 0
Distinct [] = Unit {0}
Distinct (k ∷ keys) = (contains keys k ≡ false) × Distinct keys

-- The last `limit` of a list.
unfoldable pub keep_last : ℕ → List Text → List Text
keep_last limit [] = []
keep_last limit (k ∷ keys) =
    let rest = keep_last limit keys in if ltb limit (length (k ∷ keys)) then rest else k ∷ keys

pub record Inv {Payload : Type 0} (p : ReceivePipeline Payload) : Type 0 where
  pub in_step : p.recent_keys ≡ p.recent_key_order
  pub once : Distinct p.recent_key_order
  pub bounded : length p.recent_key_order ≤ p.recent_key_limit
  pub wide : 512 ≤ p.recent_key_limit

pub new-Inv : {Payload : Type 0} (limit : ℕ) → Inv (new {Payload = Payload} limit)
unfolding new
new-Inv limit = record { in_step = refl; once = tt; bounded = omega arith; wide = omega arith }

text_eq_comm : (s t : Text) → text_eq s t ≡ text_eq t s
text_eq_comm s t = elim (Bool-cases (text_eq s t)) [
  | inl e ↦ rw (text_eq_sound s t e) refl
  | inr e ↦ elim (Bool-cases (text_eq t s)) [
    | inl f ↦ rw (text_eq_sound t s f) refl
    | inr f ↦ rw (e, f) refl
  ]
]

pub contains-append :
    (xs ys : List Text) (key : Text)
    → contains (xs ++ ys) key ≡ (contains xs key || contains ys key)
unfolding contains
contains-append [] ys key = refl
contains-append (x ∷ xs) ys key = ground (arith, contains-append xs ys key)

Distinct-snoc :
    (keys : List Text) (key : Text)
    → Distinct keys
    → contains keys key ≡ false
    → Distinct (keys ++ key ∷ [])
unfolding contains
Distinct-snoc [] key d h = (refl, tt)
Distinct-snoc (k ∷ keys) key d h = (
  ground (arith, contains-append keys (key ∷ []) k, text_eq_comm k key),
  Distinct-snoc keys key d.1 (ground arith),
)

keep_last-Distinct :
    (limit : ℕ) (keys : List Text) → Distinct keys → Distinct (keep_last limit keys)
unfolding keep_last
keep_last-Distinct limit [] d = tt
keep_last-Distinct limit (k ∷ keys) d = ground (arith, keep_last-Distinct limit keys d.1)

length-keep_last : (limit : ℕ) (keys : List Text) → length (keep_last limit keys) ≤ limit
unfolding keep_last
length-keep_last limit [] = omega arith
length-keep_last limit (k ∷ keys) = ground (arith, length-keep_last limit keys)

-- A set that holds the keys in the order of their queue is evicted in step with it.
evict-keep_last :
    (limit : ℕ) (keys : List Text)
    → evict limit keys keys ≡ (keep_last limit keys, keep_last limit keys)
unfolding evict keep_last
evict-keep_last limit [] = refl
evict-keep_last limit (k ∷ keys) = ground (arith, evict-keep_last limit keys, text_eq_refl k)

module _ {Payload : Type 0} where
  -- Remembering a new key appends it and drops the oldest beyond the limit, in the queue and the set.
  pub remember_key-keep_last :
      (p : ReceivePipeline Payload) (key : Text)
      → Inv p
      → contains p.recent_keys key ≡ false
      → let kept = keep_last p.recent_key_limit (p.recent_key_order ++ key ∷ []) in
        remember_key p key ≡ record p { recent_keys = kept; recent_key_order = kept }
  unfolding remember_key
  remember_key-keep_last p key v h =
      ground (arith, v.in_step, evict-keep_last p.recent_key_limit (p.recent_key_order ++ key ∷ []))

  pub remember_key-Inv :
      (p : ReceivePipeline Payload) (key : Text)
      → Inv p
      → contains p.recent_keys key ≡ false
      → Inv (remember_key p key)
  remember_key-Inv p key v h = rw (remember_key-keep_last p key v h) (record {
    in_step = refl;
    once = keep_last-Distinct _ _ (Distinct-snoc p.recent_key_order key v.once (rw v.in_step at h));
    bounded = length-keep_last _ _;
    wide = v.wide;
  })

  -- The keys of items of one batch.
  abbrev pub keys_of : Text → Option Text → List (SyncEntityItem Payload) → List Text
  keys_of t s = map (dedupe_key t s)

  pub accept-Inv :
      (p : ReceivePipeline Payload) (t : Text) (s : Option Text)
      (items : List (SyncEntityItem Payload))
      → Inv p
      → Inv (accept p t s items).0
  unfolding accept
  accept-Inv p t s [] v = v
  accept-Inv p t s (item ∷ items) v =
      elim (Bool-cases (contains p.recent_keys (dedupe_key t s item))) [
        | inl old ↦ rw (old, accept) (accept-Inv p t s items v)
        | inr fresh ↦
            rw (fresh, accept)
              (accept-Inv (remember_key p (dedupe_key t s item)) t s items
                (remember_key-Inv p (dedupe_key t s item) v fresh))
      ]

  accept-count :
      (p : ReceivePipeline Payload) (t : Text) (s : Option Text)
      (items : List (SyncEntityItem Payload))
      → length (accept p t s items).1 + (accept p t s items).2 ≡ length items
  unfolding accept
  accept-count p t s [] = refl
  accept-count p t s (item ∷ items) =
      let key = dedupe_key t s item in
      ground (arith, accept-count p t s items, accept-count (remember_key p key) t s items)

  remember_key_rest :
      (p : ReceivePipeline Payload) (key : Text)
      → ((remember_key p key).queue ≡ p.queue)
        × ((remember_key p key).recent_key_limit ≡ p.recent_key_limit)
  unfolding remember_key
  remember_key_rest p key = (refl, refl)

  accept_rest :
      (p : ReceivePipeline Payload) (t : Text) (s : Option Text)
      (items : List (SyncEntityItem Payload))
      → ((accept p t s items).0.queue ≡ p.queue)
        × ((accept p t s items).0.recent_key_limit ≡ p.recent_key_limit)
  unfolding accept
  accept_rest p t s [] = (refl, refl)
  accept_rest p t s (item ∷ items) =
      let key = dedupe_key t s item in
      ground (
        arith,
        accept_rest p t s items,
        accept_rest (remember_key p key) t s items,
        remember_key_rest p key,
      )

  -- `enqueue` keeps the invariant of the window, whatever the items.
  pub enqueue-Inv :
      (p : ReceivePipeline Payload) (t : Text) (s : Option Text)
      (items : List (SyncEntityItem Payload))
      → Inv p
      → Inv (enqueue p t s items).0
  unfolding enqueue
  enqueue-Inv p t s items v =
      let w = accept-Inv p t s items v in
      elim (Bool-cases (is_empty (accept p t s items).1)) [
        | inl e ↦ rw (e, enqueue) w
        | inr e ↦
            rw (e, enqueue)
              (record { in_step = w.in_step; once = w.once; bounded = w.bounded; wide = w.wide })
      ]

  -- Every item is counted once, as queued or as dropped, and the queue grows at its end by one batch
  -- of the queued items under their entity type and scope, or not at all if there are none.
  pub enqueue_accounts :
      (p : ReceivePipeline Payload) (t : Text) (s : Option Text)
      (items : List (SyncEntityItem Payload))
      → let (p', stats) = enqueue p t s items in
        (stats.queued_items + stats.dropped_duplicates ≡ length items)
        × (((stats.queued_items ≡ 0) × (p'.queue ≡ p.queue))
            ⊎ ((batch : SyncBatch Payload) × (batch.entity_type ≡ t)
                × (batch.scope ≡ s)
                × (length batch.items ≡ stats.queued_items)
                × (0 < stats.queued_items)
                × (p'.queue ≡ p.queue ++ batch ∷ [])))
  unfolding enqueue
  enqueue_accounts p t s items =
      let accepted = (accept p t s items).1 in
      let (same_queue, _) = accept_rest p t s items in
      elim (Bool-cases (is_empty accepted)) [
        | inl e ↦ (accept-count p t s items, rw e (inl (is_empty-length accepted e, same_queue)))
        | inr e ↦ (
          accept-count p t s items,
          rw e (
              inr (
                record { entity_type = t; scope = s; items = accepted },
                refl,
                refl,
                refl,
                length_pos accepted e,
                rw same_queue refl,
              )),
        )
      ]
