-- ===== src/Pipeline/Window/Replay.antt =====
-- What the window of crates/privchat-sdk/src/receive_pipeline.rs promises over a stream of items: it
-- holds the last keys accepted, it drops what it holds, and a replayed batch is dropped whole.
use mathlib.Core.List.{append-nil, append_assoc}
use privchat_sdk.Base.{
  ltb, Bool-cases, length, is_empty, length-append, All, length-map, ℕ, ◌+◌, ◌≤◌, ◌<◌, ◌≡◌, refl,
  sym, ap, subst, ◌∙◌, inl, inr, true, false, ◌||◌, Option, List, [], ◌∷◌, ◌++◌, arith,
}
use privchat_sdk.Base.Text.{Text, text_eq_refl}
use privchat_sdk.Pipeline.{
  SyncEntityItem, ReceivePipeline, contains, dedupe_key, remember_key, accept, enqueue,
}
use privchat_sdk.Pipeline.Window.{
  Inv, keep_last, contains-append, remember_key-keep_last, remember_key-Inv, keys_of, accept-Inv,
  accept-count, remember_key_rest,
}

keep_last-short : (limit : ℕ) (keys : List Text) → length keys ≤ limit → keep_last limit keys ≡ keys
unfolding keep_last
keep_last-short limit [] h = refl
keep_last-short limit (k ∷ keys) h = ground arith

-- Dropping the oldest twice is dropping them once.
keep_last-append :
    (limit : ℕ) (xs ys : List Text)
    → keep_last limit (keep_last limit xs ++ ys) ≡ keep_last limit (xs ++ ys)
unfolding keep_last
keep_last-append limit [] ys = refl
keep_last-append limit (x ∷ xs) ys = elim (Bool-cases (ltb limit (length (x ∷ xs)))) [
  | inl long ↦ rw long (keep_last-append limit xs ys ∙ ground (arith, length-append xs ys))
  | inr short ↦ rw short refl
]

contains-mid : (xs ys : List Text) (key : Text) → contains (xs ++ (key ∷ ys)) key ≡ true
unfolding contains
contains-mid [] ys key = ground (arith, text_eq_refl key)
contains-mid (x ∷ xs) ys key = ground (arith, contains-mid xs ys key)

module _ {Payload : Type 0} where
  unfoldable pub keys_of_accepted :
      ReceivePipeline Payload → Text → Option Text → List (SyncEntityItem Payload) → List Text
  keys_of_accepted p t s items = keys_of t s (accept p t s items).1

  pub accept-window :
      (p : ReceivePipeline Payload) (t : Text) (s : Option Text)
      (items : List (SyncEntityItem Payload))
      → Inv p
      → (accept p t s items).0.recent_key_order
        ≡ keep_last p.recent_key_limit (p.recent_key_order ++ keys_of_accepted p t s items)
  unfolding accept keys_of_accepted
  accept-window p t s [] v =
      sym (rw (append-nil p.recent_key_order) (keep_last-short _ p.recent_key_order v.bounded))
  accept-window p t s (item ∷ items) v =
      let key = dedupe_key t s item in
      elim (Bool-cases (contains p.recent_keys key)) [
        | inl old ↦ rw (old, accept) (accept-window p t s items v)
        | inr fresh ↦
            let q = remember_key p key in
            let later = keys_of_accepted q t s items in
            let kept = remember_key-keep_last p key v fresh in
            rw (fresh, accept)
              (accept-window q t s items (remember_key-Inv p key v fresh)
                ∙ ap
                    (λ (r : ReceivePipeline Payload).
                      keep_last r.recent_key_limit (r.recent_key_order ++ later))
                    kept
                ∙ keep_last-append p.recent_key_limit (p.recent_key_order ++ key ∷ []) later
                ∙ ap (keep_last p.recent_key_limit)
                    (append_assoc p.recent_key_order (key ∷ []) later))
      ]

  -- A single item is dropped exactly if its key is in the window; then nothing changes.
  pub enqueue-one :
      (p : ReceivePipeline Payload) (t : Text) (s : Option Text) (item : SyncEntityItem Payload)
      → Inv p
      → let known = contains p.recent_key_order (dedupe_key t s item) in
        let (p', stats) = enqueue p t s (item ∷ []) in
        ((known ≡ true) → (stats.dropped_duplicates ≡ 1) × (stats.queued_items ≡ 0) × (p' ≡ p))
        × ((known ≡ false) → (stats.dropped_duplicates ≡ 0) × (stats.queued_items ≡ 1))
  unfolding enqueue
  enqueue-one p t s item v =
      rw (sym v.in_step)
        ((λ old. rw (old, accept) (refl, refl, refl)), (λ fresh. rw (fresh, accept) (refl, refl)))

  abbrev pub Held : List Text → Text → Option Text → List (SyncEntityItem Payload) → Type 0
  Held keys t s = All (λ item. contains keys (dedupe_key t s item) ≡ true)

  -- With all their keys in the window, items are dropped and nothing changes.
  accept-Held :
      (p : ReceivePipeline Payload) (t : Text) (s : Option Text)
      (items : List (SyncEntityItem Payload))
      → Held p.recent_keys t s items
      → accept p t s items ≡ (p, [], length items)
  unfolding accept
  accept-Held p t s [] h = refl
  accept-Held p t s (item ∷ items) h =
      rw (h.0, accept) (ground (arith, accept-Held p t s items h.1))

  remember_key-short :
      (p : ReceivePipeline Payload) (key : Text)
      → Inv p
      → contains p.recent_keys key ≡ false
      → length p.recent_key_order < p.recent_key_limit
      → (remember_key p key).recent_key_order ≡ p.recent_key_order ++ key ∷ []
  remember_key-short p key v fresh h =
      ap (λ (r : ReceivePipeline Payload). r.recent_key_order)
        (remember_key-keep_last p key v fresh)
      ∙ keep_last-short _ _ (omega (arith, length-append p.recent_key_order (key ∷ [])))

  keys_old :
      (p : ReceivePipeline Payload) (t : Text) (s : Option Text) (item : SyncEntityItem Payload)
      (items : List (SyncEntityItem Payload))
      → contains p.recent_keys (dedupe_key t s item) ≡ true
      → keys_of_accepted p t s (item ∷ items) ≡ keys_of_accepted p t s items
  unfolding keys_of_accepted accept
  keys_old p t s item items old = rw (old, accept) refl

  keys_fresh :
      (p : ReceivePipeline Payload) (t : Text) (s : Option Text) (item : SyncEntityItem Payload)
      (items : List (SyncEntityItem Payload))
      → contains p.recent_keys (dedupe_key t s item) ≡ false
      → keys_of_accepted p t s (item ∷ items)
        ≡ dedupe_key t s item ∷ keys_of_accepted (remember_key p (dedupe_key t s item)) t s items
  unfolding keys_of_accepted accept
  keys_fresh p t s item items fresh = rw (fresh, accept) refl

  accept_holds :
      (p : ReceivePipeline Payload) (t : Text) (s : Option Text)
      (items : List (SyncEntityItem Payload))
      → Inv p
      → length p.recent_key_order + length items ≤ p.recent_key_limit
      → Held (p.recent_key_order ++ keys_of_accepted p t s items) t s items
  accept_holds p t s [] v h = tt
  accept_holds p t s (item ∷ items) v h =
      let key = dedupe_key t s item in
      let Goal : List Text → Type 0 = λ ks. Held (p.recent_key_order ++ ks) t s (item ∷ items) in
      elim (Bool-cases (contains p.recent_keys key)) [
        | inl old ↦
            let later = keys_of_accepted p t s items in
            subst Goal (sym (keys_old p t s item items old)) (
              contains-append p.recent_key_order later key
                  ∙ ap (λ keys. contains keys key || contains later key) (sym v.in_step)
                  ∙ ap (λ b. b || contains later key) old,
              accept_holds p t s items v (omega arith),
            )
        | inr fresh ↦
            let q = remember_key p key in
            let later = keys_of_accepted q t s items in
            let order = remember_key-short p key v fresh (omega arith) in
            let room = accept_holds q t s items (remember_key-Inv p key v fresh) (
              omega (
                arith,
                ap length order,
                length-append p.recent_key_order (key ∷ []),
                (remember_key_rest p key).1,
              )) in
            subst Goal (sym (keys_fresh p t s item items fresh)) (
              contains-mid p.recent_key_order later key,
              subst (λ keys. Held keys t s items)
                  (ap (λ keys. keys ++ later) order
                    ∙ append_assoc p.recent_key_order (key ∷ []) later)
                  room,
            )
      ]

  length-keys_of_accepted :
      (p : ReceivePipeline Payload) (t : Text) (s : Option Text)
      (items : List (SyncEntityItem Payload))
      → length (keys_of_accepted p t s items) ≤ length items
  unfolding keys_of_accepted
  length-keys_of_accepted p t s items =
      omega
        (arith, length-map {0, 0} (dedupe_key t s) (accept p t s items).1, accept-count p t s items)

  enqueue_keys :
      (p : ReceivePipeline Payload) (t : Text) (s : Option Text)
      (items : List (SyncEntityItem Payload))
      → (enqueue p t s items).0.recent_keys ≡ (accept p t s items).0.recent_keys
  unfolding enqueue
  enqueue_keys p t s items = elim (Bool-cases (is_empty (accept p t s items).1)) [
    | inl e ↦ rw e refl
    | inr e ↦ rw e refl
  ]

  pub enqueue-Held :
      (p : ReceivePipeline Payload) (t : Text) (s : Option Text)
      (items : List (SyncEntityItem Payload))
      → Held p.recent_keys t s items
      → enqueue p t s items ≡ (p, record { queued_items = 0; dropped_duplicates = length items })
  unfolding enqueue
  enqueue-Held p t s items h = rw (accept-Held p t s items h) refl

  -- While a well-formed window has room for a batch, a replay of the batch right after it is dropped
  -- whole and changes nothing.
  pub replay_dropped :
      (p : ReceivePipeline Payload) (t : Text) (s : Option Text)
      (items : List (SyncEntityItem Payload))
      → Inv p
      → length p.recent_key_order + length items ≤ p.recent_key_limit
      → let p' = (enqueue p t s items).0 in
        enqueue p' t s items ≡ (p', record { queued_items = 0; dropped_duplicates = length items })
  replay_dropped p t s items v h =
      let later = keys_of_accepted p t s items in
      let kept : (accept p t s items).0.recent_key_order ≡ p.recent_key_order ++ later =
        accept-window p t s items v
        ∙ keep_last-short _ _ (
            omega (
              arith,
              length-append p.recent_key_order later,
              length-keys_of_accepted p t s items,
            )) in
      enqueue-Held (enqueue p t s items).0 t s items (
        subst (λ keys. Held keys t s items)
          (sym (enqueue_keys p t s items ∙ (accept-Inv p t s items v).in_step ∙ kept))
          (accept_holds p t s items v h))
