-- ===== src/Pipeline/Key.antt =====
-- `dedupe_key` of crates/privchat-sdk/src/receive_pipeline.rs tells items apart.
use privchat_sdk.Base.{◌≡◌, refl, Bool, true, false, Option, arith}
use privchat_sdk.Base.Text.{
  Text, decimal, bool_text, decimal-injective, Without, decimal-Without, split_unique,
}
use privchat_sdk.Pipeline.{SyncEntityItem, or_empty, bar, dedupe_key}

bool_text-injective : (a b : Bool) → bool_text a ≡ bool_text b → a ≡ b
bool_text-injective true true e = refl
bool_text-injective true false e = ground arith
bool_text-injective false true e = ground arith
bool_text-injective false false e = refl

-- Where no entity type, scope or entity id holds a bar, two items share a key only if they agree in
-- the entity type, in the scope (with no scope read as the empty one), the id, the version and the
-- deletion mark; the payload is not compared.
pub dedupe_key-injective :
    {Payload : Type 0} (t u : Text) (s r : Option Text) (a b : SyncEntityItem Payload)
    → Without bar t
    → Without bar u
    → Without bar (or_empty s)
    → Without bar (or_empty r)
    → Without bar a.entity_id
    → Without bar b.entity_id
    → dedupe_key t s a ≡ dedupe_key u r b
    → (t ≡ u)
      × (or_empty s ≡ or_empty r)
      × (a.entity_id ≡ b.entity_id)
      × (a.version ≡ b.version)
      × (a.deleted ≡ b.deleted)
unfolding dedupe_key
dedupe_key-injective t u s r a b ht hu hs hr ha hb e =
    let (et, e1) = split_unique bar t u _ _ ht hu e in
    let (es, e2) = split_unique bar (or_empty s) (or_empty r) _ _ hs hr e1 in
    let (ei, e3) = split_unique bar a.entity_id b.entity_id _ _ ha hb e2 in
    let (ev, e4) =
      split_unique bar (decimal a.version) (decimal b.version) _ _
        (decimal-Without bar a.version (omega arith)) (decimal-Without bar b.version (omega arith))
        e3 in
    (
      et,
      es,
      ei,
      decimal-injective a.version b.version ev,
      bool_text-injective a.deleted b.deleted e4,
    )
