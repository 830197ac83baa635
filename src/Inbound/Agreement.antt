-- ===== src/Inbound/Agreement.antt =====
-- The realtime and the sync path of crates/privchat-sdk/src/canonical_inbound.rs describe one message alike.
use privchat_sdk.Base.{
  ℕ, ◌*◌, ◌/◌, ◌≤◌, ◌≡◌, refl, sym, ap, subst, ◌∙◌, Bool, true, false, Option, arith,
}
use privchat_sdk.Base.Int.{ℤ, pos, eqb_ℤ}
use privchat_sdk.Base.Text.{Text, text_eq_refl}
use privchat_sdk.Base.Word.{u32_max}
use privchat_sdk.Inbound.{
  CanonicalInboundMessage, quotient, prefer_precise_sent_at, min_plausible_ms, normalize_sent_at_ms,
  from_sync_entity, from_push, eq_bool, semantic, agrees_with,
}

normalize_secs : (secs : ℕ) → secs ≤ u32_max → normalize_sent_at_ms (pos secs) ≡ pos (secs * 1000)
unfolding normalize_sent_at_ms
normalize_secs secs h = ground arith

normalize_late : (ms : ℕ) → min_plausible_ms ≤ ms → normalize_sent_at_ms (pos ms) ≡ pos ms
unfolding normalize_sent_at_ms
normalize_late ms h = ground arith

eqb_refl : (a : ℤ) → eqb_ℤ a a ≡ true
eqb_refl a = ground arith

-- Two positive times of one second, the one on the second.
merge_second :
    (ms : ℕ)
    → 1000 ≤ ms
    → (prefer_precise_sent_at (pos (ms / 1000 * 1000)) (pos ms) ≡ pos ms)
      × (prefer_precise_sent_at (pos ms) (pos (ms / 1000 * 1000)) ≡ pos ms)
unfolding prefer_precise_sent_at
merge_second ms h =
    let low : ms / 1000 * 1000 ≤ ms = omega arith in
    let back : ms / 1000 * 1000 / 1000 ≡ ms / 1000 = omega arith in
    (ground (arith, low, back), ground (arith, low, back))

eq_bool_refl : (b : Bool) → eq_bool b b ≡ true
eq_bool_refl true = refl
eq_bool_refl false = refl

-- Two projections that agree field by field, with times in one second.
agrees :
    {Metadata : Type 0} (metadata : Text → Option Metadata)
    (same : Option Metadata → Option Metadata → Bool) (a b : CanonicalInboundMessage)
    → same (metadata a.extra) (metadata a.extra) ≡ true
    → b ≡ record a {
      local_message_id = b.local_message_id;
      sent_at_ms = b.sent_at_ms;
      sent_at_precision = b.sent_at_precision;
    }
    → quotient a.sent_at_ms 1000 ≡ quotient b.sent_at_ms 1000
    → agrees_with metadata same (semantic metadata same a) (semantic metadata same b) ≡ true
unfolding agrees_with semantic
agrees metadata same a b eq e second =
    subst
      (λ (c : CanonicalInboundMessage).
        agrees_with metadata same (semantic metadata same a) (semantic metadata same c) ≡ true)
      (sym e)
      (ground (
        arith,
        eq,
        second,
        text_eq_refl a.content,
        eq_bool_refl a.revoked,
        eqb_refl a.channel_type,
        eqb_refl a.message_type,
        eqb_refl a.pts,
      ))

-- A push, whose time is in whole seconds of 32 bits, and a sync entity, whose time is in
-- milliseconds, late enough to be read as such, and in the same second, agree where their fields but
-- the time and the local id are the same and the metadata compares equal to itself. Merging their
-- times in either order keeps the milliseconds.
pub push_sync-agree :
    {Metadata : Type 0} (metadata : Text → Option Metadata)
    (same : Option Metadata → Option Metadata → Bool) (server_id local other_local channel : ℕ)
    (channel_type : ℤ) (from_uid : ℕ) (message_type : ℤ) (content extra : Text) (pts : ℤ)
    (secs ms : ℕ)
    → same (metadata extra) (metadata extra) ≡ true
    → secs ≤ u32_max
    → min_plausible_ms ≤ ms
    → ms / 1000 ≡ secs
    → let push =
        from_push server_id local channel channel_type from_uid message_type content extra pts
          (pos secs) in
      let sync =
        from_sync_entity server_id other_local channel channel_type from_uid message_type content
          extra pts
          (pos ms) in
      (agrees_with metadata same (semantic metadata same push) (semantic metadata same sync) ≡ true)
      × (prefer_precise_sent_at push.sent_at_ms sync.sent_at_ms ≡ pos ms)
      × (prefer_precise_sent_at sync.sent_at_ms push.sent_at_ms ≡ pos ms)
unfolding from_push from_sync_entity
push_sync-agree metadata same server_id local other_local channel channel_type from_uid message_type
      content extra pts secs ms eq fits late whole =
    let early = normalize_secs secs fits in
    let kept = normalize_late ms late in
    let second =
      ap (λ t. quotient t 1000) early
      ∙ ap pos (let n : secs * 1000 / 1000 ≡ ms / 1000 = omega arith in n)
      ∙ sym (ap (λ t. quotient t 1000) kept) in
    let (forth, back) = merge_second ms (omega arith) in
    (
      agrees metadata same _ _ eq refl second,
      rw (early, kept) (rw whole at forth),
      rw (early, kept) (rw whole at back),
    )
