-- ===== src/Repair/Marks.antt =====
-- The marks that `execute_channel_scoped_resync` and `execute_entity_scoped_resync` of crates/privchat-sdk/src/lib.rs
-- leave in the store.
use privchat_sdk.Base.{
  keep_if, ◌&&◌, ℕ, ◌≡◌, refl, ◌⊎◌, inl, inr, Bool, true, false, ◌||◌, Option, none, some, List, [],
  ◌∷◌, arith,
}
use privchat_sdk.Base.Int.{ℤ}
use privchat_sdk.Base.Text.{Text, text_eq_refl}
use privchat_sdk.Errors.{Error}
use privchat_sdk.Repair.{
  RepairKey, channel_key, entity_key, full_rebuild_key, Event, channel_applied, entities_applied,
  Script, Resume, push, key_eq, without, after_store, put_mark, delete_mark,
  clear_resume_repair_key, after_sync, execute_channel_scoped_resync, execute_entity_scoped_resync,
}

unfoldable pub has_mark : RepairKey → List RepairKey → Bool
unfolding key_eq
has_mark k [] = false
has_mark k (m ∷ marks) = key_eq k m || has_mark k marks

abbrev pub is_error : Option Error → Bool
is_error none = false
is_error (some e) = true

key_eq_refl : (k : RepairKey) → key_eq k k ≡ true
unfolding key_eq
key_eq_refl (channel_key id kind) = ground arith
key_eq_refl (entity_key name) = text_eq_refl name
key_eq_refl full_rebuild_key = refl

has_mark-without : (k : RepairKey) (marks : List RepairKey) → has_mark k (without k marks) ≡ false
unfolding has_mark without keep_if
has_mark-without k [] = refl
has_mark-without k (m ∷ marks) = ground (arith, has_mark-without k marks)

-- Whether a synchronisation failed.
abbrev pub failed : ℕ ⊎ Error → Bool
failed (inl applied) = false
failed (inr e) = true

module _ (script : Script) where
  -- What a repair that wrote its mark ends with: an error exactly where the synchronisation or the last
  -- delete of the mark failed, and the mark exactly where the synchronisation or both deletes failed.
  abbrev Ended : RepairKey → ℕ ⊎ Error → Resume × Option Error → Type 0
  Ended k answer out =
      (is_error out.1 ≡ (failed answer || is_error (script.kv_delete k)))
      × (has_mark k out.0.marks
          ≡ (failed answer || is_error (script.kv_clear k) && is_error (script.kv_delete k)))

  -- What a repair comes to: nothing, where the store does not take its mark, or such an end.
  abbrev pub Repaired : RepairKey → ℕ ⊎ Error → Resume → Resume × Option Error → Type 0
  Repaired k answer r out =
      ((e : Error) × (script.kv_put k ≡ some e) × (out ≡ (r, some e)))
      ⊎ ((script.kv_put k ≡ none)
          × (is_error out.1 ≡ (failed answer || is_error (script.kv_delete k)))
          × (has_mark k out.0.marks
              ≡ (failed answer || is_error (script.kv_clear k) && is_error (script.kv_delete k))))

  set_mark : (k : RepairKey) (r : Resume) → has_mark k (put_mark k r).marks ≡ true
  unfolding has_mark put_mark
  set_mark k r = rw (key_eq_refl k) refl

  -- The mark after the two deletes, each of which may fail.
  deleted-Ended :
      (k : RepairKey) (event : Event) (clear last : Option Error) (r : Resume)
      → has_mark k r.marks ≡ true
      → let out =
          after_store last
            (clear_resume_repair_key clear k r)
            (λ r'. (push event (delete_mark k r'), none)) in
        (is_error out.1 ≡ is_error last)
        × (has_mark k out.0.marks ≡ (is_error clear && is_error last))
  unfolding after_store push delete_mark clear_resume_repair_key
  deleted-Ended k event none none r h = (refl, has_mark-without k (without k r.marks))
  deleted-Ended k event (some e) none r h = (refl, has_mark-without k r.marks)
  deleted-Ended k event none (some e) r h = (refl, has_mark-without k r.marks)
  deleted-Ended k event (some d) (some e) r h = (refl, h)

  synced-Ended :
      (k : RepairKey) (event : ℕ → Event) (answer : ℕ ⊎ Error) (r : Resume)
      → has_mark k r.marks ≡ true
      → Ended k answer (after_sync script k event answer r)
  unfolding after_sync
  synced-Ended k event (inl applied) r h =
      deleted-Ended k (event applied) (script.kv_clear k) (script.kv_delete k) r h
  synced-Ended k event (inr e) r h = (refl, h)

  put-Repaired :
      (k : RepairKey) (event : ℕ → Event) (answer : ℕ ⊎ Error) (r : Resume) (put : Option Error)
      → script.kv_put k ≡ put
      → Repaired k answer r
          (after_store put r (λ r'. after_sync script k event answer (put_mark k r')))
  unfolding after_store
  put-Repaired k event answer r (some e) said = inl (e, said, refl)
  put-Repaired k event answer r none said =
      let (error, mark) = synced-Ended k event answer (put_mark k r) (set_mark k r) in
      inr (said, error, mark)

  -- A scoped repair, of a channel or of an entity family, changes nothing and returns the store's error where
  -- the store does not take its mark. Else the mark is left exactly where the synchronisation failed, so that
  -- a later start finds it, or where both the delete inside the synchronisation and the one after it
  -- failed; and an error is returned exactly where the synchronisation failed or the delete after it did.
  pub scoped_resync-Marked :
      (id : ℕ) (kind : ℤ) (name : Text) (r : Resume)
      → Repaired
          (channel_key id kind)
          (script.sync_channel id kind)
          r
          (execute_channel_scoped_resync script id kind r)
        × Repaired
            (entity_key name)
            (script.resync_entities name)
            r
            (execute_entity_scoped_resync script name r)
  unfolding execute_channel_scoped_resync execute_entity_scoped_resync
  scoped_resync-Marked id kind name r =
      let ck = channel_key id kind in
      let ek = entity_key name in
      (
        put-Repaired ck (channel_applied id kind) (script.sync_channel id kind) r (script.kv_put ck)
            refl,
        put-Repaired ek (entities_applied name) (script.resync_entities name) r (script.kv_put ek)
            refl,
      )
