-- ===== src/Upload/Gaps/Pieces.antt =====
-- `split_gap` of crates/privchat-sdk/src/resumable_upload.rs cuts a gap into requests.
use native.Mathlib.Nat.{div-mul-le_self, mul-sub, mul_comm, add-mul, mul_assoc}
use native.Mathlib.Nat.{div-mul-le_self}
use privchat_sdk.Base.{
  ltb, ltb→lt, Bool-cases, head?, All, ℕ, zero, suc, ◌+◌, ◌-◌, ◌*◌, ◌/◌, ◌≤◌, ◌<◌, min, max, ◌≡◌,
  refl, sym, ap, ◌∙◌, ◌⊎◌, inl, inr, ◌&&◌, some, List, [], ◌∷◌, arith, dec_le,
}
use privchat_sdk.Base.Word.{u64_mod, u64_add}
use privchat_sdk.Upload.Gaps.{Gap, piece_len, split_from, split_gap}

-- Pieces that follow one another from an offset up to an end, none empty and none above the size.
abbrev pub Tiles : ℕ → ℕ → ℕ → List Gap → Type 0
Tiles size offset end [] = offset ≡ end
Tiles size offset end (p ∷ pieces) =
    (p.offset ≡ offset) × (0 < p.len) × (p.len ≤ size) × Tiles size (offset + p.len) end pieces

pub piece_len_range :
    (size total offset end : ℕ)
    → 0 < size
    → offset < end
    → (0 < piece_len size total offset end)
      × (piece_len size total offset end ≤ size)
      × (offset + piece_len size total offset end ≤ end)
unfolding piece_len
piece_len_range size total offset end h k =
    let len = min size (end - offset) in ground (arith, div-mul-le_self len (max size 1))

split_from-Tiles :
    (fuel size total offset end : ℕ)
    → 0 < size
    → end < u64_mod
    → offset ≤ end
    → end - offset ≤ fuel
    → Tiles size offset end (split_from fuel size total offset end)
unfolding split_from
split_from-Tiles zero size total offset end pos_size small le room = omega arith
split_from-Tiles (suc fuel) size total offset end pos_size small le room =
    elim (Bool-cases (ltb offset end)) [
      | inl e ↦
          let (some_bytes, at_most, inside) =
            piece_len_range size total offset end pos_size (ltb→lt offset end e) in
          let exact : u64_add offset (piece_len size total offset end)
              ≡ offset + piece_len size total offset end =
            omega arith in
          rw e (
            refl,
            some_bytes,
            at_most,
            rw exact (split_from-Tiles fuel size total _ end pos_size small inside (omega arith)),
          )
      | inr e ↦ rw e (ground arith)
    ]

-- For every request size but 0, a gap that ends in the 64-bit range is cut from end to end: the pieces
-- follow one another without hole or overlap, and each takes at least one byte and at most the size.
pub split_gap-Tiles :
    (gap : Gap) (size total : ℕ)
    → 0 < size
    → gap.offset + gap.len < u64_mod
    → Tiles size gap.offset (gap.offset + gap.len) (split_gap gap size total)
unfolding split_gap
split_gap-Tiles gap size total h small =
    let exact : u64_add gap.offset gap.len ≡ gap.offset + gap.len = omega arith in
    rw exact (
      split_from-Tiles gap.len size total gap.offset (gap.offset + gap.len) h small (omega arith)
        (omega arith))

abbrev pub IsMultiple : ℕ → ℕ → Type 0
IsMultiple unit x = (k : ℕ) × (x ≡ k * unit)

-- What the server accepts: a piece that starts on the grid, and holds whole units or ends the file.
abbrev pub OnGrid : ℕ → ℕ → Gap → Type 0
OnGrid unit total p =
    IsMultiple unit p.offset × (IsMultiple unit p.len ⊎ (p.offset + p.len ≡ total))

-- An end that a grid-aligned gap may have.
abbrev EndsWell : ℕ → ℕ → ℕ → Type 0
EndsWell unit total end = IsMultiple unit end ⊎ (end ≡ total)

IsMultiple-sub : (unit x y : ℕ) → IsMultiple unit x → IsMultiple unit y → IsMultiple unit (y - x)
IsMultiple-sub unit x y (k, e) (l, f) =
    (l - k, rw (e, f) (omega (arith, mul-sub unit l k, mul_comm unit (l - k))))

IsMultiple-add : (unit x y : ℕ) → IsMultiple unit x → IsMultiple unit y → IsMultiple unit (x + y)
IsMultiple-add unit x y (k, e) (l, f) = (k + l, rw (e, f) (sym (add-mul k l unit)))

piece_len-OnGrid :
    (unit size total offset end : ℕ)
    → IsMultiple unit size
    → 0 < size
    → end < u64_mod
    → offset < end
    → EndsWell unit total end
    → IsMultiple unit offset
    → IsMultiple unit (piece_len size total offset end)
      ⊎ (offset + piece_len size total offset end ≡ total)
unfolding piece_len
piece_len-OnGrid unit size total offset end (k, e) h small lt ends start =
    let len = min size (end - offset) in
    let step = max size 1 in
    let step_units : step ≡ k * unit = omega arith in
    elim (Bool-cases (ltb (u64_add offset len) total && ltb 0 (len / step * step))) [
      | inl more ↦ rw more (
          inl (
            len / step * k,
            ap (λ (n : ℕ). len / step * n) step_units ∙ sym (mul_assoc (len / step) k unit),
          ))
      | inr last ↦ rw last (whole_piece (dec_le size (end - offset)))
    ]
  where
    whole_piece :
        Dec (size ≤ end - offset)
        → IsMultiple unit (min size (end - offset)) ⊎ (offset + min size (end - offset) ≡ total)
    whole_piece (yes full) =
        let all : min size (end - offset) ≡ size = omega arith in inl (rw all (k, e))
    whole_piece (no short) =
        let all : min size (end - offset) ≡ end - offset = omega arith in
        elim ends [
          | inl m ↦ inl (rw all (IsMultiple-sub unit offset end start m))
          | inr at_end ↦ inr (omega arith)
        ]

split_from-done :
    (fuel size total offset end : ℕ) → end ≤ offset → split_from fuel size total offset end ≡ []
unfolding split_from
split_from-done zero size total offset end h = refl
split_from-done (suc fuel) size total offset end h = ground arith

split_from-OnGrid :
    (unit fuel size total offset end : ℕ)
    → IsMultiple unit size
    → 0 < size
    → end < u64_mod
    → end ≤ total
    → EndsWell unit total end
    → IsMultiple unit offset
    → All (OnGrid unit total) (split_from fuel size total offset end)
unfolding split_from
split_from-OnGrid unit zero size total offset end m h small inside ends start = tt
split_from-OnGrid unit (suc fuel) size total offset end m h small inside ends start =
    elim (Bool-cases (ltb offset end)) [
      | inl e ↦
          let lt = ltb→lt offset end e in
          let len = piece_len size total offset end in
          let (_, _, within) = piece_len_range size total offset end h lt in
          let exact : u64_add offset len ≡ offset + len = omega arith in
          let good = piece_len-OnGrid unit size total offset end m h small lt ends start in
          let tail : All (OnGrid unit total) (split_from fuel size total (offset + len) end) =
            elim good [
              | inl whole ↦
                  split_from-OnGrid unit fuel size total (offset + len) end m h small inside ends
                    (IsMultiple-add unit offset len start whole)
              | inr last ↦ rw (split_from-done fuel size total (offset + len) end (omega arith)) tt
            ] in
          rw e ((start, good), rw exact tail)
      | inr e ↦ rw e tt
    ]

-- A gap of the file that starts on the grid, and ends on it or with the file, is cut at a size of whole
-- units into pieces that the server accepts: each starts on the grid, and holds whole units or ends the
-- file.
pub split_gap-OnGrid :
    (unit : ℕ) (gap : Gap) (size total : ℕ)
    → 0 < size
    → IsMultiple unit size
    → total < u64_mod
    → gap.offset + gap.len ≤ total
    → IsMultiple unit gap.offset
    → IsMultiple unit gap.len ⊎ (gap.offset + gap.len ≡ total)
    → All (OnGrid unit total) (split_gap gap size total)
unfolding split_gap
split_gap-OnGrid unit gap size total h m small inside start ends =
    let exact : u64_add gap.offset gap.len ≡ gap.offset + gap.len = omega arith in
    let ends' : EndsWell unit total (gap.offset + gap.len) = elim ends [
      | inl whole ↦ inl (IsMultiple-add unit gap.offset gap.len start whole)
      | inr at_end ↦ inr at_end
    ] in
    rw exact (
      split_from-OnGrid unit gap.len size total gap.offset (gap.offset + gap.len) m h (omega arith)
        inside ends' start)

Tiles-le : (size offset end : ℕ) (pieces : List Gap) → Tiles size offset end pieces → offset ≤ end
Tiles-le size offset end [] t = omega arith
Tiles-le size offset end (p ∷ pieces) (_, _, _, rest) =
    omega (arith, Tiles-le size (offset + p.len) end pieces rest)

-- The first piece of a non-empty gap.
pub split_gap-head :
    (gap : Gap) (size total : ℕ)
    → 0 < size
    → 0 < gap.len
    → gap.offset + gap.len < u64_mod
    → (p : Gap) × (head? (split_gap gap size total) ≡ some p)
      × (p.offset ≡ gap.offset)
      × (0 < p.len)
      × (p.len ≤ size)
      × (p.len ≤ gap.len)
split_gap-head gap size total h some_bytes small =
    first (split_gap gap size total) (split_gap-Tiles gap size total h small)
  where
    first :
        (pieces : List Gap)
        → Tiles size gap.offset (gap.offset + gap.len) pieces
        → (p : Gap) × (head? pieces ≡ some p)
          × (p.offset ≡ gap.offset)
          × (0 < p.len)
          × (p.len ≤ size)
          × (p.len ≤ gap.len)
    first [] t = absurd (omega arith)
    first (p ∷ pieces) (at_start, positive, at_most, rest) = (
      p,
      refl,
      at_start,
      positive,
      at_most,
      omega (arith, Tiles-le size (gap.offset + p.len) (gap.offset + gap.len) pieces rest),
    )
