-- ===== src/Upload/Gaps/Coverage.antt =====
-- `gaps_from_confirmed` of crates/privchat-sdk/src/resumable_upload.rs finds what is missing, byte by
-- byte.
use privchat_sdk.Base.{
  ltb, leb, ltb→lt, leb→le, Bool-cases, All, ℕ, suc, ◌+◌, ◌-◌, ◌≤◌, ◌<◌, max, ◌≡◌, refl, ap, ◌∙◌,
  inl, inr, Bool, false, not, ◌&&◌, ◌||◌, List, [], ◌∷◌, arith,
}
use privchat_sdk.Base.Word.{u64_mod, u64_add}
use privchat_sdk.Upload.Gaps.{Gap, Range, insert_range, sort_ranges, gaps_from, gaps_from_confirmed}

-- Whether a byte lies in a range, or in one of them.
abbrev pub in_range : ℕ → ℕ → ℕ → Bool
in_range offset len x = leb offset x && ltb x (offset + len)

pub confirms : List Range → ℕ → Bool
confirms [] x = false
confirms ((off, len) ∷ ranges) x = in_range off len x || confirms ranges x

unfoldable pub covers : List Gap → ℕ → Bool
covers [] x = false
covers (g ∷ gaps) x = in_range g.offset g.len x || covers gaps x

-- The end of every range is a `u64`.
abbrev pub Fits : List Range → Type 0
Fits = All (λ (r : Range). r.0 + r.1 < u64_mod)

abbrev SortedFrom : ℕ → List Range → Type 0
SortedFrom low [] = Unit {0}
SortedFrom low ((off, len) ∷ ranges) = (low ≤ off) × SortedFrom off ranges

SortedFrom-mono :
    (low high : ℕ) (rs : List Range) → low ≤ high → SortedFrom high rs → SortedFrom low rs
SortedFrom-mono low high [] h s = tt
SortedFrom-mono low high ((off, len) ∷ rs) h s = (omega arith, s.1)

insert_range-SortedFrom :
    (low off len : ℕ) (rs : List Range)
    → low ≤ off
    → SortedFrom low rs
    → SortedFrom low (insert_range (off, len) rs)
unfolding insert_range
insert_range-SortedFrom low off len [] h s = (h, tt)
insert_range-SortedFrom low off len ((q, l) ∷ rs) h s = elim (Bool-cases (leb off q)) [
  | inl e ↦ rw e (h, (leb→le off q e, s.1))
  | inr e ↦ rw e (s.0, insert_range-SortedFrom q off len rs (ground arith) s.1)
]

sort_ranges-SortedFrom : (rs : List Range) → SortedFrom 0 (sort_ranges rs)
unfolding sort_ranges
sort_ranges-SortedFrom [] = tt
sort_ranges-SortedFrom ((off, len) ∷ rs) =
    insert_range-SortedFrom 0 off len (sort_ranges rs) (omega arith) (sort_ranges-SortedFrom rs)

insert_range-confirms :
    (off len : ℕ) (rs : List Range) (x : ℕ)
    → confirms (insert_range (off, len) rs) x ≡ confirms ((off, len) ∷ rs) x
unfolding insert_range confirms
insert_range-confirms off len [] x = refl
insert_range-confirms off len ((q, l) ∷ rs) x = ground (arith, insert_range-confirms off len rs x)

sort_ranges-confirms : (rs : List Range) (x : ℕ) → confirms (sort_ranges rs) x ≡ confirms rs x
unfolding sort_ranges confirms
sort_ranges-confirms [] x = refl
sort_ranges-confirms ((off, len) ∷ rs) x =
    insert_range-confirms off len (sort_ranges rs) x
    ∙ ap (λ b. in_range off len x || b) (sort_ranges-confirms rs x)

insert_range-Fits :
    (off len : ℕ) (rs : List Range)
    → off + len < u64_mod
    → Fits rs
    → Fits (insert_range (off, len) rs)
unfolding insert_range
insert_range-Fits off len [] h f = (h, tt)
insert_range-Fits off len ((q, l) ∷ rs) h f = elim (Bool-cases (leb off q)) [
  | inl e ↦ rw e (h, f)
  | inr e ↦ rw e (f.0, insert_range-Fits off len rs h f.1)
]

sort_ranges-Fits : (rs : List Range) → Fits rs → Fits (sort_ranges rs)
unfolding sort_ranges
sort_ranges-Fits [] f = tt
sort_ranges-Fits ((off, len) ∷ rs) f =
    insert_range-Fits off len (sort_ranges rs) f.0 (sort_ranges-Fits rs f.1)

confirms_below :
    (low : ℕ) (rs : List Range) (x : ℕ) → SortedFrom low rs → x < low → confirms rs x ≡ false
unfolding confirms
confirms_below low [] x s h = refl
confirms_below low ((off, len) ∷ rs) x s h = ground (arith, confirms_below off rs x s.1)

gaps_from-covers :
    (cursor : ℕ) (rs : List Range) (total x : ℕ)
    → SortedFrom 0 rs
    → Fits rs
    → x < total
    → covers (gaps_from cursor rs total) x ≡ (leb cursor x && not (confirms rs x))
unfolding gaps_from covers confirms
gaps_from-covers cursor [] total x s f h = ground arith
gaps_from-covers cursor ((off, len) ∷ rs) total x s f h =
    let exact : u64_add off len ≡ off + len = omega arith in
    ground (
      arith,
      exact,
      gaps_from-covers (max cursor (off + len)) rs total x
          (SortedFrom-mono 0 off rs (omega arith) s.1) f.1 h,
      confirms_below off rs x s.1,
    )

-- A byte of the file lies in a gap exactly if no confirmed range holds it, in whatever order the
-- ranges come and however they overlap, as long as their ends are 64-bit numbers.
pub gaps_exact :
    (confirmed : List Range) (total x : ℕ)
    → Fits confirmed
    → x < total
    → covers (gaps_from_confirmed confirmed total) x ≡ not (confirms confirmed x)
unfolding gaps_from_confirmed
gaps_exact confirmed total x f h =
    gaps_from-covers 0 (sort_ranges confirmed) total x (sort_ranges-SortedFrom confirmed)
      (sort_ranges-Fits confirmed f) h
    ∙ rw (sort_ranges-confirms confirmed x) (ground arith)

-- Gaps in order, apart from one another, none empty, and all within the file.
abbrev pub Tidy : ℕ → ℕ → List Gap → Type 0
Tidy low total [] = Unit {0}
Tidy low total (g ∷ gaps) =
    (low ≤ g.offset)
    × (0 < g.len)
    × (g.offset + g.len ≤ total)
    × Tidy (suc (g.offset + g.len)) total gaps

pub Tidy-mono :
    (low high total : ℕ) (gaps : List Gap) → low ≤ high → Tidy high total gaps → Tidy low total gaps
Tidy-mono low high total [] h t = tt
Tidy-mono low high total (g ∷ gaps) h (a, b, c, rest) = (omega arith, b, c, rest)

-- Every range is a non-empty part of the file.
abbrev pub Inside : ℕ → List Range → Type 0
Inside total = All (λ (r : Range). (0 < r.1) × (r.0 + r.1 ≤ total))

insert_range-Inside :
    (total off len : ℕ) (rs : List Range)
    → (0 < len) × (off + len ≤ total)
    → Inside total rs
    → Inside total (insert_range (off, len) rs)
unfolding insert_range
insert_range-Inside total off len [] h f = (h, tt)
insert_range-Inside total off len ((q, l) ∷ rs) h f = elim (Bool-cases (leb off q)) [
  | inl e ↦ rw e (h, f)
  | inr e ↦ rw e (f.0, insert_range-Inside total off len rs h f.1)
]

sort_ranges-Inside : (total : ℕ) (rs : List Range) → Inside total rs → Inside total (sort_ranges rs)
unfolding sort_ranges
sort_ranges-Inside total [] f = tt
sort_ranges-Inside total ((off, len) ∷ rs) f =
    insert_range-Inside total off len (sort_ranges rs) f.0 (sort_ranges-Inside total rs f.1)

gaps_from-Tidy :
    (cursor : ℕ) (rs : List Range) (total : ℕ)
    → total < u64_mod
    → Inside total rs
    → Tidy cursor total (gaps_from cursor rs total)
unfolding gaps_from
gaps_from-Tidy cursor [] total small f = elim (Bool-cases (ltb cursor total)) [
  | inl e ↦ rw e (omega arith, ground arith, ground arith, tt)
  | inr e ↦ rw e tt
]
gaps_from-Tidy cursor ((off, len) ∷ rs) total small ((nonempty, ends), inside) =
    let exact : u64_add off len ≡ off + len = omega arith in
    let after = max cursor (u64_add off len) in
    let rest = gaps_from-Tidy after rs total small inside in
    elim (Bool-cases (ltb cursor off)) [
      | inl e ↦
          let before = ltb→lt cursor off e in
          rw e (
            omega arith,
            omega arith,
            omega arith,
            Tidy-mono (suc (cursor + (off - cursor))) after total _ (omega arith) rest,
          )
      | inr e ↦ rw e (Tidy-mono cursor after total _ (omega arith) rest)
    ]

-- If the confirmed ranges are non-empty parts of a file below 2 ^ 64 bytes, the gaps come in order,
-- with a confirmed byte between any two, none is empty and none leaves the file.
pub gaps-Tidy :
    (confirmed : List Range) (total : ℕ)
    → total < u64_mod
    → Inside total confirmed
    → Tidy 0 total (gaps_from_confirmed confirmed total)
unfolding gaps_from_confirmed
gaps-Tidy confirmed total small f =
    gaps_from-Tidy 0 (sort_ranges confirmed) total small (sort_ranges-Inside total confirmed f)
