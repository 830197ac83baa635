-- ===== src/Upload/Transfer/Progress.antt =====
-- Why an upload of crates/privchat-sdk/src/resumable_upload.rs gets to its end: what it still owes and
-- what the server holds add up to the file at every step.
use privchat_sdk.Base.{
  leb, ◌==◌, leb→le, Bool-cases, sum_of, ℕ, suc, ◌+◌, ◌-◌, ◌%◌, ◌≤◌, ◌<◌, ◌≡◌, refl, subst, ◌∙◌,
  inl, inr, true, Option, none, some, List, [], ◌∷◌, map, arith,
}
use privchat_sdk.Base.Word.{u64_mod, u64_add}
use privchat_sdk.Upload.Sizer.{UploadPlan, Rates}
use privchat_sdk.Upload.Sizer.Grid.{
  IsPlan, OnPlan, new_sizer-OnPlan, on_success-OnPlan, on_failure-OnPlan,
}
use privchat_sdk.Upload.Gaps.{Gap, Range}
use privchat_sdk.Upload.Gaps.Coverage.{Tidy, Tidy-mono}
use privchat_sdk.Upload.Gaps.Pieces.{split_gap-head}
use privchat_sdk.Upload.Transfer.{
  ResumableUpload, insert_gap, sort_gaps, gap_of, outstanding, consume, from_missing, is_done,
  next_chunk, on_chunk_ok, on_chunk_failed,
}

module _ (rates : Rates) where
  -- An upload whose books are right.
  pub record IsUpload (u : ResumableUpload rates) : Type 0 where
    pub small : u.total < u64_mod
    pub tidy : Tidy 0 u.total u.gaps
    pub size : OnPlan rates u.sizer
    pub books : u.confirmed + outstanding u.gaps ≡ u.total

  -- How the request that `next_chunk` gives ends: confirmed after some nanoseconds, or failed.
  pub attempt : ResumableUpload rates → Option ℕ → ResumableUpload rates
  attempt u response = elim (next_chunk rates u) [
    | none ↦ u
    | some chunk ↦ elim response [
      | none ↦ on_chunk_failed rates u
      | some elapsed ↦ on_chunk_ok rates u chunk elapsed
    ]
  ]

  pub attempts : ResumableUpload rates → List (Option ℕ) → ResumableUpload rates
  attempts u [] = u
  attempts u (r ∷ rs) = attempts (attempt u r) rs

  unfoldable pub successes : List (Option ℕ) → ℕ
  successes [] = 0
  successes (none ∷ rs) = successes rs
  successes (some elapsed ∷ rs) = suc (successes rs)

  -- The first chunk of an upload that is not done lies at the start of its first gap.
  pub next_chunk-first :
      (u : ResumableUpload rates) (g : Gap) (rest : List Gap)
      → IsUpload u
      → u.gaps ≡ g ∷ rest
      → (c : Gap) × (next_chunk rates u ≡ some c)
        × (c.offset ≡ g.offset)
        × (0 < c.len)
        × (c.len ≤ g.len)
  unfolding next_chunk
  next_chunk-first u g rest v e =
      let (_, some_bytes, inside, _) = subst (Tidy 0 u.total) e v.tidy in
      let (c, found, start, positive, _, fits) =
        split_gap-head g u.sizer.next u.total (omega (arith, v.size.0.unit_pos, v.size.1.at_least))
          some_bytes (omega (arith, inside, v.small)) in
      rw e (c, found, start, positive, fits)

  consume-Tidy :
      (low total : ℕ) (c g : Gap) (rest : List Gap)
      → total < u64_mod
      → c.offset ≡ g.offset
      → 0 < c.len
      → c.len ≤ g.len
      → Tidy low total (g ∷ rest)
      → Tidy low total (consume c (g ∷ rest))
        × (c.len + outstanding (consume c (g ∷ rest)) ≡ outstanding (g ∷ rest))
  unfolding consume outstanding sum_of
  consume-Tidy low total c g rest small start positive fits (a, b, inside, tail) =
      let same : (c.offset == g.offset) ≡ true = ground arith in
      let exact : u64_add g.offset c.len ≡ g.offset + c.len = omega arith in
      elim (Bool-cases (leb g.len c.len)) [
        | inl all ↦
            rw (same, all)
              (
                Tidy-mono low (suc (g.offset + g.len)) total rest (omega arith) tail,
                omega (arith, leb→le g.len c.len all),
              )
        | inr part ↦
            let less : c.len < g.len = ground arith in
            let end : g.offset + c.len + (g.len - c.len) ≡ g.offset + g.len = omega arith in
            rw (same, part, exact)
              ((omega arith, omega arith, omega arith, rw end tail), omega arith)
      ]

  pub on_chunk_ok-IsUpload :
      (u : ResumableUpload rates) (g c : Gap) (rest : List Gap) (elapsed : ℕ)
      → IsUpload u
      → u.gaps ≡ g ∷ rest
      → c.offset ≡ g.offset
      → 0 < c.len
      → c.len ≤ g.len
      → IsUpload (on_chunk_ok rates u c elapsed)
        × (c.len + outstanding (on_chunk_ok rates u c elapsed).gaps ≡ outstanding u.gaps)
        × ((on_chunk_ok rates u c elapsed).total ≡ u.total)
  unfolding on_chunk_ok
  on_chunk_ok-IsUpload u g c rest elapsed v e start positive fits =
      let (tidy, sums) =
        consume-Tidy 0 u.total c g rest v.small start positive fits
          (subst (Tidy 0 u.total) e v.tidy) in
      let owed : c.len + outstanding (consume c u.gaps) ≡ outstanding u.gaps = rw e sums in
      (
        record {
          small = v.small;
          tidy = rw e tidy;
          size = on_success-OnPlan rates u.sizer (c.len % 4294967296) elapsed v.size.0;
          books = omega (arith, owed, v.books, v.small);
        },
        owed,
        refl,
      )

  pub on_chunk_failed-IsUpload :
      (u : ResumableUpload rates) → IsUpload u → IsUpload (on_chunk_failed rates u)
  unfolding on_chunk_failed
  on_chunk_failed-IsUpload u v = record {
    small = v.small;
    tidy = v.tidy;
    size = on_failure-OnPlan rates u.sizer v.size.0;
    books = v.books;
  }

  -- The attempt at the first chunk of an upload that is not done.
  attempt-IsUpload :
      (u : ResumableUpload rates) (r : Option ℕ)
      → IsUpload u
      → IsUpload (attempt u r)
        × ((attempt u r).total ≡ u.total)
        × (outstanding (attempt u r).gaps ≤ outstanding u.gaps - successes (r ∷ []))
  unfolding attempt successes next_chunk outstanding sum_of on_chunk_failed
  attempt-IsUpload u r v = at (u.gaps) refl r
    where
      at :
          (gaps : List Gap)
          → u.gaps ≡ gaps
          → (r : Option ℕ)
          → IsUpload (attempt u r)
            × ((attempt u r).total ≡ u.total)
            × (outstanding (attempt u r).gaps ≤ outstanding u.gaps - successes (r ∷ []))
      at [] e r =
          let idle : next_chunk rates u ≡ none = rw e refl in
          let nothing : outstanding u.gaps ≡ 0 = rw e refl in
          rw (attempt, idle) (v, refl, omega (arith, nothing))
      at (g ∷ rest) e none =
          let (c, found, _, _, _) = next_chunk-first u g rest v e in
          rw (attempt, found) (on_chunk_failed-IsUpload u v, refl, omega arith)
      at (g ∷ rest) e (some elapsed) =
          let (c, found, start, positive, fits) = next_chunk-first u g rest v e in
          let (good, owed, same) =
            on_chunk_ok-IsUpload u g c rest elapsed v e start positive fits in
          rw (attempt, found) (good, same, omega (arith, owed, positive))

  attempts-IsUpload :
      (u : ResumableUpload rates) (rs : List (Option ℕ))
      → IsUpload u
      → IsUpload (attempts u rs)
        × ((attempts u rs).total ≡ u.total)
        × (outstanding (attempts u rs).gaps ≤ outstanding u.gaps - successes rs)
  unfolding attempts successes
  attempts-IsUpload u [] v = (v, refl, omega arith)
  attempts-IsUpload u (r ∷ rs) v =
      let (good, same, less) = attempt-IsUpload u r v in
      let (good', same', less') = attempts-IsUpload (attempt u r) rs good in
      (good', same' ∙ same, more r _ _ _ less less')
    where
      more :
          (r : Option ℕ) (a b c : ℕ)
          → b ≤ c - successes (r ∷ [])
          → a ≤ b - successes rs
          → a ≤ c - successes (r ∷ rs)
      more none a b c h k = omega arith
      more (some elapsed) a b c h k = omega arith

  pub Tidy-outstanding :
      (low total : ℕ) (gaps : List Gap) → Tidy low total gaps → outstanding gaps ≡ 0 → gaps ≡ []
  unfolding outstanding sum_of
  Tidy-outstanding low total [] t e = refl
  Tidy-outstanding low total (g ∷ gaps) (_, some_bytes, _, _) e = absurd (omega arith)

  -- An upload whose books are right keeps them right whatever requests succeed and fail, in any order;
  -- once as many have succeeded as bytes were missing, it is done, asks for no chunk more and has
  -- confirmed the whole file.
  pub attempts-done :
      (u : ResumableUpload rates) (rs : List (Option ℕ))
      → IsUpload u
      → outstanding u.gaps ≤ successes rs
      → IsUpload (attempts u rs)
        × (is_done rates (attempts u rs) ≡ true)
        × (next_chunk rates (attempts u rs) ≡ none)
        × ((attempts u rs).confirmed ≡ u.total)
  unfolding is_done next_chunk
  attempts-done u rs v enough =
      let (good, same, less) = attempts-IsUpload u rs v in
      let owed : outstanding (attempts u rs).gaps ≡ 0 = omega arith in
      let none_left = Tidy-outstanding 0 _ _ good.tidy owed in
      (good, rw none_left refl, rw none_left refl, omega (arith, good.books, owed, same))

pub Tidy-room :
    (low total : ℕ) (gaps : List Gap) → Tidy low total gaps → outstanding gaps ≤ total - low
unfolding outstanding sum_of
Tidy-room low total [] t = omega arith
Tidy-room low total (g ∷ gaps) (a, b, c, rest) =
    omega (arith, Tidy-room (suc (g.offset + g.len)) total gaps rest)

insert_gap-Tidy :
    (low total : ℕ) (g : Gap) (gaps : List Gap)
    → Tidy low total (g ∷ gaps)
    → insert_gap g gaps ≡ g ∷ gaps
unfolding insert_gap
insert_gap-Tidy low total g [] t = refl
insert_gap-Tidy low total g (h ∷ gaps) (_, _, _, (a, _, _, _)) = ground arith

sort_gaps-Tidy : (low total : ℕ) (gaps : List Gap) → Tidy low total gaps → sort_gaps gaps ≡ gaps
unfolding sort_gaps
sort_gaps-Tidy low total [] t = refl
sort_gaps-Tidy low total (g ∷ gaps) t =
    rw (sort_gaps-Tidy (suc (g.offset + g.len)) total gaps t.3) (insert_gap-Tidy low total g gaps t)

-- If the server's missing ranges come in order, apart, non-empty and within a file below 2 ^ 64
-- bytes, an upload that starts from them under a plan whose limits hold its unit has right books,
-- and its gaps are those ranges.
pub from_missing-IsUpload :
    (rates : Rates) (total : ℕ) (plan : UploadPlan) (missing : List Range)
    → total < u64_mod
    → IsPlan plan
    → Tidy 0 total (map gap_of missing)
    → IsUpload rates (from_missing rates total plan missing)
      × ((from_missing rates total plan missing).gaps ≡ map gap_of missing)
unfolding from_missing
from_missing-IsUpload rates total plan missing small v t =
    let same = sort_gaps-Tidy 0 total (map gap_of missing) t in
    let room = Tidy-room 0 total (map gap_of missing) t in
    let sizes = new_sizer-OnPlan rates plan v in
    rw same (record { small = small; tidy = t; size = sizes; books = omega arith }, refl)
