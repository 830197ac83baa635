-- ===== src/Base/Text.antt =====
-- Text as a list of code points, and what `format!` writes of numbers and Booleans.
use privchat_sdk.Base.Tests.{if◌then◌else◌, ◌==◌, ltb, leb, Bool-cases}
use privchat_sdk.Base.Lists.{All, All-append}
use Prim.Native.Nat.{ℕ, zero, suc, ◌+◌, ◌-◌, ◌*◌, ◌/◌, ◌%◌, ◌≤◌, ◌<◌}
use mathlib.Core.Path.{◌≡◌, refl, sym, ap, ◌∙◌}
use mathlib.Core.Logic.{◌≢◌, inl, inr}
use mathlib.Core.Bool.{Bool, true, false, ◌&&◌, ◌||◌}
use mathlib.Core.List.{List, [], ◌∷◌, ◌++◌}
use native.Mathlib.Omega.{arith}

abbrev pub Text : Type 0
Text = List ℕ

-- `==` of two strings.
unfoldable pub text_eq : Text → Text → Bool
text_eq [] [] = true
text_eq [] (y ∷ ys) = false
text_eq (x ∷ xs) [] = false
text_eq (x ∷ xs) (y ∷ ys) = x == y && text_eq xs ys

pub text_eq_sound : (s t : Text) → text_eq s t ≡ true → s ≡ t
unfolding text_eq
text_eq_sound [] [] h = refl
text_eq_sound [] (y ∷ ys) h = cc
text_eq_sound (x ∷ xs) [] h = cc
text_eq_sound (x ∷ xs) (y ∷ ys) h = ground (arith, text_eq_sound xs ys)

pub text_eq_refl : (s : Text) → text_eq s s ≡ true
unfolding text_eq
text_eq_refl [] = refl
text_eq_refl (x ∷ xs) = ground (arith, text_eq_refl xs)

-- `to_ascii_lowercase` of a character.
abbrev pub to_ascii_lowercase : ℕ → ℕ
to_ascii_lowercase c = if leb 65 c && leb c 90 then c + 32 else c

pub starts_with : Text → Text → Bool
starts_with s [] = true
starts_with [] (p ∷ ps) = false
starts_with (c ∷ cs) (p ∷ ps) = c == p && starts_with cs ps

-- `contains`: whether a pattern starts somewhere in a text.
unfoldable pub contains_text : Text → Text → Bool
unfolding starts_with
contains_text [] pattern = starts_with [] pattern
contains_text (c ∷ cs) pattern = starts_with (c ∷ cs) pattern || contains_text cs pattern

-- The decimal digits of a number, most significant first, with fuel above the number.
unfoldable pub decimal_from : ℕ → ℕ → Text
decimal_from zero n = (48 + n % 10) ∷ []
decimal_from (suc fuel) n =
    let rest = decimal_from fuel (n / 10) in
    if ltb n 10 then (48 + n % 10) ∷ [] else rest ++ (48 + n % 10) ∷ []

-- `{}` of an unsigned integer.
unfoldable pub decimal : ℕ → Text
unfolding decimal_from
decimal n = decimal_from n n

-- `{}` of a Boolean.
abbrev pub bool_text : Bool → Text
bool_text true = b't' ∷ b'r' ∷ b'u' ∷ b'e' ∷ []
bool_text false = b'f' ∷ b'a' ∷ b'l' ∷ b's' ∷ b'e' ∷ []

value_from : ℕ → Text → ℕ
value_from acc [] = acc
value_from acc (c ∷ cs) = value_from (acc * 10 + (c - 48)) cs

value_from-append :
    (acc : ℕ) (s t : Text) → value_from acc (s ++ t) ≡ value_from (value_from acc s) t
unfolding value_from
value_from-append acc [] t = refl
value_from-append acc (c ∷ s) t = value_from-append (acc * 10 + (c - 48)) s t

value-decimal_from : (fuel n : ℕ) → n ≤ fuel → value_from 0 (decimal_from fuel n) ≡ n
unfolding decimal_from value_from
value-decimal_from zero n h = omega arith
value-decimal_from (suc fuel) n h =
    let rest = value-decimal_from fuel (n / 10) (omega arith) in
    ground (arith, rest, value_from-append 0 (decimal_from fuel (n / 10)) ((48 + n % 10) ∷ []))

value-decimal : (n : ℕ) → value_from 0 (decimal n) ≡ n
unfolding decimal
value-decimal n = value-decimal_from n n (omega arith)

-- Two numbers with the same digits are the same.
pub decimal-injective : (m n : ℕ) → decimal m ≡ decimal n → m ≡ n
decimal-injective m n e = sym (value-decimal m) ∙ ap (value_from 0) e ∙ value-decimal n

-- A separator that does not occur before it splits a text in one way.
abbrev pub Without : ℕ → Text → Type 0
Without sep = All (λ c. c ≢ sep)

decimal_from-Without : (sep fuel n : ℕ) → 57 < sep → Without sep (decimal_from fuel n)
unfolding decimal_from
decimal_from-Without sep zero n h = (omega arith, tt)
decimal_from-Without sep (suc fuel) n h = elim (Bool-cases (ltb n 10)) [
  | inl small ↦ rw small (omega arith, tt)
  | inr big ↦ rw big (All-append _ _ _ (decimal_from-Without sep fuel (n / 10) h) (omega arith, tt))
]

pub decimal-Without : (sep n : ℕ) → 57 < sep → Without sep (decimal n)
unfolding decimal
decimal-Without sep n h = decimal_from-Without sep n n h

pub split_unique :
    (sep : ℕ) (s t u v : Text)
    → Without sep s
    → Without sep t
    → s ++ (sep ∷ u) ≡ t ++ (sep ∷ v)
    → (s ≡ t) × (u ≡ v)
split_unique sep [] [] u v hs ht e = (refl, cc)
split_unique sep [] (y ∷ t) u v hs ht e = absurd (ht.0 (ground arith))
split_unique sep (x ∷ s) [] u v hs ht e = absurd (hs.0 (ground arith))
split_unique sep (x ∷ s) (y ∷ t) u v hs ht e =
    let (same, rest) = split_unique sep s t u v hs.1 ht.1 (ground arith) in (ground arith, rest)
