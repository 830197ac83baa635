-- ===== src/Errors/Auth.antt =====
-- Authentication errors of crates/privchat-sdk/src/lib.rs: the code that a message starts with, and
-- whether it can be recovered from.
use privchat_sdk.Base.{
  ltb, leb, ◌==◌, if◌then◌else◌, Bool-cases, is_empty, ℕ, zero, suc, ◌+◌, ◌-◌, ◌*◌, ◌/◌, ◌%◌, ◌≤◌,
  ◌≡◌, refl, sym, ap, ◌∙◌, ◌↔◌, ◌⊎◌, inl, inr, Bool, true, false, ◌&&◌, ◌||◌, Option, none, some,
  [], ◌∷◌, ◌++◌, arith,
}
use privchat_sdk.Base.Word.{u32_max}
use privchat_sdk.Base.Text.{Text, decimal_from, decimal, Without, decimal-Without}
use privchat_sdk.Errors.{Error, auth}

pub data AuthErrorKind : Type 0 where
  transient : AuthErrorKind
  recoverable : AuthErrorKind
  terminal : AuthErrorKind

unfoldable pub classify_auth_error_code : ℕ → AuthErrorKind
classify_auth_error_code c =
    if c == 10000 || c == 10002
    then recoverable
    else if c == 10001
        || c == 10003
        || c == 10004
        || c == 10005
        || c == 10006
        || c == 10007
        || c == 10008
        || c == 10009
        || c == 10010
    then terminal
    else transient

-- `find(']')` and the text before it.
put : ℕ → Option Text → Option Text
put c none = none
put c (some s) = some (c ∷ s)

before_bracket : Text → Option Text
unfolding put
before_bracket [] = none
before_bracket (c ∷ cs) = if c == 93 then some [] else put c (before_bracket cs)

-- The digits of a `u32`; `None` for another character or a number too large.
digits_from : ℕ → Text → Option ℕ
digits_from acc [] = some acc
digits_from acc (c ∷ cs) =
    let next = acc * 10 + (c - 48) in
    if leb 48 c && leb c 57 && leb next u32_max then digits_from next cs else none

-- `parse::<u32>()`, which takes a leading `+` and refuses an empty number.
digits : Text → Option ℕ
unfolding digits_from
digits cs = if is_empty cs then none else digits_from 0 cs

parse_u32 : Text → Option ℕ
unfolding digits
parse_u32 [] = none
parse_u32 (c ∷ cs) = if c == 43 then digits cs else digits (c ∷ cs)

parse_inside : Option Text → Option ℕ
parse_inside none = none
parse_inside (some number) = parse_u32 number

unfoldable pub parse_auth_error_code : Text → Option ℕ
unfolding before_bracket parse_u32 parse_inside
parse_auth_error_code [] = none
parse_auth_error_code (c ∷ rest) = if c == 91 then parse_inside (before_bracket rest) else none

-- A message without a code counts as transient.
kind_of_code : Option ℕ → AuthErrorKind
unfolding classify_auth_error_code
kind_of_code none = transient
kind_of_code (some c) = classify_auth_error_code c

is_terminal : Option AuthErrorKind → Bool
is_terminal none = false
is_terminal (some transient) = false
is_terminal (some recoverable) = false
is_terminal (some terminal) = true

unfoldable pub auth_kind : Error → Option AuthErrorKind
unfolding parse_auth_error_code kind_of_code
auth_kind (auth message) = some (kind_of_code (parse_auth_error_code message))
auth_kind _ = none

unfoldable pub is_auth_terminal : Error → Bool
unfolding auth_kind is_terminal
is_auth_terminal e = is_terminal (auth_kind e)

unfoldable pub auth_error_code : Error → Option ℕ
unfolding parse_auth_error_code
auth_error_code (auth message) = parse_auth_error_code message
auth_error_code _ = none

before_bracket-Without : (s t : Text) → Without 93 s → before_bracket (s ++ (93 ∷ t)) ≡ some s
unfolding before_bracket put
before_bracket-Without [] t h = refl
before_bracket-Without (c ∷ s) t (other, h) = ground (arith, before_bracket-Without s t h)

-- What is read of one text and then another.
digits_from-append :
    (acc n : ℕ) (s t : Text)
    → digits_from acc s ≡ some n
    → digits_from acc (s ++ t) ≡ digits_from n t
unfolding digits_from
digits_from-append acc n [] t h = ground arith
digits_from-append acc n (c ∷ s) t h =
    ground (arith, digits_from-append (acc * 10 + (c - 48)) n s t)

digits_from-decimal_from :
    (fuel n : ℕ) → n ≤ fuel → n ≤ u32_max → digits_from 0 (decimal_from fuel n) ≡ some n
unfolding digits_from decimal_from
digits_from-decimal_from zero n h k = let e : n ≡ 0 = omega arith in rw e refl
digits_from-decimal_from (suc fuel) n h k = elim (Bool-cases (ltb n 10)) [
  | inl small ↦ rw small (ground arith)
  | inr big ↦
      let rest = digits_from-decimal_from fuel (n / 10) (omega arith) (omega arith) in
      rw (big, digits_from-append 0 (n / 10) _ ((48 + n % 10) ∷ []) rest) (ground arith)
]

decimal_from-head : (fuel n : ℕ) → (c : ℕ) × (cs : Text) × (decimal_from fuel n ≡ c ∷ cs) × (48 ≤ c)
unfolding decimal_from
decimal_from-head zero n = (_, _, refl, omega arith)
decimal_from-head (suc fuel) n = elim (Bool-cases (ltb n 10)) [
  | inl small ↦ rw small (_, _, refl, omega arith)
  | inr big ↦ let (c, cs, e, h) = decimal_from-head fuel (n / 10) in rw (big, e) (c, _, refl, h)
]

parse_u32-decimal : (n : ℕ) → n ≤ u32_max → parse_u32 (decimal n) ≡ some n
unfolding parse_u32 digits decimal
parse_u32-decimal n h =
    let (c, cs, e, low) = decimal_from-head n n in
    let value : digits_from 0 (c ∷ cs) ≡ some n =
      ap (digits_from 0) (sym e) ∙ digits_from-decimal_from n n (omega arith) h in
    rw e (ground (arith, value, low))

-- An authentication error whose message is a `u32` code in brackets and then any text has that code, and
-- its kind is the kind of the code.
pub bracketed_code :
    (c : ℕ) (message : Text)
    → c ≤ u32_max
    → let e = auth (91 ∷ decimal c ++ (93 ∷ message)) in
      (auth_error_code e ≡ some c) × (auth_kind e ≡ some (classify_auth_error_code c))
unfolding auth_error_code auth_kind parse_auth_error_code parse_inside kind_of_code
bracketed_code c message h =
    let inside = before_bracket-Without (decimal c) message (decimal-Without 93 c (omega arith)) in
    rw (inside, parse_u32-decimal c h) (refl, refl)

is_terminal-codes :
    (o : Option ℕ)
    → (is_terminal (some (kind_of_code o)) ≡ true)
      ↔ ((c : ℕ) × (o ≡ some c) × ((c ≡ 10001) ⊎ ((10003 ≤ c) × (c ≤ 10010))))
unfolding is_terminal kind_of_code classify_auth_error_code
is_terminal-codes none = (λ h. cc, λ (c, e, _). cc)
is_terminal-codes (some c) = (λ h. (c, refl, ground arith), λ (d, e, cases). ground arith)

-- An authentication error ends the session for good exactly if its message starts with a code that a
-- refresh of the token cannot cure: 10001, or one of 10003 to 10010.
pub is_auth_terminal-codes :
    (message : Text)
    → (is_auth_terminal (auth message) ≡ true) ↔ (
        (c : ℕ) × (auth_error_code (auth message) ≡ some c)
        × ((c ≡ 10001) ⊎ ((10003 ≤ c) × (c ≤ 10010))))
unfolding is_auth_terminal auth_kind auth_error_code
is_auth_terminal-codes message = is_terminal-codes (parse_auth_error_code message)
