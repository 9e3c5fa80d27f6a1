-- ===== src/Texts.antt =====
-- Python's strings as lists of code points: literals, prefixes, searches and decimal numbers, as
-- `in`, `lstrip`, `str`, `int` and `re.search` use them. White space and digits are the ASCII ones.
pub mod Decimal
pub mod Spans
use Prim.Native.Char.{Char, code}
use Prim.Native.String.{String}
use Prim.Native.String
use virtual_phone.Prelude.{
  ℕ, zero, suc, ◌+◌, ◌-◌, ◌*◌, ◌/◌, ◌%◌, Bool, true, false, ◌&&◌, ◌||◌, not, Option, none, some,
  List, [], ◌∷◌, ◌++◌, leb, ltb, ◌==◌, if◌then◌else◌,
}
use virtual_phone.Sms.Gsm7.{Text}

-- A literal.
abbrev pub codes : String → Text
codes String.[] = []
codes (String.◌∷◌ letter rest) = code letter ∷ codes rest

abbrev pub is_digit : ℕ → Bool
is_digit c = leb b'0' c && leb c b'9'

abbrev pub is_blank : ℕ → Bool
is_blank c = (leb 9 c && leb c 13) || (leb 28 c && leb c 32)

-- What follows a prefix, if it is there.
unfoldable pub after : Text → Text → Option Text
after [] text = some text
after (p ∷ prefix) [] = none
after (p ∷ prefix) (c ∷ text) = let rest = after prefix text in if p == c then rest else none

-- The longest beginning of a text whose characters pass a test, and the rest.
unfoldable pub span : (ℕ → Bool) → Text → Text × Text
span test [] = ([], [])
span test (c ∷ text) =
    let (these, rest) = span test text in if test c then (c ∷ these, rest) else ([], c ∷ text)

-- `re.search`: the first place where a matcher succeeds.
unfoldable pub search_for {ℓ} : {A : Type ℓ} → (Text → Option A) → Text → Option A
search_for matcher [] = matcher []
search_for matcher (c ∷ text) =
    let later = search_for matcher text in
    elim (matcher (c ∷ text)) [ none ↦ later | some a ↦ some a ]

abbrev pub is_found {ℓ} : {A : Type ℓ} → Option A → Bool
is_found none = false
is_found (some _) = true

-- `needle in text`
unfoldable pub contains : Text → Text → Bool
unfolding after search_for
contains needle text = is_found (search_for (after needle) text)

-- `text.lstrip("+")`
unfoldable pub without_pluses : Text → Text
without_pluses [] = []
without_pluses (c ∷ text) = let rest = without_pluses text in if c == b'+' then rest else c ∷ text

-- `int(text)` for ASCII digits, from what the digits before stand for.
unfoldable pub number_from : ℕ → Text → ℕ
number_from high [] = high
number_from high (c ∷ text) = number_from (high * 10 + (c - b'0')) text

-- `str(n)`. A number is above its tenth, so it is fuel enough for itself.
unfoldable pub decimal_from : ℕ → ℕ → Text
decimal_from zero n = (b'0' + n % 10) ∷ []
decimal_from (suc fuel) n =
    let high = decimal_from fuel (n / 10) in
    if ltb n 10 then (b'0' + n) ∷ [] else high ++ (b'0' + n % 10) ∷ []

unfoldable pub decimal : ℕ → Text
unfolding decimal_from
decimal n = decimal_from n n

abbrev pub is_empty : Text → Bool
is_empty [] = true
is_empty (_ ∷ _) = false

-- `text.lstrip()`, `text.rstrip()` and `text.strip()`
unfoldable pub left_stripped : Text → Text
left_stripped [] = []
left_stripped (c ∷ text) = let rest = left_stripped text in if is_blank c then rest else c ∷ text

unfoldable pub right_stripped : Text → Text
right_stripped [] = []
right_stripped (c ∷ text) =
    let rest = right_stripped text in if is_blank c && is_empty rest then [] else c ∷ rest

abbrev pub stripped : Text → Text
stripped text = right_stripped (left_stripped text)
