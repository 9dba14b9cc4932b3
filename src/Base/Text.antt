-- ===== src/Base/Text.antt =====
-- Texts by their characters, for what the source does with `chars`, `trim` and `replace`.
use Prim.Native.Char.{Char, code}
use Prim.Native.Nat.{ℕ, zero, suc, ◌/◌, ◌%◌}
use Prim.Native.String
use Prim.Native.String.{String}
use mathlib.Core.Path.{◌≡◌, sym, ap}
use mathlib.Core.Logic.{◌↔◌}
use text.Mathlib.TextEquality.{Char-path}
use mathlib.Core.Bool.{Bool, true, false, ◌&&◌, ◌||◌}
use mathlib.Core.List.{List, [], ◌∷◌, ◌++◌, reverse}
use clash_prism_engine.Base.Tests.{leb, ltb, eqb, eqb_iff, if◌then◌else◌}

abbrev pub chars : String → List Char
chars String.[] = []
chars (String.◌∷◌ c s) = c ∷ chars s

abbrev pub of_chars : List Char → String
of_chars [] = ""
of_chars (c ∷ cs) = String.◌∷◌ c (of_chars cs)

unfoldable pub is_char : ℕ → Char → Bool
is_char n c = eqb (code c) n

pub is_char_iff : (c d : Char) → (is_char (code c) d ≡ true) ↔ (c ≡ d)
unfolding is_char
is_char_iff c d = (
  λ h. sym (Char-path d c ((eqb_iff (code d) (code c)).0 h)),
  λ h. (eqb_iff (code d) (code c)).1 (ap code (sym h)),
)

-- `char::is_whitespace`.
unfoldable pub is_whitespace : Char → Bool
is_whitespace c =
    let n = code c in
    (leb 0x9 n && leb n 0xd)
    || eqb n 0x20
    || eqb n 0x85
    || eqb n 0xa0
    || eqb n 0x1680
    || (leb 0x2000 n && leb n 0x200a)
    || eqb n 0x2028
    || eqb n 0x2029
    || eqb n 0x202f
    || eqb n 0x205f
    || eqb n 0x3000

unfoldable pub drop_while : (Char → Bool) → List Char → List Char
drop_while p [] = []
drop_while p (c ∷ cs) = if p c then drop_while p cs else c ∷ cs

-- `str::trim`.
unfoldable pub trim : List Char → List Char
trim cs = reverse (drop_while is_whitespace (reverse (drop_while is_whitespace cs)))

-- `str::replace` for a pattern of two characters.
unfoldable pub replace_pair : ℕ → ℕ → List Char → List Char → List Char
replace_pair a b to [] = []
replace_pair a b to (c ∷ []) = c ∷ []
replace_pair a b to (c ∷ d ∷ cs) =
    let found = to ++ replace_pair a b to cs in
    let other = c ∷ replace_pair a b to (d ∷ cs) in
    if is_char a c && is_char b d then found else other

unfoldable pub any_char : (Char → Bool) → List Char → Bool
any_char p [] = false
any_char p (c ∷ cs) = p c || any_char p cs

-- `starts_with(c)` and `ends_with(c)`.
unfoldable pub starts_with_char : ℕ → List Char → Bool
starts_with_char n [] = false
starts_with_char n (c ∷ cs) = is_char n c

unfoldable pub ends_with_char : ℕ → List Char → Bool
ends_with_char n cs = starts_with_char n (reverse cs)

-- A number in decimal, as `format!` writes it.
unfoldable pub digit : ℕ → List String → String
digit n [] = ""
digit zero (d ∷ ds) = d
digit (suc n) (d ∷ ds) = digit n ds

abbrev pub ten_digits : List String
ten_digits = "0" ∷ "1" ∷ "2" ∷ "3" ∷ "4" ∷ "5" ∷ "6" ∷ "7" ∷ "8" ∷ "9" ∷ []

-- A number has at most as many digits as it counts, so it is fuel enough.
unfoldable pub digits : ℕ → ℕ → String → String
digits zero n rest = rest
digits (suc fuel) n rest =
    let more = digits fuel (n / 10) (String.◌++◌ (digit (n % 10) ten_digits) rest) in
    if ltb n 10 then String.◌++◌ (digit n ten_digits) rest else more

abbrev pub decimal : ℕ → String
decimal n = digits (suc n) n ""
