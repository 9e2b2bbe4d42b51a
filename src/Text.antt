-- ===== src/Text.antt =====
-- The operations of Rust's `str` and `char` that the program calls. A text is the list of its code
-- points; its length in bytes is that of its UTF-8 encoding.
pub mod Trim
pub mod Split
use Prim.Native.Char.{code}
use Prim.Native.String.{String}
use silicon_briefcase.Prelude.{
  zero, suc, ℕ, ◌+◌, ◌-◌, ◌*◌, ◌/◌, ◌%◌, Bool, true, false, not, ◌&&◌, ◌||◌, List, [], ◌∷◌, ◌++◌,
  Option, none, some, ltb, leb, ◌==◌, if◌then◌else◌, any, all, u32_mod, u64_mod,
}

abbrev pub Str : Type 0
Str = List ℕ

-- `char::is_whitespace`: the Unicode property White_Space.
unfoldable pub is_whitespace : ℕ → Bool
is_whitespace c =
    (leb 9 c && leb c 13)
    || c == 32
    || c == 0x85
    || c == 0xa0
    || c == 0x1680
    || (leb 0x2000 c && leb c 0x200a)
    || c == 0x2028
    || c == 0x2029
    || c == 0x202f
    || c == 0x205f
    || c == 0x3000

-- `char::is_control`: the general category Cc.
unfoldable pub is_control : ℕ → Bool
is_control c = ltb c 32 || (leb 127 c && leb c 159)

unfoldable pub is_ascii_lowercase : ℕ → Bool
is_ascii_lowercase c = leb b'a' c && leb c b'z'

unfoldable is_ascii_uppercase : ℕ → Bool
is_ascii_uppercase c = leb b'A' c && leb c b'Z'

unfoldable pub is_ascii_digit : ℕ → Bool
is_ascii_digit c = leb b'0' c && leb c b'9'

unfoldable pub is_ascii_alphanumeric : ℕ → Bool
unfolding is_ascii_lowercase is_ascii_uppercase is_ascii_digit
is_ascii_alphanumeric c = is_ascii_lowercase c || is_ascii_uppercase c || is_ascii_digit c

unfoldable pub to_ascii_lowercase : ℕ → ℕ
unfolding is_ascii_uppercase
to_ascii_lowercase c = if is_ascii_uppercase c then c + 32 else c

-- `char::len_utf8`.
unfoldable pub len_utf8 : ℕ → ℕ
len_utf8 c = if ltb c 0x80 then 1 else if ltb c 0x800 then 2 else if ltb c 0x10000 then 3 else 4

-- `str::len`.
unfoldable pub byte_len : Str → ℕ
byte_len [] = 0
byte_len (c ∷ s) = len_utf8 c + byte_len s

abbrev pub is_empty {ℓ} : {A : Type ℓ} → List A → Bool
is_empty [] = true
is_empty (c ∷ s) = false

-- Equality of texts, as `==` on `str`.
unfoldable pub str_eq : Str → Str → Bool
str_eq [] [] = true
str_eq (c ∷ s) (d ∷ t) = c == d && str_eq s t
str_eq _ _ = false

-- `str::contains` of one character.
unfoldable pub contains_char : ℕ → Str → Bool
contains_char c [] = false
contains_char c (d ∷ s) = d == c || contains_char c s

-- `trim_start_matches`, `trim_end_matches` and `trim_matches`, by a test on characters.
unfoldable pub trim_start_matches : (ℕ → Bool) → Str → Str
trim_start_matches p [] = []
trim_start_matches p (c ∷ s) = let rest = trim_start_matches p s in if p c then rest else c ∷ s

unfoldable pub trim_end_matches : (ℕ → Bool) → Str → Str
trim_end_matches p [] = []
trim_end_matches p (c ∷ s) =
    let rest = trim_end_matches p s in if p c && is_empty rest then [] else c ∷ rest

unfoldable pub trim_matches : (ℕ → Bool) → Str → Str
unfolding trim_start_matches trim_end_matches
trim_matches p s = trim_end_matches p (trim_start_matches p s)

-- `str::trim`.
unfoldable pub trim : Str → Str
unfolding trim_matches
trim s = trim_matches is_whitespace s

-- `str::split` at a character.
abbrev pub split_cons : ℕ → List Str → List Str
split_cons c [] = (c ∷ []) ∷ []
split_cons c (p ∷ ps) = (c ∷ p) ∷ ps

unfoldable pub split : ℕ → Str → List Str
split sep [] = [] ∷ []
split sep (c ∷ s) = if c == sep then [] ∷ split sep s else split_cons c (split sep s)

-- The parts of a text joined by a character.
unfoldable pub join_with : ℕ → List Str → Str
join_with sep [] = []
join_with sep (p ∷ []) = p
join_with sep (p ∷ q ∷ ps) = p ++ sep ∷ join_with sep (q ∷ ps)

-- The code points of a quoted text.
abbrev pub codes : String → Str
codes String.[] = []
codes (String.◌∷◌ c s) = code c ∷ codes s

-- `str::strip_prefix`.
unfoldable pub strip_prefix : Str → Str → Option Str
strip_prefix [] s = some s
strip_prefix (c ∷ p) [] = none
strip_prefix (c ∷ p) (d ∷ s) = if c == d then strip_prefix p s else none

unfoldable pub starts_with : Str → Str → Bool
starts_with [] s = true
starts_with (c ∷ p) [] = false
starts_with (c ∷ p) (d ∷ s) = c == d && starts_with p s

-- `chars().take(n)`.
unfoldable pub take_chars : ℕ → Str → Str
take_chars zero s = []
take_chars (suc n) [] = []
take_chars (suc n) (c ∷ s) = c ∷ take_chars n s

-- The order of `str`: lexicographic on code points, which UTF-8 keeps.
unfoldable pub str_ltb : Str → Str → Bool
str_ltb s [] = false
str_ltb [] (d ∷ t) = true
str_ltb (c ∷ s) (d ∷ t) = ltb c d || (c == d && str_ltb s t)

-- `str::rsplit_once` at a character.
abbrev rsplit_cons : ℕ → ℕ → Str → Option (Str × Str) → Option (Str × Str)
rsplit_cons sep c s (some (a, b)) = some (c ∷ a, b)
rsplit_cons sep c s none = if c == sep then some ([], s) else none

unfoldable pub rsplit_once : ℕ → Str → Option (Str × Str)
rsplit_once sep [] = none
rsplit_once sep (c ∷ s) = rsplit_cons sep c s (rsplit_once sep s)

-- `str::split_once` at a character.
abbrev split_once_cons : ℕ → Option (Str × Str) → Option (Str × Str)
split_once_cons c none = none
split_once_cons c (some (a, b)) = some (c ∷ a, b)

unfoldable pub split_once : ℕ → Str → Option (Str × Str)
split_once sep [] = none
split_once sep (c ∷ s) =
    let later = split_once_cons c (split_once sep s) in if c == sep then some ([], s) else later

-- `starts_with` and `ends_with` of one character, and a text without its last character.
abbrev pub starts_with_char : ℕ → Str → Bool
starts_with_char c [] = false
starts_with_char c (d ∷ s) = d == c

unfoldable pub ends_with_char : ℕ → Str → Bool
ends_with_char c [] = false
ends_with_char c (d ∷ s) = if is_empty s then d == c else ends_with_char c s

unfoldable pub drop_last : Str → Str
drop_last [] = []
drop_last (c ∷ s) = if is_empty s then [] else c ∷ drop_last s

-- `str::strip_suffix` of one character.
unfoldable pub strip_suffix_char : ℕ → Str → Option Str
unfolding ends_with_char drop_last
strip_suffix_char c s = if ends_with_char c s then some (drop_last s) else none

-- The digits of a decimal number, added to the ones before.
unfoldable pub parse_digits : ℕ → Str → Option ℕ
parse_digits acc [] = some acc
parse_digits acc (c ∷ s) =
    let rest = parse_digits (acc * 10 + (c - b'0')) s in
    if leb b'0' c && leb c b'9' then rest else none

abbrev parse_unsigned : Str → Option ℕ
parse_unsigned [] = none
parse_unsigned (c ∷ s) = parse_digits 0 (c ∷ s)

abbrev after_plus : Str → Str
after_plus [] = []
after_plus (c ∷ s) = if c == b'+' then s else c ∷ s

-- `parse` of an unsigned integer below a bound: an optional `+`, then digits.
unfoldable pub parse_below : ℕ → Str → Option ℕ
unfolding parse_digits
parse_below bound s = elim (parse_unsigned (after_plus s)) [
  | none ↦ none
  | some n ↦ if ltb n bound then some n else none
]

-- `parse::<u16>`, `parse::<u32>` and `parse::<u64>`.
unfoldable pub parse_u16 : Str → Option ℕ
unfolding parse_below
parse_u16 s = parse_below 65536 s

unfoldable pub parse_u32 : Str → Option ℕ
parse_u32 s = parse_below u32_mod s

unfoldable pub parse_u64 : Str → Option ℕ
parse_u64 s = parse_below u64_mod s

-- `format!("{n}")` of a `u64`: at most twenty digits, written from the last.
unfoldable pub decimal_onto : ℕ → ℕ → Str → Str
decimal_onto zero n s = s
decimal_onto (suc fuel) n s =
    let more = decimal_onto fuel (n / 10) ((b'0' + n % 10) ∷ s) in
    if ltb n 10 then (b'0' + n) ∷ s else more

unfoldable pub decimal : ℕ → Str
unfolding decimal_onto
decimal n = decimal_onto 20 n []

-- `str::ends_with`.
unfoldable pub ends_with : Str → Str → Bool
ends_with suffix [] = is_empty suffix
ends_with suffix (c ∷ s) = str_eq suffix (c ∷ s) || ends_with suffix s

-- `str::contains` of a text.
unfoldable pub contains_text : Str → Str → Bool
contains_text p [] = is_empty p
contains_text p (c ∷ s) = starts_with p (c ∷ s) || contains_text p s
