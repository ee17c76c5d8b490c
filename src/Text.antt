-- ===== src/Text.antt =====
-- Rust's `str` as the source uses it: a text is the list of its UTF-8 bytes. `trim`, `contains` and
-- `split` of one ASCII character, `str::from_utf8` and `String::from_utf8_lossy`.
pub mod Split
pub mod Utf8
use zet_mq.Prelude.{
  ℕ, zero, suc, Bool, true, false, List, [], ◌∷◌, ◌++◌, Option, none, some, reverse, map, ◌&&◌,
  ◌||◌, ◌==◌, leb, if◌then◌else◌, length, drop, take,
}

abbrev pub Str : Type 0
Str = List ℕ

-- `s.contains(c)` for an ASCII character `c`.
unfoldable pub contains : ℕ → Str → Bool
contains c [] = false
contains c (x ∷ xs) = x == c || contains c xs

-- The first piece and the pieces behind it.
abbrev pub cons_first : ℕ → List Str → List Str
cons_first x [] = (x ∷ []) ∷ []
cons_first x (p ∷ ps) = (x ∷ p) ∷ ps

-- `s.split(c)`: one piece more than `s` has occurrences of `c`.
unfoldable pub split : ℕ → Str → List Str
split c [] = [] ∷ []
split c (x ∷ xs) = let rest = split c xs in if x == c then [] ∷ rest else cons_first x rest

-- `s` without the prefix `p`.
unfoldable pub strip_prefix : Str → Str → Option Str
strip_prefix [] s = some s
strip_prefix (p ∷ ps) [] = none
strip_prefix (p ∷ ps) (x ∷ xs) = let rest = strip_prefix ps xs in if p == x then rest else none

-- The characters of Unicode's `White_Space`, in UTF-8.
abbrev pub white_space : List Str
white_space =
    (0x20 ∷ [])
    ∷ (9 ∷ [])
    ∷ (10 ∷ [])
    ∷ (11 ∷ [])
    ∷ (12 ∷ [])
    ∷ (13 ∷ [])
    ∷ (0xc2 ∷ 0x85 ∷ [])
    ∷ (0xc2 ∷ 0xa0 ∷ [])
    ∷ (0xe1 ∷ 0x9a ∷ 0x80 ∷ [])
    ∷ (0xe2 ∷ 0x80 ∷ 0x80 ∷ [])
    ∷ (0xe2 ∷ 0x80 ∷ 0x81 ∷ [])
    ∷ (0xe2 ∷ 0x80 ∷ 0x82 ∷ [])
    ∷ (0xe2 ∷ 0x80 ∷ 0x83 ∷ [])
    ∷ (0xe2 ∷ 0x80 ∷ 0x84 ∷ [])
    ∷ (0xe2 ∷ 0x80 ∷ 0x85 ∷ [])
    ∷ (0xe2 ∷ 0x80 ∷ 0x86 ∷ [])
    ∷ (0xe2 ∷ 0x80 ∷ 0x87 ∷ [])
    ∷ (0xe2 ∷ 0x80 ∷ 0x88 ∷ [])
    ∷ (0xe2 ∷ 0x80 ∷ 0x89 ∷ [])
    ∷ (0xe2 ∷ 0x80 ∷ 0x8a ∷ [])
    ∷ (0xe2 ∷ 0x80 ∷ 0xa8 ∷ [])
    ∷ (0xe2 ∷ 0x80 ∷ 0xa9 ∷ [])
    ∷ (0xe2 ∷ 0x80 ∷ 0xaf ∷ [])
    ∷ (0xe2 ∷ 0x81 ∷ 0x9f ∷ [])
    ∷ (0xe3 ∷ 0x80 ∷ 0x80 ∷ [])
    ∷ []

-- `s` without the first of the prefixes that it begins with.
unfoldable pub strip_any : List Str → Str → Option Str
strip_any [] s = none
strip_any (p ∷ ps) s = elim (strip_prefix p s) [ some rest ↦ some rest | none ↦ strip_any ps s ]

-- As many of the prefixes as stand at the front; each is at least a byte, so that the length of the
-- text is fuel enough.
unfoldable pub strip_all : ℕ → List Str → Str → Str
strip_all zero ps s = s
strip_all (suc fuel) ps s = elim (strip_any ps s) [ some rest ↦ strip_all fuel ps rest | none ↦ s ]

unfoldable pub trim_start : Str → Str
unfolding strip_all
trim_start s = strip_all (length s) white_space s

unfoldable pub trim_end : Str → Str
unfolding strip_all
trim_end s = reverse (strip_all (length s) (map reverse white_space) (reverse s))

unfoldable pub trim : Str → Str
unfolding trim_start trim_end
trim s = trim_end (trim_start s)

abbrev in_range : ℕ → ℕ → ℕ → Bool
in_range lo hi b = leb lo b && leb b hi

-- How many bytes the next character takes, and whether they are well-formed UTF-8. Of a malformed
-- one the count is that of its longest part that begins a character, which `from_utf8_lossy`
-- replaces as a whole.
three : ℕ → ℕ → Str → ℕ × Bool
three lo hi [] = (1, false)
three lo hi (b ∷ []) = if in_range lo hi b then (2, false) else (1, false)
three lo hi (b ∷ c ∷ _) =
    if in_range lo hi b
    then (if in_range 0x80 0xbf c then (3, true) else (2, false))
    else (1, false)

four : ℕ → ℕ → Str → ℕ × Bool
four lo hi [] = (1, false)
four lo hi (b ∷ []) = if in_range lo hi b then (2, false) else (1, false)
four lo hi (b ∷ c ∷ []) =
    if in_range lo hi b
    then (if in_range 0x80 0xbf c then (3, false) else (2, false))
    else (1, false)
four lo hi (b ∷ c ∷ d ∷ _) =
    if in_range lo hi b
    then (if in_range 0x80 0xbf c
        then (if in_range 0x80 0xbf d then (4, true) else (3, false))
        else (2, false))
    else (1, false)

two : Str → ℕ × Bool
two [] = (1, false)
two (b ∷ _) = if in_range 0x80 0xbf b then (2, true) else (1, false)

unfoldable pub next_char : ℕ → Str → ℕ × Bool
unfolding two three four
next_char a rest =
    if leb a 0x7f
    then (1, true)
    else if in_range 0xc2 0xdf a
    then two rest
    else if a == 0xe0
    then three 0xa0 0xbf rest
    else if a == 0xed
    then three 0x80 0x9f rest
    else if in_range 0xe1 0xef a
    then three 0x80 0xbf rest
    else if a == 0xf0
    then four 0x90 0xbf rest
    else if in_range 0xf1 0xf3 a
    then four 0x80 0xbf rest
    else if a == 0xf4
    then four 0x80 0x8f rest
    else (1, false)

replacement : Str
replacement = 0xef ∷ 0xbf ∷ 0xbd ∷ []

-- A character is at least a byte, so that the length of the text is fuel enough.
unfoldable pub utf8_chars : ℕ → Str → Bool
unfolding next_char
utf8_chars zero s = true
utf8_chars (suc fuel) [] = true
utf8_chars (suc fuel) (a ∷ rest) =
    let (n, good) = next_char a rest in
    let more = utf8_chars fuel (drop n (a ∷ rest)) in if good then more else false

-- Whether `std::str::from_utf8(bytes)` is `Ok`; the text is then the bytes themselves.
unfoldable pub is_utf8 : List ℕ → Bool
unfolding utf8_chars
is_utf8 s = utf8_chars (length s) s

unfoldable pub lossy_chars : ℕ → Str → Str
unfolding next_char replacement
lossy_chars zero s = []
lossy_chars (suc fuel) [] = []
lossy_chars (suc fuel) (a ∷ rest) =
    let (n, good) = next_char a rest in
    (if good then take n (a ∷ rest) else replacement) ++ lossy_chars fuel (drop n (a ∷ rest))

unfoldable pub from_utf8 : List ℕ → Option Str
unfolding is_utf8
from_utf8 s = if is_utf8 s then some s else none

unfoldable pub from_utf8_lossy : List ℕ → Str
unfolding lossy_chars
from_utf8_lossy s = lossy_chars (length s) s
