-- ===== src/Text.antt =====
-- What the program uses of the C library on texts: numbers in decimal, `sscanf`, `strncmp`,
-- `strcasecmp`, over lists of bytes with no NUL among them.
use nfs_network_file_system.Prelude.{
  ℕ, zero, suc, ◌+◌, ◌-◌, ◌/◌, ◌%◌, Bool, true, false, ◌&&◌, ◌||◌, [], ◌∷◌, ◌++◌, Option, none,
  some, ltb, leb, ◌==◌, if◌then◌else◌, get_or, map,
}
use mathlib.Core.List.{reverse}
use nfs_network_file_system.Prelude.Bytes.{Bytes, bytes_eq}

abbrev pub space : ℕ
space = b' '

abbrev pub slash : ℕ
slash = b'/'

-- `s[i]`, NUL at the end.
abbrev pub char_at : Bytes → ℕ → ℕ
char_at s i = get_or s i 0

-- `strncmp(s, p, strlen(p)) == 0`
unfoldable pub has_prefix : Bytes → Bytes → Bool
has_prefix s [] = true
has_prefix [] (y ∷ p) = false
has_prefix (x ∷ s) (y ∷ p) = (x == y) && has_prefix s p

-- The decimal digits of a number.
unfoldable pub decimal_loop : ℕ → ℕ → Bytes
decimal_loop zero n = []
decimal_loop (suc fuel) n =
    let rest = decimal_loop fuel (n / 10) in
    if ltb n 10 then (b'0' + n) ∷ [] else rest ++ (b'0' + n % 10) ∷ []

unfoldable pub decimal : ℕ → Bytes
unfolding decimal_loop
decimal n = decimal_loop (suc n) n

-- `%d` of a `char`, which is signed.
unfoldable pub char_decimal : ℕ → Bytes
unfolding decimal
char_decimal c = if ltb c 128 then decimal c else b'-' ∷ decimal (256 - c)

abbrev pub is_digit : ℕ → Bool
is_digit c = leb b'0' c && leb c b'9'

-- `isspace`: blank, and the codes from tab to carriage return.
abbrev pub is_space : ℕ → Bool
is_space c = (c == space) || (leb 9 c && leb c 13)

unfoldable pub skip_spaces : Bytes → Bytes
skip_spaces [] = []
skip_spaces (c ∷ s) = if is_space c then skip_spaces s else c ∷ s

unfoldable pub skip_digits : Bytes → Bytes
skip_digits [] = []
skip_digits (c ∷ s) = if is_digit c then skip_digits s else c ∷ s

-- The rest after a `%d`, or `none` where it does not match: white space, a sign, digits.
unfoldable pub skip_sign : Bytes → Bytes
skip_sign [] = []
skip_sign (c ∷ s) = if (c == b'-') || (c == b'+') then s else c ∷ s

unfoldable pub need_digits : Bytes → Option Bytes
unfolding skip_digits
need_digits [] = none
need_digits (c ∷ s) = if is_digit c then some (skip_digits s) else none

unfoldable pub scan_int : Bytes → Option Bytes
unfolding skip_spaces skip_sign need_digits
scan_int s = need_digits (skip_sign (skip_spaces s))

-- The longest beginning with no white space.
unfoldable pub word : Bytes → Bytes
word [] = []
word (c ∷ s) = if is_space c then [] else c ∷ word s

-- `%s`, which does not match where no word is left.
unfoldable pub scan_word : Bytes → Option Bytes
unfolding skip_spaces word
scan_word s = elim (word (skip_spaces s)) [ [] ↦ none | c ∷ w ↦ some (c ∷ w) ]

abbrev pub lower : ℕ → ℕ
lower c = if leb b'A' c && leb c b'Z' then c + 32 else c

-- `strcasecmp(a, b) == 0`
unfoldable pub case_eq : Bytes → Bytes → Bool
unfolding bytes_eq
case_eq a b = bytes_eq (map lower a) (map lower b)

unfoldable pub drop_slashes : Bytes → Bytes
drop_slashes [] = []
drop_slashes (c ∷ s) = if c == slash then drop_slashes s else c ∷ s

unfoldable pub until_slash : Bytes → Bytes
until_slash [] = []
until_slash (c ∷ s) = if c == slash then [] else c ∷ until_slash s

-- A path less the slashes at its end.
unfoldable pub strip_slashes : Bytes → Bytes
unfolding drop_slashes
strip_slashes s = reverse (drop_slashes (reverse s))

-- What `basename` leaves of its argument: a text of slashes only stays as it is.
unfoldable pub cut_slashes : Bytes → Bytes
unfolding strip_slashes
cut_slashes s = elim (strip_slashes s) [ [] ↦ s | d ∷ t ↦ d ∷ t ]

-- `basename` of libgen.h.
unfoldable pub basename : Bytes → Bytes
unfolding strip_slashes until_slash
basename [] = b'.' ∷ []
basename (c ∷ s) = elim (strip_slashes (c ∷ s)) [
  | [] ↦ slash ∷ []
  | d ∷ t ↦ reverse (until_slash (reverse (d ∷ t)))
]
