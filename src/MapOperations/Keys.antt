-- ===== src/MapOperations/Keys.antt =====
-- The keys that hashmap/map_operations.c and LRU/lru.c make of paths: different paths have different
-- keys, and the path can be read back.
use nfs_network_file_system.Prelude.{
  ℕ, zero, suc, ◌+◌, ◌-◌, ◌*◌, ◌≢◌, ◌/◌, ◌%◌, ◌<◌, ◌≡◌, refl, sym, ◌∙◌, ap, true, false, ◌||◌, [],
  ◌∷◌, ◌++◌, some, ltb, ◌==◌, if◌then◌else◌, take, length, arith, length-append, append_assoc,
  Bool-cases, inl, inr, ◌⊎◌,
}
use nfs_network_file_system.Prelude.Table.{all_below, all_below_sound}
use nfs_network_file_system.Prelude.Bytes.{Bytes}
use nfs_network_file_system.Text.{
  space, decimal_loop, decimal, char_decimal, is_digit, is_space, skip_spaces, skip_digits,
  scan_int, scan_word, word, need_digits, skip_sign,
}
use nfs_network_file_system.MapOperations.{CString, last_char, length_text, map_key, stored_path}

-- Digits and a minus sign.
abbrev pub AllNumeric : Bytes → Type 0
AllNumeric [] = Unit {0}
AllNumeric (c ∷ s) = ((is_digit c || (c == b'-')) ≡ true) × AllNumeric s

abbrev pub AllDigits : Bytes → Type 0
AllDigits [] = Unit {0}
AllDigits (c ∷ s) = (is_digit c ≡ true) × AllDigits s

AllDigits-append_one :
    (s : Bytes) (c : ℕ) → AllDigits s → is_digit c ≡ true → AllDigits (s ++ c ∷ [])
AllDigits-append_one [] c h d = (d, tt)
AllDigits-append_one (x ∷ s) c h d = (h.0, AllDigits-append_one s c h.1 d)

pub decimal_loop-AllDigits : (fuel n : ℕ) → AllDigits (decimal_loop fuel n)
unfolding decimal_loop
decimal_loop-AllDigits zero n = tt
decimal_loop-AllDigits (suc fuel) n = ground (
  arith,
  AllDigits-append_one (decimal_loop fuel (n / 10)) (b'0' + n % 10),
  decimal_loop-AllDigits fuel (n / 10),
)

pub AllNumeric-of_digits : (s : Bytes) → AllDigits s → AllNumeric s
AllNumeric-of_digits [] h = tt
AllNumeric-of_digits (c ∷ s) h = (ground (arith, h.0), AllNumeric-of_digits s h.1)

pub char_decimal-AllNumeric : (c : ℕ) → AllNumeric (char_decimal c)
unfolding char_decimal
char_decimal-AllNumeric c = ground (
  arith,
  AllNumeric-of_digits (decimal_loop (suc c) c),
  decimal_loop-AllDigits (suc c) c,
  AllNumeric-of_digits (decimal_loop (suc (256 - c)) (256 - c)),
  decimal_loop-AllDigits (suc (256 - c)) (256 - c),
)

length_text-AllNumeric : (s : Bytes) → AllNumeric (length_text s)
unfolding length_text decimal
length_text-AllNumeric [] = (refl, (refl, tt))
length_text-AllNumeric (c ∷ s) =
    AllNumeric-of_digits (decimal_loop (suc (length s)) (length s))
      (decimal_loop-AllDigits (suc (length s)) (length s))

-- The first blank parts a text in one way only.
pub split_unique :
    (xs ys a b : Bytes)
    → AllNumeric xs
    → AllNumeric ys
    → xs ++ space ∷ a ≡ ys ++ space ∷ b
    → (xs ≡ ys) × (a ≡ b)
split_unique [] [] a b hx hy e = (refl, ground arith)
split_unique [] (y ∷ ys) a b hx hy e = absurd (ground (arith, hy.0))
split_unique (x ∷ xs) [] a b hx hy e = absurd (ground (arith, hx.0))
split_unique (x ∷ xs) (y ∷ ys) a b hx hy e = ground (arith, split_unique xs ys a b hx.1 hy.1)

from_digits : ℕ → Bytes → ℕ
from_digits acc [] = acc
from_digits acc (c ∷ s) = from_digits (acc * 10 + (c - b'0')) s

-- A byte is read back from its text: a table over all bytes.
decode : Bytes → ℕ
decode [] = 0
decode (c ∷ s) = if c == b'-' then 256 - from_digits 0 s else from_digits 0 (c ∷ s)

char_decimal-decode_table : all_below 256 (λ c. decode (char_decimal c) == c) ≡ true
unfolding all_below decode from_digits char_decimal
char_decimal-decode_table = refl

char_decimal-injective : (a b : ℕ) → a < 256 → b < 256 → char_decimal a ≡ char_decimal b → a ≡ b
char_decimal-injective a b ha hb e = ground (
  arith,
  all_below_sound 256 (λ c. decode (char_decimal c) == c) a char_decimal-decode_table ha,
  all_below_sound 256 (λ c. decode (char_decimal c) == c) b char_decimal-decode_table hb,
  ap decode e,
)

abbrev pub AllBytes : Bytes → Type 0
AllBytes [] = Unit {0}
AllBytes (c ∷ s) = (c < 256) × AllBytes s

last_char-lt : (x c : ℕ) (s : Bytes) → AllBytes (c ∷ s) → last_char x (c ∷ s) < 256
unfolding last_char
last_char-lt x c [] h = h.0
last_char-lt x c (d ∷ s) h = last_char-lt c d s h.1

-- A text is known from all but its last character and from that one.
eq_of_init_last :
    (x y c d : ℕ) (s t : Bytes)
    → take (length s) (c ∷ s) ≡ take (length t) (d ∷ t)
    → last_char x (c ∷ s) ≡ last_char y (d ∷ t)
    → c ∷ s ≡ d ∷ t
unfolding last_char
eq_of_init_last x y c d [] [] e l = ground arith
eq_of_init_last x y c d [] (d' ∷ t) e l = absurd (ground arith)
eq_of_init_last x y c d (c' ∷ s) [] e l = absurd (ground arith)
eq_of_init_last x y c d (c' ∷ s) (d' ∷ t) e l = ground (arith, eq_of_init_last c d c' d' s t)

-- What the map compares: the key less its last character.
abbrev pub truncated : CString → Bytes
truncated p = take (length (map_key p) - 1) (map_key p)

take-append_add : (xs ys : Bytes) (n : ℕ) → take (length xs + n) (xs ++ ys) ≡ xs ++ take n ys
take-append_add [] ys n = ap (λ (k : ℕ). take k ys) (omega arith)
take-append_add (x ∷ xs) ys n =
    let e : length (x ∷ xs) + n ≡ suc (length xs + n) = omega arith in
    rw e (ap (λ l. x ∷ l) (take-append_add xs ys n))

regroup : (a b c : Bytes) → a ++ space ∷ (b ++ space ∷ c) ≡ (a ++ space ∷ (b ++ space ∷ [])) ++ c
regroup a b c = simp append_assoc

truncated-form :
    (x c : ℕ) (s : Bytes)
    → truncated (record { before = x; text = c ∷ s })
      ≡ length_text (c ∷ s)
        ++ space ∷ (char_decimal (last_char x (c ∷ s)) ++ space ∷ take (length s) (c ∷ s))
unfolding map_key
truncated-form x c s =
    let len = length_text (c ∷ s) in
    let last = char_decimal (last_char x (c ∷ s)) in
    let front = len ++ space ∷ (last ++ space ∷ []) in
    let whole = regroup len last (c ∷ s) in
    let size : length (len ++ space ∷ (last ++ space ∷ c ∷ s)) - 1 ≡ length front + length s =
      rw (whole, length-append front (c ∷ s)) (omega arith) in
    rw (size, whole, take-append_add front (c ∷ s) (length s))
      (sym (regroup len last (take (length s) (c ∷ s))))

parts :
    (x y : ℕ) (s t : Bytes)
    → s ≢ []
    → t ≢ []
    → AllBytes s
    → AllBytes t
    → truncated (record { before = x; text = s }) ≡ truncated (record { before = y; text = t })
    → s ≡ t
parts x y [] t hs ht bs bt e = absurd (hs refl)
parts x y (c ∷ s) [] hs ht bs bt e = absurd (ht refl)
parts x y (c ∷ s) (d ∷ t) hs ht bs bt e =
    let e' = sym (truncated-form x c s) ∙ e ∙ truncated-form y d t in
    let a = char_decimal (last_char x (c ∷ s)) in
    let b = char_decimal (last_char y (d ∷ t)) in
    let (_, after) =
      split_unique (length_text (c ∷ s)) (length_text (d ∷ t))
        (a ++ space ∷ take (length s) (c ∷ s)) (b ++ space ∷ take (length t) (d ∷ t))
        (length_text-AllNumeric (c ∷ s)) (length_text-AllNumeric (d ∷ t)) e' in
    let (last, init) =
      split_unique a b (take (length s) (c ∷ s)) (take (length t) (d ∷ t))
        (char_decimal-AllNumeric (last_char x (c ∷ s)))
        (char_decimal-AllNumeric (last_char y (d ∷ t))) after in
    eq_of_init_last x y c d s t init (
      char_decimal-injective (last_char x (c ∷ s)) (last_char y (d ∷ t)) (last_char-lt x c s bs)
        (last_char-lt y d t bt) last)

-- Two paths that are not empty have the same key in the map, which leaves out the last character of
-- its text, only if they are the same.
pub truncated-injective :
    (p q : CString)
    → p.text ≢ []
    → q.text ≢ []
    → AllBytes p.text
    → AllBytes q.text
    → truncated p ≡ truncated q
    → p.text ≡ q.text
truncated-injective p q hp hq bp bq e = parts p.before q.before p.text q.text hp hq bp bq e

-- The text of a path has no white space.
abbrev pub NoSpaces : Bytes → Type 0
NoSpaces [] = Unit {0}
NoSpaces (c ∷ s) = (is_space c ≡ false) × NoSpaces s

skip_digits-AllDigits : (d r : Bytes) → AllDigits d → skip_digits (d ++ space ∷ r) ≡ space ∷ r
unfolding skip_digits
skip_digits-AllDigits [] r h = refl
skip_digits-AllDigits (c ∷ d) r h = ground (arith, skip_digits-AllDigits d r)

digits_first :
    (d r : Bytes)
    → AllDigits d
    → d ≢ []
    → (skip_spaces (d ++ space ∷ r) ≡ d ++ space ∷ r)
      × (skip_sign (d ++ space ∷ r) ≡ d ++ space ∷ r)
      × (need_digits (d ++ space ∷ r) ≡ some (space ∷ r))
unfolding skip_spaces skip_sign need_digits
digits_first [] r h ne = absurd (ne refl)
digits_first (c ∷ d) r h ne =
    (ground (arith, h.0), ground (arith, h.0), ground (arith, h.0, skip_digits-AllDigits d r))

pub decimal-AllDigits : (n : ℕ) → AllDigits (decimal n)
unfolding decimal
decimal-AllDigits n = decimal_loop-AllDigits (suc n) n

append_one-ne-nil : (s : Bytes) (c : ℕ) → s ++ c ∷ [] ≢ []
append_one-ne-nil [] c e = cc
append_one-ne-nil (x ∷ s) c e = cc

decimal-ne-nil : (n : ℕ) → decimal n ≢ []
unfolding decimal decimal_loop
decimal-ne-nil n e = elim (Bool-cases (ltb n 10)) [
  | inl small ↦ ground arith
  | inr big ↦ ground (arith, append_one-ne-nil (decimal_loop n (n / 10)) (b'0' + n % 10))
]

scan_int-decimal : (n : ℕ) (r : Bytes) → scan_int (decimal n ++ space ∷ r) ≡ some (space ∷ r)
unfolding scan_int
scan_int-decimal n r =
    let (blank, sign, digits) =
      digits_first (decimal n) r (decimal-AllDigits n) (decimal-ne-nil n) in
    rw (blank, sign, digits)

scan_int-minus : (n : ℕ) (r : Bytes) → scan_int (b'-' ∷ decimal n ++ space ∷ r) ≡ some (space ∷ r)
unfolding scan_int skip_spaces skip_sign
scan_int-minus n r = (digits_first (decimal n) r (decimal-AllDigits n) (decimal-ne-nil n)).2

char_decimal-cases :
    (c : ℕ) → (char_decimal c ≡ decimal c) ⊎ (char_decimal c ≡ b'-' ∷ decimal (256 - c))
unfolding char_decimal
char_decimal-cases c = elim (Bool-cases (ltb c 128)) [
  | inl ascii ↦ inl (rw ascii)
  | inr high ↦ inr (rw high)
]

scan_int-blank : (s : Bytes) → scan_int (space ∷ s) ≡ scan_int s
unfolding scan_int
scan_int-blank s = refl

scan_int-char :
    (c : ℕ) (r : Bytes) → scan_int (space ∷ (char_decimal c ++ space ∷ r)) ≡ some (space ∷ r)
scan_int-char c r = elim (char_decimal-cases c) [
  | inl e ↦ rw (e, scan_int-blank) (scan_int-decimal c r)
  | inr e ↦ rw (e, scan_int-blank) (scan_int-minus (256 - c) r)
]

word-NoSpaces : (s : Bytes) → NoSpaces s → word s ≡ s
unfolding word
word-NoSpaces [] h = refl
word-NoSpaces (c ∷ s) h = ground (arith, h.0, word-NoSpaces s h.1)

scan_word-NoSpaces :
    (c : ℕ) (s : Bytes) → NoSpaces (c ∷ s) → scan_word (space ∷ c ∷ s) ≡ some (c ∷ s)
unfolding scan_word skip_spaces
scan_word-NoSpaces c s h = ground (arith, h.0, word-NoSpaces s h.1)

read_back :
    (x : ℕ) (s : Bytes)
    → s ≢ []
    → NoSpaces s
    → stored_path (map_key (record { before = x; text = s })) ≡ some s
unfolding stored_path map_key length_text
read_back x [] h ns = absurd (h refl)
read_back x (c ∷ s) h ns =
    let last = last_char x (c ∷ s) in
    rw (
      scan_int-decimal (length s) (char_decimal last ++ space ∷ c ∷ s),
      scan_int-char last (c ∷ s),
      scan_word-NoSpaces c s ns,
    )

-- The path of a stored key is read back, if it is not empty and has no white space.
pub stored_path-map_key :
    (p : CString) → p.text ≢ [] → NoSpaces p.text → stored_path (map_key p) ≡ some p.text
stored_path-map_key p h ns = read_back p.before p.text h ns
