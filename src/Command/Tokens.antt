-- ===== src/Command/Tokens.antt =====
-- The words that `processCommand` splits a line into.
use nfs_network_file_system.Prelude.{
  ℕ, ◌≡◌, ◌≢◌, refl, ap, ◌∙◌, sym, ◌||◌, Bool, true, false, List, [], ◌∷◌, ◌++◌, append_assoc,
  append-nil, none, ◌==◌, arith, map,
}
use nfs_network_file_system.Prelude.Bytes.{Bytes}
use nfs_network_file_system.Text.{space}
use nfs_network_file_system.Command.{to_blank, tokens_loop, tokens, process_command}

abbrev is_blank : ℕ → Bool
is_blank c = (c == space) || ((c == 9) || (c == 10))

-- No blank, tab or new line.
abbrev pub Unbroken : Bytes → Type 0
Unbroken [] = Unit {0}
Unbroken (c ∷ w) = (is_blank c ≡ false) × Unbroken w

abbrev pub AllBlank : Bytes → Type 0
AllBlank [] = Unit {0}
AllBlank (c ∷ w) = (is_blank c ≡ true) × AllBlank w

abbrev pub AllWords : List Bytes → Type 0
AllWords [] = Unit {0}
AllWords (w ∷ ws) = (w ≢ []) × Unbroken w × AllWords ws

-- A line with these words, each with a separator behind it.
unfoldable pub line_of : List (Bytes × Bytes) → Bytes
line_of [] = []
line_of ((w, separator) ∷ parts) = w ++ (separator ++ line_of parts)

abbrev pub words_of : List (Bytes × Bytes) → List Bytes
words_of [] = []
words_of ((w, separator) ∷ parts) = w ∷ words_of parts

-- The separators are blanks, tabs and new lines, at least one behind every word.
abbrev pub AllSeparated : List (Bytes × Bytes) → Type 0
AllSeparated [] = Unit {0}
AllSeparated ((w, separator) ∷ parts) = (separator ≢ []) × AllBlank separator × AllSeparated parts

blank_to_space : (c : ℕ) → is_blank c ≡ true → (to_blank c == space) ≡ true
blank_to_space c h = ground arith

unbroken_to_blank : (c : ℕ) → is_blank c ≡ false → to_blank c ≡ c
unbroken_to_blank c h = ground arith

unbroken_not_space : (c : ℕ) → is_blank c ≡ false → (c == space) ≡ false
unbroken_not_space c h = ground arith

map_append : (a b : Bytes) → map to_blank (a ++ b) ≡ map to_blank a ++ map to_blank b
map_append [] b = refl
map_append (c ∷ a) b = ap (λ t. to_blank c ∷ t) (map_append a b)

loop_word :
    (w s u : Bytes)
    → Unbroken w
    → tokens_loop (map to_blank (w ++ s)) u ≡ tokens_loop (map to_blank s) (u ++ w)
unfolding tokens_loop
loop_word [] s u h = ap (tokens_loop (map to_blank s)) (sym (append-nil u))
loop_word (c ∷ w) s u h =
    let same = unbroken_to_blank c h.0 in
    let off = unbroken_not_space c h.0 in
    let rest = loop_word w s (u ++ c ∷ []) h.1 in
    rw (same, off) (rest ∙ ap (tokens_loop (map to_blank s)) (append_assoc u (c ∷ []) w))

loop_blanks :
    (b s : Bytes)
    → AllBlank b
    → tokens_loop (map to_blank (b ++ s)) [] ≡ tokens_loop (map to_blank s) []
unfolding tokens_loop
loop_blanks [] s h = refl
loop_blanks (c ∷ b) s h = rw (blank_to_space c h.0) (loop_blanks b s h.1)

loop_separator :
    (c : ℕ) (b s w : Bytes)
    → is_blank c ≡ true
    → AllBlank b
    → w ≢ []
    → tokens_loop (map to_blank (c ∷ b ++ s)) w ≡ w ∷ tokens_loop (map to_blank s) []
unfolding tokens_loop
loop_separator c b s [] h hb ne = absurd (ne refl)
loop_separator c b s (x ∷ w) h hb ne =
    rw (blank_to_space c h) (ap (λ t. (x ∷ w) ∷ t) (loop_blanks b s hb))

loop_parts :
    (parts : List (Bytes × Bytes))
    → AllWords (words_of parts)
    → AllSeparated parts
    → tokens_loop (map to_blank (line_of parts)) [] ≡ words_of parts
unfolding tokens_loop line_of
loop_parts [] hw hs = refl
loop_parts ((w, []) ∷ parts) hw hs = absurd (hs.0 refl)
loop_parts ((w, c ∷ b) ∷ parts) hw hs =
    loop_word w ((c ∷ b) ++ line_of parts) [] hw.1
    ∙ loop_separator c b (line_of parts) w hs.1.0 hs.1.1 hw.0
    ∙ ap (λ t. w ∷ t) (loop_parts parts hw.2 hs.2)

-- Words that are not empty and hold no blank, tab or new line come out of a line again as they are,
-- whatever blanks, tabs and new lines stand in front of the first, between them and, at least one,
-- behind each.
pub tokens-line_of :
    (front : Bytes) (parts : List (Bytes × Bytes))
    → AllBlank front
    → AllWords (words_of parts)
    → AllSeparated parts
    → tokens (front ++ line_of parts) ≡ words_of parts
unfolding tokens
tokens-line_of front parts hf hw hs = loop_blanks front (line_of parts) hf ∙ loop_parts parts hw hs

tokens-AllBlank : (line : Bytes) → AllBlank line → tokens line ≡ []
unfolding tokens tokens_loop
tokens-AllBlank line h =
    ap (λ l. tokens_loop (map to_blank l) []) (sym (append-nil line)) ∙ loop_blanks line [] h

-- A line of nothing but blanks, tabs and new lines is what `processCommand` faults on: it copies from the
-- NULL that `strtok` gives.
pub process_command-AllBlank :
    (line : Bytes) (args : List Bytes) → AllBlank line → process_command line args ≡ none
unfolding process_command
process_command-AllBlank line args h = ground (arith, tokens-AllBlank line h)
