-- ===== src/Operations/Extension.antt =====
-- Which names operations/create_file.c and delete.c take for those of files.
use nfs_network_file_system.Prelude.{
  ℕ, suc, ◌+◌, ◌<◌, ◌≡◌, ◌≢◌, ◌⊎◌, inl, inr, refl, sym, ap, ◌∙◌, ◌&&◌, true, false, not, [], ◌∷◌,
  ◌++◌, none, some, ◌==◌, arith, Bool-cases, Option-cases, length, has,
}
use nfs_network_file_system.Prelude.Bytes.{Bytes, codes}
use nfs_network_file_system.Text.{char_at}
use nfs_network_file_system.Operations.{
  first_period, is_file, create_full_path, delete_full_path, create_command, delete_command,
}

-- A name with an extension: the first period has characters on both sides.
pub record HasExtension (name : Bytes) : Type 0 where
  pub stem : Bytes
  pub initial : ℕ
  pub others : Bytes
  pub nonempty : stem ≢ []
  pub no_period : has b'.' stem ≡ false
  pub not_nul : initial ≢ 0
  pub split : name ≡ stem ++ b'.' ∷ initial ∷ others

first_period_stem :
    (stem s : Bytes) → has b'.' stem ≡ false → first_period (stem ++ b'.' ∷ s) ≡ some (length stem)
unfolding first_period
first_period_stem [] s h = refl
first_period_stem (c ∷ stem) s h =
    let rest = first_period_stem stem s (ground arith) in ground (arith, rest)

first_period-split :
    (name : Bytes) (i : ℕ)
    → first_period name ≡ some i
    → (stem : Bytes) × (s : Bytes) × (name ≡ stem ++ b'.' ∷ s)
      × (has b'.' stem ≡ false)
      × (length stem ≡ i)
unfolding first_period
first_period-split [] i e = absurd (cc e)
first_period-split (c ∷ name) i e = elim (Bool-cases (c == b'.')) [
  | inl here ↦ ([], name, ground arith, refl, ground arith)
  | inr there ↦ elim (Option-cases (first_period name)) [
    | inl nowhere ↦ absurd (ground arith)
    | inr (j, e') ↦
        let (stem, s, split, free, len) = first_period-split name j e' in
        (c ∷ stem, s, ap (λ t. c ∷ t) split, ground arith, ground arith)
  ]
]

char_at_append :
    (stem s : Bytes) (c : ℕ) → char_at (stem ++ c ∷ s) (suc (length stem)) ≡ char_at s 0
char_at_append [] s c = refl
char_at_append (x ∷ stem) s c = char_at_append stem s c

next_char : (stem s : Bytes) (c : ℕ) → char_at (stem ++ c ∷ s) (length stem + 1) ≡ char_at s 0
next_char stem s c =
    let e : length stem + 1 ≡ suc (length stem) = omega arith in rw e (char_at_append stem s c)

positive_length : (s : Bytes) → s ≢ [] → 0 < length s
positive_length [] ne = absurd (ne refl)
positive_length (c ∷ s) ne = omega arith

is_file-first_period :
    (name : Bytes) (i : ℕ)
    → first_period name ≡ some i
    → is_file name ≡ (not (i == 0) && not (char_at name (i + 1) == 0))
unfolding is_file
is_file-first_period name i e = ground (arith, e)

no_period-is_file : (name : Bytes) → first_period name ≡ none → is_file name ≡ false
unfolding is_file
no_period-is_file name e = ground (arith, e)

HasExtension-is_file : (name : Bytes) → HasExtension name → is_file name ≡ true
HasExtension-is_file name h =
    let stem = h.stem in
    let s = h.initial ∷ h.others in
    let first : first_period name ≡ some (length stem) =
      ap first_period h.split ∙ first_period_stem stem s h.no_period in
    let next : char_at name (length stem + 1) ≡ h.initial =
      ap (λ t. char_at t (length stem + 1)) h.split ∙ next_char stem s b'.' in
    let nonzero = positive_length stem h.nonempty in
    let not_nul = h.not_nul in
    ground (arith, is_file-first_period name (length stem) first, next, nonzero, not_nul)

extension_of :
    (name stem s : Bytes)
    → stem ≢ []
    → has b'.' stem ≡ false
    → char_at s 0 ≢ 0
    → name ≡ stem ++ b'.' ∷ s
    → HasExtension name
extension_of name stem [] ne free nul split = absurd (nul refl)
extension_of name stem (c ∷ s) ne free nul split = record {
  stem = stem;
  initial = c;
  others = s;
  nonempty = ne;
  no_period = free;
  not_nul = nul;
  split = split;
}

empty_stem : (stem : Bytes) (i : ℕ) → stem ≡ [] → length stem ≡ i → i ≢ 0 → ⊥
empty_stem stem i e len ne = ne (sym len ∙ ap length e)

is_file-HasExtension : (name : Bytes) → is_file name ≡ true → HasExtension name
is_file-HasExtension name e = elim (Option-cases (first_period name)) [
  | inl nowhere ↦ absurd (ground (arith, no_period-is_file name nowhere))
  | inr (i, there) ↦
      let (stem, s, split, free, len) = first_period-split name i there in
      let tests = is_file-first_period name i there in
      let next : char_at name (i + 1) ≡ char_at s 0 =
        ap (λ t. char_at t (i + 1)) split ∙ rw (← len) (next_char stem s b'.') in
      extension_of name stem s (λ none_there. empty_stem stem i none_there len (ground arith)) free
        (ground (arith, tests, next)) split
]

-- CREATE runs `touch` for a name with an extension and `mkdir` for any other, on the path below the
-- directory of the server.
pub create_command-HasExtension :
    (path name : Bytes)
    → (HasExtension name
        × (create_command path name ≡ codes "touch" ∷ create_full_path path name ∷ []))
      ⊎ (¬ HasExtension name
          × (create_command path name ≡ codes "mkdir" ∷ create_full_path path name ∷ []))
unfolding create_command
create_command-HasExtension path name = elim (Bool-cases (is_file name)) [
  | inl file ↦ inl (is_file-HasExtension name file, rw file refl)
  | inr directory ↦ inr (λ h. ground (arith, HasExtension-is_file name h), rw directory refl)
]

-- DELETE runs `rm` on a path with an extension and `rm -rf` on any other.
pub delete_command-HasExtension :
    (path : Bytes)
    → (HasExtension path × (delete_command path ≡ codes "rm" ∷ delete_full_path path ∷ []))
      ⊎ (¬ HasExtension path
          × (delete_command path ≡ codes "rm" ∷ codes "-rf" ∷ delete_full_path path ∷ []))
unfolding delete_command
delete_command-HasExtension path = elim (Bool-cases (is_file path)) [
  | inl file ↦ inl (is_file-HasExtension path file, rw file refl)
  | inr directory ↦ inr (λ h. ground (arith, HasExtension-is_file path h), rw directory refl)
]
