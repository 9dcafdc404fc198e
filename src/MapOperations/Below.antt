-- ===== src/MapOperations/Below.antt =====
-- The paths that the test in `get_paths_` and `remove_entry_` of hashmap/map_operations.c is meant for.
use nfs_network_file_system.Prelude.{
  ℕ, ◌≡◌, refl, ap, Bool, true, false, ◌&&◌, ◌||◌, [], ◌∷◌, ◌++◌, ◌==◌, arith, ◌⊎◌, inl, inr,
}
use nfs_network_file_system.Prelude.Bytes.{Bytes}
use nfs_network_file_system.Text.{slash, has_prefix}
use nfs_network_file_system.MapOperations.{covers}

-- The text begins with all of the path, and then it ends, which it also does at a NUL, or a slash follows.
unfoldable pub below : Bytes → Bytes → Bool
below [] [] = true
below [] (c ∷ t) = (c == 0) || (c == slash)
below (p ∷ path) [] = false
below (p ∷ path) (c ∷ t) = (p == c) && below path t

pub covers-below : (path t : Bytes) → covers path t ≡ below path t
unfolding covers has_prefix below
covers-below [] [] = refl
covers-below [] (c ∷ t) = refl
covers-below (p ∷ path) [] = refl
covers-below (p ∷ path) (c ∷ t) = ground (arith, covers-below path t)

-- The path itself, and whatever comes behind a slash.
below_self : (path : Bytes) → below path path ≡ true
unfolding below
below_self [] = refl
below_self (p ∷ path) = ground (arith, below_self path)

below-append : (path rest : Bytes) → below path (path ++ slash ∷ rest) ≡ true
unfolding below
below-append [] rest = refl
below-append (p ∷ path) rest = ground (arith, below-append path rest)

abbrev NoNul : Bytes → Type 0
NoNul [] = Unit {0}
NoNul (c ∷ t) = ((c == 0) ≡ false) × NoNul t

-- And nothing else.
below_only :
    (path t : Bytes)
    → NoNul t
    → below path t ≡ true
    → (t ≡ path) ⊎ ((rest : Bytes) × (t ≡ path ++ slash ∷ rest))
unfolding below
below_only [] [] plain h = inl refl
below_only [] (c ∷ t) plain h = inr (t, ap (λ (x : ℕ). x ∷ t) (ground (arith, plain.0)))
below_only (p ∷ path) [] plain h = absurd (cc h)
below_only (p ∷ path) (c ∷ t) plain h =
    let same : c ≡ p = ground arith in
    elim (below_only path t plain.1 (ground arith)) [
      | inl is ↦ inl cc
      | inr (rest, is) ↦ inr (rest, cc)
    ]
