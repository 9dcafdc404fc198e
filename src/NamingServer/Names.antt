-- ===== src/NamingServer/Names.antt =====
-- The words of a command and the name that COPY in namingserver.c makes of one with `basename` have no
-- white space.
use mathlib.Core.List.{reverse, reverse-cons}
use nfs_network_file_system.Prelude.{
  ℕ, ◌≡◌, refl, sym, subst, [], ◌∷◌, ◌++◌, ◌==◌, arith, Bool-cases, inl, inr,
}
use nfs_network_file_system.Prelude.Bytes.{Bytes}
use nfs_network_file_system.Text.{
  slash, drop_slashes, until_slash, strip_slashes, cut_slashes, basename,
}
use nfs_network_file_system.MapOperations.Keys.{AllBytes, NoSpaces}
use nfs_network_file_system.MapOperations.Values.{IsPath}
use nfs_network_file_system.MapOperations.AddPaths.{NoSpaces-append, AllBytes-append, append-ne-nil}

-- No white space, and bytes.
abbrev pub IsClean : Bytes → Type 0
IsClean w = NoSpaces w × AllBytes w

pub child-IsClean : (a b : Bytes) → IsClean a → IsClean b → IsPath (a ++ slash ∷ b)
child-IsClean a b ha hb = record {
  nonempty = append-ne-nil a slash b;
  unspaced = NoSpaces-append a (slash ∷ b) ha.0 (refl, hb.0);
  bytes = AllBytes-append a (slash ∷ b) ha.1 (omega arith, hb.1);
}

IsClean-append : (a b : Bytes) → IsClean a → IsClean b → IsClean (a ++ b)
IsClean-append a b ha hb = (NoSpaces-append a b ha.0 hb.0, AllBytes-append a b ha.1 hb.1)

IsClean-reverse : (s : Bytes) → IsClean s → IsClean (reverse s)
IsClean-reverse [] h = (tt, tt)
IsClean-reverse (c ∷ s) h = subst IsClean (sym (reverse-cons c s)) (
    IsClean-append (reverse s) (c ∷ []) (IsClean-reverse s (h.0.1, h.1.1))
      ((h.0.0, tt), (h.1.0, tt)))

IsClean-drop_slashes : (s : Bytes) → IsClean s → IsClean (drop_slashes s)
unfolding drop_slashes
IsClean-drop_slashes [] h = h
IsClean-drop_slashes (c ∷ s) h = elim (Bool-cases (c == slash)) [
  | inl here ↦ rw here (IsClean-drop_slashes s (h.0.1, h.1.1))
  | inr there ↦ rw there h
]

IsClean-until_slash : (s : Bytes) → IsClean s → IsClean (until_slash s)
unfolding until_slash
IsClean-until_slash [] h = h
IsClean-until_slash (c ∷ s) h = elim (Bool-cases (c == slash)) [
  | inl here ↦ rw here (tt, tt)
  | inr there ↦
      let rest = IsClean-until_slash s (h.0.1, h.1.1) in rw there ((h.0.0, rest.0), (h.1.0, rest.1))
]

pub IsClean-strip_slashes : (s : Bytes) → IsClean s → IsClean (strip_slashes s)
unfolding strip_slashes
IsClean-strip_slashes s h =
    IsClean-reverse (drop_slashes (reverse s))
      (IsClean-drop_slashes (reverse s) (IsClean-reverse s h))

last_name : Bytes → Bytes
last_name [] = slash ∷ []
last_name (d ∷ t) = reverse (until_slash (reverse (d ∷ t)))

IsClean-last_name : (s : Bytes) → IsClean s → IsClean (last_name s)
unfolding last_name
IsClean-last_name [] h = ((refl, tt), (omega arith, tt))
IsClean-last_name (d ∷ t) h =
    IsClean-reverse (until_slash (reverse (d ∷ t)))
      (IsClean-until_slash (reverse (d ∷ t)) (IsClean-reverse (d ∷ t) h))

pub IsClean-cut_slashes : (s : Bytes) → IsClean s → IsClean (cut_slashes s)
unfolding cut_slashes
IsClean-cut_slashes s h =
    elim (strip_slashes s) as (λ r. IsClean r → IsClean (elim r [ [] ↦ s | d ∷ t ↦ d ∷ t ])) [
      | [] ↦ λ e. h
      | d ∷ t ↦ λ e. e
    ]
      (IsClean-strip_slashes s h)

basename-last_name : (c : ℕ) (s : Bytes) → basename (c ∷ s) ≡ last_name (strip_slashes (c ∷ s))
unfolding basename last_name
basename-last_name c s = refl

pub IsClean-basename : (s : Bytes) → IsClean s → IsClean (basename s)
unfolding basename
IsClean-basename [] h = ((refl, tt), (omega arith, tt))
IsClean-basename (c ∷ s) h =
    subst IsClean (sym (basename-last_name c s))
      (IsClean-last_name (strip_slashes (c ∷ s)) (IsClean-strip_slashes (c ∷ s) h))
