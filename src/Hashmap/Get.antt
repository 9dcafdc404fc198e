-- ===== src/Hashmap/Get.antt =====
-- `hashmap_get` of hashmap/map.c reads the map's entries.
use nfs_network_file_system.Prelude.{
  ℕ, ◌≡◌, refl, ◌∙◌, Bool, true, false, Option, none, some, List, [], ◌∷◌, arith, take, has,
  if◌then◌else◌, ◌==◌, Bool-cases, Option-cases, inl, inr,
}
use nfs_network_file_system.Prelude.Bytes.{Bytes, bytes_eq_refl, eq_of_bytes_eq}
use nfs_network_file_system.Hashmap.{
  Bucket, Hashmap, bucket_at, has_key, stops, find_entry, hashmap_get,
}
use nfs_network_file_system.Hashmap.Hash.{hash_data}
use nfs_network_file_system.Hashmap.Dict.{Entry, lookup, same_key}
use nfs_network_file_system.Hashmap.Order.{entries}
use nfs_network_file_system.Hashmap.Invariant.{
  search_for, IsTable, Holds, room, search_for-total, search_for-stops, search_for_unique,
  stops-same,
}

abbrev pub entry : Bytes → ℕ → ℕ → Entry
entry k n v = record { key = k; ksize = n; value = v }

-- Buckets other than the one where the search ends do not have the key.
pub same_key-elsewhere :
    {m : Hashmap} {xs : List ℕ} (v : IsTable m xs) (key : Bytes) (n i : ℕ)
    → search_for m.buckets m.capacity key n ≡ some i
    → (x : ℕ) (k : Bytes) → (bucket_at m.buckets x).key ≡ some k
    → x == i ≡ false
    → same_key (entry k (bucket_at m.buckets x).ksize (bucket_at m.buckets x).value) key n ≡ false
unfolding same_key
same_key-elsewhere {m} v key n i found x k e apart =
    ground (arith, eq_of_bytes_eq (take n k) (take n key), search_for_unique v key n i found x k e)

pub same_key-here :
    {m : Hashmap} {xs : List ℕ} (v : IsTable m xs) (key : Bytes) (n i : ℕ)
    → search_for m.buckets m.capacity key n ≡ some i
    → (k : Bytes) → (bucket_at m.buckets i).key ≡ some k
    → same_key (entry k (bucket_at m.buckets i).ksize (bucket_at m.buckets i).value) key n ≡ true
unfolding same_key
same_key-here {m} v key n i found k e =
    let (size, hash, bytes) =
      stops-same (bucket_at m.buckets i) k key n (hash_data key n) e
        (search_for-stops v key n i found) in
    ground (arith, bytes_eq_refl (take n key))

module _ {m : Hashmap} {xs : List ℕ} (v : IsTable m xs) (key : Bytes) (n i : ℕ)
    (found : search_for m.buckets m.capacity key n ≡ some i) where
  -- The entries that stand before it in any list of buckets are passed over.
  lookup-entries_cons :
      (x : ℕ) (ys : List ℕ)
      → x == i ≡ false
      → lookup key n (entries m.buckets (x ∷ ys)) ≡ lookup key n (entries m.buckets ys)
  unfolding lookup entries
  lookup-entries_cons x ys apart = elim (Option-cases (bucket_at m.buckets x).key) [
    | inl e ↦ ground arith
    | inr (k, e) ↦ ground (arith, same_key-elsewhere v key n i found x k e apart)
  ]

  lookup-entries_some :
      (k : Bytes) (ys : List ℕ)
      → (bucket_at m.buckets i).key ≡ some k
      → has i ys ≡ true
      → lookup key n (entries m.buckets ys) ≡ some (bucket_at m.buckets i).value
  unfolding lookup entries
  lookup-entries_some k [] e h = cc
  lookup-entries_some k (x ∷ ys) e h = elim (Bool-cases (x == i)) [
    | inl same ↦
        let at : x ≡ i = ground arith in rw at (ground (arith, same_key-here v key n i found k e))
    | inr apart ↦ lookup-entries_cons x ys apart ∙ lookup-entries_some k ys e (ground arith)
  ]

  lookup-entries_none :
      (ys : List ℕ)
      → (bucket_at m.buckets i).key ≡ none
      → lookup key n (entries m.buckets ys) ≡ none
  unfolding lookup entries
  lookup-entries_none [] e = refl
  lookup-entries_none (x ∷ ys) e = elim (Bool-cases (x == i)) [
    | inl same ↦ let at : x ≡ i = ground arith in rw at (ground (arith, lookup-entries_none ys e))
    | inr apart ↦ lookup-entries_cons x ys apart ∙ lookup-entries_none ys e
  ]

  pub lookup-entries :
      lookup key n (entries m.buckets xs)
      ≡ (if has_key (bucket_at m.buckets i) then some (bucket_at m.buckets i).value else none)
  lookup-entries = elim (Option-cases (bucket_at m.buckets i).key) [
    | inl e ↦ ground (arith, lookup-entries_none xs e)
    | inr (k, e) ↦ ground (arith, lookup-entries_some k xs e, v.listed i)
  ]

-- What `hashmap_get` answers for a value that was found, or not.
abbrev pub answer : Option ℕ → Option (Bool × ℕ)
answer none = some (false, 0)
answer (some v) = some (true, v)

-- The value that the callback is called with, if it is called.
abbrev pub called_value : Option (Option Bytes × ℕ × ℕ) → Option ℕ
called_value none = none
called_value (some call) = some call.2

pub stops-empty :
    (b : Bucket) (key : Bytes) (n h : ℕ) → stops key n h b ≡ true → has_key b ≡ false → b.value ≡ 0
unfolding stops
stops-empty b key n h stop e = ground arith

-- In a well-formed map `hashmap_get` returns. It finds a key exactly if the map has an entry with
-- the key's bytes, and gives that entry's value. If it finds none, the value that it writes is zero.
pub hashmap_get-lookup :
    {m : Hashmap} {es : List Entry}
    → Holds m es
    → (key : Bytes) (n : ℕ) → hashmap_get m key n ≡ answer (lookup key n es)
unfolding hashmap_get find_entry
hashmap_get-lookup {m} h key n =
    let (i, lt, found) = search_for-total h.is_map.table key n (room h.is_map) in
    let b = bucket_at m.buckets i in
    let stop =
      stops-empty b key n (hash_data key n) (search_for-stops h.is_map.table key n i found) in
    rw (found, ← h.holds, lookup-entries h.is_map.table key n i found) (ground arith)
