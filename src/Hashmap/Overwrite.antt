-- ===== src/Hashmap/Overwrite.antt =====
-- `hashmap_set_free` of hashmap/map.c, against the entries that the map stands for.
use nfs_network_file_system.Prelude.{
  ℕ, ◌≤◌, ◌<◌, ◌≡◌, refl, sym, ◌∙◌, ap, true, Option, none, some, List, arith, length, set, has,
  take, Bool-cases, Option-cases, inl, inr,
}
use nfs_network_file_system.Prelude.Bytes.{Bytes}
use nfs_network_file_system.Hashmap.{
  Bucket, Hashmap, bucket_at, has_key, stops, find_entry, insert_entry, hashmap_set_free,
}
use nfs_network_file_system.Hashmap.Hash.{hash_data}
use nfs_network_file_system.Hashmap.Dict.{Entry, lookup, overwrite, put-overwrite}
use nfs_network_file_system.Hashmap.Get.{called_value}
use nfs_network_file_system.Hashmap.Invariant.{
  search_for-stops, stops-same, same-stops, IsTable, Holds,
}
use nfs_network_file_system.Hashmap.Replace.{
  IsRewrite, rewrite-IsTable, entries-overwrite, count_tombs-inside,
}
use nfs_network_file_system.Hashmap.Set.{Found, lookup-found, insert-Holds, search_reserved}

-- A bucket with another memory of its key, and another value.
abbrev rekeyed : Bucket → Bytes → ℕ → Bucket
rekeyed b key v = record b { key = some key; value = v }

rekeyed-stops :
    (b : Bucket) (k key key' : Bytes) (n v n' h : ℕ)
    → b.key ≡ some k
    → b.ksize ≡ n
    → take n k ≡ take n key
    → stops key' n' h (rekeyed b key v) ≡ true
    → stops key' n' h b ≡ true
rekeyed-stops b k key key' n v n' h e size bytes s =
    let (size', hash, bytes') = stops-same (rekeyed b key v) key key' n' h refl s in
    let same : n' ≡ n = sym size' ∙ size in
    same-stops b k key' n' h e size' hash (rw same bytes ∙ bytes')

rekeyed-IsRewrite :
    {m : Hashmap} {xs : List ℕ}
    → IsTable m xs
    → (i n v : ℕ) (k key : Bytes) → i < m.capacity
    → (bucket_at m.buckets i).key ≡ some k
    → (bucket_at m.buckets i).ksize ≡ n
    → take n k ≡ take n key
    → n ≤ length key
    → IsRewrite m xs i (rekeyed (bucket_at m.buckets i) key v)
rekeyed-IsRewrite {m} t i n v k key lt e size bytes within = record {
  table = t;
  inside = lt;
  taken = ground arith;
  filled = ground arith;
  linked = refl;
  kept = λ k' e'.
      let is : key ≡ k' = cc in
      record {
        key = k;
        keyed = e;
        size = refl;
        hash = refl;
        bytes = rw (size, ← is) bytes;
        within = rw (size, ← is) within;
      };
  weaker = λ key' n' h s. rekeyed-stops (bucket_at m.buckets i) k key key' n v n' h e size bytes s;
}

module _ {m : Hashmap} {es : List Entry} {key : Bytes} {n i : ℕ} (f : Found m es key n i) where
  overwrite-Holds :
      (v : ℕ)
      → has_key (bucket_at m.buckets i) ≡ true
      → Holds
          (record m { buckets = set m.buckets i (rekeyed (bucket_at m.buckets i) key v) })
          (overwrite key n v es)
  overwrite-Holds v taken = elim (Option-cases (bucket_at m.buckets i).key) [
    | inl none_there ↦ absurd (ground arith)
    | inr (k, e) ↦
        let is = f.held.is_map in
        let xs = f.held.order in
        let (size, hash, bytes) =
          stops-same (bucket_at m.buckets i) k key n (hash_data key n) e
            (search_for-stops is.table key n i f.found) in
        let rewrite = rekeyed-IsRewrite is.table i n v k key f.inside e size bytes f.within in
        let member : has i xs ≡ true = ground (arith, is.listed i) in
        record {
          order = xs;
          is_map = record {
            table = rewrite-IsTable rewrite m.count m.tombstone_count;
            load = is.load;
            counted = is.counted;
            tombs = ground (arith, count_tombs-inside rewrite xs member is.nodup, is.tombs);
          };
          holds =
              entries-overwrite rewrite key n f.found k v xs e refl member is.nodup
              ∙ ap (overwrite key n v) f.held.holds;
        }
  ]

-- On a well-formed map, and for a size that is within the key's memory, `hashmap_set_free` returns. It
-- calls back just if the key is there, with the value that it had, and the map then holds the same
-- entries with the value and the memory of the new key under the key: in place if the key was there, at
-- the end otherwise.
pub hashmap_set_free-overwrite :
    {m : Hashmap} {es : List Entry}
    → Holds m es
    → (key : Bytes) (n v : ℕ) → n ≤ length key
    → (call : Option (Option Bytes × ℕ × ℕ)) × (m' : Hashmap) × (hashmap_set_free m key n v
        ≡ some (call, m'))
      × (called_value call ≡ lookup key n es)
      × Holds m' (overwrite key n v es)
unfolding hashmap_set_free find_entry
hashmap_set_free-overwrite {m} {es} h key n v within =
    let (m', run, f) = search_reserved h key n within in
    let i = f.0 in
    let b = bucket_at m'.buckets i in
    let is = lookup-found f.1 in
    elim (Bool-cases (has_key b)) [
      | inr free ↦
          let gone : lookup key n es ≡ none = is ∙ rw free refl in
          (
            none,
            insert_entry m' i key n (hash_data key n) v,
            ground (arith, run, f.1.found),
            sym gone,
            rw (← put-overwrite key n v es gone) (insert-Holds f.1 v free),
          )
      | inl taken ↦
          let there : lookup key n es ≡ some b.value = is ∙ rw taken refl in
          (
            some (b.key, n, b.value),
            _,
            ground (arith, run, f.1.found),
            sym there,
            overwrite-Holds f.1 v taken,
          )
    ]
