-- ===== src/Hashmap/Remove.antt =====
-- `hashmap_remove`, `hashmap_remove_free` and `hashmap_size` of hashmap/map.c.
use nfs_network_file_system.Prelude.{
  ℕ, ◌+◌, ◌<◌, ◌≡◌, refl, ◌∙◌, sym, ap, true, Option, none, some, List, [], ◌∷◌, arith, length,
  Option-cases, inl, inr,
}
use nfs_network_file_system.Prelude.Bytes.{Bytes}
use nfs_network_file_system.Hashmap.{
  Bucket, Hashmap, bucket_at, has_key, stops, find_entry, bury, tombstone, hashmap_remove,
  hashmap_remove_free, hashmap_size,
}
use nfs_network_file_system.Hashmap.Dict.{Entry, lookup, erase}
use nfs_network_file_system.Hashmap.Get.{lookup-entries, called_value}
use nfs_network_file_system.Hashmap.Invariant.{search_for-total, IsTable, IsMap, Holds, room}
use nfs_network_file_system.Hashmap.Resize.{length-entries}
use nfs_network_file_system.Hashmap.Replace.{
  IsRewrite, rewrite-IsTable, entries-erase, count_tombs-inside,
}

abbrev pub buried : Bucket → Bucket
buried b = record b { key = none; value = tombstone }

pub bury-IsRewrite :
    {m : Hashmap} {xs : List ℕ}
    → IsTable m xs
    → (i : ℕ) → i < m.capacity
    → has_key (bucket_at m.buckets i) ≡ true
    → IsRewrite m xs i (buried (bucket_at m.buckets i))
unfolding stops
bury-IsRewrite {m} t i lt taken = record {
  table = t;
  inside = lt;
  taken = taken;
  filled = refl;
  linked = refl;
  kept = λ k e. absurd (ground arith);
  weaker = λ key n h s. absurd (ground arith);
}

pub bury-IsMap :
    {m : Hashmap} {xs : List ℕ}
    → IsMap m xs
    → (i : ℕ) → i < m.capacity
    → has_key (bucket_at m.buckets i) ≡ true
    → IsMap (bury m i) xs
unfolding bury
bury-IsMap {m} {xs} v i lt taken =
    let rewrite = bury-IsRewrite v.table i lt taken in
    record {
      table = rewrite-IsTable rewrite m.count (m.tombstone_count + 1);
      load = v.load;
      counted = v.counted;
      tombs =
          omega
            (arith, count_tombs-inside rewrite xs (ground (arith, v.listed i)) v.nodup, v.tombs);
    }

erase-absent :
    (key : Bytes) (n : ℕ) (es : List Entry) → lookup key n es ≡ none → erase key n es ≡ es
unfolding lookup erase
erase-absent key n [] h = refl
erase-absent key n (e ∷ es) h = ground (arith, erase-absent key n es)

module _ {m : Hashmap} {es : List Entry} (h : Holds m es) (key : Bytes) (n : ℕ) where
  -- On a well-formed map `hashmap_remove` returns, and the map then holds the same entries in their
  -- order, less the one with the key if there was one.
  pub hashmap_remove-erase :
      (m' : Hashmap) × (hashmap_remove m key n ≡ some m') × Holds m' (erase key n es)
  unfolding hashmap_remove find_entry bury
  hashmap_remove-erase =
      let v = h.is_map in
      let xs = h.order in
      let (i, lt, found) = search_for-total v.table key n (room v) in
      let is = lookup-entries v.table key n i found in
      elim (Option-cases (bucket_at m.buckets i).key) [
        | inl e ↦
            let gone : lookup key n es ≡ none = rw (← h.holds) (is ∙ ground arith) in
            (m, ground (arith, found), rw (erase-absent key n es gone) h)
        | inr (k, e) ↦
            let taken : has_key (bucket_at m.buckets i) ≡ true = ground arith in
            (
              bury m i,
              ground (arith, found),
              record {
                order = xs;
                is_map = bury-IsMap v i lt taken;
                holds =
                    entries-erase (bury-IsRewrite v.table i lt taken) key n found k xs e refl
                      (ground (arith, v.listed i)) v.nodup
                    ∙ ap (erase key n) h.holds;
              },
            )
      ]

-- On a well-formed map `hashmap_remove_free` returns, calls back just if the key is there, with the
-- value that it has, and the map then holds the same entries in their order, less the one with the
-- key.
hashmap_remove_free-erase :
    {m : Hashmap} {es : List Entry}
    → Holds m es
    → (key : Bytes) (n : ℕ)
    → (call : Option (Option Bytes × ℕ × ℕ)) × (m' : Hashmap) × (hashmap_remove_free m key n
        ≡ some (call, m'))
      × (called_value call ≡ lookup key n es)
      × Holds m' (erase key n es)
unfolding hashmap_remove_free hashmap_remove find_entry
hashmap_remove_free-erase {m} h key n =
    let v = h.is_map in
    let (i, lt, found) = search_for-total v.table key n (room v) in
    let is = lookup-entries v.table key n i found in
    let (m', run, h') = hashmap_remove-erase h key n in
    let b = bucket_at m.buckets i in
    elim (Option-cases b.key) [
      | inl e ↦ (none, m', ground (arith, found, run), rw (← h.holds) (sym (is ∙ ground arith)), h')
      | inr (k, e) ↦ (
        some (b.key, b.ksize, b.value),
        m',
        ground (arith, found, run),
        rw (← h.holds) (sym (is ∙ ground arith)),
        h',
      )
    ]

-- On a well-formed map `hashmap_size` is the number of entries.
pub hashmap_size-length : {m : Hashmap} {es : List Entry} → Holds m es → hashmap_size m ≡ length es
unfolding hashmap_size
hashmap_size-length {m} h =
    omega
      (arith, length-entries m.buckets h.order, h.is_map.tombs, h.is_map.counted, ap length h.holds)
