-- ===== src/Hashmap/Set.antt =====
-- The insertions of hashmap/map.c: `hashmap_create`, `hashmap_set` and `hashmap_get_set`, against the entries that the map stands for.
use nfs_network_file_system.Prelude.{
  ℕ, ◌+◌, ◌*◌, ◌<◌, ◌≤◌, ◌≡◌, refl, sym, ◌∙◌, ap, true, false, none, some, List, [], ◌∷◌, ◌++◌,
  arith, length, set, has, ltb, if◌then◌else◌, Bool-cases, Option-cases, inl, inr, get_or-replicate,
  length-append,
}
use nfs_network_file_system.Prelude.Bytes.{Bytes}
use nfs_network_file_system.Hashmap.{
  Hashmap, bucket_at, has_key, empty_bucket, default_capacity, stops, find_entry, reserve,
  insert_entry, append_entry, hashmap_create, hashmap_set, hashmap_get_set,
}
use nfs_network_file_system.Hashmap.Hash.{hash_data}
use nfs_network_file_system.Hashmap.Dict.{Entry, lookup, put, put-absent}
use nfs_network_file_system.Hashmap.Get.{entry, stops-empty, lookup-entries}
use nfs_network_file_system.Hashmap.Order.{count_tombs, entries}
use nfs_network_file_system.Hashmap.Invariant.{
  search_for, search_for-total, search_for-stops, IsTable, Holds, room,
}
use nfs_network_file_system.Hashmap.Append.{IsNew, append_entry-IsTable, append_entry-entries}
use nfs_network_file_system.Hashmap.Resize.{
  count_used-replicate, hashmap_resize-Holds, length-entries,
}
use nfs_network_file_system.Hashmap.Replace.{
  IsRewrite, rewrite-IsTable, entries-put, count_tombs-inside,
}

-- A new map is well formed and has no entries.
pub hashmap_create-Holds : Holds hashmap_create []
unfolding hashmap_create entries count_tombs
hashmap_create-Holds = record {
  order = [];
  is_map = record {
    table = record {
      width = refl;
      roomy = omega arith;
      chain = refl;
      last = refl;
      listed = λ i. ground (arith, get_or-replicate default_capacity i empty_bucket);
      nodup = tt;
      filled = count_used-replicate default_capacity;
      placed = λ i k e. absurd (ground (arith, get_or-replicate default_capacity i empty_bucket));
    };
    load = omega arith;
    counted = refl;
    tombs = refl;
  };
  holds = refl;
}

-- There is room for one more entry under the bound on the load.
reserve-Holds :
    {m : Hashmap} {es : List Entry}
    → Holds m es
    → (m' : Hashmap) × (reserve m ≡ some m') × Holds m' es × (4 * (m'.count + 1) ≤ 3 * m'.capacity)
unfolding reserve
reserve-Holds {m} h = elim (Bool-cases (ltb (3 * m.capacity) (4 * (m.count + 1)))) [
  | inr fits ↦ (m, rw fits, h, ground arith)
  | inl over ↦
      let (m', run, h', cap, tombs, count) =
        hashmap_resize-Holds h (ground (arith, h.is_map.roomy)) in
      (m', rw over run, h', omega (arith, h.is_map.load, h.is_map.roomy))
]

recount :
    {m : Hashmap} {xs : List ℕ}
    → IsTable m xs
    → (count tombs : ℕ) → IsTable (record m { count = count; tombstone_count = tombs }) xs
recount t count tombs = record {
  width = t.width;
  roomy = t.roomy;
  chain = t.chain;
  last = t.last;
  listed = t.listed;
  nodup = t.nodup;
  filled = t.filled;
  placed = t.placed;
}

assign-IsRewrite :
    {m : Hashmap} {xs : List ℕ}
    → IsTable m xs
    → (i v : ℕ) → i < m.capacity
    → (k : Bytes) → (bucket_at m.buckets i).key ≡ some k
    → IsRewrite m xs i (record (bucket_at m.buckets i) { value = v })
unfolding stops
assign-IsRewrite {m} t i v lt k e = record {
  table = t;
  inside = lt;
  taken = ground arith;
  filled = ground arith;
  linked = refl;
  kept = λ k' e'. record {
    key = k';
    keyed = e';
    size = refl;
    hash = refl;
    bytes = refl;
    within = (t.placed i k' e').within;
  };
  weaker = λ key n h s. ground arith;
}

-- What a search for `key` found in a map with room for one more.
pub record Found (m : Hashmap) (es : List Entry) (key : Bytes) (n i : ℕ) : Type 0 where
  pub held : Holds m es
  pub spare : 4 * (m.count + 1) ≤ 3 * m.capacity
  pub within : n ≤ length key
  pub inside : i < m.capacity
  pub found : search_for m.buckets m.capacity key n ≡ some i

module _ {m : Hashmap} {es : List Entry} {key : Bytes} {n i : ℕ} (f : Found m es key n i) where
  pub lookup-found :
      lookup key n es
      ≡ (if has_key (bucket_at m.buckets i) then some (bucket_at m.buckets i).value else none)
  lookup-found = rw (← f.held.holds) (lookup-entries f.held.is_map.table key n i f.found)

  pub insert-Holds :
      (v : ℕ)
      → has_key (bucket_at m.buckets i) ≡ false
      → Holds (insert_entry m i key n (hash_data key n) v) (put key n v es)
  unfolding insert_entry append_entry
  insert-Holds v free =
      let is = f.held.is_map in
      let xs = f.held.order in
      let m' = record m { count = m.count + 1 } in
      let b = record (bucket_at m.buckets i) {
        key = some key;
        ksize = n;
        hash = hash_data key n;
        value = v;
      } in
      let stop = search_for-stops is.table key n i f.found in
      let blank = stops-empty (bucket_at m.buckets i) key n (hash_data key n) stop free in
      let new : IsNew m' xs i b key = record {
        table = recount is.table (m.count + 1) m.tombstone_count;
        inside = f.inside;
        free = ground arith;
        keyed = refl;
        within = f.within;
        hashed = refl;
        found = f.found;
      } in
      let grown = append_entry-entries new in
      let sizes : length (entries (append_entry m' i b).buckets (xs ++ i ∷ []))
          ≡ length (entries m.buckets xs) + 1 =
        ap length grown ∙ length-append (entries m.buckets xs) (entry key n v ∷ []) in
      record {
        order = xs ++ i ∷ [];
        is_map = record {
          table = append_entry-IsTable new;
          load = f.spare;
          counted = omega (arith, is.counted, length-append xs (i ∷ []));
          tombs = omega (
            arith,
            is.tombs,
            length-entries (append_entry m' i b).buckets (xs ++ i ∷ []),
            length-entries m.buckets xs,
            length-append xs (i ∷ []),
          );
        };
        holds = grown ∙ rw f.held.holds (sym (put-absent key n v es (lookup-found ∙ rw free)));
      }

  assign-Holds :
      (v : ℕ)
      → has_key (bucket_at m.buckets i) ≡ true
      → Holds
          (record m { buckets = set m.buckets i (record (bucket_at m.buckets i) { value = v }) })
          (put key n v es)
  assign-Holds v taken = elim (Option-cases (bucket_at m.buckets i).key) [
    | inl none_there ↦ absurd (ground arith)
    | inr (k, e) ↦
        let is = f.held.is_map in
        let xs = f.held.order in
        let b = record (bucket_at m.buckets i) { value = v } in
        let rewrite = assign-IsRewrite is.table i v f.inside k e in
        let member : has i xs ≡ true = ground (arith, is.listed i) in
        record {
          order = xs;
          is_map = record {
            table = rewrite-IsTable rewrite m.count m.tombstone_count;
            load = is.load;
            counted = is.counted;
            tombs = ground (arith, count_tombs-inside rewrite xs member is.nodup, is.tombs);
          };
          holds =
              entries-put rewrite key n f.found k v xs e refl member is.nodup
              ∙ ap (put key n v) f.held.holds;
        }
  ]

pub search_reserved :
    {m : Hashmap} {es : List Entry}
    → Holds m es
    → (key : Bytes) (n : ℕ) → n ≤ length key
    → (m' : Hashmap) × (reserve m ≡ some m') × ((i : ℕ) × Found m' es key n i)
search_reserved h key n within =
    let (m', run, h', spare) = reserve-Holds h in
    let (i, lt, found) = search_for-total h'.is_map.table key n (room h'.is_map) in
    (m', run, (i, record { held = h'; spare = spare; within = within; inside = lt; found = found }))

-- On a well-formed map, and for a size that is within the key's memory, `hashmap_set` returns, and
-- the map then holds the same entries with the value under the key: in place if the key was there,
-- at the end otherwise.
pub hashmap_set-put :
    {m : Hashmap} {es : List Entry}
    → Holds m es
    → (key : Bytes) (n v : ℕ) → n ≤ length key
    → (m' : Hashmap) × (hashmap_set m key n v ≡ some m') × Holds m' (put key n v es)
unfolding hashmap_set find_entry
hashmap_set-put h key n v within =
    let (m', run, f) = search_reserved h key n within in
    let i = f.0 in
    elim (Bool-cases (has_key (bucket_at m'.buckets i))) [
      | inr free ↦ (
        insert_entry m' i key n (hash_data key n) v,
        ground (arith, run, f.1.found),
        insert-Holds f.1 v free,
      )
      | inl taken ↦ (_, ground (arith, run, f.1.found), assign-Holds f.1 v taken)
    ]

-- On a well-formed map, and for a size that is within the key's memory, `hashmap_get_set` returns.
-- If the key is there, it says so, hands out the key's value and changes no entry; otherwise it says
-- that it is not, and adds the entry with the value that it was given.
pub hashmap_get_set-lookup :
    {m : Hashmap} {es : List Entry}
    → Holds m es
    → (key : Bytes) (n v : ℕ) → n ≤ length key
    → (m' : Hashmap) × (hashmap_get_set m key n v
        ≡ some (elim (lookup key n es) [ none ↦ (false, v, m') | some old ↦ (true, old, m') ]))
      × Holds m' (elim (lookup key n es) [ none ↦ put key n v es | some old ↦ es ])
unfolding hashmap_get_set find_entry
hashmap_get_set-lookup h key n v within =
    let (m', run, f) = search_reserved h key n within in
    let i = f.0 in
    let is = lookup-found f.1 in
    elim (Bool-cases (has_key (bucket_at m'.buckets i))) [
      | inr free ↦
          let gone : lookup key n _ ≡ none = is ∙ rw free in
          (
            insert_entry m' i key n (hash_data key n) v,
            rw gone (ground (arith, run, f.1.found)),
            rw gone (insert-Holds f.1 v free),
          )
      | inl taken ↦
          let there : lookup key n _ ≡ some (bucket_at m'.buckets i).value = is ∙ rw taken in
          (m', rw there (ground (arith, run, f.1.found)), rw there f.1.held)
    ]
