-- ===== src/Hashmap.antt =====
-- hashmap/map.c: the open-addressing hash map with linear probing, tombstones and an intrusive
-- list of its entries in the order in which they were added.
pub mod Dict
pub mod Hash
pub mod Probe
pub mod Order
pub mod Invariant
pub mod Get
pub mod Append
pub mod Resize
pub mod Replace
pub mod Set
pub mod Overwrite
pub mod Remove
pub mod Iterate
mod Tests
use nfs_network_file_system.Prelude.{
  ℕ, zero, suc, ◌+◌, ◌-◌, ◌*◌, ◌%◌, Bool, true, false, ◌&&◌, not, Option, none, some, List, [], ◌∷◌,
  ◌==◌, ltb, if◌then◌else◌, ◌>>=◌, length, get_or, set, take, replicate,
}
use nfs_network_file_system.Prelude.Bytes.{Bytes, bytes_eq}
use nfs_network_file_system.Hashmap.Hash.{hash_data}
use nfs_network_file_system.Hashmap.Probe.{probe_loop}

-- A pointer to a bucket is its index in the array, and `none` is NULL. A key is the memory that
-- its pointer leads to: `ksize` bytes of it are the key, and those behind are kept.
pub record Bucket : Type 0 where
  pub next : Option ℕ
  pub key : Option Bytes
  pub ksize : ℕ
  pub hash : ℕ
  pub value : ℕ

-- The bucket whose `next` the next insertion sets: the imaginary one in front of `first`, or one
-- of the array.
pub data Last : Type 0 where
  front : Last
  at : ℕ → Last

pub record Hashmap : Type 0 where
  pub buckets : List Bucket
  pub capacity : ℕ
  pub count : ℕ
  pub tombstone_count : ℕ
  pub first : Option ℕ
  pub last : Last

abbrev pub empty_bucket : Bucket
empty_bucket = record { next = none; key = none; ksize = 0; hash = 0; value = 0 }

-- The value that marks a removed entry.
abbrev pub tombstone : ℕ
tombstone = 0xDEAD

abbrev pub default_capacity : ℕ
default_capacity = 20

-- `m->buckets[i]`. Every index is taken modulo the capacity, so none is out of range.
abbrev pub bucket_at : List Bucket → ℕ → Bucket
bucket_at bs i = get_or bs i empty_bucket

abbrev pub has_key : Bucket → Bool
has_key b = elim b.key [ none ↦ false | some _ ↦ true ]

unfoldable pub hashmap_create : Hashmap
hashmap_create = record {
  buckets = replicate default_capacity empty_bucket;
  capacity = default_capacity;
  count = 0;
  tombstone_count = 0;
  first = none;
  last = front;
}

-- `memcmp(a, b, n) == 0`
abbrev pub memory_eq : Bytes → Bytes → ℕ → Bool
memory_eq a b n = bytes_eq (take n a) (take n b)

-- The test at which the loop of `find_entry` stops: an empty bucket that is no tombstone, or a
-- bucket that holds the key.
unfoldable pub stops : Bytes → ℕ → ℕ → Bucket → Bool
stops key ksize hash b = elim b.key [
  | none ↦ b.value == 0
  | some k ↦ (b.ksize == ksize) && ((b.hash == hash) && memory_eq k key ksize)
]

-- `none` says that the loop does not end: it has seen every bucket and begins again.
unfoldable pub find_entry : Hashmap → Bytes → ℕ → ℕ → Option ℕ
find_entry m key ksize hash =
    probe_loop (stops key ksize hash) m.buckets m.capacity empty_bucket m.capacity
      (hash % m.capacity)

-- The first bucket of the new array with no key.
unfoldable pub resize_entry : Hashmap → Bucket → Option ℕ
resize_entry m old =
    probe_loop (λ b. not (has_key b)) m.buckets m.capacity empty_bucket m.capacity
      (old.hash % m.capacity)

-- `m->last->next = entry`, where it writes into the array, and the entry itself.
abbrev pub link : Last → List Bucket → ℕ → Bucket → List Bucket
link front bs i b = set bs i b
link (at l) bs i b = set (set bs l (record (bucket_at bs l) { next = some i })) i b

-- `m->last->next = entry`, where it writes `m->first`.
abbrev pub link_first : Last → Option ℕ → ℕ → Option ℕ
link_first front p i = some i
link_first (at l) p i = p

-- `m->last->next = entry; m->last = entry; entry->next = NULL` for the entry that `b` is stored in.
unfoldable pub append_entry : Hashmap → ℕ → Bucket → Hashmap
append_entry m i b = record m {
  buckets = link m.last m.buckets i (record b { next = none });
  first = link_first m.last m.first i;
  last = at i;
}

-- The loop of `hashmap_resize` over the old buckets from `next` on. That pointer into the old array
-- stands in `m->last->next` there; here `m->last->next` is NULL until the next entry is linked.
unfoldable pub resize_loop : List Bucket → ℕ → Option ℕ → Hashmap → Option Hashmap
resize_loop old zero next m = none
resize_loop old (suc fuel) next m = elim next [
  | none ↦ some m
  | some i ↦ elim (has_key (bucket_at old i)) [
    | false ↦ resize_loop old fuel (bucket_at old i).next m
    | true ↦ elim (resize_entry m (bucket_at old i)) [
      | none ↦ none
      | some j ↦ resize_loop old fuel (bucket_at old i).next (append_entry m j (bucket_at old i))
    ]
  ]
]

-- An empty map is not to be resized: the first round would read through NULL.
unfoldable pub hashmap_resize : Hashmap → Option Hashmap
hashmap_resize m = elim m.first [
  | none ↦ none
  | some i ↦ resize_loop m.buckets (suc (suc m.count)) m.first (record {
    buckets = replicate (m.capacity * 2) empty_bucket;
    capacity = m.capacity * 2;
    count = m.count - m.tombstone_count;
    tombstone_count = 0;
    first = none;
    last = front;
  })
]

-- `m->count + 1 > 0.75f * m->capacity`, for a map small enough that a float gives both sides exactly, as it
-- does below 2 ^ 24.
unfoldable pub reserve : Hashmap → Option Hashmap
reserve m = if ltb (3 * m.capacity) (4 * (m.count + 1)) then hashmap_resize m else some m

-- The new entry, `++m->count` and the key's fields.
unfoldable pub insert_entry : Hashmap → ℕ → Bytes → ℕ → ℕ → ℕ → Hashmap
insert_entry m i key ksize hash val =
    let m' = record m { count = m.count + 1 } in
    append_entry m' i
      (record (bucket_at m.buckets i) { key = some key; ksize = ksize; hash = hash; value = val })

unfoldable pub hashmap_set : Hashmap → Bytes → ℕ → ℕ → Option Hashmap
hashmap_set m key ksize val = do
  m' ← reserve m
  let hash = hash_data key ksize
  i ← find_entry m' key ksize hash
  elim (has_key (bucket_at m'.buckets i)) [
    | false ↦ some (insert_entry m' i key ksize hash val)
    | true ↦
        some (record m' {
          buckets = set m'.buckets i (record (bucket_at m'.buckets i) { value = val });
        })
  ]

-- The result, and the value of `*out_in` after the call.
unfoldable pub hashmap_get_set : Hashmap → Bytes → ℕ → ℕ → Option (Bool × ℕ × Hashmap)
hashmap_get_set m key ksize out_in = do
  m' ← reserve m
  let hash = hash_data key ksize
  i ← find_entry m' key ksize hash
  elim (has_key (bucket_at m'.buckets i)) [
    | false ↦ some (false, out_in, insert_entry m' i key ksize hash out_in)
    | true ↦ some (true, (bucket_at m'.buckets i).value, m')
  ]

-- The callback's call as a value: the old key, the size asked for and the old value.
unfoldable pub hashmap_set_free :
    Hashmap → Bytes → ℕ → ℕ → Option (Option (Option Bytes × ℕ × ℕ) × Hashmap)
hashmap_set_free m key ksize val = do
  m' ← reserve m
  let hash = hash_data key ksize
  i ← find_entry m' key ksize hash
  let b = bucket_at m'.buckets i
  elim (has_key b) [
    | false ↦ some (none, insert_entry m' i key ksize hash val)
    | true ↦ some (
      some (b.key, ksize, b.value),
      record m' { buckets = set m'.buckets i (record b { key = some key; value = val }) },
    )
  ]

-- The result, and the value of `*out_val`.
unfoldable pub hashmap_get : Hashmap → Bytes → ℕ → Option (Bool × ℕ)
hashmap_get m key ksize = do
  i ← find_entry m key ksize (hash_data key ksize)
  some (has_key (bucket_at m.buckets i), (bucket_at m.buckets i).value)

-- `entry->key = NULL; entry->value = 0xDEAD; ++m->tombstone_count`
unfoldable pub bury : Hashmap → ℕ → Hashmap
bury m i = record m {
  buckets = set m.buckets i (record (bucket_at m.buckets i) { key = none; value = tombstone });
  tombstone_count = m.tombstone_count + 1;
}

unfoldable pub hashmap_remove : Hashmap → Bytes → ℕ → Option Hashmap
hashmap_remove m key ksize = do
  i ← find_entry m key ksize (hash_data key ksize)
  some (if has_key (bucket_at m.buckets i) then bury m i else m)

-- With the callback's call: the stored key, its size and the value.
unfoldable pub hashmap_remove_free :
    Hashmap → Bytes → ℕ → Option (Option (Option Bytes × ℕ × ℕ) × Hashmap)
hashmap_remove_free m key ksize = do
  i ← find_entry m key ksize (hash_data key ksize)
  let b = bucket_at m.buckets i
  some (if has_key b then (some (b.key, b.ksize, b.value), bury m i) else (none, m))

unfoldable pub hashmap_size : Hashmap → ℕ
hashmap_size m = m.count - m.tombstone_count

-- The loop of `hashmap_iterate` from the bucket `current` on. The callback reads and may change the
-- map and the data that its user pointer leads to; the next pointer is read after the call.
module _ {S : Type 0} (c : Bytes → ℕ → ℕ → Hashmap → S → Option (Hashmap × S)) where
  unfoldable pub iterate_loop : ℕ → Option ℕ → Hashmap → S → Option (Hashmap × S)
  iterate_loop zero current m s = none
  iterate_loop (suc fuel) current m s = elim current [
    | none ↦ some (m, s)
    | some i ↦ elim (bucket_at m.buckets i).key [
      | none ↦ iterate_loop fuel (bucket_at m.buckets i).next m s
      | some key ↦ elim (c key (bucket_at m.buckets i).ksize (bucket_at m.buckets i).value m s) [
        | none ↦ none
        | some (m', s') ↦ iterate_loop fuel (bucket_at m'.buckets i).next m' s'
      ]
    ]
  ]

  unfoldable pub hashmap_iterate : Hashmap → S → Option (Hashmap × S)
  unfolding iterate_loop
  hashmap_iterate m s = iterate_loop (suc m.count) m.first m s
