-- ===== src/Hashmap/Invariant.antt =====
-- When a hash map of hashmap/map.c is well formed, and what it then stands for.
use nfs_network_file_system.Prelude.{
  ℕ, ◌*◌, ◌%◌, ◌<◌, ◌≤◌, ◌≡◌, sym, true, false, Option, some, List, arith, length, take, has,
  IsNodup,
}
use nfs_network_file_system.Prelude.Bytes.{Bytes, bytes_eq_refl, eq_of_bytes_eq}
use nfs_network_file_system.Hashmap.{Bucket, Hashmap, bucket_at, empty_bucket, stops}
use nfs_network_file_system.Hashmap.Hash.{hash_data, hash_data_congr}
use nfs_network_file_system.Hashmap.Probe.{probe_loop}
use nfs_network_file_system.Hashmap.Probe.Search.{
  probe_loop-test, probe_loop-lt, probe_loop-total, probe_loop_mono,
}
use nfs_network_file_system.Hashmap.Dict.{Entry}
use nfs_network_file_system.Hashmap.Order.{
  Chain, last_of, used, count_used, count_tombs, entries, empty-exists,
}

-- The search for a key of `n` bytes among `bs`.
abbrev pub search_for : List Bucket → ℕ → Bytes → ℕ → Option ℕ
search_for bs cap key n =
    probe_loop (stops key n (hash_data key n)) bs cap empty_bucket cap (hash_data key n % cap)

-- The entry in bucket `i`, if there is one, has a key with its hash, and a search for it ends there.
pub record IsPlaced (bs : List Bucket) (cap i : ℕ) (k : Bytes) : Type 0 where
  pub within : (bucket_at bs i).ksize ≤ length k
  pub hashed : (bucket_at bs i).hash ≡ hash_data k (bucket_at bs i).ksize
  pub found : search_for bs cap k (bucket_at bs i).ksize ≡ some i

abbrev pub AllPlaced : List Bucket → ℕ → Type 0
AllPlaced bs cap = (i : ℕ) (k : Bytes) → (bucket_at bs i).key ≡ some k → IsPlaced bs cap i k

-- `xs` are the buckets in use, in the order in which they came into use.
pub record IsTable (m : Hashmap) (xs : List ℕ) : Type 0 where
  pub width : length m.buckets ≡ m.capacity
  pub roomy : 2 ≤ m.capacity
  pub chain : Chain m.buckets m.first xs
  pub last : m.last ≡ last_of xs
  pub listed : (i : ℕ) → has i xs ≡ used (bucket_at m.buckets i)
  pub nodup : IsNodup xs
  pub filled : count_used m.buckets ≡ length xs
  pub placed : AllPlaced m.buckets m.capacity

pub record IsMap (m : Hashmap) (xs : List ℕ) : Type 0 where
  pub table : IsTable m xs
  pub open table use *
  pub load : 4 * m.count ≤ 3 * m.capacity
  pub counted : length xs ≡ m.count
  pub tombs : count_tombs m.buckets xs ≡ m.tombstone_count

-- The map is well formed and holds the entries `es`, in this order.
pub record Holds (m : Hashmap) (es : List Entry) : Type 0 where
  pub order : List ℕ
  pub is_map : IsMap m order
  pub holds : entries m.buckets order ≡ es

-- A bucket with the key's bytes, size and hash stops the search.
pub stops-same :
    (b : Bucket) (k key : Bytes) (n h : ℕ)
    → b.key ≡ some k
    → stops key n h b ≡ true
    → (b.ksize ≡ n) × (b.hash ≡ h) × (take n k ≡ take n key)
unfolding stops
stops-same b k key n h e s = ground (arith, eq_of_bytes_eq (take n k) (take n key))

pub same-stops :
    (b : Bucket) (k key : Bytes) (n h : ℕ)
    → b.key ≡ some k
    → b.ksize ≡ n
    → b.hash ≡ h
    → take n k ≡ take n key
    → stops key n h b ≡ true
unfolding stops
same-stops b k key n h e size hash bytes = ground (arith, bytes_eq_refl (take n key))

stops_congr :
    (a b : Bytes) (n h : ℕ) (x : Bucket)
    → take n a ≡ take n b
    → stops a n h x ≡ true
    → stops b n h x ≡ true
unfolding stops
stops_congr a b n h x e s = ground arith

pub free-stops : (b : Bucket) (key : Bytes) (n h : ℕ) → used b ≡ false → stops key n h b ≡ true
unfolding stops
free-stops b key n h free = ground arith

module _ (bs : List Bucket) (cap : ℕ) where
  -- Keys with the same bytes lead to the same bucket.
  pub search_for_congr :
      (a b : Bytes) (n i : ℕ)
      → take n a ≡ take n b
      → search_for bs cap a n ≡ some i
      → search_for bs cap b n ≡ some i
  search_for_congr a b n i e h =
      let hashes = hash_data_congr a b n e in
      rw (← hashes) (
        probe_loop_mono (stops a n (hash_data a n)) (stops b n (hash_data a n)) bs bs cap
          empty_bucket cap (hash_data a n % cap) i
          (λ x. stops_congr b a n (hash_data a n) (bucket_at bs x) (sym e))
          (stops_congr a b n (hash_data a n) (bucket_at bs i) e (
            probe_loop-test (stops a n (hash_data a n)) bs cap empty_bucket cap
              (hash_data a n % cap) i h))
          h)

pub room : {m : Hashmap} {xs : List ℕ} → IsMap m xs → length xs < m.capacity
room v = omega (arith, v.roomy)

module _ {m : Hashmap} {xs : List ℕ} (v : IsTable m xs) where
  -- The search always ends, at a bucket of the array.
  pub search_for-total :
      (key : Bytes) (n : ℕ)
      → length xs < m.capacity
      → (i : ℕ) × (i < m.capacity) × (search_for m.buckets m.capacity key n ≡ some i)
  search_for-total key n room =
      let h = hash_data key n in
      let start : h % m.capacity < m.capacity = omega (arith, v.roomy) in
      let (j, lt, free) = empty-exists m.buckets (omega (arith, v.width, v.filled)) in
      let (i, e) =
        probe_loop-total (stops key n h) m.buckets m.capacity empty_bucket (h % m.capacity) j start
          (omega (arith, v.width)) (free-stops (bucket_at m.buckets j) key n h free) in
      (
        i,
        probe_loop-lt (stops key n h) m.buckets m.capacity empty_bucket m.capacity (h % m.capacity)
            i e start,
        e,
      )

  module _ (key : Bytes) (n i : ℕ) (found : search_for m.buckets m.capacity key n ≡ some i) where
    pub search_for-stops : stops key n (hash_data key n) (bucket_at m.buckets i) ≡ true
    search_for-stops =
        probe_loop-test (stops key n (hash_data key n)) m.buckets m.capacity empty_bucket m.capacity
          (hash_data key n % m.capacity) i found

    -- No other bucket has an entry with this key.
    pub search_for_unique :
        (x : ℕ) (k : Bytes)
        → (bucket_at m.buckets x).key ≡ some k
        → (bucket_at m.buckets x).ksize ≡ n
        → take n k ≡ take n key
        → x ≡ i
    search_for_unique x k e size bytes =
        let p = v.placed x k e in
        let there : search_for m.buckets m.capacity k n ≡ some x = rw size at p.found in
        let here = search_for_congr m.buckets m.capacity k key n x bytes there in cc
