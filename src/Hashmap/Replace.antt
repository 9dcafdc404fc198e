-- ===== src/Hashmap/Replace.antt =====
-- The writes of hashmap/map.c into a bucket that is in use: a new value, and a tombstone.
use nfs_network_file_system.Prelude.{
  ℕ, ◌+◌, ◌%◌, ◌<◌, ◌≤◌, ◌≡◌, ap, subst, length, take, refl, sym, ◌∙◌, true, false, not, none, some,
  List, [], ◌∷◌, arith, set, has, if◌then◌else◌, ◌==◌, Bool-cases, Option-cases, inl, inr, IsNodup,
  get_or-set, length-set,
}
use nfs_network_file_system.Prelude.Bytes.{Bytes}
use nfs_network_file_system.Hashmap.{Bucket, Hashmap, bucket_at, has_key, empty_bucket, stops}
use nfs_network_file_system.Hashmap.Hash.{hash_data, hash_data_congr}
use nfs_network_file_system.Hashmap.Probe.Search.{probe_loop_mono}
use nfs_network_file_system.Hashmap.Dict.{put, erase, overwrite}
use nfs_network_file_system.Hashmap.Get.{same_key-here, same_key-elsewhere}
use nfs_network_file_system.Hashmap.Order.{
  Chain-congr, used, count_used-set, count_tombs, entries, to_nat,
}
use nfs_network_file_system.Hashmap.Invariant.{
  search_for, search_for_congr, same-stops, IsTable, IsPlaced,
}
use nfs_network_file_system.Hashmap.Append.{entries_congr}

-- The bucket `old` has a key with the bytes of `k`, and the size and the hash of `b`.
pub record IsSame (old b : Bucket) (k : Bytes) : Type 0 where
  pub key : Bytes
  pub keyed : old.key ≡ some key
  pub size : old.ksize ≡ b.ksize
  pub hash : old.hash ≡ b.hash
  pub bytes : take b.ksize key ≡ take b.ksize k
  pub within : b.ksize ≤ length k

-- Bucket `i`, in which the search for a key ends, holds an entry; `b` is written over it: it has the
-- same link and, if it has a key, a key with the same bytes, size and hash.
pub record IsRewrite (m : Hashmap) (xs : List ℕ) (i : ℕ) (b : Bucket) : Type 0 where
  pub table : IsTable m xs
  pub inside : i < m.capacity
  pub taken : has_key (bucket_at m.buckets i) ≡ true
  pub filled : used b ≡ true
  pub linked : b.next ≡ (bucket_at m.buckets i).next
  pub kept : (k : Bytes) → b.key ≡ some k → IsSame (bucket_at m.buckets i) b k
  pub weaker :
      (key : Bytes) (n h : ℕ)
      → stops key n h b ≡ true
      → stops key n h (bucket_at m.buckets i) ≡ true

module _ {m : Hashmap} {xs : List ℕ} {i : ℕ} {b : Bucket} (rewrite : IsRewrite m xs i b) where
  abbrev pub after : List Bucket
  after = set m.buckets i b

  pub at_new : (y : ℕ) → bucket_at after y ≡ (if i == y then b else bucket_at m.buckets y)
  at_new y =
      get_or-set m.buckets i y b empty_bucket (omega (arith, rewrite.table.width, rewrite.inside))

  stops_before :
      (key : Bytes) (n h y : ℕ)
      → stops key n h (bucket_at after y) ≡ true
      → stops key n h (bucket_at m.buckets y) ≡ true
  stops_before key n h y s = ground (arith, at_new y, rewrite.weaker key n h)

  IsSame-before :
      (x : ℕ) (k : Bytes)
      → (bucket_at after x).key ≡ some k
      → IsSame (bucket_at m.buckets x) (bucket_at after x) k
  IsSame-before x k e = elim (Bool-cases (i == x)) [
    | inl here ↦
        let is : i ≡ x = ground arith in
        let new : bucket_at after x ≡ b = at_new x ∙ rw here refl in
        rw new (subst (λ y. IsSame (bucket_at m.buckets y) b k) is (rewrite.kept k (rw (← new) e)))
    | inr apart ↦
        let same : bucket_at after x ≡ bucket_at m.buckets x = at_new x ∙ rw apart refl in
        let e' : (bucket_at m.buckets x).key ≡ some k = rw (← same) e in
        rw same (record {
          key = k;
          keyed = e';
          size = refl;
          hash = refl;
          bytes = refl;
          within = (rewrite.table.placed x k e').within;
        })
  ]

  IsPlaced-after :
      (x : ℕ) (k : Bytes) → (bucket_at after x).key ≡ some k → IsPlaced after m.capacity x k
  IsPlaced-after x k e =
      let old = IsSame-before x k e in
      let p = rewrite.table.placed x old.key old.keyed in
      let n = (bucket_at after x).ksize in
      let hashed : (bucket_at after x).hash ≡ hash_data k n =
        sym old.hash
        ∙ p.hashed
        ∙ ap (hash_data old.key) old.size
        ∙ hash_data_congr old.key k n old.bytes in
      record {
        within = old.within;
        hashed = hashed;
        found =
            probe_loop_mono (stops k n (hash_data k n)) (stops k n (hash_data k n)) m.buckets after
              m.capacity empty_bucket m.capacity (hash_data k n % m.capacity) x
              (stops_before k n (hash_data k n))
              (same-stops (bucket_at after x) k k n (hash_data k n) e refl hashed refl)
              (search_for_congr m.buckets m.capacity old.key k n x old.bytes
                (rw (← old.size) p.found));
      }

  pub rewrite-IsTable :
      (count tombs : ℕ)
      → IsTable (record m { buckets = after; count = count; tombstone_count = tombs }) xs
  rewrite-IsTable count tombs =
      let t = rewrite.table in
      record {
        width = length-set m.buckets i b ∙ t.width;
        roomy = t.roomy;
        chain =
            Chain-congr m.buckets after xs m.first (λ y _. ground (arith, at_new y, rewrite.linked))
              t.chain;
        last = t.last;
        listed = λ y. ground (arith, t.listed y, at_new y, rewrite.taken, rewrite.filled);
        nodup = t.nodup;
        filled = ground (
          arith,
          count_used-set m.buckets i b,
          t.filled,
          t.width,
          rewrite.inside,
          rewrite.taken,
          rewrite.filled,
        );
        placed = IsPlaced-after;
      }

  pub count_tombs-outside :
      (ys : List ℕ) → has i ys ≡ false → count_tombs after ys ≡ count_tombs m.buckets ys
  unfolding count_tombs
  count_tombs-outside [] h = refl
  count_tombs-outside (y ∷ ys) h = ground (arith, at_new y, count_tombs-outside ys)

  -- A tombstone is counted, and nothing else changes.
  pub count_tombs-inside :
      (ys : List ℕ)
      → has i ys ≡ true
      → IsNodup ys
      → count_tombs after ys ≡ count_tombs m.buckets ys + to_nat (not (has_key b))
  unfolding count_tombs
  count_tombs-inside [] h once = cc
  count_tombs-inside (y ∷ ys) h once =
      ground (arith, at_new y, count_tombs-outside ys, count_tombs-inside ys, rewrite.taken)

  pub entries-outside : (ys : List ℕ) → has i ys ≡ false → entries after ys ≡ entries m.buckets ys
  entries-outside ys h = entries_congr m.buckets after ys (λ y member. ground (arith, at_new y))

  module _ (key : Bytes) (n : ℕ) (found : search_for m.buckets m.capacity key n ≡ some i) where
    -- A new value for the key.
    pub entries-put :
        (k : Bytes) (v : ℕ) (ys : List ℕ)
        → (bucket_at m.buckets i).key ≡ some k
        → b ≡ record (bucket_at m.buckets i) { value = v }
        → has i ys ≡ true
        → IsNodup ys
        → entries after ys ≡ put key n v (entries m.buckets ys)
    unfolding entries put
    entries-put k v [] e is h once = cc
    entries-put k v (y ∷ ys) e is h once = elim (Bool-cases (y == i)) [
      | inl same ↦
          let here : y ≡ i = ground arith in
          let out : has i ys ≡ false = ground (arith, once.0) in
          ground
            (arith, at_new y, entries-outside ys out, same_key-here rewrite.table key n i found k e)
      | inr apart ↦
          let rest = entries-put k v ys e is (ground arith) once.1 in
          elim (Option-cases (bucket_at m.buckets y).key) [
            | inl none_there ↦ ground (arith, at_new y, rest)
            | inr (k', e') ↦ ground (
              arith,
              at_new y,
              rest,
              same_key-elsewhere rewrite.table key n i found y k' e' apart,
            )
          ]
    ]

    -- A new value for the key, and the memory of the new key.
    pub entries-overwrite :
        (k : Bytes) (v : ℕ) (ys : List ℕ)
        → (bucket_at m.buckets i).key ≡ some k
        → b ≡ record (bucket_at m.buckets i) { key = some key; value = v }
        → has i ys ≡ true
        → IsNodup ys
        → entries after ys ≡ overwrite key n v (entries m.buckets ys)
    unfolding entries overwrite
    entries-overwrite k v [] e is h once = cc
    entries-overwrite k v (y ∷ ys) e is h once = elim (Bool-cases (y == i)) [
      | inl same ↦
          let here : y ≡ i = ground arith in
          let out : has i ys ≡ false = ground (arith, once.0) in
          ground
            (arith, at_new y, entries-outside ys out, same_key-here rewrite.table key n i found k e)
      | inr apart ↦
          let rest = entries-overwrite k v ys e is (ground arith) once.1 in
          elim (Option-cases (bucket_at m.buckets y).key) [
            | inl none_there ↦ ground (arith, at_new y, rest)
            | inr (k', e') ↦ ground (
              arith,
              at_new y,
              rest,
              same_key-elsewhere rewrite.table key n i found y k' e' apart,
            )
          ]
    ]

    pub entries-erase :
        (k : Bytes) (ys : List ℕ)
        → (bucket_at m.buckets i).key ≡ some k
        → b.key ≡ none
        → has i ys ≡ true
        → IsNodup ys
        → entries after ys ≡ erase key n (entries m.buckets ys)
    unfolding entries erase
    entries-erase k [] e is h once = cc
    entries-erase k (y ∷ ys) e is h once = elim (Bool-cases (y == i)) [
      | inl same ↦
          let here : y ≡ i = ground arith in
          let out : has i ys ≡ false = ground (arith, once.0) in
          ground
            (arith, at_new y, entries-outside ys out, same_key-here rewrite.table key n i found k e)
      | inr apart ↦
          let rest = entries-erase k ys e is (ground arith) once.1 in
          elim (Option-cases (bucket_at m.buckets y).key) [
            | inl none_there ↦ ground (arith, at_new y, rest)
            | inr (k', e') ↦ ground (
              arith,
              at_new y,
              rest,
              same_key-elsewhere rewrite.table key n i found y k' e' apart,
            )
          ]
    ]
