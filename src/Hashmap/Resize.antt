-- ===== src/Hashmap/Resize.antt =====
-- `hashmap_resize` of hashmap/map.c moves the entries to an array twice as large, in their order,
-- and drops the tombstones.
use nfs_network_file_system.Prelude.{
  ℕ, zero, suc, ◌+◌, ◌-◌, ◌*◌, ◌%◌, ◌<◌, ◌≤◌, ◌≡◌, refl, sym, ◌∙◌, ap, true, false, not, Option,
  none, some, List, [], ◌∷◌, ◌++◌, arith, length, replicate, has, ◌==◌, Bool-cases, Option-cases,
  inl, inr, append_assoc, append-nil, length-append, IsNodup, get_or-replicate, length-replicate,
}
use nfs_network_file_system.Prelude.Bytes.{Bytes}
use nfs_network_file_system.Hashmap.{
  Bucket, Hashmap, front, bucket_at, has_key, empty_bucket, stops, append_entry, resize_entry,
  resize_loop, hashmap_resize,
}
use nfs_network_file_system.Hashmap.Hash.{hash_data}
use nfs_network_file_system.Hashmap.Probe.Search.{probe_loop_mono}
use nfs_network_file_system.Hashmap.Dict.{Entry}
use nfs_network_file_system.Hashmap.Order.{Chain, used, count_used, count_tombs, entries}
use nfs_network_file_system.Hashmap.Invariant.{
  search_for, search_for_congr, search_for-total, search_for-stops, stops-same, free-stops, IsTable,
  IsMap, Holds,
}
use nfs_network_file_system.Hashmap.Append.{
  IsNew, at_new, append_entry-IsTable, append_entry-entries,
}

-- Every bucket in use holds an entry.
abbrev NoTombs : List Bucket → Type 0
NoTombs bs = (y : ℕ) → has_key (bucket_at bs y) ≡ false → used (bucket_at bs y) ≡ false

pub length-entries :
    (bs : List Bucket) (xs : List ℕ) → length (entries bs xs) + count_tombs bs xs ≡ length xs
unfolding entries count_tombs
length-entries bs [] = omega arith
length-entries bs (x ∷ xs) = ground (arith, length-entries bs xs)

count_tombs-NoTombs :
    (bs : List Bucket) (xs : List ℕ)
    → ((y : ℕ) → has y xs ≡ true → has_key (bucket_at bs y) ≡ true)
    → count_tombs bs xs ≡ 0
unfolding count_tombs
count_tombs-NoTombs bs [] all = refl
count_tombs-NoTombs bs (x ∷ xs) all =
    ground (arith, all x, count_tombs-NoTombs bs xs (λ y h. all y (ground arith)))

pub count_used-replicate : (n : ℕ) → count_used (replicate n empty_bucket) ≡ 0
unfolding count_used
count_used-replicate zero = refl
count_used-replicate (suc n) = omega (arith, count_used-replicate n)

module _ {o : Hashmap} {os : List ℕ} (v : IsMap o os) where
  -- The new map `m` holds entries of buckets that are not among `ys`, those still to be moved.
  record Moving (m : Hashmap) (xs ys : List ℕ) : Type 0 where
    table : IsTable m xs
    clean : NoTombs m.buckets
    moved :
        (z : ℕ) (k : Bytes)
        → (bucket_at m.buckets z).key ≡ some k
        → (y : ℕ) × (has y ys ≡ false)
          × (search_for o.buckets o.capacity k (bucket_at m.buckets z).ksize ≡ some y)
    fits : length xs + length ys < m.capacity

  record Moved (m : Hashmap) (xs ys : List ℕ) (m' : Hashmap) : Type 0 where
    order : List ℕ
    table : IsTable m' order
    clean : NoTombs m'.buckets
    holds : entries m'.buckets order ≡ entries m.buckets xs ++ entries o.buckets ys
    capacity : m'.capacity ≡ m.capacity
    count : m'.count ≡ m.count
    tombstone_count : m'.tombstone_count ≡ m.tombstone_count

  again :
      {m n m' : Hashmap} {xs zs ys ws : List ℕ}
      → Moved m xs ys m'
      → entries m.buckets xs ++ entries o.buckets ys ≡ entries n.buckets zs ++ entries o.buckets ws
      → m.capacity ≡ n.capacity
      → m.count ≡ n.count
      → m.tombstone_count ≡ n.tombstone_count
      → Moved n zs ws m'
  again t e cap count tombs = record {
    order = t.order;
    table = t.table;
    clean = t.clean;
    holds = t.holds ∙ e;
    capacity = t.capacity ∙ cap;
    count = t.count ∙ count;
    tombstone_count = t.tombstone_count ∙ tombs;
  }

  -- The search for the key of the old bucket `y` ends at a bucket with no key.
  vacant :
      (m : Hashmap) (xs ys : List ℕ) (y : ℕ) (k : Bytes) (i : ℕ)
      → Moving m xs (y ∷ ys)
      → (bucket_at o.buckets y).key ≡ some k
      → search_for m.buckets m.capacity k (bucket_at o.buckets y).ksize ≡ some i
      → has_key (bucket_at m.buckets i) ≡ false
  vacant m xs ys y k i mv e found =
      let n = (bucket_at o.buckets y).ksize in
      let stop = search_for-stops mv.table k n i found in
      elim (Option-cases (bucket_at m.buckets i).key) [
        | inl none_there ↦ ground arith
        | inr (k', e') ↦
            let (size, hash, bytes) =
              stops-same (bucket_at m.buckets i) k' k n (hash_data k n) e' stop in
            let (y', out, there) = mv.moved i k' e' in
            let there' : search_for o.buckets o.capacity k' n ≡ some y' = rw size at there in
            let same = search_for_congr o.buckets o.capacity k' k n y' bytes there' in
            let here = (v.placed y k e).found in let clash : y' ≡ y = cc in absurd (ground arith)
      ]

  -- The place for the entry of the old bucket `y`.
  resize_entry-IsNew :
      (m : Hashmap) (xs ys : List ℕ) (y : ℕ) (k : Bytes)
      → Moving m xs (y ∷ ys)
      → (bucket_at o.buckets y).key ≡ some k
      → (i : ℕ) × (resize_entry m (bucket_at o.buckets y) ≡ some i)
        × IsNew m xs i (bucket_at o.buckets y) k
  unfolding resize_entry
  resize_entry-IsNew m xs ys y k mv e =
      let b = bucket_at o.buckets y in
      let p = v.table.placed y k e in
      let n = b.ksize in
      let h = hash_data k n in
      let (i, lt, found) = search_for-total mv.table k n (omega (arith, mv.fits)) in
      let stop = search_for-stops mv.table k n i found in
      let keyless : has_key (bucket_at m.buckets i) ≡ false = vacant m xs ys y k i mv e found in
      (
        i,
        rw p.hashed (
            probe_loop_mono (stops k n h) (λ b. not (has_key b)) m.buckets m.buckets m.capacity
              empty_bucket m.capacity (h % m.capacity) i
              (λ x free. free-stops (bucket_at m.buckets x) k n h (mv.clean x (ground arith)))
              (ground (arith, keyless)) found),
        record {
          table = mv.table;
          inside = lt;
          free = mv.clean i keyless;
          keyed = e;
          within = p.within;
          hashed = p.hashed;
          found = found;
        },
      )

  append-Moving :
      (m : Hashmap) (xs ys : List ℕ) (y i : ℕ) (k : Bytes)
      → Moving m xs (y ∷ ys)
      → has y ys ≡ false
      → IsNew m xs i (bucket_at o.buckets y) k
      → Moving (append_entry m i (bucket_at o.buckets y)) (xs ++ i ∷ []) ys
  unfolding append_entry
  append-Moving m xs ys y i k mv apart new =
      let b = bucket_at o.buckets y in
      record {
        table = append_entry-IsTable new;
        clean = λ z. ground (arith, mv.clean z, at_new new z, new.keyed);
        moved = λ z k' e. elim (Bool-cases (i == z)) [
          | inl here ↦
              let size : (bucket_at (append_entry m i b).buckets z).ksize ≡ b.ksize =
                ground (arith, at_new new z) in
              let key : k' ≡ k = ground (arith, at_new new z, new.keyed) in
              (y, apart, rw (size, key) (v.placed y k new.keyed).found)
          | inr there ↦
              let size : (bucket_at (append_entry m i b).buckets z).ksize
                  ≡ (bucket_at m.buckets z).ksize =
                ground (arith, at_new new z) in
              let (y', out, at_y') = mv.moved z k' (ground (arith, at_new new z)) in
              (y', ground arith, rw size at_y')
        ];
        fits = omega (arith, mv.fits, length-append xs (i ∷ []));
      }

  -- The loop ends, and appends the entries that are left.
  resize_loop-Moved :
      (ys : List ℕ) (fuel : ℕ) (next : Option ℕ) (m : Hashmap) (xs : List ℕ)
      → Moving m xs ys
      → Chain o.buckets next ys
      → IsNodup ys
      → length ys < fuel
      → (m' : Hashmap) × (resize_loop o.buckets fuel next m ≡ some m') × Moved m xs ys m'
  unfolding resize_loop entries append_entry
  resize_loop-Moved ys zero next m xs mv c once enough = absurd (omega arith)
  resize_loop-Moved [] (suc fuel) next m xs mv c once enough = (
    m,
    ground (arith, c),
    record {
      order = xs;
      table = mv.table;
      clean = mv.clean;
      holds = sym (append-nil (entries m.buckets xs));
      capacity = refl;
      count = refl;
      tombstone_count = refl;
    },
  )
  resize_loop-Moved (y ∷ ys) (suc fuel) next m xs mv c once enough =
      elim (Option-cases (bucket_at o.buckets y).key) [
        | inl e ↦
            let next_is : next ≡ some y = c.0 in
            let skip : Moving m xs ys = record {
              table = mv.table;
              clean = mv.clean;
              moved = λ z k e'. let (y', out, at_y') = mv.moved z k e' in (y', ground arith, at_y');
              fits = omega (arith, mv.fits);
            } in
            let (m', run, t) =
              resize_loop-Moved ys fuel (bucket_at o.buckets y).next m xs skip c.1 once.1
                (omega arith) in
            (m', ground (arith, run), again t (ground arith) refl refl refl)
        | inr (k, e) ↦
            let b = bucket_at o.buckets y in
            let (i, place, new) = resize_entry-IsNew m xs ys y k mv e in
            let (m', run, t) =
              resize_loop-Moved ys fuel b.next (append_entry m i b) (xs ++ i ∷ [])
                (append-Moving m xs ys y i k mv once.0 new) c.1 once.1 (omega arith) in
            (
              m',
              ground (arith, run, place),
              again t (rw (append_entry-entries new, append_assoc) (ground arith)) refl refl refl,
            )
      ]

  abbrev start : Hashmap
  start = record {
    buckets = replicate (o.capacity * 2) empty_bucket;
    capacity = o.capacity * 2;
    count = o.count - o.tombstone_count;
    tombstone_count = 0;
    first = none;
    last = front;
  }

  start-Moving : Moving start [] os
  start-Moving = record {
    table = record {
      width = length-replicate (o.capacity * 2) empty_bucket;
      roomy = omega (arith, v.roomy);
      chain = refl;
      last = refl;
      listed = λ i. ground (arith, get_or-replicate (o.capacity * 2) i empty_bucket);
      nodup = tt;
      filled = count_used-replicate (o.capacity * 2);
      placed = λ i k e. ground (arith, get_or-replicate (o.capacity * 2) i empty_bucket);
    };
    clean = λ y h. ground (arith, get_or-replicate (o.capacity * 2) y empty_bucket);
    moved = λ z k e. absurd (ground (arith, get_or-replicate (o.capacity * 2) z empty_bucket));
    fits = omega (arith, v.roomy, v.load, v.counted);
  }

  Moved-IsMap : (m' : Hashmap) → (t : Moved start [] os m') → IsMap m' t.order
  unfolding entries
  Moved-IsMap m' t =
      let no_tombs : count_tombs m'.buckets t.order ≡ 0 =
        count_tombs-NoTombs m'.buckets t.order
          (λ y h. ground (arith, t.table.listed y, t.clean y)) in
      let sizes : length (entries m'.buckets t.order) ≡ length (entries o.buckets os) =
        ap length t.holds in
      let full : length t.order ≡ m'.count = omega (
        arith,
        length-entries m'.buckets t.order,
        length-entries o.buckets os,
        v.counted,
        v.tombs,
        t.count,
      ) in
      record {
        table = t.table;
        load = omega (arith, t.count, t.capacity, v.load);
        counted = full;
        tombs = no_tombs ∙ sym t.tombstone_count;
      }

Chain-first :
    (bs : List Bucket) (p : Option ℕ) (xs : List ℕ)
    → Chain bs p xs
    → 0 < length xs
    → (i : ℕ) × (p ≡ some i)
Chain-first bs p [] c h = elim h [ ]
Chain-first bs p (x ∷ xs) c h = (x, c.0)

-- A well-formed map that is not empty is resized without a fault and in finitely many rounds: the
-- result is well formed, has twice the capacity, no tombstone, and the same entries in their order.
pub hashmap_resize-Holds :
    {m : Hashmap} {es : List Entry}
    → Holds m es
    → 0 < m.count
    → (m' : Hashmap) × (hashmap_resize m ≡ some m')
      × Holds m' es
      × (m'.capacity ≡ m.capacity * 2)
      × (m'.tombstone_count ≡ 0)
      × (m'.count ≤ m.count)
unfolding hashmap_resize entries
hashmap_resize-Holds {m} h some_used =
    let v = h.is_map in
    let (i, first) = Chain-first m.buckets m.first h.order v.chain (omega (arith, v.counted)) in
    let (m', run, t) =
      resize_loop-Moved v h.order (suc (suc m.count)) m.first (start v) [] (start-Moving v) v.chain
        v.nodup (omega (arith, v.counted)) in
    (
      m',
      ground (arith, first, run),
      record { order = t.order; is_map = Moved-IsMap v m' t; holds = t.holds ∙ h.holds },
      t.capacity,
      t.tombstone_count,
      omega (arith, t.count),
    )
