-- ===== src/MapOperations/RemoveEntry.antt =====
-- `remove_entry` of hashmap/map_operations.c: removal during an iteration over the same map.
use nfs_network_file_system.Prelude.{
  ℕ, zero, suc, ◌<◌, ◌≡◌, refl, ◌∙◌, ap, Bool, true, false, ◌&&◌, List, [], ◌∷◌, Option, none, some,
  ◌==◌, if◌then◌else◌, length, has, IsNodup, arith, Bool-cases, Option-cases, inl, inr, get_or-set,
  get_or-out,
}
use native.Mathlib.Decide.{dec_lt}
use nfs_network_file_system.Prelude.Bytes.{Bytes}
use nfs_network_file_system.Hashmap.{
  Hashmap, Bucket, bucket_at, has_key, empty_bucket, bury, find_entry, hashmap_remove, iterate_loop,
  hashmap_iterate,
}
use nfs_network_file_system.Hashmap.Dict.{Entry}
use nfs_network_file_system.Hashmap.Order.{Chain, Chain-congr, entries, add_entry}
use nfs_network_file_system.Hashmap.Invariant.{IsMap, Holds}
use nfs_network_file_system.Hashmap.Remove.{buried, bury-IsMap}
use nfs_network_file_system.MapOperations.{stored_path, covers, remove_entry_callback, remove_entry}

-- The key's path is `path` or lies below it.
abbrev pub covered_key : Bytes → Bytes → Bool
covered_key path key = elim (stored_path key) [ none ↦ false | some t ↦ covers path t ]

abbrev covered : Bytes → Bucket → Bool
covered path b = elim b.key [ none ↦ false | some k ↦ covered_key path k ]

-- The entries that are left.
unfoldable pub drop_covered : Bytes → List Entry → List Entry
drop_covered path [] = []
drop_covered path (e ∷ es) =
    if covered_key path e.key then drop_covered path es else e ∷ drop_covered path es

-- The path of every key can be read.
abbrev pub AllReadable : List Entry → Type 0
AllReadable [] = Unit {0}
AllReadable (e ∷ es) = ((t : Bytes) × (stored_path e.key ≡ some t)) × AllReadable es

-- An entry in use sits inside of the array.
inside :
    {m : Hashmap} {xs : List ℕ}
    → IsMap m xs
    → (i : ℕ) → has_key (bucket_at m.buckets i) ≡ true
    → i < m.capacity
inside {m} v i taken = elim (dec_lt i m.capacity) [
  | yes p ↦ p
  | no p ↦
      let out = get_or-out m.buckets i empty_bucket (omega (arith, v.width)) in
      absurd (ground arith)
]

-- `hashmap_remove` of a stored key finds the bucket that it is stored in.
remove_stored :
    {m : Hashmap} {xs : List ℕ} (v : IsMap m xs) (i : ℕ) (k : Bytes)
    → (bucket_at m.buckets i).key ≡ some k
    → hashmap_remove m k (bucket_at m.buckets i).ksize ≡ some (bury m i)
unfolding hashmap_remove find_entry
remove_stored {m} v i k e = ground (arith, (v.placed i k e).found)

bury-at :
    {m : Hashmap} {xs : List ℕ}
    → IsMap m xs
    → (i y : ℕ) → i < m.capacity
    → bucket_at (bury m i).buckets y
      ≡ (if i == y then buried (bucket_at m.buckets y) else bucket_at m.buckets y)
unfolding bury
bury-at {m} v i y lt =
    ground (arith, get_or-set m.buckets i y (buried (bucket_at m.buckets i)) empty_bucket, v.width)

-- After the loop over `ys` the covered entries among them are buried, and all else is as it was.
record Swept (path : Bytes) (m : Hashmap) (xs ys : List ℕ) (m' : Hashmap) : Type 0 where
  is_map : IsMap m' xs
  swept :
      (y : ℕ)
      → bucket_at m'.buckets y ≡ (
          if has y ys && covered path (bucket_at m.buckets y)
          then buried (bucket_at m.buckets y)
          else bucket_at m.buckets y)

abbrev AllReadableAt : List ℕ → Hashmap → Type 0
AllReadableAt ys m =
    (y : ℕ) (k : Bytes)
    → has y ys ≡ true
    → (bucket_at m.buckets y).key ≡ some k
    → (t : Bytes) × (stored_path k ≡ some t)

module _ (path : Bytes) where
  -- One round at a bucket whose entry is covered.
  callback_covered :
      {m : Hashmap} {xs : List ℕ} (v : IsMap m xs) (i : ℕ) (k : Bytes)
      → (bucket_at m.buckets i).key ≡ some k
      → covered_key path k ≡ true
      → remove_entry_callback k (bucket_at m.buckets i).ksize (bucket_at m.buckets i).value m path
        ≡ some (bury m i, path)
  unfolding remove_entry_callback
  callback_covered v i k e c = ground (arith, remove_stored v i k e)

  callback_kept :
      (m : Hashmap) (k t : Bytes) (n v : ℕ)
      → stored_path k ≡ some t
      → covered_key path k ≡ false
      → remove_entry_callback k n v m path ≡ some (m, path)
  unfolding remove_entry_callback
  callback_kept m k t n v e c = ground arith

  loop-Swept :
      (xs ys : List ℕ) (fuel : ℕ) (p : Option ℕ) (m : Hashmap)
      → IsMap m xs
      → Chain m.buckets p ys
      → IsNodup ys
      → AllReadableAt ys m
      → length ys < fuel
      → (m' : Hashmap) × (iterate_loop remove_entry_callback fuel p m path ≡ some (m', path))
        × Swept path m xs ys m'
  unfolding iterate_loop
  loop-Swept xs ys zero p m v c once all enough = absurd (omega arith)
  loop-Swept xs [] (suc fuel) p m v c once all enough =
      (m, ground (arith, c), record { is_map = v; swept = λ y. refl })
  loop-Swept xs (i ∷ ys) (suc fuel) p m v c once all enough =
      let b = bucket_at m.buckets i in
      elim (Option-cases b.key) [
        | inl e ↦
            let (m', run, t) =
              loop-Swept xs ys fuel b.next m v c.1 once.1 (λ y k h. all y k (ground arith))
                (omega arith) in
            (
              m',
              ground (arith, c.0, run),
              record { is_map = t.is_map; swept = λ y. ground (arith, t.swept y) },
            )
        | inr (k, e) ↦
            let (t₀, readable) = all i k (ground arith) e in
            elim (Bool-cases (covered_key path k)) [
              | inr kept ↦
                  let call = callback_kept m k t₀ b.ksize b.value readable kept in
                  let (m', run, t) =
                    loop-Swept xs ys fuel b.next m v c.1 once.1 (λ y k h. all y k (ground arith))
                      (omega arith) in
                  (
                    m',
                    ground (arith, c.0, run, call),
                    record { is_map = t.is_map; swept = λ y. ground (arith, t.swept y) },
                  )
              | inl gone ↦
                  let lt = inside v i (ground arith) in
                  let call = callback_covered v i k e gone in
                  let at = bury-at v i in
                  let chain =
                    Chain-congr m.buckets (bury m i).buckets ys b.next
                      (λ y h. ground (arith, bury-at v i y)) c.1 in
                  let (m', run, t) =
                    loop-Swept xs ys fuel b.next (bury m i) (bury-IsMap v i lt (ground arith)) chain
                      once.1 (λ y k' h e'. all y k' (ground arith) (ground (arith, bury-at v i y)))
                      (omega arith) in
                  (
                    m',
                    ground (arith, c.0, run, call, bury-at v i i),
                    record {
                      is_map = t.is_map;
                      swept = λ y. ground (arith, t.swept y, bury-at v i y);
                    },
                  )
            ]
      ]

  entries-swept :
      (m m' : Hashmap) (ws : List ℕ)
      → ((y : ℕ)
          → has y ws ≡ true
          → bucket_at m'.buckets y ≡ (
              if covered path (bucket_at m.buckets y)
              then buried (bucket_at m.buckets y)
              else bucket_at m.buckets y))
      → entries m'.buckets ws ≡ drop_covered path (entries m.buckets ws)
  unfolding entries drop_covered
  entries-swept m m' [] swept = refl
  entries-swept m m' (y ∷ ws) swept =
      let rest = entries-swept m m' ws (λ z h. swept z (ground arith)) in
      ground (arith, swept y, rest)

  readable_at :
      (m : Hashmap) (xs : List ℕ) → AllReadable (entries m.buckets xs) → AllReadableAt xs m
  unfolding entries
  readable_at m [] all y k h e = cc
  readable_at m (x ∷ xs) all y k h e = elim (Option-cases (bucket_at m.buckets x).key) [
    | inl none_there ↦
        let all' : AllReadable (entries m.buckets xs) = rw (none_there, add_entry) at all in
        readable_at m xs all' y k (ground arith) e
    | inr (k', e') ↦
        let all' : ((t : Bytes) × (stored_path k' ≡ some t)) × AllReadable (entries m.buckets xs) =
          rw (e', add_entry) at all in
        elim (Bool-cases (x == y)) [
          | inl here ↦
              let at : x ≡ y = ground arith in let same : k' ≡ k = ground arith in rw same at all'.0
          | inr there ↦ readable_at m xs all'.1 y k (ground arith) e
        ]
  ]

  -- `remove_entry` returns on a well-formed map whose keys are all readable, though it removes entries
  -- of the map that it walks: the map then holds, in their order, just the entries whose path is
  -- neither `path` nor below it.
  pub remove_entry-drop_covered :
      {m : Hashmap} {es : List Entry}
      → Holds m es
      → AllReadable es
      → (m' : Hashmap) × (remove_entry m path ≡ some m') × Holds m' (drop_covered path es)
  unfolding remove_entry hashmap_iterate
  remove_entry-drop_covered {m} h all =
      let v = h.is_map in
      let xs = h.order in
      let (m', run, t) =
        loop-Swept xs xs (suc m.count) m.first m v v.chain v.nodup
          (readable_at m xs (rw (← h.holds) at all)) (omega (arith, v.counted)) in
      (
        m',
        ground (arith, run),
        record {
          order = xs;
          is_map = t.is_map;
          holds =
              entries-swept m m' xs (λ y member. ground (arith, t.swept y))
              ∙ ap (drop_covered path) h.holds;
        },
      )
