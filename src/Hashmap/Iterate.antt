-- ===== src/Hashmap/Iterate.antt =====
-- `hashmap_iterate` of hashmap/map.c calls back once for each entry, in the order of insertion.
use nfs_network_file_system.Prelude.{
  ℕ, zero, suc, ◌<◌, ◌≡◌, Option, none, some, List, [], ◌∷◌, arith, length, Option-cases, inl, inr,
}
use nfs_network_file_system.Prelude.Bytes.{Bytes}
use nfs_network_file_system.Hashmap.{Hashmap, bucket_at, iterate_loop, hashmap_iterate}
use nfs_network_file_system.Hashmap.Dict.{Entry}
use nfs_network_file_system.Hashmap.Get.{entry}
use nfs_network_file_system.Hashmap.Order.{Chain, entries}
use nfs_network_file_system.Hashmap.Invariant.{Holds}

-- A fold whose steps may fail.
abbrev pub fold_option {ℓ κ} :
    {A : Type ℓ} {S : Type κ} → (S → A → Option S) → S → List A → Option S
fold_option f s [] = some s
fold_option f s (e ∷ es) = elim (f s e) [ none ↦ none | some s' ↦ fold_option f s' es ]

-- The result with the map that it was read from.
abbrev pub beside {ℓ} : {S : Type ℓ} → Hashmap → Option S → Option (Hashmap × S)
beside m none = none
beside m (some s) = some (m, s)

module _ {S : Type 0} (c : Bytes → ℕ → ℕ → Hashmap → S → Option (Hashmap × S))
    (f : S → Entry → Option S) where
  -- The callback reads the map, and changes its own data alone.
  abbrev pub Reads : Type 0
  Reads =
      (key : Bytes) (n v : ℕ) (m : Hashmap) (s : S) → c key n v m s ≡ beside m (f s (entry key n v))

  iterate_loop-fold_option :
      (reads : Reads) (m : Hashmap) (xs : List ℕ) (fuel : ℕ) (p : Option ℕ) (s : S)
      → Chain m.buckets p xs
      → length xs < fuel
      → iterate_loop c fuel p m s ≡ beside m (fold_option f s (entries m.buckets xs))
  unfolding iterate_loop entries
  iterate_loop-fold_option reads m xs zero p s chain enough = absurd (omega arith)
  iterate_loop-fold_option reads m [] (suc fuel) p s chain enough = ground arith
  iterate_loop-fold_option reads m (x ∷ xs) (suc fuel) p s chain enough =
      let b = bucket_at m.buckets x in
      elim (Option-cases b.key) [
        | inl e ↦
            let rest = iterate_loop-fold_option reads m xs fuel b.next s chain.1 (omega arith) in
            ground (arith, rest)
        | inr (k, e) ↦
            let call = reads k b.ksize b.value m s in
            elim (Option-cases (f s (entry k b.ksize b.value))) [
              | inl fails ↦ ground (arith, call)
              | inr (s', goes) ↦
                  let rest =
                    iterate_loop-fold_option reads m xs fuel b.next s' chain.1 (omega arith) in
                  ground (arith, call, rest)
            ]
      ]

  -- `hashmap_iterate`, with a callback that leaves the map as it is and only computes on its own data,
  -- returns unless a call fails, and then has left the map as it is. It calls back for each entry of the map, once and in the order of insertion, tombstones left out.
  pub hashmap_iterate-fold_option :
      (reads : Reads) {m : Hashmap} {es : List Entry} (s : S)
      → Holds m es
      → hashmap_iterate c m s ≡ beside m (fold_option f s es)
  unfolding hashmap_iterate
  hashmap_iterate-fold_option reads {m} s h = rw (← h.holds) (
      iterate_loop-fold_option reads m h.order (suc m.count) m.first s h.is_map.chain
        (omega (arith, h.is_map.counted)))
