-- ===== src/Hashmap/Tests.antt =====
-- Runs of hashmap/map.c, and its theorems at small maps.
use nfs_network_file_system.Prelude.{
  ℕ, ◌+◌, ◌*◌, ◌<◌, ◌≤◌, ◌≡◌, refl, Bool, true, false, [], Option, none, some, ◌>>=◌, length, arith,
}
use nfs_network_file_system.Prelude.Bytes.{Bytes, codes, bytes_eq}
use nfs_network_file_system.Hashmap.{
  Hashmap, hashmap_create, hashmap_set, hashmap_get, hashmap_get_set, hashmap_set_free,
  hashmap_remove, hashmap_remove_free, hashmap_size, hashmap_resize, hashmap_iterate,
}
use nfs_network_file_system.Hashmap.Hash.{hash_data}
use nfs_network_file_system.Hashmap.Dict.{Entry, lookup, put, erase, overwrite}
use nfs_network_file_system.Hashmap.Get.{answer, called_value, hashmap_get-lookup}
use nfs_network_file_system.Hashmap.Invariant.{Holds}
use nfs_network_file_system.Hashmap.Iterate.{fold_option, beside, hashmap_iterate-fold_option}
use nfs_network_file_system.Hashmap.Remove.{hashmap_remove-erase, hashmap_size-length}
use nfs_network_file_system.Hashmap.Overwrite.{hashmap_set_free-overwrite}
use nfs_network_file_system.Hashmap.Resize.{hashmap_resize-Holds}
use nfs_network_file_system.Hashmap.Set.{
  hashmap_create-Holds, hashmap_set-put, hashmap_get_set-lookup,
}

abbrev key_a : Bytes
key_a = codes "a"

abbrev key_b : Bytes
key_b = codes "b"

-- Two insertions, an overwrite and a removal, and what is read after them.
abbrev session : Option (Option (Bool × ℕ) × Option (Bool × ℕ) × ℕ)
session = do
  m₁ ← hashmap_set hashmap_create key_a 1 10
  m₂ ← hashmap_set m₁ key_b 1 20
  m₃ ← hashmap_set m₂ key_a 1 11
  m₄ ← hashmap_remove m₃ key_b 1
  some (hashmap_get m₄ key_a 1, hashmap_get m₄ key_b 1, hashmap_size m₄)

session_reads : session ≡ some (some (true, 11), some (false, 0), 1)
unfolding hashmap_create hashmap_set hashmap_get hashmap_remove hashmap_size
    nfs_network_file_system.Hashmap.reserve nfs_network_file_system.Hashmap.find_entry
    nfs_network_file_system.Hashmap.insert_entry nfs_network_file_system.Hashmap.append_entry
    nfs_network_file_system.Hashmap.bury nfs_network_file_system.Hashmap.stops
    nfs_network_file_system.Hashmap.Probe.probe_loop hash_data bytes_eq
session_reads = refl

abbrev one_entry :
    (m : Hashmap) × (hashmap_set hashmap_create key_a 1 10 ≡ some m) × Holds m (put key_a 1 10 [])
one_entry = hashmap_set-put hashmap_create-Holds key_a 1 10 (omega arith)

hashmap_set-put_example :
    (m : Hashmap) × (hashmap_set hashmap_create key_a 1 10 ≡ some m) × Holds m (put key_a 1 10 [])
hashmap_set-put_example = hashmap_set-put hashmap_create-Holds key_a 1 10 (omega arith)

hashmap_get-lookup_example :
    hashmap_get one_entry.0 key_a 1 ≡ answer (lookup key_a 1 (put key_a 1 10 []))
hashmap_get-lookup_example = hashmap_get-lookup one_entry.2 key_a 1

hashmap_get_set-lookup_example :
    (m' : Hashmap) × (hashmap_get_set one_entry.0 key_b 1 5
      ≡ some (elim (lookup key_b 1 (put key_a 1 10 [])) [
        | none ↦ (false, 5, m')
        | some old ↦ (true, old, m')
      ]))
    × Holds m' (elim (lookup key_b 1 (put key_a 1 10 [])) [
      | none ↦ put key_b 1 5 (put key_a 1 10 [])
      | some old ↦ put key_a 1 10 []
    ])
hashmap_get_set-lookup_example = hashmap_get_set-lookup one_entry.2 key_b 1 5 (omega arith)

hashmap_remove-erase_example :
    (m' : Hashmap) × (hashmap_remove one_entry.0 key_a 1 ≡ some m')
    × Holds m' (erase key_a 1 (put key_a 1 10 []))
hashmap_remove-erase_example = hashmap_remove-erase one_entry.2 key_a 1

-- Another memory of the same key.
hashmap_set_free-overwrite_example :
    (call : Option (Option Bytes × ℕ × ℕ)) × (m' : Hashmap) × (hashmap_set_free one_entry.0
        (codes "ab")
        1
        11
      ≡ some (call, m'))
    × (called_value call ≡ lookup (codes "ab") 1 (put key_a 1 10 []))
    × Holds m' (overwrite (codes "ab") 1 11 (put key_a 1 10 []))
hashmap_set_free-overwrite_example =
    hashmap_set_free-overwrite one_entry.2 (codes "ab") 1 11 (omega arith)

size_one : hashmap_size one_entry.0 ≡ length (put key_a 1 10 [])
size_one = hashmap_size-length one_entry.2

one_entry-count : 0 < one_entry.0.count
unfolding put hashmap_size
one_entry-count = omega (arith, size_one)

hashmap_resize-Holds_example :
    (m' : Hashmap) × (hashmap_resize one_entry.0 ≡ some m')
    × Holds m' (put key_a 1 10 [])
    × (m'.capacity ≡ one_entry.0.capacity * 2)
    × (m'.tombstone_count ≡ 0)
    × (m'.count ≤ one_entry.0.count)
hashmap_resize-Holds_example = hashmap_resize-Holds one_entry.2 one_entry-count

-- A callback that adds the values up.
abbrev add_value : Bytes → ℕ → ℕ → Hashmap → ℕ → Option (Hashmap × ℕ)
add_value key n v m sum = some (m, sum + v)

abbrev add_step : ℕ → Entry → Option ℕ
add_step sum e = some (sum + e.value)

hashmap_iterate-fold_option_example :
    hashmap_iterate add_value one_entry.0 0
    ≡ beside one_entry.0 (fold_option add_step 0 (put key_a 1 10 []))
hashmap_iterate-fold_option_example =
    hashmap_iterate-fold_option add_value add_step (λ key n v m s. refl) 0 one_entry.2
