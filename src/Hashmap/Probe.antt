-- ===== src/Hashmap/Probe.antt =====
-- The probing loop that `find_entry` and `resize_entry` of hashmap/map.c share.
pub mod Search
use nfs_network_file_system.Prelude.{
  ℕ, zero, suc, ◌+◌, ◌%◌, Bool, List, Option, none, some, if◌then◌else◌, get_or,
}

-- for (;;) { if (test(buckets[index])) return index; index = (index + 1) % capacity; }
-- The default bucket stands for what lies outside of the array, which no round reads.
module _ {B : Type 0} (test : B → Bool) (bs : List B) (capacity : ℕ) (d : B) where
  unfoldable pub probe_loop : ℕ → ℕ → Option ℕ
  probe_loop zero i = none
  probe_loop (suc fuel) i =
      let rest = probe_loop fuel ((i + 1) % capacity) in
      if test (get_or bs i d) then some i else rest
