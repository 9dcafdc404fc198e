-- ===== src/MapOperations/Tests.antt =====
-- The theorems about hashmap/map_operations.c at small maps.
use nfs_network_file_system.Prelude.{◌≡◌, refl, arith, List, [], ◌∷◌, some, if◌then◌else◌}
use nfs_network_file_system.Prelude.Bytes.{Bytes, codes, bytes_eq}
use nfs_network_file_system.Hashmap.{Hashmap, hashmap_create, hashmap_set}
use nfs_network_file_system.Hashmap.Dict.{Entry, put}
use nfs_network_file_system.Text.{scan_int, scan_word, char_decimal, has_prefix}
use nfs_network_file_system.Hashmap.Set.{hashmap_create-Holds, hashmap_set-put}
use nfs_network_file_system.Hashmap.Invariant.{Holds}
use nfs_network_file_system.MapOperations.Below.{below}
use nfs_network_file_system.MapOperations.{
  CString, c_string, map_key, minus_one, stored_path, has_slash, set_value, get_value, remove_entry,
  get_paths, add_paths_to_list,
}
use nfs_network_file_system.MapOperations.Keys.{truncated-injective}
use nfs_network_file_system.MapOperations.Values.{
  key_size, IsPath, PathMap, create-PathMap, get_value-set_value,
}
use nfs_network_file_system.MapOperations.Paths.{
  paths_below, rows, get_value-remove_entry, get_paths-paths_below,
}
use nfs_network_file_system.MapOperations.AddPaths.{is_copied, add_paths_to_list-marks}

abbrev dir : Bytes
dir = codes "/d"

abbrev file : Bytes
file = codes "/d/f"

text_IsPath : IsPath file
text_IsPath = record {
  nonempty = λ e. cc;
  unspaced = (refl, (refl, (refl, (refl, tt))));
  bytes = omega arith;
}

dir_IsPath : IsPath dir
dir_IsPath = record { nonempty = λ e. cc; unspaced = (refl, (refl, tt)); bytes = omega arith }

truncated-injective_example : file ≡ file
truncated-injective_example =
    truncated-injective (record { before = 1; text = file }) (record { before = 2; text = file })
      text_IsPath.nonempty text_IsPath.nonempty text_IsPath.bytes text_IsPath.bytes
      (unfold map_key in refl)

abbrev with_file :
    (m : Hashmap) × (set_value hashmap_create (c_string file) 3 ≡ some m)
    × PathMap m
    × ((q : CString)
        → IsPath q.text
        → get_value m q ≡ (if bytes_eq file q.text then some 3 else get_value hashmap_create q))
with_file = get_value-set_value create-PathMap (c_string file) 3 text_IsPath (omega arith)

get_value-set_value_example :
    (m : Hashmap) × (set_value hashmap_create (c_string file) 3 ≡ some m)
    × PathMap m
    × ((q : CString)
        → IsPath q.text
        → get_value m q ≡ (if bytes_eq file q.text then some 3 else get_value hashmap_create q))
get_value-set_value_example =
    get_value-set_value create-PathMap (c_string file) 3 text_IsPath (omega arith)

get_value-remove_entry_example :
    (m : Hashmap) × (remove_entry with_file.0 dir ≡ some m)
    × PathMap m
    × ((q : CString)
        → IsPath q.text
        → get_value m q ≡ (if below dir q.text then some minus_one else get_value with_file.0 q))
get_value-remove_entry_example = get_value-remove_entry with_file.2 dir

get_paths-paths_below_example :
    get_paths with_file.0 dir
    ≡ rows
        (record { path = dir; paths = []; ss_num = minus_one })
        (paths_below dir with_file.2.entries)
get_paths-paths_below_example = get_paths-paths_below with_file.2 dir

-- The same map with its one entry written out.
abbrev file_entries : List Entry
file_entries =
    (record { key = map_key (c_string file); ksize = key_size (c_string file); value = 3 }) ∷ []

file_map :
    (m : Hashmap) × (hashmap_set hashmap_create
        (map_key (c_string file))
        (key_size (c_string file))
        3
      ≡ some m)
    × Holds m file_entries
unfolding put
file_map =
    hashmap_set-put hashmap_create-Holds (map_key (c_string file)) (key_size (c_string file)) 3
      (omega arith)

abbrev file_PathMap : PathMap file_map.0
file_PathMap = record {
  entries = file_entries;
  holds = file_map.2;
  paths = (record { path = c_string file; is_path = text_IsPath; keyed = refl; sized = refl }, tt);
}

below_dir : paths_below dir file_PathMap.entries ≡ file ∷ []
unfolding paths_below stored_path map_key below scan_int scan_word char_decimal has_prefix
below_dir = refl

add_paths_to_list-marks_example :
    (m' : Hashmap) × (add_paths_to_list file_map.0 4 (codes "/x") dir ≡ some m')
    × PathMap m'
    × ((q : CString)
        → IsPath q.text
        → get_value m' q ≡ (
            if is_copied (codes "/x") 0 (paths_below dir file_PathMap.entries) q.text
            then some minus_one
            else get_value file_map.0 q))
add_paths_to_list-marks_example =
    add_paths_to_list-marks file_PathMap 4 (codes "/x") dir
      (record { nonempty = λ e. cc; unspaced = (refl, (refl, tt)); bytes = omega arith })
      (unfold has_slash in refl) (rw below_dir (omega arith)) (rw below_dir (omega arith))
