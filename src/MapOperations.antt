-- ===== src/MapOperations.antt =====
-- hashmap/map_operations.c and map_operations.h: the map from paths to the numbers of storage servers
-- (on the naming server) or of semaphores (on a storage server).
pub mod Below
pub mod Keys
pub mod Values
pub mod RemoveEntry
pub mod Paths
pub mod AddPaths
mod Tests
use nfs_network_file_system.Prelude.{
  ℕ, zero, suc, ◌+◌, ◌-◌, ◌^◌, ◌%◌, ◌<◌, Bool, true, false, not, ◌&&◌, ◌||◌, List, [], ◌∷◌, ◌++◌,
  Option, none, some, ltb, leb, ◌==◌, if◌then◌else◌, ◌>>=◌, length, drop,
}
use nfs_network_file_system.Prelude.Bytes.{Bytes, codes}
use nfs_network_file_system.Text.{
  space, slash, char_at, has_prefix, decimal, char_decimal, scan_int, scan_word,
}
use nfs_network_file_system.Hashmap.{
  Hashmap, hashmap_set, hashmap_get, hashmap_remove, hashmap_iterate,
}

-- A text in memory. The byte in front of it is read where the last character of an empty text is
-- asked for.
pub record CString : Type 0 where
  pub before : ℕ
  pub text : Bytes

-- A text that is not empty: nothing is read in front of it.
abbrev pub c_string : Bytes → CString
c_string s = record { before = 0; text = s }

-- `key[strlen(key) - 1]`
unfoldable pub last_char : ℕ → Bytes → ℕ
last_char before [] = before
last_char before (c ∷ s) = last_char c s

-- `%ld` of `strlen(key) - 1`, which wraps to -1.
unfoldable pub length_text : Bytes → Bytes
length_text [] = b'-' ∷ b'1' ∷ []
length_text (c ∷ s) = decimal (length s)

-- sprintf(temp, "%ld %d %s", strlen(key) - 1, key[strlen(key) - 1], key); the key and its NUL are taken to
-- fit into the PATH_MAX + 5 bytes of `temp`.
unfoldable pub map_key : CString → Bytes
unfolding last_char length_text
map_key key =
    length_text key.text
    ++ space ∷ (char_decimal (last_char key.before key.text) ++ space ∷ key.text)

-- An `int` is its 32-bit pattern, and a `uintptr_t` has 64 bits.
abbrev pub minus_one : ℕ
minus_one = 2 ^ 32 - 1

-- The conversion from `int` to `uintptr_t` extends the sign.
abbrev pub to_uintptr : ℕ → ℕ
to_uintptr v = if ltb v (2 ^ 31) then v else v + (2 ^ 64 - 2 ^ 32)

abbrev pub to_int : ℕ → ℕ
to_int v = v % 2 ^ 32

unfoldable pub set_value : Hashmap → CString → ℕ → Option Hashmap
set_value m key val = hashmap_set m (map_key key) (length (map_key key) - 1) (to_uintptr val)

unfoldable pub get_value : Hashmap → CString → Option ℕ
get_value m key = do
  (found, result) ← hashmap_get m (map_key key) (length (map_key key) - 1)
  some (if found then to_int result else minus_one)

-- sscanf(key, "%d %d %s", &_, &_, temp); `none` leaves `temp` as `malloc` gave it.
unfoldable pub stored_path : Bytes → Option Bytes
stored_path key = do s ← scan_int key; s' ← scan_int s; scan_word s'

abbrev pub max_acc_paths : ℕ
max_acc_paths = 15

-- The path is `path` itself or lies below it: the test of `get_paths_` and `remove_entry_`.
unfoldable pub covers : Bytes → Bytes → Bool
covers path temp =
    has_prefix temp path
    && ((char_at temp (length path) == 0) || (char_at temp (length path) == slash))

pub record ArrOfPaths : Type 0 where
  pub path : Bytes
  pub paths : List Bytes
  pub ss_num : ℕ

-- `strcpy(path_struct->paths[path_struct->index], temp); path_struct->index++`
push_path : Hashmap → ArrOfPaths → Bytes → Option (Hashmap × ArrOfPaths)
push_path m arr temp =
    if ltb (length arr.paths) max_acc_paths
    then some (m, record arr { paths = arr.paths ++ temp ∷ [] })
    else none

-- `index` is the number of `paths`. A write behind the last of the rows is a fault, and so is the
-- use of a text that `sscanf` did not write.
unfoldable pub get_paths_callback :
    Bytes → ℕ → ℕ → Hashmap → ArrOfPaths → Option (Hashmap × ArrOfPaths)
unfolding push_path
get_paths_callback key ksize value m arr = do
  temp ← stored_path key
  if covers arr.path temp then push_path m arr temp else some (m, arr)

unfoldable pub get_paths : Hashmap → Bytes → Option ArrOfPaths
get_paths m path = do
  (m', arr) ←
      hashmap_iterate get_paths_callback m (record { path = path; paths = []; ss_num = minus_one })
  some arr

-- The lines that `print_map_` prints: a path and the `int` of its value.
unfoldable pub print_map_callback :
    Bytes → ℕ → ℕ → Hashmap → List (Bytes × ℕ) → Option (Hashmap × List (Bytes × ℕ))
print_map_callback key ksize value m lines = do
  temp ← stored_path key
  some (m, lines ++ (temp, to_int value) ∷ [])

unfoldable pub print_map : Hashmap → Option (List (Bytes × ℕ))
print_map m = do (m', lines) ← hashmap_iterate print_map_callback m []; some lines

remove_current : Hashmap → Bytes → ℕ → Bytes → Option (Hashmap × Bytes)
remove_current m key ksize path = do m' ← hashmap_remove m key ksize; some (m', path)

-- The user data are the path, and `arr->m` is the map that is walked.
unfoldable pub remove_entry_callback : Bytes → ℕ → ℕ → Hashmap → Bytes → Option (Hashmap × Bytes)
unfolding remove_current
remove_entry_callback key ksize value m path = do
  temp ← stored_path key
  if covers path temp then remove_current m key ksize path else some (m, path)

unfoldable pub remove_entry : Hashmap → Bytes → Option Hashmap
remove_entry m path = do (m', _) ← hashmap_iterate remove_entry_callback m path; some m'

-- `while (folder_name[i] != '/') i--;`: a name with no slash is read in front of its beginning.
unfoldable pub has_slash : Bytes → Bool
has_slash [] = false
has_slash (c ∷ s) = (c == slash) || has_slash s

-- The loop over the paths from number `i` on. The inner `i` hides the position of the slash, so
-- `i + 1` characters are left out; behind the end of a path `none` stands for what is read there.
unfoldable pub add_paths_loop : Hashmap → ℕ → Bytes → ℕ → List Bytes → Option Hashmap
add_paths_loop m ss_num current_dir i [] = some m
add_paths_loop m ss_num current_dir i (p ∷ ps) = if ltb (length p) (i + 1) then none else do
  m' ← set_value m (c_string (current_dir ++ slash ∷ drop (i + 1) p)) ss_num
  add_paths_loop m' ss_num current_dir (i + 1) ps

-- The parameter `ss_num` is not used: the paths are set to the `ss_num` of `get_paths`.
unfoldable pub add_paths_to_list : Hashmap → ℕ → Bytes → Bytes → Option Hashmap
add_paths_to_list m ss_num current_dir folder_name = do
  arr ← get_paths m folder_name
  if has_slash folder_name then add_paths_loop m arr.ss_num current_dir 0 arr.paths else none
