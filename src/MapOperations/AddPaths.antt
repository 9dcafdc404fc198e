-- ===== src/MapOperations/AddPaths.antt =====
-- `add_paths_to_list` of hashmap/map_operations.c, with which the naming server records the copy of a
-- folder.
use nfs_network_file_system.Prelude.{
  ℕ, zero, suc, ◌+◌, ◌<◌, ◌≤◌, ◌≡◌, ◌≢◌, refl, Bool, true, false, ◌||◌, List, [], ◌∷◌, ◌++◌, some,
  if◌then◌else◌, drop, length, arith,
}
use nfs_network_file_system.Prelude.Bytes.{Bytes, bytes_eq}
use nfs_network_file_system.Text.{slash}
use nfs_network_file_system.Hashmap.{Hashmap}
use nfs_network_file_system.MapOperations.{
  CString, c_string, minus_one, has_slash, get_value, add_paths_loop, add_paths_to_list,
  max_acc_paths,
}
use nfs_network_file_system.MapOperations.Keys.{AllBytes, NoSpaces}
use nfs_network_file_system.MapOperations.Values.{IsPath, PathMap, get_value-set_value}
use nfs_network_file_system.MapOperations.Paths.{
  AllIsPath, paths_below, paths_below-IsPath, get_paths-paths_below,
}

-- The path that number `i` of the copied paths is recorded as.
abbrev pub copied_path : Bytes → ℕ → Bytes → Bytes
copied_path dir i p = dir ++ slash ∷ drop (i + 1) p

pub NoSpaces-append : (a b : Bytes) → NoSpaces a → NoSpaces b → NoSpaces (a ++ b)
NoSpaces-append [] b ha hb = hb
NoSpaces-append (c ∷ a) b ha hb = (ha.0, NoSpaces-append a b ha.1 hb)

pub AllBytes-append : (a b : Bytes) → AllBytes a → AllBytes b → AllBytes (a ++ b)
AllBytes-append [] b ha hb = hb
AllBytes-append (c ∷ a) b ha hb = (ha.0, AllBytes-append a b ha.1 hb)

pub NoSpaces-drop : (n : ℕ) (a : Bytes) → NoSpaces a → NoSpaces (drop n a)
NoSpaces-drop zero a h = h
NoSpaces-drop (suc n) [] h = tt
NoSpaces-drop (suc n) (c ∷ a) h = NoSpaces-drop n a h.1

pub AllBytes-drop : (n : ℕ) (a : Bytes) → AllBytes a → AllBytes (drop n a)
AllBytes-drop zero a h = h
AllBytes-drop (suc n) [] h = tt
AllBytes-drop (suc n) (c ∷ a) h = AllBytes-drop n a h.1

pub append-ne-nil : (a : Bytes) (c : ℕ) (b : Bytes) → a ++ c ∷ b ≢ []
append-ne-nil [] c b e = cc
append-ne-nil (x ∷ a) c b e = cc

-- A path below a path.
pub child-IsPath :
    (dir s : Bytes) → IsPath dir → NoSpaces s → AllBytes s → IsPath (dir ++ slash ∷ s)
child-IsPath dir s d ns bs = record {
  nonempty = append-ne-nil dir slash s;
  unspaced = NoSpaces-append dir (slash ∷ s) d.unspaced (refl, ns);
  bytes = AllBytes-append dir (slash ∷ s) d.bytes (omega arith, bs);
}

-- Number `i` and those after it are longer than the characters that are left out.
abbrev pub LongEnough : ℕ → List Bytes → Type 0
LongEnough i [] = Unit {0}
LongEnough i (p ∷ ps) = (i < length p) × LongEnough (i + 1) ps

-- The text is one of those that the paths are recorded as.
abbrev pub is_copied : Bytes → ℕ → List Bytes → Bytes → Bool
is_copied dir i [] q = false
is_copied dir i (p ∷ ps) q = bytes_eq (copied_path dir i p) q || is_copied dir (i + 1) ps q

add_paths_loop-marks :
    (dir : Bytes) (ps : List Bytes) (i : ℕ) {m : Hashmap}
    → PathMap m
    → IsPath dir
    → AllIsPath ps
    → LongEnough i ps
    → (m' : Hashmap) × (add_paths_loop m minus_one dir i ps ≡ some m')
      × PathMap m'
      × ((q : CString)
          → IsPath q.text
          → get_value m' q ≡ (if is_copied dir i ps q.text then some minus_one else get_value m q))
unfolding add_paths_loop
add_paths_loop-marks dir [] i {m} pm d all long = (m, refl, pm, λ q hq. refl)
add_paths_loop-marks dir (p ∷ ps) i pm d all long =
    let new = copied_path dir i p in
    let is : IsPath new =
      child-IsPath dir (drop (i + 1) p) d (NoSpaces-drop (i + 1) p all.0.unspaced)
        (AllBytes-drop (i + 1) p all.0.bytes) in
    let (m₁, run₁, pm₁, reads₁) =
      get_value-set_value pm (c_string new) minus_one is (omega arith) in
    let (m', run, pm', reads) = add_paths_loop-marks dir ps (i + 1) pm₁ d all.1 long.1 in
    (m', ground (arith, long.0, run₁, run), pm', λ q hq. ground (arith, reads q hq, reads₁ q hq))

-- The copy of a folder is recorded wrongly. If there are rows enough for the paths in the folder, and
-- each is long enough for what is left out of it, `add_paths_to_list` returns whatever storage server it
-- is told, and the copied paths are then not found: `get_value` gives -1 for each of the texts that they
-- are recorded as, and for every other path what it gave before.
pub add_paths_to_list-marks :
    {m : Hashmap} (pm : PathMap m) (ss_num : ℕ) (current_dir folder_name : Bytes)
    → IsPath current_dir
    → has_slash folder_name ≡ true
    → length (paths_below folder_name pm.entries) ≤ max_acc_paths
    → LongEnough 0 (paths_below folder_name pm.entries)
    → (m' : Hashmap) × (add_paths_to_list m ss_num current_dir folder_name ≡ some m')
      × PathMap m'
      × ((q : CString)
          → IsPath q.text
          → get_value m' q ≡ (
              if is_copied current_dir 0 (paths_below folder_name pm.entries) q.text
              then some minus_one
              else get_value m q))
unfolding add_paths_to_list
add_paths_to_list-marks pm ss_num dir folder d slashed fits long =
    let ps = paths_below folder pm.entries in
    let (m', run, pm', reads) =
      add_paths_loop-marks dir ps 0 pm d (paths_below-IsPath folder pm.entries pm.paths) long in
    (m', ground (arith, get_paths-paths_below pm folder, run), pm', reads)
