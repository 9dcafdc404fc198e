-- ===== src/MapOperations/Paths.antt =====
-- `remove_entry` and `get_paths` of hashmap/map_operations.c on maps of paths.
use nfs_network_file_system.Prelude.{
  ℕ, ◌+◌, ◌≤◌, ◌≡◌, sym, subst, true, List, [], ◌∷◌, ◌++◌, Option, none, some, ltb, leb,
  if◌then◌else◌, length, arith, Bool-cases, inl, inr, append_assoc, append-nil, length-append,
}
use nfs_network_file_system.Prelude.Bytes.{Bytes, bytes_eq, eq_of_bytes_eq}
use nfs_network_file_system.Hashmap.{Hashmap}
use nfs_network_file_system.Hashmap.Dict.{Entry, lookup, same_key}
use nfs_network_file_system.Hashmap.Iterate.{fold_option, beside, hashmap_iterate-fold_option}
use nfs_network_file_system.MapOperations.{
  CString, map_key, minus_one, stored_path, covers, remove_entry, get_value, get_paths,
  get_paths_callback, ArrOfPaths, max_acc_paths,
}
use nfs_network_file_system.MapOperations.Below.{below, covers-below}
use nfs_network_file_system.MapOperations.Keys.{stored_path-map_key}
use nfs_network_file_system.MapOperations.Values.{
  IsPath, IsPathEntry, AllPaths, PathMap, key_size, get_value-lookup, IsOther-map_key,
}
use nfs_network_file_system.MapOperations.RemoveEntry.{
  covered_key, drop_covered, AllReadable, remove_entry-drop_covered,
}

stored_path-entry : (e : Entry) (i : IsPathEntry e) → stored_path e.key ≡ some i.path.text
stored_path-entry e i =
    rw i.keyed (stored_path-map_key i.path i.is_path.nonempty i.is_path.unspaced)

pub readable_of_paths : (es : List Entry) → AllPaths es → AllReadable es
readable_of_paths [] all = tt
readable_of_paths (e ∷ es) all =
    ((all.0.path.text, stored_path-entry e all.0), readable_of_paths es all.1)

-- An entry with the key of a path is an entry of that path.
same_path :
    (e : Entry) (i : IsPathEntry e) (q : CString)
    → IsPath q.text
    → same_key e (map_key q) (key_size q) ≡ true
    → bytes_eq i.path.text q.text ≡ true
unfolding same_key
same_path e i q hq same = elim (Bool-cases (bytes_eq i.path.text q.text)) [
  | inl equal ↦ equal
  | inr differ ↦
      let other = IsOther-map_key i.path q i.is_path hq differ in
      absurd (ground (arith, i.keyed, i.sized))
]

pub drop_covered-AllPaths :
    (path : Bytes) (es : List Entry) → AllPaths es → AllPaths (drop_covered path es)
unfolding drop_covered
drop_covered-AllPaths path [] all = tt
drop_covered-AllPaths path (e ∷ es) all = elim (Bool-cases (covered_key path e.key)) [
  | inl gone ↦ rw gone (drop_covered-AllPaths path es all.1)
  | inr kept ↦ rw kept (all.0, drop_covered-AllPaths path es all.1)
]

lookup-drop_covered :
    (path : Bytes) (q : CString) (es : List Entry)
    → IsPath q.text
    → AllPaths es
    → lookup (map_key q) (key_size q) (drop_covered path es)
      ≡ (if covers path q.text then none else lookup (map_key q) (key_size q) es)
unfolding drop_covered lookup
lookup-drop_covered path q [] hq all = ground arith
lookup-drop_covered path q (e ∷ es) hq all = ground (
  arith,
  lookup-drop_covered path q es hq all.1,
  same_path e all.0 q hq,
  eq_of_bytes_eq all.0.path.text q.text,
  stored_path-entry e all.0,
)

-- `remove_entry` returns on a map of paths and leaves a map of paths. `get_value` then finds no path
-- that is the removed one or lies below it, and gives for every other path what it gave before.
pub get_value-remove_entry :
    {m : Hashmap}
    → PathMap m
    → (path : Bytes)
    → (m' : Hashmap) × (remove_entry m path ≡ some m')
      × PathMap m'
      × ((q : CString)
          → IsPath q.text
          → get_value m' q ≡ (if below path q.text then some minus_one else get_value m q))
get_value-remove_entry pm path =
    let es = pm.entries in
    let (m', run, h) = remove_entry-drop_covered path pm.holds (readable_of_paths es pm.paths) in
    (
      m',
      run,
      record { entries = _; holds = h; paths = drop_covered-AllPaths path es pm.paths },
      λ q hq.
          rw
            (
              get_value-lookup h q,
              get_value-lookup pm.holds q,
              lookup-drop_covered path q es hq pm.paths,
              covers-below path q.text,
            )
            (ground arith),
    )

-- The paths that `get_paths` looks for, in the order in which they were added.
unfoldable pub paths_below : Bytes → List Entry → List Bytes
paths_below path [] = []
paths_below path (e ∷ es) =
    let rest = paths_below path es in
    elim (stored_path e.key) [ none ↦ rest | some t ↦ if below path t then t ∷ rest else rest ]

abbrev collect : ArrOfPaths → Entry → Option ArrOfPaths
collect arr e = elim (stored_path e.key) [
  | none ↦ none
  | some t ↦
      if covers arr.path t
      then (if ltb (length arr.paths) max_acc_paths
          then some (record arr { paths = arr.paths ++ t ∷ [] })
          else none)
      else some arr
]

collect-reads :
    (key : Bytes) (n v : ℕ) (m : Hashmap) (arr : ArrOfPaths)
    → get_paths_callback key n v m arr
      ≡ beside m (collect arr (record { key = key; ksize = n; value = v }))
unfolding get_paths_callback
collect-reads key n v m arr = ground arith

-- Rows for the paths, as far as there are enough of them.
abbrev pub rows : ArrOfPaths → List Bytes → Option ArrOfPaths
rows arr ts =
    if leb (length arr.paths + length ts) max_acc_paths
    then some (record arr { paths = arr.paths ++ ts })
    else none

fold-rows :
    (es : List Entry) (arr : ArrOfPaths)
    → AllReadable es
    → length arr.paths ≤ max_acc_paths
    → fold_option collect arr es ≡ rows arr (paths_below arr.path es)
unfolding paths_below
fold-rows [] arr all fits = rw append-nil (ground arith)
fold-rows (e ∷ es) arr all fits =
    let (t, readable) = all.0 in
    let meant = covers-below arr.path t in
    elim (Bool-cases (covers arr.path t)) [
      | inr other ↦ ground (arith, fold-rows es arr all.1 fits)
      | inl there ↦ elim (Bool-cases (ltb (length arr.paths) max_acc_paths)) [
        | inr full ↦ ground arith
        | inl free ↦
            let sizes = length-append arr.paths (t ∷ []) in
            let regroup = append_assoc arr.paths (t ∷ []) (paths_below arr.path es) in
            let rest =
              fold-rows es (record arr { paths = arr.paths ++ t ∷ [] }) all.1 (ground arith) in
            ground (arith, rest)
      ]
    ]

-- `get_paths` gives the stored paths that are `path` or lie below it, in the order in which they were
-- added, and -1 for `ss_num`; with more of them than there are rows it writes behind the last row.
pub get_paths-paths_below :
    {m : Hashmap}
    → (pm : PathMap m) → (path : Bytes)
    → get_paths m path
      ≡ rows (record { path = path; paths = []; ss_num = minus_one }) (paths_below path pm.entries)
unfolding get_paths
get_paths-paths_below pm path =
    let arr : ArrOfPaths = record { path = path; paths = []; ss_num = minus_one } in
    let es = pm.entries in
    let walk = hashmap_iterate-fold_option get_paths_callback collect collect-reads arr pm.holds in
    let all = fold-rows es arr (readable_of_paths es pm.paths) (omega arith) in
    ground (arith, walk, all)

abbrev pub AllIsPath : List Bytes → Type 0
AllIsPath [] = Unit {0}
AllIsPath (p ∷ ps) = IsPath p × AllIsPath ps

pub paths_below-IsPath :
    (path : Bytes) (es : List Entry) → AllPaths es → AllIsPath (paths_below path es)
unfolding paths_below
paths_below-IsPath path [] all = tt
paths_below-IsPath path (e ∷ es) all =
    let t = all.0.path.text in
    let rest = paths_below path es in
    elim (Bool-cases (below path t)) [
      | inl there ↦
          let step : paths_below path (e ∷ es) ≡ t ∷ rest =
            ground (arith, stored_path-entry e all.0) in
          subst AllIsPath (sym step) (all.0.is_path, paths_below-IsPath path es all.1)
      | inr other ↦
          let step : paths_below path (e ∷ es) ≡ rest = ground (arith, stored_path-entry e all.0) in
          subst AllIsPath (sym step) (paths_below-IsPath path es all.1)
    ]
