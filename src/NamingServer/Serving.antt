-- ===== src/NamingServer/Serving.antt =====
-- The accessible paths of namingserver.c: each belongs to one of the storage servers.
use nfs_network_file_system.Prelude.{
  ℕ, ◌+◌, ◌^◌, ◌<◌, ◌≤◌, ◌≡◌, refl, subst, ◌⊎◌, inl, inr, List, [], ◌∷◌, ◌++◌, some, ltb, leb,
  arith, Bool-cases, length, drop,
}
use nfs_network_file_system.Prelude.Bytes.{Bytes}
use nfs_network_file_system.Text.{slash}
use nfs_network_file_system.Hashmap.{Hashmap, hashmap_create}
use nfs_network_file_system.Hashmap.Dict.{Entry, lookup, put, same_key}
use nfs_network_file_system.Hashmap.Invariant.{Holds}
use nfs_network_file_system.Hashmap.Set.{hashmap_set-put, hashmap_create-Holds}
use nfs_network_file_system.MapOperations.{
  CString, c_string, map_key, minus_one, to_uintptr, to_int, has_slash, max_acc_paths, set_value,
  get_value, remove_entry, add_paths_loop, add_paths_to_list,
}
use nfs_network_file_system.MapOperations.Values.{
  IsPath, AllPaths, PathMap, key_size, int_of, get_value-lookup, put-AllPaths, to_int-to_uintptr,
}
use nfs_network_file_system.MapOperations.RemoveEntry.{
  covered_key, drop_covered, remove_entry-drop_covered,
}
use nfs_network_file_system.MapOperations.Paths.{
  readable_of_paths, drop_covered-AllPaths, AllIsPath, paths_below, paths_below-IsPath,
  get_paths-paths_below,
}
use nfs_network_file_system.NamingServer.Names.{IsClean, child-IsClean}
use nfs_network_file_system.MapOperations.AddPaths.{NoSpaces-drop, AllBytes-drop}

-- The number of a storage server, or -1.
abbrev pub IsServer : ℕ → ℕ → Type 0
IsServer count v = (v ≡ minus_one) ⊎ (v < count)

abbrev pub AllServers : ℕ → List Entry → Type 0
AllServers count [] = Unit {0}
AllServers count (e ∷ es) = IsServer count (to_int e.value) × AllServers count es

-- A map of paths whose values are all those of storage servers.
pub record IsServing (count : ℕ) (m : Hashmap) : Type 0 where
  pub entries : List Entry
  pub holds : Holds m entries
  pub paths : AllPaths entries
  pub servers : AllServers count entries

pub create-IsServing : (count : ℕ) → IsServing count hashmap_create
create-IsServing count = record {
  entries = [];
  holds = hashmap_create-Holds;
  paths = tt;
  servers = tt;
}

put-AllServers :
    (count : ℕ) (key : Bytes) (n v : ℕ) (es : List Entry)
    → IsServer count (to_int v)
    → AllServers count es
    → AllServers count (put key n v es)
unfolding put
put-AllServers count key n v [] one all = (one, tt)
put-AllServers count key n v (e ∷ es) one all = elim (Bool-cases (same_key e key n)) [
  | inl same ↦ rw same (one, all.1)
  | inr other ↦ rw other (all.0, put-AllServers count key n v es one all.1)
]

drop_covered-AllServers :
    (count : ℕ) (path : Bytes) (es : List Entry)
    → AllServers count es
    → AllServers count (drop_covered path es)
unfolding drop_covered
drop_covered-AllServers count path [] all = tt
drop_covered-AllServers count path (e ∷ es) all = elim (Bool-cases (covered_key path e.key)) [
  | inl gone ↦ rw gone (drop_covered-AllServers count path es all.1)
  | inr kept ↦ rw kept (all.0, drop_covered-AllServers count path es all.1)
]

lookup-AllServers :
    (count : ℕ) (key : Bytes) (n : ℕ) (es : List Entry)
    → AllServers count es
    → IsServer count (int_of (lookup key n es))
unfolding lookup
lookup-AllServers count key n [] all = inl refl
lookup-AllServers count key n (e ∷ es) all = elim (Bool-cases (same_key e key n)) [
  | inl same ↦ rw same all.0
  | inr other ↦ rw other (lookup-AllServers count key n es all.1)
]

pub get_value-IsServing :
    (count : ℕ) (m : Hashmap) (q : CString)
    → IsServing count m
    → (v : ℕ) × (get_value m q ≡ some v) × IsServer count v
get_value-IsServing count m q s = (
  int_of (lookup (map_key q) (key_size q) s.entries),
  get_value-lookup s.holds q,
  lookup-AllServers count (map_key q) (key_size q) s.entries s.servers,
)

server_size : (count v : ℕ) → count ≤ 2 ^ 31 → IsServer count v → v < 2 ^ 32
server_size count v small (inl e) = omega arith
server_size count v small (inr h) = omega arith

pub set_value-IsServing :
    (count : ℕ) (m : Hashmap) (p : CString) (v : ℕ)
    → IsServing count m
    → IsPath p.text
    → count ≤ 2 ^ 31
    → IsServer count v
    → (m' : Hashmap) × (set_value m p v ≡ some m') × IsServing count m'
unfolding set_value
set_value-IsServing count m p v s hp small one =
    let (m', run, h) =
      hashmap_set-put s.holds (map_key p) (key_size p) (to_uintptr v) (omega arith) in
    let same = to_int-to_uintptr v (server_size count v small one) in
    (
      m',
      run,
      record {
        entries = _;
        holds = h;
        paths = put-AllPaths p (to_uintptr v) s.entries hp s.paths;
        servers =
            put-AllServers count (map_key p) (key_size p) (to_uintptr v) s.entries (rw same one)
              s.servers;
      },
    )

pub remove_entry-IsServing :
    (count : ℕ) (m : Hashmap) (path : Bytes)
    → IsServing count m
    → (m' : Hashmap) × (remove_entry m path ≡ some m') × IsServing count m'
remove_entry-IsServing count m path s =
    let (m', run, h) =
      remove_entry-drop_covered path s.holds (readable_of_paths s.entries s.paths) in
    (
      m',
      run,
      record {
        entries = _;
        holds = h;
        paths = drop_covered-AllPaths path s.entries s.paths;
        servers = drop_covered-AllServers count path s.entries s.servers;
      },
    )

add_paths_loop-IsServing :
    (count : ℕ) (dir : Bytes) (ps : List Bytes) (i : ℕ) (m m' : Hashmap)
    → IsServing count m
    → IsClean dir
    → AllIsPath ps
    → count ≤ 2 ^ 31
    → add_paths_loop m minus_one dir i ps ≡ some m'
    → IsServing count m'
unfolding add_paths_loop
add_paths_loop-IsServing count dir [] i m m' s d all small run =
    let same : m ≡ m' = ground (arith, run) in subst (IsServing count) same s
add_paths_loop-IsServing count dir (p ∷ ps) i m m' s d all small run =
    elim (Bool-cases (ltb (length p) (i + 1))) [
      | inl short ↦ absurd (ground arith)
      | inr long ↦
          let rest : IsClean (drop (i + 1) p) =
            (NoSpaces-drop (i + 1) p all.0.unspaced, AllBytes-drop (i + 1) p all.0.bytes) in
          let key = c_string (dir ++ slash ∷ drop (i + 1) p) in
          let (m₁, run₁, s₁) =
            set_value-IsServing count m key minus_one s (child-IsClean dir (drop (i + 1) p) d rest)
              small (inl refl) in
          add_paths_loop-IsServing count dir ps (i + 1) m₁ m' s₁ d all.1 small
            (ground (arith, run, run₁))
    ]

pub add_paths_to_list-IsServing :
    (count : ℕ) (m m' : Hashmap) (ss_num : ℕ) (dir folder : Bytes)
    → IsServing count m
    → IsClean dir
    → count ≤ 2 ^ 31
    → add_paths_to_list m ss_num dir folder ≡ some m'
    → IsServing count m'
unfolding add_paths_to_list
add_paths_to_list-IsServing count m m' ss_num dir folder s d small run =
    let pm : PathMap m = record { entries = s.entries; holds = s.holds; paths = s.paths } in
    let ps = paths_below folder s.entries in
    let found = get_paths-paths_below pm folder in
    elim (Bool-cases (leb (length ps) max_acc_paths)) [
      | inr many ↦ absurd (ground (arith, found, run))
      | inl few ↦ elim (Bool-cases (has_slash folder)) [
        | inr bare ↦ absurd (ground (arith, found, run))
        | inl slashed ↦
            add_paths_loop-IsServing count dir ps 0 m m' s d
              (paths_below-IsPath folder s.entries s.paths) small (ground (arith, found, run))
      ]
    ]
