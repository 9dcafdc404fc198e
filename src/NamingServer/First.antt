-- ===== src/NamingServer/First.antt =====
-- The first storage server that registers with namingserver.c: its paths are recorded for it.
use nfs_network_file_system.Prelude.{
  ℕ, zero, suc, ◌+◌, ◌*◌, ◌^◌, ◌<◌, ◌≡◌, ◌≢◌, refl, ap, ◌∙◌, ◌||◌, Bool, true, false, List, [], ◌∷◌,
  ◌++◌, some, if◌then◌else◌, arith, ltb, take, set, get_or, subst, ◌-◌,
}
use nfs_network_file_system.Prelude.Bytes.{Bytes, codes, bytes_eq}
use nfs_network_file_system.Hashmap.{Hashmap}
use nfs_network_file_system.MapOperations.{CString, minus_one, max_acc_paths, set_value, get_value}
use nfs_network_file_system.MapOperations.Values.{
  IsPath, PathMap, create-PathMap, get_value-set_value, get_value-lookup,
}
use nfs_network_file_system.Hashmap.Dict.{lookup}
use nfs_network_file_system.Hashmap.Set.{hashmap_create-Holds}
use nfs_network_file_system.Io.{registrant, text, sent, Event, Reply, ok, send}
use nfs_network_file_system.Lru.{Lru, put_lru}
use nfs_network_file_system.Lru.Items.{Item}
use nfs_network_file_system.Lru.Invariant.{IsLru}
use nfs_network_file_system.Lru.Put.{put_lru-ideal_put}
use nfs_network_file_system.Lru.Run.{create_lru-IsLru}
use nfs_network_file_system.NamingServer.{
  NamingServer, StorageServer, Key, path_row, literal, server_at, zero_server, ack,
}
use nfs_network_file_system.NamingServer.Talk.{willing}
use nfs_network_file_system.NamingServer.Ports.{ports_in_use}
use nfs_network_file_system.NamingServer.Register.{
  max_ss, naming_server_port, initial, ports_taken, path_at, text_of, add_paths, add_server,
  register_server,
}

-- A path is among so many rows from a number on.
unfoldable pub is_row : StorageServer → ℕ → ℕ → Bytes → Bool
is_row ss i zero q = false
is_row ss i (suc rounds) q = bytes_eq (path_at ss i).text q || is_row ss (i + 1) rounds q

abbrev pub AllRows : StorageServer → ℕ → ℕ → Type 0
AllRows ss i zero = Unit {0}
AllRows ss i (suc rounds) = IsPath (path_at ss i).text × AllRows ss (i + 1) rounds

-- What the loop over the rows leaves.
record AddsPaths (ss : StorageServer) (i rounds : ℕ) (n : NamingServer) : Type 0 where
  n' : NamingServer
  items : List Item
  runs : add_paths ss rounds i n ≡ some n'
  count : n'.storage_server_count ≡ n.storage_server_count
  infos : n'.storage_servers_info ≡ n.storage_servers_info
  ports : n'.used_ports ≡ n.used_ports
  path_map : PathMap n'.accessible_paths
  is_lru : IsLru (text_of ss) n'.lru items
  known :
      (q : CString)
      → IsPath q.text
      → get_value n'.accessible_paths q ≡ (
          if is_row ss i rounds q.text
          then some n.storage_server_count
          else get_value n.accessible_paths q)

add_paths_done : (ss : StorageServer) (i : ℕ) (n : NamingServer) → add_paths ss zero i n ≡ some n
unfolding add_paths
add_paths_done ss i n = refl

add_paths_step :
    (ss : StorageServer) (i rounds : ℕ) (n : NamingServer) (m : Hashmap) (l : Lru Key)
    → set_value n.accessible_paths (path_at ss i) n.storage_server_count ≡ some m
    → put_lru (text_of ss) n.lru (path_row i) n.storage_server_count ≡ some l
    → add_paths ss (suc rounds) i n
      ≡ add_paths ss rounds (i + 1) (record n { accessible_paths = m; lru = l })
unfolding add_paths
add_paths_step ss i rounds n m l e f = ground (arith, e, f)

add_paths-is_row :
    (ss : StorageServer) (i rounds : ℕ) (n : NamingServer) (items : List Item)
    → AllRows ss i rounds
    → PathMap n.accessible_paths
    → IsLru (text_of ss) n.lru items
    → n.storage_server_count < 2 ^ 32
    → AddsPaths ss i rounds n
unfolding is_row text_of
add_paths-is_row ss i zero n items rows pm lru small = record {
  n' = n;
  items = items;
  runs = add_paths_done ss i n;
  count = refl;
  infos = refl;
  ports = refl;
  path_map = pm;
  is_lru = lru;
  known = λ q hq. refl;
}
add_paths-is_row ss i (suc rounds) n items rows pm lru small =
    let count = n.storage_server_count in
    let (m, run, pm', read) = get_value-set_value pm (path_at ss i) count rows.0 small in
    let p = put_lru-ideal_put (text_of ss) lru (path_row i) count rows.0.nonempty in
    let r =
      add_paths-is_row ss (i + 1) rounds (record n { accessible_paths = m; lru = p.l' }) p.items
        rows.1 pm' p.keeps small in
    record {
      n' = r.n';
      items = r.items;
      runs = add_paths_step ss i rounds n m p.l' run p.runs ∙ r.runs;
      count = r.count;
      infos = r.infos;
      ports = r.ports;
      path_map = r.path_map;
      is_lru = r.is_lru;
      known = λ q hq. r.known q hq ∙ ground (arith, read q hq);
    }

initial-PathMap : PathMap initial.accessible_paths
unfolding initial
initial-PathMap = create-PathMap

initial-IsLru : (ss : StorageServer) → IsLru (text_of ss) initial.lru []
unfolding initial
initial-IsLru ss = create_lru-IsLru (text_of ss) (literal (codes "#")) 3 (omega arith)

initial_unknown : (q : CString) → get_value initial.accessible_paths q ≡ some minus_one
unfolding initial lookup
initial_unknown q = get_value-lookup hashmap_create-Holds q

empty_count : initial.storage_server_count ≡ 0
unfolding initial
empty_count = refl

row_number :
    (b : Bool) (q : CString)
    → (if b then some initial.storage_server_count else get_value initial.accessible_paths q)
      ≡ some (if b then 0 else minus_one)
row_number true q = ap (λ (c : ℕ). some c) empty_count
row_number false q = initial_unknown q

-- What a registration leaves: the first entries of the tables.
pub record Registers (ss : StorageServer) (n' : NamingServer) : Type 0 where
  pub count : n'.storage_server_count ≡ 1
  pub info : server_at n' 0 ≡ ss
  pub ports : ports_in_use n' ≡ naming_server_port ∷ ss.naming_port ∷ ss.client_port ∷ []
  pub path_map : PathMap n'.accessible_paths
  pub known :
      (q : CString)
      → IsPath q.text
      → get_value n'.accessible_paths q
        ≡ some (if is_row ss 0 max_acc_paths q.text then 0 else minus_one)

-- The tables after a server is added to those that the loop leaves.
abbrev added : ℕ → StorageServer → NamingServer → NamingServer
added count ss n' = record n' {
  storage_server_count = count + 1;
  storage_servers_info = set n'.storage_servers_info count ss;
  used_ports =
      set (set n'.used_ports ((count + 1) * 2 - 1) ss.naming_port) ((count + 1) * 2) ss.client_port;
}

add_server_step :
    (n n' : NamingServer) (ss : StorageServer)
    → n.storage_server_count < max_ss
    → add_paths ss max_acc_paths 0 n ≡ some n'
    → add_server n ss ≡ some (added n.storage_server_count ss n')
unfolding add_server
add_server_step n n' ss room runs =
    let room_b : ltb n.storage_server_count max_ss ≡ true = ground arith in rw (room_b, runs) refl

first_tables :
    (ss : StorageServer) (n' : NamingServer)
    → n'.storage_servers_info ≡ initial.storage_servers_info
    → n'.used_ports ≡ initial.used_ports
    → (server_at (added 0 ss n') 0 ≡ ss)
      × (ports_in_use (added 0 ss n') ≡ naming_server_port ∷ ss.naming_port ∷ ss.client_port ∷ [])
unfolding initial
first_tables ss n' infos ports = (
  ap (λ l. get_or (set l 0 ss) 0 zero_server) infos,
  ap (λ (l : List ℕ). take 3 (set (set l 1 ss.naming_port) 2 ss.client_port)) ports,
)

first_unused :
    (ss : StorageServer)
    → ss.naming_port ≢ naming_server_port
    → ss.client_port ≢ naming_server_port
    → ports_taken initial.used_ports
        (initial.storage_server_count * 2 + 1)
        ss.naming_port
        ss.client_port
      ≡ false
unfolding initial ports_taken
first_unused ss a b = ground arith

add_server-Registers :
    (ss : StorageServer)
    → AllRows ss 0 max_acc_paths
    → (n' : NamingServer) × (add_server initial ss ≡ some n') × Registers ss n'
add_server-Registers ss rows =
    let r =
      add_paths-is_row ss 0 max_acc_paths initial [] rows initial-PathMap (initial-IsLru ss)
        (omega (arith, empty_count)) in
    let tables = first_tables ss r.n' r.infos r.ports in
    (
      added 0 ss r.n',
      subst (λ (c : ℕ). add_server initial ss ≡ some (added c ss r.n')) empty_count
          (add_server_step initial r.n' ss (omega (arith, empty_count)) r.runs),
      record {
        count = refl;
        info = tables.0;
        ports = tables.1;
        path_map = r.path_map;
        known = λ q hq. r.known q hq ∙ row_number (is_row ss 0 max_acc_paths q.text) q;
      },
    )

-- When every `send` succeeds, and all fifteen rows of the storage server are paths: the first
-- registration, with ports other than that of the naming server, is acknowledged. The server is then
-- number 0 of one, its two ports are in use beside that of the naming server, and the look-up of a
-- path gives number 0 for the rows of the server and -1 for every other path.
pub register_server-Registers :
    (ss : StorageServer) (rest : List Reply) (log : List Event)
    → AllRows ss 0 max_acc_paths
    → ss.naming_port ≢ naming_server_port
    → ss.client_port ≢ naming_server_port
    → (n' : NamingServer) × (register_server initial ss (willing rest log)
        ≡ ok n' (willing rest (log ++ sent registrant (text ack) ∷ [])))
      × Registers ss n'
unfolding register_server send
register_server-Registers ss rest log rows differ_n differ_c =
    let (n', run, r) = add_server-Registers ss rows in
    let unused : ports_taken initial.used_ports (initial.storage_server_count * 2 + 1)
          ss.naming_port ss.client_port
        ≡ false =
      first_unused ss differ_n differ_c in
    (n', rw (unused, run) refl, r)
