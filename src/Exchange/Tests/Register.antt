-- ===== src/Exchange/Tests/Register.antt =====
-- The theorems about registration at one storage server with one directory.
use nfs_network_file_system.Prelude.{
  ℕ, ◌+◌, ◌*◌, ◌==◌, get_or, drop, replicate, ◌≡◌, refl, arith, List, [], ◌∷◌, ◌++◌, some,
  if◌then◌else◌,
}
use nfs_network_file_system.Prelude.Bytes.{Bytes, codes, bytes_eq}
use nfs_network_file_system.Text.{case_eq}
use nfs_network_file_system.MapOperations.{max_acc_paths}
use nfs_network_file_system.MapOperations.Values.{IsPath}
use nfs_network_file_system.Io.{Event, ok, exited as exits}
use nfs_network_file_system.Io.Delivery.{int_bytes, delivered}
use nfs_network_file_system.Operations.{Files}
use nfs_network_file_system.NamingServer.{NamingServer, StorageServer, zero_server}
use nfs_network_file_system.NamingServer.Talk.{willing}
use nfs_network_file_system.StorageServer.{Locks}
use nfs_network_file_system.StorageServer.Ports.{initial_store}
use nfs_network_file_system.StorageServer.Created.{IsSetUp, initial_store-IsSetUp}
use nfs_network_file_system.StorageServer.Connections.{network}
use nfs_network_file_system.StorageServer.Startup.{
  Directory, readable, end, file, directory, get_files, pick_files, accessible_rows, start_up,
}
use nfs_network_file_system.NamingServer.Register.{initial, path_at, connection, served}
use nfs_network_file_system.NamingServer.First.{AllRows, Registers}
use nfs_network_file_system.Exchange.Register.{
  IsReady, connection-start_up, connection-start_up_refused,
}
use nfs_network_file_system.Exchange.Tests.{dir, dir_IsPath, one_server}

-- A structure as bytes for the examples: texts end in a NUL, and numbers have four bytes.
abbrev encode_rows : List Bytes → Bytes
encode_rows [] = []
encode_rows (r ∷ rows) = r ++ 0 ∷ encode_rows rows

abbrev encode : StorageServer → Bytes
encode ss =
    int_bytes ss.naming_port
    ++ (int_bytes ss.client_port ++ (ss.ip ++ 0 ∷ encode_rows ss.accessible_paths))

abbrev int_at : Bytes → ℕ → ℕ
int_at b i =
    get_or b i 0
    + 256 * (get_or b (i + 1) 0 + 256 * (get_or b (i + 2) 0 + 256 * get_or b (i + 3) 0))

-- The texts one after the other, from the one that has begun.
abbrev texts_of : Bytes → Bytes → List Bytes
texts_of begun [] = []
texts_of begun (c ∷ b) = if c == 0 then begun ∷ texts_of [] b else texts_of (begun ++ c ∷ []) b

abbrev server_of : ℕ → ℕ → List Bytes → StorageServer
server_of naming_port client_port [] = zero_server
server_of naming_port client_port (ip ∷ rows) = record {
  ip = ip;
  naming_port = naming_port;
  client_port = client_port;
  accessible_paths = rows;
}

abbrev decode : Bytes → StorageServer
decode b = server_of (int_at b 0) (int_at b 4) (texts_of [] (drop 8 b))

abbrev tree : Directory
tree = readable (file (codes "f") (directory (codes "d") (readable (file (codes "g") end)) end))

abbrev stack : List Bytes
stack = replicate 15 dir

abbrev chosen : List Bytes
chosen = codes "/d" ∷ codes "/d/g" ∷ []

abbrev newcomer : StorageServer
newcomer = record {
  ip = codes "127.0.0.1";
  naming_port = 5000;
  client_port = 6000;
  accessible_paths = codes "/d" ∷ codes "/d/g" ∷ replicate 13 dir;
}

child_IsPath : IsPath (codes "/d/g")
child_IsPath = record {
  nonempty = λ e. cc;
  unspaced = (refl, (refl, (refl, (refl, tt))));
  bytes = omega arith;
}

chosen_stored :
    (f : Files) × (l : Locks) × (initial_store chosen ≡ some (f, l))
    × IsSetUp f l
    × (f.associated_files ≡ 2)
chosen_stored = initial_store-IsSetUp chosen (dir_IsPath, (child_IsPath, tt)) (omega arith)

newcomer-IsReady :
    IsReady
      (codes "/srv")
      tree
      (2 ∷ 3 ∷ [])
      stack
      newcomer.accessible_paths
      chosen_stored.0
      chosen_stored.1
unfolding get_files pick_files accessible_rows case_eq bytes_eq
newcomer-IsReady = record {
  files = codes "/f" ∷ codes "/d" ∷ codes "/d/g" ∷ [];
  chosen = chosen;
  listed = refl;
  picked = refl;
  few = omega arith;
  stored = chosen_stored.2;
  filled = refl;
}

newcomer_rows : AllRows newcomer 0 max_acc_paths
unfolding path_at
newcomer_rows = (
  dir_IsPath,
  (
    child_IsPath,
    (
      dir_IsPath,
      (
        dir_IsPath,
        (
          dir_IsPath,
          (
            dir_IsPath,
            (
              dir_IsPath,
              (
                dir_IsPath,
                (
                  dir_IsPath,
                  (
                    dir_IsPath,
                    (dir_IsPath, (dir_IsPath, (dir_IsPath, (dir_IsPath, (dir_IsPath, tt))))),
                  ),
                ),
              ),
            ),
          ),
        ),
      ),
    ),
  ),
)

connection-start_up_example :
    (n' : NamingServer) × (server : List Event) × (peer : List Event) × (connection decode initial
        (willing (delivered peer) [])
      ≡ ok (served n') (willing [] server))
    × (start_up encode
          (codes "/srv")
          tree
          5000
          6000
          (2 ∷ 3 ∷ [])
          (codes "127.0.0.1")
          stack
          (network (delivered server) [])
        ≡ ok (chosen_stored.0, chosen_stored.1) (network [] peer))
    × Registers newcomer n'
connection-start_up_example =
    connection-start_up encode decode (codes "/srv") tree (2 ∷ 3 ∷ []) stack newcomer
      chosen_stored.0 chosen_stored.1 newcomer-IsReady refl newcomer_rows
      (λ e. absurd (omega arith)) (λ e. absurd (omega arith))

connection-start_up_refused_example :
    (server : List Event) × (peer : List Event) × (connection decode one_server
        (willing (delivered peer) [])
      ≡ ok (served one_server) (willing [] server))
    × (start_up encode
          (codes "/srv")
          tree
          5000
          6000
          (2 ∷ 3 ∷ [])
          (codes "127.0.0.1")
          stack
          (network (delivered server) [])
        ≡ exits (network [] peer))
connection-start_up_refused_example =
    connection-start_up_refused encode decode (codes "/srv") tree (2 ∷ 3 ∷ []) stack newcomer
      chosen_stored.0 chosen_stored.1 newcomer-IsReady refl one_server refl
