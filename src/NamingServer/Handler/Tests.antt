-- ===== src/NamingServer/Handler/Tests.antt =====
-- The theorems about a client's thread at small servers.
use nfs_network_file_system.Prelude.{
  ℕ, zero, suc, refl, Bool, true, false, not, ◌||◌, ◌&&◌, ◌==◌, ltb, some, ◌⊎◌, inl, inr,
  Bool-cases, arith,
}
use nfs_network_file_system.Text.{is_space, space}
use nfs_network_file_system.Hashmap.{Hashmap, hashmap_create}
use nfs_network_file_system.MapOperations.{c_string, set_value}
use nfs_network_file_system.MapOperations.Values.{IsPath}
use nfs_network_file_system.Io.{c_text}
use nfs_network_file_system.NamingServer.{NamingServer}
use nfs_network_file_system.NamingServer.Serving.{IsServing, create-IsServing, set_value-IsServing}
use nfs_network_file_system.NamingServer.Invariant.{Post, Keeps, AllClean}
use nfs_network_file_system.NamingServer.Lines.{IsLine}
use nfs_network_file_system.NamingServer.Handler.{client_handler}
use nfs_network_file_system.NamingServer.Handler.Keeps.{AllLines, client_handler-Keeps}
use nfs_network_file_system.Prelude.{◌≡◌, List, [], ◌∷◌, ◌++◌, replicate}
use nfs_network_file_system.Prelude.Bytes.{Bytes, codes}
use nfs_network_file_system.Command.{max_args}
use nfs_network_file_system.Io.{World, received}
use nfs_network_file_system.NamingServer.Register.{initial}

abbrev rows : List Bytes
rows = replicate max_args []

abbrev two_lines : World
two_lines = record {
  sends = [];
  replies =
      received (codes "READ /d" ++ 10 ∷ [])
      ∷ received (codes "exit" ++ 10 ∷ 27 ∷ codes "[0;37m")
      ∷ [];
  log = [];
}

dir_IsPath : IsPath (codes "/d")
dir_IsPath = record { nonempty = λ e. cc; unspaced = (refl, (refl, tt)); bytes = omega arith }

abbrev serving_dir :
    (m : Hashmap) × (set_value hashmap_create (c_string (codes "/d")) 0 ≡ some m) × IsServing 1 m
serving_dir =
    set_value-IsServing 1 hashmap_create (c_string (codes "/d")) 0 (create-IsServing 1) dir_IsPath
      (omega arith) (inr (omega arith))

abbrev serving_server : NamingServer
serving_server = record initial { storage_server_count = 1; accessible_paths = serving_dir.0 }

-- Whether the bytes are a line.
abbrev is_line : Bytes → Bool
is_line [] = true
is_line (c ∷ s) =
    ltb c 256 && ((not (is_space c) || ((c == space) || ((c == 9) || (c == 10)))) && is_line s)

line_byte :
    (c : ℕ)
    → not (is_space c) || ((c == space) || ((c == 9) || (c == 10))) ≡ true
    → (is_space c ≡ false) ⊎ (((c == space) || ((c == 9) || (c == 10))) ≡ true)
line_byte c h = elim (Bool-cases (is_space c)) [
  | inl white ↦ inr (ground arith)
  | inr plain ↦ inl plain
]

is_line-IsLine : (s : Bytes) → is_line s ≡ true → IsLine s
is_line-IsLine [] h = tt
is_line-IsLine (c ∷ s) h =
    (ground arith, line_byte c (ground arith), is_line-IsLine s (ground arith))

two_lines_plain : AllLines two_lines.replies
unfolding c_text
two_lines_plain = (
  is_line-IsLine (codes "READ /d" ++ 10 ∷ []) refl,
  (is_line-IsLine (codes "exit" ++ 10 ∷ 27 ∷ codes "[0;37m") refl, tt),
)

empty_rows : (k : ℕ) → AllClean (replicate k [])
empty_rows zero = tt
empty_rows (suc k) = ((tt, tt), empty_rows k)

client_handler-Keeps_example :
    Post
      (Keeps 1)
      (client_handler (λ key. c_string (codes "/operations")) rows serving_server two_lines)
client_handler-Keeps_example =
    client_handler-Keeps 1 (omega arith) (λ key. c_string (codes "/operations")) rows serving_server
      two_lines (refl, serving_dir.2) (empty_rows max_args) two_lines_plain
