-- ===== src/Operations/Tests.antt =====
-- The theorems about CREATE and DELETE at an empty map.
use nfs_network_file_system.Prelude.{◌≡◌, ◌⊎◌, List, [], ◌∷◌}
use nfs_network_file_system.Prelude.Bytes.{Bytes, codes}
use nfs_network_file_system.Hashmap.{hashmap_create}
use nfs_network_file_system.Operations.{
  Files, Outcome, exited, create_full_path, delete_full_path, create_command, delete_command,
}
use nfs_network_file_system.Operations.Extension.{
  HasExtension, create_command-HasExtension, delete_command-HasExtension,
}

abbrev no_files : Files
no_files = record { path_to_sem = hashmap_create; associated_files = 0 }

abbrev works : List Bytes → Outcome
works command = exited 0

create_command-HasExtension_example :
    (HasExtension (codes "a.c")
      × (create_command (codes "/d") (codes "a.c")
          ≡ codes "touch" ∷ create_full_path (codes "/d") (codes "a.c") ∷ []))
    ⊎ (¬ HasExtension (codes "a.c")
        × (create_command (codes "/d") (codes "a.c")
            ≡ codes "mkdir" ∷ create_full_path (codes "/d") (codes "a.c") ∷ []))
create_command-HasExtension_example = create_command-HasExtension (codes "/d") (codes "a.c")

delete_command-HasExtension_example :
    (HasExtension (codes "/d")
      × (delete_command (codes "/d") ≡ codes "rm" ∷ delete_full_path (codes "/d") ∷ []))
    ⊎ (¬ HasExtension (codes "/d")
        × (delete_command (codes "/d")
            ≡ codes "rm" ∷ codes "-rf" ∷ delete_full_path (codes "/d") ∷ []))
delete_command-HasExtension_example = delete_command-HasExtension (codes "/d")
