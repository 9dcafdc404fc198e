-- ===== src/Operations/Lemmas.antt =====
-- CREATE and DELETE of operations/create_file.c and delete.c: what they run, and what they do to the
-- map of semaphores.
use nfs_network_file_system.Prelude.{
  ℕ, zero, suc, ◌+◌, ◌-◌, ◌^◌, ◌<◌, ◌≤◌, ◌≡◌, refl, sym, ap, subst, ◌&&◌, Bool, List, [], ◌∷◌, ◌++◌,
  some, ◌==◌, if◌then◌else◌, arith, Bool-cases, inl, inr, length, take, drop,
}
use nfs_network_file_system.Prelude.Bytes.{Bytes, bytes_eq}
use nfs_network_file_system.Text.{slash}
use nfs_network_file_system.MapOperations.{CString, minus_one, set_value, get_value}
use nfs_network_file_system.MapOperations.Values.{IsPath, PathMap, get_value-set_value}
use nfs_network_file_system.Command.{path_max}
use nfs_network_file_system.Operations.{
  Files, Outcome, succeeded, create_full_path, create_command, delete_command, inner_path,
  run_create,
}

take_all : (n : ℕ) (s : Bytes) → length s ≤ n → take n s ≡ s
take_all zero [] h = refl
take_all (suc n) [] h = refl
take_all zero (c ∷ s) h = absurd (omega arith)
take_all (suc n) (c ∷ s) h = ap (λ t. c ∷ t) (take_all n s (omega arith))

-- The path that CREATE makes an entry for.
abbrev pub joined : Bytes → Bytes → Bytes
joined path filename = path ++ slash ∷ filename

inner_path-create_full_path :
    (path filename : Bytes)
    → length (joined path filename) < path_max - 1
    → inner_path (create_full_path path filename)
      ≡ record { before = b'.'; text = joined path filename }
unfolding inner_path create_full_path
inner_path-create_full_path path filename short =
    ap (λ t. record { before = b'.'; text = drop 1 t })
      (take_all (path_max - 1) (b'.' ∷ joined path filename) (omega (arith, short)))

module _ (execvp : List Bytes → Outcome) where
  -- Whether a CREATE with so many words is carried out.
  unfoldable pub creates : Bytes → Bytes → ℕ → Bool
  creates path filename no_args =
      (no_args == 3) && succeeded (execvp (create_command path filename))

  unfoldable pub deletes : Bytes → ℕ → Bool
  deletes path no_args = (no_args == 2) && succeeded (execvp (delete_command path))

  pub run_create-get_value :
      (f : Files) (command path filename : Bytes) (rest : List Bytes) (no_args : ℕ)
      → PathMap f.path_to_sem
      → IsPath (joined path filename)
      → length (joined path filename) < path_max - 1
      → f.associated_files < 2 ^ 31
      → (f' : Files) × (run_create execvp f (command ∷ path ∷ filename ∷ rest) no_args
          ≡ some (
            f',
            if no_args == 3 then (if creates path filename no_args then 1 else 0) else minus_one,
          ))
        × (f'.associated_files ≡ (
            if creates path filename no_args then f.associated_files + 1 else f.associated_files))
        × PathMap f'.path_to_sem
        × ((q : CString)
            → IsPath q.text
            → get_value f'.path_to_sem q ≡ (
                if creates path filename no_args && bytes_eq (joined path filename) q.text
                then some f.associated_files
                else get_value f.path_to_sem q))
  unfolding run_create creates
  run_create-get_value f command path filename rest no_args pm hp short small =
      elim (Bool-cases (no_args == 3)) [
        | inr other ↦ rw other (f, refl, refl, pm, λ q hq. refl)
        | inl three ↦ elim (Bool-cases (succeeded (execvp (create_command path filename)))) [
          | inr failed ↦ rw (three, failed) (f, refl, refl, pm, λ q hq. refl)
          | inl done ↦
              let key : CString = record { before = b'.'; text = joined path filename } in
              let inner : inner_path (create_full_path path filename) ≡ key =
                inner_path-create_full_path path filename short in
              let (m, run, pm', read) =
                get_value-set_value pm key f.associated_files hp (omega arith) in
              let run' =
                subst (λ k. set_value f.path_to_sem k f.associated_files ≡ some m) (sym inner)
                  run in
              rw (three, done)
                (
                  record { path_to_sem = m; associated_files = f.associated_files + 1 },
                  rw run' refl,
                  refl,
                  pm',
                  read,
                )
        ]
      ]
