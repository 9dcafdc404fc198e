-- ===== src/StorageServer/Created.antt =====
-- The semaphores that `main` of storageserverinit.c sets up, and those of the files that CREATE makes.
use nfs_network_file_system.Prelude.{
  ℕ, zero, suc, ◌+◌, ◌-◌, ◌<◌, ◌≤◌, ◌≡◌, refl, ◌∙◌, true, false, List, [], ◌∷◌, Option, some, ◌==◌,
  ltb, if◌then◌else◌, arith, get_elem?, set, length, replicate, length-set,
}
use nfs_network_file_system.Prelude.Bytes.{Bytes, bytes_eq, bytes_eq_refl}
use nfs_network_file_system.Hashmap.{Hashmap, hashmap_create}
use nfs_network_file_system.Hashmap.Dict.{lookup}
use nfs_network_file_system.Hashmap.Set.{hashmap_create-Holds}
use nfs_network_file_system.MapOperations.{CString, c_string, minus_one, get_value}
use nfs_network_file_system.MapOperations.Values.{
  IsPath, PathMap, create-PathMap, get_value-set_value, get_value-lookup,
}
use nfs_network_file_system.Io.{World, ok, blocked}
use nfs_network_file_system.Command.{path_max}
use nfs_network_file_system.Operations.{Files, succeeded, create_command, run_create}
use nfs_network_file_system.Operations.Lemmas.{joined, creates, run_create-get_value}
use nfs_network_file_system.StorageServer.{Locks, no_locks, max_associated_files}
use nfs_network_file_system.StorageServer.Locking.{IsShut, IsShut-blocked}
use nfs_network_file_system.StorageServer.Ports.{
  Store, System, create_server_side, read_server_side, choose_files, initial_store,
}

abbrev pub AllPathTexts : List Bytes → Type 0
AllPathTexts [] = Unit {0}
AllPathTexts (p ∷ ps) = IsPath p × AllPathTexts ps

-- The element at `j` after the elements from `i` on, `n` of them, are set to `v`.
abbrev pub filled : ℕ → ℕ → ℕ → ℕ → Option ℕ → Option ℕ
filled i zero v j old = old
filled i (suc n) v j old = if i == j then some v else filled (i + 1) n v j old

get_elem?-set :
    (s : List ℕ) (i j v : ℕ)
    → i < length s
    → get_elem? (set s i v) j ≡ (if i == j then some v else get_elem? s j)
get_elem?-set [] i j v h = absurd (omega arith)
get_elem?-set (x ∷ s) zero zero v h = refl
get_elem?-set (x ∷ s) zero (suc j) v h = ground arith
get_elem?-set (x ∷ s) (suc i) zero v h = ground arith
get_elem?-set (x ∷ s) (suc i) (suc j) v h = ground (arith, get_elem?-set s i j v (omega arith))

-- Every index that is in use is free, and every other has semaphores that are 0.
pub record IsSetUp (f : Files) (l : Locks) : Type 0 where
  pub path_map : PathMap f.path_to_sem
  pub in_bounds : f.associated_files ≤ max_associated_files
  pub files_at :
      (j : ℕ)
      → j < max_associated_files
      → get_elem? l.semaphores j ≡ some (if ltb j f.associated_files then 1 else 0)
  pub locks_at :
      (j : ℕ)
      → j < max_associated_files
      → get_elem? l.semlocks j ≡ some (if ltb j f.associated_files then 1 else 0)
  pub counts_at : (j : ℕ) → j < max_associated_files → get_elem? l.reader_count j ≡ some 0
  pub sizes :
      (length l.semaphores ≡ max_associated_files)
      × (length l.semlocks ≡ max_associated_files)
      × (length l.reader_count ≡ max_associated_files)

get_elem?-replicate : (n j : ℕ) → j < n → get_elem? {A = ℕ} (replicate n 0) j ≡ some 0
get_elem?-replicate zero j h = absurd (omega arith)
get_elem?-replicate (suc n) zero h = refl
get_elem?-replicate (suc n) (suc j) h = get_elem?-replicate n j (omega arith)

-- The number of the last of the texts that is `q`, the first one having the number `i`; `old` if none is.
abbrev pub last_index : Bytes → List Bytes → ℕ → ℕ → ℕ
last_index q [] i old = old
last_index q (p ∷ ps) i old = last_index q ps (i + 1) (if bytes_eq p q then i else old)

-- What the look-ups give after the texts from number `i` on have got their indices.
abbrev pub Indexed : Hashmap → List Bytes → ℕ → Hashmap → Type 0
Indexed m ps i m' =
    (q : CString) (old : ℕ)
    → IsPath q.text
    → get_value m q ≡ some old
    → get_value m' q ≡ some (last_index q.text ps i old)

chosen_index :
    (p : Bytes) (q : CString) (i old : ℕ) (m : Hashmap)
    → get_value m q ≡ some old
    → (if bytes_eq p q.text then some i else get_value m q)
      ≡ some (if bytes_eq p q.text then i else old)
chosen_index p q i old m e = ground (arith, e)

choose_files-IsSetUp :
    (ps : List Bytes) (f : Files) (l : Locks)
    → IsSetUp f l
    → AllPathTexts ps
    → f.associated_files + length ps ≤ max_associated_files
    → (f' : Files) × (l' : Locks) × (choose_files ps f l ≡ some (f', l'))
      × IsSetUp f' l'
      × (f'.associated_files ≡ f.associated_files + length ps)
      × Indexed f.path_to_sem ps f.associated_files f'.path_to_sem
unfolding choose_files
choose_files-IsSetUp [] f l up all room = (f, l, refl, up, omega arith, λ q old hq e. e)
choose_files-IsSetUp (p ∷ ps) f l up all room =
    let i = f.associated_files in
    let (m, run, pm, read) = get_value-set_value up.path_map (c_string p) i all.0 (omega arith) in
    let (f', l', rest, up', count, indexed) =
      choose_files-IsSetUp ps (record { path_to_sem = m; associated_files = i + 1 })
        (record {
          semaphores = set l.semaphores i 1;
          semlocks = set l.semlocks i 1;
          reader_count = set l.reader_count i 0;
        })
        (record {
          path_map = pm;
          in_bounds = omega arith;
          files_at = λ j h.
              ground (
                arith,
                get_elem?-set l.semaphores i j 1 (omega (arith, up.sizes)),
                up.files_at j h,
              );
          locks_at = λ j h.
              ground
                (arith, get_elem?-set l.semlocks i j 1 (omega (arith, up.sizes)), up.locks_at j h);
          counts_at = λ j h. ground (
            arith,
            get_elem?-set l.reader_count i j 0 (omega (arith, up.sizes)),
            up.counts_at j h,
          );
          sizes = (
            length-set l.semaphores i 1 ∙ up.sizes.0,
            length-set l.semlocks i 1 ∙ up.sizes.1,
            length-set l.reader_count i 0 ∙ up.sizes.2,
          );
        })
        all.1 (omega arith) in
    (
      f',
      l',
      ground (arith, run, rest),
      up',
      omega (arith, count),
      λ q old hq e.
          indexed q (if bytes_eq p q.text then i else old) hq
            (read q hq ∙ chosen_index p q i old f.path_to_sem e),
    )

none_chosen : IsSetUp (record { path_to_sem = hashmap_create; associated_files = 0 }) no_locks
none_chosen = record {
  path_map = create-PathMap;
  in_bounds = omega arith;
  files_at = λ j h. ground (arith, get_elem?-replicate max_associated_files j h);
  locks_at = λ j h. ground (arith, get_elem?-replicate max_associated_files j h);
  counts_at = λ j h. get_elem?-replicate max_associated_files j h;
  sizes = (refl, refl, refl);
}

pub nothing_stored : (q : CString) → get_value hashmap_create q ≡ some minus_one
unfolding lookup
nothing_stored q = get_value-lookup hashmap_create-Holds q

-- `main` takes up to fifteen files whose names are paths. Afterwards the number of indices is that of the
-- files, the semaphores at these indices are initialised, and all others are 0. The index of a path is its
-- place among the chosen files, the last one if it stands there more than once, and no other path has an
-- index.
pub initial_store-last_index :
    (chosen : List Bytes)
    → AllPathTexts chosen
    → length chosen ≤ 15
    → (f : Files) × (l : Locks) × (initial_store chosen ≡ some (f, l))
      × IsSetUp f l
      × (f.associated_files ≡ length chosen)
      × ((q : CString)
          → IsPath q.text
          → get_value f.path_to_sem q ≡ some (last_index q.text chosen 0 minus_one))
unfolding initial_store
initial_store-last_index chosen all few =
    let (f, l, run, up, count, indexed) =
      choose_files-IsSetUp chosen _ _ none_chosen all (omega arith) in
    (
      f,
      l,
      ground (arith, run),
      up,
      count ∙ omega arith,
      λ q hq. indexed q minus_one hq (nothing_stored q),
    )

pub initial_store-IsSetUp :
    (chosen : List Bytes)
    → AllPathTexts chosen
    → length chosen ≤ 15
    → (f : Files) × (l : Locks) × (initial_store chosen ≡ some (f, l))
      × IsSetUp f l
      × (f.associated_files ≡ length chosen)
initial_store-IsSetUp chosen all few =
    let (f, l, run, up, count, _) = initial_store-last_index chosen all few in
    (f, l, run, up, count)

IsSetUp-IsShut :
    (f : Files) (l : Locks) (j : ℕ)
    → IsSetUp f l
    → f.associated_files ≤ j
    → j < max_associated_files
    → IsShut l j
IsSetUp-IsShut f l j up above inside = record {
  file_shut = ground (arith, up.files_at j inside);
  lock_shut = ground (arith, up.locks_at j inside);
}

module _ {Fs : Type 0} (os : System Fs) where
  created_run :
      (s : Store Fs) (command path filename : Bytes) (rest : List Bytes) (w : World)
      → IsSetUp s.files s.locks
      → IsPath (joined path filename)
      → length (joined path filename) < path_max - 1
      → succeeded ((os.execute s.fs (create_command path filename)).0) ≡ true
      → (s' : Store Fs) × (create_server_side os s (command ∷ path ∷ filename ∷ rest) 3 w
          ≡ ok (s', 1) w)
        × (s'.locks ≡ s.locks)
        × (get_value s'.files.path_to_sem (c_string (joined path filename))
            ≡ some s.files.associated_files)
  unfolding create_server_side creates
  created_run s command path filename rest w up hp short done =
      let (f', run, count, pm, read) =
        run_create-get_value (λ c. (os.execute s.fs c).0) s.files command path filename rest 3
          up.path_map hp short (omega (arith, up.in_bounds)) in
      let found = read (c_string (joined path filename)) hp in
      let run' : run_create (λ c. (os.execute s.fs c).0) s.files (command ∷ path ∷ filename ∷ rest)
            3
          ≡ some (f', 1) =
        ground (arith, run, done) in
      (
        record {
          files = f';
          locks = s.locks;
          fs = (os.execute s.fs (create_command path filename)).1;
        },
        rw run' refl,
        refl,
        ground (arith, found, done, bytes_eq_refl (joined path filename)),
      )

  -- On a server as `main` sets it up, with room for one more index, a CREATE that succeeds, of a
  -- path that fits into the buffer, makes a file that no client can read: READ of it does not
  -- return, whatever the file holds then.
  pub created-blocked :
      (s : Store Fs) (command path filename : Bytes) (rest : List Bytes) (w : World)
      → IsSetUp s.files s.locks
      → s.files.associated_files < max_associated_files
      → IsPath (joined path filename)
      → length (joined path filename) < path_max - 1
      → succeeded ((os.execute s.fs (create_command path filename)).0) ≡ true
      → (s' : Store Fs) × (create_server_side os s (command ∷ path ∷ filename ∷ rest) 3 w
          ≡ ok (s', 1) w)
        × ((read : Bytes) (more : List Bytes) (w' : World)
            → read_server_side os s' (read ∷ joined path filename ∷ more) 2 w' ≡ blocked w')
  unfolding read_server_side
  created-blocked s command path filename rest w up room hp short done =
      let (s', run, same, found) = created_run s command path filename rest w up hp short done in
      let i = s.files.associated_files in
      let shut = IsSetUp-IsShut s.files s.locks i up (omega arith) room in
      let known : (i == minus_one) ≡ false = ground arith in
      (
        s',
        run,
        λ read more w'.
            let file = os.content s'.fs (b'.' ∷ joined path filename) in
            rw (found, known) (rw same (rw ((IsShut-blocked s.locks i file w' shut).0) refl)),
      )
