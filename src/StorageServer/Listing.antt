-- ===== src/StorageServer/Listing.antt =====
-- `getFiles` of storageserverinit.c against a listing of the tree that writes to no buffer.
use nfs_network_file_system.Prelude.{
  ◌+◌, ◌≤◌, ◌≡◌, refl, sym, ◌∙◌, ap, Bool, true, ◌&&◌, List, [], ◌∷◌, ◌++◌, Option, none, some, ltb,
  leb, if◌then◌else◌, length, drop, length-append, append_assoc, append-nil, arith, Bool-cases, inl,
  inr,
}
use nfs_network_file_system.Prelude.Bytes.{Bytes}
use nfs_network_file_system.Text.{slash}
use nfs_network_file_system.Command.{path_max}
use nfs_network_file_system.StorageServer.Startup.{
  Directory, Entries, unreadable, readable, end, file, directory, is_dots, joined_path, max_files,
  max_file_name_len, add_file, add_named, get_files, get_entries,
}

-- The paths below a directory, each directory before what is in it.
unfoldable mutual
  pub listing : Bytes → Directory → List Bytes
  listing prefix unreadable = []
  listing prefix (readable es) = listing_entries prefix es

  pub listing_entries : Bytes → Entries → List Bytes
  listing_entries prefix end = []
  listing_entries prefix (file name es) =
      if is_dots name
      then listing_entries prefix es
      else joined_path prefix name ∷ listing_entries prefix es
  listing_entries prefix (directory name d es) =
      (if is_dots name then [] else joined_path prefix name ∷ listing (joined_path prefix name) d)
      ++ listing_entries prefix es

-- Each path has room in its buffer, and with the server's own path in the larger one.
unfoldable pub all_short : Bytes → List Bytes → Bool
all_short root [] = true
all_short root (p ∷ ps) =
    (ltb (length root + length p) path_max && ltb (length p) max_file_name_len) && all_short root ps

abbrev fits : Bytes → List Bytes → Bytes → Bool
fits root files p =
    (ltb (length root + length p) path_max && ltb (length p) max_file_name_len)
    && ltb (length files) max_files

add_all : Bytes → List Bytes → List Bytes → Option (List Bytes)
add_all root files [] = some files
add_all root files (p ∷ ps) = if fits root files p then add_all root (files ++ p ∷ []) ps else none

then_all : Bytes → List Bytes → Option (List Bytes) → Option (List Bytes)
unfolding add_all
then_all root ps none = none
then_all root ps (some files) = add_all root files ps

drop-append : (xs ys : Bytes) → drop (length xs) (xs ++ ys) ≡ ys
drop-append [] ys = refl
drop-append (x ∷ xs) ys = drop-append xs ys

add_file-add_all :
    (root prefix name : Bytes) (files : List Bytes)
    → add_file root (root ++ prefix) name files ≡ add_all root files (joined_path prefix name ∷ [])
unfolding add_file add_all
add_file-add_all root prefix name files =
    let whole = append_assoc root prefix (slash ∷ name) in
    rw
      (
        whole,
        drop-append root (joined_path prefix name),
        length-append root (joined_path prefix name),
      )
      (ground arith)

add_all-append :
    (root : Bytes) (files xs ys : List Bytes)
    → add_all root files (xs ++ ys) ≡ then_all root ys (add_all root files xs)
unfolding add_all then_all
add_all-append root files [] ys = refl
add_all-append root files (x ∷ xs) ys = elim (Bool-cases (fits root files x)) [
  | inl room ↦ rw room (add_all-append root (files ++ x ∷ []) xs ys)
  | inr full ↦ rw full refl
]

bind_all :
    (root : Bytes) (ps : List Bytes) (k : List Bytes → Option (List Bytes))
    → ((files : List Bytes) → k files ≡ add_all root files ps)
    → (o : Option (List Bytes))
    → (elim o [ none ↦ none | some files ↦ k files ]) ≡ then_all root ps o
unfolding then_all
bind_all root ps k h none = refl
bind_all root ps k h (some files) = h files

-- What is listed of one name, and what `add_named` does to it.
named : Bytes → Bytes → List Bytes
named prefix name = if is_dots name then [] else joined_path prefix name ∷ []

add_named-add_all :
    (root prefix name : Bytes) (files : List Bytes)
    → add_named root (root ++ prefix) name files ≡ add_all root files (named prefix name)
unfolding add_named add_all named
add_named-add_all root prefix name files = elim (Bool-cases (is_dots name)) [
  | inl dots ↦ rw dots refl
  | inr other ↦ rw other (add_file-add_all root prefix name files)
]

add_all-nil : (root : Bytes) (files : List Bytes) → some files ≡ add_all root files []
unfolding add_all
add_all-nil root files = refl

-- What a directory lists below it.
below : Bytes → Bytes → List Bytes → List Bytes
below prefix name ps = if is_dots name then [] else ps

listing_entries-file :
    (prefix name : Bytes) (es : Entries)
    → listing_entries prefix (file name es) ≡ named prefix name ++ listing_entries prefix es
unfolding listing_entries named
listing_entries-file prefix name es = elim (Bool-cases (is_dots name)) [
  | inl dots ↦ rw dots refl
  | inr other ↦ rw other refl
]

listing_entries-directory :
    (prefix name : Bytes) (d : Directory) (es : Entries)
    → listing_entries prefix (directory name d es)
      ≡ named prefix name
        ++ (below prefix name (listing (joined_path prefix name) d) ++ listing_entries prefix es)
unfolding listing_entries named below
listing_entries-directory prefix name d es = elim (Bool-cases (is_dots name)) [
  | inl dots ↦ rw dots refl
  | inr other ↦ rw other refl
]

then_all-append :
    (root : Bytes) (xs ys : List Bytes) (o : Option (List Bytes))
    → then_all root (xs ++ ys) o ≡ then_all root ys (then_all root xs o)
unfolding then_all
then_all-append root xs ys none = refl
then_all-append root xs ys (some files) = add_all-append root files xs ys

mutual
  unfolding get_files get_entries listing below

  get_files-add_all :
      (root prefix : Bytes) (d : Directory) (files : List Bytes)
      → get_files root (root ++ prefix) d files ≡ add_all root files (listing prefix d)
  get_files-add_all root prefix unreadable files = add_all-nil root files
  get_files-add_all root prefix (readable es) files = get_entries-add_all root prefix es files

  get_entries-add_all :
      (root prefix : Bytes) (es : Entries) (files : List Bytes)
      → get_entries root (root ++ prefix) es files ≡ add_all root files (listing_entries prefix es)
  get_entries-add_all root prefix end files = add_all-nil root files
  get_entries-add_all root prefix (file name es) files =
      bind_all root (listing_entries prefix es) (get_entries root (root ++ prefix) es)
        (get_entries-add_all root prefix es) (add_named root (root ++ prefix) name files)
      ∙ ap (then_all root (listing_entries prefix es)) (add_named-add_all root prefix name files)
      ∙ sym (add_all-append root files (named prefix name) (listing_entries prefix es))
      ∙ ap (add_all root files) (sym (listing_entries-file prefix name es))
  get_entries-add_all root prefix (directory name d es) files =
      let rest = listing_entries prefix es in
      let inner = below prefix name (listing (joined_path prefix name) d) in
      let enter : List Bytes → Option (List Bytes) = λ files'.
        if is_dots name
        then some files'
        else get_files root (joined_path (root ++ prefix) name) d files' in
      let entered : (files' : List Bytes) → enter files' ≡ add_all root files' inner = λ files'.
        elim (Bool-cases (is_dots name)) [
          | inl dots ↦ rw dots (add_all-nil root files')
          | inr other ↦
              rw (other, append_assoc root prefix (slash ∷ name))
                (get_files-add_all root (joined_path prefix name) d files')
        ] in
      bind_all root (inner ++ rest)
        (λ files'. elim (enter files') [
          | none ↦ none
          | some files'' ↦ get_entries root (root ++ prefix) es files''
        ])
        (λ files'.
          bind_all root rest (get_entries root (root ++ prefix) es)
            (get_entries-add_all root prefix es) (enter files')
          ∙ ap (then_all root rest) (entered files')
          ∙ sym (add_all-append root files' inner rest))
        (add_named root (root ++ prefix) name files)
      ∙ ap (then_all root (inner ++ rest)) (add_named-add_all root prefix name files)
      ∙ sym (add_all-append root files (named prefix name) (inner ++ rest))
      ∙ ap (add_all root files) (sym (listing_entries-directory prefix name d es))

add_all-short :
    (root : Bytes) (files ps : List Bytes)
    → length files ≤ max_files
    → add_all root files ps ≡ (
        if all_short root ps && leb (length files + length ps) max_files
        then some (files ++ ps)
        else none)
unfolding add_all all_short
add_all-short root files [] h = ground (arith, append-nil files)
add_all-short root files (p ∷ ps) h = elim (Bool-cases (fits root files p)) [
  | inl room ↦
      rw
        (
          room,
          add_all-short root (files ++ p ∷ []) ps (ground (arith, length-append files (p ∷ []))),
          length-append files (p ∷ []),
          append_assoc files (p ∷ []) ps,
        )
        (ground arith)
  | inr full ↦ rw full (ground arith)
]

-- `getFiles` returns for every directory: its calls for the directories below end. It lists the paths of
-- the tree relative to the server's directory, each directory before what is in it, exactly if each
-- path is shorter than 256 bytes and than `PATH_MAX` with the server's path in front, and there are
-- no more than 1024; otherwise it writes behind a buffer.
pub get_files-listing :
    (root : Bytes) (d : Directory)
    → get_files root root d [] ≡ (
        if all_short root (listing [] d) && leb (length (listing [] d)) max_files
        then some (listing [] d)
        else none)
get_files-listing root d =
    ap (λ (path : Bytes). get_files root path d []) (sym (append-nil root))
    ∙ get_files-add_all root [] d []
    ∙ add_all-short root [] (listing [] d) (omega arith)
    ∙ (let zero_first : 0 + length (listing [] d) ≡ length (listing [] d) = omega arith in
        rw zero_first refl)
