-- ===== src/MapOperations/Values.antt =====
-- `set_value` and `get_value` of hashmap/map_operations.c: a map from paths to numbers.
use nfs_network_file_system.Prelude.{
  ℕ, ◌-◌, ◌^◌, ◌<◌, ◌≡◌, ◌≢◌, refl, sym, ◌∙◌, ap, false, List, [], ◌∷◌, Option, none, some, ◌==◌,
  if◌then◌else◌, take, length, arith, Bool-cases, inl, inr,
}
use nfs_network_file_system.Prelude.Bytes.{Bytes, bytes_eq, bytes_eq_refl, eq_of_bytes_eq}
use nfs_network_file_system.Hashmap.{Hashmap, hashmap_create}
use nfs_network_file_system.Hashmap.Dict.{
  Entry, lookup, put, same_key, lookup-put_self, lookup-put_ne, IsOther,
}
use nfs_network_file_system.Hashmap.Get.{hashmap_get-lookup}
use nfs_network_file_system.Hashmap.Set.{hashmap_create-Holds, hashmap_set-put}
use nfs_network_file_system.Hashmap.Invariant.{Holds}
use nfs_network_file_system.MapOperations.{
  CString, last_char, map_key, minus_one, to_uintptr, to_int, set_value, get_value,
}
use nfs_network_file_system.MapOperations.Keys.{AllBytes, NoSpaces, truncated, truncated-injective}

-- What a path is: not empty, without white space, made of bytes.
pub record IsPath (p : Bytes) : Type 0 where
  pub nonempty : p ≢ []
  pub unspaced : NoSpaces p
  pub bytes : AllBytes p

abbrev pub key_size : CString → ℕ
key_size p = length (map_key p) - 1

-- An entry that `set_value` made for a path.
pub record IsPathEntry (e : Entry) : Type 0 where
  pub path : CString
  pub is_path : IsPath path.text
  pub keyed : e.key ≡ map_key path
  pub sized : e.ksize ≡ key_size path

abbrev pub AllPaths : List Entry → Type 0
AllPaths [] = Unit {0}
AllPaths (e ∷ es) = IsPathEntry e × AllPaths es

-- A well-formed map all of whose entries are those of paths.
pub record PathMap (m : Hashmap) : Type 0 where
  pub entries : List Entry
  pub holds : Holds m entries
  pub paths : AllPaths entries

-- The `int` for what a look-up gives: -1 where there is none.
abbrev pub int_of : Option ℕ → ℕ
int_of none = minus_one
int_of (some v) = to_int v

pub get_value-lookup :
    {m : Hashmap} {es : List Entry}
    → Holds m es
    → (q : CString) → get_value m q ≡ some (int_of (lookup (map_key q) (key_size q) es))
unfolding get_value
get_value-lookup {es} h q =
    let got = hashmap_get-lookup h (map_key q) (key_size q) in ground (arith, got)

pub create-PathMap : PathMap hashmap_create
create-PathMap = record { entries = []; holds = hashmap_create-Holds; paths = tt }

map_key-same :
    (x y : ℕ) (s : Bytes)
    → s ≢ []
    → map_key (record { before = x; text = s }) ≡ map_key (record { before = y; text = s })
unfolding map_key last_char
map_key-same x y [] ne = absurd (ne refl)
map_key-same x y (c ∷ s) ne = refl

pub map_key_congr : (p q : CString) → p.text ≡ q.text → p.text ≢ [] → map_key p ≡ map_key q
map_key_congr p q e ne =
    map_key-same p.before q.before p.text ne
    ∙ ap (λ t. map_key (record { before = q.before; text = t })) e

-- Different paths have different keys.
pub IsOther-map_key :
    (p q : CString)
    → IsPath p.text
    → IsPath q.text
    → bytes_eq p.text q.text ≡ false
    → IsOther (map_key p) (key_size p) (map_key q) (key_size q)
IsOther-map_key p q hp hq differ = elim (Bool-cases (key_size p == key_size q)) [
  | inr sizes ↦ ground arith
  | inl sizes ↦
      elim (Bool-cases (bytes_eq (take (key_size q) (map_key p)) (take (key_size q) (map_key q)))) [
        | inr bytes ↦ ground arith
        | inl bytes ↦
            let size : key_size p ≡ key_size q = ground arith in
            let cut = eq_of_bytes_eq (take (key_size q) (map_key p)) (truncated q) bytes in
            let whole : truncated p ≡ truncated q = rw size cut in
            let text = truncated-injective p q hp.nonempty hq.nonempty hp.bytes hq.bytes whole in
            absurd (ground (arith, bytes_eq_refl q.text))
      ]
]

pub put-AllPaths :
    (p : CString) (v : ℕ) (es : List Entry)
    → IsPath p.text
    → AllPaths es
    → AllPaths (put (map_key p) (key_size p) v es)
unfolding put
put-AllPaths p v [] hp all = (record { path = p; is_path = hp; keyed = refl; sized = refl }, tt)
put-AllPaths p v (e ∷ es) hp all = elim (Bool-cases (same_key e (map_key p) (key_size p))) [
  | inl same ↦ rw same (
    record { path = all.0.path; is_path = all.0.is_path; keyed = all.0.keyed; sized = all.0.sized },
    all.1,
  )
  | inr other ↦ rw other (all.0, put-AllPaths p v es hp all.1)
]

pub to_int-to_uintptr : (v : ℕ) → v < 2 ^ 32 → to_int (to_uintptr v) ≡ v
to_int-to_uintptr v small = ground arith

-- For a path and a number below 2 ^ 32, `set_value` returns on a map of paths, and leaves a map of
-- paths. `get_value` then gives, for every path, the new value if the path is the same and what it
-- gave before if it is another.
pub get_value-set_value :
    {m : Hashmap}
    → PathMap m
    → (p : CString) (v : ℕ) → IsPath p.text
    → v < 2 ^ 32
    → (m' : Hashmap) × (set_value m p v ≡ some m')
      × PathMap m'
      × ((q : CString)
          → IsPath q.text
          → get_value m' q ≡ (if bytes_eq p.text q.text then some v else get_value m q))
unfolding set_value
get_value-set_value {m} pm p v hp small =
    let es = pm.entries in
    let (m', run, h) =
      hashmap_set-put pm.holds (map_key p) (key_size p) (to_uintptr v) (omega arith) in
    (
      m',
      run,
      record { entries = _; holds = h; paths = put-AllPaths p (to_uintptr v) es hp pm.paths },
      λ q hq. elim (Bool-cases (bytes_eq p.text q.text)) [
        | inl same ↦
            let text = eq_of_bytes_eq p.text q.text same in
            let key = map_key_congr p q text hp.nonempty in
            let read : lookup (map_key q) (key_size q)
                  (put (map_key p) (key_size p) (to_uintptr v) es)
                ≡ some (to_uintptr v) =
              rw (← key) (lookup-put_self (map_key p) (key_size p) (to_uintptr v) es) in
            rw same (get_value-lookup h q ∙ rw read (ap some (to_int-to_uintptr v small)))
        | inr differ ↦ rw differ (
            get_value-lookup h q
            ∙ rw
                (lookup-put_ne (map_key p) (map_key q) (key_size p) (key_size q) (to_uintptr v) es
                  (IsOther-map_key p q hp hq differ))
                (sym (get_value-lookup pm.holds q)))
      ],
    )
