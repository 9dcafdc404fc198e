-- ===== src/Lru/Index.antt =====
-- The map of LRU/lru.c from keys to nodes, read as a function from texts to addresses: 0 for a text
-- that has no node.
use nfs_network_file_system.Prelude.{
  ℕ, ◌≡◌, ◌≢◌, refl, sym, ◌∙◌, ap, false, true, List, [], ◌∷◌, ◌++◌, Option, none, some, ◌==◌,
  if◌then◌else◌, take, length, arith, Bool-cases, inl, inr,
}
use nfs_network_file_system.Prelude.Bytes.{Bytes, bytes_eq, bytes_eq_refl, eq_of_bytes_eq}
use nfs_network_file_system.Text.{space, decimal, char_decimal}
use nfs_network_file_system.Hashmap.{Hashmap, hashmap_create}
use nfs_network_file_system.Hashmap.Dict.{
  Entry, lookup, put, erase, same_key, same_key_congr, same_key_other, lookup-put_self,
  lookup-put_ne, IsOther,
}
use nfs_network_file_system.Hashmap.Get.{hashmap_get-lookup}
use nfs_network_file_system.Hashmap.Set.{hashmap_create-Holds, hashmap_set-put}
use nfs_network_file_system.Hashmap.Remove.{hashmap_remove-erase}
use nfs_network_file_system.Hashmap.Invariant.{Holds}
use nfs_network_file_system.MapOperations.{CString, last_char}
use nfs_network_file_system.MapOperations.Keys.{
  AllNumeric-of_digits, decimal-AllDigits, char_decimal-AllNumeric, split_unique,
}
use nfs_network_file_system.Lru.{lru_key, set_value_lr, get_value_lr, remove_entry_lr}

-- The same bytes over the same length.
same_key-eq :
    (e : Entry) (key : Bytes) (n : ℕ)
    → same_key e key n ≡ true
    → (e.ksize ≡ n) × (take n e.key ≡ take n key)
unfolding same_key
same_key-eq e key n h = ground (arith, eq_of_bytes_eq (take n e.key) (take n key))

same_key_self : (e : Entry) (v : ℕ) → same_key e e.key e.ksize ≡ true
unfolding same_key
same_key_self e v = ground (arith, bytes_eq_refl (take e.ksize e.key))

lookup_congr :
    (a b : Bytes) (n : ℕ) (es : List Entry) → take n a ≡ take n b → lookup a n es ≡ lookup b n es
unfolding lookup
lookup_congr a b n [] h = refl
lookup_congr a b n (e ∷ es) h = rw (same_key_congr e a b n h, lookup_congr a b n es h)

-- No two entries have one key.
abbrev pub AllUnique : List Entry → Type 0
AllUnique [] = Unit {0}
AllUnique (e ∷ es) = (lookup e.key e.ksize es ≡ none) × AllUnique es

not_same-IsOther :
    (e : Entry) (b : Bytes) (k : ℕ) → same_key e b k ≡ false → IsOther e.key e.ksize b k
unfolding same_key
not_same-IsOther e b k h = h

same_key-of :
    (e : Entry) (a : Bytes) (n : ℕ)
    → n ≡ e.ksize
    → take e.ksize a ≡ take e.ksize e.key
    → same_key e a n ≡ true
unfolding same_key
same_key-of e a n size bytes = rw (size, bytes) (ground (arith, bytes_eq_refl (take e.ksize e.key)))

IsOther-not_same :
    (e : Entry) (a : Bytes) (n : ℕ) → same_key e a n ≡ false → IsOther a n e.key e.ksize
IsOther-not_same e a n h =
    ground (arith, same_key-of e a n, eq_of_bytes_eq (take e.ksize a) (take e.ksize e.key))

put-AllUnique :
    (key : Bytes) (n v : ℕ) (es : List Entry) → AllUnique es → AllUnique (put key n v es)
unfolding put lookup
put-AllUnique key n v [] u = (refl, tt)
put-AllUnique key n v (e ∷ es) u = elim (Bool-cases (same_key e key n)) [
  | inl same ↦ rw same u
  | inr other ↦
      let gone = lookup-put_ne key e.key n e.ksize v es (IsOther-not_same e key n other) ∙ u.0 in
      rw other (gone, put-AllUnique key n v es u.1)
]

lookup-erase_absent :
    (a b : Bytes) (n k : ℕ) (es : List Entry)
    → lookup b k es ≡ none
    → lookup b k (erase a n es) ≡ none
unfolding lookup erase
lookup-erase_absent a b n k [] h = refl
lookup-erase_absent a b n k (e ∷ es) h = ground (arith, lookup-erase_absent a b n k es)

erase-AllUnique :
    (key : Bytes) (n : ℕ) (es : List Entry) → AllUnique es → AllUnique (erase key n es)
unfolding erase
erase-AllUnique key n [] u = tt
erase-AllUnique key n (e ∷ es) u = elim (Bool-cases (same_key e key n)) [
  | inl same ↦ rw same u.1
  | inr other ↦
      rw other (lookup-erase_absent key e.key n e.ksize es u.0, erase-AllUnique key n es u.1)
]

-- Reads after a removal.
lookup-erase_self :
    (key : Bytes) (n : ℕ) (es : List Entry) → AllUnique es → lookup key n (erase key n es) ≡ none
unfolding lookup erase
lookup-erase_self key n [] u = refl
lookup-erase_self key n (e ∷ es) u = elim (Bool-cases (same_key e key n)) [
  | inr other ↦ rw (other, other) (lookup-erase_self key n es u.1)
  | inl same ↦
      let (size, bytes) = same_key-eq e key n same in
      let gone : lookup e.key n es ≡ none = rw (← size) u.0 in
      rw same (sym (lookup_congr e.key key n es bytes) ∙ gone)
]

lookup-erase_ne :
    (a b : Bytes) (n k : ℕ) (es : List Entry)
    → IsOther a n b k
    → lookup b k (erase a n es) ≡ lookup b k es
unfolding lookup erase
lookup-erase_ne a b n k [] other = refl
lookup-erase_ne a b n k (e ∷ es) other =
    ground (arith, lookup-erase_ne a b n k es other, same_key_other e a b n k other)

lru_key-same :
    (x y : ℕ) (s : Bytes)
    → s ≢ []
    → lru_key (record { before = x; text = s }) ≡ lru_key (record { before = y; text = s })
unfolding lru_key last_char
lru_key-same x y [] ne = absurd (ne refl)
lru_key-same x y (c ∷ s) ne = refl

pub lru_key_congr : (p q : CString) → p.text ≡ q.text → p.text ≢ [] → lru_key p ≡ lru_key q
lru_key_congr p q e ne =
    lru_key-same p.before q.before p.text ne
    ∙ ap (λ t. lru_key (record { before = q.before; text = t })) e

-- The key ends with the text, after two numbers.
pub lru_key-injective : (p q : CString) → lru_key p ≡ lru_key q → p.text ≡ q.text
unfolding lru_key
lru_key-injective p q e =
    let a = char_decimal (last_char p.before p.text) in
    let b = char_decimal (last_char q.before q.text) in
    let (_, after) =
      split_unique (decimal (length p.text)) (decimal (length q.text)) (a ++ space ∷ p.text)
        (b ++ space ∷ q.text)
        (AllNumeric-of_digits (decimal (length p.text)) (decimal-AllDigits (length p.text)))
        (AllNumeric-of_digits (decimal (length q.text)) (decimal-AllDigits (length q.text))) e in
    (split_unique a b p.text q.text (char_decimal-AllNumeric (last_char p.before p.text))
      (char_decimal-AllNumeric (last_char q.before q.text)) after).1

take-length : (s : Bytes) → take (length s) s ≡ s
take-length [] = refl
take-length (c ∷ s) = ap (λ t. c ∷ t) (take-length s)

abbrev pub key_len : CString → ℕ
key_len p = length (lru_key p)

IsOther-lru_key :
    (p q : CString)
    → bytes_eq p.text q.text ≡ false
    → IsOther (lru_key p) (key_len p) (lru_key q) (key_len q)
IsOther-lru_key p q differ = elim (Bool-cases (key_len p == key_len q)) [
  | inr sizes ↦ ground arith
  | inl sizes ↦
      elim (Bool-cases (bytes_eq (take (key_len q) (lru_key p)) (take (key_len q) (lru_key q)))) [
        | inr bytes ↦ ground arith
        | inl bytes ↦
            let size : key_len q ≡ key_len p = ground arith in
            let cut =
              eq_of_bytes_eq (take (key_len q) (lru_key p)) (take (key_len q) (lru_key q)) bytes in
            let left : take (key_len q) (lru_key p) ≡ lru_key p =
              rw size (take-length (lru_key p)) in
            let whole = sym left ∙ cut ∙ take-length (lru_key q) in
            absurd (ground (arith, bytes_eq_refl q.text, lru_key-injective p q whole))
      ]
]

-- The address for what a look-up gives: NULL where there is none.
abbrev pub address : Option ℕ → ℕ
address none = 0
address (some a) = a

-- The map answers every text that is not empty as the function does.
pub record IsIndex (m : Hashmap) (f : Bytes → ℕ) : Type 0 where
  pub entries : List Entry
  pub holds : Holds m entries
  pub unique : AllUnique entries
  pub answers :
      (q : CString) → q.text ≢ [] → address (lookup (lru_key q) (key_len q) entries) ≡ f q.text

pub create-IsIndex : IsIndex hashmap_create (λ _. 0)
unfolding lookup
create-IsIndex = record {
  entries = [];
  holds = hashmap_create-Holds;
  unique = tt;
  answers = λ q ne. refl;
}

pub IsIndex-congr :
    {m : Hashmap} {f : Bytes → ℕ} (g : Bytes → ℕ)
    → IsIndex m f
    → ((t : Bytes) → t ≢ [] → g t ≡ f t)
    → IsIndex m g
IsIndex-congr g i same = record {
  entries = i.entries;
  holds = i.holds;
  unique = i.unique;
  answers = λ q ne. i.answers q ne ∙ sym (same q.text ne);
}

module _ {m : Hashmap} {f : Bytes → ℕ} (i : IsIndex m f) (p : CString) (ne : p.text ≢ []) where
  pub get_value_lr-IsIndex : get_value_lr m p ≡ some (f p.text)
  unfolding get_value_lr
  get_value_lr-IsIndex =
      let got = hashmap_get-lookup i.holds (lru_key p) (key_len p) in
      let is = i.answers p ne in ground arith

  pub set_value_lr-IsIndex :
      (v : ℕ)
      → (m' : Hashmap) × (set_value_lr m p v ≡ some m')
        × IsIndex m' (λ t. if bytes_eq p.text t then v else f t)
  unfolding set_value_lr
  set_value_lr-IsIndex v =
      let (m', run, h) = hashmap_set-put i.holds (lru_key p) (key_len p) v (omega arith) in
      (
        m',
        run,
        record {
          entries = put (lru_key p) (key_len p) v i.entries;
          holds = h;
          unique = put-AllUnique (lru_key p) (key_len p) v i.entries i.unique;
          answers = λ q qe. elim (Bool-cases (bytes_eq p.text q.text)) [
            | inl same ↦
                let key = lru_key_congr p q (eq_of_bytes_eq p.text q.text same) ne in
                rw (same, ← key) (ap address (lookup-put_self (lru_key p) (key_len p) v i.entries))
            | inr other ↦ rw other (
                ap address (
                  lookup-put_ne (lru_key p) (lru_key q) (key_len p) (key_len q) v i.entries
                    (IsOther-lru_key p q other))
                ∙ i.answers q qe)
          ];
        },
      )

  pub remove_entry_lr-IsIndex :
      (m' : Hashmap) × (remove_entry_lr m p ≡ some m')
      × IsIndex m' (λ t. if bytes_eq p.text t then 0 else f t)
  unfolding remove_entry_lr
  remove_entry_lr-IsIndex =
      let (m', run, h) = hashmap_remove-erase i.holds (lru_key p) (key_len p) in
      (
        m',
        run,
        record {
          entries = erase (lru_key p) (key_len p) i.entries;
          holds = h;
          unique = erase-AllUnique (lru_key p) (key_len p) i.entries i.unique;
          answers = λ q qe. elim (Bool-cases (bytes_eq p.text q.text)) [
            | inl same ↦
                let key = lru_key_congr p q (eq_of_bytes_eq p.text q.text same) ne in
                rw (same, ← key)
                  (ap address (lookup-erase_self (lru_key p) (key_len p) i.entries i.unique))
            | inr other ↦ rw other (
                ap address (
                  lookup-erase_ne (lru_key p) (lru_key q) (key_len p) (key_len q) i.entries
                    (IsOther-lru_key p q other))
                ∙ i.answers q qe)
          ];
        },
      )
