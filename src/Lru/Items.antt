-- ===== src/Lru/Items.antt =====
-- What the list of nodes stands for: for each node in its order the address, the text of the key and
-- the value.
use nfs_network_file_system.Prelude.{
  ℕ, ◌+◌, ◌<◌, ◌≡◌, ◌≢◌, refl, sym, ◌∙◌, ap, true, List, [], ◌∷◌, none, some, ◌==◌, if◌then◌else◌,
  length, take, has, IsNodup, ==_refl, arith, Bool-cases, inl, inr, subst,
}
use nfs_network_file_system.Prelude.Bytes.{Bytes, bytes_eq, bytes_eq_refl, eq_of_bytes_eq}
use nfs_network_file_system.Lru.Chain.{without, last_before, ne_of_has}
use nfs_network_file_system.Lru.Track.{Track, find, forget}

pub record Item : Type 0 where
  pub addr : ℕ
  pub text : Bytes
  pub val : ℕ

abbrev pub addrs : List Item → List ℕ
addrs [] = []
addrs (i ∷ is) = i.addr ∷ addrs is

abbrev pub track_of : List Item → Track
track_of [] = []
track_of (i ∷ is) = (i.text, i.val) ∷ track_of is

-- The address of the first node with a text, or NULL.
abbrev pub addr_at : Bytes → List Item → ℕ
addr_at t [] = 0
addr_at t (i ∷ is) = if bytes_eq i.text t then i.addr else addr_at t is

-- The items less the one at an address.
abbrev pub cut : ℕ → List Item → List Item
cut d [] = []
cut d (i ∷ is) = if i.addr == d then is else i ∷ cut d is

abbrev pub AllItems : (Item → Type 0) → List Item → Type 0
AllItems P [] = Unit {0}
AllItems P (i ∷ is) = P i × AllItems P is

-- No two items have one text, and no address is NULL.
abbrev pub AllDistinct : List Item → Type 0
AllDistinct [] = Unit {0}
AllDistinct (i ∷ is) = (addr_at i.text is ≡ 0) × (0 < i.addr) × AllDistinct is

pub cut-AllItems :
    (P : Item → Type 0) (d : ℕ) (is : List Item) → AllItems P is → AllItems P (cut d is)
cut-AllItems P d [] all = tt
cut-AllItems P d (i ∷ is) all = elim (Bool-cases (i.addr == d)) [
  | inl same ↦ rw same all.1
  | inr other ↦ rw other (all.0, cut-AllItems P d is all.1)
]

pub AllItems-map :
    (P Q : Item → Type 0)
    → ((i : Item) → P i → Q i)
    → (is : List Item) → AllItems P is
    → AllItems Q is
AllItems-map P Q f [] all = tt
AllItems-map P Q f (i ∷ is) all = (f i all.0, AllItems-map P Q f is all.1)

pub addrs-cut : (d : ℕ) (is : List Item) → addrs (cut d is) ≡ without d (addrs is)
addrs-cut d [] = refl
addrs-cut d (i ∷ is) = elim (Bool-cases (i.addr == d)) [
  | inl same ↦ rw same refl
  | inr other ↦ rw other (ap (λ l. i.addr ∷ l) (addrs-cut d is))
]

pub length-cut :
    (d : ℕ) (is : List Item) → has d (addrs is) ≡ true → length (cut d is) + 1 ≡ length is
length-cut d [] on = absurd (ground arith)
length-cut d (i ∷ is) on = ground (arith, length-cut d is)

-- A text without a node has none after a cut.
pub addr_at-cut_absent :
    (t : Bytes) (d : ℕ) (is : List Item)
    → AllDistinct is
    → addr_at t is ≡ 0
    → addr_at t (cut d is) ≡ 0
addr_at-cut_absent t d [] h e = refl
addr_at-cut_absent t d (i ∷ is) h e = ground (arith, h.1, addr_at-cut_absent t d is h.2)

pub cut-AllDistinct : (d : ℕ) (is : List Item) → AllDistinct is → AllDistinct (cut d is)
cut-AllDistinct d [] h = tt
cut-AllDistinct d (i ∷ is) h = elim (Bool-cases (i.addr == d)) [
  | inl same ↦ rw same h.2
  | inr other ↦ rw other (addr_at-cut_absent i.text d is h.2 h.0, h.1, cut-AllDistinct d is h.2)
]

has_cons : (a b : ℕ) (xs : List ℕ) → has a xs ≡ true → has a (b ∷ xs) ≡ true
has_cons a b xs h = ground arith

-- A text that has a node has its address on the list.
pub addr_at-on :
    (t : Bytes) (is : List Item) → addr_at t is ≢ 0 → has (addr_at t is) (addrs is) ≡ true
addr_at-on t [] h = absurd (h refl)
addr_at-on t (i ∷ is) h = elim (Bool-cases (bytes_eq i.text t)) [
  | inl same ↦ rw same (ground arith)
  | inr other ↦
      let e : addr_at t (i ∷ is) ≡ addr_at t is = rw other refl in
      let on = addr_at-on t is (λ z. h (e ∙ z)) in
      subst (λ a. has a (addrs (i ∷ is)) ≡ true) (sym e)
        (has_cons (addr_at t is) i.addr (addrs is) on)
]

pub on_pos : (d : ℕ) (is : List Item) → AllDistinct is → has d (addrs is) ≡ true → 0 < d
on_pos d [] h on = absurd (ground arith)
on_pos d (i ∷ is) h on = ground (arith, h.1, on_pos d is h.2)

-- Each address on the list is that of the text of its item.
pub occupant :
    (P : Item → Type 0) (d : ℕ) (is : List Item)
    → AllItems P is
    → AllDistinct is
    → IsNodup (addrs is)
    → has d (addrs is) ≡ true
    → (i : Item) × P i × (i.addr ≡ d) × (addr_at i.text is ≡ d)
occupant P d [] all h nodup on = absurd (ground arith)
occupant P d (i ∷ is) all h nodup on = elim (Bool-cases (i.addr == d)) [
  | inl same ↦ (i, all.0, ground arith, rw (bytes_eq_refl i.text) (ground arith))
  | inr other ↦
      let (j, p, at, found) = occupant P d is all.1 h.2 nodup.1 (ground arith) in
      (j, p, at, ground (arith, eq_of_bytes_eq i.text j.text, h.0, on_pos d is h.2))
]

-- The item of a text that has a node.
pub addr_at-find :
    (P : Item → Type 0) (t : Bytes) (is : List Item)
    → AllItems P is
    → addr_at t is ≢ 0
    → (i : Item) × P i
      × (i.addr ≡ addr_at t is)
      × (i.text ≡ t)
      × (find t (track_of is) ≡ some i.val)
unfolding find
addr_at-find P t [] all h = absurd (h refl)
addr_at-find P t (i ∷ is) all h = elim (Bool-cases (bytes_eq i.text t)) [
  | inl same ↦ (i, all.0, rw same refl, eq_of_bytes_eq i.text t same, rw same refl)
  | inr other ↦
      let e : addr_at t (i ∷ is) ≡ addr_at t is = rw other refl in
      let (j, p, at, text, found) = addr_at-find P t is all.1 (λ z. h (e ∙ z)) in
      (j, p, at ∙ sym e, text, rw other found)
]

-- A text without a node is not in the specification's list.
pub addr_at-absent :
    (t : Bytes) (is : List Item)
    → AllDistinct is
    → addr_at t is ≡ 0
    → (find t (track_of is) ≡ none) × (forget t (track_of is) ≡ track_of is)
unfolding find forget
addr_at-absent t [] h e = (refl, refl)
addr_at-absent t (i ∷ is) h e = elim (Bool-cases (bytes_eq i.text t)) [
  | inl same ↦ absurd (ground (arith, h.1))
  | inr other ↦
      let (none_found, kept) = addr_at-absent t is h.2 (ground arith) in
      rw other (none_found, ap (λ l. (i.text, i.val) ∷ l) kept)
]

-- Cutting the node of a text forgets the text.
pub track_of-cut :
    (t : Bytes) (is : List Item)
    → IsNodup (addrs is)
    → addr_at t is ≢ 0
    → track_of (cut (addr_at t is) is) ≡ forget t (track_of is)
unfolding forget
track_of-cut t [] nodup h = absurd (h refl)
track_of-cut t (i ∷ is) nodup h = elim (Bool-cases (bytes_eq i.text t)) [
  | inl same ↦
      let e : addr_at t (i ∷ is) ≡ i.addr = rw same refl in
      subst (λ a. track_of (cut a (i ∷ is)) ≡ forget t (track_of (i ∷ is))) (sym e)
        (rw (==_refl i.addr, same) refl)
  | inr other ↦
      let e : addr_at t (i ∷ is) ≡ addr_at t is = rw other refl in
      let on = addr_at-on t is (λ z. h (e ∙ z)) in
      let differ = ne_of_has i.addr (addr_at t is) (addrs is) nodup.0 on in
      subst (λ a. track_of (cut a (i ∷ is)) ≡ forget t (track_of (i ∷ is))) (sym e)
        (rw (differ, other)
          (ap (λ l. (i.text, i.val) ∷ l) (track_of-cut t is nodup.1 (λ z. h (e ∙ z)))))
]

pub addr_at-cut :
    (t q : Bytes) (is : List Item)
    → IsNodup (addrs is)
    → AllDistinct is
    → addr_at t is ≢ 0
    → addr_at q (cut (addr_at t is) is) ≡ (if bytes_eq t q then 0 else addr_at q is)
addr_at-cut t q [] nodup d h = absurd (h refl)
addr_at-cut t q (i ∷ is) nodup d h = elim (Bool-cases (bytes_eq i.text t)) [
  | inl same ↦
      let e : addr_at t (i ∷ is) ≡ i.addr = rw same refl in
      subst (λ a. addr_at q (cut a (i ∷ is)) ≡ (if bytes_eq t q then 0 else addr_at q (i ∷ is)))
        (sym e)
        (rw (==_refl i.addr, ← eq_of_bytes_eq i.text t same)
          (elim (Bool-cases (bytes_eq i.text q)) [
            | inl b ↦ rw (b, ← eq_of_bytes_eq i.text q b) d.0
            | inr b ↦ rw b refl
          ]))
  | inr other ↦
      let e : addr_at t (i ∷ is) ≡ addr_at t is = rw other refl in
      let on = addr_at-on t is (λ z. h (e ∙ z)) in
      let differ = ne_of_has i.addr (addr_at t is) (addrs is) nodup.0 on in
      let ih = addr_at-cut t q is nodup.1 d.2 (λ z. h (e ∙ z)) in
      subst (λ a. addr_at q (cut a (i ∷ is)) ≡ (if bytes_eq t q then 0 else addr_at q (i ∷ is)))
        (sym e)
        (rw differ (elim (Bool-cases (bytes_eq i.text q)) [
          | inr b ↦ rw b ih
          | inl b ↦ elim (Bool-cases (bytes_eq t q)) [
            | inr c ↦ rw (b, c) refl
            | inl c ↦
                let both = eq_of_bytes_eq i.text q b ∙ sym (eq_of_bytes_eq t q c) in
                absurd (ground (arith, bytes_eq_refl t, both))
          ]
        ]))
]

-- The last node of a list that is not empty is on it, and cutting it drops the last item.
pub last-on :
    (a : ℕ) (i : Item) (is : List Item)
    → has (last_before a (addrs (i ∷ is))) (addrs (i ∷ is)) ≡ true
last-on a i [] = ground arith
last-on a i (j ∷ is) =
    has_cons (last_before i.addr (addrs (j ∷ is))) i.addr (addrs (j ∷ is)) (last-on i.addr j is)

pub track_of-cut_last :
    (a : ℕ) (i : Item) (is : List Item)
    → IsNodup (addrs (i ∷ is))
    → track_of (cut (last_before a (addrs (i ∷ is))) (i ∷ is))
      ≡ take (length is) (track_of (i ∷ is))
track_of-cut_last a i [] nodup = rw (==_refl i.addr) refl
track_of-cut_last a i (j ∷ is) nodup =
    let d = last_before i.addr (addrs (j ∷ is)) in
    let differ = ne_of_has i.addr d (addrs (j ∷ is)) nodup.0 (last-on i.addr j is) in
    rw differ (ap (λ l. (i.text, i.val) ∷ l) (track_of-cut_last i.addr j is nodup.1))
