-- ===== src/Lru/Chain.antt =====
-- A doubly linked list as two functions on addresses, and what unlinking and linking do to it.
use nfs_network_file_system.Prelude.{
  ℕ, ◌≡◌, refl, ◌∙◌, ap, false, true, List, [], ◌∷◌, ◌++◌, ◌==◌, if◌then◌else◌, arith, has, ==_refl,
  IsNodup, Bool-cases, inl, inr, has-append,
}

-- From `a` over the addresses in order to `z`, and back.
abbrev pub Linked : (ℕ → ℕ) → (ℕ → ℕ) → ℕ → List ℕ → ℕ → Type 0
Linked nx pv a [] z = (nx a ≡ z) × (pv z ≡ a)
Linked nx pv a (b ∷ bs) z = (nx a ≡ b) × (pv b ≡ a) × Linked nx pv b bs z

-- The address that follows the start.
abbrev pub first_of : List ℕ → ℕ → ℕ
first_of [] z = z
first_of (b ∷ bs) z = b

-- The address before the end.
abbrev pub last_before : ℕ → List ℕ → ℕ
last_before a [] = a
last_before a (b ∷ bs) = last_before b bs

-- The list less an address.
abbrev pub without : ℕ → List ℕ → List ℕ
without d [] = []
without d (b ∷ bs) = if b == d then bs else b ∷ without d bs

pub has-without : (x d : ℕ) (bs : List ℕ) → has x bs ≡ false → has x (without d bs) ≡ false
has-without x d [] h = refl
has-without x d (b ∷ bs) h = ground (arith, has-without x d bs)

pub without-IsNodup : (d : ℕ) (bs : List ℕ) → IsNodup bs → IsNodup (without d bs)
without-IsNodup d [] h = tt
without-IsNodup d (b ∷ bs) h = elim (Bool-cases (b == d)) [
  | inl same ↦ rw same h.1
  | inr other ↦ rw other (has-without b d bs h.0, without-IsNodup d bs h.1)
]

pub has-without_self : (d : ℕ) (bs : List ℕ) → IsNodup bs → has d (without d bs) ≡ false
has-without_self d [] h = refl
has-without_self d (b ∷ bs) h = ground (arith, has-without_self d bs h.1)

pub has-first : (z : ℕ) (bs : List ℕ) → has (first_of bs z) (bs ++ z ∷ []) ≡ true
has-first z [] = ground arith
has-first z (b ∷ bs) = ground arith

-- Two numbers of which one is on the list and the other is not.
pub ne_of_has : (x y : ℕ) (xs : List ℕ) → has x xs ≡ false → has y xs ≡ true → x == y ≡ false
ne_of_has x y [] no_x on_y = absurd (ground arith)
ne_of_has x y (c ∷ xs) no_x on_y = ground (arith, ne_of_has x y xs)

ne_of_has_sym : (x y : ℕ) (xs : List ℕ) → has x xs ≡ false → has y xs ≡ true → y == x ≡ false
ne_of_has_sym x y xs no_x on_y = ground (arith, ne_of_has x y xs no_x on_y)

ne_of_before :
    (x y : ℕ) (xs : List ℕ) (z : ℕ)
    → has x (xs ++ z ∷ []) ≡ false
    → has y xs ≡ true
    → y == x ≡ false
ne_of_before x y xs z no_x on_y =
    ne_of_has_sym x y (xs ++ z ∷ []) no_x (ground (arith, has-append y xs (z ∷ [])))

module _ (nx pv : ℕ → ℕ) where
  pub Linked-first : (a z : ℕ) (bs : List ℕ) → Linked nx pv a bs z → nx a ≡ first_of bs z
  Linked-first a z [] h = h.0
  Linked-first a z (b ∷ bs) h = h.0

  pub Linked-last : (a z : ℕ) (bs : List ℕ) → Linked nx pv a bs z → pv z ≡ last_before a bs
  Linked-last a z [] h = h.1
  Linked-last a z (b ∷ bs) h = Linked-last b z bs h.2

  -- The neighbours of an address on the list are on it, or are its ends.
  pub prev_on :
      (a z d : ℕ) (bs : List ℕ) → Linked nx pv a bs z → has d bs ≡ true → has (pv d) (a ∷ bs) ≡ true
  prev_on a z d [] h on = absurd (ground arith)
  prev_on a z d (b ∷ bs) h on = elim (Bool-cases (b == d)) [
    | inl same ↦ let e : b ≡ d = ground arith in let p : pv d ≡ a = rw (← e) h.1 in ground arith
    | inr other ↦ ground (arith, prev_on b z d bs h.2)
  ]

  pub next_on :
      (a z d : ℕ) (bs : List ℕ)
      → Linked nx pv a bs z
      → has d bs ≡ true
      → has (nx d) (bs ++ z ∷ []) ≡ true
  next_on a z d [] h on = absurd (ground arith)
  next_on a z d (b ∷ bs) h on = elim (Bool-cases (b == d)) [
    | inl same ↦
        let e : b ≡ d = ground arith in
        let n : nx d ≡ first_of bs z = rw (← e) (Linked-first b z bs h.2) in
        rw n (ground (arith, has-first z bs))
    | inr other ↦ ground (arith, next_on b z d bs h.2)
  ]

  -- `next` may differ off the list's beginning, `prev` off its end.
  pub Linked-congr :
      (nx' pv' : ℕ → ℕ) (a z : ℕ) (bs : List ℕ)
      → ((x : ℕ) → has x (a ∷ bs) ≡ true → nx' x ≡ nx x)
      → ((x : ℕ) → has x (bs ++ z ∷ []) ≡ true → pv' x ≡ pv x)
      → Linked nx pv a bs z
      → Linked nx' pv' a bs z
  Linked-congr nx' pv' a z [] n p h = (n a (ground arith) ∙ h.0, p z (ground arith) ∙ h.1)
  Linked-congr nx' pv' a z (b ∷ bs) n p h = (
    n a (ground arith) ∙ h.0,
    p b (ground arith) ∙ h.1,
    Linked-congr nx' pv' b z bs (λ x m. n x (ground arith)) (λ x m. p x (ground arith)) h.2,
  )

-- Another start for the rest of a list.
Linked-restart :
    (nx pv nx' pv' : ℕ → ℕ) (a b z : ℕ) (bs : List ℕ)
    → Linked nx pv b bs z
    → nx' a ≡ first_of bs z
    → pv' (first_of bs z) ≡ a
    → ((x : ℕ) → has x bs ≡ true → nx' x ≡ nx x)
    → ((x : ℕ) → has x (bs ++ z ∷ []) ≡ true → first_of bs z == x ≡ false → pv' x ≡ pv x)
    → IsNodup (bs ++ z ∷ [])
    → Linked nx' pv' a bs z
Linked-restart nx pv nx' pv' a b z [] h e f n p nodup = (e, f)
Linked-restart nx pv nx' pv' a b z (c ∷ cs) h e f n p nodup = (
  e,
  f,
  Linked-congr nx pv nx' pv' c z cs n
      (λ x m. p x (ground arith) (ne_of_has c x (cs ++ z ∷ []) nodup.0 m)) h.2,
)

-- Unlinking: the neighbours of `d` take each other.
pub Linked-without :
    (nx pv nx' pv' : ℕ → ℕ) (a z d : ℕ) (bs : List ℕ)
    → Linked nx pv a bs z
    → IsNodup (a ∷ bs ++ z ∷ [])
    → has d bs ≡ true
    → ((x : ℕ) → nx' x ≡ (if pv d == x then nx d else nx x))
    → ((x : ℕ) → pv' x ≡ (if nx d == x then pv d else pv x))
    → Linked nx' pv' a (without d bs) z
Linked-without nx pv nx' pv' a z d [] h nodup on n p = absurd (ground arith)
Linked-without nx pv nx' pv' a z d (b ∷ bs) h nodup on n p = elim (Bool-cases (b == d)) [
  | inl same ↦
      let e : b ≡ d = ground arith in
      let first : nx d ≡ first_of bs z = rw (← e) (Linked-first nx pv b z bs h.2) in
      let back : pv d ≡ a = rw (← e) h.1 in
      rw same (
        Linked-restart nx pv nx' pv' a b z bs h.2 (n a ∙ rw (back, ==_refl a) first)
          (p (first_of bs z) ∙ rw (first, ==_refl (first_of bs z)) back)
          (λ x m.
            n x
            ∙ rw
                (
                  back,
                  ne_of_has a x (b ∷ bs ++ z ∷ []) nodup.0
                      (ground (arith, has-append x bs (z ∷ []))),
                )
                refl)
          (λ x m k. p x ∙ rw (first, k) refl) nodup.1.1)
  | inr other ↦ rw other (
    n a
        ∙ rw (ne_of_before a (pv d) (b ∷ bs) z nodup.0 (prev_on nx pv b z d bs h.2 (ground arith)))
            h.0,
    p b
        ∙ rw
            (ne_of_has_sym b (nx d) (bs ++ z ∷ []) nodup.1.0
              (next_on nx pv b z d bs h.2 (ground arith)))
            h.1,
    Linked-without nx pv nx' pv' b z d bs h.2 nodup.1 (ground arith) n p,
  )
]

-- Linking: a new address behind the start.
pub Linked-cons :
    (nx pv nx' pv' : ℕ → ℕ) (a z d : ℕ) (bs : List ℕ)
    → Linked nx pv a bs z
    → IsNodup (a ∷ bs ++ z ∷ [])
    → has d (a ∷ bs ++ z ∷ []) ≡ false
    → ((x : ℕ) → nx' x ≡ (if d == x then nx a else if a == x then d else nx x))
    → ((x : ℕ) → pv' x ≡ (if nx a == x then d else if d == x then a else pv x))
    → Linked nx' pv' a (d ∷ bs) z
Linked-cons nx pv nx' pv' a z d bs h nodup fresh n p =
    let first = Linked-first nx pv a z bs h in
    let on : has (nx a) (bs ++ z ∷ []) ≡ true = rw first (has-first z bs) in
    let off : has d (bs ++ z ∷ []) ≡ false = ground arith in
    let agree_next : (x : ℕ) → has x (bs ++ z ∷ []) ≡ true → nx' x ≡ nx x = λ x m.
      n x ∙ rw (ne_of_has d x (bs ++ z ∷ []) off m, ne_of_has a x (bs ++ z ∷ []) nodup.0 m) refl in
    let agree_prev : (x : ℕ)
        → has x (bs ++ z ∷ []) ≡ true
        → first_of bs z == x ≡ false
        → pv' x ≡ pv x =
      λ x m k. p x ∙ rw (first, k, ne_of_has d x (bs ++ z ∷ []) off m) refl in
    (
      n a ∙ rw (ne_of_has d a (a ∷ bs ++ z ∷ []) fresh (ground (arith, ==_refl a)), ==_refl a) refl,
      p d ∙ rw (ne_of_has_sym d (nx a) (bs ++ z ∷ []) off on, ==_refl d) refl,
      Linked-restart nx pv nx' pv' d a z bs h (n d ∙ rw (==_refl d) first)
          (p (first_of bs z) ∙ rw (first, ==_refl (first_of bs z)) refl)
          (λ x m. agree_next x (ground (arith, has-append x bs (z ∷ []))))
          (λ x m k. agree_prev x m k) nodup.1,
    )

pub without-append :
    (d : ℕ) (bs cs : List ℕ) → has d bs ≡ true → without d (bs ++ cs) ≡ without d bs ++ cs
without-append d [] cs on = absurd (ground arith)
without-append d (b ∷ bs) cs on = elim (Bool-cases (b == d)) [
  | inl same ↦ rw same refl
  | inr other ↦ rw other (ap (λ l. b ∷ l) (without-append d bs cs (ground arith)))
]

pub IsNodup-front : (bs cs : List ℕ) → IsNodup (bs ++ cs) → IsNodup bs
IsNodup-front [] cs h = tt
IsNodup-front (b ∷ bs) cs h = (ground (arith, h.0, has-append b bs cs), IsNodup-front bs cs h.1)
