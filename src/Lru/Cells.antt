-- ===== src/Lru/Cells.antt =====
-- The heap of LRU/lru.c read cell by cell: what a write to a field leaves, and that `deleteNode` and
-- `addNode` return and change only the links that they mean to.
use nfs_network_file_system.Prelude.{
  ℕ, zero, suc, ◌+◌, ◌-◌, ◌<◌, ◌≤◌, ◌≡◌, refl, ◌∙◌, List, [], ◌∷◌, ◌++◌, Option, none, some, ◌==◌,
  if◌then◌else◌, length, get_elem?, set, length-set, arith, Bool-cases, inl, inr,
}
use nfs_network_file_system.Lru.{Node, head, node_at, set_next, set_prev, add_node, delete_node}

module _ {A : Type 0} where
  get_elem?-in : (xs : List A) (i : ℕ) → i < length xs → (x : A) × (get_elem? xs i ≡ some x)
  get_elem?-in [] i h = absurd (omega arith)
  get_elem?-in (x ∷ xs) zero h = (x, refl)
  get_elem?-in (x ∷ xs) (suc i) h = get_elem?-in xs i (omega arith)

  get_elem?-set :
      (xs : List A) (i j : ℕ) (v : A)
      → i < length xs
      → get_elem? (set xs i v) j ≡ (if i == j then some v else get_elem? xs j)
  get_elem?-set [] i j v h = absurd (omega arith)
  get_elem?-set (x ∷ xs) zero zero v h = refl
  get_elem?-set (x ∷ xs) zero (suc j) v h = ground arith
  get_elem?-set (x ∷ xs) (suc i) zero v h = ground arith
  get_elem?-set (x ∷ xs) (suc i) (suc j) v h = ground (arith, get_elem?-set xs i j v)

  get_elem?-append_one :
      (xs : List A) (v : A) (j : ℕ)
      → get_elem? (xs ++ v ∷ []) j ≡ (if length xs == j then some v else get_elem? xs j)
  get_elem?-append_one [] v zero = refl
  get_elem?-append_one [] v (suc j) = ground arith
  get_elem?-append_one (x ∷ xs) v zero = ground arith
  get_elem?-append_one (x ∷ xs) v (suc j) = ground (arith, get_elem?-append_one xs v j)

  get_elem?-out : (xs : List A) (i : ℕ) → length xs ≤ i → get_elem? xs i ≡ none
  get_elem?-out [] i h = refl
  get_elem?-out (x ∷ xs) zero h = absurd (omega arith)
  get_elem?-out (x ∷ xs) (suc i) h = get_elem?-out xs i (omega arith)

module _ {Text : Type 0} where
  abbrev pub next_field : Option (Node Text) → ℕ
  next_field none = 0
  next_field (some n) = n.next

  abbrev pub prev_field : Option (Node Text) → ℕ
  prev_field none = 0
  prev_field (some n) = n.prev

  abbrev pub pair_field : Option (Node Text) → Option (Text × ℕ)
  pair_field none = none
  pair_field (some n) = some (n.key, n.val)

  -- The fields of the node at an address.
  abbrev pub next_of : List (Node Text) → ℕ → ℕ
  next_of nodes a = next_field (node_at nodes a)

  abbrev pub prev_of : List (Node Text) → ℕ → ℕ
  prev_of nodes a = prev_field (node_at nodes a)

  abbrev pub pair_of : List (Node Text) → ℕ → Option (Text × ℕ)
  pair_of nodes a = pair_field (node_at nodes a)

  abbrev pub InHeap : List (Node Text) → ℕ → Type 0
  InHeap nodes a = (0 < a) × (a ≤ length nodes)

  pub node_at-in :
      (nodes : List (Node Text)) (a : ℕ)
      → InHeap nodes a
      → (n : Node Text) × (node_at nodes a ≡ some n)
  unfolding node_at
  node_at-in nodes zero h = absurd (omega arith)
  node_at-in nodes (suc a) h = get_elem?-in nodes a (omega arith)

  node_at-set :
      (nodes : List (Node Text)) (a x : ℕ) (n : Node Text)
      → InHeap nodes a
      → node_at (set nodes (a - 1) n) x ≡ (if a == x then some n else node_at nodes x)
  unfolding node_at
  node_at-set nodes zero x n h = absurd (omega arith)
  node_at-set nodes (suc a) zero n h = ground arith
  node_at-set nodes (suc a) (suc x) n h =
      let e : suc a - 1 ≡ a = omega arith in rw e (ground (arith, get_elem?-set nodes a x n))

  -- What a step on the heap leaves: links as the functions say, and keys, values and size.
  pub record Relinks (nodes nodes' : List (Node Text)) (nx pv : ℕ → ℕ) : Type 0 where
    pub size : length nodes' ≡ length nodes
    pub nexts : (x : ℕ) → next_of nodes' x ≡ nx x
    pub prevs : (x : ℕ) → prev_of nodes' x ≡ pv x
    pub pairs : (x : ℕ) → pair_of nodes' x ≡ pair_of nodes x

  set_next-Relinks :
      (nodes : List (Node Text)) (a v : ℕ)
      → InHeap nodes a
      → (nodes' : List (Node Text)) × (set_next nodes a v ≡ some nodes')
        × Relinks nodes nodes' (λ x. if a == x then v else next_of nodes x) (prev_of nodes)
  unfolding set_next
  set_next-Relinks nodes a v h =
      let (n, at) = node_at-in nodes a h in
      (
        set nodes (a - 1) (record n { next = v }),
        ground (arith, at),
        record {
          size = length-set nodes (a - 1) (record n { next = v });
          nexts = λ x. ground (arith, node_at-set nodes a x (record n { next = v }) h);
          prevs = λ x. ground (arith, at, node_at-set nodes a x (record n { next = v }) h);
          pairs = λ x. ground (arith, at, node_at-set nodes a x (record n { next = v }) h);
        },
      )

  set_prev-Relinks :
      (nodes : List (Node Text)) (a v : ℕ)
      → InHeap nodes a
      → (nodes' : List (Node Text)) × (set_prev nodes a v ≡ some nodes')
        × Relinks nodes nodes' (next_of nodes) (λ x. if a == x then v else prev_of nodes x)
  unfolding set_prev
  set_prev-Relinks nodes a v h =
      let (n, at) = node_at-in nodes a h in
      (
        set nodes (a - 1) (record n { prev = v }),
        ground (arith, at),
        record {
          size = length-set nodes (a - 1) (record n { prev = v });
          nexts = λ x. ground (arith, at, node_at-set nodes a x (record n { prev = v }) h);
          prevs = λ x. ground (arith, node_at-set nodes a x (record n { prev = v }) h);
          pairs = λ x. ground (arith, at, node_at-set nodes a x (record n { prev = v }) h);
        },
      )

  pub delete_node-Relinks :
      (nodes : List (Node Text)) (d : ℕ)
      → InHeap nodes d
      → InHeap nodes (prev_of nodes d)
      → InHeap nodes (next_of nodes d)
      → (nodes' : List (Node Text)) × (delete_node nodes d ≡ some nodes')
        × Relinks nodes nodes'
            (λ x. if prev_of nodes d == x then next_of nodes d else next_of nodes x)
            (λ x. if next_of nodes d == x then prev_of nodes d else prev_of nodes x)
  unfolding delete_node
  delete_node-Relinks nodes d hd hp hn =
      let (n, at) = node_at-in nodes d hd in
      let (n₁, run₁, r₁) = set_next-Relinks nodes (prev_of nodes d) (next_of nodes d) hp in
      let (n₂, run₂, r₂) =
        set_prev-Relinks n₁ (next_of nodes d) (prev_of nodes d) (rw r₁.size hn) in
      (
        n₂,
        ground (arith, at, run₁, run₂),
        record {
          size = r₂.size ∙ r₁.size;
          nexts = λ x. r₂.nexts x ∙ r₁.nexts x;
          prevs = λ x. r₂.prevs x ∙ rw (r₁.prevs x) refl;
          pairs = λ x. r₂.pairs x ∙ r₁.pairs x;
        },
      )

  pub add_node-Relinks :
      (nodes : List (Node Text)) (d : ℕ)
      → InHeap nodes d
      → InHeap nodes head
      → InHeap nodes (next_of nodes head)
      → (nodes' : List (Node Text)) × (add_node nodes d ≡ some nodes')
        × Relinks nodes nodes'
            (λ x. if d == x then next_of nodes head else if head == x then d else next_of nodes x)
            (λ x. if next_of nodes head == x then d else if d == x then head else prev_of nodes x)
  unfolding add_node
  add_node-Relinks nodes d hd hh hn =
      let (n, at) = node_at-in nodes head hh in
      let (n₁, run₁, r₁) = set_next-Relinks nodes head d hh in
      let (n₂, run₂, r₂) = set_prev-Relinks n₁ d head (rw r₁.size hd) in
      let (n₃, run₃, r₃) = set_next-Relinks n₂ d (next_of nodes head) (rw (r₂.size, r₁.size) hd) in
      let (n₄, run₄, r₄) =
        set_prev-Relinks n₃ (next_of nodes head) d (rw (r₃.size, r₂.size, r₁.size) hn) in
      (
        n₄,
        ground (arith, at, run₁, run₂, run₃, run₄),
        record {
          size = r₄.size ∙ r₃.size ∙ r₂.size ∙ r₁.size;
          nexts = λ x. r₄.nexts x ∙ r₃.nexts x ∙ rw (r₂.nexts x, r₁.nexts x) refl;
          prevs = λ x. r₄.prevs x ∙ rw (r₃.prevs x, r₂.prevs x, r₁.prevs x) refl;
          pairs = λ x. r₄.pairs x ∙ r₃.pairs x ∙ r₂.pairs x ∙ r₁.pairs x;
        },
      )

  -- The node that `malloc` gives and the code fills in.
  abbrev pub new_node : Text → ℕ → Node Text
  new_node key value = record { key = key; val = value; next = 0; prev = 0 }

  -- The heap with a fresh node at its end.
  pub node_at-append_one :
      (nodes : List (Node Text)) (n : Node Text) (x : ℕ)
      → node_at (nodes ++ n ∷ []) x ≡ (if length nodes + 1 == x then some n else node_at nodes x)
  unfolding node_at
  node_at-append_one nodes n zero = ground arith
  node_at-append_one nodes n (suc x) = ground (arith, get_elem?-append_one nodes n x)

  node_at-out : (nodes : List (Node Text)) (x : ℕ) → length nodes < x → node_at nodes x ≡ none
  unfolding node_at
  node_at-out nodes zero h = refl
  node_at-out nodes (suc x) h = get_elem?-out nodes x (omega arith)

  pub alloc_links :
      (nodes : List (Node Text)) (key : Text) (value : ℕ) (x : ℕ)
      → (next_of (nodes ++ new_node key value ∷ []) x ≡ next_of nodes x)
        × (prev_of (nodes ++ new_node key value ∷ []) x ≡ prev_of nodes x)
  alloc_links nodes key value x = elim (Bool-cases (length nodes + 1 == x)) [
    | inr old ↦ rw (node_at-append_one nodes (new_node key value) x, old) (refl, refl)
    | inl new ↦
        let out = node_at-out nodes x (ground arith) in
        rw (node_at-append_one nodes (new_node key value) x, new, out) (refl, refl)
  ]

  pub alloc_pairs :
      (nodes : List (Node Text)) (key : Text) (value : ℕ) (x : ℕ)
      → x ≤ length nodes
      → pair_of (nodes ++ new_node key value ∷ []) x ≡ pair_of nodes x
  alloc_pairs nodes key value x h = ground (arith, node_at-append_one nodes (new_node key value) x)
