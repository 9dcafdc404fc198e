-- ===== src/Lru.antt =====
-- LRU/lru.c and lru.h: a list of nodes from the most recently used one to the least, with a map from
-- keys to nodes.
pub mod Index
pub mod Chain
pub mod Track
pub mod Items
pub mod Invariant
pub mod Get
pub mod Put
pub mod Run
mod Tests
pub mod Cells
use nfs_network_file_system.Prelude.{
  ℕ, zero, suc, ◌+◌, ◌-◌, List, [], ◌∷◌, ◌++◌, Option, none, some, ◌==◌, if◌then◌else◌, ◌>>=◌,
  length, get_elem?, set,
}
use nfs_network_file_system.Prelude.Bytes.{Bytes}
use nfs_network_file_system.Text.{space, decimal, char_decimal}
use nfs_network_file_system.Hashmap.{Hashmap, hashmap_set, hashmap_get, hashmap_remove}
use nfs_network_file_system.MapOperations.{CString, last_char, minus_one}

-- A `Node` keeps the pointer of its key that the caller gave: `Text` is what such a pointer is in the
-- model, and the memory says which text stands there now.
pub record Node (Text : Type 0) : Type 0 where
  pub key : Text
  pub val : ℕ
  pub next : ℕ
  pub prev : ℕ

-- The nodes that `malloc` gave, in order: the node at address `a` is number `a - 1`, and 0 is NULL.
-- The program frees none. The sentinels `head` and `tail` are the first two.
pub record Lru (Text : Type 0) : Type 0 where
  pub nodes : List (Node Text)
  pub capacity : ℕ
  pub m : Hashmap
  pub map_size : ℕ

abbrev pub head : ℕ
head = 1

abbrev pub tail : ℕ
tail = 2

-- sprintf(temp, "%ld %d %s", strlen(key), key[strlen(key) - 1], key); it is taken to fit into `temp`, as in
-- `map_key`.
unfoldable pub lru_key : CString → Bytes
unfolding last_char
lru_key key =
    decimal (length key.text)
    ++ space ∷ (char_decimal (last_char key.before key.text) ++ space ∷ key.text)

unfoldable pub set_value_lr : Hashmap → CString → ℕ → Option Hashmap
set_value_lr m key val = hashmap_set m (lru_key key) (length (lru_key key)) val

-- The address of the node, or NULL.
unfoldable pub get_value_lr : Hashmap → CString → Option ℕ
get_value_lr m key = do
  (found, result) ← hashmap_get m (lru_key key) (length (lru_key key))
  some (if found then result else 0)

unfoldable pub remove_entry_lr : Hashmap → CString → Option Hashmap
remove_entry_lr m key = hashmap_remove m (lru_key key) (length (lru_key key))

module _ {Text : Type 0} where
  -- `*node`; `none` for NULL.
  unfoldable pub node_at : List (Node Text) → ℕ → Option (Node Text)
  node_at nodes zero = none
  node_at nodes (suc a) = get_elem? nodes a

  -- A write to a field of the node at an address.
  unfoldable pub set_next : List (Node Text) → ℕ → ℕ → Option (List (Node Text))
  unfolding node_at
  set_next nodes a next = do
    n ← node_at nodes a
    some (set nodes (a - 1) (record n { next = next }))

  unfoldable pub set_prev : List (Node Text) → ℕ → ℕ → Option (List (Node Text))
  unfolding node_at
  set_prev nodes a prev = do
    n ← node_at nodes a
    some (set nodes (a - 1) (record n { prev = prev }))

  -- `hash` is the text of the literal "#". The `prev` of the head and the `next` of the tail stay as
  -- `malloc` gave them, and are never read: NULL stands for them.
  unfoldable pub create_lru : Text → Hashmap → ℕ → Lru Text
  create_lru hash m capacity = record {
    nodes =
        record { key = hash; val = minus_one; next = tail; prev = 0 }
        ∷ record { key = hash; val = minus_one; next = 0; prev = head }
        ∷ [];
    capacity = capacity;
    m = m;
    map_size = 0;
  }

  unfoldable pub add_node : List (Node Text) → ℕ → Option (List (Node Text))
  unfolding set_next set_prev
  add_node nodes newnode = do
    h ← node_at nodes head
    let headnext = h.next
    n₁ ← set_next nodes head newnode
    n₂ ← set_prev n₁ newnode head
    n₃ ← set_next n₂ newnode headnext
    set_prev n₃ headnext newnode

  unfoldable pub delete_node : List (Node Text) → ℕ → Option (List (Node Text))
  unfolding set_next set_prev
  delete_node nodes delnode = do
    d ← node_at nodes delnode
    n₁ ← set_next nodes d.prev d.next
    set_prev n₁ d.next d.prev

  module _ (mem : Text → CString) where
    -- `lru->m` maps the key to `lru->head->next`.
    unfoldable pub set_head : Lru Text → Text → Option (Lru Text)
    set_head l key = do
      h ← node_at l.nodes head
      m ← set_value_lr l.m (mem key) h.next
      some (record l { m = m; map_size = l.map_size + 1 })

    -- A key with a node is used: its node goes to the front.
    unfoldable pub touch : Lru Text → Text → ℕ → Option (Lru Text × ℕ)
    unfolding set_head
    touch l key node = do
      n ← node_at l.nodes node
      m ← remove_entry_lr l.m (mem key)
      n₁ ← delete_node l.nodes node
      n₂ ← add_node n₁ node
      l' ← set_head (record l { nodes = n₂; m = m; map_size = l.map_size - 1 }) key
      some (l', n.val)

    unfoldable pub get_lru : Lru Text → Text → Option (Lru Text × ℕ)
    unfolding touch
    get_lru l key = do
      res_node ← get_value_lr l.m (mem key)
      if res_node == 0 then some (l, minus_one) else touch l key res_node

    -- The first `if` of `put_LRU`: an old node of the key is taken out.
    unfoldable pub drop_old : Lru Text → Text → Option (Lru Text)
    drop_old l key = do
      curr ← get_value_lr l.m (mem key)
      if curr == 0 then some l else do
        m ← remove_entry_lr l.m (mem key)
        n ← delete_node l.nodes curr
        some (record l { nodes = n; m = m; map_size = l.map_size - 1 })

    -- The second: a full list loses its last node.
    unfoldable pub evict : Lru Text → Option (Lru Text)
    evict l =
        if l.map_size == l.capacity
        then (do
          t ← node_at l.nodes tail
          last ← node_at l.nodes t.prev
          m ← remove_entry_lr l.m (mem last.key)
          n ← delete_node l.nodes t.prev
          some (record l { nodes = n; m = m; map_size = l.map_size - 1 }))
        else some l

    unfoldable pub put_lru : Lru Text → Text → ℕ → Option (Lru Text)
    unfolding drop_old evict set_head
    put_lru l key value = do
      l₁ ← drop_old l key
      l₂ ← evict l₁
      let newnode = length l₂.nodes + 1
      n ← add_node (l₂.nodes ++ record { key = key; val = value; next = 0; prev = 0 } ∷ []) newnode
      set_head (record l₂ { nodes = n }) key
