-- ===== src/Registry/Lookup.antt =====
-- What the three lookups of src/pwf_pw_core.c find.
use tinypipewire.Common.{
  ℕ, suc, ◌≡◌, refl, ◌⊎◌, inl, inr, String, str_eq, eq_iff, Bool, true, false, ◌&&◌, some, List, [],
  ◌∷◌, ◌++◌, arith, get_elem?, take, All, Bool-cases, Option, none, Option-cases, append-nil,
  append_assoc, sym, ap, ◌∙◌,
}
use tinypipewire.Registry.{
  Registry, NodeEntry, PortEntry, SpaDirection, Alloc, Global, NodeProps, PortProps, node, port,
  other, faces, add_node, add_port, first_id, find_node_by_name, find_port, on_global, node_entry,
}

module _ {A : Type 0} (get_id : A → ℕ) (p : A → Bool) where
  -- The id of the first entry that passes, or 0 where none does.
  abbrev pub FirstOf : List A → ℕ → Type 0
  FirstOf l r =
      (All (λ e. p e ≡ false) l × (r ≡ 0))
      ⊎ ((i : ℕ) × (e : A) × (get_elem? l i ≡ some e)
          × (p e ≡ true)
          × All (λ e. p e ≡ false) (take i l)
          × (r ≡ get_id e))

  first_id-FirstOf : (l : List A) → FirstOf l (first_id get_id p l)
  unfolding first_id
  first_id-FirstOf [] = inl (tt, refl)
  first_id-FirstOf (x ∷ l) = elim (Bool-cases (p x)) [
    | inl hit ↦ inr (0, x, refl, hit, tt, rw hit)
    | inr miss ↦ elim (first_id-FirstOf l) [
      | inl (others, z) ↦ inl ((miss, others), rw miss z)
      | inr (i, e, there, hit, before, r) ↦ inr (suc i, e, there, hit, (miss, before), rw miss r)
    ]
  ]

  first_id-append :
      (l : List A) (e : A) (rest : List A)
      → All (λ x. p x ≡ false) l
      → p e ≡ true
      → first_id get_id p (l ++ e ∷ rest) ≡ get_id e
  unfolding first_id
  first_id-append [] e rest a h = rw h
  first_id-append (x ∷ l) e rest a h = rw a.0 (first_id-append l e rest a.1 h)

-- A port is looked up by its node, its direction and its exact name, all three: the id of the first
-- cached port that has them, and 0 where none has.
pub find_port-FirstOf :
    (reg : Registry) (node_id : ℕ) (name : String) (direction : SpaDirection)
    → FirstOf
        (λ (e : PortEntry). e.id)
        (λ e. faces node_id direction e && str_eq e.name name)
        reg.ports
        (find_port reg node_id name direction)
unfolding find_port
find_port-FirstOf reg node_id name direction = first_id-FirstOf _ _ reg.ports

-- Globals announced one after the other, each with what the allocator does.
unfoldable pub on_globals : (String → ℕ) → Registry → List (ℕ × Alloc × Option Global) → Registry
on_globals strtoull reg [] = reg
on_globals strtoull reg ((id, alloc, global) ∷ globals) =
    on_globals strtoull (on_global strtoull reg id alloc global).0 globals

-- An announcement keeps the cached nodes in their places.
add_node-named :
    (strtoull : String → ℕ) (reg : Registry) (id : ℕ) (alloc : Alloc) (props : NodeProps)
    (name : String)
    → props.name ≡ some name
    → let nodes = (add_node strtoull reg id alloc props).nodes in
      (nodes ≡ reg.nodes) ⊎ (nodes ≡ reg.nodes ++ node_entry strtoull id name alloc props ∷ [])
unfolding add_node
add_node-named strtoull reg id alloc props name e = ground (arith, e)

add_node-nodes :
    (strtoull : String → ℕ) (reg : Registry) (id : ℕ) (alloc : Alloc) (props : NodeProps)
    → (added : List NodeEntry) × ((add_node strtoull reg id alloc props).nodes ≡ reg.nodes ++ added)
unfolding add_node
add_node-nodes strtoull reg id alloc props = elim (Option-cases props.name) [
  | inl e ↦ ([], rw (e, add_node) (sym (append-nil reg.nodes)))
  | inr (name, e) ↦ elim (add_node-named strtoull reg id alloc props name e) [
    | inl same ↦ ([], same ∙ sym (append-nil reg.nodes))
    | inr one ↦ (node_entry strtoull id name alloc props ∷ [], one)
  ]
]

add_port-nodes :
    (strtoull : String → ℕ) (reg : Registry) (id : ℕ) (alloc : Alloc) (props : PortProps)
    → (add_port strtoull reg id alloc props).0.nodes ≡ reg.nodes
unfolding add_port
add_port-nodes strtoull reg id alloc props = elim (Option-cases props.name) [
  | inl e ↦ ground (arith, e)
  | inr (name, e) ↦ elim (Option-cases props.node_id) [
    | inl d ↦ ground (arith, e, d)
    | inr (node_id, d) ↦ ground (arith, e, d)
  ]
]

on_global-nodes :
    (strtoull : String → ℕ) (reg : Registry) (id : ℕ) (alloc : Alloc) (global : Option Global)
    → (added : List NodeEntry) × ((on_global strtoull reg id alloc global).0.nodes
        ≡ reg.nodes ++ added)
unfolding on_global
on_global-nodes strtoull reg id alloc none = ([], sym (append-nil reg.nodes))
on_global-nodes strtoull reg id alloc (some (node props)) =
    add_node-nodes strtoull reg id alloc props
on_global-nodes strtoull reg id alloc (some (port props)) =
    ([], add_port-nodes strtoull reg id alloc props ∙ sym (append-nil reg.nodes))
on_global-nodes strtoull reg id alloc (some other) = ([], sym (append-nil reg.nodes))

on_globals-nodes :
    (strtoull : String → ℕ) (reg : Registry) (globals : List (ℕ × Alloc × Option Global))
    → (added : List NodeEntry) × ((on_globals strtoull reg globals).nodes ≡ reg.nodes ++ added)
unfolding on_globals
on_globals-nodes strtoull reg [] = ([], sym (append-nil reg.nodes))
on_globals-nodes strtoull reg ((id, alloc, global) ∷ globals) =
    let (first, e) = on_global-nodes strtoull reg id alloc global in
    let (rest, d) = on_globals-nodes strtoull (on_global strtoull reg id alloc global).0 globals in
    (first ++ rest, d ∙ ap (λ l. l ++ rest) e ∙ append_assoc reg.nodes first rest)

-- A node announced under a name that no cached node has is found by that name, whatever is announced
-- after it, if the two allocations that the entry needs succeed.
pub find_node_by_name-on_global :
    (strtoull : String → ℕ) (reg : Registry) (id : ℕ) (alloc : Alloc) (props : NodeProps)
    (name : String) (later : List (ℕ × Alloc × Option Global))
    → props.name ≡ some name
    → All (λ (e : NodeEntry). str_eq e.name name ≡ false) reg.nodes
    → alloc.grow ≡ true
    → alloc.name ≡ true
    → let announced = (on_global strtoull reg id alloc (some (node props))).0 in
      find_node_by_name (on_globals strtoull announced later) name ≡ id
unfolding find_node_by_name on_global
find_node_by_name-on_global strtoull reg id alloc props name later named others grow ok =
    let announced = (on_global strtoull reg id alloc (some (node props))).0 in
    let (rest, e) = on_globals-nodes strtoull announced later in
    let entry = node_entry strtoull id name alloc props in
    let there : announced.nodes ≡ reg.nodes ++ entry ∷ [] = ground (arith, named, grow, ok) in
    let nodes : (on_globals strtoull announced later).nodes ≡ reg.nodes ++ entry ∷ rest =
      e ∙ ap (λ l. l ++ rest) there ∙ append_assoc reg.nodes (entry ∷ []) rest in
    ap (λ l. first_id (λ (e : NodeEntry). e.id) (λ e. str_eq e.name name) l) nodes
    ∙ first_id-append (λ (e : NodeEntry). e.id) (λ e. str_eq e.name name) reg.nodes entry rest
        others (ground (arith, eq_iff name name))
