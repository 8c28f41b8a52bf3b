-- ===== src/Registry/Removal.antt =====
-- `pwf_pw_registry_on_global_remove`: the swap with the last entry loses and repeats nothing.
use mathlib.Core.List.{Perm, perm_middle}
use mathlib.Core.List.Perm
use tinypipewire.Common.{
  ℕ, zero, suc, ◌-◌, ◌≡◌, refl, ap, sym, subst, ◌∙◌, ◌⊎◌, ◌≢◌, inl, inr, true, Option, none, some,
  List, [], ◌∷◌, ◌++◌, append-nil, arith, length, get_elem?, take, take_all, take-suc, All,
  if◌then◌else◌, ==_iff, ◌==◌, Bool-cases, is_some,
}
use tinypipewire.Registry.{
  Registry, NodeEntry, PortEntry, node_removed, index_of, swap_remove, drop_id, on_global_remove,
}

less_one : (n : ℕ) → suc n - 1 ≡ n
less_one n = omega arith

module _ {A : Type 0} where
  split_last :
      (l : List A) {last : A}
      → get_elem? l (length l - 1) ≡ some last
      → l ≡ take (length l - 1) l ++ last ∷ []
  split_last [] e = cc
  split_last (x ∷ l) {last} e =
      sym (take_all (suc (length l)) (x ∷ l) (omega arith))
      ∙ take-suc (length l) (x ∷ l) (subst (λ n. get_elem? (x ∷ l) n ≡ some last) (omega arith) e)
      ∙ ap (λ n. take n (x ∷ l) ++ last ∷ []) (omega arith)

  last_first : (xs : List A) (x : A) → Perm (xs ++ x ∷ []) (x ∷ xs)
  last_first xs x = subst (λ t. Perm (xs ++ x ∷ []) (x ∷ t)) (append-nil xs) (perm_middle xs [])

  last_of : (y : A) (l : List A) → (last : A) × (get_elem? (y ∷ l) (length l) ≡ some last)
  last_of y [] = (y, refl)
  last_of y (z ∷ l) = last_of z l

  swap_remove_front :
      (x y : A) (l : List A) {last : A}
      → get_elem? (y ∷ l) (length l) ≡ some last
      → swap_remove 0 (x ∷ y ∷ l) ≡ last ∷ take (length l) (y ∷ l)
  unfolding swap_remove
  swap_remove_front x y l e =
      rw (less_one (suc (length l)), e, swap_remove) (rw (less_one (suc (length l))))

  swap_remove_behind :
      (i : ℕ) (x y : A) (l : List A) {last : A}
      → get_elem? (y ∷ l) (length l) ≡ some last
      → swap_remove (suc i) (x ∷ y ∷ l) ≡ x ∷ swap_remove i (y ∷ l)
  unfolding swap_remove
  swap_remove_behind i x y l e =
      rw (less_one (suc (length l)), less_one (length l), e, swap_remove)
        (rw (less_one (suc (length l)), less_one (length l)))

  -- Removing at a place within the list takes out that entry alone.
  swap_remove-perm :
      (l : List A) (i : ℕ) {e : A} → get_elem? l i ≡ some e → Perm l (e ∷ swap_remove i l)
  swap_remove-perm [] i h = cc
  swap_remove-perm (x ∷ []) zero {e} h =
      unfold swap_remove in subst (λ t. Perm (x ∷ []) (t ∷ [])) (cc) (Perm.refl (x ∷ []))
  swap_remove-perm (x ∷ []) (suc i) h = cc
  swap_remove-perm (x ∷ y ∷ l) zero {e} h =
      let (last, last_is) = last_of y l in
      rw (swap_remove_front x y l last_is) (
        Perm.cons' (cc) (
          subst (λ t. Perm t (last ∷ take (length l) (y ∷ l)))
            (sym (
              subst (λ n. y ∷ l ≡ take n (y ∷ l) ++ last ∷ []) (less_one (length l))
                (split_last (y ∷ l) (rw less_one last_is))))
            (last_first (take (length l) (y ∷ l)) last)))
  swap_remove-perm (x ∷ y ∷ l) (suc i) {e} h =
      let (last, last_is) = last_of y l in
      rw (swap_remove_behind i x y l last_is)
        (Perm.trans (Perm.cons x (swap_remove-perm (y ∷ l) i h)) (Perm.swap e x _))

  module _ (get_id : A → ℕ) (id : ℕ) where
    -- No entry has the id, or the first that has it stands at the index found.
    Found : List A → Option ℕ → Type 0
    Found l r =
        ((r ≡ none) × All (λ e. get_id e ≢ id) l)
        ⊎ ((i : ℕ) × (e : A) × (r ≡ some i) × (get_elem? l i ≡ some e) × (get_id e ≡ id))

    index_of-Found : (l : List A) → Found l (index_of get_id id l)
    unfolding Found index_of
    index_of-Found [] = inl (refl, tt)
    index_of-Found (x ∷ l) = elim (Bool-cases (get_id x == id)) [
      | inl hit ↦ inr (0, x, ground arith, refl, (==_iff _ id).0 hit)
      | inr miss ↦ elim (index_of-Found l) [
        | inl (none_is, others) ↦ inl (ground arith, (ground arith, others))
        | inr (i, e, found, there, is_id) ↦ inr (suc i, e, ground arith, there, is_id)
      ]
    ]

    -- What the loop over one cache does to it.
    drop_id-Removal :
        (l : List A)
        → ((index_of get_id id l ≡ none) × All (λ e. get_id e ≢ id) l × (drop_id get_id id l ≡ l))
          ⊎ ((is_some (index_of get_id id l) ≡ true)
              × ((e : A) × (get_id e ≡ id) × Perm l (e ∷ drop_id get_id id l)))
    unfolding drop_id Found
    drop_id-Removal l = elim (index_of-Found l) [
      | inl (none_is, others) ↦ inl (none_is, others, rw (none_is, drop_id))
      | inr (i, e, found, there, is_id) ↦
          inr (rw found, (e, is_id, rw (found, drop_id) (swap_remove-perm l i there)))
    ]

-- When a global goes, either no cached node has its id, the nodes stay as they are and nobody is told,
-- or exactly one node of that id leaves the cache, the others staying in some order, and the owner is
-- told once, if it asked to be. With the ports it is the same, but nobody is told.
pub on_global_remove-Removal :
    (reg : Registry) (id : ℕ)
    → let (reg', notices) = on_global_remove reg id in
      ((All (λ e. e.id ≢ id) reg.nodes × (reg'.nodes ≡ reg.nodes) × (notices ≡ []))
        ⊎ ((e : NodeEntry) × (e.id ≡ id)
            × Perm reg.nodes (e ∷ reg'.nodes)
            × (notices ≡ (if reg.node_removed_cb then node_removed id ∷ [] else []))))
      × ((All (λ e. e.id ≢ id) reg.ports × (reg'.ports ≡ reg.ports))
          ⊎ ((e : PortEntry) × (e.id ≡ id) × Perm reg.ports (e ∷ reg'.ports)))
unfolding on_global_remove
on_global_remove-Removal reg id = (
  elim (drop_id-Removal (λ (e : NodeEntry). e.id) id reg.nodes) [
    | inl (none_is, others, same) ↦ inl (others, same, ground arith)
    | inr (some_is, (e, is_id, p)) ↦ inr (e, is_id, p, ground arith)
  ],
  elim (drop_id-Removal (λ (e : PortEntry). e.id) id reg.ports) [
    | inl (none_is, others, same) ↦ inl (others, same)
    | inr (some_is, found) ↦ inr found
  ],
)
