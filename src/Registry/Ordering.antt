-- ===== src/Registry/Ordering.antt =====
-- In which order, and how many, `pwf_pw_registry_list_ports` gives the ports.
use native.Mathlib.Decide.{dec_lt}
use tinypipewire.Common.{
  ℕ, zero, suc, ◌+◌, ◌-◌, ◌<◌, ◌≤◌, ◌≡◌, refl, ap, sym, subst, ◌∙◌, some, List, [], ◌∷◌, ◌++◌,
  append_assoc, append-nil, arith, ◌==◌, ap₂, length, length-append, length-set, Option-cases, inl,
  inr, get_elem?, set, take, drop, take-set, drop-set_self, take-suc, drop_all, take-append,
  get_elem?-lt, take_all, All, select, select-append, Bool-cases, take-cons, take_none, ltb,
  if◌then◌else◌,
}
use tinypipewire.Registry.{Registry, PortEntry, SpaDirection, faces}
use tinypipewire.Registry.Ports.{sift, insert_port, list_loop, list_ports}

-- The port among ports in rising ordinals, behind those of its own.
pub insert_ordinal : PortEntry → List PortEntry → List PortEntry
insert_ordinal e [] = e ∷ []
insert_ordinal e (x ∷ out) =
    let rest = x ∷ insert_ordinal e out in if ltb e.ordinal x.ordinal then e ∷ x ∷ out else rest

abbrev pub AtLeast : ℕ → List PortEntry → Type 0
AtLeast bound [] = Unit {0}
AtLeast bound (e ∷ out) = (bound ≤ e.ordinal) × AtLeast e.ordinal out

-- The ordinals do not fall along the list.
abbrev pub Rising : List PortEntry → Type 0
Rising = AtLeast 0

-- Behind a port of no higher ordinal nothing in front is touched.
sift-cons :
    (e x : PortEntry) (at : ℕ) (out : List PortEntry)
    → x.ordinal ≤ e.ordinal
    → sift e (suc at) (x ∷ out) ≡ x ∷ sift e at out
unfolding sift
sift-cons e x zero out h = ground arith
sift-cons e x (suc at) out h = elim (Option-cases (get_elem? out at)) [
  | inl n ↦ ground arith
  | inr (before, s) ↦ ground (arith, sift-cons e x at (set out (suc at) before) h)
]

-- All ports of the list have a higher ordinal than the port.
abbrev Above : PortEntry → List PortEntry → Type 0
Above e = All (λ x. e.ordinal < x.ordinal)

Above-take-suc :
    (e : PortEntry) (at : ℕ) (out : List PortEntry) {x : PortEntry}
    → get_elem? out at ≡ some x
    → Above e (take (suc at) out)
    → (e.ordinal < x.ordinal) × Above e (take at out)
Above-take-suc e at [] s a = cc
Above-take-suc e zero (y ∷ out) s a = (ground arith, tt)
Above-take-suc e (suc at) (y ∷ out) s a =
    let rest = Above-take-suc e at out s a.1 in (rest.0, (a.0, rest.1))

AtLeast-Above :
    (e : PortEntry) (bound : ℕ) (out : List PortEntry)
    → e.ordinal < bound
    → AtLeast bound out
    → Above e out
AtLeast-Above e bound [] h r = tt
AtLeast-Above e bound (x ∷ out) h r = (omega arith, AtLeast-Above e x.ordinal out (omega arith) r.1)

-- Below ports of higher ordinals all of them move up.
sift-Above :
    (e : PortEntry) (at : ℕ) (out : List PortEntry)
    → at < length out
    → Above e (take at out)
    → sift e at out ≡ e ∷ take at out ++ drop (suc at) out
unfolding sift
sift-Above e zero [] h a = absurd (omega arith)
sift-Above e zero (x ∷ out) h a = refl
sift-Above e (suc at) out h a = elim (Option-cases (get_elem? out at)) [
  | inl n ↦ absurd (omega (arith, get_elem?-lt at out n))
  | inr (before, s) ↦
      let moved = set out (suc at) before in
      let above = Above-take-suc e at out s a in
      ground (
        arith,
        above,
        sift-Above e at moved (rw length-set (omega arith))
            (rw (take-set at (suc at) before out (omega arith)) above.1),
        take-set at (suc at) before out,
        drop-set_self (suc at) before out,
        take-suc at out s,
        append_assoc (take at out) (before ∷ []) (drop (suc (suc at)) out),
      )
]

insert_front :
    (e x z : PortEntry) (out : List PortEntry)
    → Above e (x ∷ out)
    → sift e (suc (length out)) (x ∷ out ++ z ∷ []) ≡ e ∷ x ∷ out
insert_front e x z out a =
    let all = x ∷ out ++ z ∷ [] in
    let front = take-append (x ∷ out) (z ∷ []) in
    sift-Above e (suc (length out)) all (omega (arith, length-append out (z ∷ [])))
      (subst (Above e) (sym front) a)
    ∙ ap₂ (λ l r. e ∷ l ++ r) front
        (drop_all (suc (length out)) (out ++ z ∷ []) (omega (arith, length-append out (z ∷ []))))
    ∙ ap (λ l. e ∷ l) (append-nil (x ∷ out))

insert_port_behind :
    (e z : PortEntry) (bound : ℕ) (out : List PortEntry)
    → AtLeast bound out
    → sift e (length out) (out ++ z ∷ []) ≡ insert_ordinal e out
unfolding insert_ordinal
insert_port_behind e z bound [] r = unfold sift in refl
insert_port_behind e z bound (x ∷ out) r = ground (
  arith,
  insert_port_behind e z x.ordinal out r.1,
  sift-cons e x (length out) (out ++ z ∷ []),
  (λ (h : e.ordinal < x.ordinal). insert_front e x z out (h, AtLeast-Above e x.ordinal out h r.1)),
)

insert_port_lem :
    (e : PortEntry) (out : List PortEntry) → Rising out → insert_port e out ≡ insert_ordinal e out
unfolding insert_port
insert_port_lem e out r = insert_port_behind e e 0 out r

insert_ordinal-AtLeast :
    (e : PortEntry) (bound : ℕ) (out : List PortEntry)
    → bound ≤ e.ordinal
    → AtLeast bound out
    → AtLeast bound (insert_ordinal e out)
unfolding insert_ordinal
insert_ordinal-AtLeast e bound [] h r = (h, tt)
insert_ordinal-AtLeast e bound (x ∷ out) h r =
    ground (arith, insert_ordinal-AtLeast e x.ordinal out)

-- The ports one after the other put in their places.
sort_onto : List PortEntry → List PortEntry → List PortEntry
sort_onto out [] = out
sort_onto out (e ∷ ports) = sort_onto (insert_ordinal e out) ports

sort_onto-Rising : (ports out : List PortEntry) → Rising out → Rising (sort_onto out ports)
unfolding sort_onto
sort_onto-Rising [] out r = r
sort_onto-Rising (e ∷ ports) out r =
    sort_onto-Rising ports (insert_ordinal e out) (insert_ordinal-AtLeast e 0 out (omega arith) r)

-- The ports of one ordinal, in their order.
abbrev pub of_ordinal : ℕ → List PortEntry → List PortEntry
of_ordinal o = select (λ e. e.ordinal == o)

pub of_ordinal_above :
    (o bound : ℕ) (out : List PortEntry) → o < bound → AtLeast bound out → of_ordinal o out ≡ []
of_ordinal_above o bound [] h r = refl
of_ordinal_above o bound (x ∷ out) h r = ground (arith, of_ordinal_above o x.ordinal out)

of_ordinal-insert_ordinal :
    (o bound : ℕ) (e : PortEntry) (out : List PortEntry)
    → AtLeast bound out
    → of_ordinal o (insert_ordinal e out) ≡ of_ordinal o out ++ of_ordinal o (e ∷ [])
unfolding insert_ordinal
of_ordinal-insert_ordinal o bound e [] r = refl
of_ordinal-insert_ordinal o bound e (x ∷ out) r = ground (
  arith,
  of_ordinal-insert_ordinal o x.ordinal e out,
  of_ordinal_above o x.ordinal out,
  append-nil (of_ordinal o out),
)

of_ordinal-sort_onto :
    (o : ℕ) (ports out : List PortEntry)
    → Rising out
    → of_ordinal o (sort_onto out ports) ≡ of_ordinal o out ++ of_ordinal o ports
unfolding sort_onto
of_ordinal-sort_onto o [] out r = sym (append-nil (of_ordinal o out))
of_ordinal-sort_onto o (e ∷ ports) out r =
    of_ordinal-sort_onto o ports (insert_ordinal e out)
      (insert_ordinal-AtLeast e 0 out (omega arith) r)
    ∙ ap (λ l. l ++ of_ordinal o ports) (of_ordinal-insert_ordinal o 0 e out r)
    ∙ append_assoc (of_ordinal o out) (of_ordinal o (e ∷ [])) (of_ordinal o ports)
    ∙ ap (λ l. of_ordinal o out ++ l) (sym (select-append (λ x. x.ordinal == o) (e ∷ []) ports))

module _ (node_id : ℕ) (direction : SpaDirection) (max : ℕ) where
  -- The loop puts the first that fit in their places and counts all.
  list_loop-sort_onto :
      (ports out : List PortEntry) (found : ℕ)
      → Rising out
      → let sel = select (faces node_id direction) ports in
        list_loop node_id direction (some max) found out ports
        ≡ (found + length sel, sort_onto out (take (max - found) sel))
  unfolding list_loop sort_onto
  list_loop-sort_onto [] out found r = ground (arith, take_all {A = PortEntry} (max - found) [])
  list_loop-sort_onto (e ∷ ports) out found r =
      let sel = select (faces node_id direction) ports in
      let placed = insert_ordinal e out in
      elim (Bool-cases (faces node_id direction e)) [
        | inr miss ↦ rw miss (list_loop-sort_onto ports out found r)
        | inl hit ↦ elim (dec_lt found max) [
          | yes room ↦ ground (
            arith,
            list_loop-sort_onto ports placed (found + 1)
                (insert_ordinal-AtLeast e 0 out (omega arith) r),
            insert_port_lem e out r,
            take-cons (max - found) e sel (omega arith),
          )
          | no full ↦ ground (
            arith,
            list_loop-sort_onto ports out (found + 1) r,
            take_none (max - found) (e ∷ sel) (omega arith),
            take_none (max - (found + 1)) sel (omega arith),
          )
        ]
      ]

-- For every registry, node, direction and array length: the count is the number of the node's ports
-- that face that way, also where the array is shorter; the array holds the first of these to arrive,
-- as many as fit, sorted by ordinal, and ports of one ordinal in the order of arrival.
pub list_ports_lem :
    (reg : Registry) (node_id : ℕ) (direction : SpaDirection) (max : ℕ)
    → let sel = select (faces node_id direction) reg.ports in
      let (found, out) = list_ports reg node_id direction (some max) in
      (found ≡ length sel) × Rising out × ((o : ℕ) → of_ordinal o out ≡ of_ordinal o (take max sel))
unfolding list_ports
list_ports_lem reg node_id direction max =
    let sel = select (faces node_id direction) reg.ports in
    rw (list_loop-sort_onto node_id direction max reg.ports [] 0 tt) (
      omega arith,
      sort_onto-Rising (take (max - 0) sel) [] tt,
      λ o. of_ordinal-sort_onto o (take (max - 0) sel) [] tt ∙ ground arith,
    )
