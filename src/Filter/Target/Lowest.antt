-- ===== src/Filter/Target/Lowest.antt =====
-- The port that a target without a port's name stands for (src/pwf_filter_port_link.c).
use tinypipewire.Common.{
  ℕ, ◌<◌, ◌≤◌, ◌≡◌, ◌≢◌, refl, sym, ◌∙◌, some, List, [], ◌∷◌, arith, All, select, take,
}
use tinypipewire.Registry.{Registry, PortEntry, SpaDirection, faces}
use tinypipewire.Registry.Ports.{list_ports}
use tinypipewire.Registry.Ordering.{list_ports_lem, Rising, of_ordinal, of_ordinal_above}
use tinypipewire.Filter.Target.{pick_attempts, pick_target_port, max_target_ports}

of_ordinal-none :
    (h : ℕ) (l : List PortEntry)
    → ((o : ℕ) → o < h → of_ordinal o l ≡ [])
    → All (λ e. h ≤ e.ordinal) l
of_ordinal-none h [] f = tt
of_ordinal-none h (x ∷ l) f =
    (ground (arith, f x.ordinal), of_ordinal-none h l (λ o b. ground (arith, f o b)))

-- The port is one of the lowest ordinal in the list, and the first of those.
abbrev pub FirstLowest : PortEntry → List PortEntry → Type 0
FirstLowest e l =
    All (λ x. e.ordinal ≤ x.ordinal) l
    × ((behind : List PortEntry) × (of_ordinal e.ordinal l ≡ e ∷ behind))

Rising-FirstLowest :
    (e : PortEntry) (out l : List PortEntry)
    → Rising (e ∷ out)
    → ((o : ℕ) → of_ordinal o (e ∷ out) ≡ of_ordinal o l)
    → FirstLowest e l
Rising-FirstLowest e out l r same = (
  of_ordinal-none e.ordinal l
      (λ o b. sym (same o) ∙ ground (arith, of_ordinal_above o e.ordinal out b r.1)),
  (of_ordinal e.ordinal out, sym (same e.ordinal) ∙ ground arith),
)

-- What the attempt that finds ports returns.
head_id : ℕ → List PortEntry → ℕ
head_id later [] = later
head_id later (e ∷ out) = e.id

head_id-FirstLowest :
    (later : ℕ) (out l : List PortEntry)
    → l ≢ []
    → Rising out
    → ((o : ℕ) → of_ordinal o out ≡ of_ordinal o l)
    → (e : PortEntry) × (head_id later out ≡ e.id) × FirstLowest e l
unfolding head_id
head_id-FirstLowest later [] [] some_port r same = absurd (some_port refl)
head_id-FirstLowest later [] (x ∷ l) some_port r same = absurd (ground (arith, same x.ordinal))
head_id-FirstLowest later (e ∷ out) l some_port r same =
    (e, refl, Rising-FirstLowest e out l r same)

take-none : (l : List PortEntry) → l ≢ [] → take 64 l ≢ []
take-none [] n e = n refl
take-none (x ∷ l) n e = ground arith

-- If output ports of the node are in the registry, the port that is picked is one of the lowest ordinal,
-- and the first to arrive of those, among the first 64 of them.
pub pick_target_port-FirstLowest :
    (node_id : ℕ) (reg : Registry) (syncs : List Registry)
    → select (faces node_id SpaDirection.output) reg.ports ≢ []
    → (e : PortEntry) × (pick_target_port node_id reg syncs ≡ e.id)
      × FirstLowest e (take 64 (select (faces node_id SpaDirection.output) reg.ports))
unfolding pick_target_port pick_attempts head_id
pick_target_port-FirstLowest node_id reg syncs some_port =
    let sel = select (faces node_id SpaDirection.output) reg.ports in
    let listed = list_ports_lem reg node_id SpaDirection.output max_target_ports in
    let later : ℕ = elim syncs [ [] ↦ 0 | ◌∷◌ next rest ↦ pick_attempts node_id 9 next rest ] in
    head_id-FirstLowest later (list_ports reg node_id SpaDirection.output (some max_target_ports)).1
      (take 64 sel) (take-none sel some_port) listed.1 listed.2
