-- ===== src/Video/Enumerate/CountThenFill.antt =====
-- What the caller of the enumeration finds: the true count, the array filled as far as it goes.
use tinypipewire.Common.{
  ℕ, suc, ◌+◌, ◌<◌, ◌≤◌, ◌^◌, ◌≡◌, refl, ◌∙◌, Bool, true, false, not, Option, none, some, List, [],
  ◌∷◌, ◌++◌, arith, length, take, drop, set, ltb, if◌then◌else◌, overlay, overlay-nil, overlay-cons,
  overlay_front, length-fill, inl, inr, Option-cases,
}
use tinypipewire.Video.Enumerate.{FormatParam, FormatInfo, EnumCtx, read_format, on_param, store}

-- The param events that the round trip delivers, in their order: whether the id is EnumFormat, and
-- the object.
abbrev pub ParamEvent : Type 0
ParamEvent = Bool × Option FormatParam

unfoldable pub run : EnumCtx → List ParamEvent → EnumCtx
run ctx [] = ctx
run ctx ((id, param) ∷ events) = run (on_param ctx id param) events

-- The formats among them that the library can express.
pub usable : List ParamEvent → List FormatInfo
usable [] = []
usable ((id, none) ∷ events) = usable events
usable ((id, some p) ∷ events) =
    let rest = usable events in
    if not id then rest else elim (read_format p) [ none ↦ rest | some info ↦ info ∷ rest ]

store_all : EnumCtx → List FormatInfo → EnumCtx
store_all ctx [] = ctx
store_all ctx (info ∷ infos) = store_all (store ctx info) infos

run-store_all :
    (events : List ParamEvent) (ctx : EnumCtx) → run ctx events ≡ store_all ctx (usable events)
unfolding run usable on_param store_all
run-store_all [] ctx = refl
run-store_all ((id, none) ∷ events) ctx = run-store_all events ctx
run-store_all ((false, some p) ∷ events) ctx = run-store_all events ctx
run-store_all ((true, some p) ∷ events) ctx = elim (Option-cases (read_format p)) [
  | inl e ↦ rw e (run-store_all events ctx)
  | inr (info, e) ↦ rw e (run-store_all events (store ctx info))
]

store_all-overlay :
    (infos buf : List FormatInfo) (n : ℕ)
    → n + length infos < 2 ^ 64
    → store_all (record { out = some buf; out_len = length buf; found = n }) infos
      ≡ record { out = some (overlay n infos buf); out_len = length buf; found = n + length infos }
unfolding store_all store
store_all-overlay [] buf n h = ground (arith, overlay-nil n buf)
store_all-overlay (x ∷ infos) buf n h =
    let buf' = if ltb n (length buf) then set buf n x else buf in
    ground
      (arith, store_all-overlay infos buf' (suc n), length-fill buf n x, overlay-cons n x infos buf)

length-usable : (events : List ParamEvent) → length (usable events) ≤ length events
unfolding usable
length-usable [] = omega arith
length-usable ((id, none) ∷ events) = omega (arith, length-usable events)
length-usable ((id, some p) ∷ events) = ground (arith, length-usable events)

-- Count-then-fill: after the events of one request, started on an array of any length, the count is
-- the number of formats that the library can express, also where the array is too short, and the
-- array holds the first of them in the order of arrival, with its other places as they were.
pub run_fills :
    (events : List ParamEvent) (buf : List FormatInfo)
    → length events < 2 ^ 64
    → run (record { out = some buf; out_len = length buf; found = 0 }) events ≡ record {
      out = some (take (length buf) (usable events) ++ drop (length (usable events)) buf);
      out_len = length buf;
      found = length (usable events);
    }
run_fills events buf h =
    run-store_all events _
    ∙ store_all-overlay (usable events) buf 0 (omega (arith, length-usable events))
    ∙ ground (arith, overlay_front (usable events) buf)
