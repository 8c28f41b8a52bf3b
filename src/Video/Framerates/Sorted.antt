-- ===== src/Video/Framerates/Sorted.antt =====
-- The list that `pwf_video_insert_framerate` keeps: the fastest rates, each once, in falling order.
mod Place
use tinypipewire.Common.{
  ℕ, ◌+◌, ◌≤◌, ◌≡◌, refl, ap, ◌∙◌, sym, subst, ◌⊎◌, ◌↔◌, inl, inr, List, [], ◌∷◌, arith, length,
  length-set, take, replicate, length-replicate, ltb, if◌then◌else◌, Bool-cases, zero, suc, set,
  get_or, ◌-◌, ap₂, take-take, take_all, length-take,
}
use tinypipewire.Video.Framerates.{Rates, insert_framerate, live, shift, faster}
use tinypipewire.Video.Framerates.Order.{
  insert_desc, Descending, Among, insert_desc-Descending, take-Descending, insert_desc-Among,
  take-insert_desc,
}
use Place.{live-insert_framerate}

-- The rates of one format in the order in which the node offers them.
pub insert_all : Rates → List ℕ → Rates
insert_all info [] = info
insert_all info (rate ∷ rates) = insert_all (insert_framerate info rate) rates

-- All of them in falling order, each once.
pub collect : List ℕ → List ℕ → List ℕ
collect acc [] = acc
collect acc (rate ∷ rates) = collect (insert_desc rate acc) rates

pub record IsValid (info : Rates) : Type 0 where
  pub within : info.n_fps ≤ length info.fps
  pub falling : Descending (live info)

length-shift : (at k : ℕ) (fps : List ℕ) → length (shift fps at k) ≡ length fps
unfolding shift
length-shift at zero fps = refl
length-shift at (suc k) fps =
    let moved = set fps (at + suc k) (get_or fps (at + k) 0) in
    length-shift at k moved ∙ length-set fps _ _

pub length-insert_framerate :
    (info : Rates) (rate : ℕ) → length (insert_framerate info rate).fps ≡ length info.fps
unfolding insert_framerate
length-insert_framerate info rate =
    let at = faster info.fps info.n_fps rate in
    let k = (if ltb info.n_fps (length info.fps) then info.n_fps else length info.fps - 1) - at in
    ground (arith, length-set (shift info.fps at k) at rate, length-shift at k info.fps)

insert_framerate-within :
    (info : Rates) (rate : ℕ)
    → info.n_fps ≤ length info.fps
    → (insert_framerate info rate).n_fps ≤ length info.fps
unfolding insert_framerate
insert_framerate-within info rate h = ground arith

-- One rate more keeps the capacity, the bound on the count and the falling order.
pub insert_framerate-IsValid :
    (info : Rates) (rate : ℕ) → IsValid info → IsValid (insert_framerate info rate)
insert_framerate-IsValid info rate v = record {
  within = rw length-insert_framerate (insert_framerate-within info rate v.within);
  falling =
      subst Descending (sym (live-insert_framerate info.fps info.n_fps rate v.within v.falling)) (
        take-Descending (length info.fps) (insert_desc rate (live info))
          (insert_desc-Descending rate (live info) v.falling));
}

take-collect :
    (k : ℕ) (acc rates : List ℕ) → take k (collect (take k acc) rates) ≡ take k (collect acc rates)
unfolding collect
take-collect k acc [] = take-take k k acc (omega arith)
take-collect k acc (rate ∷ rates) =
    sym (take-collect k (insert_desc rate (take k acc)) rates)
    ∙ ap (λ l. take k (collect l rates)) (take-insert_desc k rate acc)
    ∙ take-collect k (insert_desc rate acc) rates

-- A run of insertions keeps the fastest of the rates that it is given and that were there before.
live-insert_all :
    (rates : List ℕ) (info : Rates)
    → IsValid info
    → live (insert_all info rates) ≡ take (length info.fps) (collect (live info) rates)
unfolding insert_all collect
live-insert_all [] info v =
    sym (take_all _ _ (omega (arith, length-take info.n_fps info.fps, v.within)))
live-insert_all (rate ∷ rates) info v =
    let next = insert_framerate info rate in
    live-insert_all rates next (insert_framerate-IsValid info rate v)
    ∙ ap₂ (λ cap l. take cap (collect l rates)) (length-insert_framerate info rate)
        (live-insert_framerate info.fps info.n_fps rate v.within v.falling)
    ∙ take-collect (length info.fps) (insert_desc rate (live info)) rates

collect-Descending : (rates acc : List ℕ) → Descending acc → Descending (collect acc rates)
unfolding collect
collect-Descending [] acc d = d
collect-Descending (rate ∷ rates) acc d =
    collect-Descending rates (insert_desc rate acc) (insert_desc-Descending rate acc d)

collect-Among :
    (r : ℕ) (rates acc : List ℕ) → Among r (collect acc rates) ↔ (Among r rates ⊎ Among r acc)
unfolding collect
collect-Among r [] acc = ground arith
collect-Among r (rate ∷ rates) acc =
    ground (arith, collect-Among r rates (insert_desc rate acc), insert_desc-Among r rate acc)

-- A cleared entry of any capacity.
abbrev pub cleared : ℕ → Rates
cleared cap = record { fps = replicate cap 0; n_fps = 0 }

cleared-IsValid : (cap : ℕ) → IsValid (cleared cap)
cleared-IsValid cap = record { within = omega arith; falling = tt }

-- From a cleared array of any capacity, whatever rates a node offers and in whatever order: the
-- entries in use are the first of a list that falls strictly and holds exactly the offered rates, as
-- many as the array has room for. So the fastest rates are kept, each once, fastest first.
pub insert_all-fastest :
    (cap : ℕ) (rates : List ℕ)
    → (all : List ℕ) × Descending all
      × ((r : ℕ) → Among r all ↔ Among r rates)
      × (live (insert_all (cleared cap) rates) ≡ take cap all)
insert_all-fastest cap rates = (
  collect [] rates,
  collect-Descending rates [] tt,
  λ r. ground (arith, collect-Among r rates []),
  live-insert_all rates (cleared cap) (cleared-IsValid cap)
      ∙ ap (λ n. take n (collect [] rates)) (length-replicate cap 0),
)
