-- ===== src/Video/Framerates/Sorted/Place.antt =====
-- One call of `pwf_video_insert_framerate` on the array is one insertion into the list.
use tinypipewire.Common.{
  ℕ, zero, suc, ◌<◌, ◌≤◌, ◌≡◌, refl, false, List, [], ◌∷◌, arith, length, take, drop, ltb,
  if◌then◌else◌, take-take, take-append-take, take_all, length-take, ◌-◌,
}
use tinypipewire.Video.Framerates.{holds, faster, shift, insert_framerate, live}
use tinypipewire.Video.Framerates.Shift.{shift_front, shift-cons}
use tinypipewire.Video.Framerates.Order.{insert_desc, Below, Descending}

holds-Below :
    (fps : List ℕ) (n rate bound : ℕ)
    → bound ≤ rate
    → Below bound (take n fps)
    → holds fps n rate ≡ false
unfolding holds
holds-Below [] n rate bound h d = refl
holds-Below (f ∷ fps) zero rate bound h d = refl
holds-Below (f ∷ fps) (suc n) rate bound h d = ground (arith, holds-Below fps n rate f)

faster-le : (fps : List ℕ) (n rate : ℕ) → faster fps n rate ≤ n
unfolding faster
faster-le [] n rate = omega arith
faster-le (f ∷ fps) zero rate = omega arith
faster-le (f ∷ fps) (suc n) rate = ground (arith, faster-le fps n rate)

-- A faster rate stands first: what follows is done in the rest of the array.
behind :
    (f : ℕ) (fps : List ℕ) (n rate : ℕ)
    → rate < f
    → n ≤ length fps
    → live (insert_framerate (record { fps = f ∷ fps; n_fps = suc n }) rate)
      ≡ f ∷ live (insert_framerate (record { fps = fps; n_fps = n }) rate)
unfolding insert_framerate holds faster
behind f fps n rate h l = ground (
  arith,
  faster-le fps n rate,
  shift-cons (faster fps n rate)
      ((if ltb n (length fps) then n else length fps - 1) - faster fps n rate) f fps,
)

-- A slower rate stands first: it and all after it move up.
before :
    (f : ℕ) (fps : List ℕ) (n rate : ℕ)
    → f < rate
    → n ≤ length fps
    → Below f (take n fps)
    → live (insert_framerate (record { fps = f ∷ fps; n_fps = suc n }) rate)
      ≡ rate ∷ take (length fps) (f ∷ take n fps)
unfolding insert_framerate holds faster
before f fps n rate h l d = ground (
  arith,
  holds-Below fps n rate f (omega arith) d,
  shift_front (suc n) rate (f ∷ fps),
  shift_front (length fps) rate (f ∷ fps),
  take-append-take (suc n) (f ∷ fps) (drop (suc (suc n)) (f ∷ fps)),
  take-append-take (length fps) (f ∷ fps) (drop (suc (length fps)) (f ∷ fps)),
  take-take (length fps) (suc n) (f ∷ fps),
  take_all (length fps) (take (suc n) (f ∷ fps)),
  length-take (suc n) (f ∷ fps),
)

pub live-insert_framerate :
    (fps : List ℕ) (n rate : ℕ)
    → n ≤ length fps
    → Descending (take n fps)
    → live (insert_framerate (record { fps = fps; n_fps = n }) rate)
      ≡ take (length fps) (insert_desc rate (take n fps))
unfolding insert_framerate holds faster shift insert_desc
live-insert_framerate [] n rate h d = ground arith
live-insert_framerate (f ∷ fps) zero rate h d = ground (arith, take_all {A = ℕ} (length fps) [])
live-insert_framerate (f ∷ fps) (suc n) rate h d = ground (
  arith,
  behind f fps n rate,
  before f fps n rate,
  live-insert_framerate fps n rate,
  take-take (length fps) (suc n) (f ∷ fps),
  take_all (length fps) (take n fps),
  length-take n fps,
)
