-- ===== src/Video/Framerates.antt =====
-- `pwf_video_insert_framerate`, on the array `info->fps` and the count `info->n_fps`. The only
-- caller passes rates above 0, so a rate is a number.
pub mod Shift
pub mod Order
pub mod Sorted
use tinypipewire.Common.{
  ℕ, zero, suc, ◌+◌, ◌-◌, Bool, true, false, ◌||◌, List, [], ◌∷◌, length, set, get_or, take, ltb,
  ◌==◌, if◌then◌else◌,
}

-- The array, whose length is its capacity, and the number of entries in use.
pub record Rates : Type 0 where
  pub fps : List ℕ
  pub n_fps : ℕ

-- The first loop: whether one of the first n entries is the rate.
unfoldable pub holds : List ℕ → ℕ → ℕ → Bool
holds [] n rate = false
holds (f ∷ fps) zero rate = false
holds (f ∷ fps) (suc n) rate = f == rate || holds fps n rate

-- The second loop: how many of the first n entries come before a slower or equal one.
unfoldable pub faster : List ℕ → ℕ → ℕ → ℕ
faster [] n rate = 0
faster (f ∷ fps) zero rate = 0
faster (f ∷ fps) (suc n) rate = if ltb rate f then suc (faster fps n rate) else 0

-- The third loop, from i = pos + k down to i = pos + 1: each entry moves up by one.
unfoldable pub shift : List ℕ → ℕ → ℕ → List ℕ
shift fps at zero = fps
shift fps at (suc k) = shift (set fps (at + suc k) (get_or fps (at + k) 0)) at k

unfoldable pub insert_framerate : Rates → ℕ → Rates
unfolding holds faster shift
insert_framerate info rate =
    let cap = length info.fps in
    let at = faster info.fps info.n_fps rate in
    let last = if ltb info.n_fps cap then info.n_fps else cap - 1 in
    if holds info.fps info.n_fps rate then info else if at == cap then info else record {
      fps = set (shift info.fps at (last - at)) at rate;
      n_fps = if ltb info.n_fps cap then info.n_fps + 1 else info.n_fps;
    }

-- The entries in use.
abbrev pub live : Rates → List ℕ
live info = take info.n_fps info.fps
