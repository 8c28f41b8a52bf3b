-- ===== src/Video/Framerates/Order.antt =====
-- Strictly falling lists of frame rates, and insertion into one.
use tinypipewire.Common.{
  ℕ, zero, suc, ◌<◌, ◌≡◌, refl, ◌⊎◌, ◌↔◌, List, [], ◌∷◌, arith, take, ltb, ◌==◌, if◌then◌else◌,
  take-take,
}

-- The rate in its place, no place if it is there already.
unfoldable pub insert_desc : ℕ → List ℕ → List ℕ
insert_desc rate [] = rate ∷ []
insert_desc rate (f ∷ fps) =
    let rest = f ∷ insert_desc rate fps in
    if f == rate then f ∷ fps else if ltb rate f then rest else rate ∷ f ∷ fps

-- The list falls strictly, from below a bound.
abbrev pub Below : ℕ → List ℕ → Type 0
Below bound [] = Unit {0}
Below bound (f ∷ fps) = (f < bound) × Below f fps

-- The list falls strictly.
abbrev pub Descending : List ℕ → Type 0
Descending [] = Unit {0}
Descending (f ∷ fps) = Below f fps

abbrev pub Among : ℕ → List ℕ → Type 0
Among rate [] = ⊥
Among rate (f ∷ fps) = (rate ≡ f) ⊎ Among rate fps

insert_desc-Below :
    (rate bound : ℕ) (fps : List ℕ)
    → rate < bound
    → Below bound fps
    → Below bound (insert_desc rate fps)
unfolding insert_desc
insert_desc-Below rate bound [] h d = (h, tt)
insert_desc-Below rate bound (f ∷ fps) h d = ground (arith, insert_desc-Below rate f fps)

pub insert_desc-Descending :
    (rate : ℕ) (fps : List ℕ) → Descending fps → Descending (insert_desc rate fps)
unfolding insert_desc
insert_desc-Descending rate [] d = tt
insert_desc-Descending rate (f ∷ fps) d = ground (arith, insert_desc-Below rate f fps)

take-Below : (k bound : ℕ) (fps : List ℕ) → Below bound fps → Below bound (take k fps)
take-Below zero bound fps d = tt
take-Below (suc k) bound [] d = tt
take-Below (suc k) bound (f ∷ fps) d = (d.0, take-Below k f fps d.1)

pub take-Descending : (k : ℕ) (fps : List ℕ) → Descending fps → Descending (take k fps)
take-Descending zero fps d = tt
take-Descending (suc k) [] d = tt
take-Descending (suc k) (f ∷ fps) d = take-Below k f fps d

pub insert_desc-Among :
    (r rate : ℕ) (fps : List ℕ) → Among r (insert_desc rate fps) ↔ ((r ≡ rate) ⊎ Among r fps)
unfolding insert_desc
insert_desc-Among r rate [] = (λ h. h, λ h. h)
insert_desc-Among r rate (f ∷ fps) = ground (arith, insert_desc-Among r rate fps)

-- What does not fit is slower than all that does, so it may be dropped before or after.
pub take-insert_desc :
    (k rate : ℕ) (fps : List ℕ)
    → take k (insert_desc rate (take k fps)) ≡ take k (insert_desc rate fps)
unfolding insert_desc
take-insert_desc zero rate fps = refl
take-insert_desc (suc k) rate [] = refl
take-insert_desc (suc k) rate (f ∷ fps) =
    ground (arith, take-insert_desc k rate fps, take-take k k fps, take-take k (suc k) (f ∷ fps))
