-- ===== src/Common/Fill.antt =====
-- Count-then-fill: entries written one after the other into a caller's array, as far as it goes.
use Prim.Native.Nat.{ℕ, zero, suc}
use mathlib.Core.Path.{◌≡◌, refl, ap}
use mathlib.Core.List.{List, [], ◌∷◌, ◌++◌}
use native.Mathlib.Omega.{arith}
use tinypipewire.Common.Tests.{ltb, if◌then◌else◌}
use tinypipewire.Common.Lists.{length, set, take, drop, length-set}

module _ {ℓ} {A : Type ℓ} where
  -- An array with the given entries laid over it from a place on.
  pub overlay : ℕ → List A → List A → List A
  overlay n xs [] = []
  overlay zero [] (b ∷ buf) = b ∷ buf
  overlay zero (x ∷ xs) (b ∷ buf) = x ∷ overlay zero xs buf
  overlay (suc n) xs (b ∷ buf) = b ∷ overlay n xs buf

  pub overlay-nil : (n : ℕ) (buf : List A) → overlay n [] buf ≡ buf
  unfolding overlay
  overlay-nil n [] = refl
  overlay-nil zero (b ∷ buf) = refl
  overlay-nil (suc n) (b ∷ buf) = ap (λ t. b ∷ t) (overlay-nil n buf)

  pub overlay-cons :
      (n : ℕ) (x : A) (xs buf : List A)
      → overlay (suc n) xs (if ltb n (length buf) then set buf n x else buf)
        ≡ overlay n (x ∷ xs) buf
  unfolding overlay
  overlay-cons n x xs [] = ground arith
  overlay-cons zero x xs (b ∷ buf) = ground arith
  overlay-cons (suc n) x xs (b ∷ buf) = ground (arith, overlay-cons n x xs buf)

  pub overlay_front :
      (xs buf : List A) → overlay zero xs buf ≡ take (length buf) xs ++ drop (length xs) buf
  unfolding overlay
  overlay_front [] [] = refl
  overlay_front (x ∷ xs) [] = refl
  overlay_front [] (b ∷ buf) = refl
  overlay_front (x ∷ xs) (b ∷ buf) = ap (λ t. x ∷ t) (overlay_front xs buf)

  pub length-fill :
      (buf : List A) (n : ℕ) (x : A)
      → length (if ltb n (length buf) then set buf n x else buf) ≡ length buf
  length-fill buf n x = ground (arith, length-set buf n x)
