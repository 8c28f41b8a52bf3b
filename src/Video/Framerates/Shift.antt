-- ===== src/Video/Framerates/Shift.antt =====
-- What the loop that makes room in the array does.
use tinypipewire.Common.{
  ℕ, zero, suc, ◌+◌, ◌<◌, ◌≡◌, refl, ap, ◌∙◌, sym, List, [], ◌∷◌, ◌++◌, append_assoc, arith, length,
  length-set, set, get_or, take, drop, take-set, drop-set_self,
}
use native.Mathlib.Nat.{zero-add, suc-add}
use tinypipewire.Video.Framerates.{shift}

take-suc : (k : ℕ) (a : List ℕ) → k < length a → take (suc k) a ≡ take k a ++ get_or a k 0 ∷ []
take-suc k [] h = absurd (omega arith)
take-suc zero (x ∷ a) h = refl
take-suc (suc k) (x ∷ a) h = ap (λ t. x ∷ t) (take-suc k a (omega arith))

-- Room at the front: the first k entries move up by one, over entry k.
pub shift_front :
    (k rate : ℕ) (a : List ℕ)
    → k < length a
    → set (shift a 0 k) 0 rate ≡ rate ∷ take k a ++ drop (suc k) a
unfolding shift
shift_front zero rate [] h = absurd (omega arith)
shift_front zero rate (x ∷ a) h = refl
shift_front (suc k) rate a h =
    let moved = set a (suc k) (get_or a k 0) in
    rw (zero-add, zero-add)
      (shift_front k rate moved (rw length-set (omega arith))
        ∙ rw
            (
              take-set k (suc k) (get_or a k 0) a (omega arith),
              drop-set_self (suc k) (get_or a k 0) a h,
              take-suc k a (omega arith),
            )
            (sym (ap (λ t. rate ∷ t) (append_assoc (take k a) (get_or a k 0 ∷ []) _))))

-- Room further on leaves what stands before it.
pub shift-cons : (p k x : ℕ) (a : List ℕ) → shift (x ∷ a) (suc p) k ≡ x ∷ shift a p k
unfolding shift
shift-cons p zero x a = refl
shift-cons p (suc k) x a =
    rw (suc-add, suc-add) (shift-cons p k x (set a (p + suc k) (get_or a (p + k) 0)))
