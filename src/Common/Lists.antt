-- ===== src/Common/Lists.antt =====
-- Lists measured and indexed by native numbers, under the library's names.
use Prim.Native.Nat.{ℕ, zero, suc, ◌+◌, ◌≤◌, ◌<◌, ◌-◌, min}
use mathlib.Core.Path.{◌≡◌, refl, ap, subst}
use mathlib.Core.List.{List, [], ◌∷◌, ◌++◌}
use mathlib.Core.Bool.{Bool}
use mathlib.Core.Option.{Option, none, some}
use native.Mathlib.Omega.{arith}
use tinypipewire.Common.Tests.{if◌then◌else◌}

module _ {ℓ} {A : Type ℓ} where
  abbrev pub length : List A → ℕ
  length [] = 0
  length (x ∷ xs) = suc (length xs)

  abbrev pub get_elem? : List A → ℕ → Option A
  get_elem? [] i = none
  get_elem? (x ∷ xs) zero = some x
  get_elem? (x ∷ xs) (suc i) = get_elem? xs i

  -- A write out of bounds changes nothing.
  abbrev pub set : List A → ℕ → A → List A
  set [] i v = []
  set (x ∷ xs) zero v = v ∷ xs
  set (x ∷ xs) (suc i) v = x ∷ set xs i v

  abbrev pub take : ℕ → List A → List A
  take zero xs = []
  take (suc n) [] = []
  take (suc n) (x ∷ xs) = x ∷ take n xs

  abbrev pub drop : ℕ → List A → List A
  drop zero xs = xs
  drop (suc n) [] = []
  drop (suc n) (x ∷ xs) = drop n xs

  abbrev pub replicate : ℕ → A → List A
  replicate zero a = []
  replicate (suc n) a = a ∷ replicate n a

  -- The entries that pass a test, in their order.
  abbrev pub select : (A → Bool) → List A → List A
  select p [] = []
  select p (x ∷ xs) = if p x then x ∷ select p xs else select p xs

  -- Every entry has the property.
  abbrev pub All {κ} : (A → Type κ) → List A → Type κ
  All P [] = Unit
  All P (x ∷ xs) = P x × All P xs

module _ {ℓ} {A : Type ℓ} where
  pub length-append : (xs ys : List A) → length (xs ++ ys) ≡ length xs + length ys
  length-append [] ys = omega arith
  length-append (x ∷ xs) ys = omega (arith, length-append xs ys)

  pub length-take : (n : ℕ) (xs : List A) → length (take n xs) ≡ min n (length xs)
  length-take zero xs = omega arith
  length-take (suc n) [] = omega arith
  length-take (suc n) (x ∷ xs) = omega (arith, length-take n xs)

  pub length-replicate : (n : ℕ) (a : A) → length (replicate n a) ≡ n
  length-replicate zero a = refl
  length-replicate (suc n) a = ap suc (length-replicate n a)

  pub select-append :
      (p : A → Bool) (xs ys : List A) → select p (xs ++ ys) ≡ select p xs ++ select p ys
  select-append p [] ys = refl
  select-append p (x ∷ xs) ys = ground (arith, select-append p xs ys)

  pub take-append : (xs ys : List A) → take (length xs) (xs ++ ys) ≡ xs
  take-append [] ys = refl
  take-append (x ∷ xs) ys = ap (λ t. x ∷ t) (take-append xs ys)

  pub length-set : (xs : List A) (i : ℕ) (v : A) → length (set xs i v) ≡ length xs
  length-set [] i v = refl
  length-set (x ∷ xs) zero v = refl
  length-set (x ∷ xs) (suc i) v = ap suc (length-set xs i v)

  abbrev pub get_or : List A → ℕ → A → A
  get_or [] i d = d
  get_or (x ∷ xs) zero d = x
  get_or (x ∷ xs) (suc i) d = get_or xs i d

module _ {ℓ} {A : Type ℓ} where
  pub take-take : (k j : ℕ) (xs : List A) → k ≤ j → take k (take j xs) ≡ take k xs
  take-take zero j xs h = refl
  take-take (suc k) zero xs h = absurd (omega arith)
  take-take (suc k) (suc j) [] h = refl
  take-take (suc k) (suc j) (x ∷ xs) h = ap (λ t. x ∷ t) (take-take k j xs (omega arith))

  pub take-append-take :
      (k : ℕ) (xs ys : List A) → k ≤ length xs → take k (take k xs ++ ys) ≡ take k xs
  take-append-take zero xs ys h = refl
  take-append-take (suc k) [] ys h = absurd (omega arith)
  take-append-take (suc k) (x ∷ xs) ys h = ap (λ t. x ∷ t) (take-append-take k xs ys (omega arith))

  pub take_all : (k : ℕ) (xs : List A) → length xs ≤ k → take k xs ≡ xs
  take_all zero [] h = refl
  take_all zero (x ∷ xs) h = absurd (omega arith)
  take_all (suc k) [] h = refl
  take_all (suc k) (x ∷ xs) h = ap (λ t. x ∷ t) (take_all k xs (omega arith))

module _ {ℓ} {A : Type ℓ} where
  pub take-set : (k i : ℕ) (v : A) (xs : List A) → k ≤ i → take k (set xs i v) ≡ take k xs
  take-set zero i v xs h = refl
  take-set (suc k) i v [] h = refl
  take-set (suc k) zero v (x ∷ xs) h = absurd (omega arith)
  take-set (suc k) (suc i) v (x ∷ xs) h = ap (λ t. x ∷ t) (take-set k i v xs (omega arith))

  pub drop-set_self :
      (i : ℕ) (v : A) (xs : List A) → i < length xs → drop i (set xs i v) ≡ v ∷ drop (suc i) xs
  drop-set_self i v [] h = absurd (omega arith)
  drop-set_self zero v (x ∷ xs) h = refl
  drop-set_self (suc i) v (x ∷ xs) h = drop-set_self i v xs (omega arith)

  pub take-suc :
      (k : ℕ) (xs : List A) {x : A}
      → get_elem? xs k ≡ some x
      → take (suc k) xs ≡ take k xs ++ x ∷ []
  take-suc k [] e = cc
  take-suc zero (y ∷ xs) e = ap (λ t. t ∷ []) (cc)
  take-suc (suc k) (y ∷ xs) e = ap (λ t. y ∷ t) (take-suc k xs e)

  pub drop_all : (k : ℕ) (xs : List A) → length xs ≤ k → drop k xs ≡ []
  drop_all zero [] h = refl
  drop_all zero (x ∷ xs) h = absurd (omega arith)
  drop_all (suc k) [] h = refl
  drop_all (suc k) (x ∷ xs) h = drop_all k xs (omega arith)

  pub get_elem?-lt : (k : ℕ) (xs : List A) → get_elem? xs k ≡ none → length xs ≤ k
  get_elem?-lt k [] e = omega arith
  get_elem?-lt zero (x ∷ xs) e = cc
  get_elem?-lt (suc k) (x ∷ xs) e = omega (arith, get_elem?-lt k xs e)

  pub take-cons : (k : ℕ) (x : A) (xs : List A) → 0 < k → take k (x ∷ xs) ≡ x ∷ take (k - 1) xs
  take-cons zero x xs h = absurd (omega arith)
  take-cons (suc k) x xs h = ap (λ n. x ∷ take n xs) (omega arith)

  pub take_none : (k : ℕ) (xs : List A) → k ≤ 0 → take k xs ≡ []
  take_none zero xs h = refl
  take_none (suc k) xs h = absurd (omega arith)

  pub take-append-drop : (n : ℕ) (xs : List A) → take n xs ++ drop n xs ≡ xs
  take-append-drop zero xs = refl
  take-append-drop (suc n) [] = refl
  take-append-drop (suc n) (x ∷ xs) = ap (λ t. x ∷ t) (take-append-drop n xs)

  pub length-drop : (n : ℕ) (xs : List A) → length (drop n xs) ≡ length xs - n
  length-drop zero xs = omega arith
  length-drop (suc n) [] = omega arith
  length-drop (suc n) (x ∷ xs) = omega (arith, length-drop n xs)

module _ {ℓ κ} {A : Type ℓ} (P : A → Type κ) where
  pub All-append : (xs ys : List A) → All P xs → All P ys → All P (xs ++ ys)
  All-append [] ys p q = q
  All-append (x ∷ xs) ys p q = (p.0, All-append xs ys p.1 q)

  pub All-snoc : (l : List A) (v : A) → All P l → P v → All P (l ++ v ∷ [])
  All-snoc l v h p = All-append l (v ∷ []) h (p, tt)

  pub All-set : (l : List A) (i : ℕ) (v : A) → All P l → P v → All P (set l i v)
  All-set [] i v h p = tt
  All-set (x ∷ l) zero v h p = (p, h.1)
  All-set (x ∷ l) (suc i) v h p = (h.0, All-set l i v h.1 p)

  pub All-get_elem? : (l : List A) (i : ℕ) {v : A} → All P l → get_elem? l i ≡ some v → P v
  All-get_elem? [] i h e = cc
  All-get_elem? (x ∷ l) zero {v = v} h e = subst P (cc) h.0
  All-get_elem? (x ∷ l) (suc i) h e = All-get_elem? l i h.1 e

  pub All-mono {κ'} : (Q : A → Type κ') (l : List A) → ((x : A) → P x → Q x) → All P l → All Q l
  All-mono Q [] f h = tt
  All-mono Q (x ∷ l) f h = (f x h.0, All-mono Q l f h.1)
