-- ===== src/Loopback/Slots.antt =====
-- The places of the ring's bytes (src/utils/pwf_stream_loopback.c).
use native.Mathlib.Omega.{div_any}
use native.Mathlib.Nat.{mul-le-mul_left, mul-suc}
use tinypipewire.Common.{
  ℕ, zero, suc, ◌+◌, ◌*◌, ◌/◌, ◌%◌, ◌^◌, ◌<◌, ◌≤◌, ◌≡◌, ◌≢◌, refl, ◌∙◌, ap, ap₂, sym, true, false,
  List, [], ◌∷◌, ◌++◌, ltb, ◌==◌, length, if◌then◌else◌, arith, Bool-cases, inl, inr,
}
use tinypipewire.Loopback.{slot, copy_into, copy_out}

-- Positions less than a capacity apart have different places.
distinct_mod : (c a b : ℕ) → a < b → b < a + c → a % c ≢ b % c
distinct_mod c a b less near e =
    let qa = a / c in
    let qb = b / c in
    let ha : c * qa + a % c ≡ a = div_any a c in
    let hb : c * qb + b % c ≡ b = div_any b c in
    let one_more : c * suc qa ≡ c * qa + c = mul-suc c qa in
    elim (Bool-cases (ltb qa qb)) [
      | inl after ↦ let far : c * suc qa ≤ c * qb = mul-le-mul_left c (ground arith) in omega arith
      | inr before ↦ let short : c * qb ≤ c * qa = mul-le-mul_left c (ground arith) in omega arith
    ]

-- The places of two positions less than a capacity apart, neither of which has wrapped
distinct_slots : (c a b : ℕ) → a < b → b < a + c → b < 2 ^ 64 → (slot c a == slot c b) ≡ false
distinct_slots c a b less near small =
    let same_a : a % 2 ^ 64 ≡ a = omega arith in
    let same_b : b % 2 ^ 64 ≡ b = omega arith in
    rw (same_a, same_b) (ground (arith, distinct_mod c a b less near))

-- The bytes at some positions are not changed by bytes that are copied to later ones within a capacity.
copy_into-before :
    (c : ℕ) (data_at : ℕ → ℕ) (position : ℕ) (bytes : List ℕ) (a : ℕ)
    → a < position
    → position + length bytes ≤ a + c
    → position + length bytes < 2 ^ 64
    → copy_into c data_at position bytes (slot c a) ≡ data_at (slot c a)
unfolding copy_into
copy_into-before c data_at position [] a less near small = refl
copy_into-before c data_at position (b ∷ bytes) a less near small =
    let written : ℕ → ℕ = λ i. if i == slot c position then b else data_at i in
    copy_into-before c written (suc position) bytes a (omega arith) (omega arith) (omega arith)
    ∙ rw (distinct_slots c a position less (omega arith) (omega arith)) refl

-- Reading before what is copied in
pub copy_out-before :
    (c : ℕ) (data_at : ℕ → ℕ) (r n w : ℕ) (bytes : List ℕ)
    → r + n ≤ w
    → w + length bytes ≤ r + c
    → w + length bytes < 2 ^ 64
    → copy_out c (copy_into c data_at w bytes) r n ≡ copy_out c data_at r n
unfolding copy_out
copy_out-before c data_at r zero w bytes less near small = refl
copy_out-before c data_at r (suc n) w bytes less near small =
    ap₂ (λ x l. x ∷ l) (copy_into-before c data_at w bytes r (omega arith) near small)
      (copy_out-before c data_at (suc r) n w bytes (omega arith) (omega arith) small)

-- Reading what is copied in
pub copy_out-into :
    (c : ℕ) (data_at : ℕ → ℕ) (w : ℕ) (bytes : List ℕ)
    → length bytes ≤ c
    → w + length bytes < 2 ^ 64
    → copy_out c (copy_into c data_at w bytes) w (length bytes) ≡ bytes
unfolding copy_out copy_into
copy_out-into c data_at w [] fits small = refl
copy_out-into c data_at w (b ∷ bytes) fits small =
    let written : ℕ → ℕ = λ i. if i == slot c w then b else data_at i in
    let same : (slot c w == slot c w) ≡ true = ground arith in
    ap₂ (λ x l. x ∷ l)
      (copy_into-before c written (suc w) bytes w (omega arith) (omega arith) (omega arith)
        ∙ rw same refl)
      (copy_out-into c written (suc w) bytes (omega arith) (omega arith))

pub copy_out-append :
    (c : ℕ) (data_at : ℕ → ℕ) (r m n : ℕ)
    → copy_out c data_at r (m + n) ≡ copy_out c data_at r m ++ copy_out c data_at (r + m) n
unfolding copy_out
copy_out-append c data_at r zero n =
    let e : zero + n ≡ n = omega arith in
    let f : r + zero ≡ r = omega arith in ap₂ (λ i k. copy_out c data_at i k) (sym f) e
copy_out-append c data_at r (suc m) n =
    let e : suc m + n ≡ suc (m + n) = omega arith in
    let f : suc r + m ≡ r + suc m = omega arith in
    ap (λ k. copy_out c data_at r k) e
    ∙ ap (λ l. data_at (slot c r) ∷ l)
        (copy_out-append c data_at (suc r) m n
          ∙ ap (λ i. copy_out c data_at (suc r) m ++ copy_out c data_at i n) f)
