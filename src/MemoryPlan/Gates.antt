-- ===== src/MemoryPlan/Gates.antt =====
-- internal/memoryplan/estimate.go: `product` and the sum, as numbers that fit in uint64 or not.
use native.Mathlib.Nat.{
  le-div_iff_mul-le, div-lt_iff_lt-mul, mod-eq_of_lt, mul_assoc, mul-one, mul-pos,
  le-mul_of_pos_right,
}
use wg_frag_go.Common.{
  ℕ, ◌+◌, ◌-◌, ◌*◌, ◌/◌, ◌≤◌, ◌<◌, ◌≡◌, refl, sym, ap, ◌∙◌, true, false, List, [], ◌∷◌, Result, ok,
  err, ◌>>=◌, ltb, ltb→lt, leb, ◌==◌, if◌then◌else◌, arith, Bool-cases, inl, inr,
}
use wg_frag_go.MemoryPlan.{
  EstimateError, invalid_config, max_uint64, uint64, product_from, product, sum_from,
}

abbrev pub times : List ℕ → ℕ
times [] = 1
times (v ∷ vs) = v * times vs

abbrev pub plus : List ℕ → ℕ
plus [] = 0
plus (v ∷ vs) = v + plus vs

abbrev AllPositive : List ℕ → Type 0
AllPositive [] = Unit
AllPositive (v ∷ vs) = (1 ≤ v) × AllPositive vs

-- A number, or the error where it does not fit in uint64.
abbrev pub gate : ℕ → Result EstimateError ℕ
gate n = if leb n max_uint64 then ok n else err invalid_config

times-pos : (vs : List ℕ) → AllPositive vs → 1 ≤ times vs
times-pos [] p = omega arith
times-pos (v ∷ vs) (h, p) = omega (
  arith,
  mul-pos (ltb→lt 0 v (ground arith))
      (ltb→lt 0 (times vs) (let t = times-pos vs p in ground arith)),
)

pub uint64_id : (n : ℕ) → n ≤ max_uint64 → uint64 n ≡ n
uint64_id n h = mod-eq_of_lt (omega arith)

pub gate_over : (n : ℕ) → max_uint64 < n → gate n ≡ err invalid_config
gate_over n h = let e : leb n max_uint64 ≡ false = ground arith in rw e refl

pub gate_fits : (n : ℕ) → n ≤ max_uint64 → gate n ≡ ok n
gate_fits n h = let e : leb n max_uint64 ≡ true = ground arith in rw e refl

product_from-gate :
    (out : ℕ) (vs : List ℕ)
    → out ≤ max_uint64
    → AllPositive vs
    → product_from out vs ≡ gate (out * times vs)
unfolding product_from
product_from-gate out [] h p = sym (ap gate (mul-one out) ∙ gate_fits out h)
product_from-gate out (v ∷ vs) h (pos, p) =
    let nonzero : (v == 0) ≡ false = ground arith in
    elim (Bool-cases (ltb (max_uint64 / v) out)) [
      | inl over ↦
          let lt : max_uint64 < out * v =
            (div-lt_iff_lt-mul pos).0 (ltb→lt (max_uint64 / v) out over) in
          let grows : out * v ≤ out * v * times vs =
            le-mul_of_pos_right (out * v) (times-pos vs p) in
          rw (nonzero, over)
            (sym (gate_over (out * (v * times vs)) (omega (arith, mul_assoc out v (times vs)))))
      | inr fits ↦
          let le : out * v ≤ max_uint64 = (le-div_iff_mul-le pos).0 (ground arith) in
          rw (nonzero, fits)
            (ap (λ n. product_from n vs) (uint64_id (out * v) le)
              ∙ product_from-gate (out * v) vs le p
              ∙ ap gate (mul_assoc out v (times vs)))
    ]

pub sum_from-gate :
    (total : ℕ) (vs : List ℕ) → total ≤ max_uint64 → sum_from total vs ≡ gate (total + plus vs)
unfolding sum_from
sum_from-gate total [] h =
    sym (ap gate {x = total + 0} {y = total} (omega arith) ∙ gate_fits total h)
sum_from-gate total (v ∷ vs) h = elim (Bool-cases (ltb (max_uint64 - total) v)) [
  | inl over ↦
      let lt = ltb→lt (max_uint64 - total) v over in
      rw over (sym (gate_over (total + (v + plus vs)) (omega arith)))
  | inr fits ↦
      let le : total + v ≤ max_uint64 = ground arith in
      rw fits (
        ap (λ n. sum_from n vs) (uint64_id (total + v) le)
        ∙ sum_from-gate (total + v) vs le
        ∙ ap gate {x = total + v + plus vs} {y = total + (v + plus vs)} (omega arith))
]

-- A product that is reached: what follows it decides.
pub gate-then :
    {A : Type 0} (n : ℕ) (rest : ℕ → Result EstimateError A)
    → (n ≤ max_uint64 → rest n ≡ err invalid_config)
    → gate n >>= rest ≡ err invalid_config
gate-then n rest h = elim (Bool-cases (leb n max_uint64)) [
  | inl fits ↦ rw fits (h (ground arith))
  | inr over ↦ rw over refl
]

pub product-gate : (vs : List ℕ) (n : ℕ) → AllPositive vs → times vs ≡ n → product vs ≡ gate n
unfolding product
product-gate vs n p e =
    product_from-gate 1 vs (omega arith) p ∙ ap gate {x = 1 * times vs} {y = n} (omega arith)
