-- ===== src/Packing/Bounds.antt =====
-- plan.go: a plan's fragments hold the packet, are at most sixteen, and none is empty.
use wg_frag_go.Common.{
  ℕ, suc, ◌+◌, ◌-◌, ◌*◌, ◌≤◌, ◌<◌, min, ◌≡◌, ◌↔◌, ◌&&◌, ◌⊎◌, inl, inr, true, false, ok, Bool-cases,
  leb, arith, pos,
}
use wg_frag_go.Packing.{Plan, ceil_div, fresh_plan, plan_checked, make_plan}
use native.Mathlib.Nat.{div-mul-le_self, lt-div-mul-add, lt_of_mul-lt-mul_right, mul-le-mul_right}

-- `ceilDiv` is the least number of pieces.
pub ceil_div_lem : (n d : ℕ) → 0 < d → (n ≤ ceil_div n d * d) × (ceil_div n d * d < n + d)
unfolding ceil_div
ceil_div_lem n d h =
    ground (arith, div-mul-le_self (n + d - 1) d, lt-div-mul-add {a = n + d - 1} {b = d} h)

-- A plan in the tail of the carrier: its first record takes what fits there.
pub record TailPlan (packet_len full_data tail_data : ℕ) (p : Plan) : Type 0 where
  pub in_tail : p.start_in_tail ≡ true
  pub first_eq : p.first_data ≡ min packet_len tail_data
  pub first_pos : 1 ≤ p.first_data
  pub count_le : p.fragments ≤ 16
  pub count_pos : 1 ≤ p.fragments
  pub enough : packet_len - p.first_data ≤ (p.fragments - 1) * full_data
  pub least : (p.fragments - 1) * full_data < packet_len - p.first_data + full_data

-- A plan that begins with a fresh carrier.
pub record FreshPlan (packet_len full_data : ℕ) (p : Plan) : Type 0 where
  pub in_fresh : p.start_in_tail ≡ false
  pub first_zero : p.first_data ≡ 0
  pub count_le : p.fragments ≤ 16
  pub count_pos : 1 ≤ p.fragments
  pub enough : packet_len ≤ p.fragments * full_data
  pub least : p.fragments * full_data < packet_len + full_data

fresh_plan-FreshPlan :
    (n full : ℕ) (p : Plan) → 0 < n → 0 < full → fresh_plan n full ≡ ok p → FreshPlan n full p
unfolding fresh_plan
fresh_plan-FreshPlan n full p hn hf e = ground (arith, ceil_div_lem n full hf)

-- `k` pieces of size `d` that hold `n` are at least `ceilDiv n d` many.
pub ceil_div-le : (n d k : ℕ) → 0 < d → n ≤ k * d → ceil_div n d ≤ k
ceil_div-le n d k hd h = omega (
  arith,
  lt_of_mul-lt-mul_right d {m = ceil_div n d} {n = suc k} (omega (arith, ceil_div_lem n d hd)),
)

fresh_plan-total : (n full : ℕ) → 0 < full → n ≤ 16 * full → (p : Plan) × (fresh_plan n full ≡ ok p)
unfolding fresh_plan
fresh_plan-total n full hf h = (
  record { start_in_tail = false; fragments = ceil_div n full; first_data = 0 },
  ground (arith, ceil_div-le n full 16 hf h),
)

plan_checked-cases :
    (n c r m : ℕ) (p : Plan)
    → 0 < n
    → 12 < c
    → 0 < m
    → plan_checked n c r m ≡ ok p
    → TailPlan n (c - 12) (r - 12) p ⊎ FreshPlan n (c - 12) p
unfolding plan_checked
plan_checked-cases n c r m p hn hc hm e = elim (Bool-cases (leb (m + 12) r)) [
  | inr no_tail ↦ inr (fresh_plan-FreshPlan n (c - 12) p hn (omega arith) (ground arith))
  | inl room ↦ elim (Bool-cases (leb (1 + ceil_div (n - min n (r - 12)) (c - 12)) 16)) [
    | inr many ↦ inr (fresh_plan-FreshPlan n (c - 12) p hn (omega arith) (ground arith))
    | inl few ↦ inl (ground (arith, ceil_div_lem (n - min n (r - 12)) (c - 12)))
  ]
]

plan_checked-total :
    (n c r m : ℕ) → 12 < c → n ≤ 16 * (c - 12) → (p : Plan) × (plan_checked n c r m ≡ ok p)
unfolding plan_checked
plan_checked-total n c r m hc h =
    let (p, e) = fresh_plan-total n (c - 12) (omega arith) h in
    let first : ℕ = min n (r - 12) in
    let tail : Plan = record {
      start_in_tail = true;
      fragments = 1 + ceil_div (n - first) (c - 12);
      first_data = first;
    } in
    elim (Bool-cases (leb (m + 12) r && leb (1 + ceil_div (n - first) (c - 12)) 16)) [
      | inl stays ↦ (tail, ground arith)
      | inr starts ↦ (p, ground arith)
    ]

-- `MakePlan` on lengths that are not negative and a carrier that holds a record header.
pub make_plan-cases :
    (n c r m : ℕ) (p : Plan)
    → make_plan (pos n) (pos c) (pos r) (pos m) ≡ ok p
    → TailPlan n (c - 12) (r - 12) p ⊎ FreshPlan n (c - 12) p
unfolding make_plan
make_plan-cases n c r m p e =
    plan_checked-cases n c r m p (ground arith) (ground arith) (ground arith) (ground arith)

-- The tail has room for a record header and `least_data` bytes, and the packet fits into the tail and fifteen further
-- records.
abbrev pub FitsTail : ℕ → ℕ → ℕ → ℕ → Type 0
FitsTail packet_len carrier_len tail_len least_data =
    (least_data + 12 ≤ tail_len)
    × (packet_len ≤ min packet_len (tail_len - 12) + 15 * (carrier_len - 12))

plan_checked-starts :
    (n c r m : ℕ) (p : Plan)
    → 0 < n
    → 12 < c
    → 0 < m
    → plan_checked n c r m ≡ ok p
    → FitsTail n c r m × TailPlan n (c - 12) (r - 12) p
      ⊎ ¬ FitsTail n c r m × FreshPlan n (c - 12) p
unfolding plan_checked
plan_checked-starts n c r m p hn hc hm e = elim (Bool-cases (leb (m + 12) r)) [
  | inr no_tail ↦ inr (
    (λ (room, fits). ground arith),
    fresh_plan-FreshPlan n (c - 12) p hn (omega arith) (ground arith),
  )
  | inl room ↦ elim (Bool-cases (leb (1 + ceil_div (n - min n (r - 12)) (c - 12)) 16)) [
    | inr many ↦ inr (
      (λ (has, fits).
          let few = ceil_div-le (n - min n (r - 12)) (c - 12) 15 (omega arith) (omega arith) in
          ground arith),
      fresh_plan-FreshPlan n (c - 12) p hn (omega arith) (ground arith),
    )
    | inl few ↦
        let pieces : ceil_div (n - min n (r - 12)) (c - 12) ≤ 15 = ground arith in
        let held = ceil_div_lem (n - min n (r - 12)) (c - 12) (omega arith) in
        let most = mul-le-mul_right (c - 12) pieces in
        inl ((ground arith, omega (arith, held, most)), ground (arith, held))
  ]
]

-- `MakePlan` on lengths that are not negative and a carrier that holds a record header. A plan starts in the tail of
-- the carrier exactly if the tail has room for a header and the least number of bytes and sixteen records hold the packet
-- with that start; otherwise it starts in a fresh carrier. It holds the packet in at most sixteen records, and no
-- smaller number of records with the start that was chosen holds it.
pub make_plan-starts :
    (n c r m : ℕ) (p : Plan)
    → make_plan (pos n) (pos c) (pos r) (pos m) ≡ ok p
    → FitsTail n c r m × TailPlan n (c - 12) (r - 12) p
      ⊎ ¬ FitsTail n c r m × FreshPlan n (c - 12) p
unfolding make_plan
make_plan-starts n c r m p e =
    plan_checked-starts n c r m p (ground arith) (ground arith) (ground arith) (ground arith)

pub make_plan-total :
    (n c r m : ℕ)
    → 0 < n
    → 12 < c
    → r ≤ c
    → 0 < m
    → n ≤ 16 * (c - 12)
    → (p : Plan) × (make_plan (pos n) (pos c) (pos r) (pos m) ≡ ok p)
unfolding make_plan
make_plan-total n c r m hn hc hr hm h =
    let (p, e) = plan_checked-total n c r m hc h in (p, ground arith)

sixteen_pieces : (k full : ℕ) → k ≤ 16 → k * full ≤ 16 * full
sixteen_pieces k full h = mul-le-mul_right full h

make_plan-fits :
    (n c r m : ℕ) (p : Plan)
    → r ≤ c
    → make_plan (pos n) (pos c) (pos r) (pos m) ≡ ok p
    → n ≤ 16 * (c - 12)
make_plan-fits n c r m p hr e = elim (make_plan-cases n c r m p e) [
  | inl t ↦ omega (
    arith,
    t.enough,
    t.count_le,
    t.count_pos,
    t.first_eq,
    sixteen_pieces (p.fragments - 1 + 1) (c - 12) (omega (arith, t.count_le, t.count_pos)),
  )
  | inr f ↦ omega (arith, f.enough, sixteen_pieces p.fragments (c - 12) f.count_le)
]

-- On lengths in range, a plan exists exactly when sixteen records from a fresh carrier hold the
-- packet; how full the current carrier is does not matter.
pub make_plan_iff :
    (n c r m : ℕ)
    → 0 < n
    → 12 < c
    → r ≤ c
    → 0 < m
    → ((p : Plan) × (make_plan (pos n) (pos c) (pos r) (pos m) ≡ ok p)) ↔ (n ≤ 16 * (c - 12))
make_plan_iff n c r m hn hc hr hm =
    (λ (p, e). make_plan-fits n c r m p hr e, make_plan-total n c r m hn hc hr hm)
