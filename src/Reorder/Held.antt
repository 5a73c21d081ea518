-- ===== src/Reorder/Held.antt =====
-- reorder.go: what the queue holds. Clearing an entry takes exactly its packet out, and filling one
-- puts exactly the new packet in.
use wg_frag_go.Common.{
  ℕ, zero, suc, ◌+◌, ◌≤◌, ◌<◌, ◌≡◌, refl, sym, ap, ◌⊎◌, inl, inr, false, [], ◌∷◌, Option, none,
  some, ltb, ◌==◌, length, set, get_elem?, arith, Bool-cases, subst,
}
use mathlib.Core.List.{Perm}
use mathlib.Core.List.Perm
use wg_frag_go.Reassembly.{Packet}
use wg_frag_go.Reorder.{Entries, sequence_of, distance, held, find_from, closest_from}

-- What a hypothesis on each packet says of the held ones.
abbrev pub AllHeld {ℓ} : (Packet → Type ℓ) → Entries → Type ℓ
AllHeld P [] = Unit
AllHeld P (none ∷ es) = AllHeld P es
AllHeld P (some p ∷ es) = P p × AllHeld P es

pub held-set-none :
    (es : Entries) (i : ℕ) (p : Packet)
    → get_elem? es i ≡ some (some p)
    → Perm (held es) (p ∷ held (set es i none))
held-set-none [] i p e = absurd (ground arith)
held-set-none (none ∷ es) zero p e = absurd (ground arith)
held-set-none (some q ∷ es) zero p e =
    subst (λ x. Perm (q ∷ held es) (x ∷ held es)) (ground arith) (Perm.refl (q ∷ held es))
held-set-none (none ∷ es) (suc i) p e = held-set-none es i p e
held-set-none (some q ∷ es) (suc i) p e =
    Perm.trans (Perm.cons q (held-set-none es i p e)) (Perm.swap p q (held (set es i none)))

pub length-held-set-none :
    (es : Entries) (i : ℕ) (p : Packet)
    → get_elem? es i ≡ some (some p)
    → length (held es) ≡ suc (length (held (set es i none)))
length-held-set-none [] i p e = absurd (ground arith)
length-held-set-none (none ∷ es) zero p e = absurd (ground arith)
length-held-set-none (some q ∷ es) zero p e = refl
length-held-set-none (none ∷ es) (suc i) p e = length-held-set-none es i p e
length-held-set-none (some q ∷ es) (suc i) p e = ap suc (length-held-set-none es i p e)

pub AllHeld-set-none {ℓ} :
    (P : Packet → Type ℓ) (es : Entries) (i : ℕ) → AllHeld P es → AllHeld P (set es i none)
AllHeld-set-none P [] i a = a
AllHeld-set-none P (none ∷ es) zero a = a
AllHeld-set-none P (some q ∷ es) zero a = a.1
AllHeld-set-none P (none ∷ es) (suc i) a = AllHeld-set-none P es i a
AllHeld-set-none P (some q ∷ es) (suc i) a = (a.0, AllHeld-set-none P es i a.1)

-- A search gives a used entry, at its index.
pub find_from_lem :
    (es : Entries) (i sequence j : ℕ) (p : Packet)
    → find_from i sequence es ≡ some (j, p)
    → (k : ℕ) × (j ≡ i + k) × (get_elem? es k ≡ some (some p)) × (sequence_of p ≡ sequence)
unfolding find_from
find_from_lem [] i s j p e = absurd (ground arith)
find_from_lem (none ∷ es) i s j p e =
    let (k, a, b, c) = find_from_lem es (suc i) s j p e in (suc k, omega arith, b, c)
find_from_lem (some q ∷ es) i s j p e = elim (Bool-cases (sequence_of q == s)) [
  | inl hit ↦ (0, ground arith, ground arith, ground arith)
  | inr miss ↦
      let (k, a, b, c) = find_from_lem es (suc i) s j p (ground arith) in (suc k, omega arith, b, c)
]

pub find_from-none :
    (es : Entries) (i sequence : ℕ)
    → find_from i sequence es ≡ none
    → AllHeld (λ p. (sequence_of p == sequence) ≡ false) es
unfolding find_from
find_from-none [] i s e = tt
find_from-none (none ∷ es) i s e = find_from-none es (suc i) s e
find_from-none (some q ∷ es) i s e = (ground arith, find_from-none es (suc i) s (ground arith))

-- The used entry `k` places on from index `i` holds `p`.
abbrev pub At : ℕ → ℕ → Packet → Entries → Type 0
At i j p es = (k : ℕ) × (j ≡ i + k) × (get_elem? es k ≡ some (some p))

pub record Found (next i j : ℕ) (q : Packet) (es : Entries) (out : Option (ℕ × Packet))
    : Type 0 where
  pub index : ℕ
  pub packet : Packet
  pub out_eq : out ≡ some (index, packet)
  pub le_start : distance next (sequence_of packet) ≤ distance next (sequence_of q)
  pub least : AllHeld (λ r. distance next (sequence_of packet) ≤ distance next (sequence_of r)) es
  pub where_at : (index ≡ j) × (packet ≡ q) ⊎ At i index packet es

At-suc :
    (i : ℕ) {j : ℕ} {p : Packet} (e : Option Packet) (es : Entries)
    → At (suc i) j p es
    → At i j p (e ∷ es)
At-suc i e es (k, a, b) = (suc k, omega arith, b)

closest_from-Found :
    (es : Entries) (next i j : ℕ) (q : Packet)
    → Found next i j q es (closest_from next i (some (j, q)) es)
unfolding closest_from
closest_from-Found [] next i j q = record {
  index = j;
  packet = q;
  out_eq = refl;
  le_start = omega arith;
  least = tt;
  where_at = inl (refl, refl);
}
closest_from-Found (none ∷ es) next i j q =
    let f = closest_from-Found es next (suc i) j q in
    record {
      index = f.index;
      packet = f.packet;
      out_eq = f.out_eq;
      le_start = f.le_start;
      least = f.least;
      where_at = elim f.where_at [ inl same ↦ inl same | inr at ↦ inr (At-suc i none es at) ];
    }
closest_from-Found (some p ∷ es) next i j q =
    elim (Bool-cases (ltb (distance next (sequence_of p)) (distance next (sequence_of q)))) [
      | inl closer ↦
          let f = closest_from-Found es next (suc i) i p in
          record {
            index = f.index;
            packet = f.packet;
            out_eq = rw closer f.out_eq;
            le_start = ground (arith, f.le_start);
            least = (f.le_start, f.least);
            where_at = inr (elim f.where_at [
              | inl (a, b) ↦ (0, omega arith, ap (λ x. some (some x)) (sym b))
              | inr at ↦ At-suc i (some p) es at
            ]);
          }
      | inr farther ↦
          let f = closest_from-Found es next (suc i) j q in
          record {
            index = f.index;
            packet = f.packet;
            out_eq = rw farther f.out_eq;
            le_start = f.le_start;
            least = (ground (arith, f.le_start), f.least);
            where_at = elim f.where_at [
              | inl same ↦ inl same
              | inr at ↦ inr (At-suc i (some p) es at)
            ];
          }
    ]

-- The search over all entries finds a held packet with the least distance, if one is held.
pub record Nearest (next i : ℕ) (es : Entries) (out : Option (ℕ × Packet)) : Type 0 where
  pub index : ℕ
  pub packet : Packet
  pub out_eq : out ≡ some (index, packet)
  pub least : AllHeld (λ r. distance next (sequence_of packet) ≤ distance next (sequence_of r)) es
  pub stands : At i index packet es

pub closest_from-Nearest :
    (es : Entries) (next i : ℕ)
    → 0 < length (held es)
    → Nearest next i es (closest_from next i none es)
unfolding closest_from
closest_from-Nearest [] next i h = absurd (omega arith)
closest_from-Nearest (none ∷ es) next i h =
    let f = closest_from-Nearest es next (suc i) h in
    record {
      index = f.index;
      packet = f.packet;
      out_eq = f.out_eq;
      least = f.least;
      stands = At-suc i none es f.stands;
    }
closest_from-Nearest (some p ∷ es) next i h =
    let f = closest_from-Found es next (suc i) i p in
    record {
      index = f.index;
      packet = f.packet;
      out_eq = f.out_eq;
      least = (f.le_start, f.least);
      stands = elim f.where_at [
        | inl (a, b) ↦ (0, omega arith, ap (λ x. some (some x)) (sym b))
        | inr at ↦ At-suc i (some p) es at
      ];
    }

pub closest_from-empty :
    (es : Entries) (next i : ℕ) → length (held es) ≡ 0 → closest_from next i none es ≡ none
unfolding closest_from
closest_from-empty [] next i h = refl
closest_from-empty (none ∷ es) next i h = closest_from-empty es next (suc i) h
closest_from-empty (some p ∷ es) next i h = absurd (omega arith)

pub AllHeld-get {ℓ} :
    (P : Packet → Type ℓ) (es : Entries) (k : ℕ) (p : Packet)
    → get_elem? es k ≡ some (some p)
    → AllHeld P es
    → P p
AllHeld-get P [] k p e a = absurd (ground arith)
AllHeld-get P (none ∷ es) zero p e a = absurd (ground arith)
AllHeld-get P (some q ∷ es) zero p e a = subst P (ground arith) a.0
AllHeld-get P (none ∷ es) (suc k) p e a = AllHeld-get P es k p e a
AllHeld-get P (some q ∷ es) (suc k) p e a = AllHeld-get P es k p e a.1

-- Two facts on the held packets give a third.
pub AllHeld-zip {ℓ κ μ} :
    (P : Packet → Type ℓ) (Q : Packet → Type κ) (R : Packet → Type μ) (es : Entries)
    → ((p : Packet) → P p → Q p → R p)
    → AllHeld P es
    → AllHeld Q es
    → AllHeld R es
AllHeld-zip P Q R [] f a b = tt
AllHeld-zip P Q R (none ∷ es) f a b = AllHeld-zip P Q R es f a b
AllHeld-zip P Q R (some p ∷ es) f a b = (f p a.0 b.0, AllHeld-zip P Q R es f a.1 b.1)
