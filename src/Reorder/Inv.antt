-- ===== src/Reorder/Inv.antt =====
-- reorder.go: what holds of an enabled `Reorderer` between two calls, and the filling of an entry.
use wg_frag_go.Common.{
  ℕ, zero, suc, ◌<◌, ◌≡◌, ◌≢◌, refl, sym, ap, inl, inr, Bool, true, false, [], ◌∷◌, Option, none,
  some, ◌==◌, length, replicate, arith, Option-cases, subst,
}
use mathlib.Core.List.{Perm}
use mathlib.Core.List.Perm
use wg_frag_go.Reassembly.{Packet}
use wg_frag_go.Reorder.{
  Reorderer, Entries, sequence_space, half_sequence_space, sequence_of, distance, held, insert_at,
}
use wg_frag_go.Reorder.Held.{AllHeld}
use wg_frag_go.Reorder.Emits.{Distinct, IsBeyond}
use wg_frag_go.Reorder.Loops.{Counted}

abbrev pub is_none {ℓ} : {A : Type ℓ} → Option A → Bool
is_none none = true
is_none (some a) = false

pub record Inv (r : Reorderer) : Type 0 where
  pub enabled : r.config.enabled ≡ true
  pub counted : Counted r
  pub next_lt : r.next < sequence_space
  pub distinct : Distinct r.entries
  pub beyond : AllHeld (IsBeyond r.next 1) r.entries
  pub near : AllHeld (λ q. distance r.next (sequence_of q) < half_sequence_space) r.entries
  pub gap : (r.count == 0) ≡ is_none r.gap_started_at

-- What `insert_at` does with room for one more.
pub record Inserted (p : Packet) (es : Entries) : Type 0 where
  pub filled : Entries
  pub out_eq : insert_at p es ≡ some filled
  pub perm : Perm (p ∷ held es) (held filled)
  pub count_eq : length (held filled) ≡ suc (length (held es))
  pub size_eq : length filled ≡ length es

pub insert_at-Inserted : (p : Packet) (es : Entries) → length (held es) < length es → Inserted p es
unfolding insert_at
insert_at-Inserted p [] h = absurd (omega arith)
insert_at-Inserted p (none ∷ es) h = record {
  filled = some p ∷ es;
  out_eq = refl;
  perm = Perm.refl (p ∷ held es);
  count_eq = refl;
  size_eq = refl;
}
insert_at-Inserted p (some q ∷ es) h =
    let i = insert_at-Inserted p es (omega arith) in
    record {
      filled = some q ∷ i.filled;
      out_eq = rw i.out_eq;
      perm = Perm.trans (Perm.swap q p (held es)) (Perm.cons q i.perm);
      count_eq = ap suc i.count_eq;
      size_eq = ap suc i.size_eq;
    }

pub insert_at-AllHeld {ℓ} :
    (P : Packet → Type ℓ) (p : Packet) (es es' : Entries)
    → insert_at p es ≡ some es'
    → P p
    → AllHeld P es
    → AllHeld P es'
unfolding insert_at
insert_at-AllHeld P p [] es' e h a = absurd (ground arith)
insert_at-AllHeld P p (none ∷ es) es' e h a =
    subst (AllHeld P) {x = some p ∷ es} {y = es'} (ground arith) (h, a)
insert_at-AllHeld P p (some q ∷ es) es' e h a = elim (Option-cases (insert_at p es)) [
  | inl x ↦ absurd (ground arith)
  | inr (fs, x) ↦
      subst (AllHeld P) {x = some q ∷ fs} {y = es'} (ground arith)
        (a.0, insert_at-AllHeld P p es fs x h a.1)
]

pub insert_at-Distinct :
    (p : Packet) (es es' : Entries)
    → insert_at p es ≡ some es'
    → AllHeld (λ q. sequence_of q ≢ sequence_of p) es
    → Distinct es
    → Distinct es'
unfolding insert_at
insert_at-Distinct p [] es' e h d = absurd (ground arith)
insert_at-Distinct p (none ∷ es) es' e h d =
    subst Distinct {x = some p ∷ es} {y = es'} (ground arith) (h, d)
insert_at-Distinct p (some q ∷ es) es' e h d = elim (Option-cases (insert_at p es)) [
  | inl x ↦ absurd (ground arith)
  | inr (fs, x) ↦
      subst Distinct {x = some q ∷ fs} {y = es'} (ground arith)
        (insert_at-AllHeld _ p es fs x (λ s. h.0 (sym s)) d.0, insert_at-Distinct p es fs x h.1 d.1)
]

pub nothing_held : (n : ℕ) → held (replicate n none) ≡ []
nothing_held zero = refl
nothing_held (suc n) = nothing_held n
