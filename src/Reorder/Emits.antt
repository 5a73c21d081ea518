-- ===== src/Reorder/Emits.antt =====
-- reorder.go: packets that leave the queue one after another, each the closest to `next` at its
-- turn. The loops of `drainContiguous`, `flush` and `flushIncluding` all do this.
use wg_frag_go.Common.{
  ℕ, zero, suc, ◌+◌, ◌-◌, ◌%◌, ◌≤◌, ◌<◌, ◌≡◌, ◌≢◌, refl, sym, List, [], ◌∷◌, ◌++◌, none, some,
  length, set, get_elem?, arith, subst,
}
use mathlib.Core.List.{Perm}
use mathlib.Core.List.Perm
use wg_frag_go.Reassembly.{Packet}
use wg_frag_go.Reorder.{Entries, sequence_space, sequence_of, distance, after_sequence, held}
use wg_frag_go.Reorder.Held.{
  AllHeld, held-set-none, length-held-set-none, AllHeld-set-none, AllHeld-get, AllHeld-zip,
}

pub data Emits : ℕ → Entries → List Packet → ℕ → Entries → Type 0 where
  done : {next : ℕ} {es : Entries} → Emits next es [] next es
  emit :
      {next next' : ℕ} {es es' : Entries} {ps : List Packet} (k : ℕ) (p : Packet)
      → get_elem? es k ≡ some (some p)
      → AllHeld (λ q. distance next (sequence_of p) ≤ distance next (sequence_of q)) es
      → Emits (after_sequence (sequence_of p)) (set es k none) ps next' es'
      → Emits next es (p ∷ ps) next' es'

-- Nothing is lost, and nothing made up.
pub Emits-perm :
    {next next' : ℕ} {es es' : Entries} {ps : List Packet}
    → Emits next es ps next' es'
    → Perm (held es) (ps ++ held es')
Emits-perm {es} done = Perm.refl (held es)
Emits-perm {es} (emit k p at least rest) =
    Perm.trans (held-set-none es k p at) (Perm.cons p (Emits-perm rest))

pub length-Emits :
    {next next' : ℕ} {es es' : Entries} {ps : List Packet}
    → Emits next es ps next' es'
    → length (held es) ≡ length ps + length (held es')
length-Emits done = omega arith
length-Emits {es} (emit k p at least rest) =
    let h = length-Emits rest in omega (arith, length-held-set-none es k p at)

pub Emits-AllHeld {ℓ} :
    (P : Packet → Type ℓ) {next next' : ℕ} {es es' : Entries} {ps : List Packet}
    → Emits next es ps next' es'
    → AllHeld P es
    → AllHeld P es'
Emits-AllHeld P done a = a
Emits-AllHeld P {es} (emit k p at least rest) a = Emits-AllHeld P rest (AllHeld-set-none P es k a)

-- The sequence that follows the packets.
abbrev pub next_after : ℕ → List Packet → ℕ
next_after next [] = next
next_after next (p ∷ ps) = next_after ((sequence_of p + 1) % sequence_space) ps

-- The packets have the sequences from `next` on, without a gap.
abbrev pub Consecutive : ℕ → List Packet → Type 0
Consecutive next [] = Unit {0}
Consecutive next (p ∷ ps) = (sequence_of p ≡ next) × Consecutive ((next + 1) % sequence_space) ps

pub Emits-next_after :
    {next next' : ℕ} {es es' : Entries} {ps : List Packet}
    → Emits next es ps next' es'
    → next' ≡ next_after next ps
Emits-next_after done = refl
Emits-next_after (emit k p at least rest) = Emits-next_after rest

-- No two held packets have one sequence.
abbrev pub Distinct : Entries → Type 0
Distinct [] = Unit {0}
Distinct (none ∷ es) = Distinct es
Distinct (some p ∷ es) = AllHeld (λ q. sequence_of q ≢ sequence_of p) es × Distinct es

pub Distinct-set-none : (es : Entries) (k : ℕ) → Distinct es → Distinct (set es k none)
Distinct-set-none [] k d = d
Distinct-set-none (none ∷ es) zero d = d
Distinct-set-none (some q ∷ es) zero d = d.1
Distinct-set-none (none ∷ es) (suc k) d = Distinct-set-none es k d
Distinct-set-none (some q ∷ es) (suc k) d =
    (AllHeld-set-none _ es k d.0, Distinct-set-none es k d.1)

-- The packet taken out has a sequence of its own.
others_differ :
    (es : Entries) (k : ℕ) (p : Packet)
    → get_elem? es k ≡ some (some p)
    → Distinct es
    → AllHeld (λ q. sequence_of q ≢ sequence_of p) (set es k none)
others_differ [] k p e d = absurd (ground arith)
others_differ (none ∷ es) zero p e d = absurd (ground arith)
others_differ (some q ∷ es) zero p e d =
    subst (λ x. AllHeld (λ r. sequence_of r ≢ sequence_of x) es) {x = q} {y = p} (ground arith) d.0
others_differ (none ∷ es) (suc k) p e d = others_differ es k p e d
others_differ (some q ∷ es) (suc k) p e d = (
  λ h. AllHeld-get (λ r. sequence_of r ≢ sequence_of q) es k p e d.0 (sym h),
  others_differ es k p e d.1,
)

pub Emits-Distinct :
    {next next' : ℕ} {es es' : Entries} {ps : List Packet}
    → Emits next es ps next' es'
    → Distinct es
    → Distinct es'
Emits-Distinct done d = d
Emits-Distinct {es} (emit k p at least rest) d = Emits-Distinct rest (Distinct-set-none es k d)

-- Sequences in uint32, and distances from `start` of at least `low`.
abbrev pub IsBeyond : ℕ → ℕ → Packet → Type 0
IsBeyond start low p = (sequence_of p < sequence_space) × (low ≤ distance start (sequence_of p))

-- The distances from `start` rise strictly, from `low` on.
abbrev pub Rising : ℕ → ℕ → List Packet → Type 0
Rising start low [] = Unit {0}
Rising start low (p ∷ ps) =
    (low ≤ distance start (sequence_of p)) × Rising start (distance start (sequence_of p) + 1) ps

-- Where `next` stands `low` places beyond `start`.
shifted_distance :
    (start low next s : ℕ)
    → start < sequence_space
    → next ≡ (start + low) % sequence_space
    → s < sequence_space
    → low ≤ distance start s
    → distance next s ≡ distance start s - low
shifted_distance start low next s h e hs hl = omega arith

next-IsBeyond :
    (start low next : ℕ) (p q : Packet)
    → start < sequence_space
    → next ≡ (start + low) % sequence_space
    → IsBeyond start low p
    → IsBeyond start low q
    → distance next (sequence_of p) ≤ distance next (sequence_of q)
    → sequence_of q ≢ sequence_of p
    → IsBeyond start (distance start (sequence_of p) + 1) q
next-IsBeyond start low next p q h e bp bq least differ =
    let sp = shifted_distance start low next (sequence_of p) h e bp.0 bp.1 in
    let sq = shifted_distance start low next (sequence_of q) h e bq.0 bq.1 in (bq.0, omega arith)

after-distance :
    (start s : ℕ)
    → start < sequence_space
    → s < sequence_space
    → after_sequence s ≡ (start + (distance start s + 1)) % sequence_space
after-distance start s h hs = omega arith

-- The packets come out in order of their distance, and what is left lies beyond them.
pub Emits-Rising :
    {next next' : ℕ} {es es' : Entries} {ps : List Packet} (start low : ℕ)
    → start < sequence_space
    → next ≡ (start + low) % sequence_space
    → AllHeld (IsBeyond start low) es
    → Distinct es
    → Emits next es ps next' es'
    → Rising start low ps
      × ((end : ℕ) × (next' ≡ (start + end) % sequence_space) × AllHeld (IsBeyond start end) es')
Emits-Rising start low h e b d done = (tt, (low, e, b))
Emits-Rising {next} {es} start low h e b d (emit k p at least rest) =
    let bp = AllHeld-get (IsBeyond start low) es k p at b in
    let near = AllHeld-set-none _ es k least in
    let others = others_differ es k p at d in
    let beyond =
      AllHeld-zip _ _
        (λ q.
          IsBeyond start low q × (distance next (sequence_of p) ≤ distance next (sequence_of q)))
        (set es k none) (λ q x y. (x, y)) (AllHeld-set-none _ es k b) near in
    let b' =
      AllHeld-zip _ _ (IsBeyond start (distance start (sequence_of p) + 1)) (set es k none)
        (λ q x y. next-IsBeyond start low next p q h e bp x.0 x.1 y) beyond others in
    let (rising, left) =
      Emits-Rising start (distance start (sequence_of p) + 1) h
        (after-distance start (sequence_of p) h bp.0) b' (Distinct-set-none es k d) rest in
    ((bp.1, rising), left)
