-- ===== src/Reorder/Loops.antt =====
-- reorder.go: the loops end, without a panic, and emit the packets that are due.
use wg_frag_go.Common.{
  ℕ, zero, suc, ◌≤◌, ◌<◌, ◌≡◌, refl, sym, ap, ◌∙◌, inl, inr, true, false, List, [], ◌∷◌, Option,
  none, some, ltb→lt, ◌==◌, length, length-set, set, get_elem?, arith, Option-cases, Bool-cases,
  subst,
}
use wg_frag_go.Reassembly.{Packet}
use wg_frag_go.Reorder.{
  Reorderer, Entries, sequence_space, sequence_of, distance, after_sequence, held, find_from,
  closest_from, closest_ahead, take_out, drain_loop, flush_loop, virtual_first,
  flush_including_loop,
}
use wg_frag_go.Reorder.Held.{
  AllHeld, AllHeld-zip, length-held-set-none, find_from_lem, find_from-none, closest_from-Nearest,
  closest_from-empty,
}
use wg_frag_go.Reorder.Emits.{Emits, Consecutive, done, emit}

-- The count is right.
abbrev pub Counted : Reorderer → Type 0
Counted r = r.count ≡ length (held r.entries)

-- From `r`, with one more entry in front or none, to `r'` by emitting `ps`.
pub record Left (r : Reorderer) (front back : Entries → Entries) (r' : Reorderer) (ps : List Packet)
    : Type 0 where
  pub emits : Emits r.next (front r.entries) ps r'.next (back r'.entries)
  pub counted : Counted r'
  pub config_eq : r'.config ≡ r.config
  pub size_eq : length r'.entries ≡ length r.entries
  pub gap_eq : r'.gap_started_at ≡ r.gap_started_at

abbrev pub as_it_is : Entries → Entries
as_it_is es = es

AllHeld-zero :
    (next s : ℕ) (es : Entries)
    → distance next s ≡ 0
    → AllHeld (λ q. distance next s ≤ distance next (sequence_of q)) es
AllHeld-zero next s [] e = tt
AllHeld-zero next s (none ∷ es) e = AllHeld-zero next s es e
AllHeld-zero next s (some q ∷ es) e = (omega arith, AllHeld-zero next s es e)

take_out-Counted :
    (r : Reorderer) (i next : ℕ) (p : Packet)
    → Counted r
    → get_elem? r.entries i ≡ some (some p)
    → Counted (take_out r i next)
take_out-Counted r i next p c e = omega (arith, length-held-set-none r.entries i p e)

module _ (r : Reorderer) (p : Packet) (k next : ℕ) (counted : Counted r)
    (at : get_elem? r.entries k ≡ some (some p)) (follows : next ≡ after_sequence (sequence_of p))
    (least : AllHeld
      (λ q. distance r.next (sequence_of p) ≤ distance r.next (sequence_of q))
      r.entries) where
  -- One packet out, and then the rest.
  pub Left-cons :
      {r' : Reorderer} {ps : List Packet}
      → Left (take_out r k next) as_it_is as_it_is r' ps
      → Left r as_it_is as_it_is r' (p ∷ ps)
  Left-cons {r'} {ps} l = record {
    emits =
        emit k p at least
          (subst (λ n. Emits n (set r.entries k none) ps r'.next r'.entries) follows l.emits);
    counted = l.counted;
    config_eq = l.config_eq;
    size_eq = l.size_eq ∙ length-set r.entries k none;
    gap_eq = l.gap_eq;
  }

pub Left-done : (r : Reorderer) → Counted r → Left r as_it_is as_it_is r []
Left-done r c = record {
  emits = done;
  counted = c;
  config_eq = refl;
  size_eq = refl;
  gap_eq = refl;
}

-- What `drainContiguous` leaves: no packet that is next.
pub record Drained (r : Reorderer) (out : Reorderer × List Packet) : Type 0 where
  pub left : Left r as_it_is as_it_is out.0 out.1
  pub consecutive : Consecutive r.next out.1
  pub none_next : AllHeld (λ p. (sequence_of p == out.0.next) ≡ false) out.0.entries

pub empty-AllHeld {ℓ} : (P : Packet → Type ℓ) (es : Entries) → length (held es) ≡ 0 → AllHeld P es
empty-AllHeld P [] h = tt
empty-AllHeld P (none ∷ es) h = empty-AllHeld P es h
empty-AllHeld P (some p ∷ es) h = absurd (omega arith)

pub drain_loop-Drained :
    (fuel : ℕ) (r : Reorderer)
    → r.next < sequence_space
    → Counted r
    → r.count ≤ fuel
    → Drained r (drain_loop fuel r)
unfolding drain_loop
drain_loop-Drained zero r n c h = record {
  left = Left-done r c;
  consecutive = tt;
  none_next = empty-AllHeld _ r.entries (omega arith);
}
drain_loop-Drained (suc fuel) r n c h = elim (Option-cases (find_from 0 r.next r.entries)) [
  | inl e ↦
      rw (e, drain_loop)
        (record {
          left = Left-done r c;
          consecutive = tt;
          none_next = find_from-none r.entries 0 r.next e;
        })
  | inr ((i, p), e) ↦
      let (k, ik, at, same) = find_from_lem r.entries 0 r.next i p e in
      let at_i : get_elem? r.entries i ≡ some (some p) =
        subst (λ x. get_elem? r.entries x ≡ some (some p)) {x = k} {y = i} (omega arith) at in
      let counted = take_out-Counted r i (after_sequence r.next) p c at_i in
      let d =
        drain_loop-Drained fuel (take_out r i (after_sequence r.next)) (omega arith) counted
          (omega arith) in
      rw (e, drain_loop)
        (record {
          left =
              Left-cons r p i (after_sequence r.next) c at_i (ap after_sequence (sym same))
                (AllHeld-zero r.next (sequence_of p) r.entries (omega arith)) d.left;
          consecutive = (same, d.consecutive);
          none_next = d.none_next;
        })
]

closest_eq :
    (r : Reorderer) (i : ℕ) (p : Packet)
    → closest_from r.next 0 none r.entries ≡ some (i, p)
    → closest_ahead r ≡ some (i, p)
unfolding closest_ahead
closest_eq r i p e = e

-- What `flush` does: all held packets go out.
pub record Flushed (r : Reorderer) (out : Option (Reorderer × List Packet)) : Type 0 where
  pub rest : Reorderer
  pub packets : List Packet
  pub out_eq : out ≡ some (rest, packets)
  pub left : Left r as_it_is as_it_is rest packets
  pub empty : rest.count ≡ 0

pub flush_loop-Flushed :
    (fuel : ℕ) (r : Reorderer) → Counted r → r.count ≤ fuel → Flushed r (flush_loop fuel r)
unfolding flush_loop
flush_loop-Flushed zero r c h = record {
  rest = r;
  packets = [];
  out_eq = ground arith;
  left = Left-done r c;
  empty = omega arith;
}
flush_loop-Flushed (suc fuel) r c h = elim (Bool-cases (r.count == 0)) [
  | inl none_left ↦ record {
    rest = r;
    packets = [];
    out_eq = rw (none_left, flush_loop);
    left = Left-done r c;
    empty = ground arith;
  }
  | inr some_left ↦
      let n = closest_from-Nearest r.entries r.next 0 (ground arith) in
      let (k, ik, at) = n.stands in
      let at_i : get_elem? r.entries n.index ≡ some (some n.packet) =
        subst (λ x. get_elem? r.entries x ≡ some (some n.packet)) {x = k} {y = n.index}
          (omega arith) at in
      let counted =
        take_out-Counted r n.index (after_sequence (sequence_of n.packet)) n.packet c at_i in
      let f =
        flush_loop-Flushed fuel (take_out r n.index (after_sequence (sequence_of n.packet))) counted
          (omega arith) in
      record {
        rest = f.rest;
        packets = n.packet ∷ f.packets;
        out_eq = rw (some_left, closest_eq r n.index n.packet n.out_eq, flush_loop, f.out_eq);
        left = Left-cons r n.packet n.index _ c at_i refl n.least f.left;
        empty = f.empty;
      }
]

Emits-none :
    {next next' : ℕ} {es es' : Entries} {ps : List Packet}
    → Emits next es ps next' es'
    → Emits next (none ∷ es) ps next' (none ∷ es')
Emits-none done = done
Emits-none (emit k p at least rest) = emit (suc k) p at least (Emits-none rest)

closest_none : (r : Reorderer) → length (held r.entries) ≡ 0 → closest_ahead r ≡ none
unfolding closest_ahead
closest_none r h = closest_from-empty r.entries r.next 0 h

closer-AllHeld :
    (next : ℕ) (v p : Packet) (es : Entries)
    → distance next (sequence_of v) < distance next (sequence_of p)
    → AllHeld (λ q. distance next (sequence_of p) ≤ distance next (sequence_of q)) es
    → AllHeld (λ q. distance next (sequence_of v) ≤ distance next (sequence_of q)) es
closer-AllHeld next v p es h a = AllHeld-zip _ _ _ es (λ q x y. omega arith) a a

-- What `flushIncluding` does: all held packets go out, and the incoming packet among them.
pub record FlushedWith (r : Reorderer) (v : Packet) (out : Option (Reorderer × List Packet))
    : Type 0 where
  pub rest : Reorderer
  pub packets : List Packet
  pub out_eq : out ≡ some (rest, packets)
  pub left : Left r (◌∷◌ (some v)) (◌∷◌ none) rest packets
  pub empty : rest.count ≡ 0

held_step :
    (fuel : ℕ) (r : Reorderer) (v : Packet) (i : ℕ) (p : Packet) {r' : Reorderer} {ps : List Packet}
    → closest_ahead r ≡ some (i, p)
    → virtual_first r.next v (closest_ahead r) ≡ false
    → flush_including_loop fuel (take_out r i (after_sequence (sequence_of p))) v ≡ some (r', ps)
    → flush_including_loop (suc fuel) r v ≡ some (r', p ∷ ps)
unfolding flush_including_loop
held_step fuel r v i p e later f = ground arith

module _ (r : Reorderer) (v : Packet) (c : Counted r) where
  -- The incoming packet is the closest.
  virtual-FlushedWith :
      (fuel : ℕ)
      → r.count ≤ fuel
      → virtual_first r.next v (closest_ahead r) ≡ true
      → AllHeld (λ q. distance r.next (sequence_of v) ≤ distance r.next (sequence_of q)) r.entries
      → FlushedWith r v (flush_including_loop (suc fuel) r v)
  unfolding flush_including_loop
  virtual-FlushedWith fuel h first least =
      let f = flush_loop-Flushed fuel (record r { next = after_sequence (sequence_of v) }) c h in
      record {
        rest = f.rest;
        packets = v ∷ f.packets;
        out_eq = rw (first, flush_including_loop, f.out_eq);
        left = record {
          emits = emit 0 v refl (omega arith, least) (Emits-none f.left.emits);
          counted = f.left.counted;
          config_eq = f.left.config_eq;
          size_eq = f.left.size_eq;
          gap_eq = f.left.gap_eq;
        };
        empty = f.empty;
      }

  -- A held packet is.
  held-FlushedWith :
      (fuel i : ℕ) (p : Packet)
      → closest_ahead r ≡ some (i, p)
      → virtual_first r.next v (some (i, p)) ≡ false
      → get_elem? r.entries i ≡ some (some p)
      → AllHeld (λ q. distance r.next (sequence_of p) ≤ distance r.next (sequence_of q)) r.entries
      → FlushedWith
          (take_out r i (after_sequence (sequence_of p)))
          v
          (flush_including_loop fuel (take_out r i (after_sequence (sequence_of p))) v)
      → FlushedWith r v (flush_including_loop (suc fuel) r v)
  unfolding flush_including_loop
  held-FlushedWith fuel i p e later at least f = record {
    rest = f.rest;
    packets = p ∷ f.packets;
    out_eq = held_step fuel r v i p e (rw e later) f.out_eq;
    left = record {
      emits = emit (suc i) p at (ground arith, least) f.left.emits;
      counted = f.left.counted;
      config_eq = f.left.config_eq;
      size_eq = f.left.size_eq ∙ length-set r.entries i none;
      gap_eq = f.left.gap_eq;
    };
    empty = f.empty;
  }

pub flush_including_loop-FlushedWith :
    (fuel : ℕ) (r : Reorderer) (v : Packet)
    → Counted r
    → r.count < fuel
    → FlushedWith r v (flush_including_loop fuel r v)
flush_including_loop-FlushedWith zero r v c h = absurd (omega arith)
flush_including_loop-FlushedWith (suc fuel) r v c h = elim (Bool-cases (r.count == 0)) [
  | inl none_left ↦
      let nothing : length (held r.entries) ≡ 0 = ground arith in
      let e = closest_none r nothing in
      virtual-FlushedWith r v c fuel (omega arith) (rw (e, virtual_first))
        (empty-AllHeld _ r.entries nothing)
  | inr some_left ↦
      let n = closest_from-Nearest r.entries r.next 0 (ground arith) in
      let (k, ik, at) = n.stands in
      let at_i : get_elem? r.entries n.index ≡ some (some n.packet) =
        subst (λ x. get_elem? r.entries x ≡ some (some n.packet)) {x = k} {y = n.index}
          (omega arith) at in
      let e = closest_eq r n.index n.packet n.out_eq in
      elim (Bool-cases (virtual_first r.next v (some (n.index, n.packet)))) [
        | inl first ↦
            virtual-FlushedWith r v c fuel (omega arith) (rw (e, virtual_first) first)
              (closer-AllHeld r.next v n.packet r.entries (ltb→lt _ _ first) n.least)
        | inr later ↦ held-FlushedWith r v c fuel n.index n.packet e later at_i n.least (
            flush_including_loop-FlushedWith fuel
              (take_out r n.index (after_sequence (sequence_of n.packet))) v
              (take_out-Counted r n.index (after_sequence (sequence_of n.packet)) n.packet c at_i)
              (ground arith))
      ]
]
