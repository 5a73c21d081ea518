-- ===== src/Packetizer/Add.antt =====
-- packetizer.go: the loop of `Add`, and `Add` as a whole.
use wg_frag_go.Common.{
  ◌*◌, ℕ, suc, ◌+◌, ◌-◌, ◌≤◌, ◌<◌, ◌≡◌, refl, sym, ap, ◌∙◌, inl, inr, true, false, List, [], ◌∷◌,
  ◌++◌, map, concat, append_assoc, append-nil, Option, none, ok, ltb, ◌==◌, length, pos, arith,
  Bool-cases, subst, not, ◌&&◌,
}
use wg_frag_go.Carrier.Record.{Record}
use wg_frag_go.Carrier.Record.Stream.{IsRecord, AllRecords, encode_all}
use wg_frag_go.Fragment.{Metadata, SplitResult, split}
use wg_frag_go.Fragment.Cover.{IsMetadata, Covers}
use wg_frag_go.Fragment.Split.{split-Cut, split_iff, in_range}
use wg_frag_go.Packetizer.{
  Packetizer, pending, flush, append_record, write_one, write_all, add, split_for, After,
}
use wg_frag_go.Packetizer.Pack.{
  Ready, AllFit, AllFit-append, Emitter, Packs, flush-Packs, append_record-Packs,
}

concat-append : (gs hs : List (List Record)) → concat (gs ++ hs) ≡ concat gs ++ concat hs
concat-append [] hs = refl
concat-append (g ∷ gs) hs =
    ap (◌++◌ g) (concat-append gs hs) ∙ sym (append_assoc g (concat gs) (concat hs))

map-append :
    (gs hs : List (List Record))
    → map encode_all (gs ++ hs) ≡ map encode_all gs ++ map encode_all hs
map-append [] hs = refl
map-append (g ∷ gs) hs = ap (λ r. encode_all g ∷ r) (map-append gs hs)

-- Each record fits a carrier.
abbrev pub EachFits : ℕ → List Record → Type 0
EachFits n [] = Unit {0}
EachFits n (f ∷ fs) = (12 + length f.content ≤ n) × EachFits n fs

module _ {ℓ κ} {S : Type ℓ} {E : Type κ} (emit : S → List ℕ → S × Option E)
    (em : Emitter emit) where
  Packs-trans :
      (p : Packetizer) (s : S) (before more more' : List Record) {out out' : After emit}
      → (k : Packs emit em p s before more out)
      → Packs emit em k.packetizer k.state k.left more' out'
      → Packs emit em p s before (more ++ more') out'
  Packs-trans p s before more more' k l = record {
    packetizer = l.packetizer;
    state = l.state;
    out_eq = l.out_eq;
    ready = l.ready;
    config_eq = l.config_eq ∙ k.config_eq;
    size_eq = l.size_eq ∙ k.size_eq;
    groups = k.groups ++ l.groups;
    left = l.left;
    payloads_eq =
        l.payloads_eq
        ∙ ap (λ x. x ++ map encode_all l.groups) k.payloads_eq
        ∙ append_assoc (em.payloads s) (map encode_all k.groups) (map encode_all l.groups)
        ∙ ap (◌++◌ (em.payloads s)) (sym (map-append k.groups l.groups));
    pending_eq = l.pending_eq;
    records_eq =
        sym (append_assoc before more more')
        ∙ ap (λ x. x ++ more') k.records_eq
        ∙ append_assoc (concat k.groups) k.left more'
        ∙ ap (◌++◌ (concat k.groups)) l.records_eq
        ∙ sym (append_assoc (concat k.groups) (concat l.groups) l.left)
        ∙ ap (λ x. x ++ l.left) (sym (concat-append k.groups l.groups));
    fit =
        AllFit-append (length p.buffer) k.groups l.groups k.fit
          (subst (λ n. AllFit n l.groups) k.size_eq l.fit);
  }

  flushed_write_one :
      (p p1 : Packetizer) (s s1 : S) (f : Record)
      → ltb (length p.buffer - p.used) (12 + length f.content) ≡ true
      → flush emit p s ≡ ((p1, s1), none)
      → write_one emit p s f ≡ append_record emit p1 s1 f
  unfolding write_one
  flushed_write_one p p1 s s1 f full e = ground arith

  next_write_all :
      (p p1 : Packetizer) (s s1 : S) (f : Record) (fs : List Record)
      → write_one emit p s f ≡ ((p1, s1), none)
      → write_all emit p s (f ∷ fs) ≡ write_all emit p1 s1 fs
  unfolding write_all
  next_write_all p p1 s s1 f fs e = ground arith

  write_one-Packs :
      (p : Packetizer) (s : S) (before : List Record) (f : Record)
      → Ready p
      → pending p ≡ encode_all before
      → IsRecord f
      → 12 + length f.content ≤ length p.buffer
      → Packs emit em p s before (f ∷ []) (write_one emit p s f)
  unfolding write_one
  write_one-Packs p s before f r e v fits =
      elim (Bool-cases (ltb (length p.buffer - p.used) (12 + length f.content))) [
        | inr room ↦
            rw room (append_record-Packs emit em p s before f r e v (ground (arith, r.used_le)))
        | inl full ↦
            let (k, empty) = flush-Packs emit em p s before r e in
            subst (Packs emit em p s before (f ∷ []))
              (sym (flushed_write_one p k.packetizer s k.state f full k.out_eq))
              (Packs-trans p s before [] (f ∷ []) k (
                append_record-Packs emit em k.packetizer k.state k.left f k.ready k.pending_eq v
                  (omega (arith, k.size_eq, empty))))
      ]

  pub write_all-Packs :
      (p : Packetizer) (s : S) (before fs : List Record)
      → Ready p
      → pending p ≡ encode_all before
      → AllRecords fs
      → EachFits (length p.buffer) fs
      → Packs emit em p s before fs (write_all emit p s fs)
  unfolding write_all
  write_all-Packs p s before [] r e vs fits = record {
    packetizer = p;
    state = s;
    out_eq = refl;
    ready = r;
    config_eq = refl;
    size_eq = refl;
    groups = [];
    left = before;
    payloads_eq = sym (append-nil (em.payloads s));
    pending_eq = e;
    records_eq = append-nil before;
    fit = tt;
  }
  write_all-Packs p s before (f ∷ fs) r e vs fits =
      let k = write_one-Packs p s before f r e vs.0 fits.0 in
      subst (Packs emit em p s before (f ∷ fs))
        (sym (next_write_all p k.packetizer s k.state f fs k.out_eq))
        (Packs-trans p s before (f ∷ []) fs k (
          write_all-Packs k.packetizer k.state k.left fs k.ready k.pending_eq vs.1
            (subst (λ n. EachFits n fs) (sym k.size_eq) fits.1)))

-- The records of one packet, each of which fits a carrier of `n` bytes.
pub record IsCut (n : ℕ) (packet : List ℕ) (fs : List Record) : Type 0 where
  pub whole : concat (map (λ f. f.content) fs) ≡ packet
  pub records : AllRecords fs
  pub fits : EachFits n fs
  pub count_le : length fs ≤ 16

EachFits-Covers :
    (n : ℕ) (packet : List ℕ) (m : Metadata) (count i offset : ℕ) (fs : List Record)
    → 12 < n
    → Covers packet m count (n - 12) i offset fs
    → EachFits n fs
EachFits-Covers n packet m count i offset [] h c = tt
EachFits-Covers n packet m count i offset (f ∷ fs) h (p, c) = (
  omega (arith, p.small),
  EachFits-Covers n packet m count (i + 1) (offset + length f.content) fs h c,
)

-- The condition on a call of `Add`, for the size of a carrier.
pub record Packable (n : ℕ) (packet : List ℕ) (m : Metadata) : Type 0 where
  pub nonempty : 1 ≤ length packet
  pub len_le : length packet ≤ 9612
  pub metadata : IsMetadata m
  pub few : length packet ≤ 16 * (n - 12)

module _ (p : Packetizer) (packet : List ℕ) (m : Metadata) (r : Ready p) (k : ℕ)
    (pack : p.config.min_pack ≡ pos (suc k)) (ok_packet : Packable (length p.buffer) packet m) where
  split_for_eq :
      (remaining : ℕ)
      → split_for p packet m remaining
        ≡ split packet m (in_range packet m (length p.buffer) remaining (suc k)) 16
  split_for_eq remaining = rw (r.payload_eq, pack)

  split_for_total :
      (remaining : ℕ)
      → remaining ≤ length p.buffer
      → (out : SplitResult) × (split_for p packet m remaining ≡ ok out)
        × IsCut (length p.buffer) packet out.fragments
  split_for_total remaining h =
      let q = ok_packet in
      let (out, e) =
        (split_iff packet m (length p.buffer) remaining (suc k) q.nonempty q.len_le
            q.metadata.session_pos r.size_gt r.size_le h (omega arith)).1
          q.few in
      let c = split-Cut packet m _ 16 out e in
      (
        out,
        split_for_eq remaining ∙ e,
        record {
          whole = c.whole;
          records = c.records q.metadata;
          fits = EachFits-Covers (length p.buffer) packet m _ 0 0 out.fragments r.size_gt c.covers;
          count_le = c.count_le;
        },
      )

module _ {ℓ κ} {S : Type ℓ} {E : Type κ} (emit : S → List ℕ → S × Option E) where
  module _ (p : Packetizer) (s : S) (packet : List ℕ) (m : Metadata) (valid : p.valid ≡ true) where
    -- `Add` into the tail, or into an empty carrier.
    add_here :
        (out : SplitResult)
        → split_for p packet m (length p.buffer - p.used) ≡ ok out
        → (not out.start_in_tail && not (p.used == 0)) ≡ false
        → add emit p s packet m ≡ write_all emit p s out.fragments
    unfolding add
    add_here out e here = ground arith

    -- `Add` after a flush.
    add_flushed :
        (out out1 : SplitResult) (p1 : Packetizer) (s1 : S)
        → split_for p packet m (length p.buffer - p.used) ≡ ok out
        → (not out.start_in_tail && not (p.used == 0)) ≡ true
        → flush emit p s ≡ ((p1, s1), none)
        → split_for p1 packet m (length p1.buffer) ≡ ok out1
        → add emit p s packet m ≡ write_all emit p1 s1 out1.fragments
    unfolding add
    add_flushed out out1 p1 s1 e away f e1 = ground arith

module _ {ℓ κ} {S : Type ℓ} {E : Type κ} (emit : S → List ℕ → S × Option E)
    (em : Emitter emit) where
  -- With an emitter that does not fail, `Add` packs every packet that sixteen records of a carrier hold, without an
  -- error. The packet is cut into records; the payloads emitted in the call, each of at most the carrier's size, and the
  -- bytes then pending are the encodings of the records that were pending and the new ones, all of them, in order.
  pub add-Packs :
      (p : Packetizer) (s : S) (before : List Record) (packet : List ℕ) (m : Metadata) (k : ℕ)
      → Ready p
      → p.config.min_pack ≡ pos (suc k)
      → pending p ≡ encode_all before
      → Packable (length p.buffer) packet m
      → (fs : List Record) × IsCut (length p.buffer) packet fs
        × Packs emit em p s before fs (add emit p s packet m)
  add-Packs p s before packet m k r pack e okp =
      let (out, split_ok, cut) =
        split_for_total p packet m r k pack okp (length p.buffer - p.used) (omega arith) in
      elim (Bool-cases (not out.start_in_tail && not (p.used == 0))) [
        | inr here ↦ (
          out.fragments,
          cut,
          subst (Packs emit em p s before out.fragments)
              (sym (add_here emit p s packet m r.valid out split_ok here))
              (write_all-Packs emit em p s before out.fragments r e cut.records cut.fits),
        )
        | inl away ↦
            let (f, empty) = flush-Packs emit em p s before r e in
            let okf = subst (λ n. Packable n packet m) (sym f.size_eq) okp in
            let (out1, split_ok1, cut1) =
              split_for_total f.packetizer packet m f.ready k
                (ap (λ c. c.min_pack) f.config_eq ∙ pack) okf (length f.packetizer.buffer)
                (omega arith) in
            (
              out1.fragments,
              subst (λ n. IsCut n packet out1.fragments) f.size_eq cut1,
              subst (Packs emit em p s before out1.fragments)
                  (sym (
                    add_flushed emit p s packet m r.valid out out1 f.packetizer f.state split_ok
                      away f.out_eq split_ok1))
                  (Packs-trans emit em p s before [] out1.fragments f (
                    write_all-Packs emit em f.packetizer f.state f.left out1.fragments f.ready
                      f.pending_eq cut1.records cut1.fits)),
            )
      ]
