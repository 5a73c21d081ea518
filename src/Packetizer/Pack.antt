-- ===== src/Packetizer/Pack.antt =====
-- packetizer.go: what is emitted and what is pending are the records, in order.
use wg_frag_go.Common.{
  ℕ, ◌+◌, ◌≤◌, ◌<◌, ◌≡◌, refl, sym, ap, ◌∙◌, inl, inr, true, false, List, [], ◌∷◌, ◌++◌, map,
  concat, append_assoc, append-nil, Option, none, ◌==◌, length, take, drop, pos, arith, Bool-cases,
  length-append, length-take, length-drop, take-append_self,
}
use wg_frag_go.Carrier.Record.{Record}
use wg_frag_go.Carrier.Record.RoundTrip.{encode, length-encode, marshal_to_lem}
use wg_frag_go.Carrier.Record.Stream.{IsRecord, encode_all}
use wg_frag_go.Packetizer.{Packetizer, pending, flush, append_record, After}

-- A packetizer after `Init`.
pub record Ready (p : Packetizer) : Type 0 where
  pub valid : p.valid ≡ true
  pub used_le : p.used ≤ length p.buffer
  pub payload_eq : p.config.carrier_payload ≡ pos (length p.buffer)
  pub size_gt : 12 < length p.buffer
  pub size_le : length p.buffer ≤ 65535

-- Each payload fits a carrier.
abbrev pub AllFit : ℕ → List (List Record) → Type 0
AllFit n [] = Unit
AllFit n (g ∷ gs) = (length (encode_all g) ≤ n) × AllFit n gs

pub AllFit-append :
    (n : ℕ) (gs hs : List (List Record)) → AllFit n gs → AllFit n hs → AllFit n (gs ++ hs)
AllFit-append n [] hs a b = b
AllFit-append n (g ∷ gs) hs a b = (a.0, AllFit-append n gs hs a.1 b)

-- An emitter that never fails, of which `payloads` keeps what it was given.
pub record Emitter {ℓ κ} {S : Type ℓ} {E : Type κ} (emit : S → List ℕ → S × Option E)
    : Type (ℓ ⊔ κ) where
  pub payloads : S → List (List ℕ)
  pub accepts : (s : S) (x : List ℕ) → (emit s x).1 ≡ none
  pub keeps : (s : S) (x : List ℕ) → payloads (emit s x).0 ≡ payloads s ++ (x ∷ [])

encode_all-append : (rs ts : List Record) → encode_all (rs ++ ts) ≡ encode_all rs ++ encode_all ts
encode_all-append [] ts = refl
encode_all-append (r ∷ rs) ts =
    ap (λ k. encode r.header r.content ++ k) (encode_all-append rs ts)
    ∙ sym (append_assoc (encode r.header r.content) (encode_all rs) (encode_all ts))

module _ (p : Packetizer) (f : Record) (r : Ready p)
    (room : p.used + (12 + length f.content) ≤ length p.buffer) where
  -- The buffer after one more record.
  abbrev longer : Packetizer
  longer = record p {
    buffer =
        pending p
        ++ (encode f.header f.content ++ drop (12 + length f.content) (drop p.used p.buffer));
    used = p.used + (12 + length f.content);
  }

  length-pending : length (pending p) ≡ p.used
  length-pending = omega (arith, length-take p.used p.buffer, r.used_le)

  longer_size : length longer.buffer ≡ length p.buffer
  longer_size = omega (
    arith,
    length-append (pending p)
        (encode f.header f.content ++ drop (12 + length f.content) (drop p.used p.buffer)),
    length-append (encode f.header f.content) (drop (12 + length f.content) (drop p.used p.buffer)),
    length-encode f.header f.content,
    length-drop (12 + length f.content) (drop p.used p.buffer),
    length-drop p.used p.buffer,
    length-pending,
  )

  pending-longer : pending longer ≡ pending p ++ encode f.header f.content
  pending-longer =
      ap (take (p.used + (12 + length f.content))) (
        sym (
          append_assoc (pending p) (encode f.header f.content)
            (drop (12 + length f.content) (drop p.used p.buffer))))
      ∙ take-append_self (p.used + (12 + length f.content)) (pending p ++ encode f.header f.content)
          _
          (omega (
            arith,
            length-append (pending p) (encode f.header f.content),
            length-encode f.header f.content,
            length-pending,
          ))

  longer-Ready : Ready longer
  longer-Ready = record {
    valid = r.valid;
    used_le = omega (arith, longer_size);
    payload_eq = r.payload_eq ∙ ap pos (sym longer_size);
    size_gt = omega (arith, longer_size, r.size_gt);
    size_le = omega (arith, longer_size, r.size_le);
  }

module _ {ℓ κ} {S : Type ℓ} {E : Type κ} (emit : S → List ℕ → S × Option E)
    (em : Emitter emit) where
  -- With the records `before` pending, and then `more`: the payloads emitted and the records left pending.
  pub record Packs (p : Packetizer) (s : S) (before more : List Record) (out : After emit)
      : Type (ℓ ⊔ κ) where
    pub packetizer : Packetizer
    pub state : S
    pub out_eq : out ≡ ((packetizer, state), none)
    pub ready : Ready packetizer
    pub config_eq : packetizer.config ≡ p.config
    pub size_eq : length packetizer.buffer ≡ length p.buffer
    pub groups : List (List Record)
    pub left : List Record
    pub payloads_eq : em.payloads state ≡ em.payloads s ++ map encode_all groups
    pub pending_eq : pending packetizer ≡ encode_all left
    pub records_eq : before ++ more ≡ concat groups ++ left
    pub fit : AllFit (length p.buffer) groups

  flushed_eq :
      (p : Packetizer) (s : S)
      → p.valid ≡ true
      → (p.used == 0) ≡ false
      → flush emit p s ≡ ((record p { used = 0 }, (emit s (pending p)).0), none)
  unfolding flush
  flushed_eq p s valid full = let accepted = em.accepts s (pending p) in ground arith

  pub flush-Packs :
      (p : Packetizer) (s : S) (before : List Record)
      → Ready p
      → pending p ≡ encode_all before
      → (k : Packs p s before [] (flush emit p s)) × (k.packetizer.used ≡ 0)
  unfolding flush
  flush-Packs p s before r e = elim (Bool-cases (p.used == 0)) [
    | inl empty ↦ (
      record {
        packetizer = p;
        state = s;
        out_eq = rw (r.valid, empty, flush);
        ready = r;
        config_eq = refl;
        size_eq = refl;
        groups = [];
        left = before;
        payloads_eq = sym (append-nil (em.payloads s));
        pending_eq = e;
        records_eq = append-nil before;
        fit = tt;
      },
      ground arith,
    )
    | inr full ↦ (
      record {
        packetizer = record p { used = 0 };
        state = (emit s (pending p)).0;
        out_eq = flushed_eq p s r.valid full;
        ready = record {
          valid = r.valid;
          used_le = omega arith;
          payload_eq = r.payload_eq;
          size_gt = r.size_gt;
          size_le = r.size_le;
        };
        config_eq = refl;
        size_eq = refl;
        groups = before ∷ [];
        left = [];
        payloads_eq = em.keeps s (pending p) ∙ ap (λ x. em.payloads s ++ (x ∷ [])) e;
        pending_eq = refl;
        records_eq = sym (append-nil (before ++ []));
        fit = (omega (arith, ap length e, length-take p.used p.buffer, r.used_le), tt);
      },
      refl,
    )
  ]

  pub append_record-Packs :
      (p : Packetizer) (s : S) (before : List Record) (f : Record)
      → Ready p
      → pending p ≡ encode_all before
      → IsRecord f
      → p.used + (12 + length f.content) ≤ length p.buffer
      → Packs p s before (f ∷ []) (append_record emit p s f)
  unfolding append_record
  append_record-Packs p s before f r e v room = record {
    packetizer = longer p f r room;
    state = s;
    out_eq = rw (
      marshal_to_lem (drop p.used p.buffer) f.header f.content v.valid
          (omega (arith, length-drop p.used p.buffer)),
      append_record,
    );
    ready = longer-Ready p f r room;
    config_eq = refl;
    size_eq = longer_size p f r room;
    groups = [];
    left = before ++ (f ∷ []);
    payloads_eq = sym (append-nil (em.payloads s));
    pending_eq =
        pending-longer p f r room
        ∙ ap (λ x. x ++ encode f.header f.content) e
        ∙ sym (
            encode_all-append before (f ∷ [])
            ∙ ap (◌++◌ (encode_all before)) (append-nil (encode f.header f.content)));
    records_eq = refl;
    fit = tt;
  }
