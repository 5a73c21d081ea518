-- ===== src/Reassembly/Reassemble.antt =====
-- reassembly.go: the pieces of one packet arrive, in any order and with repetitions.
use wg_frag_go.Common.{
  ℕ, ◌+◌, ◌<◌, ◌≡◌, refl, sym, ap, ap₂, ◌∙◌, ◌⊎◌, inl, inr, Bool, true, false, List, [], ◌∷◌, none,
  some, Result, ok, err, ◌>>=◌, length, get_or, set, get_or-set_self, get_or-set_ne, length-set,
  arith, Bool-cases,
}
use wg_frag_go.Carrier.Record.{Record}
use wg_frag_go.Reassembly.{Key, Packet, Reassembler, Fault, ReassemblyError}
use wg_frag_go.Reassembly.Index.{slot_at}
use wg_frag_go.Reassembly.Slots.{expired}
use wg_frag_go.Reassembly.Accept.{Outcome, accept, all_present}
use wg_frag_go.Reassembly.Pieces.{IsCut, same_or_not}
use wg_frag_go.Reassembly.Complete.{all_present-get_or}
use wg_frag_go.Reassembly.Serve.{Serves, IsPieceFor, Reports, arrived, whole, set_present_same}
use wg_frag_go.Reassembly.Arrival.{accept-Takes}

-- Calls of `Accept` under one key, with the time of each.
abbrev pub Arrivals : Type 0
Arrivals = List (ℕ × Record)

unfoldable pub accept_all :
    Reassembler
    → Key
    → Arrivals
    → Result Fault (Reassembler × List (Result ReassemblyError Outcome))
accept_all r k [] = ok (r, [])
accept_all r k ((now, f) ∷ es) = do
  first ← accept r now k f
  rest ← accept_all first.0 k es
  ok (rest.0, first.1 ∷ rest.1)

-- The packets that were handed out.
abbrev pub packets : List (Result ReassemblyError Outcome) → List Packet
packets [] = []
packets (err e ∷ rs) = packets rs
packets (ok o ∷ rs) = elim o.packet [ none ↦ packets rs | some p ↦ p ∷ packets rs ]

abbrev pub AllOk : List (Result ReassemblyError Outcome) → Type 0
AllOk [] = Unit
AllOk (ok o ∷ rs) = AllOk rs
AllOk (err e ∷ rs) = ⊥

-- The bits after the arrivals.
abbrev pub mark : List Bool → Arrivals → List Bool
mark bs [] = bs
mark bs ((now, f) ∷ es) = mark (set bs f.header.fragment_index true) es

module _ (packet : List ℕ) (count : ℕ) (off : ℕ → ℕ) (k : Key) (i : ℕ) where
  -- Pieces, each of which arrives before `deadline`.
  abbrev pub Timely : ℕ → Arrivals → Type 0
  Timely deadline [] = Unit
  Timely deadline ((now, f) ∷ es) =
      (now < deadline) × IsPieceFor packet count off k f × Timely deadline es

  -- The packet is handed out when it becomes complete.
  abbrev pub due : Bool → Bool → Packet → List Packet
  due true b p = []
  due false true p = p ∷ []
  due false false p = []

  due_same : (b : Bool) (p : Packet) → due b b p ≡ []
  due_same true p = refl
  due_same false p = refl

  pub record Reassembles (r : Reassembler) (es : Arrivals)
      (out : Result Fault (Reassembler × List (Result ReassemblyError Outcome))) : Type 0 where
    pub rest : Reassembler
    pub results : List (Result ReassemblyError Outcome)
    pub out_eq : out ≡ ok (rest, results)
    pub all_ok : AllOk results
    pub serves : Serves packet count off k i rest
    pub arrived_eq : arrived i rest ≡ mark (arrived i r) es
    pub packets_eq :
        packets results
        ≡ due
            (all_present count (arrived i r))
            (all_present count (mark (arrived i r) es))
            (whole i (slot_at r i) packet)

  module _ (cut : IsCut packet count off) where
    all-mark :
        (bs : List Bool) (deadline : ℕ) (es : Arrivals)
        → length bs ≡ 16
        → Timely deadline es
        → all_present count bs ≡ true
        → mark bs es ≡ bs
    all-mark bs deadline [] size t all = refl
    all-mark bs deadline ((now, f) ∷ es) size (early, p, t) all =
        let same = set_present_same bs f.header.fragment_index (
          all_present-get_or count bs f.header.fragment_index all p.piece.index_lt
            (omega (arith, p.piece.index_lt, cut.count_le))) in
        ap (λ x. mark x es) same ∙ all-mark bs deadline es size t all

    not_expired :
        (r : Reassembler) (now deadline : ℕ)
        → now < deadline
        → deadline ≡ (slot_at r i).first_seen + r.config.lifetime
        → expired r (slot_at r i) now ≡ false
    unfolding expired
    not_expired r now deadline h e = ground arith

    -- The packets of one more result, in terms of the bits before (`b`), after it (`b1`) and at the end (`b2`).
    due-cons :
        (r : Reassembler) (f : Record) (o : Outcome) (rs : List (Result ReassemblyError Outcome))
        (b2 : Bool)
        → Serves packet count off k i r
        → f.header.fragment_index < count
        → Reports packet count i r f o
        → (all_present count (set (arrived i r) f.header.fragment_index true) ≡ true → b2 ≡ true)
        → packets rs
          ≡ due
              (all_present count (set (arrived i r) f.header.fragment_index true))
              b2
              (whole i (slot_at r i) packet)
        → packets (ok o ∷ rs)
          ≡ due (all_present count (arrived i r)) b2 (whole i (slot_at r i) packet)
    due-cons r f o rs b2 v lt (ev, inl (there, status, none_out)) keeps e = rw none_out (
        e
        ∙ ap (λ bs. due (all_present count bs) b2 (whole i (slot_at r i) packet))
            (set_present_same (arrived i r) f.header.fragment_index there))
    due-cons r f o rs b2 v lt (ev, inr (gone, how)) keeps e =
        let missing : all_present count (arrived i r) ≡ false =
          elim (Bool-cases (all_present count (arrived i r))) [
            | inr x ↦ x
            | inl all ↦ absurd (
                cc (
                  all_present-get_or count (arrived i r) f.header.fragment_index all lt
                    (omega (arith, v.holds.present_size, lt, cut.count_le))))
          ] in
        elim how [
          | inl (more, status, none_out) ↦
              rw (none_out, missing) (e ∙ ap (λ b. due b b2 (whole i (slot_at r i) packet)) more)
          | inr (all, status, out) ↦
              rw (out, missing, keeps all)
                (ap (λ x. whole i (slot_at r i) packet ∷ x)
                  (e ∙ ap (λ b. due b b2 (whole i (slot_at r i) packet)) all))
        ]

    pub accept_all-Reassembles :
        (r : Reassembler) (deadline : ℕ) (es : Arrivals)
        → Serves packet count off k i r
        → deadline ≡ (slot_at r i).first_seen + r.config.lifetime
        → Timely deadline es
        → Reassembles r es (accept_all r k es)
    unfolding accept_all
    accept_all-Reassembles r deadline [] v e t = record {
      rest = r;
      results = [];
      out_eq = refl;
      all_ok = tt;
      serves = v;
      arrived_eq = refl;
      packets_eq = sym (due_same (all_present count (arrived i r)) (whole i (slot_at r i) packet));
    }
    accept_all-Reassembles r deadline ((now, f) ∷ es) v e (early, p, t) =
        let x =
          accept-Takes packet count off cut k i r v f p now (not_expired r now deadline early e) in
        let later : deadline ≡ (slot_at x.rest i).first_seen + x.rest.config.lifetime =
          e ∙ sym (ap₂ (λ a c. a + c) x.seen_eq (ap (λ c. c.lifetime) x.config_eq)) in
        let y = accept_all-Reassembles x.rest deadline es x.serves later t in
        record {
          rest = y.rest;
          results = ok x.result ∷ y.results;
          out_eq = rw (x.out_eq, accept_all, y.out_eq);
          all_ok = y.all_ok;
          serves = y.serves;
          arrived_eq = y.arrived_eq ∙ ap (λ bs. mark bs es) x.arrived_eq;
          packets_eq =
              due-cons r f x.result y.results
                (all_present count (mark (set (arrived i r) f.header.fragment_index true) es)) v
                p.piece.index_lt x.reports
                (λ all.
                  ap (all_present count) (
                    all-mark (set (arrived i r) f.header.fragment_index true) deadline es
                      (length-set (arrived i r) f.header.fragment_index true ∙ v.holds.present_size)
                      t all)
                  ∙ all)
                (y.packets_eq
                  ∙ ap₂ (λ bs w. due (all_present count bs) (all_present count (mark bs es)) w)
                      x.arrived_eq
                      (ap₂
                        (λ g key. record {
                          handle = record { index = i; generation = g };
                          key = key;
                          content = packet;
                        })
                        x.generation_eq x.key_eq));
        }

-- Does the piece with this index arrive?
abbrev pub Arrives : ℕ → Arrivals → Type 0
Arrives j [] = ⊥
Arrives j ((now, f) ∷ es) = (f.header.fragment_index ≡ j) ⊎ Arrives j es

get_or-set_present :
    (bs : List Bool) (i j : ℕ)
    → i ≡ j
    → get_or bs j false ≡ true
    → get_or (set bs i true) j false ≡ true
get_or-set_present bs i j e h =
    ap (λ x. get_or x j false) (set_present_same bs i (ap (λ n. get_or bs n false) e ∙ h)) ∙ h

pub mark-present :
    (j : ℕ) (bs : List Bool) (es : Arrivals)
    → get_or bs j false ≡ true
    → get_or (mark bs es) j false ≡ true
mark-present j bs [] h = h
mark-present j bs ((now, f) ∷ es) h =
    mark-present j (set bs f.header.fragment_index true) es
      (elim (same_or_not f.header.fragment_index j) [
        | inl e ↦ get_or-set_present bs f.header.fragment_index j e h
        | inr ne ↦ get_or-set_ne bs f.header.fragment_index j true false ne ∙ h
      ])

pub mark-Arrives :
    (j : ℕ) (bs : List Bool) (es : Arrivals)
    → j < length bs
    → Arrives j es
    → get_or (mark bs es) j false ≡ true
mark-Arrives j bs [] h a = absurd a
mark-Arrives j bs ((now, f) ∷ es) h (inl e) =
    mark-present j (set bs f.header.fragment_index true) es
      (ap (λ n. get_or (set bs n true) j false) e ∙ get_or-set_self bs j true false h)
mark-Arrives j bs ((now, f) ∷ es) h (inr a) =
    mark-Arrives j (set bs f.header.fragment_index true) es
      (omega (arith, length-set bs f.header.fragment_index true)) a
