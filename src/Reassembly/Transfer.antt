-- ===== src/Reassembly/Transfer.antt =====
-- internal/core/fragment and internal/core/reassembly together, from the arrival of the first fragment on.
use wg_frag_go.Common.{
  ℕ, ◌+◌, ◌-◌, ◌%◌, ◌≤◌, ◌<◌, ◌≡◌, sym, ap, ◌∙◌, inr, List, [], ◌∷◌, Result, ok, length, pos_part,
  arith, subst,
}
use wg_frag_go.Carrier.Record.{Record}
use wg_frag_go.Fragment.{Metadata, Options, SplitResult, split}
use wg_frag_go.Fragment.Split.{split-Cut}
use wg_frag_go.Reassembly.{Key, Packet, Reassembler, Fault, ReassemblyError}
use wg_frag_go.Reassembly.Index.{slot_at, uint64_mod}
use wg_frag_go.Reassembly.Accept.{Outcome, all_present}
use wg_frag_go.Reassembly.Serve.{whole}
use wg_frag_go.Reassembly.Reassemble.{Arrivals, Arrives, accept_all, packets, AllOk}
use wg_frag_go.Reassembly.FromSplit.{
  start_of, IsOneOf, AllFrom, KeyOf, split-IsCut, fragment-IsPieceFor, split-Reassembles,
}
use wg_frag_go.Reassembly.Start.{HasRoom, ready, ready-Serves, at_ready, accept_first, none_present}

-- Calls that all succeed and hand out one packet.
pub record Transfers (expected : Packet)
    (out : Result Fault (Reassembler × List (Result ReassemblyError Outcome))) : Type 0 where
  pub rest : Reassembler
  pub results : List (Result ReassemblyError Outcome)
  pub out_eq : out ≡ ok (rest, results)
  pub all_ok : AllOk results
  pub packets_eq : packets results ≡ expected ∷ []

-- Let `Split` cut a packet, and let its key be unknown to a reassembler that has room for it. Let any fragment arrive at
-- `now`, and others before the lifetime is over, in any order and as often as they may, each of the fragments at least
-- once in all. Then every call succeeds, and exactly one of them hands out a packet: the one that was cut, under the key,
-- in the slot that was free, with the slot's next generation.
pub split-Transfers :
    (packet : List ℕ) (m : Metadata) (options : Options) (n : ℕ) (cut : SplitResult) (k : Key)
    (i : ℕ) (r : Reassembler) (now : ℕ) (f : Record) (es : Arrivals)
    → split packet m options n ≡ ok cut
    → KeyOf m k
    → HasRoom (length packet) k i r
    → IsOneOf cut.fragments f
    → AllFrom cut.fragments (now + r.config.lifetime) es
    → ((j : ℕ) → j < length cut.fragments → Arrives j ((now, f) ∷ es))
    → Transfers
        (record {
          handle = record { index = i; generation = ((slot_at r i).generation + 1) % uint64_mod };
          key = k;
          content = packet;
        })
        (accept_all r k ((now, f) ∷ es))
unfolding accept_all
split-Transfers packet m options n cut k i r now f es e same v one all every =
    let count = length cut.fragments in
    let pos : 1 ≤ count = omega (arith, one.1) in
    let pieces = split-IsCut packet m options n cut e pos in
    let covers = (split-Cut packet m options n cut e).covers in
    let piece =
      fragment-IsPieceFor packet m (pos_part options.carrier_payload - 12) cut.fragments covers k
        same f one in
    let r1 = ready r now k i count (length packet) v in
    let at = at_ready r now k i count (length packet) v in
    let serves =
      ready-Serves r now k i count (length packet) v packet (start_of cut.fragments) pieces
        (omega arith) in
    let deadline : now + r.config.lifetime ≡ (slot_at r1 i).first_seen + r1.config.lifetime =
      ap (λ s. s.first_seen + r.config.lifetime) (sym at) in
    let early = v.lives in
    let out =
      split-Reassembles packet m options n cut k i r1 ((now, f) ∷ es) e same serves
        (ap (λ s. all_present count s.present) at ∙ none_present count pos)
        (omega (arith, early, deadline), one, subst (λ d. AllFrom cut.fragments d es) deadline all)
        (λ j l. inr (every j l)) in
    record {
      rest = out.0.rest;
      results = out.0.results;
      out_eq =
          rw
            (accept_first r now k i count (length packet) v packet (start_of cut.fragments) pieces
              (omega arith) f piece)
            out.0.out_eq;
      all_ok = out.0.all_ok;
      packets_eq = out.1 ∙ ap (λ s. whole i s packet ∷ []) at;
    }
