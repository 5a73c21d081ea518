-- ===== src/Reorder/Run.antt =====
-- reorder.go: a lane's whole run, from its first packet on.
use wg_frag_go.Common.{
  append-nil, append_assoc, ◌>>=◌, ℕ, ◌+◌, ◌<◌, ◌≡◌, refl, sym, ◌∙◌, inl, inr, true, List, [], ◌∷◌,
  ◌++◌, length, arith, subst, Result, ok, err,
}
use mathlib.Core.List.{Perm, perm_middle}
use mathlib.Core.List.Perm
use wg_frag_go.Reassembly.{Packet}
use wg_frag_go.Reorder.{
  Reorderer, Config, ReorderError, sequence_space, sequence_of, held, matches_lane,
}
use wg_frag_go.Reorder.Queue.{Outcome, accept}
use wg_frag_go.Reorder.Inv.{Inv}
use wg_frag_go.Reorder.Accept.{taken}
use wg_frag_go.Reorder.Queue.{tick, flush}
use wg_frag_go.Reorder.Calls.{accept-EndsWell}
use wg_frag_go.Reorder.Flush.{Empties, tick-cases, flush-Empties}

-- A call by the receiver, with the time.
pub data Event : Type 0 where
  arrives : ℕ → Packet → Event
  ticks : ℕ → Event
  flushes : Event

-- The state after the calls, the packets that were taken, and those that were handed out.
pub record Run : Type 0 where
  pub rest : Reorderer
  pub ins : List Packet
  pub outs : List Packet

abbrev flushed_run : Result ReorderError (Reorderer × List Packet) → Result ReorderError Run
flushed_run (ok (r, ps)) = ok (record { rest = r; ins = []; outs = ps })
flushed_run (err e) = err e

abbrev accepted_run : Packet → Result ReorderError (Reorderer × Outcome) → Result ReorderError Run
accepted_run p (ok (r, o)) = ok (record { rest = r; ins = taken o.status p; outs = o.out })
accepted_run p (err e) = err e

-- Each call gets a buffer for `Capacity` + 1 packets.
unfoldable pub call : Reorderer → Event → Result ReorderError Run
call r (arrives now p) = accepted_run p (accept r now p (length r.entries + 1))
call r (ticks now) = flushed_run (tick r now (length r.entries))
call r flushes = flushed_run (flush r (length r.entries))

unfoldable pub calls : Reorderer → List Event → Result ReorderError Run
calls r [] = ok (record { rest = r; ins = []; outs = [] })
calls r (e ∷ es) = do
  first ← call r e
  rest ← calls first.rest es
  ok (record { rest = rest.rest; ins = first.ins ++ rest.ins; outs = first.outs ++ rest.outs })

-- A packet of the lane of `c`.
abbrev pub InLane : Config → Event → Type 0
InLane c (arrives now p) =
    (sequence_of p < sequence_space)
    × (p.key.peer_id ≡ c.lane.peer_id)
    × (p.key.data_session_id ≡ c.lane.data_session_id)
    × (p.key.lane_id ≡ c.lane.lane_id)
InLane c (ticks now) = Unit
InLane c flushes = Unit

abbrev pub AllInLane : Config → List Event → Type 0
AllInLane c [] = Unit
AllInLane c (e ∷ es) = InLane c e × AllInLane c es

-- A run that ends well.
pub record Conserves (r : Reorderer) (out : Result ReorderError Run) : Type 0 where
  pub run : Run
  pub out_eq : out ≡ ok run
  pub inv : Inv run.rest
  pub config_eq : run.rest.config ≡ r.config
  pub size_eq : length run.rest.entries ≡ length r.entries
  pub perm : Perm (run.ins ++ held r.entries) (run.outs ++ held run.rest.entries)

in_lane :
    (r : Reorderer) (now : ℕ) (p : Packet)
    → Inv r
    → InLane r.config (arrives now p)
    → matches_lane r p ≡ true
unfolding matches_lane
in_lane r now p v i = let enabled = v.enabled in ground arith

emptied-Conserves :
    (r : Reorderer) (out : Result ReorderError (Reorderer × List Packet))
    → Empties r out
    → Conserves r (flushed_run out)
emptied-Conserves r out (rest, ps, e, em) = record {
  run = record { rest = rest; ins = []; outs = ps };
  out_eq = rw e;
  inv = em.inv;
  config_eq = em.config_eq;
  size_eq = em.size_eq;
  perm = rw (em.nothing, append-nil ps) em.perm;
}

call-Conserves : (r : Reorderer) (e : Event) → Inv r → InLane r.config e → Conserves r (call r e)
unfolding call
call-Conserves r (arrives now p) v i =
    let (rest, o, eq, a) =
      accept-EndsWell r now p (length r.entries + 1) v (in_lane r now p v i) (ground arith) i.0 in
    record {
      run = record { rest = rest; ins = taken o.status p; outs = o.out };
      out_eq = rw eq;
      inv = a.inv;
      config_eq = a.config_eq;
      size_eq = a.size_eq;
      perm = a.kept;
    }
call-Conserves r (ticks now) v i = elim (tick-cases r now (length r.entries) v (omega arith)) [
  | inl (due, em) ↦ emptied-Conserves r _ em
  | inr (early, e) ↦ record {
    run = record { rest = r; ins = []; outs = [] };
    out_eq = rw e;
    inv = v;
    config_eq = refl;
    size_eq = refl;
    perm = Perm.refl (held r.entries);
  }
]
call-Conserves r flushes v i =
    emptied-Conserves r _ (flush-Empties r (length r.entries) v (omega arith))

Perm-swap_front : (xs ys zs : List Packet) → Perm (xs ++ (ys ++ zs)) (ys ++ (xs ++ zs))
Perm-swap_front [] ys zs = Perm.refl (ys ++ zs)
Perm-swap_front (x ∷ xs) ys zs =
    Perm.trans (Perm.cons x (Perm-swap_front xs ys zs)) (Perm.symm (perm_middle ys (xs ++ zs)))

Perm-chain :
    (ins ins' outs outs' before middle after : List Packet)
    → Perm (ins ++ before) (outs ++ middle)
    → Perm (ins' ++ middle) (outs' ++ after)
    → Perm ((ins ++ ins') ++ before) ((outs ++ outs') ++ after)
Perm-chain ins ins' outs outs' before middle after p q =
    rw (append_assoc ins ins' before, append_assoc outs outs' after)
      (Perm.trans (Perm-swap_front ins ins' before) (
        Perm.trans (Perm.append_left ins' p)
          (Perm.trans (Perm-swap_front ins' outs middle) (Perm.append_left outs q))))

-- From a well-formed reorderer, any sequence of calls of `Accept`, `Tick` and `Flush` with packets of
-- its lane, whatever their sequences and times, runs to its end without an error or a panic when each
-- call has a large enough buffer. The state stays well-formed, and no packet that is taken is lost,
-- made up or handed out twice: the packets handed out and those still held are, up to order, those
-- held at first and those taken.
pub calls-Conserves :
    (r : Reorderer) (es : List Event) → Inv r → AllInLane r.config es → Conserves r (calls r es)
unfolding calls
calls-Conserves r [] v i = record {
  run = record { rest = r; ins = []; outs = [] };
  out_eq = refl;
  inv = v;
  config_eq = refl;
  size_eq = refl;
  perm = Perm.refl (held r.entries);
}
calls-Conserves r (e ∷ es) v i =
    let a = call-Conserves r e v i.0 in
    let b =
      calls-Conserves a.run.rest es a.inv (subst (λ c. AllInLane c es) (sym a.config_eq) i.1) in
    record {
      run = record {
        rest = b.run.rest;
        ins = a.run.ins ++ b.run.ins;
        outs = a.run.outs ++ b.run.outs;
      };
      out_eq = rw (a.out_eq, calls, b.out_eq);
      inv = b.inv;
      config_eq = b.config_eq ∙ a.config_eq;
      size_eq = b.size_eq ∙ a.size_eq;
      perm = Perm-chain a.run.ins b.run.ins a.run.outs b.run.outs _ _ _ a.perm b.perm;
    }
