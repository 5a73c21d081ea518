-- ===== src/PeerRoute/Insert.antt =====
-- internal/core/peerroute/allowedips.go: `insert` sets what the trie holds for one path, and nothing else.
use wg_frag_go.Common.{
  ℕ, ◌-◌, ◌<◌, ◌≡◌, ◌≢◌, refl, sym, ap, ◌∙◌, inl, inr, Bool, true, false, List, [], ◌∷◌, Option,
  none, some, Result, Result-cases, ok, ◌>>=◌, ◌==◌, length, set, arith, Bool-cases, subst,
  length-set, get_or-set_self, get_or-set_ne,
}
use wg_frag_go.PeerRoute.{
  RouteNode, RouteTrie, RouteError, blank_node, node_at, child_at, insert, insert_from,
}
use wg_frag_go.PeerRoute.Walk.{walk, peer_from, node_peer, path_from}
use wg_frag_go.PeerRoute.Grow.{IsTrie, walk-lt}
use wg_frag_go.PeerRoute.Reach.{Reaches, peer_of, insert_from-Reaches, ok-injective, ok_not_any}

-- A trie with the same edges.
module _ (nodes out : RouteTrie)
    (same : (i : ℕ) (b : Bool) → child_at (node_at out i) b ≡ child_at (node_at nodes i) b)
    (size : length out ≡ length nodes) (v : IsTrie nodes) where
  walk_same : (i : ℕ) (p : List Bool) → walk out i p ≡ walk nodes i p
  unfolding walk
  walk_same i [] = refl
  walk_same i (b ∷ p) = rw (same i b, walk_same (child_at (node_at nodes i) b - 1) p) refl

  same-IsTrie : IsTrie out
  same-IsTrie = record {
    nonempty = omega (arith, size, v.nonempty);
    inside = λ i b. omega (arith, same i b, size, v.inside i b);
    apart = λ p q i x y. v.apart p q i (sym (walk_same 0 p) ∙ x) (sym (walk_same 0 q) ∙ y);
  }

abbrev owned : RouteNode → ℕ → RouteNode
owned n peer = record n { peer_id = peer; has_peer = true }

owned_child : (n : RouteNode) (peer : ℕ) (b : Bool) → child_at (owned n peer) b ≡ child_at n b
owned_child n peer true = refl
owned_child n peer false = refl

-- A trie whose table has `peer` for `path`, and for any other path what it had.
pub record Adds (nodes : RouteTrie) (path : List Bool) (peer : ℕ) (out : RouteTrie) : Type 0 where
  pub trie : IsTrie out
  pub new_eq : peer_from out 0 path ≡ some peer
  pub old_eq : (p : List Bool) → p ≢ path → peer_from out 0 p ≡ peer_from nodes 0 p

module _ (nodes : RouteTrie) (path : List Bool) (peer : ℕ) (t : RouteTrie) (j : ℕ)
    (x : Reaches nodes path t j) where
  abbrev marked : RouteTrie
  marked = set t j (owned (node_at t j) peer)

  j_lt : j < length t
  j_lt = walk-lt t 0 path j x.extends.trie.inside x.extends.trie.nonempty x.leads

  at_marked : node_at marked j ≡ owned (node_at t j) peer
  at_marked = get_or-set_self t j _ blank_node j_lt

  marked_edges : (i : ℕ) (b : Bool) → child_at (node_at marked i) b ≡ child_at (node_at t i) b
  marked_edges i b = elim (Bool-cases (i == j)) [
    | inl same ↦
        let e : i ≡ j = ground arith in
        subst (λ n. child_at (node_at marked n) b ≡ child_at (node_at t n) b) (sym e)
          (ap (λ n. child_at n b) at_marked ∙ owned_child (node_at t j) peer b)
    | inr other ↦ ap (λ n. child_at n b) (get_or-set_ne t j i _ blank_node (ground arith))
  ]

  marked-Adds : Adds nodes path peer marked
  marked-Adds =
      let size = length-set t j (owned (node_at t j) peer) in
      let same = walk_same t marked marked_edges size x.extends.trie in
      record {
        trie = same-IsTrie t marked marked_edges size x.extends.trie;
        new_eq = ap (peer_of marked) (same 0 path ∙ x.leads) ∙ ap node_peer at_marked;
        old_eq = λ p ne.
            ap (peer_of marked) (same 0 p)
            ∙ elsewhere p (walk t 0 p) refl ne
            ∙ x.extends.holds_eq p;
      }
    where
      elsewhere :
          (p : List Bool) (o : Option ℕ)
          → walk t 0 p ≡ o
          → p ≢ path
          → peer_of marked o ≡ peer_of t o
      elsewhere p none e ne = refl
      elsewhere p (some i) e ne = ap node_peer (
          get_or-set_ne t j i _ blank_node
            (λ same. ne (x.extends.trie.apart p path j (e ∙ ap some (sym same)) x.leads)))

abbrev finish_with : ℕ → RouteTrie × ℕ → Result RouteError RouteTrie
finish_with peer out = ok (set out.0 out.1 (owned (node_at out.0 out.1) peer))

pub insert-Adds :
    (nodes : RouteTrie) (address : List ℕ) (bits peer : ℕ) (out : RouteTrie)
    → IsTrie nodes
    → insert nodes address bits peer ≡ ok out
    → Adds nodes (path_from bits 0 address) peer out
unfolding insert walk
insert-Adds nodes address bits peer out v e =
    elim (Result-cases (insert_from bits 0 nodes 0 address)) [
      | inr (y, bad) ↦ absurd (ok_not_any out y (sym e ∙ ap (λ o. o >>= finish_with peer) bad))
      | inl (t, good) ↦
          let x = insert_from-Reaches bits 0 nodes 0 address [] t.0 t.1 v refl good in
          subst (Adds nodes (path_from bits 0 address) peer)
            (ok-injective _ _ (sym (ap (λ o. o >>= finish_with peer) good) ∙ e))
            (marked-Adds nodes (path_from bits 0 address) peer t.0 t.1 x)
    ]
