-- ===== src/PeerRoute/Snapshot/Room.antt =====
-- internal/core/peerroute/allowedips.go: how many nodes the tries have, counted by the bits of the prefixes in them.
use wg_frag_go.Common.{
  ℕ, zero, suc, ◌+◌, ◌<◌, ◌≤◌, ◌≡◌, ap, ◌∙◌, inl, inr, Bool, List, [], ◌∷◌, ◌++◌, some, Result,
  Result-cases, ok, err, ◌==◌, leb, length, length-append, length-set, get_elem?, arith, Bool-cases,
  subst,
}
use wg_frag_go.PeerRoute.{
  RouteTrie, RouteError, blank_node, child, insert, insert_from, address_bit, child_at, node_at,
}
use wg_frag_go.PeerRoute.Snapshot.{Netip, AllowedIp, SnapshotError, Snapshot, add_route}
use wg_frag_go.PeerRoute.Snapshot.Table.{add_route_v4, add_route_v6}

-- A result that has at most `n` nodes more, or that failed with 2^32 - 1 nodes or more.
abbrev pub Counts : {B : Type 0} → (B → RouteTrie) → ℕ → ℕ → Result RouteError B → Type 0
Counts nodes_of size n (ok b) = length (nodes_of b) ≤ size + n
Counts nodes_of size n (err x) = 4294967295 < size + n

child-Counts :
    (nodes : RouteTrie) (parent : ℕ) (bit : Bool)
    → Counts (λ t. t.0) (length nodes) 1 (child nodes parent bit)
unfolding child
child-Counts nodes parent bit = elim (Bool-cases (child_at (node_at nodes parent) bit == 0)) [
  | inr there ↦ rw there (omega arith)
  | inl gone ↦ elim (Bool-cases (leb 4294967295 (length nodes))) [
    | inl full ↦ rw (gone, full) (ground arith)
    | inr room ↦
        rw (gone, room, length-set (nodes ++ blank_node ∷ []) parent, length-append nodes)
          (omega arith)
  ]
]

insert_from-Counts :
    (rounds depth : ℕ) (nodes : RouteTrie) (i : ℕ) (address : List ℕ)
    → Counts (λ t. t.0) (length nodes) rounds (insert_from rounds depth nodes i address)
unfolding insert_from
insert_from-Counts zero depth nodes i address = omega arith
insert_from-Counts (suc rounds) depth nodes i address =
    let grown = child-Counts nodes i (address_bit address depth) in
    elim (Result-cases (child nodes i (address_bit address depth))) [
      | inr (y, bad) ↦
          let full = subst (Counts (λ t. t.0) (length nodes) 1) bad grown in
          rw bad (omega (arith, full))
      | inl (t, good) ↦
          let small = subst (Counts (λ t. t.0) (length nodes) 1) good grown in
          let rest = insert_from-Counts rounds (depth + 1) t.0 t.1 address in
          elim (Result-cases (insert_from rounds (depth + 1) t.0 t.1 address)) [
            | inr (y, bad) ↦
                let full = subst (Counts (λ t. t.0) (length t.0) rounds) bad rest in
                rw (good, bad) (omega (arith, full, small))
            | inl (out, done) ↦
                let more = subst (Counts (λ t. t.0) (length t.0) rounds) done rest in
                rw (good, done) (omega (arith, more, small))
          ]
    ]

insert-Counts :
    (nodes : RouteTrie) (address : List ℕ) (bits peer : ℕ)
    → Counts (λ t. t) (length nodes) bits (insert nodes address bits peer)
unfolding insert
insert-Counts nodes address bits peer =
    let counted = insert_from-Counts bits 0 nodes 0 address in
    elim (Result-cases (insert_from bits 0 nodes 0 address)) [
      | inr (y, bad) ↦
          let full = subst (Counts (λ t. t.0) (length nodes) bits) bad counted in rw bad full
      | inl (t, good) ↦
          let small = subst (Counts (λ t. t.0) (length nodes) bits) good counted in
          rw (good, length-set t.0 t.1) small
    ]

-- Both tries have at most `n` nodes.
pub record HasNodes (n : ℕ) (s : Snapshot) : Type 0 where
  pub v4_le : length s.v4 ≤ n
  pub v6_le : length s.v6 ≤ n

module _ {A P : Type 0} (net : Netip A P) where
  -- The bits of the masked prefixes of the first `n` entries.
  unfoldable pub total_bits : ℕ → List (AllowedIp P) → ℕ
  total_bits zero es = 0
  total_bits (suc n) [] = 0
  total_bits (suc n) (entry ∷ es) = net.bits (net.masked entry.prefix) + total_bits n es

  pub total_bits-suc :
      (n : ℕ) (es : List (AllowedIp P)) (entry : AllowedIp P)
      → get_elem? es n ≡ some entry
      → total_bits (n + 1) es ≡ total_bits n es + net.bits (net.masked entry.prefix)
  unfolding total_bits
  total_bits-suc n [] entry at = absurd (ground arith)
  total_bits-suc zero (e ∷ es) entry at =
      let e_eq : e ≡ entry = ground arith in
      ap (λ x. net.bits (net.masked x.prefix) + 0) e_eq ∙ omega arith
  total_bits-suc (suc n) (e ∷ es) entry at =
      ap (λ k. total_bits k (e ∷ es)) {x = suc n + 1} {y = suc (n + 1)} (omega arith)
      ∙ ap (λ k. net.bits (net.masked e.prefix) + k) (total_bits-suc n es entry at)
      ∙ omega arith

  -- `add_route` on tries of at most `n` nodes.
  abbrev pub Added : ℕ → Result (SnapshotError P) Snapshot → Type 0
  Added n (ok s) = HasNodes n s
  Added n (err x) = 4294967295 < n

  pub add_route-Added :
      (n : ℕ) (s : Snapshot) (index : ℕ) (p : P) (peer : ℕ)
      → HasNodes n s
      → Added (n + net.bits p) (add_route net s index p peer)
  add_route-Added n s index p peer v = elim (Bool-cases (net.is4 (net.addr p))) [
    | inl four ↦
        let counted = insert-Counts s.v4 (net.as4 (net.addr p)) (net.bits p) peer in
        elim (Result-cases (insert s.v4 (net.as4 (net.addr p)) (net.bits p) peer)) [
          | inr (y, bad) ↦
              let full = subst (Counts (λ t. t) (length s.v4) (net.bits p)) bad counted in
              rw (add_route_v4 net s index p peer four, bad) (omega (arith, full, v.v4_le))
          | inl (t, good) ↦
              let small = subst (Counts (λ t. t) (length s.v4) (net.bits p)) good counted in
              rw (add_route_v4 net s index p peer four, good)
                (record { v4_le = omega (arith, small, v.v4_le); v6_le = omega (arith, v.v6_le) })
        ]
    | inr six ↦
        let counted = insert-Counts s.v6 (net.as16 (net.addr p)) (net.bits p) peer in
        elim (Result-cases (insert s.v6 (net.as16 (net.addr p)) (net.bits p) peer)) [
          | inr (y, bad) ↦
              let full = subst (Counts (λ t. t) (length s.v6) (net.bits p)) bad counted in
              rw (add_route_v6 net s index p peer six, bad) (omega (arith, full, v.v6_le))
          | inl (t, good) ↦
              let small = subst (Counts (λ t. t) (length s.v6) (net.bits p)) good counted in
              rw (add_route_v6 net s index p peer six, good)
                (record { v4_le = omega (arith, v.v4_le); v6_le = omega (arith, small, v.v6_le) })
        ]
  ]
