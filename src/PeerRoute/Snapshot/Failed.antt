-- ===== src/PeerRoute/Snapshot/Failed.antt =====
-- internal/core/peerroute/allowedips.go: an insertion fails only when the trie is full.
use wg_frag_go.Common.{
  ℕ, zero, suc, ◌+◌, ◌≡◌, refl, sym, ap, ◌∙◌, inl, inr, Bool, List, Result, Result-cases, ok, err,
  ◌>>=◌, ◌==◌, leb, length, arith, Bool-cases,
}
use wg_frag_go.PeerRoute.{
  RouteTrie, RouteError, too_many_allowed_ips, child, insert, insert_from, address_bit, child_at,
  node_at,
}
use wg_frag_go.PeerRoute.Snapshot.{Netip, SnapshotError, insert_failed, Snapshot, wrap, add_route}
use wg_frag_go.PeerRoute.Snapshot.Table.{add_route_v4, add_route_v6}

child-err-eq :
    (nodes : RouteTrie) (parent : ℕ) (bit : Bool) (x : RouteError)
    → child nodes parent bit ≡ err x
    → x ≡ too_many_allowed_ips
unfolding child
child-err-eq nodes parent bit x e = elim (Bool-cases (child_at (node_at nodes parent) bit == 0)) [
  | inr there ↦ absurd (ground arith)
  | inl gone ↦ elim (Bool-cases (leb 4294967295 (length nodes))) [
    | inl full ↦ ground arith
    | inr room ↦ absurd (ground arith)
  ]
]

insert_from-err-eq :
    (rounds depth : ℕ) (nodes : RouteTrie) (i : ℕ) (address : List ℕ) (x : RouteError)
    → insert_from rounds depth nodes i address ≡ err x
    → x ≡ too_many_allowed_ips
unfolding insert_from
insert_from-err-eq zero depth nodes i address x e = absurd (ground arith)
insert_from-err-eq (suc rounds) depth nodes i address x e =
    elim (Result-cases (child nodes i (address_bit address depth))) [
      | inr (y, bad) ↦ child-err-eq nodes i (address_bit address depth) x (ground arith)
      | inl (t, good) ↦ insert_from-err-eq rounds (depth + 1) t.0 t.1 address x (ground arith)
    ]

insert-err-eq :
    (nodes : RouteTrie) (address : List ℕ) (bits peer : ℕ) (x : RouteError)
    → insert nodes address bits peer ≡ err x
    → x ≡ too_many_allowed_ips
unfolding insert
insert-err-eq nodes address bits peer x e =
    elim (Result-cases (insert_from bits 0 nodes 0 address)) [
      | inr (y, bad) ↦ insert_from-err-eq bits 0 nodes 0 address x (ground arith)
      | inl (t, good) ↦ absurd (ground arith)
    ]

module _ {A P : Type 0} (net : Netip A P) where
  wrap-err-eq :
      (index : ℕ) (r : Result RouteError RouteTrie) (next : RouteTrie → Snapshot)
      (x : SnapshotError P)
      → wrap net index r >>= (λ t. ok (next t)) ≡ err x
      → (y : RouteError) × (r ≡ err y) × (x ≡ insert_failed index y)
  wrap-err-eq index (ok t) next x e = absurd (ground arith)
  wrap-err-eq index (err y) next x e = (y, refl, ground arith)

  pub add_route-err-eq :
      (s : Snapshot) (index : ℕ) (p : P) (peer : ℕ) (x : SnapshotError P)
      → add_route net s index p peer ≡ err x
      → x ≡ insert_failed index too_many_allowed_ips
  add_route-err-eq s index p peer x e = elim (Bool-cases (net.is4 (net.addr p))) [
    | inl four ↦
        let (y, bad, x_eq) =
          wrap-err-eq index _ _ x (sym (add_route_v4 net s index p peer four) ∙ e) in
        x_eq
        ∙ ap (insert_failed index)
            (insert-err-eq s.v4 (net.as4 (net.addr p)) (net.bits p) peer y bad)
    | inr six ↦
        let (y, bad, x_eq) =
          wrap-err-eq index _ _ x (sym (add_route_v6 net s index p peer six) ∙ e) in
        x_eq
        ∙ ap (insert_failed index)
            (insert-err-eq s.v6 (net.as16 (net.addr p)) (net.bits p) peer y bad)
  ]
