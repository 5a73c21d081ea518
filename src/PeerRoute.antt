-- ===== src/PeerRoute.antt =====
-- internal/core/peerroute/allowedips.go: the tries behind a Snapshot.
-- A trie is the list of its nodes; a child is the index of a node plus one, and 0 where there is none.
-- The bit of an address is a Boolean, and the two children of a node are two fields.
pub mod Walk
pub mod Bits
pub mod Grow
pub mod Reach
pub mod Insert
pub mod Snapshot
pub mod CarrierAddress
use wg_frag_go.Common.{
  ℕ, zero, suc, ◌+◌, ◌-◌, ◌/◌, ◌%◌, ◌^◌, Bool, true, false, not, List, [], ◌∷◌, ◌++◌, Result, ok,
  err, ◌>>=◌, leb, ◌==◌, if◌then◌else◌, length, get_or, set,
}

pub record RouteNode : Type 0 where
  pub zero_child : ℕ
  pub one_child : ℕ
  pub peer_id : ℕ
  pub has_peer : Bool

pub data RouteError : Type 0 where
  invalid_allowed_ip duplicate_allowed_ip too_many_allowed_ips : RouteError

abbrev pub blank_node : RouteNode
blank_node = record { zero_child = 0; one_child = 0; peer_id = 0; has_peer = false }

-- The nodes of a trie.
abbrev pub RouteTrie : Type 0
RouteTrie = List RouteNode

abbrev pub uint32_mod : ℕ
uint32_mod = 4294967296

-- The node at an index; the code reads no other.
abbrev pub node_at : RouteTrie → ℕ → RouteNode
node_at nodes i = get_or nodes i blank_node

abbrev pub child_at : RouteNode → Bool → ℕ
child_at n false = n.zero_child
child_at n true = n.one_child

abbrev pub set_child : RouteNode → Bool → ℕ → RouteNode
set_child n false e = record n { zero_child = e }
set_child n true e = record n { one_child = e }

unfoldable pub address_bit : List ℕ → ℕ → Bool
address_bit address depth = get_or address (depth / 8) 0 / 2 ^ (7 - depth % 8) % 2 == 1

unfoldable pub child : RouteTrie → ℕ → Bool → Result RouteError (RouteTrie × ℕ)
child nodes parent bit =
    let encoded = child_at (node_at nodes parent) bit in
    let index = length nodes % uint32_mod in
    if not (encoded == 0)
    then ok (nodes, encoded - 1)
    else (if leb 4294967295 (length nodes)
        then err too_many_allowed_ips
        else ok (
          set (nodes ++ blank_node ∷ []) parent
              (set_child (node_at nodes parent) bit ((index + 1) % uint32_mod)),
          index,
        ))

-- The loop of `insert`: the trie, and the node of the prefix.
unfoldable pub insert_from : ℕ → ℕ → RouteTrie → ℕ → List ℕ → Result RouteError (RouteTrie × ℕ)
insert_from zero depth nodes i address = ok (nodes, i)
insert_from (suc rounds) depth nodes i address = do
  next ← child nodes i (address_bit address depth)
  insert_from rounds (depth + 1) next.0 next.1 address

-- `insert`, with the bytes of the address.
unfoldable pub insert : RouteTrie → List ℕ → ℕ → ℕ → Result RouteError RouteTrie
insert nodes address bits peer = do
  out ← insert_from bits 0 nodes 0 address
  ok (set out.0 out.1 (record (node_at out.0 out.1) { peer_id = peer; has_peer = true }))

-- The loop of `lookup4` and `lookup6`, with the best peer so far and whether there is one.
unfoldable pub lookup_from : ℕ → ℕ → RouteTrie → ℕ → ℕ × Bool → List ℕ → ℕ × Bool
lookup_from zero depth nodes i best address = best
lookup_from (suc rounds) depth nodes i best address =
    let encoded = child_at (node_at nodes i) (address_bit address depth) in
    let node = node_at nodes (encoded - 1) in
    let rest =
      lookup_from rounds (depth + 1) nodes (encoded - 1)
        (if node.has_peer then (node.peer_id, true) else best) address in
    if encoded == 0 then best else rest

-- `lookup4` with a width of 32 bits, and `lookup6` with 128.
unfoldable pub lookup : ℕ → RouteTrie → List ℕ → ℕ × Bool
lookup width nodes address =
    if length nodes == 0
    then (0, false)
    else lookup_from width 0 nodes 0 ((node_at nodes 0).peer_id, (node_at nodes 0).has_peer) address
