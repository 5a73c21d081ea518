-- ===== src/PeerRoute/Walk.antt =====
-- internal/core/peerroute/allowedips.go: the paths of a trie, and the longest one on the way to an address.
use wg_frag_go.Common.{
  ℕ, zero, suc, ◌+◌, ◌-◌, ◌≤◌, ◌<◌, ◌≡◌, refl, sym, ap, ◌∙◌, ◌⊎◌, inl, inr, Bool, true, false, List,
  [], ◌∷◌, Option, none, some, ◌==◌, if◌then◌else◌, length, take, arith, Bool-cases, subst,
}
use wg_frag_go.PeerRoute.{RouteNode, RouteTrie, node_at, child_at, address_bit, lookup, lookup_from}

-- The bits of an address from `depth` on.
abbrev pub path_from : ℕ → ℕ → List ℕ → List Bool
path_from zero depth address = []
path_from (suc rounds) depth address =
    address_bit address depth ∷ path_from rounds (depth + 1) address

-- The node that a path leads to.
unfoldable pub walk : RouteTrie → ℕ → List Bool → Option ℕ
walk nodes i [] = some i
walk nodes i (b ∷ bs) =
    let rest = walk nodes (child_at (node_at nodes i) b - 1) bs in
    if child_at (node_at nodes i) b == 0 then none else rest

abbrev pub node_peer : RouteNode → Option ℕ
node_peer n = if n.has_peer then some n.peer_id else none

-- What the trie holds for a path.
abbrev pub peer_from : RouteTrie → ℕ → List Bool → Option ℕ
peer_from nodes i p = elim (walk nodes i p) [ none ↦ none | some j ↦ node_peer (node_at nodes j) ]

-- The longest part of `bits`, of `least` bits or more, that a table has, or `best` if it has none.
abbrev pub LongestFrom : (List Bool → Option ℕ) → ℕ → List Bool → ℕ × Bool → ℕ × Bool → Type 0
LongestFrom table least bits best out =
    (out ≡ best) × ((l : ℕ) → least ≤ l → l ≤ length bits → table (take l bits) ≡ none)
    ⊎ ((k : ℕ) × (least ≤ k)
        × (k ≤ length bits)
        × ((peer : ℕ) × (out ≡ (peer, true)) × (table (take k bits) ≡ some peer))
        × ((l : ℕ) → k < l → l ≤ length bits → table (take l bits) ≡ none))

-- A child that is not there: no path goes on.
no_path :
    (nodes : RouteTrie) (i : ℕ) (b : Bool) (bs : List Bool)
    → (child_at (node_at nodes i) b == 0) ≡ true
    → (l : ℕ) → 1 ≤ l
    → peer_from nodes i (take l (b ∷ bs)) ≡ none
unfolding walk
no_path nodes i b bs e zero h = absurd (omega arith)
no_path nodes i b bs e (suc l) h = rw (peer_from, e) refl

peer_from-cons :
    (nodes : RouteTrie) (i : ℕ) (b : Bool) (bs : List Bool)
    → (child_at (node_at nodes i) b == 0) ≡ false
    → peer_from nodes i (b ∷ bs) ≡ peer_from nodes (child_at (node_at nodes i) b - 1) bs
unfolding walk
peer_from-cons nodes i b bs e = rw (peer_from, e) refl

-- The peer of the node itself counts as the empty path.
root-LongestFrom :
    (nodes : RouteTrie) (j : ℕ) (bits : List Bool) (best out : ℕ × Bool)
    → LongestFrom
        (peer_from nodes j)
        1
        bits
        (if (node_at nodes j).has_peer then ((node_at nodes j).peer_id, true) else best)
        out
    → LongestFrom (peer_from nodes j) 0 bits best out
unfolding walk
root-LongestFrom nodes j bits best out (inr (k, least, le, found, none_longer)) =
    inr (k, omega arith, le, found, none_longer)
root-LongestFrom nodes j bits best out (inl (e, nothing)) =
    elim (Bool-cases (node_at nodes j).has_peer) [
      | inl has ↦ inr (
        0,
        omega arith,
        omega arith,
        (
          (node_at nodes j).peer_id,
          e ∙ ap (λ h. if h then ((node_at nodes j).peer_id, true) else best) has,
          ap (λ h. if h then some (node_at nodes j).peer_id else none) has,
        ),
        λ l h k. nothing l (omega arith) k,
      )
      | inr has ↦ inl (
        e ∙ ap (λ h. if h then ((node_at nodes j).peer_id, true) else best) has,
        λ l h k. elim (Bool-cases (l == 0)) [
          | inr some_bits ↦ nothing l (ground arith) k
          | inl no_bits ↦
              ap (λ n. peer_from nodes j (take n bits)) {x = l} {y = 0} (ground arith)
              ∙ ap (λ h. if h then some (node_at nodes j).peer_id else none) has
        ],
      )
    ]

-- A path from a child is a path from its parent, with one bit more.
step-LongestFrom :
    (s t : List Bool → Option ℕ) (b : Bool) (bs : List Bool) (best out : ℕ × Bool)
    → ((p : List Bool) → s (b ∷ p) ≡ t p)
    → LongestFrom t 0 bs best out
    → LongestFrom s 1 (b ∷ bs) best out
step-LongestFrom s t b bs best out same (inl (e, nothing)) = inl (e, go)
  where
    go : (l : ℕ) → 1 ≤ l → l ≤ length (b ∷ bs) → s (take l (b ∷ bs)) ≡ none
    go zero h k = absurd (omega arith)
    go (suc l) h k = same (take l bs) ∙ nothing l (omega arith) (omega arith)
step-LongestFrom s t b bs best out same (inr (k, least, le, (peer, e, found), none_longer)) =
    inr (suc k, omega arith, omega arith, (peer, e, same (take k bs) ∙ found), go)
  where
    go : (l : ℕ) → suc k < l → l ≤ length (b ∷ bs) → s (take l (b ∷ bs)) ≡ none
    go zero h k' = absurd (omega arith)
    go (suc l) h k' = same (take l bs) ∙ none_longer l (omega arith) (omega arith)

lookup_from-LongestFrom :
    (rounds depth : ℕ) (nodes : RouteTrie) (i : ℕ) (best : ℕ × Bool) (address : List ℕ)
    → LongestFrom
        (peer_from nodes i)
        1
        (path_from rounds depth address)
        best
        (lookup_from rounds depth nodes i best address)
unfolding lookup_from
lookup_from-LongestFrom zero depth nodes i best address = inl (refl, λ l h k. absurd (omega arith))
lookup_from-LongestFrom (suc rounds) depth nodes i best address =
    let b = address_bit address depth in
    let bs = path_from rounds (depth + 1) address in
    let next = child_at (node_at nodes i) b - 1 in
    let best1 =
      if (node_at nodes next).has_peer then ((node_at nodes next).peer_id, true) else best in
    elim (Bool-cases (child_at (node_at nodes i) b == 0)) [
      | inl end ↦ inl (rw end refl, λ l h k. no_path nodes i b bs end l h)
      | inr on ↦
          subst (LongestFrom (peer_from nodes i) 1 (b ∷ bs) best)
            {x = lookup_from rounds (depth + 1) nodes next best1 address} (rw on refl)
            (step-LongestFrom (peer_from nodes i) (peer_from nodes next) b bs best _
              (λ p. peer_from-cons nodes i b p on)
              (root-LongestFrom nodes next bs best _
                (lookup_from-LongestFrom rounds (depth + 1) nodes next best1 address)))
    ]

-- What a table says of an address: no part of its bits is there, or the longest one that is there is the peer's.
abbrev pub IsLongest : (List Bool → Option ℕ) → List Bool → ℕ × Bool → Type 0
IsLongest table bits out =
    (out.1 ≡ false) × ((l : ℕ) → l ≤ length bits → table (take l bits) ≡ none)
    ⊎ (out.1 ≡ true)
      × ((k : ℕ) × (k ≤ length bits)
          × (table (take k bits) ≡ some out.0)
          × ((l : ℕ) → k < l → l ≤ length bits → table (take l bits) ≡ none))

LongestFrom-IsLongest :
    (table : List Bool → Option ℕ) (bits : List Bool) (n : ℕ) (out : ℕ × Bool)
    → LongestFrom table 0 bits (n, false) out
    → IsLongest table bits out
LongestFrom-IsLongest table bits n out (inl (e, nothing)) =
    inl (ap (λ o. o.1) e, λ l k. nothing l (omega arith) k)
LongestFrom-IsLongest table bits n out (inr (k, least, le, (peer, e, found), none_longer)) =
    inr (ap (λ o. o.1) e, (k, le, found ∙ ap some (sym (ap (λ o. o.0) e)), none_longer))

pair_if : (b : Bool) (n : ℕ) → ◌≡◌ {A = ℕ × Bool} (if b then (n, true) else (n, false)) (n, b)
pair_if true n = refl
pair_if false n = refl

pub lookup-IsLongest :
    (width : ℕ) (nodes : RouteTrie) (address : List ℕ)
    → 1 ≤ length nodes
    → IsLongest (peer_from nodes 0) (path_from width 0 address) (lookup width nodes address)
unfolding lookup
lookup-IsLongest width nodes address h =
    let root = node_at nodes 0 in
    let bits = path_from width 0 address in
    let some_nodes : (length nodes == 0) ≡ false = ground arith in
    let out = lookup_from width 0 nodes 0 (root.peer_id, root.has_peer) address in
    subst (IsLongest (peer_from nodes 0) bits) {x = out} (rw some_nodes refl) (
      LongestFrom-IsLongest (peer_from nodes 0) bits root.peer_id out (
        root-LongestFrom nodes 0 bits (root.peer_id, false) out
          (subst (λ best. LongestFrom (peer_from nodes 0) 1 bits best out)
            (sym (pair_if root.has_peer root.peer_id))
            (lookup_from-LongestFrom width 0 nodes 0 (root.peer_id, root.has_peer) address))))
