-- ===== src/PeerRoute/Grow.antt =====
-- internal/core/peerroute/allowedips.go: `child` keeps the paths that are there, and what they hold.
use wg_frag_go.Common.{
  ℕ, zero, suc, ◌+◌, ◌-◌, ◌≤◌, ◌<◌, ◌≡◌, ◌≢◌, refl, sym, ap, ◌∙◌, ◌⊎◌, inl, inr, Bool, true, false,
  List, [], ◌∷◌, ◌++◌, Option, none, some, ◌==◌, if◌then◌else◌, length, set, arith, Bool-cases,
  subst, length-set, length-append, get_or-set_self, get_or-set_ne,
}
use wg_frag_go.PeerRoute.{RouteNode, RouteTrie, blank_node, node_at, child_at, set_child}
use wg_frag_go.PeerRoute.Walk.{walk, node_peer}

-- Each child is a node, and two paths lead to two nodes.
pub record IsTrie (nodes : RouteTrie) : Type 0 where
  pub nonempty : 1 ≤ length nodes
  pub inside : (i : ℕ) (b : Bool) → child_at (node_at nodes i) b ≤ length nodes
  pub apart : (p q : List Bool) (i : ℕ) → walk nodes 0 p ≡ some i → walk nodes 0 q ≡ some i → p ≡ q

pub walk-lt :
    (nodes : RouteTrie) (i : ℕ) (p : List Bool) (j : ℕ)
    → ((i : ℕ) (b : Bool) → child_at (node_at nodes i) b ≤ length nodes)
    → i < length nodes
    → walk nodes i p ≡ some j
    → j < length nodes
unfolding walk
walk-lt nodes i [] j inside h e = subst (λ n. n < length nodes) {x = i} {y = j} (ground arith) h
walk-lt nodes i (b ∷ p) j inside h e =
    let at = inside i b in
    elim (Bool-cases (child_at (node_at nodes i) b == 0)) [
      | inl end ↦ absurd (ground arith)
      | inr on ↦
          walk-lt nodes (child_at (node_at nodes i) b - 1) p j inside (ground arith) (ground arith)
    ]

-- A path and one bit more.
pub walk-snoc :
    (nodes : RouteTrie) (i : ℕ) (p : List Bool) (b : Bool) (j : ℕ)
    → walk nodes i p ≡ some j
    → walk nodes i (p ++ b ∷ []) ≡ walk nodes j (b ∷ [])
unfolding walk
walk-snoc nodes i [] b j e = ap (λ n. walk nodes n (b ∷ [])) {x = i} {y = j} (ground arith)
walk-snoc nodes i (c ∷ p) b j e = elim (Bool-cases (child_at (node_at nodes i) c == 0)) [
  | inl end ↦ absurd (ground arith)
  | inr on ↦ rw on (walk-snoc nodes (child_at (node_at nodes i) c - 1) p b j (ground arith))
]

pub get_or_behind : (xs : RouteTrie) (i : ℕ) → length xs ≤ i → node_at xs i ≡ blank_node
get_or_behind [] i h = refl
get_or_behind (x ∷ xs) zero h = absurd (omega arith)
get_or_behind (x ∷ xs) (suc i) h = get_or_behind xs i (omega arith)

-- With a blank node at the end, all nodes read as before.
append_blank : (xs : RouteTrie) (i : ℕ) → node_at (xs ++ blank_node ∷ []) i ≡ node_at xs i
append_blank [] zero = refl
append_blank [] (suc i) = refl
append_blank (x ∷ xs) zero = refl
append_blank (x ∷ xs) (suc i) = append_blank xs i

blank_child : (b : Bool) → child_at blank_node b ≡ 0
blank_child true = refl
blank_child false = refl

child-set_child : (n : RouteNode) (b : Bool) (e : ℕ) → child_at (set_child n b e) b ≡ e
child-set_child n true e = refl
child-set_child n false e = refl

child-set_child_other :
    (n : RouteNode) (b c : Bool) (e : ℕ) → (b ≡ c) ⊎ (child_at (set_child n b e) c ≡ child_at n c)
child-set_child_other n true true e = inl refl
child-set_child_other n true false e = inr refl
child-set_child_other n false true e = inr refl
child-set_child_other n false false e = inl refl

peer-set_child : (n : RouteNode) (b : Bool) (e : ℕ) → node_peer (set_child n b e) ≡ node_peer n
peer-set_child n true e = refl
peer-set_child n false e = refl

-- A trie whose node `parent` gets a new child.
module _ (nodes : RouteTrie) (parent : ℕ) (bit : Bool) (lt : parent < length nodes)
    (gone : child_at (node_at nodes parent) bit ≡ 0) where
  abbrev pub grown : RouteTrie
  grown =
      set (nodes ++ blank_node ∷ []) parent
        (set_child (node_at nodes parent) bit (length nodes + 1))

  pub length-grown : length grown ≡ length nodes + 1
  length-grown =
      length-set (nodes ++ blank_node ∷ []) parent _ ∙ length-append nodes (blank_node ∷ [])

  at_parent : node_at grown parent ≡ set_child (node_at nodes parent) bit (length nodes + 1)
  at_parent =
      get_or-set_self (nodes ++ blank_node ∷ []) parent _ blank_node
        (omega (arith, length-append nodes (blank_node ∷ [])))

  at_other : (i : ℕ) → i ≢ parent → node_at grown i ≡ node_at nodes i
  at_other i ne =
      get_or-set_ne (nodes ++ blank_node ∷ []) parent i _ blank_node (λ e. ne (sym e))
      ∙ append_blank nodes i

  pub peer-grown : (i : ℕ) → node_peer (node_at grown i) ≡ node_peer (node_at nodes i)
  peer-grown i = elim (Bool-cases (i == parent)) [
    | inl same ↦
        let e : i ≡ parent = ground arith in
        subst (λ n. node_peer (node_at grown n) ≡ node_peer (node_at nodes n)) (sym e)
          (ap node_peer at_parent ∙ peer-set_child (node_at nodes parent) bit (length nodes + 1))
    | inr other ↦ ap node_peer (at_other i (ground arith))
  ]

  pub new_edge : child_at (node_at grown parent) bit ≡ length nodes + 1
  new_edge =
      ap (λ n. child_at n bit) at_parent
      ∙ child-set_child (node_at nodes parent) bit (length nodes + 1)

  -- An edge is the new one, or as before.
  pub edge_cases :
      (i : ℕ) (c : Bool)
      → ((i ≡ parent) × (c ≡ bit)) ⊎ (child_at (node_at grown i) c ≡ child_at (node_at nodes i) c)
  edge_cases i c = elim (Bool-cases (i == parent)) [
    | inr other ↦ inr (ap (λ n. child_at n c) (at_other i (ground arith)))
    | inl same ↦
        let e : i ≡ parent = ground arith in
        elim (child-set_child_other (node_at nodes parent) bit c (length nodes + 1)) [
          | inl b ↦ inl (e, sym b)
          | inr keeps ↦ inr (
              ap (λ n. child_at (node_at grown n) c) e
              ∙ ap (λ n. child_at n c) at_parent
              ∙ keeps
              ∙ ap (λ n. child_at (node_at nodes n) c) (sym e))
        ]
  ]

  pub one_edge : walk nodes parent (bit ∷ []) ≡ none
  unfolding walk
  one_edge = let z : (child_at (node_at nodes parent) bit == 0) ≡ true = ground arith in rw z refl

  new_leaf : (p : List Bool) (c : Bool) → walk grown (length nodes) (c ∷ p) ≡ none
  unfolding walk
  new_leaf p c =
      let e : child_at (node_at grown (length nodes)) c ≡ 0 =
        ap (λ n. child_at n c)
          (at_other (length nodes) (λ x. absurd (omega (arith, x)))
            ∙ get_or_behind nodes (length nodes) (omega arith))
        ∙ blank_child c in
      let z : (child_at (node_at grown (length nodes)) c == 0) ≡ true = ground arith in rw z refl

  -- The rest of a path, at an entry.
  abbrev follow : RouteTrie → ℕ → List Bool → Option ℕ
  follow t entry p = let rest = walk t (entry - 1) p in if entry == 0 then none else rest

  follow_end : (t : RouteTrie) (entry : ℕ) (p : List Bool) → entry ≡ 0 → follow t entry p ≡ none
  follow_end t entry p e = let z : (entry == 0) ≡ true = ground arith in rw z refl

  follow_on :
      (t : RouteTrie) (entry : ℕ) (p : List Bool)
      → (entry == 0) ≡ false
      → follow t entry p ≡ walk t (entry - 1) p
  follow_on t entry p e = rw e refl

  pub walk-grown_new : (p : List Bool) → walk grown parent (bit ∷ p) ≡ walk grown (length nodes) p
  unfolding walk
  walk-grown_new p =
      ap (λ e. follow grown e p) new_edge
      ∙ follow_on grown (length nodes + 1) p (ground arith)
      ∙ ap (λ n. walk grown n p) {x = length nodes + 1 - 1} {y = length nodes} (omega arith)

  -- A path leads where it led, or goes through the parent to the new node.
  abbrev pub Leads : ℕ → List Bool → Type 0
  Leads i p =
      (walk grown i p ≡ walk nodes i p)
      ⊎ (walk grown i p ≡ some (length nodes))
        × ((q : List Bool) × (p ≡ q ++ bit ∷ []) × (walk nodes i q ≡ some parent))

  new_edge-Leads : (p : List Bool) → Leads parent (bit ∷ p)
  unfolding walk
  new_edge-Leads [] = inr (walk-grown_new [], ([], refl, refl))
  new_edge-Leads (d ∷ p) = inl (
      walk-grown_new (d ∷ p)
      ∙ new_leaf p d
      ∙ sym (follow_end nodes (child_at (node_at nodes parent) bit) (d ∷ p) gone))

  pub walk-Leads : (i : ℕ) (p : List Bool) → Leads i p
  unfolding walk
  walk-Leads i [] = inl refl
  walk-Leads i (c ∷ p) = elim (edge_cases i c) [
    | inl (here, e) ↦
        subst (λ n. Leads n (c ∷ p)) (sym here)
          (subst (λ b. Leads parent (b ∷ p)) (sym e) (new_edge-Leads p))
    | inr same ↦ elim (Bool-cases (child_at (node_at nodes i) c == 0)) [
      | inl end ↦
          let z : child_at (node_at nodes i) c ≡ 0 = ground arith in
          inl (
            ap (λ e. follow grown e p) same ∙ follow_end grown _ p z ∙ sym (follow_end nodes _ p z))
      | inr on ↦
          let step = ap (λ e. follow grown e p) same ∙ follow_on grown _ p on in
          let before = follow_on nodes (child_at (node_at nodes i) c) p on in
          elim (walk-Leads (child_at (node_at nodes i) c - 1) p) [
            | inl w ↦ inl (step ∙ w ∙ sym before)
            | inr (w, (q, e, through)) ↦ inr (
              step ∙ w,
              (c ∷ q, ap (◌∷◌ c) e, follow_on nodes (child_at (node_at nodes i) c) q on ∙ through),
            )
          ]
    ]
  ]

  -- What is there stays.
  pub walk-grown_keeps :
      (i : ℕ) (p : List Bool) (j : ℕ) → walk nodes i p ≡ some j → walk grown i p ≡ some j
  walk-grown_keeps i p j e = elim (walk-Leads i p) [
    | inl w ↦ w ∙ e
    | inr (w, (q, eq, through)) ↦
        let stop : walk nodes i p ≡ none =
          ap (walk nodes i) eq ∙ walk-snoc nodes i q bit parent through ∙ one_edge in
        absurd (ground arith)
  ]
