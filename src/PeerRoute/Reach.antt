-- ===== src/PeerRoute/Reach.antt =====
-- internal/core/peerroute/allowedips.go: the loop of `insert` adds the path of a prefix, and changes no entry.
use native.Mathlib.Nat.{mod-eq_of_lt}
use wg_frag_go.Common.{
  ℕ, zero, suc, ◌+◌, ◌-◌, ◌%◌, ◌≤◌, ◌<◌, ◌≡◌, refl, sym, ap, ap₂, ◌∙◌, inl, inr, Bool, true, false,
  List, [], ◌∷◌, ◌++◌, Option, none, some, Result, Result-cases, ok, err, ◌>>=◌, leb, ◌==◌, length,
  arith, Bool-cases, subst, append_assoc, append-nil,
}
use wg_frag_go.PeerRoute.{
  RouteTrie, RouteError, too_many_allowed_ips, node_at, child_at, child, insert_from, address_bit,
}
use wg_frag_go.PeerRoute.Walk.{walk, peer_from, node_peer, path_from}
use wg_frag_go.PeerRoute.Grow.{
  IsTrie, walk-lt, walk-snoc, grown, length-grown, peer-grown, walk-grown_new, walk-Leads,
  walk-grown_keeps, edge_cases, new_edge, one_edge, get_or_behind,
}

append-snoc_end : (p q : List Bool) (b : Bool) → p ≡ q → p ++ b ∷ [] ≡ q ++ b ∷ []
append-snoc_end p q b e = ap (λ x. x ++ b ∷ []) e

-- What a trie holds where a walk ends.
abbrev pub peer_of : RouteTrie → Option ℕ → Option ℕ
peer_of t o = elim o [ none ↦ none | some j ↦ node_peer (node_at t j) ]

-- A trie that holds what another one holds.
pub record Extends (nodes out : RouteTrie) : Type 0 where
  pub trie : IsTrie out
  pub holds_eq : (p : List Bool) → peer_from out 0 p ≡ peer_from nodes 0 p

module _ (nodes : RouteTrie) (v : IsTrie nodes) (parent : ℕ) (bit : Bool)
    (gone : child_at (node_at nodes parent) bit ≡ 0) (path : List Bool)
    (leads : walk nodes 0 path ≡ some parent) where
  lt : parent < length nodes
  lt = walk-lt nodes 0 path parent v.inside v.nonempty leads

  abbrev out : RouteTrie
  out = grown nodes parent bit lt gone

  grown-inside : (i : ℕ) (b : Bool) → child_at (node_at out i) b ≤ length out
  grown-inside i b = elim (edge_cases nodes parent bit lt gone i b) [
    | inl (here, same) ↦ omega (
      arith,
      length-grown nodes parent bit lt gone,
      ap₂ (λ n c. child_at (node_at out n) c) here same ∙ new_edge nodes parent bit lt gone,
    )
    | inr keeps ↦ omega (arith, length-grown nodes parent bit lt gone, keeps, v.inside i b)
  ]

  grown-apart : (p q : List Bool) (i : ℕ) → walk out 0 p ≡ some i → walk out 0 q ≡ some i → p ≡ q
  grown-apart p q i hp hq = elim (walk-Leads nodes parent bit lt gone 0 p) [
    | inl wp ↦ elim (walk-Leads nodes parent bit lt gone 0 q) [
      | inl wq ↦ v.apart p q i (sym wp ∙ hp) (sym wq ∙ hq)
      | inr (wq, (q', eq, through)) ↦
          let small = walk-lt nodes 0 p i v.inside v.nonempty (sym wp ∙ hp) in
          let i_eq : i ≡ length nodes = ground arith in absurd (omega arith)
    ]
    | inr (wp, (p', ep, through_p)) ↦ elim (walk-Leads nodes parent bit lt gone 0 q) [
      | inl wq ↦
          let small = walk-lt nodes 0 q i v.inside v.nonempty (sym wq ∙ hq) in
          let i_eq : i ≡ length nodes = ground arith in absurd (omega arith)
      | inr (wq, (q', eq, through_q)) ↦
          ep ∙ append-snoc_end p' q' bit (v.apart p' q' parent through_p through_q) ∙ sym eq
    ]
  ]

  peer_of-grown : (o : Option ℕ) → peer_of out o ≡ peer_of nodes o
  peer_of-grown none = refl
  peer_of-grown (some j) = peer-grown nodes parent bit lt gone j

  grown-Extends : Extends nodes out
  grown-Extends = record {
    trie = record {
      nonempty = omega (arith, length-grown nodes parent bit lt gone);
      inside = grown-inside;
      apart = grown-apart;
    };
    holds_eq = λ p. elim (walk-Leads nodes parent bit lt gone 0 p) [
      | inl w ↦ ap (peer_of out) w ∙ peer_of-grown (walk nodes 0 p)
      | inr (w, (q, e, through)) ↦
          ap (peer_of out) w
          ∙ peer_of-grown (some (length nodes))
          ∙ ap node_peer (get_or_behind nodes (length nodes) (omega arith))
          ∙ sym (
              ap (peer_of nodes) (
                ap (walk nodes 0) e
                ∙ walk-snoc nodes 0 q bit parent through
                ∙ one_edge nodes parent bit lt gone))
    ];
  }

  grown_leads : walk out 0 (path ++ bit ∷ []) ≡ some (length nodes)
  unfolding walk
  grown_leads =
      walk-snoc out 0 path bit parent
        (walk-grown_keeps nodes parent bit lt gone 0 path parent leads)
      ∙ walk-grown_new nodes parent bit lt gone []

-- A trie in which a path leads to the node `i`.
pub record Reaches (nodes : RouteTrie) (path : List Bool) (out : RouteTrie) (i : ℕ) : Type 0 where
  pub extends : Extends nodes out
  pub leads : walk out 0 path ≡ some i

Reaches-trans :
    (a b c : RouteTrie) (p q : List Bool) (i j : ℕ)
    → Reaches a p b i
    → Reaches b q c j
    → Reaches a q c j
Reaches-trans a b c p q i j x y = record {
  extends = record {
    trie = y.extends.trie;
    holds_eq = λ r. y.extends.holds_eq r ∙ x.extends.holds_eq r;
  };
  leads = y.leads;
}

child-grown :
    (nodes : RouteTrie) (parent : ℕ) (bit : Bool) (lt : parent < length nodes)
    (gone : child_at (node_at nodes parent) bit ≡ 0)
    → length nodes < 4294967295
    → child nodes parent bit ≡ ok (grown nodes parent bit lt gone, length nodes)
unfolding child
child-grown nodes parent bit lt gone small =
    let room : leb 4294967295 (length nodes) ≡ false = ground arith in
    let missing : (child_at (node_at nodes parent) bit == 0) ≡ true = ground arith in
    let index_eq : length nodes % 4294967296 ≡ length nodes = mod-eq_of_lt (omega arith) in
    let next_eq : (length nodes + 1) % 4294967296 ≡ length nodes + 1 = mod-eq_of_lt (omega arith) in
    rw (missing, room, index_eq, next_eq) refl

child_full :
    (nodes : RouteTrie) (parent : ℕ) (bit : Bool)
    → child_at (node_at nodes parent) bit ≡ 0
    → 4294967295 ≤ length nodes
    → child nodes parent bit ≡ err too_many_allowed_ips
unfolding child
child_full nodes parent bit gone full =
    let no_room : leb 4294967295 (length nodes) ≡ true = ground arith in
    let missing : (child_at (node_at nodes parent) bit == 0) ≡ true = ground arith in
    rw (missing, no_room) refl

pub ok-injective : {A : Type 0} (a b : A) → ◌≡◌ {A = Result RouteError A} (ok a) (ok b) → a ≡ b
ok-injective a b e = ground arith

pub ok_not_any :
    {A : Type 0} (a : A) (x : RouteError) → ¬ (◌≡◌ {A = Result RouteError A} (ok a) (err x))
ok_not_any a x e = ground arith

child-Reaches :
    (nodes : RouteTrie) (path : List Bool) (parent : ℕ) (bit : Bool) (out : RouteTrie) (i : ℕ)
    → IsTrie nodes
    → walk nodes 0 path ≡ some parent
    → child nodes parent bit ≡ ok (out, i)
    → Reaches nodes (path ++ bit ∷ []) out i
unfolding child walk
child-Reaches nodes path parent bit out i v leads e =
    elim (Bool-cases (child_at (node_at nodes parent) bit == 0)) [
      | inr there ↦
          let same : nodes ≡ out = ground arith in
          let index : child_at (node_at nodes parent) bit - 1 ≡ i = ground arith in
          subst (λ o. Reaches nodes (path ++ bit ∷ []) o i) same
            (record {
              extends = record { trie = v; holds_eq = λ p. refl };
              leads = walk-snoc nodes 0 path bit parent leads ∙ rw there (ap some index);
            })
      | inl missing ↦
          let gone : child_at (node_at nodes parent) bit ≡ 0 = ground arith in
          elim (Bool-cases (leb 4294967295 (length nodes))) [
            | inl full ↦ absurd (
                ok_not_any (out, i) too_many_allowed_ips
                  (sym e ∙ child_full nodes parent bit gone (ground arith)))
            | inr room ↦
                let lt = walk-lt nodes 0 path parent v.inside v.nonempty leads in
                let same =
                  ok-injective _ _
                    (sym (child-grown nodes parent bit lt gone (ground arith)) ∙ e) in
                subst (λ o. Reaches nodes (path ++ bit ∷ []) o.0 o.1) same
                  (record {
                    extends = grown-Extends nodes v parent bit gone path leads;
                    leads = grown_leads nodes v parent bit gone path leads;
                  })
          ]
    ]

pub insert_from-Reaches :
    (rounds depth : ℕ) (nodes : RouteTrie) (i : ℕ) (address : List ℕ) (path : List Bool)
    (out : RouteTrie) (j : ℕ)
    → IsTrie nodes
    → walk nodes 0 path ≡ some i
    → insert_from rounds depth nodes i address ≡ ok (out, j)
    → Reaches nodes (path ++ path_from rounds depth address) out j
unfolding insert_from
insert_from-Reaches zero depth nodes i address path out j v leads e =
    subst (λ o. Reaches nodes (path ++ []) o.0 o.1) (ok-injective (nodes, i) (out, j) e)
      (record {
        extends = record { trie = v; holds_eq = λ p. refl };
        leads = ap (walk nodes 0) (append-nil path) ∙ leads;
      })
insert_from-Reaches (suc rounds) depth nodes i address path out j v leads e =
    let b = address_bit address depth in
    elim (Result-cases (child nodes i b)) [
      | inr (x, bad) ↦ absurd (
          ok_not_any (out, j) x
            (sym e ∙ ap (λ o. o >>= λ t. insert_from rounds (depth + 1) t.0 t.1 address) bad))
      | inl (t, good) ↦
          let first = child-Reaches nodes path i b t.0 t.1 v leads good in
          let rest =
            insert_from-Reaches rounds (depth + 1) t.0 t.1 address (path ++ b ∷ []) out j
              first.extends.trie first.leads
              (sym (ap (λ o. o >>= λ t. insert_from rounds (depth + 1) t.0 t.1 address) good)
                ∙ e) in
          subst (λ p. Reaches nodes p out j)
            (append_assoc path (b ∷ []) (path_from rounds (depth + 1) address))
            (Reaches-trans nodes t.0 out (path ++ b ∷ []) _ t.1 j first rest)
    ]
