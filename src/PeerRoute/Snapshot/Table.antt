-- ===== src/PeerRoute/Snapshot/Table.antt =====
-- internal/core/peerroute/allowedips.go: the tries of a Snapshot hold the table that the entries make.
use wg_frag_go.Common.{
  ℕ, zero, suc, ◌+◌, ◌≡◌, refl, sym, ap, ◌∙◌, inl, inr, Bool, true, false, not, ◌&&◌, List, [], ◌∷◌,
  Option, none, some, Result, Result-cases, Option-cases, ok, err, ◌>>=◌, if◌then◌else◌, length,
  arith, Bool-cases, subst,
}
use wg_frag_go.PeerRoute.{RouteTrie, RouteError, blank_node, node_at, child_at, insert}
use wg_frag_go.PeerRoute.Walk.{walk, node_peer, peer_from, path_from}
use wg_frag_go.PeerRoute.Grow.{IsTrie}
use wg_frag_go.PeerRoute.Insert.{Adds, insert-Adds}
use wg_frag_go.PeerRoute.Snapshot.{
  Netip, AllowedIp, SnapshotError, Snapshot, Owner, valid_allowed_prefix, find_seen, insert_prefix,
  wrap, add_route, build, new_snapshot, empty_snapshot,
}

unfoldable pub same_path : List Bool → List Bool → Bool
same_path [] [] = true
same_path [] (b ∷ q) = false
same_path (b ∷ p) [] = false
same_path (true ∷ p) (true ∷ q) = same_path p q
same_path (false ∷ p) (false ∷ q) = same_path p q
same_path (true ∷ p) (false ∷ q) = false
same_path (false ∷ p) (true ∷ q) = false

same_path-eq : (p q : List Bool) → same_path p q ≡ true → p ≡ q
unfolding same_path
same_path-eq [] [] e = refl
same_path-eq [] (b ∷ q) e = absurd (ground arith)
same_path-eq (b ∷ p) [] e = absurd (ground arith)
same_path-eq (true ∷ p) (true ∷ q) e = ap (◌∷◌ true) (same_path-eq p q e)
same_path-eq (false ∷ p) (false ∷ q) e = ap (◌∷◌ false) (same_path-eq p q e)
same_path-eq (true ∷ p) (false ∷ q) e = absurd (ground arith)
same_path-eq (false ∷ p) (true ∷ q) e = absurd (ground arith)

same_path_refl : (p : List Bool) → same_path p p ≡ true
unfolding same_path
same_path_refl [] = refl
same_path_refl (true ∷ p) = same_path_refl p
same_path_refl (false ∷ p) = same_path_refl p

-- A blank root holds nothing.
one_blank : (i : ℕ) → node_at (blank_node ∷ []) i ≡ blank_node
one_blank zero = refl
one_blank (suc i) = refl

blank_edge : (i : ℕ) (b : Bool) → child_at (node_at (blank_node ∷ []) i) b ≡ 0
blank_edge zero true = refl
blank_edge zero false = refl
blank_edge (suc i) true = refl
blank_edge (suc i) false = refl

blank_walk : (b : Bool) (p : List Bool) → walk (blank_node ∷ []) 0 (b ∷ p) ≡ none
unfolding walk
blank_walk true p = refl
blank_walk false p = refl

blank_empty : (p : List Bool) (i : ℕ) → walk (blank_node ∷ []) 0 p ≡ some i → p ≡ []
blank_empty [] i e = refl
blank_empty (b ∷ p) i e = let stop = blank_walk b p in absurd (ground arith)

blank-IsTrie : IsTrie (blank_node ∷ [])
blank-IsTrie = record {
  nonempty = omega arith;
  inside = λ i b. omega (arith, blank_edge i b);
  apart = λ p q i x y. blank_empty p i x ∙ sym (blank_empty q i y);
}

blank_holds : (p : List Bool) → peer_from (blank_node ∷ []) 0 p ≡ none
unfolding walk
blank_holds [] = refl
blank_holds (b ∷ p) =
    ap (λ o. elim o [ none ↦ none | some j ↦ node_peer (node_at (blank_node ∷ []) j) ])
      (blank_walk b p)

module _ {A P : Type 0} (net : Netip A P) where
  -- The bits of a prefix.
  abbrev pub prefix_path : P → List Bool
  prefix_path p =
      path_from (net.bits p) 0
        (if net.is4 (net.addr p) then net.as4 (net.addr p) else net.as16 (net.addr p))

  -- The peer of the last entry with these bits in this family: the table that the entries make.
  unfoldable pub owner_of : Bool → List (AllowedIp P) → List Bool → Option ℕ
  owner_of four [] path = none
  owner_of four (entry ∷ rest) path = elim (owner_of four rest path) [
    | some peer ↦ some peer
    | none ↦
        if (if net.is4 (net.addr (net.masked entry.prefix)) then four else not four)
          && same_path (prefix_path (net.masked entry.prefix)) path
        then some entry.peer_id
        else none
  ]

  -- Both tries are tries, and hold a table each.
  pub record Tables (table : Bool → List Bool → Option ℕ) (s : Snapshot) : Type 0 where
    pub v4_trie : IsTrie s.v4
    pub v6_trie : IsTrie s.v6
    pub v4_eq : (q : List Bool) → peer_from s.v4 0 q ≡ table true q
    pub v6_eq : (q : List Bool) → peer_from s.v6 0 q ≡ table false q

  -- A table with one prefix more.
  abbrev with_route : P → ℕ → (Bool → List Bool → Option ℕ) → Bool → List Bool → Option ℕ
  with_route p peer table four q =
      if (if net.is4 (net.addr p) then four else not four) && same_path (prefix_path p) q
      then some peer
      else table four q

  Adds-path :
      (nodes : RouteTrie) (path : List Bool) (peer : ℕ) (out : RouteTrie)
      (table : List Bool → Option ℕ)
      → Adds nodes path peer out
      → ((q : List Bool) → peer_from nodes 0 q ≡ table q)
      → (q : List Bool) → peer_from out 0 q ≡ (if same_path path q then some peer else table q)
  Adds-path nodes path peer out table x holds q = elim (Bool-cases (same_path path q)) [
    | inl here ↦ ap (peer_from out 0) (sym (same_path-eq path q here)) ∙ x.new_eq ∙ rw here refl
    | inr other ↦
        x.old_eq q (λ e. absurd (cc (other, ap (same_path path) e, same_path_refl path)))
        ∙ holds q
        ∙ rw other refl
  ]

  wrap-ok :
      {B : Type 0} (index : ℕ) (r : Result RouteError RouteTrie)
      (next : RouteTrie → Result (SnapshotError P) B) (out : B)
      → wrap net index r >>= next ≡ ok out
      → (t : RouteTrie) × (r ≡ ok t) × (next t ≡ ok out)
  wrap-ok index (ok t) next out e = (t, refl, e)
  wrap-ok index (err x) next out e = absurd (ground arith)

  ok_snapshot : (a b : Snapshot) → ◌≡◌ {A = Result (SnapshotError P) Snapshot} (ok a) (ok b) → a ≡ b
  ok_snapshot a b e = ground arith

  pub add_route_v4 :
      (s : Snapshot) (index : ℕ) (p : P) (peer : ℕ)
      → net.is4 (net.addr p) ≡ true
      → add_route net s index p peer
        ≡ wrap net index (insert s.v4 (net.as4 (net.addr p)) (net.bits p) peer) >>= λ t.
            ok (record s { v4 = t })
  unfolding add_route insert_prefix
  add_route_v4 s index p peer four = rw (add_route, four, insert_prefix, four) refl

  pub add_route_v6 :
      (s : Snapshot) (index : ℕ) (p : P) (peer : ℕ)
      → net.is4 (net.addr p) ≡ false
      → add_route net s index p peer
        ≡ wrap net index (insert s.v6 (net.as16 (net.addr p)) (net.bits p) peer) >>= λ t.
            ok (record s { v6 = t })
  unfolding add_route insert_prefix
  add_route_v6 s index p peer six = rw (add_route, six, insert_prefix, six) refl

  Tables-add_route :
      (table : Bool → List Bool → Option ℕ) (s : Snapshot) (index : ℕ) (p : P) (peer : ℕ)
      (out : Snapshot)
      → Tables table s
      → add_route net s index p peer ≡ ok out
      → Tables (with_route p peer table) out
  Tables-add_route table s index p peer out v e = elim (Bool-cases (net.is4 (net.addr p))) [
    | inl four ↦
        let (t, inserted, done) =
          wrap-ok index _ _ out (sym (add_route_v4 s index p peer four) ∙ e) in
        let x = insert-Adds s.v4 (net.as4 (net.addr p)) (net.bits p) peer t v.v4_trie inserted in
        subst (Tables (with_route p peer table)) (ok_snapshot _ out done) (record {
          v4_trie = x.trie;
          v6_trie = v.v6_trie;
          v4_eq = λ q. Adds-path s.v4 _ peer t (table true) x v.v4_eq q ∙ rw four refl;
          v6_eq = λ q. v.v6_eq q ∙ rw four refl;
        })
    | inr six ↦
        let (t, inserted, done) =
          wrap-ok index _ _ out (sym (add_route_v6 s index p peer six) ∙ e) in
        let x = insert-Adds s.v6 (net.as16 (net.addr p)) (net.bits p) peer t v.v6_trie inserted in
        subst (Tables (with_route p peer table)) (ok_snapshot _ out done) (record {
          v4_trie = v.v4_trie;
          v6_trie = x.trie;
          v4_eq = λ q. v.v4_eq q ∙ rw six refl;
          v6_eq = λ q. Adds-path s.v6 _ peer t (table false) x v.v6_eq q ∙ rw six refl;
        })
  ]

  abbrev over : Option ℕ → Option ℕ → Option ℕ
  over o rest = elim o [ some peer ↦ some peer | none ↦ rest ]

  -- The table of the entries, above another one.
  abbrev above : List (AllowedIp P) → (Bool → List Bool → Option ℕ) → Bool → List Bool → Option ℕ
  above es table four q = over (owner_of four es q) (table four q)

  Tables-of_same :
      (a b : Bool → List Bool → Option ℕ) (s : Snapshot)
      → ((four : Bool) (q : List Bool) → a four q ≡ b four q)
      → Tables a s
      → Tables b s
  Tables-of_same a b s same v = record {
    v4_trie = v.v4_trie;
    v6_trie = v.v6_trie;
    v4_eq = λ q. v.v4_eq q ∙ same true q;
    v6_eq = λ q. v.v6_eq q ∙ same false q;
  }

  layered :
      (o : Option ℕ) (b : Bool) (peer : ℕ) (rest : Option ℕ)
      → over o (if b then some peer else rest) ≡ over (over o (if b then some peer else none)) rest
  layered (some n) b peer rest = refl
  layered none true peer rest = refl
  layered none false peer rest = refl

  above-cons :
      (entry : AllowedIp P) (es : List (AllowedIp P)) (table : Bool → List Bool → Option ℕ)
      (four : Bool) (q : List Bool)
      → above es (with_route (net.masked entry.prefix) entry.peer_id table) four q
        ≡ above (entry ∷ es) table four q
  unfolding owner_of
  above-cons entry es table four q =
      layered (owner_of four es q)
        ((if net.is4 (net.addr (net.masked entry.prefix)) then four else not four)
          && same_path (prefix_path (net.masked entry.prefix)) q)
        entry.peer_id (table four q)

  -- What an entry has done when `build` goes through.
  pub build-next :
      (index : ℕ) (seen : List (Owner P)) (s : Snapshot) (entry : AllowedIp P)
      (es : List (AllowedIp P)) (out : Snapshot)
      → build net index seen s (entry ∷ es) ≡ ok out
      → (s1 : Snapshot) × (add_route net s index (net.masked entry.prefix) entry.peer_id ≡ ok s1)
        × (build net
              (index + 1)
              (record { prefix = net.masked entry.prefix; index = index; peer = entry.peer_id }
                ∷ seen)
              s1
              es
            ≡ ok out)
        × (find_seen net seen (net.masked entry.prefix) ≡ none)
        × (valid_allowed_prefix net entry.prefix ≡ true)
  unfolding build
  build-next index seen s entry es out e =
      elim (Bool-cases (valid_allowed_prefix net entry.prefix)) [
        | inr bad ↦ absurd (ground arith)
        | inl good ↦ elim (Option-cases (find_seen net seen (net.masked entry.prefix))) [
          | inr (first, found) ↦ absurd (ground arith)
          | inl fresh ↦
              elim (Result-cases (add_route net s index (net.masked entry.prefix) entry.peer_id)) [
                | inr (x, bad) ↦ absurd (ground arith)
                | inl (s1, added) ↦ (s1, added, ground arith, fresh, good)
              ]
        ]
      ]

  Tables-build :
      (index : ℕ) (seen : List (Owner P)) (table : Bool → List Bool → Option ℕ) (s : Snapshot)
      (es : List (AllowedIp P)) (out : Snapshot)
      → Tables table s
      → build net index seen s es ≡ ok out
      → Tables (above es table) out
  unfolding build owner_of
  Tables-build index seen table s [] out v e = subst (Tables table) (ok_snapshot s out e) v
  Tables-build index seen table s (entry ∷ es) out v e =
      let (s1, added, rest, fresh, good) = build-next index seen s entry es out e in
      Tables-of_same _ _ out (above-cons entry es table) (
        Tables-build (index + 1) _ (with_route (net.masked entry.prefix) entry.peer_id table) s1 es
          out (Tables-add_route table s index (net.masked entry.prefix) entry.peer_id s1 v added)
          rest)

  over-none : (o : Option ℕ) → over o none ≡ o
  over-none (some n) = refl
  over-none none = refl

  pub Tables-new_snapshot :
      (allowed : List (AllowedIp P)) (s : Snapshot)
      → new_snapshot net allowed ≡ ok s
      → Tables (λ four. owner_of four allowed) s
  unfolding new_snapshot
  Tables-new_snapshot allowed s e =
      elim (Result-cases (build net 0 [] (empty_snapshot net) allowed)) [
        | inr (x, bad) ↦ absurd (ground arith)
        | inl (t, built) ↦
            let v =
              Tables-build 0 [] (λ four q. none) (empty_snapshot net) allowed t
                (record {
                  v4_trie = blank-IsTrie;
                  v6_trie = blank-IsTrie;
                  v4_eq = blank_holds;
                  v6_eq = blank_holds;
                })
                built in
            subst (Tables (λ four. owner_of four allowed))
              {x = record t { entries = length allowed }} (ground arith)
              (record {
                v4_trie = v.v4_trie;
                v6_trie = v.v6_trie;
                v4_eq = λ q. v.v4_eq q ∙ over-none (owner_of true allowed q);
                v6_eq = λ q. v.v6_eq q ∙ over-none (owner_of false allowed q);
              })
      ]
