-- ===== src/PeerRoute/Snapshot/Errors.antt =====
-- internal/core/peerroute/allowedips.go: what an error of `NewSnapshot` says, and what its success means.
use wg_frag_go.Common.{
  ℕ, suc, ◌+◌, ◌<◌, ◌≤◌, ◌≡◌, refl, sym, ap, ◌∙◌, inl, inr, true, false, List, [], ◌∷◌, Option,
  none, some, Result, Result-cases, Option-cases, ok, err, ◌==◌, length, get_elem?, arith,
  Bool-cases, subst,
}
use wg_frag_go.PeerRoute.{too_many_allowed_ips}
use wg_frag_go.PeerRoute.Snapshot.{
  Netip, AllowedIp, Duplicate, SnapshotError, invalid_entry, duplicate_entry, insert_failed,
  Snapshot, Owner, valid_allowed_prefix, find_seen, add_route, build, new_snapshot, empty_snapshot,
}
use wg_frag_go.PeerRoute.Snapshot.Failed.{add_route-err-eq}
use wg_frag_go.PeerRoute.Snapshot.Room.{
  HasNodes, Added, total_bits, total_bits-suc, add_route-Added,
}

some-injective : {A : Type 0} (a b : A) → ◌≡◌ {A = Option A} (some a) (some b) → a ≡ b
some-injective a b e = ground arith

module _ {A P : Type 0} (net : Netip A P) where
  -- What an error says is true of the entries.
  abbrev pub Explains : List (AllowedIp P) → SnapshotError P → Type 0
  Explains allowed (invalid_entry i p) =
      (entry : AllowedIp P) × (get_elem? allowed i ≡ some entry)
      × (entry.prefix ≡ p)
      × (valid_allowed_prefix net p ≡ false)
  Explains allowed (duplicate_entry d) =
      (d.first_index < d.second_index)
      × ((entry : AllowedIp P) × (get_elem? allowed d.first_index ≡ some entry)
          × (net.same (net.masked entry.prefix) d.prefix ≡ true)
          × (entry.peer_id ≡ d.first_peer))
      × ((entry : AllowedIp P) × (get_elem? allowed d.second_index ≡ some entry)
          × (net.masked entry.prefix ≡ d.prefix)
          × (entry.peer_id ≡ d.second_peer))
  Explains allowed (insert_failed i e) =
      (i < length allowed)
      × (e ≡ too_many_allowed_ips)
      × (4294967295 ≤ total_bits net (i + 1) allowed)

  -- The first `n` entries are valid, and no two of them have the same masked prefix.
  pub record AreDistinct (allowed : List (AllowedIp P)) (n : ℕ) : Type 0 where
    pub all_valid :
        (i : ℕ) (entry : AllowedIp P)
        → i < n
        → get_elem? allowed i ≡ some entry
        → valid_allowed_prefix net entry.prefix ≡ true
    pub apart :
        (i j : ℕ) (a b : AllowedIp P)
        → i < j
        → j < n
        → get_elem? allowed i ≡ some a
        → get_elem? allowed j ≡ some b
        → net.same (net.masked a.prefix) (net.masked b.prefix) ≡ false

  -- The owners that are seen are the entries below `index`.
  abbrev IsSeen : List (AllowedIp P) → ℕ → Owner P → Type 0
  IsSeen allowed index o =
      (o.index < index)
      × ((entry : AllowedIp P) × (get_elem? allowed o.index ≡ some entry)
          × (net.masked entry.prefix ≡ o.prefix)
          × (entry.peer_id ≡ o.peer))

  record Sees (allowed : List (AllowedIp P)) (index : ℕ) (seen : List (Owner P)) : Type 0 where
    found_one :
        (q : P) (o : Owner P)
        → find_seen net seen q ≡ some o
        → IsSeen allowed index o × (net.same o.prefix q ≡ true)
    found_none :
        (i : ℕ) (a : AllowedIp P) (q : P)
        → i < index
        → get_elem? allowed i ≡ some a
        → find_seen net seen q ≡ none
        → net.same (net.masked a.prefix) q ≡ false

  abbrev owner_at : ℕ → AllowedIp P → Owner P
  owner_at index entry = record {
    prefix = net.masked entry.prefix;
    index = index;
    peer = entry.peer_id;
  }

  Sees-cons :
      (allowed : List (AllowedIp P)) (index : ℕ) (seen : List (Owner P)) (entry : AllowedIp P)
      → get_elem? allowed index ≡ some entry
      → Sees allowed index seen
      → Sees allowed (index + 1) (owner_at index entry ∷ seen)
  unfolding find_seen
  Sees-cons allowed index seen entry at v = record {
    found_one = λ q o e. elim (Bool-cases (net.same (net.masked entry.prefix) q)) [
      | inl same ↦
          subst (λ x. IsSeen allowed (index + 1) x × (net.same x.prefix q ≡ true))
            {x = owner_at index entry} (ground arith) ((omega arith, (entry, at, refl, refl)), same)
      | inr other ↦
          let (is, same) = v.found_one q o (ground arith) in ((omega (arith, is.0), is.1), same)
    ];
    found_none = λ i a q lt get e. elim (Bool-cases (net.same (net.masked entry.prefix) q)) [
      | inl same ↦ absurd (ground arith)
      | inr other ↦ elim (Bool-cases (i == index)) [
        | inr below ↦ v.found_none i a q (ground arith) get (ground arith)
        | inl here ↦
            let a_eq =
              some-injective entry a
                (sym at ∙ ap (get_elem? allowed) {x = index} {y = i} (ground arith) ∙ get) in
            ap (λ x. net.same (net.masked x.prefix) q) (sym a_eq) ∙ other
      ]
    ];
  }

  AreDistinct-suc :
      (allowed : List (AllowedIp P)) (index : ℕ) (seen : List (Owner P)) (entry : AllowedIp P)
      → get_elem? allowed index ≡ some entry
      → Sees allowed index seen
      → valid_allowed_prefix net entry.prefix ≡ true
      → find_seen net seen (net.masked entry.prefix) ≡ none
      → AreDistinct allowed index
      → AreDistinct allowed (index + 1)
  AreDistinct-suc allowed index seen entry at v good fresh d = record {
    all_valid = λ i e lt get. elim (Bool-cases (i == index)) [
      | inr below ↦ d.all_valid i e (ground arith) get
      | inl here ↦
          ap (λ x. valid_allowed_prefix net x.prefix)
            (some-injective e entry
              (sym get ∙ ap (get_elem? allowed) {x = i} {y = index} (ground arith) ∙ at))
          ∙ good
    ];
    apart = λ i j a b lt le get_a get_b. elim (Bool-cases (j == index)) [
      | inr below ↦ d.apart i j a b lt (ground arith) get_a get_b
      | inl here ↦
          let j_eq : j ≡ index = ground arith in
          ap (λ x. net.same (net.masked a.prefix) (net.masked x.prefix))
            (some-injective b entry (sym get_b ∙ ap (get_elem? allowed) j_eq ∙ at))
          ∙ v.found_none i a (net.masked entry.prefix) (omega arith) get_a fresh
    ];
  }

  -- What the result of `NewSnapshot` says of the entries.
  abbrev pub Decides : List (AllowedIp P) → Result (SnapshotError P) Snapshot → Type 0
  Decides allowed (ok s) = AreDistinct allowed (length allowed)
  Decides allowed (err x) = Explains allowed x

  abbrev duplicate_of : Owner P → ℕ → AllowedIp P → Duplicate P
  duplicate_of first index entry = record {
    prefix = net.masked entry.prefix;
    first_index = first.index;
    second_index = index;
    first_peer = first.peer;
    second_peer = entry.peer_id;
  }

  build-Decides :
      (allowed : List (AllowedIp P)) (index : ℕ) (seen : List (Owner P)) (s : Snapshot)
      (es : List (AllowedIp P))
      → ((j : ℕ) → get_elem? es j ≡ get_elem? allowed (index + j))
      → index + length es ≡ length allowed
      → Sees allowed index seen
      → AreDistinct allowed index
      → HasNodes (1 + total_bits net index allowed) s
      → Decides allowed (build net index seen s es)
  unfolding build
  build-Decides allowed index seen s [] tail size v d few =
      subst (AreDistinct allowed) {x = index} {y = length allowed} (omega arith) d
  build-Decides allowed index seen s (entry ∷ es) tail size v d few =
      let at : get_elem? allowed index ≡ some entry =
        ap (get_elem? allowed) {x = index} {y = index + 0} (omega arith) ∙ sym (tail 0) in
      let masked : P = net.masked entry.prefix in
      let grown : total_bits net (index + 1) allowed
          ≡ total_bits net index allowed + net.bits masked =
        total_bits-suc net index allowed entry at in
      let counted : Added net (1 + total_bits net index allowed + net.bits masked)
          (add_route net s index masked entry.peer_id) =
        add_route-Added net (1 + total_bits net index allowed) s index masked entry.peer_id few in
      elim (Bool-cases (valid_allowed_prefix net entry.prefix)) [
        | inr bad ↦
            subst (Decides allowed) {x = err (invalid_entry index entry.prefix)} (rw bad refl)
              (entry, at, refl, bad)
        | inl good ↦ elim (Option-cases (find_seen net seen (net.masked entry.prefix))) [
          | inr (first, found) ↦
              let (is, same) = v.found_one (net.masked entry.prefix) first found in
              subst (Decides allowed) {x = err (duplicate_entry (duplicate_of first index entry))}
                (rw (good, found) refl)
                (
                  is.0,
                  (
                    is.1.0,
                    is.1.1,
                    ap (λ p. net.same p (net.masked entry.prefix)) is.1.2 ∙ same,
                    is.1.3,
                  ),
                  (entry, at, refl, refl),
                )
          | inl fresh ↦
              elim (Result-cases (add_route net s index (net.masked entry.prefix) entry.peer_id)) [
                | inr (x, bad) ↦ subst (Decides allowed) {x = err x} (rw (good, fresh, bad) refl) (
                    subst (Explains allowed)
                      (sym (
                        add_route-err-eq net s index (net.masked entry.prefix) entry.peer_id x bad))
                      (omega arith, refl, omega (arith, grown, subst (Added net _) bad counted)))
                | inl (s1, added) ↦
                    subst (Decides allowed)
                      {x = build net (index + 1) (owner_at index entry ∷ seen) s1 es}
                      (rw (good, fresh, added) refl)
                      (build-Decides allowed (index + 1) (owner_at index entry ∷ seen) s1 es
                        (λ j. tail (suc j) ∙ ap (get_elem? allowed) (omega arith)) (omega arith)
                        (Sees-cons allowed index seen entry at v)
                        (AreDistinct-suc allowed index seen entry at v good fresh d)
                        (let few1 = subst (Added net _) added counted in
                          record {
                            v4_le = omega (arith, grown, few1.v4_le);
                            v6_le = omega (arith, grown, few1.v6_le);
                          }))
              ]
        ]
      ]

  -- `NewSnapshot` accepts only entries that are all valid and that no two of which have the same masked prefix, and each
  -- of its errors is true of the entries that it names: that the one is not valid, that the first of the two precedes the
  -- second and has the same masked prefix, with the peers of both, or, for an insertion that fails with
  -- ErrTooManyAllowedIPs, that the masked prefixes of the entries up to that one have 2^32 - 1 bits or more in all.
  pub new_snapshot-Decides :
      (allowed : List (AllowedIp P)) → Decides allowed (new_snapshot net allowed)
  unfolding new_snapshot find_seen
  new_snapshot-Decides allowed =
      let d =
        build-Decides allowed 0 [] (empty_snapshot net) allowed
          (λ j. ap (get_elem? allowed) (omega arith)) (omega arith)
          (record {
            found_one = λ q o e. absurd (ground arith);
            found_none = λ i a q lt get e. absurd (omega arith);
          })
          (record {
            all_valid = λ i a lt get. absurd (omega arith);
            apart = λ i j a b lt lt' x y. absurd (omega arith);
          })
          (record { v4_le = omega arith; v6_le = omega arith }) in
      elim (Result-cases (build net 0 [] (empty_snapshot net) allowed)) [
        | inl (s, good) ↦
            subst (Decides allowed) {x = ok (record s { entries = length allowed })} (rw good refl)
              (subst (Decides allowed) good d)
        | inr (x, bad) ↦
            subst (Decides allowed) {x = err x} (rw bad refl) (subst (Decides allowed) bad d)
      ]
