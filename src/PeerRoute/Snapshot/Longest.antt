-- ===== src/PeerRoute/Snapshot/Longest.antt =====
-- internal/core/peerroute/allowedips.go: a lookup in a Snapshot finds the longest prefix among the entries.
use wg_frag_go.Common.{
  ℕ, ◌≤◌, ◌<◌, ◌≡◌, ◌↔◌, refl, sym, ap, ◌∙◌, ◌⊎◌, inl, inr, Bool, true, false, List, Option, none,
  some, ok, ◌==◌, length, take, arith, Bool-cases, subst,
}
use wg_frag_go.PeerRoute.{lookup}
use wg_frag_go.PeerRoute.Walk.{path_from, IsLongest, lookup-IsLongest}
use wg_frag_go.PeerRoute.Snapshot.{
  Netip, AllowedIp, Snapshot, valid_lookup_address, new_snapshot, lookup_peer, validate_source,
}
use wg_frag_go.PeerRoute.Snapshot.Table.{owner_of, Tables-new_snapshot}

ordered : (k j : ℕ) → (k < j) ⊎ (k ≡ j) ⊎ (j < k)
ordered k j = ground arith

some-injective : (m n : ℕ) → ◌≡◌ {A = Option ℕ} (some m) (some n) → m ≡ n
some-injective m n e = ground arith

module _ {A P : Type 0} (net : Netip A P) where
  -- The bits of an address of one family (`four`).
  abbrev pub address_path : Bool → A → List Bool
  address_path true a = path_from 32 0 (net.as4 a)
  address_path false a = path_from 128 0 (net.as16 a)

  -- What `LookupPeer` returns for an address: nothing for an address that is not valid, scoped or IPv4-mapped, and
  -- else the owner of the longest prefix.
  abbrev pub Finds : List (AllowedIp P) → A → ℕ × Bool → Type 0
  Finds allowed a out =
      (valid_lookup_address net a ≡ false) × (out ≡ (0, false))
      ⊎ (valid_lookup_address net a ≡ true)
        × IsLongest (owner_of net (net.is4 a) allowed) (address_path (net.is4 a) a) out

  IsLongest-of_same :
      (t u : List Bool → Option ℕ) (bits : List Bool) (out : ℕ × Bool)
      → ((q : List Bool) → t q ≡ u q)
      → IsLongest t bits out
      → IsLongest u bits out
  IsLongest-of_same t u bits out same (inl (e, nothing)) =
      inl (e, λ l h. sym (same _) ∙ nothing l h)
  IsLongest-of_same t u bits out same (inr (e, (k, le, found, longer))) =
      inr (e, (k, le, sym (same _) ∙ found, λ l h m. sym (same _) ∙ longer l h m))

  -- With the Snapshot that `NewSnapshot` builds, `LookupPeer` agrees with a search through the list of entries: it
  -- returns the peer of the longest prefix of the address's family that contains the address, or that there is none.
  pub lookup_peer-Finds :
      (allowed : List (AllowedIp P)) (s : Snapshot) (a : A)
      → new_snapshot net allowed ≡ ok s
      → Finds allowed a (lookup_peer net (some s) a)
  unfolding lookup_peer
  lookup_peer-Finds allowed s a e =
      let v = Tables-new_snapshot net allowed s e in
      elim (Bool-cases (valid_lookup_address net a)) [
        | inr bad ↦ inl (bad, rw bad refl)
        | inl good ↦ elim (Bool-cases (net.is4 a)) [
          | inl four ↦ inr (
            good,
            subst
                (λ b.
                  IsLongest (owner_of net b allowed) (address_path b a)
                    (lookup_peer net (some s) a))
                (sym four)
                (subst (IsLongest (owner_of net true allowed) (address_path true a))
                  {x = lookup 32 s.v4 (net.as4 a)} (rw (good, four) refl)
                  (IsLongest-of_same _ _ _ _ v.v4_eq
                    (lookup-IsLongest 32 s.v4 (net.as4 a) v.v4_trie.nonempty))),
          )
          | inr six ↦ inr (
            good,
            subst
                (λ b.
                  IsLongest (owner_of net b allowed) (address_path b a)
                    (lookup_peer net (some s) a))
                (sym six)
                (subst (IsLongest (owner_of net false allowed) (address_path false a))
                  {x = lookup 128 s.v6 (net.as16 a)} (rw (good, six) refl)
                  (IsLongest-of_same _ _ _ _ v.v6_eq
                    (lookup-IsLongest 128 s.v6 (net.as16 a) v.v6_trie.nonempty))),
          )
        ]
      ]

  -- The peer has the longest prefix of the address.
  abbrev pub Owns : List (AllowedIp P) → ℕ → A → Type 0
  Owns allowed peer a =
      (valid_lookup_address net a ≡ true)
      × ((k : ℕ) × (k ≤ length (address_path (net.is4 a) a))
          × (owner_of net (net.is4 a) allowed (take k (address_path (net.is4 a) a)) ≡ some peer)
          × ((l : ℕ)
              → k < l
              → l ≤ length (address_path (net.is4 a) a)
              → owner_of net (net.is4 a) allowed (take l (address_path (net.is4 a) a)) ≡ none))

  validated :
      (s : Snapshot) (peer : ℕ) (a : A)
      → (lookup_peer net (some s) a).1 ≡ true
      → (lookup_peer net (some s) a).0 ≡ peer
      → validate_source net (some s) peer a ≡ true
  unfolding validate_source
  validated s peer a found owner =
      let same : ((lookup_peer net (some s) a).0 == peer) ≡ true = ground arith in
      rw (found, same) refl

  validated_only :
      (s : Snapshot) (peer : ℕ) (a : A)
      → validate_source net (some s) peer a ≡ true
      → ((lookup_peer net (some s) a).1 ≡ true) × ((lookup_peer net (some s) a).0 ≡ peer)
  unfolding validate_source
  validated_only s peer a e = elim (Bool-cases (lookup_peer net (some s) a).1) [
    | inr none_found ↦ absurd (ground arith)
    | inl found ↦ (found, ground arith)
  ]

  -- `ValidateSource` accepts an address from a peer exactly if the longest prefix that contains it is the peer's: a peer
  -- with a shorter prefix cannot use it.
  pub validate_source-Owns :
      (allowed : List (AllowedIp P)) (s : Snapshot) (peer : ℕ) (a : A)
      → new_snapshot net allowed ≡ ok s
      → (validate_source net (some s) peer a ≡ true) ↔ Owns allowed peer a
  validate_source-Owns allowed s peer a e = (
    λ valid.
        let (found, owner) = validated_only s peer a valid in
        elim (lookup_peer-Finds allowed s a e) [
          | inl (bad, out) ↦ absurd (cc (found, ap (λ o. o.1) out))
          | inr (good, inl (missing, nothing)) ↦ absurd (cc (found, missing))
          | inr (good, inr (there, (k, le, at, longer))) ↦
              (good, (k, le, at ∙ ap some owner, longer))
        ],
    λ (good, (k, le, at, longer)). elim (lookup_peer-Finds allowed s a e) [
      | inl (bad, out) ↦ absurd (cc (good, bad))
      | inr (good', inl (missing, nothing)) ↦ absurd (cc (nothing k le, at))
      | inr (good', inr (there, (j, le_j, at_j, longer_j))) ↦ elim (ordered k j) [
        | inl lt ↦ absurd (cc (longer j lt le_j, at_j))
        | inr (inr gt) ↦ absurd (cc (longer_j k gt le, at))
        | inr (inl eq) ↦ validated s peer a there (
            some-injective _ peer (
              sym at_j
              ∙ ap (λ n. owner_of net (net.is4 a) allowed (take n (address_path (net.is4 a) a)))
                  (sym eq)
              ∙ at))
      ]
    ],
  )
