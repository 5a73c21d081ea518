-- ===== src/PeerRoute/Snapshot.antt =====
-- internal/core/peerroute/allowedips.go: the table of AllowedIPs, with net/netip as a parameter.
-- A nil Snapshot is `none`; `seen` is a list, the newest entry first.
pub mod Table
pub mod Longest
pub mod Failed
pub mod Room
pub mod Errors
use wg_frag_go.Common.{
  ℕ, zero, suc, ◌+◌, Bool, true, false, not, ◌&&◌, List, [], ◌∷◌, Option, none, some, Result, ok,
  err, ◌>>=◌, ◌==◌, if◌then◌else◌, length,
}
use wg_frag_go.PeerRoute.{
  RouteTrie, RouteError, invalid_allowed_ip, duplicate_allowed_ip, blank_node, insert, lookup,
}

-- What is used of `netip.Addr` and `netip.Prefix`; `same` is the operator `==`, `zoned` is `Zone() != ""`.
pub record Netip (A P : Type 0) : Type 0 where
  pub is_valid : A → Bool
  pub zoned : A → Bool
  pub is4in6 : A → Bool
  pub is4 : A → Bool
  pub as4 : A → List ℕ
  pub as16 : A → List ℕ
  pub prefix_valid : P → Bool
  pub addr : P → A
  pub bits : P → ℕ
  pub masked : P → P
  pub same : P → P → Bool

pub record AllowedIp (P : Type 0) : Type 0 where
  pub prefix : P
  pub peer_id : ℕ

-- `DuplicateAllowedIPError`.
pub record Duplicate (P : Type 0) : Type 0 where
  pub prefix : P
  pub first_index : ℕ
  pub second_index : ℕ
  pub first_peer : ℕ
  pub second_peer : ℕ

-- The errors of `NewSnapshot`: an `InvalidAllowedIPError`, a `DuplicateAllowedIPError`, or what `insert`
-- failed with, each with the index of the entry.
pub data SnapshotError (P : Type 0) : Type 0 where
  invalid_entry : ℕ → P → SnapshotError P
  duplicate_entry : Duplicate P → SnapshotError P
  insert_failed : ℕ → RouteError → SnapshotError P

-- The methods `Unwrap`.
abbrev pub unwrap : {P : Type 0} → SnapshotError P → RouteError
unwrap (invalid_entry i p) = invalid_allowed_ip
unwrap (duplicate_entry d) = duplicate_allowed_ip
unwrap (insert_failed i e) = e

pub record Snapshot : Type 0 where
  pub v4 : RouteTrie
  pub v6 : RouteTrie
  pub entries : ℕ

pub record Owner (P : Type 0) : Type 0 where
  pub prefix : P
  pub index : ℕ
  pub peer : ℕ

module _ {A P : Type 0} (net : Netip A P) where
  unfoldable pub valid_lookup_address : A → Bool
  valid_lookup_address a = net.is_valid a && not (net.zoned a) && not (net.is4in6 a)

  unfoldable pub valid_allowed_prefix : P → Bool
  valid_allowed_prefix p =
      net.prefix_valid p
      && net.is_valid (net.addr p)
      && not (net.zoned (net.addr p))
      && not (net.is4in6 (net.addr p))

  unfoldable pub find_seen : List (Owner P) → P → Option (Owner P)
  find_seen [] p = none
  find_seen (o ∷ os) p = let rest = find_seen os p in if net.same o.prefix p then some o else rest

  -- `insert` of the source, which takes the bytes of the address.
  unfoldable pub insert_prefix : RouteTrie → P → ℕ → Result RouteError RouteTrie
  insert_prefix nodes p peer =
      if net.is4 (net.addr p)
      then insert nodes (net.as4 (net.addr p)) (net.bits p) peer
      else insert nodes (net.as16 (net.addr p)) (net.bits p) peer

  abbrev pub wrap : ℕ → Result RouteError RouteTrie → Result (SnapshotError P) RouteTrie
  wrap index (ok t) = ok t
  wrap index (err e) = err (insert_failed index e)

  -- The entry goes into the trie of its family.
  unfoldable pub add_route : Snapshot → ℕ → P → ℕ → Result (SnapshotError P) Snapshot
  add_route s index p peer = elim (net.is4 (net.addr p)) [
    | true ↦ do t ← wrap index (insert_prefix s.v4 p peer); ok (record s { v4 = t })
    | false ↦ do t ← wrap index (insert_prefix s.v6 p peer); ok (record s { v6 = t })
  ]

  unfoldable pub build :
      ℕ → List (Owner P) → Snapshot → List (AllowedIp P) → Result (SnapshotError P) Snapshot
  build index seen s [] = ok s
  build index seen s (entry ∷ rest) =
      if not (valid_allowed_prefix entry.prefix)
      then err (invalid_entry index entry.prefix)
      else elim (find_seen seen (net.masked entry.prefix)) [
        | some first ↦ err (
            duplicate_entry (record {
              prefix = net.masked entry.prefix;
              first_index = first.index;
              second_index = index;
              first_peer = first.peer;
              second_peer = entry.peer_id;
            }))
        | none ↦ do
          s1 ← add_route s index (net.masked entry.prefix) entry.peer_id
          build (index + 1)
              (record { prefix = net.masked entry.prefix; index = index; peer = entry.peer_id }
                ∷ seen)
              s1 rest
      ]

  abbrev pub empty_snapshot : Snapshot
  empty_snapshot = record { v4 = blank_node ∷ []; v6 = blank_node ∷ []; entries = 0 }

  unfoldable pub new_snapshot : List (AllowedIp P) → Result (SnapshotError P) Snapshot
  new_snapshot allowed = do
    s ← build 0 [] empty_snapshot allowed
    ok (record s { entries = length allowed })

  unfoldable pub lookup_peer : Option Snapshot → A → ℕ × Bool
  lookup_peer none address = (0, false)
  lookup_peer (some s) address =
      if not (valid_lookup_address address)
      then (0, false)
      else (if net.is4 address
          then lookup 32 s.v4 (net.as4 address)
          else lookup 128 s.v6 (net.as16 address))

  unfoldable pub validate_source : Option Snapshot → ℕ → A → Bool
  validate_source s peer source = (lookup_peer s source).1 && ((lookup_peer s source).0 == peer)

-- `Len`.
abbrev pub len : Option Snapshot → ℕ
len none = 0
len (some s) = s.entries
