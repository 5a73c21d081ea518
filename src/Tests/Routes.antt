-- ===== src/Tests/Routes.antt =====
-- internal/core/peerroute: 64.0.0.0/2 is the first peer's, 96.0.0.0/3 the second one's.
use wg_frag_go.Common.{
  ◌≤◌, ◌++◌, drop, replicate, ℕ, ◌≡◌, ◌*◌, ◌↔◌, refl, Bool, true, false, not, ◌&&◌, List, [], ◌∷◌,
  some, ok, arith, ◌==◌, if◌then◌else◌,
}
use wg_frag_go.PeerRoute.{address_bit, child, insert_from, insert, lookup_from, lookup}
use wg_frag_go.PeerRoute.Snapshot.{
  Netip, AllowedIp, Snapshot, valid_lookup_address, valid_allowed_prefix, find_seen, insert_prefix,
  add_route, build, new_snapshot, lookup_peer, validate_source,
}
use wg_frag_go.PeerRoute.Walk.{path_from}
use wg_frag_go.PeerRoute.Bits.{number_after, number-path_from}
use wg_frag_go.PeerRoute.Snapshot.Longest.{Finds, Owns, lookup_peer-Finds, validate_source-Owns}
use wg_frag_go.PeerRoute.CarrierAddress.{
  Digests, derive_unique_carrier_addresses, derive_from, derive_carrier_address, find_address,
  address_bytes, is_all_zero, combine,
}
use wg_frag_go.PeerRoute.CarrierAddress.Unique.{
  Derives, AreApart, derive_unique_carrier_addresses-AreApart,
}
use wg_frag_go.PeerRoute.Snapshot.Errors.{Decides, new_snapshot-Decides}

abbrev Addr : Type 0
Addr = Bool × List ℕ

abbrev same_list : List ℕ → List ℕ → Bool
same_list [] [] = true
same_list (a ∷ xs) (b ∷ ys) = (a == b) && same_list xs ys
same_list [] (b ∷ ys) = false
same_list (a ∷ xs) [] = false

-- An address is its family and its bytes; a prefix is given with its bits already masked.
abbrev network : Netip Addr (Addr × ℕ)
network = record {
  is_valid = λ a. true;
  zoned = λ a. false;
  is4in6 = λ a. false;
  is4 = λ a. a.0;
  as4 = λ a. a.1;
  as16 = λ a. a.1;
  prefix_valid = λ p. true;
  addr = λ p. p.0;
  bits = λ p. p.1;
  masked = λ p. p;
  same = λ p q. (if p.0.0 then q.0.0 else not q.0.0) && (p.1 == q.1) && same_list p.0.1 q.0.1;
}

abbrev wide : AllowedIp (Addr × ℕ)
wide = record { prefix = ((true, 64 ∷ 0 ∷ 0 ∷ 0 ∷ []), 2); peer_id = 1 }

abbrev narrow : AllowedIp (Addr × ℕ)
narrow = record { prefix = ((true, 96 ∷ 0 ∷ 0 ∷ 0 ∷ []), 3); peer_id = 2 }

abbrev snapshot : Snapshot
snapshot = record {
  v4 =
      record { zero_child = 2; one_child = 0; peer_id = 0; has_peer = false }
      ∷ record { zero_child = 0; one_child = 3; peer_id = 0; has_peer = false }
      ∷ record { zero_child = 0; one_child = 4; peer_id = 1; has_peer = true }
      ∷ record { zero_child = 0; one_child = 0; peer_id = 2; has_peer = true }
      ∷ [];
  v6 = record { zero_child = 0; one_child = 0; peer_id = 0; has_peer = false } ∷ [];
  entries = 2;
}

builds : new_snapshot network (wide ∷ narrow ∷ []) ≡ ok snapshot
unfolding new_snapshot build find_seen valid_allowed_prefix add_route insert_prefix insert
    insert_from child address_bit
builds = refl

abbrev address : Addr
address = (true, 100 ∷ 1 ∷ 2 ∷ 3 ∷ [])

finds_narrow : lookup_peer network (some snapshot) address ≡ (2, true)
unfolding lookup_peer valid_lookup_address lookup lookup_from address_bit
finds_narrow = refl

finds_wide : lookup_peer network (some snapshot) (true, 70 ∷ 1 ∷ 2 ∷ 3 ∷ []) ≡ (1, true)
unfolding lookup_peer valid_lookup_address lookup lookup_from address_bit
finds_wide = refl

lookup_peer-Finds_example :
    Finds network (wide ∷ narrow ∷ []) address (lookup_peer network (some snapshot) address)
lookup_peer-Finds_example = lookup_peer-Finds network (wide ∷ narrow ∷ []) snapshot address builds

validate_source-Owns_example :
    (validate_source network (some snapshot) 2 address ≡ true)
    ↔ Owns network (wide ∷ narrow ∷ []) 2 address
validate_source-Owns_example =
    validate_source-Owns network (wide ∷ narrow ∷ []) snapshot 2 address builds

new_snapshot-Decides_example :
    Decides network (wide ∷ narrow ∷ wide ∷ []) (new_snapshot network (wide ∷ narrow ∷ wide ∷ []))
new_snapshot-Decides_example = new_snapshot-Decides network (wide ∷ narrow ∷ wide ∷ [])

-- A digest that is the key itself.
abbrev digests : Digests (List ℕ)
digests = record { sum256 = drop 27; from16 = λ bytes. bytes; same = same_list }

abbrev key_of : ℕ → List ℕ
key_of n = n ∷ replicate 31 0

abbrev address_of : ℕ → List ℕ
address_of n = 254 ∷ 128 ∷ replicate 6 0 ++ n ∷ replicate 7 0

derives_two :
    derive_unique_carrier_addresses digests (key_of 1 ∷ key_of 2 ∷ [])
    ≡ ok (address_of 1 ∷ address_of 2 ∷ [])
unfolding derive_unique_carrier_addresses derive_from derive_carrier_address find_address
    address_bytes is_all_zero combine
derives_two = refl

derive_unique_carrier_addresses-AreApart_example :
    (derive_unique_carrier_addresses digests (key_of 1 ∷ key_of 2 ∷ [])
      ≡ ok (address_of 1 ∷ address_of 2 ∷ []))
    ↔ ((1 ≤ 2)
        × Derives digests (key_of 1 ∷ key_of 2 ∷ []) (address_of 1 ∷ address_of 2 ∷ [])
        × AreApart digests (address_of 1 ∷ address_of 2 ∷ []))
derive_unique_carrier_addresses-AreApart_example =
    derive_unique_carrier_addresses-AreApart digests (key_of 1 ∷ key_of 2 ∷ [])
      (address_of 1 ∷ address_of 2 ∷ [])

number-path_from_example : number_after 0 (path_from 8 (8 * 1) (10 ∷ 77 ∷ 0 ∷ 1 ∷ [])) ≡ 77
number-path_from_example = number-path_from (10 ∷ 77 ∷ 0 ∷ 1 ∷ []) 1 (omega arith)
