-- ===== src/PeerRoute/CarrierAddress.antt =====
-- internal/core/peerroute/carrier_address.go: the hidden address of a public key.
-- BLAKE2s and the constructor and the operator `==` of netip.Addr are parameters; `seen` is a list.
pub mod Unique
use wg_frag_go.Common.{
  ℕ, zero, suc, ◌+◌, Bool, true, false, not, ◌&&◌, ◌||◌, List, [], ◌∷◌, ◌++◌, Option, none, some,
  Result, ok, err, ◌>>=◌, ◌>>◌, refuse, ◌==◌, if◌then◌else◌, length, take, replicate, copy_at,
  bit_or,
}

abbrev pub public_key_size : ℕ
public_key_size = 32

-- The bytes of "wg-frag/carrier-address/v1:".
abbrev pub carrier_address_domain : List ℕ
carrier_address_domain =
    119 ∷ 103 ∷ 45 ∷ 102 ∷ 114 ∷ 97 ∷ 103 ∷ 47 ∷ 99 ∷ 97 ∷ 114 ∷ 114 ∷ 105 ∷ 101 ∷ 114 ∷ 45 ∷ 97
    ∷ 100 ∷ 100 ∷ 114 ∷ 101 ∷ 115 ∷ 115 ∷ 47 ∷ 118 ∷ 49 ∷ 58 ∷ []

-- What is used of blake2s and of net/netip.
pub record Digests (A : Type 0) : Type 0 where
  pub sum256 : List ℕ → List ℕ
  pub from16 : List ℕ → A
  pub same : A → A → Bool

-- `AddressCollisionError`.
pub record Collision (A : Type 0) : Type 0 where
  pub address : A
  pub first_index : ℕ
  pub second_index : ℕ

pub data KeyError (A : Type 0) : Type 0 where
  invalid_public_key no_public_keys : KeyError A
  key_at : ℕ → KeyError A → KeyError A
  collision : Collision A → KeyError A

-- The loop of `isAllZero`.
unfoldable pub combine : ℕ → List ℕ → ℕ
combine combined [] = combined
combine combined (b ∷ bs) = combine (bit_or combined b) bs

unfoldable pub is_all_zero : List ℕ → Bool
is_all_zero value = combine 0 value == 0

module _ {A : Type 0} (net : Digests A) where
  -- The sixteen bytes of the address.
  unfoldable pub address_bytes : List ℕ → List ℕ
  address_bytes digest = copy_at 8 (take 8 digest) (254 ∷ 128 ∷ replicate 14 0)

  unfoldable pub derive_carrier_address : List ℕ → Result (KeyError A) A
  derive_carrier_address key = do
    refuse (not (length key == public_key_size) || is_all_zero key) invalid_public_key
    ok (net.from16 (address_bytes (net.sum256 (carrier_address_domain ++ key))))

  unfoldable pub find_address : List (A × ℕ) → A → Option ℕ
  find_address [] a = none
  find_address ((b, i) ∷ seen) a =
      let rest = find_address seen a in if net.same b a then some i else rest

  abbrev pub wrap_key : ℕ → Result (KeyError A) A → Result (KeyError A) A
  wrap_key index (ok a) = ok a
  wrap_key index (err e) = err (key_at index e)

  -- The loop of `DeriveUniqueCarrierAddresses`.
  unfoldable pub derive_from : ℕ → List (A × ℕ) → List (List ℕ) → Result (KeyError A) (List A)
  derive_from index seen [] = ok []
  derive_from index seen (key ∷ keys) = do
    a ← wrap_key index (derive_carrier_address key)
    elim (find_address seen a) [
      | some first ↦
          err (collision (record { address = a; first_index = first; second_index = index }))
      | none ↦ do rest ← derive_from (index + 1) ((a, index) ∷ seen) keys; ok (a ∷ rest)
    ]

  unfoldable pub derive_unique_carrier_addresses : List (List ℕ) → Result (KeyError A) (List A)
  derive_unique_carrier_addresses keys = do
    refuse (length keys == 0) no_public_keys
    derive_from 0 [] keys
