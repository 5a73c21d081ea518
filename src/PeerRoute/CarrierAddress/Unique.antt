-- ===== src/PeerRoute/CarrierAddress/Unique.antt =====
-- internal/core/peerroute/carrier_address.go: when all keys have addresses of their own.
use wg_frag_go.Common.{
  ℕ, suc, ◌+◌, ◌≤◌, ◌≡◌, ◌↔◌, refl, sym, ap, ◌∙◌, inl, inr, false, List, [], ◌∷◌, none, some,
  Option-cases, Result, Result-cases, ok, err, ◌>>=◌, ◌==◌, length, arith, Bool-cases, subst,
}
use wg_frag_go.PeerRoute.CarrierAddress.{
  Digests, KeyError, key_at, collision, derive_carrier_address, find_address, wrap_key, derive_from,
  derive_unique_carrier_addresses,
}

module _ {A : Type 0} (net : Digests A) where
  -- Each key's address, in order.
  abbrev pub Derives : List (List ℕ) → List A → Type 0
  Derives [] [] = Unit
  Derives (key ∷ keys) (a ∷ out) = (derive_carrier_address net key ≡ ok a) × Derives keys out
  Derives [] (a ∷ out) = ⊥
  Derives (key ∷ keys) [] = ⊥

  -- The address is none of these.
  abbrev pub Misses : A → List A → Type 0
  Misses a [] = Unit
  Misses a (b ∷ bs) = (net.same a b ≡ false) × Misses a bs

  -- No address equals a later one.
  abbrev pub AreApart : List A → Type 0
  AreApart [] = Unit
  AreApart (a ∷ out) = Misses a out × AreApart out

  abbrev SeenMiss : List (A × ℕ) → List A → Type 0
  SeenMiss [] out = Unit
  SeenMiss ((b, i) ∷ seen) out = Misses b out × SeenMiss seen out

  SeenMiss-cons :
      (seen : List (A × ℕ)) (a : A) (out : List A)
      → find_address net seen a ≡ none
      → SeenMiss seen out
      → SeenMiss seen (a ∷ out)
  unfolding find_address
  SeenMiss-cons [] a out e v = tt
  SeenMiss-cons ((b, i) ∷ seen) a out e (v, vs) = elim (Bool-cases (net.same b a)) [
    | inl same ↦ absurd (ground arith)
    | inr other ↦ ((other, v), SeenMiss-cons seen a out (ground arith) vs)
  ]

  SeenMiss-find :
      (seen : List (A × ℕ)) (a : A) (out : List A)
      → SeenMiss seen (a ∷ out)
      → (find_address net seen a ≡ none) × SeenMiss seen out
  unfolding find_address
  SeenMiss-find [] a out v = (refl, tt)
  SeenMiss-find ((b, i) ∷ seen) a out ((other, v), vs) =
      let (fresh, rest) = SeenMiss-find seen a out vs in (rw (other, fresh) refl, (v, rest))

  SeenMiss-empty : (seen : List (A × ℕ)) → SeenMiss seen []
  SeenMiss-empty [] = tt
  SeenMiss-empty ((b, i) ∷ seen) = (tt, SeenMiss-empty seen)

  -- A round of the loop, from where it has an address.
  abbrev after : ℕ → List (A × ℕ) → List (List ℕ) → A → Result (KeyError A) (List A)
  after index seen keys a = elim (find_address net seen a) [
    | some first ↦
        err (collision (record { address = a; first_index = first; second_index = index }))
    | none ↦ derive_from net (index + 1) ((a, index) ∷ seen) keys >>= λ rest. ok (a ∷ rest)
  ]

  derive_from-step :
      (index : ℕ) (seen : List (A × ℕ)) (key : List ℕ) (keys : List (List ℕ))
      (r : Result (KeyError A) A)
      → derive_carrier_address net key ≡ r
      → derive_from net index seen (key ∷ keys) ≡ wrap_key net index r >>= after index seen keys
  unfolding derive_from
  derive_from-step index seen key keys r e =
      ap (λ x. wrap_key net index x >>= after index seen keys) e

  after_fresh :
      (index : ℕ) (seen : List (A × ℕ)) (keys : List (List ℕ)) (a : A)
      (r : Result (KeyError A) (List A))
      → find_address net seen a ≡ none
      → derive_from net (index + 1) ((a, index) ∷ seen) keys ≡ r
      → after index seen keys a ≡ r >>= λ rest. ok (a ∷ rest)
  after_fresh index seen keys a r fresh e = rw (after, fresh, e) refl

  after_seen :
      (index : ℕ) (seen : List (A × ℕ)) (keys : List (List ℕ)) (a : A) (first : ℕ)
      → find_address net seen a ≡ some first
      → after index seen keys a
        ≡ err (collision (record { address = a; first_index = first; second_index = index }))
  after_seen index seen keys a first e = rw (after, e) refl

  not_err :
      {B : Type 0} (b : B) (x : KeyError A) → ¬ (◌≡◌ {A = Result (KeyError A) B} (ok b) (err x))
  not_err b x e = ground arith

  ok-injective : {B : Type 0} (a b : B) → ◌≡◌ {A = Result (KeyError A) B} (ok a) (ok b) → a ≡ b
  ok-injective a b e = ground arith

  derive_from-Derives :
      (index : ℕ) (seen : List (A × ℕ)) (keys : List (List ℕ)) (out : List A)
      → derive_from net index seen keys ≡ ok out
      → Derives keys out × AreApart out × SeenMiss seen out
  unfolding derive_from
  derive_from-Derives index seen [] [] e = (tt, tt, SeenMiss-empty seen)
  derive_from-Derives index seen [] (a ∷ out) e = absurd (ground arith)
  derive_from-Derives index seen (key ∷ keys) out e =
      elim (Result-cases (derive_carrier_address net key)) [
        | inr (x, bad) ↦ absurd (
            not_err out (key_at index x) (sym e ∙ derive_from-step index seen key keys (err x) bad))
        | inl (a, good) ↦
            let e1 = sym (derive_from-step index seen key keys (ok a) good) ∙ e in
            elim (Option-cases (find_address net seen a)) [
              | inr (first, found) ↦
                  absurd (not_err out _ (sym e1 ∙ after_seen index seen keys a first found))
              | inl fresh ↦
                  elim (Result-cases (derive_from net (index + 1) ((a, index) ∷ seen) keys)) [
                    | inr (x, bad) ↦
                        absurd
                          (not_err out x (sym e1 ∙ after_fresh index seen keys a (err x) fresh bad))
                    | inl (rest, good_rest) ↦
                        let (d, p, (misses, v)) =
                          derive_from-Derives (index + 1) ((a, index) ∷ seen) keys rest good_rest in
                        subst (λ o. Derives (key ∷ keys) o × AreApart o × SeenMiss seen o)
                          (ok-injective (a ∷ rest) out
                            (sym (after_fresh index seen keys a (ok rest) fresh good_rest) ∙ e1))
                          ((good, d), (misses, p), SeenMiss-cons seen a rest fresh v)
                  ]
            ]
      ]

  derive_from-ok :
      (index : ℕ) (seen : List (A × ℕ)) (keys : List (List ℕ)) (out : List A)
      → Derives keys out
      → AreApart out
      → SeenMiss seen out
      → derive_from net index seen keys ≡ ok out
  unfolding derive_from
  derive_from-ok index seen [] [] d p v = refl
  derive_from-ok index seen [] (a ∷ out) d p v = absurd d
  derive_from-ok index seen (key ∷ keys) [] d p v = absurd d
  derive_from-ok index seen (key ∷ keys) (a ∷ out) (e, d) (misses, p) v =
      let (fresh, rest) = SeenMiss-find seen a out v in
      derive_from-step index seen key keys (ok a) e
      ∙ after_fresh index seen keys a (ok out) fresh
          (derive_from-ok (index + 1) ((a, index) ∷ seen) keys out d p (misses, rest))

  -- `DeriveUniqueCarrierAddresses` returns exactly the address of each key, in order, and exactly if there is a key, each
  -- key has an address and no two of them are equal.
  pub derive_unique_carrier_addresses-AreApart :
      (keys : List (List ℕ)) (out : List A)
      → (derive_unique_carrier_addresses net keys ≡ ok out)
        ↔ ((1 ≤ length keys) × Derives keys out × AreApart out)
  unfolding derive_unique_carrier_addresses
  derive_unique_carrier_addresses-AreApart [] out =
      (λ e. absurd (ground arith), λ (pos, d, p). absurd (omega arith))
  derive_unique_carrier_addresses-AreApart (key ∷ keys) out =
      let some_keys : (suc (length keys) == 0) ≡ false = ground arith in
      let same : derive_unique_carrier_addresses net (key ∷ keys)
          ≡ derive_from net 0 [] (key ∷ keys) =
        rw some_keys refl in
      (
        λ e.
            let (d, p, v) = derive_from-Derives 0 [] (key ∷ keys) out (sym same ∙ e) in
            (omega arith, d, p),
        λ (pos, d, p). same ∙ derive_from-ok 0 [] (key ∷ keys) out d p tt,
      )
