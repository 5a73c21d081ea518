-- ===== src/Tests/Envelopes.antt =====
-- internal/core/carrier/envelope.go, with addresses that are sixteen bytes.
use wg_frag_go.Common.{
  ℕ, ◌≡◌, refl, true, false, List, [], ◌∷◌, ◌==◌, replicate, arith, ok, take, drop, get_or, ◌&&◌,
}
use wg_frag_go.Carrier.Envelope.{Addresses, within, marshal_envelope_to, parse_envelope}
use wg_frag_go.Carrier.Envelope.RoundTrip.{Laws, marshal_envelope_then_parse}

-- An address is its sixteen bytes, the first of them and one number for the others.
abbrev sixteen : ℕ × ℕ → List ℕ
sixteen (a, b) = a ∷ 0 ∷ 0 ∷ 0 ∷ 0 ∷ 0 ∷ 0 ∷ 0 ∷ 0 ∷ 0 ∷ 0 ∷ 0 ∷ 0 ∷ 0 ∷ 0 ∷ b ∷ []

abbrev network : Addresses (ℕ × ℕ)
network = record {
  as16 = sixteen;
  from16 = λ bytes. (get_or bytes 0 0, get_or bytes 15 0);
  is6 = λ a. true;
  zoned = λ a. false;
  is_link_local = λ (a, b). a == 254;
  same = λ (a, b) (c, d). (a == c) && (b == d);
}

network-Laws : Laws network
network-Laws = record {
  length16 = λ a. refl;
  from-as = λ a x y. refl;
  same_self = λ (a, b). ground arith;
}

-- Forty bytes of room, three of payload at the start, as the adapter reserves them.
abbrev room_ahead : List ℕ
room_ahead = 1 ∷ 2 ∷ 3 ∷ replicate 45 9

marshal_envelope_then_parse_example :
    (dst' : List ℕ) × (marshal_envelope_to network room_ahead (254, 1) (254, 2) (within 0 3)
      ≡ ok (43, dst'))
    × (parse_envelope network (take 43 dst') (254, 1) (254, 2)
        ≡ ok (record { source = (254, 1); destination = (254, 2); payload = 1 ∷ 2 ∷ 3 ∷ [] }))
    × (drop 43 dst' ≡ drop 43 room_ahead)
marshal_envelope_then_parse_example =
    marshal_envelope_then_parse network network-Laws (254, 1) (254, 2) (refl, refl) (refl, refl)
      refl room_ahead (within 0 3) (omega arith) (omega arith)
