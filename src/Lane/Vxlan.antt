-- ===== src/Lane/Vxlan.antt =====
-- internal/core/lane/lane.go: `vxlanInner` on payloads that are built from the fields of their headers.
use wg_frag_go.Common.{
  ℕ, ◌+◌, ◌<◌, ◌≡◌, refl, sym, ap, ◌∙◌, ◌⊎◌, inl, inr, true, false, List, ◌∷◌, ◌++◌, none, some,
  ltb, length, get_or, drop, arith, length-append, drop-append_self, drop-drop, get_or-drop,
  length-drop,
}
use wg_frag_go.Lane.{vxlan_inner}

-- EtherType IPv4 or IPv6, by its two bytes.
abbrev pub IsIpType : ℕ → ℕ → Type 0
IsIpType high low = (high ≡ 8) × (low ≡ 0) ⊎ (high ≡ 134) × (low ≡ 221)

-- A UDP payload with the ports `port_bytes` that holds the IP packet `inner` in a VXLAN frame: the rest of the UDP
-- header, the VXLAN header and the two Ethernet addresses are `heads`; a VLAN tag may precede the EtherType.
pub data Holds (payload : List ℕ) (port_bytes inner : List ℕ) : Type 0 where
  untagged :
      (heads : List ℕ) (high low : ℕ)
      → length heads ≡ 24
      → IsIpType high low
      → payload ≡ (port_bytes ++ heads) ++ high ∷ low ∷ inner
      → Holds payload port_bytes inner
  tagged :
      (heads : List ℕ) (t0 t1 high low : ℕ)
      → length heads ≡ 24
      → IsIpType high low
      → payload ≡ (port_bytes ++ heads) ++ 129 ∷ 0 ∷ t0 ∷ t1 ∷ high ∷ low ∷ inner
      → Holds payload port_bytes inner

-- The frame in a UDP payload.
vxlan_frame :
    (payload before after : List ℕ)
    → payload ≡ before ++ after
    → length before ≡ 28
    → (drop 28 payload ≡ after) × (length payload ≡ 28 + length after)
vxlan_frame payload before after e h = (
  ap (drop 28) e ∙ drop-append_self 28 before after h,
  ap length e ∙ length-append before after ∙ omega (arith, h),
)

frame_byte :
    (payload after : List ℕ) (k : ℕ)
    → drop 28 payload ≡ after
    → get_or (drop 16 payload) (12 + k) 0 ≡ get_or after k 0
frame_byte payload after k e =
    get_or-drop 16 payload (12 + k) 0
    ∙ ap (λ i. get_or payload i 0) {x = 16 + (12 + k)} {y = 28 + k} (omega arith)
    ∙ sym (get_or-drop 28 payload k 0)
    ∙ ap (λ xs. get_or xs k 0) e

frame_rest :
    (payload after : List ℕ) (k : ℕ)
    → drop 28 payload ≡ after
    → drop (12 + k) (drop 16 payload) ≡ drop k after
frame_rest payload after k e =
    drop-drop (12 + k) 16 payload
    ∙ ap (λ i. drop i payload) {x = 16 + (12 + k)} {y = 28 + k} (omega arith)
    ∙ sym (drop-drop k 28 payload)
    ∙ ap (drop k) e

pub vxlan_inner-Holds :
    (payload port_bytes inner : List ℕ)
    → length port_bytes ≡ 4
    → Holds payload port_bytes inner
    → vxlan_inner payload ≡ some inner
unfolding vxlan_inner
vxlan_inner-Holds payload port_bytes inner four (untagged heads high low h is e) =
    let (at28, size) =
      vxlan_frame payload (port_bytes ++ heads) _ e
        (omega (arith, four, h, length-append port_bytes heads)) in
    let byte0 = frame_byte payload _ 0 at28 in
    let byte1 = frame_byte payload _ 1 at28 in
    let rest = frame_rest payload _ 2 at28 in
    let long : ltb (length payload) 30 ≡ false = ground (arith, size) in
    elim is [
      | inl (a, b) ↦ rw (vxlan_inner, long, byte0, byte1, rest, a, b) refl
      | inr (a, b) ↦ rw (vxlan_inner, long, byte0, byte1, rest, a, b) refl
    ]
vxlan_inner-Holds payload port_bytes inner four (tagged heads t0 t1 high low h is e) =
    let (at28, size) =
      vxlan_frame payload (port_bytes ++ heads) _ e
        (omega (arith, four, h, length-append port_bytes heads)) in
    let byte0 = frame_byte payload _ 0 at28 in
    let byte1 = frame_byte payload _ 1 at28 in
    let byte4 = frame_byte payload _ 4 at28 in
    let byte5 = frame_byte payload _ 5 at28 in
    let rest = frame_rest payload _ 6 at28 in
    let short : ltb (length (drop 16 payload)) 18 ≡ false =
      ground (arith, size, length-drop 16 payload) in
    let long : ltb (length payload) 30 ≡ false = ground (arith, size) in
    elim is [
      | inl (a, b) ↦ rw (vxlan_inner, long, byte0, byte1, byte4, byte5, rest, short, a, b) refl
      | inr (a, b) ↦ rw (vxlan_inner, long, byte0, byte1, byte4, byte5, rest, short, a, b) refl
    ]

-- A payload that is too short for a frame.
pub vxlan_inner-short : (payload : List ℕ) → length payload < 30 → vxlan_inner payload ≡ none
unfolding vxlan_inner
vxlan_inner-short payload h =
    let short : ltb (length payload) 30 ≡ true = ground (arith, h) in rw (vxlan_inner, short) refl
