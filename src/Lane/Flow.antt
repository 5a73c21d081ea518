-- ===== src/Lane/Flow.antt =====
-- internal/core/lane/lane.go: the bytes of a flow, for packets that are built from the fields of their headers.
use wg_frag_go.Common.{ℕ, zero, suc, ◌+◌, ◌*◌, ◌<◌, ◌≡◌, ◌≢◌, ◌⊎◌, List, [], ◌∷◌, ◌++◌, length}
use wg_frag_go.Lane.Vxlan.{Holds}
use wg_frag_go.Lane.Headers.{IsIp}

-- TCP, UDP and SCTP, whose payload begins with two ports.
abbrev pub IsPorted : ℕ → Type 0
IsPorted protocol = (protocol ≡ 6) ⊎ (protocol ≡ 17) ⊎ (protocol ≡ 132)

-- The bytes of the flow of a packet, with at most `depth` packets in one another.
pub data Flow : ℕ → List ℕ → List ℕ → Type 0 where
  -- Too deep.
  deep : {packet : List ℕ} → Flow zero packet []
  -- No ports.
  portless :
      {depth protocol : ℕ} {packet addresses payload : List ℕ}
      → IsIp packet addresses protocol payload
      → ¬ IsPorted protocol ⊎ (length payload < 4)
      → Flow (suc depth) packet (addresses ++ protocol ∷ [])
  -- Ports, and no VXLAN frame: not UDP, another destination port, or a payload below 30 bytes.
  ported :
      {depth protocol : ℕ} {packet addresses rest : List ℕ} (s0 s1 d0 d1 : ℕ)
      → IsIp packet addresses protocol (s0 ∷ s1 ∷ d0 ∷ d1 ∷ rest)
      → IsPorted protocol
      → (protocol ≢ 17) ⊎ (d0 * 256 + d1 ≢ 4789) ⊎ (4 + length rest < 30)
      → Flow (suc depth) packet (addresses ++ protocol ∷ [] ++ s0 ∷ s1 ∷ d0 ∷ d1 ∷ [])
  -- UDP to the port of VXLAN, with a packet inside.
  nested :
      {depth : ℕ} {packet addresses rest inner bytes : List ℕ} (s0 s1 d0 d1 : ℕ)
      → IsIp packet addresses 17 (s0 ∷ s1 ∷ d0 ∷ d1 ∷ rest)
      → d0 * 256 + d1 ≡ 4789
      → Holds (s0 ∷ s1 ∷ d0 ∷ d1 ∷ rest) (s0 ∷ s1 ∷ d0 ∷ d1 ∷ []) inner
      → Flow depth inner bytes
      → Flow (suc depth) packet (addresses ++ 17 ∷ [] ++ s0 ∷ s1 ∷ d0 ∷ d1 ∷ [] ++ bytes)
