-- ===== src/Lib.antt =====
-- wg-frag-go: the packet fragmentation and packing core of the WGF tunnel.
--
-- An inner IP packet, which internal/core/innerip checks, is cut into DATA records
-- (internal/core/fragment, by a plan of internal/core/packing). internal/core/packetizer encodes the
-- records one behind the other into carrier payloads (internal/core/carrier) and calls the emitter.
-- The receiver walks a payload and decodes them again, internal/core/reassembly puts the records of a
-- packet together in one of its slots, and internal/core/reorder puts the completed
-- packets of a lane back in sequence. How large a carrier may be is what the path MTU search of
-- internal/core/pmtu finds out for each peer.
-- internal/core/lane gives each packet one of 256 lanes, internal/core/peerroute says which peer owns
-- an address, internal/core/control frames the messages of the control plane, and internal/memoryplan
-- says what the buffers of all of this take.
--
-- Common: the library names that all modules share, Boolean tests on numbers, lists with native
--   indices and writes into a buffer, Go's value-or-error pairs, signed integers.
-- Bytes: the big-endian words of encoding/binary.
-- Limits: internal/core/limits/limits.go (MinCarrierPayload, ValidateInnerMTU,
--   ValidateMinCarrierPayload).
-- Carrier.Record: internal/core/carrier/record.go (MarshalTo, DecodeRecord, Parse, validate);
--   RoundTrip is about single records and Stream about payloads. A buffer is a list of numbers below
--   256; a call that writes returns the new buffer. Parse takes a callback over a state of any type.
-- Carrier.Envelope: internal/core/carrier/envelope.go (MarshalEnvelopeTo, DecodeEnvelope,
--   ParseEnvelope), with net/netip as the parameter Addresses. The payload to write may lie in the
--   buffer. What a wrapped error says of the address at fault is not kept.
-- InnerIp: internal/core/innerip/fragment.go (Parse, ParseExact, HasNativeFragment), with the address
--   constructors of net/netip as parameters; Chain is about the IPv6 extension headers, Exact about
--   ParseExact.
-- Packing: internal/core/packing/plan.go (MakePlan, ceilDiv), with the bounds of a plan in Bounds.
-- Control.Frame: internal/core/control/frame.go (NewCodec, MarshalTo, Parse), the framing of control
--   messages; the message may lie in the buffer that is written.
-- Lane: internal/core/lane/lane.go (NewClassifier, Lane), with hash/maphash as a parameter. Headers,
--   Extensions and Vxlan are about packets built from the fields of their headers, Flow about the bytes
--   that are hashed for them.
-- Fragment: internal/core/fragment/fragment.go (Split); Cover is about the loop, Split about the
--   whole function. The caller's descriptor slice is given by its length.
-- Packetizer: internal/core/packetizer/packetizer.go (Init, Add, Flush, Reset); Pack is about one record
--   and a flush, Add about the loop and the call as a whole, Init about Init. The emitter is a function
--   on a state of any type; Emitter is the record of what a proof asks of it.
-- Pmtu: internal/core/pmtu/pmtu.go, State and its methods. Search has the rounds (beginRound,
--   finishRound, success, failure, nextCandidate), Machine the calls of the control plane and runs of
--   them. Inv and Steps are the invariant, Live the absence of a stall, Silence probes that
--   are never answered, Converges the result of a search. Instants are numbers of nanoseconds; uint32 sums wrap.
-- Reassembly: internal/core/reassembly/reassembly.go. Reassembly has the state and New, Index the
--   open-address index from keys to slots, Slots the free list, start, eviction and clearing of slots,
--   Accept the exported calls. Pieces, Complete and Content are about the slot that a packet fills, Lookup
--   and Insert about the index, Serve and Arrival about one call of Accept, Reassemble about a run of them, Start about
--   the first fragment under a key. FromSplit and Transfer join it to Split. A panic, or a loop that does not
--   end, is a Fault. The bits of present are a list; each slot has its own buffer.
-- Reorder: internal/core/reorder/reorder.go, the queue that puts the completed packets of a lane back
--   in sequence. Reorder has the state and the loops, Queue the exported calls. Held is about what an
--   entry search finds, Emits about packets that leave one by one, Loops about the loops, Inv about the
--   state, Accept, Deliver, Enqueue and Calls about Accept, Flush about the other calls, Run about
--   sequences of calls.
-- PeerRoute: internal/core/peerroute/allowedips.go. PeerRoute has the tries (child, insert, lookup4 and
--   lookup6), Snapshot the table of AllowedIPs (NewSnapshot, LookupPeer, ValidateSource, Len), with
--   net/netip as the parameter Netip. Bits is about the bits of an address, Walk about lookups in a trie, Grow, Reach and Insert about insertions,
--   Snapshot.Table, Longest, Failed, Room and Errors about the table as a whole. CarrierAddress is carrier_address.go
--   (DeriveCarrierAddress, DeriveUniqueCarrierAddresses), with blake2s as a parameter.
-- MemoryPlan: internal/memoryplan/estimate.go (Calculate, product), in uint64; Gates is about the checked
--   product and sum, Exact about Calculate.
-- Tests: runs on small inputs.
--
-- Numbers are natural numbers with Go's ranges as hypotheses (IsHeader, IsMetadata, IsBytes); int is
-- signed where the code tests for a negative value, and is not bounded: but for MemoryPlan, which writes
-- the wrap out, no sum of these functions comes near 2^63.
--
-- Fuel. Parse takes the length of the payload, and each record takes thirteen bytes or more of it.
-- finishRound and beginRound call one another at most three times in a search. Each round of a loop of
-- the reorder queue clears an entry or hands out the incoming packet, so the loops have the number of
-- entries, or of held packets, as fuel. The loops over the index of the
-- reassembler have as many rounds as the index has entries, and the doubling of keyIndexSize 64, more than
-- an int can be doubled. The walk over IPv6 extension headers has the four rounds that
-- the source gives it, here and in the lane classifier, whose other recursion ends with its depth. A trie
-- lookup and an insertion have the number of bits.
--
-- Not modelled: aliasing of packet bytes in descriptors and decoded records, the texts of errors, and
-- the parts of the program outside the packages above.
pub mod Common
pub mod Bytes
pub mod Carrier
pub mod InnerIp
pub mod Lane
pub mod Limits
pub mod MemoryPlan
pub mod Packing
pub mod Control
pub mod Fragment
pub mod Pmtu
pub mod PeerRoute
pub mod Reassembly
pub mod Packetizer
pub mod Reorder
pub mod Tests
