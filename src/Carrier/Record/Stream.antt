-- ===== src/Carrier/Record/Stream.antt =====
-- record.go: `Parse` over a payload of records.
use wg_frag_go.Common.{
  ℕ, zero, suc, ◌+◌, ◌≤◌, ◌≡◌, ◌≢◌, inl, inr, refl, sym, ap₂, ◌∙◌, List, [], ◌∷◌, ◌++◌, Option,
  none, some, Option-cases, Result-cases, arith, length, length-append, length-drop, drop,
  take-append-drop, drop-append_self,
}
use wg_frag_go.Bytes.{IsBytes, drop-IsBytes}
use wg_frag_go.Carrier.Errors.{CarrierError, header_too_short}
use wg_frag_go.Carrier.Record.{Record, decode_record, parse_from, parse}
use wg_frag_go.Carrier.Record.RoundTrip.{
  IsHeader, IsValid, encode, length-encode, decode_record-encode, decode_record-Decoded,
  decode_size,
}

-- A record that a sender can have marshalled.
pub record IsRecord (r : Record) : Type 0 where
  pub header_ok : IsHeader r.header
  pub valid : IsValid r.header (length r.content)

abbrev pub AllRecords : List Record → Type 0
AllRecords [] = Unit {0}
AllRecords (r ∷ rs) = IsRecord r × AllRecords rs

-- The records of a payload, one behind the other.
abbrev pub encode_all : List Record → List ℕ
encode_all [] = []
encode_all (r ∷ rs) = encode r.header r.content ++ encode_all rs

module _ {ℓ κ} {S : Type ℓ} {E : Type κ} (inject : CarrierError → E)
    (visit : S → Record → S × Option E) where
  -- The callback on a list of records, up to its first error.
  abbrev pub visit_all : S → List Record → S × Option E
  visit_all s [] = (s, none)
  visit_all s (r ∷ rs) = elim ((visit s r).1) [
    | some e ↦ ((visit s r).0, some e)
    | none ↦ visit_all (visit s r).0 rs
  ]

  visit_all-next :
      (s : S) (r : Record) (rs : List Record)
      → (visit s r).1 ≡ none
      → visit_all s (r ∷ rs) ≡ visit_all (visit s r).0 rs
  visit_all-next s r rs q = rw (q, visit_all)

  visit_all-stop :
      (s : S) (r : Record) (rs : List Record) (e : E)
      → (visit s r).1 ≡ some e
      → visit_all s (r ∷ rs) ≡ ((visit s r).0, some e)
  visit_all-stop s r rs e q = rw (q, visit_all)

  -- Every record takes more than twelve bytes, so the length of the payload is enough fuel.
  parse_from_total :
      (fuel : ℕ) (s : S) (payload : List ℕ)
      → length payload ≤ fuel
      → (out : S × Option E) × (parse_from inject visit fuel s payload ≡ some out)
  unfolding parse_from
  parse_from_total fuel s [] h = ((s, none), refl)
  parse_from_total zero s (b ∷ payload) h = absurd (omega arith)
  parse_from_total (suc fuel) s (b ∷ payload) h =
      elim (Result-cases (decode_record (b ∷ payload))) [
        | inr (e, p) ↦ ((s, some (inject e)), rw (p, parse_from))
        | inl ((r, n), p) ↦ elim (Option-cases ((visit s r).1)) [
          | inr (e, q) ↦ (((visit s r).0, some e), rw (p, q, parse_from))
          | inl q ↦
              rw (p, q, parse_from)
                (parse_from_total fuel (visit s r).0 (drop n (b ∷ payload))
                  (omega (arith, decode_size (b ∷ payload) r n p, length-drop n (b ∷ payload))))
        ]
      ]

  -- `Parse` ends on every payload, whatever the callback does.
  pub parse_total :
      (s : S) (payload : List ℕ) → (out : S × Option E) × (parse inject visit s payload ≡ some out)
  unfolding parse
  parse_total s [] = ((s, some (inject header_too_short)), refl)
  parse_total s (b ∷ payload) =
      parse_from_total (length (b ∷ payload)) s (b ∷ payload) (omega arith)

  parse_from-encode_all :
      (fuel : ℕ) (s : S) (rs : List Record)
      → AllRecords rs
      → length (encode_all rs) ≤ fuel
      → parse_from inject visit fuel s (encode_all rs) ≡ some (visit_all s rs)
  unfolding parse_from
  parse_from-encode_all fuel s [] v h = refl
  parse_from-encode_all zero s (r ∷ rs) v h = absurd (omega arith)
  parse_from-encode_all (suc fuel) s (r ∷ rs) (v, vs) h =
      let step = decode_record-encode r.header r.content (encode_all rs) v.header_ok v.valid in
      elim (Option-cases ((visit s r).1)) [
        | inr (e, q) ↦ rw (step, q, parse_from, visit_all-stop s r rs e q)
        | inl q ↦
            rw
              (
                step,
                q,
                parse_from,
                visit_all-next s r rs q,
                drop-append_self (12 + length r.content) (encode r.header r.content) (encode_all rs)
                    (length-encode r.header r.content),
              )
              (parse_from-encode_all fuel (visit s r).0 rs vs
                (omega (arith, length-append (encode r.header r.content) (encode_all rs))))
      ]

  -- The records of a payload that a sender can have built reach the callback in order, up to its
  -- first error.
  pub parse-encode_all :
      (s : S) (r : Record) (rs : List Record)
      → AllRecords (r ∷ rs)
      → parse inject visit s (encode_all (r ∷ rs)) ≡ some (visit_all s (r ∷ rs))
  unfolding parse
  parse-encode_all s r rs v =
      parse_from-encode_all (length (encode_all (r ∷ rs))) s (r ∷ rs) v (omega arith)

  abbrev pub Framed : S → List ℕ → S → Type (ℓ ⊔ κ)
  Framed s payload s' =
      (rs : List Record) × AllRecords rs × (payload ≡ encode_all rs) × (visit_all s rs ≡ (s', none))

  parse_from-Framed :
      (fuel : ℕ) (s s' : S) (payload : List ℕ)
      → IsBytes payload
      → parse_from inject visit fuel s payload ≡ some (s', none)
      → Framed s payload s'
  unfolding parse_from
  parse_from-Framed fuel s s' [] b e = ([], tt, refl, cc)
  parse_from-Framed zero s s' (x ∷ payload) b e = absurd (ground arith)
  parse_from-Framed (suc fuel) s s' (x ∷ payload) b e =
      elim (Result-cases (decode_record (x ∷ payload))) [
        | inr (f, p) ↦ absurd (ground arith)
        | inl ((r, n), p) ↦ elim (Option-cases ((visit s r).1)) [
          | inr (f, q) ↦ absurd (ground arith)
          | inl q ↦
              let d = decode_record-Decoded (x ∷ payload) r n b p in
              let (rs, vs, eq, run) =
                parse_from-Framed fuel (visit s r).0 s' (drop n (x ∷ payload))
                  (drop-IsBytes n (x ∷ payload) b) (rw (p, q, parse_from) at e) in
              (
                r ∷ rs,
                (record { header_ok = d.header_ok; valid = d.valid }, vs),
                sym (ap₂ ◌++◌ d.bytes (sym eq) ∙ take-append-drop n (x ∷ payload)),
                visit_all-next s r rs q ∙ run,
              )
        ]
      ]

  -- A payload that `Parse` accepts is the encoding of one or more valid records, with no byte left
  -- over, and the callback has seen exactly these in order.
  pub parse-Framed :
      (s s' : S) (payload : List ℕ)
      → IsBytes payload
      → parse inject visit s payload ≡ some (s', none)
      → (payload ≢ []) × Framed s payload s'
  unfolding parse
  parse-Framed s s' [] b e = absurd (ground arith)
  parse-Framed s s' (x ∷ payload) b e =
      (λ h. cc, parse_from-Framed (length (x ∷ payload)) s s' (x ∷ payload) b e)
