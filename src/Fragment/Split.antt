-- ===== src/Fragment/Split.antt =====
-- fragment.go: what `Split` promises on every packet.
use wg_frag_go.Common.{
  ℕ, zero, suc, ◌-◌, ◌*◌, ◌≤◌, ◌<◌, ◌≡◌, ◌↔◌, sym, subst, ◌∙◌, ◌⊎◌, inl, inr, min, true, List, [],
  ◌∷◌, ok, arith, Result-cases, length, length-take, drop, concat, map, ℤ, pos, pos_part,
}
use wg_frag_go.Carrier.Record.Stream.{AllRecords}
use wg_frag_go.Packing.{Plan, make_plan}
use wg_frag_go.Packing.Bounds.{TailPlan, FreshPlan, make_plan-cases, make_plan_iff}
use wg_frag_go.Fragment.{
  Metadata, Fragment, Options, SplitResult, capacity, split_loop, split_plan, split,
}
use wg_frag_go.Fragment.Cover.{
  IsMetadata, Covers, concat-Covers, length-Covers, Covers-AllRecords, split_loop-TailPlan,
  split_loop-FreshPlan,
}

-- The plan that `Split` works by, and the ranges of its arguments.
pub record Planned (packet : List ℕ) (c r output_len : ℕ) (p : Plan) : Type 0 where
  pub len_pos : 1 ≤ length packet
  pub len_le : length packet ≤ 9612
  pub carrier_gt : 12 < c
  pub carrier_le : c ≤ 65535
  pub remaining_le : r ≤ c
  pub room : p.fragments ≤ output_len
  pub shape : TailPlan (length packet) (c - 12) (r - 12) p ⊎ FreshPlan (length packet) (c - 12) p

module _ (packet : List ℕ) (m : Metadata) (n : ℕ) (p : Plan) where
  planned :
      (c r k : ℤ)
      → split_plan packet m (record { carrier_payload = c; carrier_remaining = r; min_pack = k }) n
        ≡ ok p
      → Planned packet (pos_part c) (pos_part r) n p
  unfolding split_plan
  planned (pos c) (pos r) (pos k) e = ground (arith, make_plan-cases (length packet) c r k p)
  planned _ _ _ e = ground arith

abbrev FirstFits : ℕ → List Fragment → Type 0
FirstFits n [] = Unit {0}
FirstFits n (f ∷ fs) = length f.content ≤ n

FirstFits-mono : {a b : ℕ} (fs : List Fragment) → a ≤ b → FirstFits a fs → FirstFits b fs
FirstFits-mono [] h f = tt
FirstFits-mono (x ∷ fs) h f = omega arith

module _ (packet : List ℕ) (m : Metadata) (p : Plan) (full : ℕ) where
  split_loop-FirstFits :
      (rounds offset : ℕ)
      → FirstFits (capacity packet m p full 0) (split_loop packet m p full rounds 0 offset).0
  unfolding split_loop
  split_loop-FirstFits zero offset = tt
  split_loop-FirstFits (suc rounds) offset = omega (
    arith,
    length-take (min (capacity packet m p full 0) (length packet - offset)) (drop offset packet),
  )

-- What `Split` delivers.
pub record Cut (packet : List ℕ) (m : Metadata) (options : Options) (output_len : ℕ)
    (r : SplitResult) : Type 0 where
  pub whole : concat (map (λ f. f.content) r.fragments) ≡ packet
  pub covers :
      Covers packet m (length r.fragments) (pos_part options.carrier_payload - 12) 0 0 r.fragments
  pub records : IsMetadata m → AllRecords r.fragments
  pub count_le : length r.fragments ≤ 16
  pub room : length r.fragments ≤ output_len
  pub tail_fits :
      r.start_in_tail ≡ true → FirstFits (pos_part options.carrier_remaining - 12) r.fragments

module _ (packet : List ℕ) (m : Metadata) (options : Options) (n : ℕ) where
  full : ℕ
  full = pos_part options.carrier_payload - 12

  abbrev Completed : Plan → Type 0
  Completed p =
      let out = split_loop packet m p full p.fragments 0 0 in
      Covers packet m p.fragments full 0 0 out.0 × (out.1 ≡ length packet)

  loop-Completed :
      (p : Plan)
      → Planned packet (pos_part options.carrier_payload) (pos_part options.carrier_remaining) n p
      → Completed p
  unfolding full
  loop-Completed p q = elim q.shape [
    | inl t ↦
        split_loop-TailPlan packet m p full q.len_le t.count_le
          (pos_part options.carrier_remaining - 12) (omega (arith, q.remaining_le)) q.len_pos
          (omega (arith, q.carrier_gt)) t
    | inr f ↦
        split_loop-FreshPlan packet m p full q.len_le f.count_le (omega (arith, q.carrier_gt)) f
  ]

  loop-FirstFits :
      (p : Plan)
      → Planned packet (pos_part options.carrier_payload) (pos_part options.carrier_remaining) n p
      → p.start_in_tail ≡ true
      → FirstFits
          (pos_part options.carrier_remaining - 12)
          (split_loop packet m p full p.fragments 0 0).0
  unfolding capacity
  loop-FirstFits p q e =
      FirstFits-mono (split_loop packet m p full p.fragments 0 0).0 (ground (arith, q.shape))
        (split_loop-FirstFits packet m p full p.fragments 0)

  split-parts :
      (r : SplitResult)
      → split packet m options n ≡ ok r
      → (p : Plan) × (split_plan packet m options n ≡ ok p)
        × (r.fragments ≡ (split_loop packet m p full p.fragments 0 0).0)
        × (r.start_in_tail ≡ p.start_in_tail)
  unfolding split full
  split-parts r e = elim (Result-cases (split_plan packet m options n)) [
    | inl (p, h) ↦ (p, h, ground arith, ground arith)
    | inr (f, h) ↦ absurd (ground arith)
  ]

  -- Whatever `Split` returns: the fragments joined are the packet; they follow one another without
  -- gap or overlap, numbered from 0, each with the count, its offset and one byte or more, none
  -- larger than a carrier holds; each is a record that `MarshalTo` accepts if the metadata is in
  -- range; they are at most sixteen and at most the descriptors given; and if the first is to start
  -- in the tail of the current carrier, it fits there.
  pub split-Cut : (r : SplitResult) → split packet m options n ≡ ok r → Cut packet m options n r
  unfolding full
  split-Cut r e =
      let (p, planned_ok, fragments_eq, tail_eq) = split-parts r e in
      let q =
        planned packet m n p options.carrier_payload options.carrier_remaining options.min_pack
          planned_ok in
      let c =
        subst (Covers packet m p.fragments full 0 0) (sym fragments_eq) (loop-Completed p q).0 in
      let size : length r.fragments ≡ p.fragments =
        omega (arith, length-Covers packet m p.fragments full 0 0 r.fragments c) in
      let few : p.fragments ≤ 16 = ground (arith, q.shape) in
      record {
        whole = concat-Covers packet m p.fragments full 0 0 r.fragments c;
        covers = subst (λ k. Covers packet m k full 0 0 r.fragments) (sym size) c;
        records = λ ranges.
            Covers-AllRecords packet m p.fragments full 0 0 r.fragments ranges few q.len_le c;
        count_le = omega arith;
        room = omega (arith, q.room);
        tail_fits = λ starts.
            subst (FirstFits (pos_part options.carrier_remaining - 12)) (sym fragments_eq)
              (loop-FirstFits p q (sym tail_eq ∙ starts));
      }

module _ (packet : List ℕ) (m : Metadata) (c r k : ℕ) where
  abbrev pub in_range : Options
  in_range = record { carrier_payload = pos c; carrier_remaining = pos r; min_pack = pos k }

  planned_of_make_plan :
      (p : Plan)
      → 1 ≤ length packet
      → length packet ≤ 9612
      → 1 ≤ m.data_session_id
      → c ≤ 65535
      → 1 ≤ k
      → r ≤ c
      → 12 < c
      → make_plan (pos (length packet)) (pos c) (pos r) (pos k) ≡ ok p
      → split_plan packet m in_range 16 ≡ ok p
  unfolding split_plan
  planned_of_make_plan p h0 h1 h2 h4 h6 h5 h3 e =
      ground (arith, make_plan-cases (length packet) c r k p e)

  make_plan_of_planned :
      (p : Plan)
      → split_plan packet m in_range 16 ≡ ok p
      → make_plan (pos (length packet)) (pos c) (pos r) (pos k) ≡ ok p
  unfolding split_plan
  make_plan_of_planned p e = ground arith

  split_of_planned :
      (p : Plan)
      → split_plan packet m in_range 16 ≡ ok p
      → (out : SplitResult) × (split packet m in_range 16 ≡ ok out)
  unfolding split full
  split_of_planned p e =
      let q = planned packet m 16 p (pos c) (pos r) (pos k) e in
      let done = loop-Completed packet m in_range 16 p q in
      (
        record {
          fragments = (split_loop packet m p (c - 12) p.fragments 0 0).0;
          start_in_tail = p.start_in_tail;
        },
        ground (arith, done.1),
      )

  -- With arguments in range and sixteen descriptors, `Split` succeeds exactly on the packets that
  -- sixteen records of this carrier size hold; the check behind its loop never fails.
  pub split_iff :
      1 ≤ length packet
      → length packet ≤ 9612
      → 1 ≤ m.data_session_id
      → 12 < c
      → c ≤ 65535
      → r ≤ c
      → 1 ≤ k
      → ((out : SplitResult) × (split packet m in_range 16 ≡ ok out))
        ↔ (length packet ≤ 16 * (c - 12))
  split_iff h0 h1 h2 h3 h4 h5 h6 =
      let plans = make_plan_iff (length packet) c r k h0 h3 h5 h6 in
      (
        λ (out, e).
            let (p, h, _, _) = split-parts packet m in_range 16 out e in
            plans.0 (p, make_plan_of_planned p h),
        λ h.
            let (p, e) = plans.1 h in
            split_of_planned p (planned_of_make_plan p h0 h1 h2 h4 h6 h5 h3 e),
      )
