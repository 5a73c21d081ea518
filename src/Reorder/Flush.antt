-- ===== src/Reorder/Flush.antt =====
-- reorder.go: `New`, and the calls that flush the queue.
use wg_frag_go.Common.{
  append-nil, length-replicate, ℕ, ◌+◌, ◌≤◌, ◌<◌, ◌≡◌, refl, sym, ap, ◌∙◌, ◌⊎◌, inl, inr, true,
  false, List, [], ◌∷◌, ◌++◌, none, some, ltb, ◌==◌, length, replicate, arith, Option-cases,
  Bool-cases, subst, Result, ok, err, pos_part,
}
use mathlib.Core.List.{Perm}
use mathlib.Core.List.Perm
use wg_frag_go.Reassembly.{Packet}
use wg_frag_go.Reorder.{
  invalid_config, output_too_small, Reorderer, Config, Entries, ReorderError, sequence_space,
  half_sequence_space, held, new, flush_all, no_gap,
}
use wg_frag_go.Reorder.Held.{AllHeld, AllHeld-zip}
use wg_frag_go.Reorder.Emits.{
  Emits-perm, Emits-Rising, Emits-next_after, next_after, Distinct, IsBeyond, Rising,
}
use wg_frag_go.Reorder.Loops.{flush_loop-Flushed, empty-AllHeld}
use wg_frag_go.Reorder.Inv.{Inv, is_none}
use wg_frag_go.Reorder.Queue.{tick, flush}
use wg_frag_go.Reorder.Queue.{before_due, reset}
use wg_frag_go.Reorder.Inv.{nothing_held}

empty_replicate {ℓ} : (P : Packet → Type ℓ) (n : ℕ) → AllHeld P (replicate n none)
empty_replicate P n = empty-AllHeld P (replicate n none) (rw (nothing_held n))

Distinct-empty : (es : Entries) → length (held es) ≡ 0 → Distinct es
Distinct-empty [] h = tt
Distinct-empty (none ∷ es) h = Distinct-empty es h
Distinct-empty (some p ∷ es) h = absurd (omega arith)

-- A state that holds nothing is well-formed.
nothing-Inv :
    (r : Reorderer)
    → r.config.enabled ≡ true
    → r.next < sequence_space
    → length (held r.entries) ≡ 0
    → r.count ≡ 0
    → r.gap_started_at ≡ none
    → Inv r
nothing-Inv r enabled n h c g = record {
  enabled = enabled;
  counted = omega arith;
  next_lt = n;
  distinct = Distinct-empty r.entries h;
  beyond = empty-AllHeld _ r.entries h;
  near = empty-AllHeld _ r.entries h;
  gap = ground arith;
}

-- What `New` asks of the configuration of an enabled queue.
abbrev pub IsConfig : Config → Type 0
IsConfig c =
    (0 < pos_part c.capacity)
    × (pos_part c.capacity < half_sequence_space)
    × (0 < c.max_delay)
    × (0 < c.lane.data_session_id)

-- A new queue of `c`.
pub record IsNew (c : Config) (r : Reorderer) : Type 0 where
  pub inv : Inv r
  pub config_eq : r.config ≡ c
  pub next_eq : r.next ≡ c.next_sequence
  pub nothing : held r.entries ≡ []
  pub size_eq : length r.entries ≡ pos_part c.capacity

new_ok :
    (c : Config)
    → c.enabled ≡ true
    → IsConfig c
    → new c
      ≡ ok (record {
        config = c;
        next = c.next_sequence;
        entries = replicate (pos_part c.capacity) none;
        count = 0;
        gap_started_at = none;
      })
unfolding new
new_ok c enabled is = ground arith

new_err : (c : Config) → c.enabled ≡ true → ¬ IsConfig c → new c ≡ err invalid_config
unfolding new
new_err c enabled isnt = ground arith

IsConfig-Dec : (c : Config) → IsConfig c ⊎ ¬ IsConfig c
IsConfig-Dec c = ground arith

-- What `New` does for an enabled queue.
abbrev Enabled : Config → Type 0
Enabled c =
    (IsConfig c × ((r : Reorderer) × (new c ≡ ok r) × IsNew c r))
    ⊎ (¬ IsConfig c × (new c ≡ err invalid_config))

new-Enabled : (c : Config) → c.enabled ≡ true → c.next_sequence < sequence_space → Enabled c
new-Enabled c enabled fits = elim (IsConfig-Dec c) [
  | inl is ↦
      let empty = nothing_held (pos_part c.capacity) in
      let n = length-replicate (pos_part c.capacity) none in
      inl (
        is,
        (
          _,
          new_ok c enabled is,
          record {
            inv = nothing-Inv _ enabled fits (ap length empty) refl refl;
            config_eq = refl;
            next_eq = refl;
            nothing = empty;
            size_eq = n;
          },
        ),
      )
  | inr isnt ↦ inr (isnt, new_err c enabled isnt)
]

new_disabled :
    (c : Config)
    → c.enabled ≡ false
    → new c
      ≡ ok (record {
        config = c;
        next = c.next_sequence;
        entries = [];
        count = 0;
        gap_started_at = none;
      })
unfolding new
new_disabled c disabled = rw disabled refl

-- `New` for a disabled queue accepts any other fields, and its result has no entries. For an enabled queue it fails
-- exactly when the capacity is not in 1 .. 2^31 - 1, or the delay or the session is zero; otherwise the result is
-- well-formed, expects the configured sequence, and has `Capacity` entries, all free.
pub new-cases :
    (c : Config)
    → c.next_sequence < sequence_space
    → ((c.enabled ≡ false)
        × ((r : Reorderer) × (new c ≡ ok r)
            × (r.config ≡ c)
            × (r.next ≡ c.next_sequence)
            × (r.entries ≡ [])))
      ⊎ ((c.enabled ≡ true)
          × ((IsConfig c × ((r : Reorderer) × (new c ≡ ok r) × IsNew c r))
              ⊎ (¬ IsConfig c × (new c ≡ err invalid_config))))
new-cases c fits = elim (Bool-cases c.enabled) [
  | inl enabled ↦ inr (enabled, new-Enabled c enabled fits)
  | inr disabled ↦ inl (disabled, (_, new_disabled c disabled, refl, refl, refl))
]

-- All held packets go out.
pub record Emptied (r : Reorderer) (rest : Reorderer) (out : List Packet) : Type 0 where
  pub inv : Inv rest
  pub config_eq : rest.config ≡ r.config
  pub size_eq : length rest.entries ≡ length r.entries
  pub perm : Perm (held r.entries) out
  pub nothing : held rest.entries ≡ []
  pub rising : Rising r.next 0 out
  pub next_eq : rest.next ≡ next_after r.next out

length-nil {ℓ} : {A : Type ℓ} (xs : List A) → length xs ≡ 0 → xs ≡ []
length-nil [] h = refl
length-nil (x ∷ xs) h = absurd (omega arith)

-- The result of a flush that ends well.
abbrev pub Empties : Reorderer → Result ReorderError (Reorderer × List Packet) → Type 0
Empties r out = (rest : Reorderer) × (ps : List Packet) × (out ≡ ok (rest, ps)) × Emptied r rest ps

flush_all-Empties : (r : Reorderer) → Inv r → Empties r (flush_all r)
unfolding flush_all
flush_all-Empties r v =
    let f = flush_loop-Flushed r.count r v.counted (omega arith) in
    let l = f.left in
    let nothing = length-nil (held f.rest.entries) (omega (arith, l.counted, f.empty)) in
    let low =
      AllHeld-zip _ _ (IsBeyond r.next 0) r.entries (λ q x y. (x.0, omega arith)) v.beyond
        v.beyond in
    let (rising, (end, at, b)) =
      Emits-Rising r.next 0 v.next_lt (omega (arith, v.next_lt)) low v.distinct l.emits in
    (
      no_gap f.rest,
      f.packets,
      rw f.out_eq,
      record {
        inv =
            nothing-Inv _ (ap (λ c. c.enabled) l.config_eq ∙ v.enabled) (omega arith)
              (ap length nothing) f.empty refl;
        config_eq = l.config_eq;
        size_eq = l.size_eq;
        perm =
            subst (Perm (held r.entries))
              (ap (λ xs. f.packets ++ xs) nothing ∙ append-nil f.packets) (Emits-perm l.emits);
        nothing = nothing;
        rising = rising;
        next_eq = Emits-next_after l.emits;
      },
    )

-- When `Tick` flushes: `gapStartedAt` is set, and lies `MaxDelay` or more in the past.
abbrev pub IsDue : Reorderer → ℕ → Type 0
IsDue r now =
    (started : ℕ) × (r.gap_started_at ≡ some started) × (started + r.config.max_delay ≤ now)

tick-IsDue :
    (r : Reorderer) (now room : ℕ)
    → Inv r
    → length r.entries ≤ room
    → ((tick r now room ≡ flush_all r) × IsDue r now)
      ⊎ ((tick r now room ≡ ok (r, [])) × ¬ IsDue r now)
unfolding tick
tick-IsDue r now room v h = elim (Option-cases r.gap_started_at) [
  | inl e ↦
      let idle : (r.count == 0) ≡ true = v.gap ∙ ap is_none e in
      inr (ground arith, λ (t, at, old). ground arith)
  | inr (t, e) ↦
      let waiting : (r.count == 0) ≡ false = v.gap ∙ ap is_none e in
      let enabled = v.enabled in
      let large : ltb room (length r.entries) ≡ false = ground arith in
      elim (Bool-cases (before_due r.gap_started_at r.config.max_delay now)) [
        | inl early ↦ inr (ground arith, λ (t', at, old). ground arith)
        | inr due ↦ inl (ground arith, (t, e, ground arith))
      ]
]

-- With a buffer for `Capacity` packets, `Tick` on a well-formed reorderer ends without an error or a panic. When
-- `gapStartedAt`, the recorded instant, lies `MaxDelay` or more in the past, all held packets go out in sequence order,
-- `next` follows the last of them, and the queue is empty and well-formed. Otherwise nothing changes. The recorded
-- instant may be older than the gap before the packets that are held now.
pub tick-cases :
    (r : Reorderer) (now room : ℕ)
    → Inv r
    → length r.entries ≤ room
    → (IsDue r now × Empties r (tick r now room)) ⊎ (¬ IsDue r now × (tick r now room ≡ ok (r, [])))
tick-cases r now room v h = elim (tick-IsDue r now room v h) [
  | inl (e, due) ↦ inl (due, subst (Empties r) (sym e) (flush_all-Empties r v))
  | inr (e, early) ↦ inr (early, e)
]

-- With a buffer for `Capacity` packets, `Flush` on a well-formed reorderer ends without an error or a panic, and hands
-- out all held packets, in sequence order; `next` then follows the last of them.
pub flush-Empties :
    (r : Reorderer) (room : ℕ) → Inv r → length r.entries ≤ room → Empties r (flush r room)
unfolding flush
flush-Empties r room v h = elim (Bool-cases (r.count == 0)) [
  | inl idle ↦
      let nothing = length-nil (held r.entries) (ground (arith, v.counted)) in
      (
        r,
        [],
        ground arith,
        record {
          inv = v;
          config_eq = refl;
          size_eq = refl;
          perm = rw nothing (Perm.refl []);
          nothing = nothing;
          rising = tt;
          next_eq = refl;
        },
      )
  | inr waiting ↦
      let enabled = v.enabled in
      let large : ltb room (length r.entries) ≡ false = ground arith in
      let all : flush r room ≡ flush_all r = ground arith in
      subst (Empties r) (sym all) (flush_all-Empties r v)
]

-- `Reset` with a buffer for the held packets hands them all out, and leaves a well-formed, empty queue of the same size
-- that expects the new sequence. With a smaller buffer it fails.
pub reset-cases :
    (r : Reorderer) (next_sequence room : ℕ)
    → Inv r
    → next_sequence < sequence_space
    → ((r.count ≤ room)
        × ((rest : Reorderer) × (reset r next_sequence room ≡ ok (rest, held r.entries))
            × Inv rest
            × (rest.next ≡ next_sequence)
            × (held rest.entries ≡ [])
            × (length rest.entries ≡ length r.entries)))
      ⊎ ((room < r.count) × (reset r next_sequence room ≡ err output_too_small))
unfolding reset
reset-cases r next_sequence room v fits = elim (Bool-cases (ltb room r.count)) [
  | inl small ↦ inr (ground arith, rw small)
  | inr large ↦
      let empty = nothing_held (length r.entries) in
      let rest : Reorderer = record r {
        entries = replicate (length r.entries) none;
        count = 0;
        next = next_sequence;
        gap_started_at = none;
      } in
      inl (
        ground arith,
        (
          rest,
          rw large,
          nothing-Inv _ v.enabled fits (ap length empty) refl refl,
          refl,
          empty,
          length-replicate _ none,
        ),
      )
]
