-- ===== src/Common/Pointwise.antt =====
-- Lists read one element at a time.
use Prim.Native.Nat.{ℕ, zero, suc, ◌+◌, ◌-◌, ◌≤◌, ◌<◌}
use mathlib.Core.Path.{◌≡◌, refl, ap, ap₂, ◌∙◌}
use mathlib.Core.Logic.{◌≢◌}
use mathlib.Core.List.{List, [], ◌∷◌}
use native.Mathlib.Omega.{arith}
use wg_frag_go.Common.Lists.{length, get_or, set, take, drop, replicate, overwrite, copy_at}

module _ {ℓ} {A : Type ℓ} where
  pub get_or-set_self :
      (xs : List A) (i : ℕ) (v d : A) → i < length xs → get_or (set xs i v) i d ≡ v
  get_or-set_self [] i v d h = absurd (omega arith)
  get_or-set_self (x ∷ xs) zero v d h = refl
  get_or-set_self (x ∷ xs) (suc i) v d h = get_or-set_self xs i v d (omega arith)

  pub get_or-set_ne :
      (xs : List A) (i j : ℕ) (v d : A) → i ≢ j → get_or (set xs i v) j d ≡ get_or xs j d
  get_or-set_ne [] i j v d h = refl
  get_or-set_ne (x ∷ xs) zero zero v d h = absurd (h refl)
  get_or-set_ne (x ∷ xs) zero (suc j) v d h = refl
  get_or-set_ne (x ∷ xs) (suc i) zero v d h = refl
  get_or-set_ne (x ∷ xs) (suc i) (suc j) v d h = get_or-set_ne xs i j v d (λ e. h (ap suc e))

  -- Lists of one length that agree everywhere are equal.
  pub get_or_ext :
      (xs ys : List A) (d : A)
      → length xs ≡ length ys
      → ((i : ℕ) → i < length xs → get_or xs i d ≡ get_or ys i d)
      → xs ≡ ys
  get_or_ext [] [] d e h = refl
  get_or_ext [] (y ∷ ys) d e h = absurd (omega arith)
  get_or_ext (x ∷ xs) [] d e h = absurd (omega arith)
  get_or_ext (x ∷ xs) (y ∷ ys) d e h =
      ap₂ ◌∷◌ (h 0 (omega arith))
        (get_or_ext xs ys d (omega arith) (λ i k. h (suc i) (omega arith)))

  pub get_or-take :
      (n : ℕ) (xs : List A) (i : ℕ) (d : A) → i < n → get_or (take n xs) i d ≡ get_or xs i d
  get_or-take zero xs i d h = absurd (omega arith)
  get_or-take (suc n) [] i d h = refl
  get_or-take (suc n) (x ∷ xs) zero d h = refl
  get_or-take (suc n) (x ∷ xs) (suc i) d h = get_or-take n xs i d (omega arith)

  pub get_or-drop :
      (n : ℕ) (xs : List A) (i : ℕ) (d : A) → get_or (drop n xs) i d ≡ get_or xs (n + i) d
  get_or-drop zero xs i d = ap (λ k. get_or xs k d) (omega arith)
  get_or-drop (suc n) [] i d = refl
  get_or-drop (suc n) (x ∷ xs) i d =
      get_or-drop n xs i d
      ∙ ap (λ k. get_or (x ∷ xs) k d) {x = suc (n + i)} {y = suc n + i} (omega arith)

  pub get_or-replicate : (n i : ℕ) (a : A) → get_or (replicate n a) i a ≡ a
  get_or-replicate zero i a = refl
  get_or-replicate (suc n) zero a = refl
  get_or-replicate (suc n) (suc i) a = get_or-replicate n i a

  get_or-overwrite_in :
      (src dst : List A) (i : ℕ) (d : A)
      → i < length src
      → i < length dst
      → get_or (overwrite src dst) i d ≡ get_or src i d
  get_or-overwrite_in [] dst i d h k = absurd (omega arith)
  get_or-overwrite_in (x ∷ src) [] i d h k = absurd (omega arith)
  get_or-overwrite_in (x ∷ src) (y ∷ dst) zero d h k = refl
  get_or-overwrite_in (x ∷ src) (y ∷ dst) (suc i) d h k =
      get_or-overwrite_in src dst i d (omega arith) (omega arith)

  get_or-overwrite_behind :
      (src dst : List A) (i : ℕ) (d : A)
      → length src ≤ i
      → get_or (overwrite src dst) i d ≡ get_or dst i d
  get_or-overwrite_behind [] dst i d h = refl
  get_or-overwrite_behind (x ∷ src) [] i d h = refl
  get_or-overwrite_behind (x ∷ src) (y ∷ dst) zero d h = absurd (omega arith)
  get_or-overwrite_behind (x ∷ src) (y ∷ dst) (suc i) d h =
      get_or-overwrite_behind src dst i d (omega arith)

  -- Inside what was written.
  pub get_or-copy_at_in :
      (at : ℕ) (src dst : List A) (i : ℕ) (d : A)
      → at ≤ i
      → i < at + length src
      → i < length dst
      → get_or (copy_at at src dst) i d ≡ get_or src (i - at) d
  get_or-copy_at_in zero src dst i d h k l =
      get_or-overwrite_in src dst i d (omega arith) l ∙ ap (λ n. get_or src n d) (omega arith)
  get_or-copy_at_in (suc at) src [] i d h k l = absurd (omega arith)
  get_or-copy_at_in (suc at) src (y ∷ dst) zero d h k l = absurd (omega arith)
  get_or-copy_at_in (suc at) src (y ∷ dst) (suc i) d h k l =
      get_or-copy_at_in at src dst i d (omega arith) (omega arith) (omega arith)
      ∙ ap (λ n. get_or src n d) (omega arith)

  -- In front of it.
  pub get_or-copy_at_before :
      (at : ℕ) (src dst : List A) (i : ℕ) (d : A)
      → i < at
      → get_or (copy_at at src dst) i d ≡ get_or dst i d
  get_or-copy_at_before zero src dst i d h = absurd (omega arith)
  get_or-copy_at_before (suc at) src [] i d h = refl
  get_or-copy_at_before (suc at) src (y ∷ dst) zero d h = refl
  get_or-copy_at_before (suc at) src (y ∷ dst) (suc i) d h =
      get_or-copy_at_before at src dst i d (omega arith)

  -- Behind it.
  pub get_or-copy_at_behind :
      (at : ℕ) (src dst : List A) (i : ℕ) (d : A)
      → at + length src ≤ i
      → get_or (copy_at at src dst) i d ≡ get_or dst i d
  get_or-copy_at_behind zero src dst i d h = get_or-overwrite_behind src dst i d (omega arith)
  get_or-copy_at_behind (suc at) src [] i d h = refl
  get_or-copy_at_behind (suc at) src (y ∷ dst) zero d h = absurd (omega arith)
  get_or-copy_at_behind (suc at) src (y ∷ dst) (suc i) d h =
      get_or-copy_at_behind at src dst i d (omega arith)
