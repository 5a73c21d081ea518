-- ===== src/Common/Lists.antt =====
-- Lists measured and indexed by native numbers, and writes into a fixed buffer.
use Prim.Native.Nat.{ℕ, zero, suc, ◌+◌, ◌-◌, ◌≤◌, min}
use mathlib.Core.Path.{◌≡◌, refl, ap, sym, ◌∙◌}
use mathlib.Core.List.{List, [], ◌∷◌, ◌++◌, append_assoc}
use mathlib.Core.Option.{Option, none, some}
use native.Mathlib.Omega.{arith}

module _ {ℓ} {A : Type ℓ} where
  abbrev pub length : List A → ℕ
  length [] = 0
  length (x ∷ xs) = suc (length xs)

  abbrev pub get_elem? : List A → ℕ → Option A
  get_elem? [] i = none
  get_elem? (x ∷ xs) zero = some x
  get_elem? (x ∷ xs) (suc i) = get_elem? xs i

  abbrev pub get_or : List A → ℕ → A → A
  get_or [] i d = d
  get_or (x ∷ xs) zero d = x
  get_or (x ∷ xs) (suc i) d = get_or xs i d

  -- A write out of bounds changes nothing.
  abbrev pub set : List A → ℕ → A → List A
  set [] i v = []
  set (x ∷ xs) zero v = v ∷ xs
  set (x ∷ xs) (suc i) v = x ∷ set xs i v

  abbrev pub take : ℕ → List A → List A
  take zero xs = []
  take (suc n) [] = []
  take (suc n) (x ∷ xs) = x ∷ take n xs

  abbrev pub drop : ℕ → List A → List A
  drop zero xs = xs
  drop (suc n) [] = []
  drop (suc n) (x ∷ xs) = drop n xs

  abbrev pub replicate : ℕ → A → List A
  replicate zero a = []
  replicate (suc n) a = a ∷ replicate n a

  abbrev pub concat : List (List A) → List A
  concat [] = []
  concat (xs ∷ xss) = xs ++ concat xss

module _ {ℓ} {A : Type ℓ} where
  pub length-append : (xs ys : List A) → length (xs ++ ys) ≡ length xs + length ys
  length-append [] ys = omega arith
  length-append (x ∷ xs) ys = omega (arith, length-append xs ys)

  pub length-set : (xs : List A) (i : ℕ) (v : A) → length (set xs i v) ≡ length xs
  length-set [] i v = refl
  length-set (x ∷ xs) zero v = refl
  length-set (x ∷ xs) (suc i) v = ap suc (length-set xs i v)

  pub take-append-drop : (n : ℕ) (xs : List A) → take n xs ++ drop n xs ≡ xs
  take-append-drop zero xs = refl
  take-append-drop (suc n) [] = refl
  take-append-drop (suc n) (x ∷ xs) = rw (take-append-drop n xs)

  pub length-take : (n : ℕ) (xs : List A) → length (take n xs) ≡ min n (length xs)
  length-take zero xs = omega arith
  length-take (suc n) [] = omega arith
  length-take (suc n) (x ∷ xs) = omega (arith, length-take n xs)

  pub length-drop : (n : ℕ) (xs : List A) → length (drop n xs) ≡ length xs - n
  length-drop zero xs = omega arith
  length-drop (suc n) [] = omega arith
  length-drop (suc n) (x ∷ xs) = omega (arith, length-drop n xs)

  pub length-replicate : (n : ℕ) (a : A) → length (replicate n a) ≡ n
  length-replicate zero a = refl
  length-replicate (suc n) a = ap suc (length-replicate n a)

  pub take-length_le : (n : ℕ) (xs : List A) → length xs ≤ n → take n xs ≡ xs
  take-length_le zero [] h = refl
  take-length_le zero (x ∷ xs) h = absurd (omega arith)
  take-length_le (suc n) [] h = refl
  take-length_le (suc n) (x ∷ xs) h = ap (◌∷◌ x) (take-length_le n xs (omega arith))

  pub drop-length_le : (n : ℕ) (xs : List A) → length xs ≤ n → drop n xs ≡ []
  drop-length_le zero [] h = refl
  drop-length_le zero (x ∷ xs) h = absurd (omega arith)
  drop-length_le (suc n) [] h = refl
  drop-length_le (suc n) (x ∷ xs) h = drop-length_le n xs (omega arith)

  pub drop-nil : (n : ℕ) → drop {A = A} n [] ≡ []
  drop-nil zero = refl
  drop-nil (suc n) = refl

  pub drop-drop : (n m : ℕ) (xs : List A) → drop n (drop m xs) ≡ drop (m + n) xs
  drop-drop n zero xs = ap (λ k. drop k xs) (omega arith)
  drop-drop n (suc m) [] = drop-nil n ∙ sym (drop-nil (suc m + n))
  drop-drop n (suc m) (x ∷ xs) =
      drop-drop n m xs ∙ ap (λ k. drop k (x ∷ xs)) {x = suc (m + n)} (omega arith)

  pub take-append_self : (n : ℕ) (xs ys : List A) → length xs ≡ n → take n (xs ++ ys) ≡ xs
  take-append_self zero [] ys h = refl
  take-append_self zero (x ∷ xs) ys h = absurd (omega arith)
  take-append_self (suc n) [] ys h = absurd (omega arith)
  take-append_self (suc n) (x ∷ xs) ys h = ap (◌∷◌ x) (take-append_self n xs ys (omega arith))

  pub drop-append_self : (n : ℕ) (xs ys : List A) → length xs ≡ n → drop n (xs ++ ys) ≡ ys
  drop-append_self zero [] ys h = refl
  drop-append_self zero (x ∷ xs) ys h = absurd (omega arith)
  drop-append_self (suc n) [] ys h = absurd (omega arith)
  drop-append_self (suc n) (x ∷ xs) ys h = drop-append_self n xs ys (omega arith)

  pub take-take-drop : (n m : ℕ) (xs : List A) → take n xs ++ take m (drop n xs) ≡ take (n + m) xs
  take-take-drop zero m xs = ap (λ k. take k xs) (omega arith)
  take-take-drop (suc n) m [] = take-nil m ∙ sym (take-nil (suc n + m))
    where
      take-nil : (k : ℕ) → take {A = A} k [] ≡ []
      take-nil zero = refl
      take-nil (suc k) = refl
  take-take-drop (suc n) m (x ∷ xs) =
      ap (◌∷◌ x) (take-take-drop n m xs) ∙ ap (λ k. take k (x ∷ xs)) {x = suc (n + m)} (omega arith)

module _ {ℓ} {A : Type ℓ} where
  -- `copy(dst, src)`: what does not fit is left out.
  abbrev pub overwrite : List A → List A → List A
  overwrite [] dst = dst
  overwrite (x ∷ src) [] = []
  overwrite (x ∷ src) (d ∷ dst) = x ∷ overwrite src dst

  -- `copy(dst[at:], src)`.
  abbrev pub copy_at : ℕ → List A → List A → List A
  copy_at zero src dst = overwrite src dst
  copy_at (suc n) src [] = []
  copy_at (suc n) src (d ∷ dst) = d ∷ copy_at n src dst

  pub overwrite-le :
      (src dst : List A)
      → length src ≤ length dst
      → overwrite src dst ≡ src ++ drop (length src) dst
  overwrite-le [] dst h = refl
  overwrite-le (x ∷ src) [] h = absurd (omega arith)
  overwrite-le (x ∷ src) (d ∷ dst) h = ap (◌∷◌ x) (overwrite-le src dst (omega arith))

  pub copy_at-append :
      (n : ℕ) (p src q : List A) → length p ≡ n → copy_at n src (p ++ q) ≡ p ++ overwrite src q
  copy_at-append zero [] src q h = refl
  copy_at-append zero (x ∷ p) src q h = absurd (omega arith)
  copy_at-append (suc n) [] src q h = absurd (omega arith)
  copy_at-append (suc n) (x ∷ p) src q h = ap (◌∷◌ x) (copy_at-append n p src q (omega arith))

  -- Writing on from a buffer whose first `length p` elements are written.
  pub copy_at-next :
      (n : ℕ) (p src dst : List A)
      → length p ≡ n
      → n + length src ≤ length dst
      → copy_at n src (p ++ drop n dst) ≡ (p ++ src) ++ drop (n + length src) dst
  copy_at-next n p src dst h fits =
      copy_at-append n p src (drop n dst) h
      ∙ ap (◌++◌ p) (overwrite-le src (drop n dst) (omega (arith, length-drop n dst)))
      ∙ rw (drop-drop (length src) n dst) (sym (append_assoc p src _))

  pub length-overwrite : (src dst : List A) → length (overwrite src dst) ≡ length dst
  length-overwrite [] dst = refl
  length-overwrite (x ∷ src) [] = refl
  length-overwrite (x ∷ src) (d ∷ dst) = ap suc (length-overwrite src dst)

  pub length-copy_at : (n : ℕ) (src dst : List A) → length (copy_at n src dst) ≡ length dst
  length-copy_at zero src dst = length-overwrite src dst
  length-copy_at (suc n) src [] = refl
  length-copy_at (suc n) src (d ∷ dst) = ap suc (length-copy_at n src dst)

  -- Adjacent writes, one chunk after another from position `at` on.
  abbrev pub copy_all : ℕ → List (List A) → List A → List A
  copy_all at [] dst = dst
  copy_all at (c ∷ cs) dst = copy_all (at + length c) cs (copy_at at c dst)

  copy_all-next :
      (at : ℕ) (p : List A) (cs : List (List A)) (dst : List A)
      → length p ≡ at
      → at + length (concat cs) ≤ length dst
      → copy_all at cs (p ++ drop at dst) ≡ p ++ (concat cs ++ drop (at + length (concat cs)) dst)
  copy_all-next at p [] dst h fits = ap (λ k. p ++ drop k dst) (omega arith)
  copy_all-next at p (c ∷ cs) dst h fits =
      ap (copy_all (at + length c) cs)
        (copy_at-next at p c dst h (omega (arith, length-append c (concat cs))))
      ∙ copy_all-next (at + length c) (p ++ c) cs dst (omega (arith, length-append p c))
          (omega (arith, length-append c (concat cs)))
      ∙ append_assoc p c _
      ∙ ap (◌++◌ p) (sym (append_assoc c (concat cs) _))
      ∙ ap (λ k. p ++ ((c ++ concat cs) ++ drop k dst)) (omega (arith, length-append c (concat cs)))

  copy_all-concat :
      (cs : List (List A)) (dst : List A)
      → length (concat cs) ≤ length dst
      → copy_all 0 cs dst ≡ concat cs ++ drop (length (concat cs)) dst
  copy_all-concat cs dst fits =
      copy_all-next 0 [] cs dst refl (omega arith) ∙ ap (λ k. concat cs ++ drop k dst) (omega arith)

  -- They leave their concatenation in front of what lay behind it.
  pub copy_all_lem :
      (cs : List (List A)) (xs dst : List A)
      → concat cs ≡ xs
      → length xs ≤ length dst
      → copy_all 0 cs dst ≡ xs ++ drop (length xs) dst
  copy_all_lem cs xs dst e fits =
      copy_all-concat cs dst (omega (arith, ap length e)) ∙ ap (λ ys. ys ++ drop (length ys) dst) e
