-- ===== src/Base/Slices.antt =====
-- Reading a list that was cut, padded or joined.
use Prim.Native.Nat.{ℕ, zero, suc, ◌+◌, ◌-◌, ◌≤◌, ◌<◌}
use mathlib.Core.Path.{◌≡◌, refl, ap, ◌∙◌}
use mathlib.Core.List.{List, [], ◌∷◌, ◌++◌}
use mathlib.Core.Option.{some}
use native.Mathlib.Omega.{arith}
use virtio_device_poc.Base.Lists.{length, get_elem?, take, drop, replicate}

module _ {ℓ} {A : Type ℓ} where
  pub get_elem?-append_lt :
      (xs ys : List A) (j : ℕ) → j < length xs → get_elem? (xs ++ ys) j ≡ get_elem? xs j
  get_elem?-append_lt [] ys j h = absurd (omega arith)
  get_elem?-append_lt (x ∷ xs) ys zero h = refl
  get_elem?-append_lt (x ∷ xs) ys (suc j) h = get_elem?-append_lt xs ys j (omega arith)

  pub get_elem?-append_ge :
      (xs ys : List A) (j : ℕ)
      → length xs ≤ j
      → get_elem? (xs ++ ys) j ≡ get_elem? ys (j - length xs)
  get_elem?-append_ge [] ys j h = ap (get_elem? ys) (let e : j ≡ j - 0 = omega arith in e)
  get_elem?-append_ge (x ∷ xs) ys zero h = absurd (omega arith)
  get_elem?-append_ge (x ∷ xs) ys (suc j) h =
      get_elem?-append_ge xs ys j (omega arith)
      ∙ ap (get_elem? ys) (let e : j - length xs ≡ suc j - suc (length xs) = omega arith in e)

  pub get_elem?-take :
      (n : ℕ) (xs : List A) (j : ℕ) → j < n → get_elem? (take n xs) j ≡ get_elem? xs j
  get_elem?-take zero xs j h = absurd (omega arith)
  get_elem?-take (suc n) [] j h = refl
  get_elem?-take (suc n) (x ∷ xs) zero h = refl
  get_elem?-take (suc n) (x ∷ xs) (suc j) h = get_elem?-take n xs j (omega arith)

  pub get_elem?-drop :
      (n : ℕ) (xs : List A) (j : ℕ) → get_elem? (drop n xs) j ≡ get_elem? xs (n + j)
  get_elem?-drop zero xs j = ap (get_elem? xs) (let e : j ≡ 0 + j = omega arith in e)
  get_elem?-drop (suc n) [] j = refl
  get_elem?-drop (suc n) (x ∷ xs) j =
      get_elem?-drop n xs j
      ∙ ap (get_elem? (x ∷ xs)) (let e : suc (n + j) ≡ suc n + j = omega arith in e)

  pub get_elem?-replicate : (n : ℕ) (a : A) (j : ℕ) → j < n → get_elem? (replicate n a) j ≡ some a
  get_elem?-replicate zero a j h = absurd (omega arith)
  get_elem?-replicate (suc n) a zero h = refl
  get_elem?-replicate (suc n) a (suc j) h = get_elem?-replicate n a j (omega arith)
