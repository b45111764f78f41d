-- ===== src/Gpu/Layout/Arrays.antt =====
-- Arrays of structures, and the loops that read so many of them.
use virtio_device_poc.Base.{
  ℕ, zero, suc, ◌+◌, ◌*◌, ◌≤◌, ◌<◌, ◌≡◌, refl, sym, ap, ◌∙◌, none, some, List, [], ◌∷◌, ◌++◌,
  length, length-append, arith,
}
use mathlib.Core.List.{append_assoc}
use native.Mathlib.Decide.{dec_lt}
use virtio_device_poc.Base.Bytes.{Reading}
use virtio_device_poc.Gpu.Layout.{ByteValued}

module _ {A : Type 0} (a : ByteValued A) where
  -- `for _ in 0..n { read_obj }`.
  unfoldable pub read_many : ℕ → List ℕ → Reading (List A)
  read_many zero bytes = some ([], bytes)
  read_many (suc n) bytes = elim (a.read_obj bytes) [
    | none ↦ none
    | some (x, rest) ↦ elim (read_many n rest) [
      | none ↦ none
      | some (xs, rest') ↦ some (x ∷ xs, rest')
    ]
  ]

  unfoldable pub many_bytes : List A → List ℕ
  many_bytes [] = []
  many_bytes (x ∷ xs) = a.as_bytes x ++ many_bytes xs

  abbrev pub AllFit : List A → Type 0
  AllFit [] = Unit
  AllFit (x ∷ xs) = a.Fits x × AllFit xs

  pub length-many_bytes : (xs : List A) → AllFit xs → length (many_bytes xs) ≡ length xs * a.size
  unfolding many_bytes
  length-many_bytes [] f = omega arith
  length-many_bytes (x ∷ xs) f =
      let p = a.length-as_bytes x f.0 in
      let q = length-many_bytes xs f.1 in length-append (a.as_bytes x) (many_bytes xs) ∙ grind arith

  pub read_many-many_bytes :
      (xs : List A) (rest : List ℕ)
      → AllFit xs
      → read_many (length xs) (many_bytes xs ++ rest) ≡ some (xs, rest)
  unfolding read_many many_bytes
  read_many-many_bytes [] rest f = refl
  read_many-many_bytes (x ∷ xs) rest f = rw (append_assoc (a.as_bytes x) (many_bytes xs) rest) (
      rw (a.read-as_bytes x (many_bytes xs ++ rest) f.0, read_many)
        (rw (read_many-many_bytes xs rest f.1) refl))

  pub read_many-short :
      (n : ℕ) (bytes : List ℕ) → length bytes < n * a.size → read_many n bytes ≡ none
  unfolding read_many
  read_many-short zero bytes short = absurd (omega arith)
  read_many-short (suc n) bytes short = elim (dec_lt (length bytes) a.size) [
    | yes none_of_it ↦ rw (a.read-short bytes none_of_it, read_many) refl
    | no enough ↦
        let (x, rest, e, l) = a.read-enough bytes (omega arith) in
        rw (e, read_many) (rw (read_many-short n rest (grind arith)) refl)
  ]

  pub read_many-enough :
      (n : ℕ) (bytes : List ℕ)
      → n * a.size ≤ length bytes
      → (xs : List A) × (rest : List ℕ) × (read_many n bytes ≡ some (xs, rest))
        × (length rest + n * a.size ≡ length bytes)
  unfolding read_many
  read_many-enough zero bytes enough = ([], bytes, refl, omega arith)
  read_many-enough (suc n) bytes enough =
      let (x, rest, e, l) = a.read-enough bytes (grind arith) in
      let (xs, rest', e', l') = read_many-enough n rest (grind arith) in
      (x ∷ xs, rest', rw (e, read_many) (rw e' refl), grind arith)

  -- An array of so many structures.
  unfoldable pub many : ℕ → ByteValued (List A)
  many n = record {
    size = n * a.size;
    as_bytes = many_bytes;
    read_obj = read_many n;
    Fits = λ xs. (length xs ≡ n) × AllFit xs;
    length-as_bytes = λ xs f. length-many_bytes xs f.1 ∙ ap (λ k. k * a.size) f.0;
    read-as_bytes = λ xs rest f.
        ap (λ k. read_many k (many_bytes xs ++ rest)) (sym f.0) ∙ read_many-many_bytes xs rest f.1;
    read-short = read_many-short n;
    read-enough = read_many-enough n;
  }
