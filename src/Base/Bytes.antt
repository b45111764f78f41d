-- ===== src/Base/Bytes.antt =====
-- Little-endian numbers of a width, and runs of bytes: what a reader takes and leaves.
use Prim.Native.Nat.{ℕ, zero, suc, ◌+◌, ◌*◌, ◌/◌, ◌%◌, ◌^◌, ◌≤◌, ◌<◌}
use mathlib.Core.Path.{◌≡◌, refl, ap}
use mathlib.Core.Option.{Option, none, some}
use mathlib.Core.List.{List, [], ◌∷◌, ◌++◌}
use native.Mathlib.Omega.{arith}
use native.Mathlib.Nat.{pow-suc}
use virtio_device_poc.Base.Lists.{length}

-- `as_slice` of a little-endian number of so many bytes, and back.
unfoldable pub le_bytes : ℕ → ℕ → List ℕ
le_bytes zero x = []
le_bytes (suc n) x = x % 256 ∷ le_bytes n (x / 256)

unfoldable pub from_le_bytes : ℕ → List ℕ → Option (ℕ × List ℕ)
from_le_bytes zero bytes = some (0, bytes)
from_le_bytes (suc n) [] = none
from_le_bytes (suc n) (b ∷ bytes) = elim (from_le_bytes n bytes) [
  | none ↦ none
  | some (x, rest) ↦ some (b + 256 * x, rest)
]

-- A reader of bytes, with what it leaves.
abbrev pub Reading : Type 0 → Type 0
Reading A = Option (A × List ℕ)

pub length-le_bytes : (n x : ℕ) → length (le_bytes n x) ≡ n
unfolding le_bytes
length-le_bytes zero x = refl
length-le_bytes (suc n) x = ap suc (length-le_bytes n (x / 256))

-- `some` with its parts given by equations.
some_read :
    {A : Type 0} (x y : A) (r s : List ℕ)
    → x ≡ y
    → r ≡ s
    → (let o : Reading A = some (x, r) in o ≡ some (y, s))
some_read x y r s p q = λ j. some (p j, q j)

pub from_le_bytes-le_bytes :
    (n x : ℕ) (rest : List ℕ)
    → x < 256 ^ n
    → from_le_bytes n (le_bytes n x ++ rest) ≡ some (x, rest)
unfolding from_le_bytes le_bytes
from_le_bytes-le_bytes zero x rest small = some_read 0 x rest rest (omega arith) refl
from_le_bytes-le_bytes (suc n) x rest small =
    let less : x / 256 < 256 ^ n = omega (arith, pow-suc 256 n) in
    rw (from_le_bytes-le_bytes n (x / 256) rest less, from_le_bytes)
      (some_read _ x rest rest (omega arith) refl)

pub from_le_bytes-short : (n : ℕ) (bytes : List ℕ) → length bytes < n → from_le_bytes n bytes ≡ none
unfolding from_le_bytes
from_le_bytes-short zero bytes short = absurd (omega arith)
from_le_bytes-short (suc n) [] short = refl
from_le_bytes-short (suc n) (b ∷ bytes) short =
    rw (from_le_bytes-short n bytes (omega arith), from_le_bytes) refl

pub from_le_bytes-enough :
    (n : ℕ) (bytes : List ℕ)
    → n ≤ length bytes
    → (x : ℕ) × (rest : List ℕ) × (from_le_bytes n bytes ≡ some (x, rest))
      × (length rest + n ≡ length bytes)
unfolding from_le_bytes
from_le_bytes-enough zero bytes enough = (0, bytes, refl, omega arith)
from_le_bytes-enough (suc n) [] enough = absurd (omega arith)
from_le_bytes-enough (suc n) (b ∷ bytes) enough =
    let (x, rest, e, l) = from_le_bytes-enough n bytes (omega arith) in
    (b + 256 * x, rest, rw (e, from_le_bytes) refl, omega arith)

-- `read_exact` into an array of so many bytes.
unfoldable pub read_exact : ℕ → List ℕ → Reading (List ℕ)
read_exact zero bytes = some ([], bytes)
read_exact (suc n) [] = none
read_exact (suc n) (b ∷ bytes) = elim (read_exact n bytes) [
  | none ↦ none
  | some (xs, rest) ↦ some (b ∷ xs, rest)
]

pub read_exact-append : (xs rest : List ℕ) → read_exact (length xs) (xs ++ rest) ≡ some (xs, rest)
unfolding read_exact
read_exact-append [] rest = refl
read_exact-append (x ∷ xs) rest = rw (read_exact-append xs rest, read_exact) refl

pub read_exact-short : (n : ℕ) (bytes : List ℕ) → length bytes < n → read_exact n bytes ≡ none
unfolding read_exact
read_exact-short zero bytes short = absurd (omega arith)
read_exact-short (suc n) [] short = refl
read_exact-short (suc n) (b ∷ bytes) short =
    rw (read_exact-short n bytes (omega arith), read_exact) refl

pub read_exact-enough :
    (n : ℕ) (bytes : List ℕ)
    → n ≤ length bytes
    → (xs rest : List ℕ) × (read_exact n bytes ≡ some (xs, rest)) × (length rest + n ≡ length bytes)
unfolding read_exact
read_exact-enough zero bytes enough = ([], bytes, refl, omega arith)
read_exact-enough (suc n) [] enough = absurd (omega arith)
read_exact-enough (suc n) (b ∷ bytes) enough =
    let (xs, rest, e, l) = read_exact-enough n bytes (omega arith) in
    (b ∷ xs, rest, rw (e, read_exact) refl, omega arith)
