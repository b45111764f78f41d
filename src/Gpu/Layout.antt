-- ===== src/Gpu/Layout.antt =====
-- What `read_obj` and `write_obj` do for a packed structure: the interface of vm_memory's
-- ByteValued, and how the structure of its fields gives it. (device/virtio-gpu/src/protocol.rs)
pub mod Arrays
use virtio_device_poc.Base.{
  ℕ, ◌+◌, ◌^◌, ◌≤◌, ◌<◌, ◌≡◌, refl, sym, ap, ◌∙◌, Option, none, some, List, [], ◌∷◌, ◌++◌, length,
  length-append, arith,
}
use mathlib.Core.List.{append_assoc}
use native.Mathlib.Decide.{dec_lt}
use virtio_device_poc.Base.Bytes.{
  Reading, le_bytes, from_le_bytes, length-le_bytes, from_le_bytes-le_bytes, from_le_bytes-short,
  from_le_bytes-enough, read_exact, read_exact-append, read_exact-short, read_exact-enough,
}

-- The bytes of a value, and the value of the first bytes of a text, which is read exactly if it is
-- long enough. `Fits` is what the field types of the source enforce.
pub record ByteValued (A : Type 0) : Type 1 where
  pub size : ℕ
  pub as_bytes : A → List ℕ
  pub read_obj : List ℕ → Reading A
  pub Fits : A → Type 0
  pub length-as_bytes : (x : A) → Fits x → length (as_bytes x) ≡ size
  pub read-as_bytes :
      (x : A) (rest : List ℕ) → Fits x → read_obj (as_bytes x ++ rest) ≡ some (x, rest)
  pub read-short : (bytes : List ℕ) → length bytes < size → read_obj bytes ≡ none
  pub read-enough :
      (bytes : List ℕ)
      → size ≤ length bytes
      → (x : A) × (rest : List ℕ) × (read_obj bytes ≡ some (x, rest))
        × (length rest + size ≡ length bytes)

-- Le32, Le64 and u8.
unfoldable pub le : ℕ → ByteValued ℕ
le n = record {
  size = n;
  as_bytes = le_bytes n;
  read_obj = from_le_bytes n;
  Fits = λ x. x < 256 ^ n;
  length-as_bytes = λ x f. length-le_bytes n x;
  read-as_bytes = from_le_bytes-le_bytes n;
  read-short = from_le_bytes-short n;
  read-enough = from_le_bytes-enough n;
}

abbrev pub le32 : ByteValued ℕ
unfolding le
le32 = le 4

abbrev pub le64 : ByteValued ℕ
unfolding le
le64 = le 8

-- An array of bytes.
unfoldable pub array : ℕ → ByteValued (List ℕ)
array n = record {
  size = n;
  as_bytes = λ xs. xs;
  read_obj = read_exact n;
  Fits = λ xs. length xs ≡ n;
  length-as_bytes = λ xs f. f;
  read-as_bytes =
      λ xs rest f. ap (λ k. read_exact k (xs ++ rest)) (sym f) ∙ read_exact-append xs rest;
  read-short = read_exact-short n;
  read-enough = read_exact-enough n;
}

module _ {A B : Type 0} (a : ByteValued A) (b : ByteValued B) where
  unfoldable pub read_both : List ℕ → Reading (A × B)
  read_both bytes = elim (a.read_obj bytes) [
    | none ↦ none
    | some (x, rest) ↦ elim (b.read_obj rest) [
      | none ↦ none
      | some (y, rest') ↦ some ((x, y), rest')
    ]
  ]

  read_both-as_bytes :
      (x : A) (y : B) (rest : List ℕ)
      → a.Fits x
      → b.Fits y
      → read_both ((a.as_bytes x ++ b.as_bytes y) ++ rest) ≡ some ((x, y), rest)
  unfolding read_both
  read_both-as_bytes x y rest f g = rw (append_assoc (a.as_bytes x) (b.as_bytes y) rest) (
      rw (a.read-as_bytes x (b.as_bytes y ++ rest) f, read_both)
        (rw (b.read-as_bytes y rest g) refl))

  read_both-short : (bytes : List ℕ) → length bytes < a.size + b.size → read_both bytes ≡ none
  unfolding read_both
  read_both-short bytes short = elim (dec_lt (length bytes) a.size) [
    | yes none_of_a ↦ rw (a.read-short bytes none_of_a, read_both) refl
    | no enough ↦
        let (x, rest, e, l) = a.read-enough bytes (omega arith) in
        rw (e, read_both) (rw (b.read-short rest (omega arith)) refl)
  ]

  read_both-enough :
      (bytes : List ℕ)
      → a.size + b.size ≤ length bytes
      → (x : A × B) × (rest : List ℕ) × (read_both bytes ≡ some (x, rest))
        × (length rest + (a.size + b.size) ≡ length bytes)
  unfolding read_both
  read_both-enough bytes enough =
      let (x, rest, e, l) = a.read-enough bytes (omega arith) in
      let (y, rest', e', l') = b.read-enough rest (omega arith) in
      ((x, y), rest', rw (e, read_both) (rw e' refl), omega arith)

  -- One field after the other.
  infixr 60 ◌&◌
  unfoldable pub ◌&◌ : ByteValued (A × B)
  unfolding read_both-as_bytes read_both-short read_both-enough
  ◌&◌ = record {
    size = a.size + b.size;
    as_bytes = λ (x, y). a.as_bytes x ++ b.as_bytes y;
    read_obj = read_both;
    Fits = λ (x, y). a.Fits x × b.Fits y;
    length-as_bytes = λ (x, y) f.
        length-append (a.as_bytes x) (b.as_bytes y)
        ∙ (let p = a.length-as_bytes x f.0 in let q = b.length-as_bytes y f.1 in omega arith);
    read-as_bytes = λ (x, y) rest f. read_both-as_bytes x y rest f.0 f.1;
    read-short = read_both-short;
    read-enough = read_both-enough;
  }

module _ {A B : Type 0} (to : A → B) (from : B → A) (same : (y : B) → to (from y) ≡ y)
    (a : ByteValued A) where
  unfoldable pub read_struct : List ℕ → Reading B
  read_struct bytes = elim (a.read_obj bytes) [ none ↦ none | some (x, rest) ↦ some (to x, rest) ]

  read_struct-as_bytes :
      (y : B) (rest : List ℕ)
      → a.Fits (from y)
      → read_struct (a.as_bytes (from y) ++ rest) ≡ some (y, rest)
  unfolding read_struct
  read_struct-as_bytes y rest f =
      rw (a.read-as_bytes (from y) rest f, read_struct) (λ j. some (same y j, rest))

  read_struct-short : (bytes : List ℕ) → length bytes < a.size → read_struct bytes ≡ none
  unfolding read_struct
  read_struct-short bytes short = rw (a.read-short bytes short, read_struct) refl

  read_struct-enough :
      (bytes : List ℕ)
      → a.size ≤ length bytes
      → (y : B) × (rest : List ℕ) × (read_struct bytes ≡ some (y, rest))
        × (length rest + a.size ≡ length bytes)
  unfolding read_struct
  read_struct-enough bytes enough =
      let (x, rest, e, l) = a.read-enough bytes enough in (to x, rest, rw (e, read_struct) refl, l)

  -- A structure with these fields.
  unfoldable pub struct : ByteValued B
  unfolding read_struct-as_bytes read_struct-short read_struct-enough
  struct = record {
    size = a.size;
    as_bytes = λ y. a.as_bytes (from y);
    read_obj = read_struct;
    Fits = λ y. a.Fits (from y);
    length-as_bytes = λ y f. a.length-as_bytes (from y) f;
    read-as_bytes = read_struct-as_bytes;
    read-short = read_struct-short;
    read-enough = read_struct-enough;
  }
