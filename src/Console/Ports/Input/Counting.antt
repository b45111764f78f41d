-- ===== src/Console/Ports/Input/Counting.antt =====
-- Chains that are read into, each with its number of bytes. (device/virtio-console/src/process_rx.rs)
use virtio_device_poc.Base.{
  ℕ, ◌+◌, ◌<◌, ◌≡◌, sym, subst, Bool, List, [], ◌∷◌, ◌++◌, length, arith, ◌⊎◌,
}
use virtio_device_poc.Console.Ports.{PortQueue, PortQueueLaws}
use virtio_device_poc.Console.Ports.Input.{PortInput, Reading, read_chain}
use virtio_device_poc.Console.Ports.Input.Filled.{PortInputLaws, Counted, read_chain-Counts}

module _ (q : PortQueue) (i : PortInput) (laws : PortQueueLaws q) (inputs : PortInputLaws i) where
  abbrev pub total : List (q.Chain × ℕ) → ℕ
  total [] = 0
  total (x ∷ xs) = x.1 + total xs

  pub total-append : (xs ys : List (q.Chain × ℕ)) → total (xs ++ ys) ≡ total xs + total ys
  total-append [] ys = omega arith
  total-append (x ∷ xs) ys = let rest = total-append xs ys in omega arith

  pub either_append :
      {P : Type 0} (xs ys : List (q.Chain × ℕ))
      → (0 < length xs → P)
      → (0 < length ys → P)
      → 0 < length (xs ++ ys)
      → P
  either_append [] ys f g h = g h
  either_append (x ∷ xs) ys f g h = f (omega arith)

  abbrev pub AllFilled : List (q.Chain × ℕ) → Type 0
  AllFilled [] = Unit
  AllFilled (x ∷ xs) = (0 < x.1) × AllFilled xs

  pub AllFilled-append :
      (xs ys : List (q.Chain × ℕ)) → AllFilled xs → AllFilled ys → AllFilled (xs ++ ys)
  AllFilled-append [] ys f g = g
  AllFilled-append (x ∷ xs) ys (f, fs) g = (f, AllFilled-append xs ys fs g)

  -- Chains are read into one after the other, from one reading to another, each with its number of
  -- bytes: the sum of what its reads take.
  abbrev pub Reads : Reading q i → List (q.Chain × ℕ) → Reading q i → Type 0
  Reads s [] r = s ≡ r
  Reads s ((c, n) ∷ rest) r =
      (m : Reading q i) × Counted q i laws inputs (q.descriptors c) s n m × Reads m rest r

  pub Reads-append :
      (xs ys : List (q.Chain × ℕ)) (s m r : Reading q i)
      → Reads s xs m
      → Reads m ys r
      → Reads s (xs ++ ys) r
  Reads-append [] ys s m r f g = subst (λ x. Reads x ys r) (sym f) g
  Reads-append ((c, n) ∷ xs) ys s m r (x, counted, f) g = (x, counted, Reads-append xs ys x m r f g)

  -- Nothing more is read, or what is read into one more chain counts for nothing.
  abbrev pub Ceases : Reading q i → Reading q i → Type 0
  Ceases s r = (s ≡ r) ⊎ ((c : q.Chain) × Counted q i laws inputs (q.descriptors c) s 0 r)

  pub read_chain-Counted :
      (c : q.Chain) (s : Reading q i) (g : Bool) (n : ℕ)
      → (read_chain q i (q.descriptors c) s 0 g).1 ≡ n
      → Counted q i laws inputs (q.descriptors c) s n (read_chain q i (q.descriptors c) s 0 g).0
  read_chain-Counted c s g n e =
      let (k, sum, counted) = read_chain-Counts q i laws inputs (q.descriptors c) s 0 g in
      let same : k ≡ n = omega arith in
      subst
        (λ x.
          Counted q i laws inputs (q.descriptors c) s x (read_chain q i (q.descriptors c) s 0 g).0)
        same counted
