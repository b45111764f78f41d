-- ===== src/Console/Ports/Input/Filled.antt =====
-- What is read from a port's input into the descriptors of a chain.
-- (device/virtio-console/src/process_rx.rs)
use virtio_device_poc.Base.{
  ℕ, zero, suc, ◌+◌, ◌≤◌, ◌<◌, ◌≡◌, refl, Bool, true, List, [], ◌∷◌, Result, ok, err, arith,
  ok-injective,
}
use virtio_device_poc.Console.Ports.{
  IoError, would_block, other_error, GuestMemoryError, PortQueue, PortQueueLaws,
}
use virtio_device_poc.Console.Ports.Input.{PortInput, Reading, read_piece, read_to_desc, read_chain}

-- How many bytes were taken from an input so far.
pub record PortInputLaws (i : PortInput) : Type 0 where
  pub consumed : i.Input → ℕ
  pub read_ok :
      (x : i.Input) (len n : ℕ)
      → (i.read_volatile x len).1 ≡ ok n
      → consumed (i.read_volatile x len).0 ≡ consumed x + n
  pub read_err :
      (x : i.Input) (len : ℕ) (e : IoError)
      → (i.read_volatile x len).1 ≡ err e
      → consumed (i.read_volatile x len).0 ≡ consumed x

module _ (q : PortQueue) (i : PortInput) (laws : PortQueueLaws q) (inputs : PortInputLaws i) where
  abbrev pub taken : Reading q i → ℕ
  taken s = inputs.consumed s.0

  -- A read that gives `ok k` took k bytes, and no read gives bytes back.
  abbrev Takes : Reading q i → Reading q i × Result ℕ GuestMemoryError → Type 0
  Takes s r = (taken s ≤ taken r.0) × ((k : ℕ) → r.1 ≡ ok k → taken r.0 ≡ taken s + k)

  read_piece-Takes : (done len : ℕ) (s : Reading q i) → Takes s (read_piece q i done len s)
  unfolding read_piece
  read_piece-Takes done len (input, eof) = of_result (i.read_volatile input len).1 refl
    where
      of_result :
          (r : Result ℕ IoError)
          → (i.read_volatile input len).1 ≡ r
          → Takes (input, eof) (read_piece q i done len (input, eof))
      of_result (ok n) e =
          let took = inputs.read_ok input len n e in
          rw (e, read_piece) (omega arith, λ k h. let same = ok-injective n k h in omega arith)
      of_result (err would_block) e =
          let took = inputs.read_err input len would_block e in
          rw (e, read_piece) (omega arith, λ k h. let same = ok-injective 0 k h in omega arith)
      of_result (err other_error) e =
          let took = inputs.read_err input len other_error e in
          rw (e, read_piece) (omega arith, λ k h. cc)

  read_to_desc-Takes : (d : q.Descriptor) (s : Reading q i) → Takes s (read_to_desc q i d s)
  unfolding read_to_desc
  read_to_desc-Takes d s = (
    laws.try_access-keeps (λ t. taken s ≤ taken t) (read_piece q i)
        (λ n len t h. let more = (read_piece-Takes n len t).0 in omega arith) d s (omega arith),
    λ k e.
        laws.try_access-sums (λ t n. taken t ≡ taken s + n) (read_piece q i)
          (λ n len k t h e. let more = (read_piece-Takes n len t).1 k e in omega arith) d s k
          (omega arith) e,
  )

  -- Reading into descriptors gives n bytes: the sum of what the reads that succeed take from the
  -- input, up to the first one that takes nothing. A read that fails counts for nothing.
  pub data Counted : List q.Descriptor → Reading q i → ℕ → Reading q i → Type 0 where
    no_descriptor : (s : Reading q i) → Counted [] s 0 s
    nothing :
        (d : q.Descriptor) (ds : List q.Descriptor) (s : Reading q i)
        → (read_to_desc q i d s).1 ≡ ok 0
        → Counted (d ∷ ds) s 0 (read_to_desc q i d s).0
    got :
        (d : q.Descriptor) (ds : List q.Descriptor) (s r : Reading q i) (k n : ℕ)
        → (read_to_desc q i d s).1 ≡ ok (suc k)
        → taken (read_to_desc q i d s).0 ≡ taken s + suc k
        → Counted ds (read_to_desc q i d s).0 n r
        → Counted (d ∷ ds) s (suc k + n) r
    failed :
        (d : q.Descriptor) (ds : List q.Descriptor) (s r : Reading q i) (n : ℕ)
        (e : GuestMemoryError)
        → (read_to_desc q i d s).1 ≡ err e
        → Counted ds (read_to_desc q i d s).0 n r
        → Counted (d ∷ ds) s n r

  abbrev pub Counts : List q.Descriptor → Reading q i → ℕ → Reading q i × ℕ × Bool → Type 0
  Counts ds s bytes (s', bytes', signal') = (n : ℕ) × (bytes' ≡ bytes + n) × Counted ds s n s'

  Counts-cons :
      (d : q.Descriptor) (ds : List q.Descriptor) (s : Reading q i) (bytes : ℕ) (signal : Bool)
      → ((s' : Reading q i) (b : ℕ) (g : Bool) → Counts ds s' b (read_chain q i ds s' b g))
      → (r : Result ℕ GuestMemoryError) → (read_to_desc q i d s).1 ≡ r
      → Counts (d ∷ ds) s bytes (read_chain q i (d ∷ ds) s bytes signal)
  unfolding read_chain
  Counts-cons d ds s bytes signal rest (ok zero) e =
      rw (e, read_chain) (0, omega arith, nothing d ds s e)
  Counts-cons d ds s bytes signal rest (ok (suc k)) e =
      let took = (read_to_desc-Takes d s).1 (suc k) e in
      let (n, sum, counted) = rest (read_to_desc q i d s).0 (bytes + suc k) true in
      rw (e, read_chain) (suc k + n, omega arith, got d ds s _ k n e took counted)
  Counts-cons d ds s bytes signal rest (err x) e =
      let (n, sum, counted) = rest (read_to_desc q i d s).0 bytes signal in
      rw (e, read_chain) (n, sum, failed d ds s _ n x e counted)

  pub read_chain-Counts :
      (descs : List q.Descriptor) (s : Reading q i) (bytes : ℕ) (signal : Bool)
      → Counts descs s bytes (read_chain q i descs s bytes signal)
  unfolding read_chain
  read_chain-Counts [] s bytes signal = (0, omega arith, no_descriptor s)
  read_chain-Counts (d ∷ ds) s bytes signal =
      Counts-cons d ds s bytes signal (read_chain-Counts ds) (read_to_desc q i d s).1 refl

  -- What reading into a chain does: the bytes are of the input, and the guest is to be notified if
  -- there are any.
  abbrev pub Fills : Reading q i → ℕ → Bool → Reading q i × ℕ × Bool → Type 0
  Fills s bytes signal (s', bytes', signal') =
      (bytes ≤ bytes')
      × (taken s + bytes' ≤ taken s' + bytes)
      × (bytes < bytes' → signal' ≡ true)
      × (signal ≡ true → signal' ≡ true)

  Fills-cons :
      (d : q.Descriptor) (ds : List q.Descriptor) (s : Reading q i) (bytes : ℕ) (signal : Bool)
      → ((s' : Reading q i) (b : ℕ) (g : Bool) → Fills s' b g (read_chain q i ds s' b g))
      → (r : Result ℕ GuestMemoryError) → (read_to_desc q i d s).1 ≡ r
      → Fills s bytes signal (read_chain q i (d ∷ ds) s bytes signal)
  unfolding read_chain
  Fills-cons d ds s bytes signal rest (ok zero) e =
      let more = (read_to_desc-Takes d s).0 in
      rw (e, read_chain) (omega arith, omega arith, λ h. absurd (omega arith), λ h. h)
  Fills-cons d ds s bytes signal rest (ok (suc n)) e =
      let took = (read_to_desc-Takes d s).1 (suc n) e in
      let (grows, reads, told, keeps) = rest (read_to_desc q i d s).0 (bytes + suc n) true in
      rw (e, read_chain) (omega arith, omega arith, λ h. keeps refl, λ h. keeps refl)
  Fills-cons d ds s bytes signal rest (err x) e =
      let more = (read_to_desc-Takes d s).0 in
      let (grows, reads, told, keeps) = rest (read_to_desc q i d s).0 bytes signal in
      rw (e, read_chain) (omega arith, omega arith, told, keeps)

  pub read_chain-Fills :
      (descs : List q.Descriptor) (s : Reading q i) (bytes : ℕ) (signal : Bool)
      → Fills s bytes signal (read_chain q i descs s bytes signal)
  unfolding read_chain
  read_chain-Fills [] s bytes signal = (omega arith, omega arith, λ h. absurd (omega arith), λ h. h)
  read_chain-Fills (d ∷ ds) s bytes signal =
      Fills-cons d ds s bytes signal (read_chain-Fills ds) (read_to_desc q i d s).1 refl
