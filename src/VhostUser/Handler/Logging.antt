-- ===== src/VhostUser/Handler/Logging.antt =====
-- The start of the migration log. (vhost-user/src/handler.rs)
use virtio_device_poc.Base.{
  ℕ, ◌≡◌, refl, subst, inl, inr, Option, some, List, [], ◌∷◌, Result, ok, err, ◌==◌, ◌⊎◌, eq→==,
  by_result, Bool-cases, ok-injective,
}
use virtio_device_poc.VhostUser.Host.{Host}
use virtio_device_poc.VhostUser.Bitmap.{AtomicBitmapMmap, LogMem, IoError, from_file}
use virtio_device_poc.VhostUser.Bitmap
use virtio_device_poc.VhostUser.Bitmap.Marking.{IsInLog}
use virtio_device_poc.VhostUser.Bitmap.Laws.{new-IsInLog}
use virtio_device_poc.VhostUser.Handler.Types.{
  VhostUserError, Reply, reply, refuse, Device, VhostUserHandler,
}
use virtio_device_poc.VhostUser.Handler.Memory.{new_bitmaps, install, set_log_base}

module _ (h : Host) (d : Device h) where
  abbrev Handler : Type 0
  Handler = VhostUserHandler h d

  -- The region that starts there has a bitmap, and the bitmap lies in the log.
  abbrev pub HasBitmap : LogMem → (ℕ → Option AtomicBitmapMmap) → ℕ → Type 0
  HasBitmap log installed start =
      (b : AtomicBitmapMmap) × (installed start ≡ some b) × IsInLog b log

  abbrev pub AllLogged : LogMem → (ℕ → Option AtomicBitmapMmap) → List (ℕ × ℕ) → Type 0
  AllLogged log installed [] = Unit {0}
  AllLogged log installed ((start, len) ∷ rs) =
      HasBitmap log installed start × AllLogged log installed rs

  install_self :
      (s : ℕ) (b : AtomicBitmapMmap) (bs : List (ℕ × AtomicBitmapMmap))
      (old : ℕ → Option AtomicBitmapMmap)
      → install h d ((s, b) ∷ bs) old s ≡ some b
  unfolding install
  install_self s b bs old = rw (eq→== s s refl) refl

  install_more :
      (log : LogMem) (s : ℕ) (b : AtomicBitmapMmap) (bs : List (ℕ × AtomicBitmapMmap))
      (old : ℕ → Option AtomicBitmapMmap) (rs : List (ℕ × ℕ))
      → IsInLog b log
      → AllLogged log (install h d bs old) rs
      → AllLogged log (install h d ((s, b) ∷ bs) old) rs
  unfolding install
  install_more log s b bs old [] i a = tt
  install_more log s b bs old ((start, len) ∷ rs) i a = (
    elim (Bool-cases (start == s)) [
      | inl same ↦ (b, rw (same, install) refl, i)
      | inr other ↦ (a.0.0, rw (other, install) a.0.1, a.0.2)
    ],
    install_more log s b bs old rs i a.1,
  )

  new_bitmaps_lem :
      (log : LogMem) (rs : List (ℕ × ℕ)) (bs : List (ℕ × AtomicBitmapMmap))
      (old : ℕ → Option AtomicBitmapMmap)
      → new_bitmaps h d log rs ≡ ok bs
      → AllLogged log (install h d bs old) rs
  unfolding new_bitmaps
  new_bitmaps_lem log [] bs old e = tt
  new_bitmaps_lem log ((start, len) ∷ rs) bs old e =
      more (Bitmap.new start len log) (new_bitmaps h d log rs) refl
        (λ bs'. new_bitmaps_lem log rs bs' old) e
    where
      more :
          (first : Result AtomicBitmapMmap IoError)
          (rest : Result (List (ℕ × AtomicBitmapMmap)) IoError)
          → Bitmap.new start len log ≡ first
          → ((bs' : List (ℕ × AtomicBitmapMmap))
              → rest ≡ ok bs'
              → AllLogged log (install h d bs' old) rs)
          → (let r : Result (List (ℕ × AtomicBitmapMmap)) IoError = elim first [
            | err x ↦ err x
            | ok b ↦ elim rest [ err x ↦ err x | ok bs' ↦ ok ((start, b) ∷ bs') ]
          ] in
              r ≡ ok bs)
          → AllLogged log (install h d bs old) ((start, len) ∷ rs)
      more (err x) rest p q e = cc
      more (ok b) (err x) p q e = cc
      more (ok b) (ok bs') p q e =
          let inside = new-IsInLog start len log b p in
          subst (λ l. AllLogged log (install h d l old) ((start, len) ∷ rs))
            (ok-injective ((start, b) ∷ bs') bs e)
            (
              (b, install_self start b bs' old, inside),
              install_more log start b bs' old rs inside (q bs' refl),
            )

  -- What set_log_base-all_or_nothing states of the result.
  unfoldable pub IsLoggedAllOrNothing : Handler → Handler × Reply (Unit {0}) → Type 0
  IsLoggedAllOrNothing s r =
      ((e : VhostUserError) × (r ≡ (s, refuse e)))
      ⊎ ((r.1 ≡ reply tt) × AllLogged r.0.log r.0.installed (h.regions s.atomic_mem))

  -- SET_LOG_BASE either is refused and changes nothing, or is answered and then every region of the
  -- guest's memory has a bitmap that lies in the new log.
  pub set_log_base-all_or_nothing :
      (s : Handler) (file mmap_offset mmap_size : ℕ)
      → IsLoggedAllOrNothing s (set_log_base h d s file mmap_offset mmap_size)
  unfolding set_log_base IsLoggedAllOrNothing
  set_log_base-all_or_nothing s file mmap_offset mmap_size =
      by_result (IsLoggedAllOrNothing s) (from_file (h.mmap file) mmap_offset mmap_size) _ _
        (λ log e.
          by_result (IsLoggedAllOrNothing s) (new_bitmaps h d log (h.regions s.atomic_mem)) _ _
            (λ bs q. inr (refl, new_bitmaps_lem log (h.regions s.atomic_mem) bs s.installed q))
            (λ x q. inl (_, refl)))
        (λ x e. inl (_, refl))
