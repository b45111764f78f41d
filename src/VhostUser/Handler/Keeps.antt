-- ===== src/VhostUser/Handler/Keeps.antt =====
-- What no request changes, and how a request may change the rest. (vhost-user/src/handler.rs)
mod Features
mod Memory
mod Rings
pub mod Requests
use virtio_device_poc.Base.{
  ℕ, ◌≡◌, refl, sym, ◌∙◌, inl, inr, ◌⊎◌, Bool, true, false, Option, some, List, length, length-set,
  bit_and, subst, set,
}
use virtio_device_poc.VhostUser.Host.{Host}
use virtio_device_poc.VhostUser.Vring.{Vring, World}
use virtio_device_poc.VhostUser.Handler.Types.{Reply, Device, VhostUserHandler}
use virtio_device_poc.VhostUser.Handler.Features.{complement}
use virtio_device_poc.VhostUser.Handler.Rings.{put_vring}

module _ (h : Host) (d : Device h) where
  abbrev Handler : Type 0
  Handler = VhostUserHandler h d

  -- The acknowledged features are among those that the device offers.
  abbrev pub IsOffered : ℕ → d.State → Type 0
  IsOffered features device = bit_and features (complement (d.avail_features device)) ≡ 0

  pub record Keeps (s s' : Handler) : Type 0 where
    pub same_queues : s'.requested_queues ≡ s.requested_queues
    pub same_rings : length s'.vrings ≡ length s.vrings
    pub stays_activated : s.device_activated ≡ true → s'.device_activated ≡ true
    pub needs_memory :
        s'.device_activated ≡ true → (s.device_activated ≡ true) ⊎ (s'.memory_updated ≡ true)
    pub stays_updated : s.memory_updated ≡ true → s'.memory_updated ≡ true
    pub stays_offered : IsOffered s.acked_features s.device → IsOffered s'.acked_features s'.device

  unfoldable pub IsKept : {A : Type 0} → Handler → Handler × Reply A → Type 0
  IsKept s r = Keeps s r.0

  pub is_kept : {A : Type 0} (s s' : Handler) (r : Reply A) → Keeps s s' → IsKept s (s', r)
  unfolding IsKept
  is_kept s s' r k = k

  pub IsKept-Keeps : {A : Type 0} (s : Handler) (r : Handler × Reply A) → IsKept s r → Keeps s r.0
  unfolding IsKept
  IsKept-Keeps s r k = k

  pub kept : {A : Type 0} (s : Handler) (r : Reply A) → IsKept s (s, r)
  unfolding IsKept
  kept s r = record {
    same_queues = refl;
    same_rings = refl;
    stays_activated = λ p. p;
    needs_memory = inl;
    stays_updated = λ p. p;
    stays_offered = λ p. p;
  }

  pub kept_then : (s t u : Handler) → Keeps s t → Keeps t u → Keeps s u
  kept_then s t u a b = record {
    same_queues = b.same_queues ∙ a.same_queues;
    same_rings = b.same_rings ∙ a.same_rings;
    stays_activated = λ p. b.stays_activated (a.stays_activated p);
    needs_memory = λ p. elim (b.needs_memory p) [
      | inl q ↦ elim (a.needs_memory q) [ inl r ↦ inl r | inr r ↦ inr (b.stays_updated r) ]
      | inr q ↦ inr q
    ];
    stays_updated = λ p. b.stays_updated (a.stays_updated p);
    stays_offered = λ p. b.stays_offered (a.stays_offered p);
  }

  -- A new device state that offers the same features.
  pub offered_by :
      (features : ℕ) (x y : d.State)
      → d.avail_features y ≡ d.avail_features x
      → IsOffered features x
      → IsOffered features y
  offered_by features x y e p = subst (λ a. bit_and features (complement a) ≡ 0) (sym e) p

  pub put_vring-Keeps : (s : Handler) (index : ℕ) (v : Vring h) → Keeps s (put_vring h d s index v)
  put_vring-Keeps s index v = record {
    same_queues = refl;
    same_rings = length-set s.vrings index v;
    stays_activated = λ p. p;
    needs_memory = inl;
    stays_updated = λ p. p;
    stays_offered = λ p. p;
  }

  pub put_vring_world-Keeps :
      (s : Handler) (index : ℕ) (v : Vring h) (w : World h)
      → Keeps s (record (put_vring h d s index v) { world = w })
  put_vring_world-Keeps s index v w = record {
    same_queues = refl;
    same_rings = length-set s.vrings index v;
    stays_activated = λ p. p;
    needs_memory = inl;
    stays_updated = λ p. p;
    stays_offered = λ p. p;
  }
