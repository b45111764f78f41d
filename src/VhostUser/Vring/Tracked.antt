-- ===== src/VhostUser/Vring/Tracked.antt =====
-- A ring whose kick descriptor is watched by the worker's epoll instances exactly while it is
-- started, and what the moves of the instances make of it. (vhost-user/src/vring.rs)
use virtio_device_poc.Base.{
  ℕ, ◌≡◌, ◌≢◌, refl, sym, ◌∙◌, inl, inr, Bool, true, false, Option, none, some, List, [], ◌∷◌,
  if◌then◌else◌, Option-cases, eq→==, subst, subst₃,
}
use mathlib.Core.Option.{some-injective}
use virtio_device_poc.VhostUser.Host.{Host, EpollLaws, QueueLaws}
use virtio_device_poc.VhostUser.Vring.{Vring, World, is_started}
use virtio_device_poc.VhostUser.Vring.Epolls.{
  AllEntries, IsDistinct, CanMoveAt, IsMoved, IsMovedAt, moved,
}

module _ (h : Host) (laws : EpollLaws h) (queues : QueueLaws h) where
  open h use {Epoll, watched, ready, set_ready}

  abbrev pub IsWatching : Bool → Option ℕ → World h → ℕ → ℕ → Type 0
  IsWatching started kick w id token =
      (e : Epoll)
      → w.epoll_at id ≡ some e
      → (fd : ℕ) → kick ≡ some fd
      → watched e fd ≡ (if started then some token else none)

  -- The instances are distinct, and each live one watches the kick, under its token, exactly if the
  -- ring is started.
  pub record IsTracked (v : Vring h) (w : World h) : Type 0 where
    pub distinct : IsDistinct v.epolls
    pub watching : AllEntries (IsWatching (is_started h v) v.kick w) v.epolls

  pub map_entries :
      (P Q : ℕ → ℕ → Type 0) (l : List (ℕ × ℕ))
      → ((id token : ℕ) → P id token → Q id token)
      → AllEntries P l
      → AllEntries Q l
  map_entries P Q [] f p = tt
  map_entries P Q ((id, token) ∷ rest) f p = (f id token p.0, map_entries P Q rest f p.1)

  -- Where an instance was before the loop.
  IsMovedAt-IsMoved :
      (w w' : World h) (old new : Option ℕ) (id token : ℕ) (e' : Epoll)
      → IsMovedAt h laws w w' old new id token
      → w'.epoll_at id ≡ some e'
      → (e : Epoll) × (w.epoll_at id ≡ some e) × IsMoved h laws old new token e e'
  IsMovedAt-IsMoved w w' old new id token e' m live' = elim (Option-cases (w.epoll_at id)) [
    | inl dead ↦ let gone = m.1 dead in cc
    | inr (e, live) ↦
        let (x, q, moves) = m.0 e live in
        (
          e,
          live,
          subst (IsMoved h laws old new token e) (some-injective x e' (sym q ∙ live')) moves,
        )
  ]

  module _ (kick : Option ℕ) (w w' : World h) where
    pub can_start :
        (id token : ℕ) → IsWatching false kick w id token → CanMoveAt h laws w none kick id token
    can_start id token watching e live = record {
      registered = λ fd q. cc;
      free = λ fd q r. watching e live fd q;
    }

    pub did_start :
        (id token : ℕ) → IsMovedAt h laws w w' none kick id token → IsWatching true kick w' id token
    did_start id token m e' live' fd q =
        let (e, live, moves) = IsMovedAt-IsMoved w w' none kick id token e' m live' in
        moves fd
        ∙ subst (λ k. moved none k token fd (watched e fd) ≡ some token) (sym q)
            (rw (eq→== fd fd refl))

    pub can_stop :
        (id token : ℕ) → IsWatching true kick w id token → CanMoveAt h laws w kick none id token
    can_stop id token watching e live = record {
      registered = λ fd q. (token, watching e live fd q);
      free = λ fd q r. cc;
    }

    pub did_stop :
        (id token : ℕ)
        → IsMovedAt h laws w w' kick none id token
        → IsWatching false kick w' id token
    did_stop id token m e' live' fd q =
        let (e, live, moves) = IsMovedAt-IsMoved w w' kick none id token e' m live' in
        moves fd
        ∙ subst (λ k. moved k none token fd (watched e fd) ≡ none) (sym q) (rw (eq→== fd fd refl))

    -- The new descriptor is not watched yet, unless it is the old one.
    abbrev pub IsFreshFor : Option ℕ → ℕ → ℕ → Type 0
    IsFreshFor file id token =
        (e : Epoll)
        → w.epoll_at id ≡ some e
        → (fd : ℕ) → file ≡ some fd
        → kick ≢ some fd
        → watched e fd ≡ none

    pub can_set_kick :
        (file : Option ℕ) (id token : ℕ)
        → IsWatching true kick w id token × IsFreshFor file id token
        → CanMoveAt h laws w kick file id token
    can_set_kick file id token c e live = record {
      registered = λ fd q. (token, c.0 e live fd q);
      free = λ fd q r. c.1 e live fd q r;
    }

    pub did_set_kick :
        (file : Option ℕ) (id token : ℕ)
        → IsMovedAt h laws w w' kick file id token
        → IsWatching true file w' id token
    did_set_kick file id token m e' live' fd q =
        let (e, live, moves) = IsMovedAt-IsMoved w w' kick file id token e' m live' in
        moves fd
        ∙ subst (λ k. moved kick k token fd (watched e fd) ≡ some token) (sym q) (take_new kick)
      where
        take_new :
            (k : Option ℕ)
            → moved k
                (some fd)
                token
                fd
                (watched (IsMovedAt-IsMoved w w' kick file id token e' m live').0 fd)
              ≡ some token
        take_new none = rw (eq→== fd fd refl)
        take_new (some old) = rw (eq→== fd fd refl)

  -- The parts of `IsTracked`, over a ring that is given by equations.
  pub IsTracked-of :
      (v : Vring h) (w : World h) (b : Bool) (k : Option ℕ) (l : List (ℕ × ℕ))
      → ready v.queue ≡ b
      → v.kick ≡ k
      → v.epolls ≡ l
      → IsDistinct l
      → AllEntries (IsWatching b k w) l
      → IsTracked v w
  unfolding is_started
  IsTracked-of v w b k l p q r d a = record {
    distinct = subst IsDistinct (sym r) d;
    watching = subst₃ (λ x y z. AllEntries (IsWatching x y w) z) (sym p) (sym q) (sym r) a;
  }
