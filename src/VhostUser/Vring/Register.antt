-- ===== src/VhostUser/Vring/Register.antt =====
-- A worker's registration of the kick event of a ring: `VhostKickEvent` with the list of epoll
-- instances. (vhost-user/src/vring.rs)
use virtio_device_poc.Base.{
  ℕ, ◌≡◌, ◌≢◌, refl, sym, ◌∙◌, inl, inr, ◌⊎◌, Bool, true, Option, none, some, List, [], ◌∷◌, ◌++◌,
  ok, if◌then◌else◌, Option-cases, eq→==, subst,
}
use mathlib.Core.Option.{some-injective}
use virtio_device_poc.VhostUser.Host.{Host, EpollLaws, QueueLaws}
use virtio_device_poc.VhostUser.Vring.{
  Vring, World, is_started, register_self, retain_live, add_epoll, put_epoll, register_kick,
}
use virtio_device_poc.VhostUser.Vring.Epolls.{
  AllEntries, IsAbsent, IsDistinct, register_kick_lem, put_epoll_self, put_epoll_ne, moved,
  AllEntries-mono,
}
use virtio_device_poc.VhostUser.Vring.Tracked.{IsWatching, IsTracked, IsTracked-of}

AllEntries-append :
    (P : ℕ → ℕ → Type 0) (l m : List (ℕ × ℕ))
    → AllEntries P l
    → AllEntries P m
    → AllEntries P (l ++ m)
AllEntries-append P [] m p q = q
AllEntries-append P ((id, token) ∷ l) m p q = (p.0, AllEntries-append P l m p.1 q)

IsDistinct-append :
    (l : List (ℕ × ℕ)) (id token : ℕ)
    → IsDistinct l
    → IsAbsent id l
    → IsDistinct (l ++ (id, token) ∷ [])
IsDistinct-append [] id token d a = (tt, tt)
IsDistinct-append ((j, t) ∷ l) id token d a = (
  AllEntries-append (λ k u. j ≢ k) l ((id, token) ∷ []) d.0 ((λ q. a.0 (sym q)), tt),
  IsDistinct-append l id token d.1 a.1,
)

module _ (h : Host) (w : World h) where
  AllEntries-retain_live :
      (P : ℕ → ℕ → Type 0) (l : List (ℕ × ℕ)) → AllEntries P l → AllEntries P (retain_live h w l)
  unfolding retain_live
  AllEntries-retain_live P [] p = tt
  AllEntries-retain_live P ((id, token) ∷ l) p = elim (Option-cases (w.epoll_at id)) [
    | inl dead ↦ rw (dead, retain_live) (AllEntries-retain_live P l p.1)
    | inr (e, live) ↦ rw (live, retain_live) (p.0, AllEntries-retain_live P l p.1)
  ]

  IsDistinct-retain_live : (l : List (ℕ × ℕ)) → IsDistinct l → IsDistinct (retain_live h w l)
  unfolding retain_live
  IsDistinct-retain_live [] d = tt
  IsDistinct-retain_live ((id, token) ∷ l) d = elim (Option-cases (w.epoll_at id)) [
    | inl dead ↦ rw (dead, retain_live) (IsDistinct-retain_live l d.1)
    | inr (e, live) ↦
        rw (live, retain_live)
          (AllEntries-retain_live (λ k u. id ≢ k) l d.0, IsDistinct-retain_live l d.1)
  ]

module _ (h : Host) (laws : EpollLaws h) (queues : QueueLaws h) where
  open h use {Epoll, watched, ready}

  register_self_of :
      (v : Vring h) (w : World h) (id token : ℕ) (e e' : Epoll)
      → register_kick h v.kick token e ≡ ok e'
      → register_self h v w id e token ≡ (add_epoll h v w id token, put_epoll h w id e', ok tt)
  unfolding register_self
  register_self_of v w id token e e' p = rw (p, register_self) refl

  -- The state that an instance sees once it is registered.
  watching_new :
      (b : Bool) (kick : Option ℕ) (token : ℕ) (e e' : Epoll)
      → (b ≡ true) ⊎ (kick ≡ none)
      → ((fd : ℕ) → watched e' fd ≡ moved none kick token fd (watched e fd))
      → (fd : ℕ) → kick ≡ some fd
      → watched e' fd ≡ (if b then some token else none)
  watching_new b none token e e' s m fd q = cc
  watching_new b (some k) token e e' (inr never) m fd q = cc
  watching_new b (some k) token e e' (inl started) m fd q =
      rw started (m fd ∙ rw (eq→== k fd (some-injective k fd q)) refl)

  -- A worker that registers the kick event with a live instance of its own, which the ring does
  -- not list yet and which does not watch the kick, succeeds; the instance is then among those
  -- that start, stop and set_kick keep up to date. The ring is started, or has no kick yet.
  pub register_self-IsTracked :
      (v : Vring h) (w : World h) (id token : ℕ) (e : Epoll)
      → IsTracked h laws queues v w
      → (is_started h v ≡ true) ⊎ (v.kick ≡ none)
      → IsAbsent id v.epolls
      → ((fd : ℕ) → v.kick ≡ some fd → watched e fd ≡ none)
      → ((register_self h v w id e token).2 ≡ ok tt)
        × ((register_self h v w id e token).0.epolls ≡ retain_live h w v.epolls ++ (id, token) ∷ [])
        × IsTracked h laws queues
            (register_self h v w id e token).0
            (register_self h v w id e token).1
  register_self-IsTracked v w id token e t state absent free =
      let (e', does, moves) = register_kick_lem h laws v.kick token e free in
      let b = is_started h v in
      let w' = put_epoll h w id e' in
      let kept = retain_live h w v.epolls in
      let others =
        AllEntries-mono (IsWatching h laws queues b v.kick w) (IsWatching h laws queues b v.kick w')
          id v.epolls
          (λ j u ne watching x live.
            watching x (sym (put_epoll_ne h laws w id j e' (λ p. ne (sym p))) ∙ live))
          absent t.watching in
      let own : IsWatching h laws queues b v.kick w' id token = λ x live fd q.
        subst (λ y. watched y fd ≡ (if b then some token else none))
          (some-injective e' x (sym (put_epoll_self h laws w id e') ∙ live))
          (watching_new b v.kick token e e' state moves fd q) in
      rw (register_self_of v w id token e e' does) (
        refl,
        unfold add_epoll in refl,
        IsTracked-of h laws queues (add_epoll h v w id token) w' b v.kick (kept ++ (id, token) ∷ [])
            (unfold add_epoll is_started in refl) (unfold add_epoll in refl)
            (unfold add_epoll in refl)
            (IsDistinct-append kept id token (IsDistinct-retain_live h w v.epolls t.distinct)
              (AllEntries-retain_live h w (λ j u. id ≢ j) v.epolls absent))
            (AllEntries-append (IsWatching h laws queues b v.kick w') kept ((id, token) ∷ [])
              (AllEntries-retain_live h w (IsWatching h laws queues b v.kick w') v.epolls others)
              (own, tt)),
      )
