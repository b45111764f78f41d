-- ===== src/VhostUser/Vring/Epolls.antt =====
-- The loop of `update_epolls`: under the documented behaviour of epoll_ctl it moves every live
-- instance from the old kick descriptor to the new one. (vhost-user/src/vring.rs)
use virtio_device_poc.Base.{
  ℕ, ◌≡◌, ◌≢◌, refl, sym, ◌∙◌, ap, inl, inr, Option, none, some, List, [], ◌∷◌, Result, ok, subst,
  ◌==◌, if◌then◌else◌, Option-cases, ne→==, eq→==, ℕ_discrete,
}
use mathlib.Core.Option.{some-injective}
use virtio_device_poc.VhostUser.Host.{Host, EpollLaws}
use virtio_device_poc.VhostUser.Vring.{
  World, put_epoll, unregister_kick, register_kick, update_epoll, update_epolls,
}

-- `P` holds of each pair of an instance and its token.
abbrev pub AllEntries : (ℕ → ℕ → Type 0) → List (ℕ × ℕ) → Type 0
AllEntries P [] = Unit
AllEntries P ((id, token) ∷ rest) = P id token × AllEntries P rest

abbrev pub IsAbsent : ℕ → List (ℕ × ℕ) → Type 0
IsAbsent j = AllEntries (λ id token. j ≢ id)

-- No instance is listed twice.
abbrev pub IsDistinct : List (ℕ × ℕ) → Type 0
IsDistinct [] = Unit
IsDistinct ((id, token) ∷ rest) = IsAbsent id rest × IsDistinct rest

pub AllEntries-mono :
    (P Q : ℕ → ℕ → Type 0) (j : ℕ) (l : List (ℕ × ℕ))
    → ((id token : ℕ) → j ≢ id → P id token → Q id token)
    → IsAbsent j l
    → AllEntries P l
    → AllEntries Q l
AllEntries-mono P Q j [] f a p = tt
AllEntries-mono P Q j ((id, token) ∷ rest) f a p =
    (f id token a.0 p.0, AllEntries-mono P Q j rest f a.1 p.1)

-- What a descriptor's registration becomes.
abbrev pub moved : Option ℕ → Option ℕ → ℕ → ℕ → Option ℕ → Option ℕ
moved none none token fd before = before
moved (some old) none token fd before = if old == fd then none else before
moved none (some new) token fd before = if new == fd then some token else before
moved (some old) (some new) token fd before =
    if new == fd then some token else if old == fd then none else before

module _ (h : Host) (laws : EpollLaws h) where
  open h use {Epoll, watched, ctl_add, ctl_delete}

  -- The old descriptor is registered, and the new one is free once the old one is gone.
  pub record CanMove (old new : Option ℕ) (e : Epoll) : Type 0 where
    pub registered : (fd : ℕ) → old ≡ some fd → (token : ℕ) × (watched e fd ≡ some token)
    pub free : (fd : ℕ) → new ≡ some fd → old ≢ some fd → watched e fd ≡ none

  abbrev pub IsMoved : Option ℕ → Option ℕ → ℕ → Epoll → Epoll → Type 0
  IsMoved old new token e e' = (fd : ℕ) → watched e' fd ≡ moved old new token fd (watched e fd)

  pub unregister_kick_lem :
      (old : Option ℕ) (e : Epoll)
      → ((fd : ℕ) → old ≡ some fd → (token : ℕ) × (watched e fd ≡ some token))
      → (e' : Epoll) × (unregister_kick h old e ≡ ok e')
        × ((fd token : ℕ) → watched e' fd ≡ moved old none token fd (watched e fd))
  unfolding unregister_kick
  unregister_kick_lem none e r = (e, refl, λ fd token. refl)
  unregister_kick_lem (some old) e r =
      let (token, present) = r old refl in
      let (e', does, gone, others) = laws.delete_present e old token present in
      (
        e',
        does,
        λ fd t. elim (ℕ_discrete old fd) [
          | yes same ↦ rw (← same) (rw gone (rw (eq→== old old refl) refl))
          | no ne ↦ rw (ne→== old fd ne) (others fd (λ q. ne (sym q)))
        ],
      )

  pub register_kick_lem :
      (new : Option ℕ) (token : ℕ) (e : Epoll)
      → ((fd : ℕ) → new ≡ some fd → watched e fd ≡ none)
      → (e' : Epoll) × (register_kick h new token e ≡ ok e')
        × ((fd : ℕ) → watched e' fd ≡ moved none new token fd (watched e fd))
  unfolding register_kick
  register_kick_lem none token e r = (e, refl, λ fd. refl)
  register_kick_lem (some new) token e r =
      let (e', does, there, others) = laws.add_new e new token (r new refl) in
      (
        e',
        does,
        λ fd. elim (ℕ_discrete new fd) [
          | yes same ↦ rw (← same) (rw there (rw (eq→== new new refl) refl))
          | no ne ↦ rw (ne→== new fd ne) (others fd (λ q. ne (sym q)))
        ],
      )

  moved_twice :
      (old new : Option ℕ) (token fd : ℕ) (before : Option ℕ)
      → moved none new token fd (moved old none token fd before) ≡ moved old new token fd before
  moved_twice none none token fd before = refl
  moved_twice none (some n) token fd before = refl
  moved_twice (some o) none token fd before = refl
  moved_twice (some o) (some n) token fd before = refl

  moved_free :
      (old new : Option ℕ) (e : Epoll) (fd token : ℕ)
      → CanMove old new e
      → new ≡ some fd
      → moved old none token fd (watched e fd) ≡ none
  moved_free none new e fd token can is_new = can.free fd is_new (λ q. cc)
  moved_free (some o) new e fd token can is_new = elim (ℕ_discrete o fd) [
    | yes same ↦ rw (eq→== o fd same) refl
    | no ne ↦ rw (ne→== o fd ne) (can.free fd is_new (λ q. ne (cc)))
  ]

  update_epoll_of :
      (w : World h) (old new : Option ℕ) (id token : ℕ) (e e₁ e₂ : Epoll)
      → unregister_kick h old e ≡ ok e₁
      → register_kick h new token e₁ ≡ ok e₂
      → update_epoll h w old new id token e ≡ (put_epoll h w id e₂, ok tt)
  unfolding update_epoll
  update_epoll_of w old new id token e e₁ e₂ p q = rw (p, update_epoll) (rw (q, update_epoll) refl)

  update_epoll_lem :
      (w : World h) (old new : Option ℕ) (id token : ℕ) (e : Epoll)
      → CanMove old new e
      → (e' : Epoll) × (update_epoll h w old new id token e ≡ (put_epoll h w id e', ok tt))
        × IsMoved old new token e e'
  update_epoll_lem w old new id token e can =
      let (e₁, does₁, after₁) = unregister_kick_lem old e can.registered in
      let free =
        λ (fd : ℕ) (q : new ≡ some fd). after₁ fd token ∙ moved_free old new e fd token can q in
      let (e₂, does₂, after₂) = register_kick_lem new token e₁ free in
      (
        e₂,
        update_epoll_of w old new id token e e₁ e₂ does₁ does₂,
        λ fd.
            after₂ fd
            ∙ ap (moved none new token fd) (after₁ fd token)
            ∙ moved_twice old new token fd (watched e fd),
      )

  abbrev pub CanMoveAt : World h → Option ℕ → Option ℕ → ℕ → ℕ → Type 0
  CanMoveAt w old new id token = (e : Epoll) → w.epoll_at id ≡ some e → CanMove old new e

  -- A live instance has moved; a dead one stays dead.
  abbrev pub IsMovedAt : World h → World h → Option ℕ → Option ℕ → ℕ → ℕ → Type 0
  IsMovedAt w w' old new id token =
      ((e : Epoll)
        → w.epoll_at id ≡ some e
        → (e' : Epoll) × (w'.epoll_at id ≡ some e') × IsMoved old new token e e')
      × (w.epoll_at id ≡ none → w'.epoll_at id ≡ none)

  pub record Moves (w : World h) (old new : Option ℕ) (l : List (ℕ × ℕ)) : Type 0 where
    pub after : World h
    pub returns : update_epolls h w old new l ≡ (after, ok tt)
    pub listed : AllEntries (IsMovedAt w after old new) l
    pub unlisted : (j : ℕ) → IsAbsent j l → after.epoll_at j ≡ w.epoll_at j
    pub same_events : after.events ≡ w.events

  pub put_epoll_self :
      (w : World h) (id : ℕ) (e : Epoll) → (put_epoll h w id e).epoll_at id ≡ some e
  unfolding put_epoll
  put_epoll_self w id e = rw (eq→== id id refl)

  pub put_epoll_ne :
      (w : World h) (id j : ℕ) (e : Epoll) → j ≢ id → (put_epoll h w id e).epoll_at j ≡ w.epoll_at j
  unfolding put_epoll
  put_epoll_ne w id j e ne = rw (ne→== j id ne)

  update_epolls_dead :
      (w : World h) (old new : Option ℕ) (id token : ℕ) (rest : List (ℕ × ℕ))
      → w.epoll_at id ≡ none
      → update_epolls h w old new ((id, token) ∷ rest) ≡ update_epolls h w old new rest
  unfolding update_epolls
  update_epolls_dead w old new id token rest p = rw (p, update_epolls) refl

  update_epolls_live :
      (w w₁ : World h) (old new : Option ℕ) (id token : ℕ) (e : Epoll) (rest : List (ℕ × ℕ))
      → w.epoll_at id ≡ some e
      → update_epoll h w old new id token e ≡ (w₁, ok tt)
      → update_epolls h w old new ((id, token) ∷ rest) ≡ update_epolls h w₁ old new rest
  unfolding update_epolls
  update_epolls_live w w₁ old new id token e rest p q =
      rw (p, update_epolls)
        (rw (q, update_epolls)
          (ap (λ (r : World h × Result Unit ℕ). update_epolls h r.0 old new rest) q))

  moved_live :
      (w w' : World h) (old new : Option ℕ) (id token : ℕ) (e e' : Epoll)
      → w.epoll_at id ≡ some e
      → w'.epoll_at id ≡ some e'
      → IsMoved old new token e e'
      → IsMovedAt w w' old new id token
  moved_live w w' old new id token e e' live live' m = (
    λ x q.
        (e', live', subst (λ y. IsMoved old new token y e') (some-injective e x (sym live ∙ q)) m),
    λ q. cc,
  )

  moved_later :
      (w w₁ w' : World h) (old new : Option ℕ) (id token : ℕ)
      → w₁.epoll_at id ≡ w.epoll_at id
      → IsMovedAt w₁ w' old new id token
      → IsMovedAt w w' old new id token
  moved_later w w₁ w' old new id token same m = (λ e q. m.0 e (same ∙ q), λ q. m.1 (same ∙ q))

  Moves-live :
      (w : World h) (old new : Option ℕ) (id token : ℕ) (e e' : Epoll) (rest : List (ℕ × ℕ))
      → w.epoll_at id ≡ some e
      → update_epoll h w old new id token e ≡ (put_epoll h w id e', ok tt)
      → IsMoved old new token e e'
      → IsAbsent id rest
      → Moves (put_epoll h w id e') old new rest
      → Moves w old new ((id, token) ∷ rest)
  Moves-live w old new id token e e' rest live does m absent r = record {
    after = r.after;
    returns =
        update_epolls_live w (put_epoll h w id e') old new id token e rest live does ∙ r.returns;
    listed = (
      moved_live w r.after old new id token e e' live
          (r.unlisted id absent ∙ put_epoll_self w id e') m,
      AllEntries-mono (IsMovedAt (put_epoll h w id e') r.after old new)
          (IsMovedAt w r.after old new) id rest
          (λ j t ne later.
            moved_later w (put_epoll h w id e') r.after old new j t
              (put_epoll_ne w id j e' (λ q. ne (sym q))) later)
          absent r.listed,
    );
    unlisted = λ j a. r.unlisted j a.1 ∙ put_epoll_ne w id j e' a.0;
    same_events = r.same_events ∙ unfold put_epoll in refl;
  }

  -- Over distinct instances that can all be moved, the loop succeeds and moves each live one.
  pub update_epolls_lem :
      (w : World h) (old new : Option ℕ) (l : List (ℕ × ℕ))
      → IsDistinct l
      → AllEntries (CanMoveAt w old new) l
      → Moves w old new l
  update_epolls_lem w old new [] d can = record {
    after = w;
    returns = unfold update_epolls in refl;
    listed = tt;
    unlisted = λ j a. refl;
    same_events = refl;
  }
  update_epolls_lem w old new ((id, token) ∷ rest) d can = elim (Option-cases (w.epoll_at id)) [
    | inl dead ↦
        let r = update_epolls_lem w old new rest d.1 can.1 in
        record {
          after = r.after;
          returns = update_epolls_dead w old new id token rest dead ∙ r.returns;
          listed = ((λ e q. cc, λ q. r.unlisted id d.0 ∙ dead), r.listed);
          unlisted = λ j a. r.unlisted j a.1;
          same_events = r.same_events;
        }
    | inr (e, live) ↦
        let (e', does, m) = update_epoll_lem w old new id token e (can.0 e live) in
        let can' =
          AllEntries-mono (CanMoveAt w old new) (CanMoveAt (put_epoll h w id e') old new) id rest
            (λ j t ne c x q. c x (sym (put_epoll_ne w id j e' (λ p. ne (sym p))) ∙ q)) d.0 can.1 in
        Moves-live w old new id token e e' rest live does m d.0
          (update_epolls_lem (put_epoll h w id e') old new rest d.1 can')
  ]
