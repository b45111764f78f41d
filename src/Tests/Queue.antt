-- ===== src/Tests/Queue.antt =====
-- A queue of the GPU as the chains that wait, the used ring and the notifications.
use virtio_device_poc.Base.{
  ℕ, ◌+◌, ◌≡◌, refl, sym, ap, ◌∙◌, Bool, true, false, Option, none, some, List, [], ◌∷◌, ◌++◌,
}
use mathlib.Core.Option.{some-injective}
use virtio_device_poc.Gpu.Queue.{QueueApi, QueueLaws}

pub record Ring : Type 0 where
  pub chains : List (ℕ × List ℕ)
  pub used : List (ℕ × ℕ)
  pub notified : ℕ

abbrev pub heads_of : List (ℕ × List ℕ) → List ℕ
heads_of [] = []
heads_of ((head, bytes) ∷ chains) = head ∷ heads_of chains

abbrev pub pop : Ring → List (ℕ × List ℕ) → Option ((ℕ × List ℕ) × Ring)
pop r [] = none
pop r (chain ∷ chains) = some (chain, record r { chains = chains })

abbrev pub is_waiting : List (ℕ × List ℕ) → Bool
is_waiting [] = false
is_waiting (chain ∷ chains) = true

abbrev pub ring_queue : QueueApi
ring_queue = record {
  Queue = Ring;
  Chain = ℕ × List ℕ;
  pop_descriptor_chain = λ r. pop r r.chains;
  head_index = λ (head, bytes). head;
  add_used = λ r head len. some (record r { used = r.used ++ (head, len) ∷ [] });
  event_idx_enabled = λ r. true;
  disable_notification = λ r. some r;
  enable_notification = λ r. some (r, is_waiting r.chains);
  signal_used_queue = λ r. some (record r { notified = r.notified + 1 });
}

abbrev Same : Ring → Ring → Type 0
Same x y = (y.used ≡ x.used) × (heads_of y.chains ≡ heads_of x.chains) × (y.notified ≡ x.notified)

same : (x y : Ring) → x ≡ y → Same x y
same x y e =
    (sym (ap Ring.used e), sym (ap (λ (r : Ring). heads_of r.chains) e), sym (ap Ring.notified e))

pop_none : (r : Ring) (chains : List (ℕ × List ℕ)) → pop r chains ≡ none → heads_of chains ≡ []
pop_none r [] e = refl
pop_none r (chain ∷ chains) e = cc

pop_some :
    (r y : Ring) (c : ℕ × List ℕ) (chains : List (ℕ × List ℕ))
    → pop r chains ≡ some (c, y)
    → (y.used ≡ r.used) × (heads_of chains ≡ c.0 ∷ heads_of y.chains) × (y.notified ≡ r.notified)
pop_some r y c [] e = cc
pop_some r y c ((head, bytes) ∷ chains) e =
    let e' = some-injective ((head, bytes), record r { chains = chains }) (c, y) e in
    (
      sym (ap (λ (t : (ℕ × List ℕ) × Ring). t.1.used) e'),
      ap (λ (t : (ℕ × List ℕ) × Ring). t.0.0 ∷ heads_of t.1.chains) e',
      sym (ap (λ (t : (ℕ × List ℕ) × Ring). t.1.notified) e'),
    )

idle : (chains : List (ℕ × List ℕ)) → heads_of chains ≡ [] → is_waiting chains ≡ false
idle [] e = refl
idle ((head, bytes) ∷ chains) e = cc

added :
    (x y : Ring) (head len : ℕ)
    → some (record x { used = x.used ++ (head, len) ∷ [] }) ≡ some y
    → (y.used ≡ x.used ++ (head, len) ∷ [])
      × (heads_of y.chains ≡ heads_of x.chains)
      × (y.notified ≡ x.notified)
added x y head len e =
    let e' = some-injective _ y e in
    (
      sym (ap Ring.used e'),
      sym (ap (λ (r : Ring). heads_of r.chains) e'),
      sym (ap Ring.notified e'),
    )

signalled :
    (x y : Ring)
    → some (record x { notified = x.notified + 1 }) ≡ some y
    → (y.used ≡ x.used) × (heads_of y.chains ≡ heads_of x.chains) × (y.notified ≡ x.notified + 1)
signalled x y e =
    let e' = some-injective _ y e in
    (
      sym (ap Ring.used e'),
      sym (ap (λ (r : Ring). heads_of r.chains) e'),
      sym (ap Ring.notified e'),
    )

enabled :
    (x y : Ring) (more : Bool)
    → ◌≡◌ {A = Option (Ring × Bool)} (some (x, is_waiting x.chains)) (some (y, more))
    → (y.used ≡ x.used)
      × (heads_of y.chains ≡ heads_of x.chains)
      × (y.notified ≡ x.notified)
      × (heads_of x.chains ≡ [] → more ≡ false)
enabled x y more e =
    let e' = some-injective (x, is_waiting x.chains) (y, more) e in
    let (a, b, c) = same x y (ap (λ (t : Ring × Bool). t.0) e') in
    (a, b, c, λ empty. sym (ap (λ (t : Ring × Bool). t.1) e') ∙ idle x.chains empty)

unfoldable pub ring_queue-QueueLaws : QueueLaws ring_queue
unfolding added signalled enabled idle same pop_none pop_some
ring_queue-QueueLaws = record {
  used = λ r. r.used;
  waiting = λ r. heads_of r.chains;
  notified = λ r. r.notified;
  add_used_some = λ x y head len e. added x y head len e;
  signal_some = λ x y e. signalled x y e;
  pop_some = λ x y c e. pop_some x y c x.chains e;
  pop_none = λ x e. pop_none x x.chains e;
  disable_some = λ x y e. same x y (some-injective x y e);
  enable_some = λ x y more e. enabled x y more e;
}
