-- ===== src/Tests/Model.antt =====
-- A small host: queues as flags and indices, epoll instances as functions from descriptors.
use virtio_device_poc.Base.{
  ℕ, ◌+◌, ◌≡◌, ◌≢◌, refl, ap, Bool, false, Option, none, some, List, [], ◌∷◌, ◌++◌, Result, ok, err,
  ◌==◌, if◌then◌else◌, eq→==, ne→==, replicate,
}
use virtio_device_poc.VhostUser.Host.{Host, QueueLaws, EpollLaws, got, would_block}

pub record ToyQueue : Type 0 where
  pub is_ready : Bool
  pub size : ℕ
  pub event_idx : Bool
  pub avail : ℕ
  pub used : ℕ

abbrev pub new_toy_queue : ℕ → ToyQueue
new_toy_queue n = record { is_ready = false; size = n; event_idx = false; avail = 0; used = 0 }

abbrev pub Watches : Type 0
Watches = ℕ → Option ℕ

abbrev pub watch : Watches → ℕ → Option ℕ → Watches
watch e fd token = λ x. if x == fd then token else e x

abbrev pub toy_add : Option ℕ → Watches → ℕ → ℕ → Result Watches ℕ
toy_add none e fd token = ok (watch e fd (some token))
toy_add (some t) e fd token = err 17

abbrev pub toy_delete : Option ℕ → Watches → ℕ → Result Watches ℕ
toy_delete none e fd = err 2
toy_delete (some t) e fd = ok (watch e fd none)

abbrev pub toy_remove : List (ℕ × ℕ) → ℕ → List (ℕ × ℕ)
toy_remove [] start = []
toy_remove ((s, l) ∷ rest) start = if s == start then rest else (s, l) ∷ toy_remove rest start

abbrev pub toy : Host
toy = record {
  Queue = ToyQueue;
  new_queue = λ n. if n == 0 then err 22 else ok (new_toy_queue n);
  ready = λ q. q.is_ready;
  set_ready = λ (q : ToyQueue) b. record q { is_ready = b };
  set_size = λ (q : ToyQueue) n. record q { size = n };
  set_event_idx = λ (q : ToyQueue) b. record q { event_idx = b };
  try_set_desc_table_address = λ q a. ok q;
  try_set_avail_ring_address = λ q a. ok q;
  try_set_used_ring_address = λ q a. ok q;
  next_avail = λ q. q.avail;
  set_next_avail = λ (q : ToyQueue) n. record q { avail = n };
  set_next_used = λ (q : ToyQueue) n. record q { used = n };
  Mem = List (ℕ × ℕ);
  Region = ℕ × ℕ;
  mmap_region = λ file offset size. if file == 0 then err 9 else ok (0, size);
  new_region = λ r start. ok (start, r.1);
  from_regions = λ rs. ok rs;
  insert_region = λ m r. ok (m ++ r ∷ []);
  remove_region = λ m start size. ok (toy_remove m start);
  used_idx = λ q m. ok 5;
  regions = λ m. m;
  mmap = λ file offset len. ok (replicate len 0);
  event_idx_bit = 29;
  protocol_features_bit = 30;
  Epoll = Watches;
  watched = λ e fd. e fd;
  ctl_add = λ e fd token. toy_add (e fd) e fd token;
  ctl_delete = λ e fd. toy_delete (e fd) e fd;
  Events = ℕ → ℕ;
  event_write = λ counters fd. ok (λ x. if x == fd then counters x + 1 else counters x);
  event_read = λ counters fd. (
    (λ x. if x == fd then 0 else counters x),
    (if counters fd == 0 then would_block else got (counters fd)),
  );
}

pub toy_queues : QueueLaws toy
toy_queues = record {
  ready-set_ready = λ q b. refl;
  ready-set_event_idx = λ q b. refl;
  ready-set_size = λ q n. refl;
  ready-set_next_avail = λ q n. refl;
  next_avail-set_ready = λ q b. refl;
  next_avail-set_next_avail = λ q n. refl;
}

watch_self : (e : Watches) (fd : ℕ) (t : Option ℕ) → watch e fd t fd ≡ t
watch_self e fd t = rw (eq→== fd fd refl) refl

watch_other :
    (e : Watches) (fd : ℕ) (t : Option ℕ) (other : ℕ) → other ≢ fd → watch e fd t other ≡ e other
watch_other e fd t other ne = rw (ne→== other fd ne) refl

pub toy_epolls : EpollLaws toy
toy_epolls = record {
  add_new = λ e fd token free. (
    watch e fd (some token),
    ap (λ o. toy_add o e fd token) free,
    watch_self e fd (some token),
    watch_other e fd (some token),
  );
  delete_present = λ e fd token present. (
    watch e fd none,
    ap (λ o. toy_delete o e fd) present,
    watch_self e fd none,
    watch_other e fd none,
  );
}
