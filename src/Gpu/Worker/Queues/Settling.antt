-- ===== src/Gpu/Worker/Queues/Settling.antt =====
-- The loop over the chains of a queue: termination, and what becomes of the chains.
use virtio_device_poc.Base.{
  ℕ, zero, suc, ◌<◌, ◌≡◌, inl, inr, refl, sym, ap, ◌∙◌, Bool, true, false, ◌||◌, List, [], ◌∷◌,
  ◌++◌, map, length, arith, by_option, subst,
}
use mathlib.Core.List.{append_assoc, append-nil, map-append}
use virtio_device_poc.Gpu.Queue.{QueueApi, QueueLaws}
use virtio_device_poc.Gpu.Fences.Waiting.{Splits, end, left, right}
use virtio_device_poc.Gpu.Interface.{VirtioGpu, HoldLaws}
use virtio_device_poc.Gpu.Protocol.Commands.{CommandType}
use virtio_device_poc.Gpu.Protocol.Responses.{ResponseType, WriterApi}
use virtio_device_poc.Gpu.Worker.{WorkerApi}
use virtio_device_poc.Gpu.Worker.Queues.{ChainApi, process_chain, process_queue}
use virtio_device_poc.Gpu.Worker.Queues.Settled.{Ends, Ends-bind, Ends-imp}
use virtio_device_poc.Gpu.Worker.Queues.Chains.{
  SettlesOne, Returned, IsHeld, process_chain-SettlesOne,
}

abbrev pub is_cons : List ℕ → Bool
is_cons [] = false
is_cons (x ∷ xs) = true

abbrev pub heads : List (ℕ × ℕ) → List ℕ
heads = map (λ e. e.0)

or_true : (flag u x : Bool) → u ≡ true → ((flag || u) || x) ≡ (flag || true)
or_true true u x h = refl
or_true false u x h = ground arith

or_false : (flag u x : Bool) → u ≡ false → ((flag || u) || x) ≡ (flag || x)
or_false true u x h = refl
or_false false u x h = ground arith

module _ (a : WorkerApi) (v : VirtioGpu) (q : QueueApi) (w : WriterApi) (c : ChainApi q w)
    (commands : CommandType → ℕ) (responses : ResponseType → ℕ) (holds : HoldLaws v)
    (laws : QueueLaws q) where
  open holds use {held}
  open laws use {used, waiting, notified}

  -- The chains that waited are split, in order, into those that were returned and those that are
  -- held, and the flag tells whether one was returned.
  pub record Settles (gpu : v.Gpu) (queue : q.Queue) (flag : Bool) (chains : List ℕ)
      (r : v.Gpu × q.Queue × Bool) : Type 0 where
    pub returned : List ℕ
    pub kept : List ℕ
    pub splits : Splits returned kept chains
    pub returned_used : heads (used r.1) ≡ heads (used queue) ++ returned
    pub kept_held : held r.0 ≡ held gpu ++ kept
    pub none_waits : waiting r.1 ≡ []
    pub notified_same : notified r.1 ≡ notified queue
    pub signals : r.2 ≡ (flag || is_cons returned)

  gives_back :
      (gpu gpu' : v.Gpu) (queue popped queue' : q.Queue) (flag u : Bool) (head : ℕ)
      (chains : List ℕ) (r : v.Gpu × q.Queue × Bool)
      → used popped ≡ used queue
      → notified popped ≡ notified queue
      → Returned a v q w c commands responses holds laws gpu popped head (gpu', queue', u)
      → Settles gpu' queue' (flag || u) chains r
      → Settles gpu queue flag (head ∷ chains) r
  gives_back gpu gpu' queue popped queue' flag u head chains r same same' (e, h, len, us, wa, quiet)
        s =
      record {
        returned = head ∷ s.returned;
        kept = s.kept;
        splits = left s.splits;
        returned_used =
            s.returned_used
            ∙ ap (λ l. heads l ++ s.returned) (us ∙ ap (λ l. l ++ (head, len) ∷ []) same)
            ∙ ap (λ l. l ++ s.returned) (map-append (λ e. e.0) (used queue) ((head, len) ∷ []))
            ∙ append_assoc (heads (used queue)) (head ∷ []) s.returned;
        kept_held = s.kept_held ∙ ap (λ l. l ++ s.kept) h;
        none_waits = s.none_waits;
        notified_same = s.notified_same ∙ quiet ∙ same';
        signals = s.signals ∙ or_true flag u (is_cons s.returned) e;
      }

  Settles-held :
      (gpu gpu' : v.Gpu) (queue popped queue' : q.Queue) (flag u : Bool) (head : ℕ)
      (chains : List ℕ) (r : v.Gpu × q.Queue × Bool)
      → used popped ≡ used queue
      → notified popped ≡ notified queue
      → IsHeld a v q w c commands responses holds laws gpu popped head (gpu', queue', u)
      → Settles gpu' queue' (flag || u) chains r
      → Settles gpu queue flag (head ∷ chains) r
  Settles-held gpu gpu' queue popped queue' flag u head chains r same same' (e, h, qe) s = record {
    returned = s.returned;
    kept = head ∷ s.kept;
    splits = right s.splits;
    returned_used = s.returned_used ∙ ap (λ l. heads l ++ s.returned) (ap used qe ∙ same);
    kept_held = s.kept_held ∙ ap (λ l. l ++ s.kept) h ∙ append_assoc (held gpu) (head ∷ []) s.kept;
    none_waits = s.none_waits;
    notified_same = s.notified_same ∙ ap notified qe ∙ same';
    signals = s.signals ∙ or_false flag u (is_cons s.returned) e;
  }

  SettlesOne-waiting :
      (gpu gpu' : v.Gpu) (popped queue' : q.Queue) (u : Bool) (head : ℕ)
      → SettlesOne a v q w c commands responses holds laws gpu popped head (gpu', queue', u)
      → waiting queue' ≡ waiting popped
  unfolding SettlesOne
  SettlesOne-waiting gpu gpu' popped queue' u head (inl (e, h, len, us, wa, quiet)) = wa
  SettlesOne-waiting gpu gpu' popped queue' u head (inr (e, h, qe)) = ap waiting qe

  Settles-cons :
      (gpu gpu' : v.Gpu) (queue popped queue' : q.Queue) (flag u : Bool) (head : ℕ)
      (chains : List ℕ) (r : v.Gpu × q.Queue × Bool)
      → used popped ≡ used queue
      → notified popped ≡ notified queue
      → SettlesOne a v q w c commands responses holds laws gpu popped head (gpu', queue', u)
      → Settles gpu' queue' (flag || u) chains r
      → Settles gpu queue flag (head ∷ chains) r
  unfolding SettlesOne
  Settles-cons gpu gpu' queue popped queue' flag u head chains r same same' (inl one) s =
      gives_back gpu gpu' queue popped queue' flag u head chains r same same' one s
  Settles-cons gpu gpu' queue popped queue' flag u head chains r same same' (inr one) s =
      Settles-held gpu gpu' queue popped queue' flag u head chains r same same' one s

  -- The loop ends with as much fuel as chains wait, and one more: it panics or fails, or each chain
  -- that waited was, in order, either returned to the used ring or held by a fence, no chain waits
  -- any longer, the guest was not notified yet, and the answer tells whether one was returned.
  pub process_queue-Settles :
      (fuel : ℕ) (gpu : v.Gpu) (queue : q.Queue) (flag : Bool)
      → length (waiting queue) < fuel
      → Ends
          (Settles gpu queue flag (waiting queue))
          (process_queue a v q w c commands responses fuel gpu queue flag)
  unfolding process_queue
  process_queue-Settles zero gpu queue flag few = absurd (omega arith)
  process_queue-Settles (suc fuel) gpu queue flag few =
      by_option (Ends (Settles gpu queue flag (waiting queue))) (q.pop_descriptor_chain queue) _ _
        (λ empty.
          let none_left = laws.pop_none queue empty in
          record {
            returned = [];
            kept = [];
            splits = subst (Splits [] []) (sym none_left) end;
            returned_used = sym (append-nil (heads (used queue)));
            kept_held = sym (append-nil (held gpu));
            none_waits = none_left;
            notified_same = refl;
            signals = ground arith;
          })
        (λ (chain, popped) e.
          let (same, left_over, same') = laws.pop_some queue popped chain e in
          let head = q.head_index chain in
          Ends-bind (SettlesOne a v q w c commands responses holds laws gpu popped head)
            (Settles gpu queue flag (waiting queue))
            (process_chain a v q w c commands responses gpu popped chain) _
            (process_chain-SettlesOne a v q w c commands responses holds laws gpu popped chain)
            (λ (gpu', queue', u) one.
              let waits = SettlesOne-waiting gpu gpu' popped queue' u head one in
              let fewer : length (waiting queue') < fuel =
                let l = ap length waits in let l' = ap length left_over in omega arith in
              Ends-imp
                (λ r s.
                  subst (λ chains. Settles gpu queue flag chains r)
                    (ap (λ l. head ∷ l) waits ∙ sym left_over)
                    (Settles-cons gpu gpu' queue popped queue' flag u head (waiting queue') r same
                      same' one s))
                (process_queue a v q w c commands responses fuel gpu' queue' (flag || u))
                (process_queue-Settles fuel gpu' queue' (flag || u) fewer)))
