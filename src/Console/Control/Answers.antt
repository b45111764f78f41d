-- ===== src/Console/Control/Answers.antt =====
-- The loop over the guest's commands. (device/virtio-console/src/console_control.rs)
use virtio_device_poc.Base.{
  ℕ, zero, suc, ◌+◌, ◌<◌, ◌≡◌, refl, sym, ap, ◌∙◌, subst, true, Option, none, some, List, ◌∷◌, ◌++◌,
  arith, Result, ok, err, replicate, by_option,
}
use mathlib.Core.Option.{some-injective}
use mathlib.Core.List.{append-nil, append_assoc}
use virtio_device_poc.Console.Port.{Port}
use virtio_device_poc.Console.Message.{read_control}
use virtio_device_poc.Console.Control.{
  ControlQueue, ControlQueueLaws, TxState, return_command, tx_loop, handle_command,
}
use virtio_device_poc.Console.Control.Commands.{
  IsLonger, same_IsLonger, then_IsLonger, handle_command-IsLonger,
}

abbrev pub zeros : ℕ → List (ℕ × ℕ)
zeros k = replicate k (0, 8)

module _ (q : ControlQueue) (laws : ControlQueueLaws q) where
  -- A normal end: nothing is pending, and each used entry that was added has the head index 0.
  pub record IsAnswered (s t : TxState q) : Type 0 where
    pub commands : ℕ
    pub all_zero : laws.used t.queue ≡ laws.used s.queue ++ zeros commands
    pub all_done : laws.pending t.queue ≡ 0
    pub longer : IsLonger s.control t.control

  -- The loop ends, normally or in a panic.
  abbrev pub Ends : TxState q → Option (Option (TxState q)) → Type 0
  Ends s r =
      (o : Option (TxState q)) × (r ≡ some o) × ((t : TxState q) → o ≡ some t → IsAnswered s t)

  returned :
      (x : q.Queue)
      → (k : ℕ) × (laws.used (return_command q x) ≡ laws.used x ++ zeros k)
        × (laws.pending (return_command q x) ≡ laws.pending x)
  unfolding return_command
  returned x = added (q.add_used x 0 8) refl
    where
      added :
          (r : Result q.Queue ℕ)
          → q.add_used x 0 8 ≡ r
          → let y : q.Queue = elim r [ ok used ↦ used | err e ↦ x ] in
            (k : ℕ) × (laws.used y ≡ laws.used x ++ zeros k) × (laws.pending y ≡ laws.pending x)
      added (ok y) e = let (same, more) = laws.add_one x y 0 8 e in (1, more, same)
      added (err e) p = (0, sym (append-nil (laws.used x)), refl)

  zeros-append : (i j : ℕ) → zeros i ++ zeros j ≡ zeros (i + j)
  zeros-append zero j = ap zeros (let e : j ≡ 0 + j = omega arith in e)
  zeros-append (suc i) j =
      ap (λ l. (0, 8) ∷ l) (zeros-append i j)
      ∙ ap zeros (let e : suc (i + j) ≡ suc i + j = omega arith in e)

  go_on :
      (s t : TxState q) (k : ℕ) (r : Option (Option (TxState q)))
      → laws.used t.queue ≡ laws.used s.queue ++ zeros k
      → IsLonger s.control t.control
      → Ends t r
      → Ends s r
  go_on s t k r u l (o, e, f) = (
    o,
    e,
    λ z p.
        let a = f z p in
        record {
          commands = k + a.commands;
          all_zero =
              a.all_zero
              ∙ ap (λ x. x ++ zeros a.commands) u
              ∙ append_assoc (laws.used s.queue) (zeros k) (zeros a.commands)
              ∙ ap (λ x. laws.used s.queue ++ x) (zeros-append k a.commands);
          all_done = a.all_done;
          longer = then_IsLonger s.control t.control z.control l a.longer;
        },
  )

  tx_step :
      (fuel : ℕ) (ports : List Port) (mem : q.Mem) (s : TxState q) (o : Option (q.Chain × q.Queue))
      → ((t : TxState q) → laws.pending t.queue < fuel → Ends t (tx_loop q fuel ports mem t))
      → laws.pending s.queue < suc fuel
      → q.pop_descriptor_chain s.queue ≡ o
      → Ends s (tx_loop q (suc fuel) ports mem s)
  unfolding tx_loop
  tx_step fuel ports mem s none ih enough e = (
    some s,
    rw (e, tx_loop) refl,
    λ t p. subst (IsAnswered s) (some-injective s t p) (record {
      commands = 0;
      all_zero = sym (append-nil (laws.used s.queue));
      all_done = laws.pop_none s.queue e;
      longer = same_IsLonger s.control;
    }),
  )
  tx_step fuel ports mem s (some (head, x)) ih enough e =
      let popped = laws.pop_some s.queue x head e in
      rw (e, tx_loop)
        (by_option (Ends s) (read_control (q.read mem head)) _ _
          (λ short.
            let t : TxState q = record s { queue = x; raise_irq = true } in
            go_on s t 0 _ (popped.1 ∙ sym (append-nil (laws.used s.queue)))
              (same_IsLonger s.control) (ih t (omega arith)))
          (λ cmd whole.
            by_option (Ends s) (handle_command ports s.control cmd) _ _
              (λ panics. (none, refl, λ t p. cc))
              (λ control handled.
                let (k, more, same) = returned x in
                let t : TxState q = record {
                  queue = return_command q x;
                  control = control;
                  raise_irq = true;
                } in
                go_on s t k _ (more ∙ ap (λ u. u ++ zeros k) popped.1)
                  (handle_command-IsLonger ports s.control control cmd handled)
                  (ih t (omega arith)))))

  -- With more fuel than pending commands the loop over the guest's commands ends. Unless it panics,
  -- no command is left, the control queue has only more messages, and each command that was
  -- returned to the guest was returned under the head index 0, whichever chain held it.
  pub tx_loop-Ends :
      (fuel : ℕ) (ports : List Port) (mem : q.Mem) (s : TxState q)
      → laws.pending s.queue < fuel
      → Ends s (tx_loop q fuel ports mem s)
  tx_loop-Ends zero ports mem s enough = absurd (omega arith)
  tx_loop-Ends (suc fuel) ports mem s enough =
      tx_step fuel ports mem s (q.pop_descriptor_chain s.queue) (tx_loop-Ends fuel ports mem) enough
        refl
