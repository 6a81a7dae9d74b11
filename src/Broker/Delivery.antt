-- ===== src/Broker/Delivery.antt =====
-- What a client of the broker is told of what is published.
use mathlib.Core.List.{append_assoc}
use archer.Prelude.{
  ◌≡◌, ◌⊎◌, inl, inr, refl, sym, ◌∙◌, ap, true, false, some, List, [], ◌∷◌, ◌++◌, ltb, length, All,
  Bool-cases, false≢true,
}
use archer.Broker.{
  Event, resync_required, buffer_size, Client, deliver, clear_overflow, receive, Label, published,
  written, cleared, on_publish, on_receive, on_clear, Run, begin, after,
}
use archer.Broker.Invariant.{
  IsFresh, Inv, flowing, waiting, clearing, deliver-eq, deliver_overflow, after_receive,
  receive-Received, Ordinary, Run-Inv,
}

-- What was published, and what was written, since the flag was last cleared; the earliest first.
unfoldable pub epoch_published : List Label → List Event
epoch_published [] = []
epoch_published (published e ∷ ls) = epoch_published ls ++ (e ∷ [])
epoch_published (written e ∷ ls) = epoch_published ls
epoch_published (cleared ∷ ls) = []

unfoldable pub epoch_written : List Label → List Event
epoch_written [] = []
epoch_written (published e ∷ ls) = epoch_written ls
epoch_written (written e ∷ ls) = epoch_written ls ++ (e ∷ [])
epoch_written (cleared ∷ ls) = []

-- A full buffer puts a client that is not in overflow into it.
overflows :
    (e : Event) (c : Client)
    → c.overflow ≡ false
    → ltb (length c.buffer) buffer_size ≡ false
    → deliver e c ≡ record c { buffer = resync_required ∷ []; overflow = true }
overflows e c q k = rw (deliver-eq, q, k) refl

publish_eq :
    (e : Event) (c : Client) (ps ws : List Event)
    → (deliver e c).overflow ≡ false
    → (c.overflow ≡ false → ps ≡ ws ++ c.buffer)
    → ps ++ (e ∷ []) ≡ ws ++ (deliver e c).buffer
publish_eq e c ps ws p h = elim (Bool-cases c.overflow) [
  | inl t ↦ absurd (false≢true (sym p ∙ (ap (λ d. d.overflow) (deliver_overflow e c t) ∙ t)))
  | inr q ↦ elim (Bool-cases (ltb (length c.buffer) buffer_size)) [
    | inl k ↦ rw (deliver-eq, q, k, h q) (append_assoc ws c.buffer (e ∷ []))
    | inr k ↦ absurd (false≢true (sym p ∙ ap (λ d. d.overflow) (overflows e c q k)))
  ]
]

receive_eq :
    (e : Event) (c d : Client) (ps ws : List Event)
    → receive c ≡ some (e, d)
    → d.overflow ≡ false
    → (c.overflow ≡ false → ps ≡ ws ++ c.buffer)
    → ps ≡ (ws ++ (e ∷ [])) ++ d.buffer
receive_eq e c d ps ws q p h =
    let r = receive-Received c e d q in
    let same : c.overflow ≡ false = sym (ap (λ x. x.overflow) r.state_eq) ∙ p in
    h same
    ∙ ap (λ b. ws ++ b) r.buffer_eq
    ∙ sym (append_assoc ws (e ∷ []) r.rest)
    ∙ ap (λ b. (ws ++ (e ∷ [])) ++ b) (sym (ap (λ x. x.buffer) r.state_eq))

clear_eq : (c : Client) → Inv c → c.clearing ≡ true → c.buffer ≡ []
clear_eq c (flowing p n w l) q = cc
clear_eq c (waiting p n b) q = cc
clear_eq c (clearing p n b) q = b

-- A run of a client that is fresh at the start, in which only ordinary events are published: while
-- the client is not in overflow, what was published since the flag was last cleared is what was
-- written since then followed by what is in the buffer, in order.
pub Run-epoch_published :
    {start c : Client} {ls : List Label}
    → IsFresh start
    → Run start ls c
    → All Ordinary ls
    → c.overflow ≡ false
    → epoch_published ls ≡ epoch_written ls ++ c.buffer
unfolding epoch_published epoch_written clear_overflow
Run-epoch_published f begin o p = rw f.0 refl
Run-epoch_published f (after r (on_publish e q)) o p =
    rw q (publish_eq e _ _ _ (ap (λ c. c.overflow) (sym q) ∙ p) (Run-epoch_published f r o.1))
Run-epoch_published f (after r (on_receive e q)) o p =
    receive_eq e _ _ _ _ q p (Run-epoch_published f r o.1)
Run-epoch_published f (after r (on_clear q s)) o p = rw s (sym (clear_eq _ (Run-Inv f r o.1) q))

-- After a run from a fresh client in which only ordinary events are published, for a client in
-- overflow: at most two more steps of its own, which write nothing but the canary, make it fresh
-- again.
pub Run-recovers :
    {start c : Client} {ls : List Label}
    → IsFresh start
    → Run start ls c
    → All Ordinary ls
    → c.overflow ≡ true
    → (d : Client) × IsFresh d
      × (Run start (cleared ∷ ls) d ⊎ Run start (cleared ∷ written resync_required ∷ ls) d)
unfolding clear_overflow receive
Run-recovers {start} {c} {ls} f r o p = recovers (Run-Inv f r o)
  where
    recovers :
        Inv c
        → (d : Client) × IsFresh d
          × (Run start (cleared ∷ ls) d ⊎ Run start (cleared ∷ written resync_required ∷ ls) d)
    recovers (flowing q n w l) = cc
    recovers (waiting q n b) =
        let next = after_receive c resync_required [] in
        let canary : receive c ≡ some (resync_required, next) = rw n (rw b refl) in
        (
          clear_overflow next,
          (refl, refl, refl),
          inr (after (after r (on_receive resync_required canary)) (on_clear {c = next} refl refl)),
        )
    recovers (clearing q n b) = (clear_overflow c, (b, refl, refl), inl (after r (on_clear n refl)))

-- After a run from a fresh client in which only ordinary events are published, for a client that
-- has written its canary and not yet called clearOverflow: an event that is published then
-- leaves no trace, since after the call the client is the same as without it, and fresh.
pub clear_overflow-deliver :
    {start c : Client} {ls : List Label} (e : Event)
    → IsFresh start
    → Run start ls c
    → All Ordinary ls
    → c.clearing ≡ true
    → (clear_overflow (deliver e c) ≡ clear_overflow c) × IsFresh (clear_overflow (deliver e c))
unfolding clear_overflow
clear_overflow-deliver {c = c} e f r o q = lost (Run-Inv f r o)
  where
    lost :
        Inv c
        → (clear_overflow (deliver e c) ≡ clear_overflow c) × IsFresh (clear_overflow (deliver e c))
    lost (flowing p n w l) = cc
    lost (waiting p n b) = cc
    lost (clearing p n b) = rw (deliver_overflow e c p) (refl, (b, refl, refl))
