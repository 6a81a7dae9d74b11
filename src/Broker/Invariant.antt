-- ===== src/Broker/Invariant.antt =====
-- What holds of a client between two steps.
use archer.Prelude.{
  ◌≤◌, ◌≡◌, inl, inr, refl, sym, subst, ap, true, false, some, List, [], ◌∷◌, ◌++◌, codes, ltb,
  ltb→lt, if◌then◌else◌, text_eq, length, length-append, All, All-append, arith, Bool-cases,
}
use archer.Broker.{
  Event, resync_required, buffer_size, Client, offer, drain_channel, deliver, clear_overflow,
  receive, received, Label, published, Step, on_publish, on_receive, on_clear, Run, begin, after,
}

-- an event that is not the broker's own canary
abbrev pub IsOrdinary : Event → Type 0
IsOrdinary e = text_eq e.type (codes "resync_required") ≡ false

abbrev pub IsFresh : Client → Type 0
IsFresh c = (c.buffer ≡ []) × (c.overflow ≡ false) × (c.clearing ≡ false)

-- The buffer is within its size. A client in overflow has nothing but the canary before it: either
-- the canary is all that is buffered, or it has been written and the flag is about to be cleared.
-- A client that is not in overflow has only ordinary events buffered.
pub data Inv (c : Client) : Type 0 where
  flowing :
      c.overflow ≡ false
      → c.clearing ≡ false
      → All IsOrdinary c.buffer
      → length c.buffer ≤ buffer_size
      → Inv c
  waiting : c.overflow ≡ true → c.clearing ≡ false → c.buffer ≡ resync_required ∷ [] → Inv c
  clearing : c.overflow ≡ true → c.clearing ≡ true → c.buffer ≡ [] → Inv c

drain_channel_nil : (buffer : List Event) → drain_channel buffer ≡ []
unfolding drain_channel
drain_channel_nil [] = refl
drain_channel_nil (e ∷ buffer) = drain_channel_nil buffer

-- What Publish does to a client: nothing in overflow; else the event is appended if there is room,
-- and if not the buffer becomes the canary alone.
pub deliver-eq :
    (e : Event) (c : Client)
    → deliver e c ≡ (
        if c.overflow
        then c
        else if ltb (length c.buffer) buffer_size
        then record c { buffer = c.buffer ++ (e ∷ []) }
        else record c { buffer = resync_required ∷ []; overflow = true })
unfolding deliver offer
deliver-eq e c = ground (arith, drain_channel_nil c.buffer)

-- A client in overflow is left alone.
pub deliver_overflow : (e : Event) (c : Client) → c.overflow ≡ true → deliver e c ≡ c
unfolding deliver
deliver_overflow e c p = ground arith

deliver-Inv : (e : Event) (c : Client) → IsOrdinary e → Inv c → Inv (deliver e c)
deliver-Inv e c o (flowing p q w l) = elim (Bool-cases (ltb (length c.buffer) buffer_size)) [
  | inl h ↦
      rw (deliver-eq, p, h)
        (flowing refl q (All-append IsOrdinary c.buffer (e ∷ []) w (o, tt))
          (omega (arith, length-append c.buffer (e ∷ []), ltb→lt _ _ h)))
  | inr h ↦ rw (deliver-eq, p, h) (waiting refl q refl)
]
deliver-Inv e c o (waiting p q r) = subst Inv (sym (deliver_overflow e c p)) (waiting p q r)
deliver-Inv e c o (clearing p q r) = subst Inv (sym (deliver_overflow e c p)) (clearing p q r)

-- The event that is received, and the client after it.
abbrev pub after_receive : Client → Event → List Event → Client
after_receive c e buffer = record c {
  buffer = buffer;
  clearing = text_eq e.type (codes "resync_required");
}

-- A client that receives an event has it at the head of its buffer and is not about to clear.
pub record Received (c : Client) (e : Event) (d : Client) : Type 0 where
  pub rest : List Event
  pub buffer_eq : c.buffer ≡ e ∷ rest
  pub not_clearing : c.clearing ≡ false
  pub state_eq : d ≡ after_receive c e rest

pub receive-Received :
    (c : Client) (e : Event) (d : Client) → receive c ≡ some (e, d) → Received c e d
unfolding receive
receive-Received c e d h = taken c.buffer refl (ground arith) (ground arith)
  where
    taken :
        (b : List Event)
        → c.buffer ≡ b
        → c.clearing ≡ false
        → received c b ≡ some (e, d)
        → Received c e d
    taken [] p q k = cc
    taken (x ∷ b) p q k = record {
      rest = b;
      buffer_eq = ground arith;
      not_clearing = q;
      state_eq = ground arith;
    }

receive-Inv : (c : Client) (e : Event) (d : Client) → Inv c → receive c ≡ some (e, d) → Inv d
receive-Inv c e d i h = kept i (receive-Received c e d h)
  where
    kept : Inv c → Received c e d → Inv d
    kept (flowing p q w l) r =
        let full : All IsOrdinary (e ∷ r.rest) = rw r.buffer_eq at w in
        subst Inv (sym r.state_eq)
          (flowing p full.0 full.1 (omega (arith, ap (length {A = Event}) r.buffer_eq)))
    kept (waiting p q b) r =
        let head : e ≡ resync_required = ground (arith, r.buffer_eq) in
        let tail : r.rest ≡ [] = ground (arith, r.buffer_eq) in
        subst Inv (sym r.state_eq) (clearing p (rw head) tail)
    kept (clearing p q b) r = cc (r.not_clearing)

cleared_Inv : {c : Client} → c.clearing ≡ true → Inv c → Inv (clear_overflow c)
unfolding clear_overflow
cleared_Inv q (flowing p n w l) = cc
cleared_Inv q (waiting p n b) = cc
cleared_Inv q (clearing p n b) = flowing refl refl (rw b tt) (rw b (omega arith))

-- The labels of a run publish ordinary events only.
abbrev pub Ordinary : Label → Type 0
Ordinary (published e) = IsOrdinary e
Ordinary _ = Unit

Step-Inv : {c d : Client} {l : Label} → Step c l d → Ordinary l → Inv c → Inv d
Step-Inv {c} (on_publish e p) o i = subst Inv (sym p) (deliver-Inv e c o i)
Step-Inv {c} {d} (on_receive e p) o i = receive-Inv c e d i p
Step-Inv (on_clear q p) o i = subst Inv (sym p) (cleared_Inv q i)

-- After any run from a fresh client in which only ordinary events are published: either the
-- client is not in overflow and has at most 32 events buffered, all ordinary; or it is, and the
-- canary alone is buffered; or it is, the canary has just been written, and nothing is buffered.
pub Run-Inv :
    {start c : Client} {ls : List Label} → IsFresh start → Run start ls c → All Ordinary ls → Inv c
Run-Inv f begin o = flowing f.1 f.2 (rw f.0 tt) (rw f.0 (omega arith))
Run-Inv f (after r s) o = Step-Inv s o.0 (Run-Inv f r o.1)
