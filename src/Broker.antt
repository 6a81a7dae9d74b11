-- ===== src/Broker.antt =====
-- The event broker of internal/server/sse_broker.go.
-- A client is its channel: the buffered events, its entry in the map `overflow`, and where its
-- ServeHTTP loop stands. The mutex makes Subscribe, Unsubscribe, Publish and clearOverflow steps
-- that do not overlap; a read of the channel by ServeHTTP is a step of its own.
pub mod Invariant
pub mod Delivery
use archer.Prelude.{
  ℕ, ◌+◌, Bool, true, false, Option, none, some, List, [], ◌∷◌, ◌++◌, map, Text, codes, ltb, ◌==◌,
  if◌then◌else◌, text_eq, length, ◌≡◌, split,
}

-- SSEEvent
pub record Event : Type 0 where
  pub type : Text
  pub payload : Text

-- resyncRequiredEvent
abbrev pub resync_required : Event
resync_required = record { type = codes "resync_required"; payload = codes "{}" }

-- the buffer of `make(chan SSEEvent, 32)`
abbrev pub buffer_size : ℕ
buffer_size = 32

pub record Client : Type 0 where
  pub id : ℕ
  pub buffer : List Event
  pub overflow : Bool
  -- ServeHTTP has written a resync_required and has not yet called clearOverflow
  pub clearing : Bool

-- a non-blocking send; `none` if the buffer is full
unfoldable pub offer : Event → List Event → Option (List Event)
offer evt buffer = if ltb (length buffer) buffer_size then some (buffer ++ (evt ∷ [])) else none

-- drainChannel
unfoldable pub drain_channel : List Event → List Event
drain_channel [] = []
drain_channel (e ∷ buffer) = drain_channel buffer

abbrev pub overflowed : Client → Option (List Event) → Client
overflowed c (some buffer) = record c { buffer = buffer; overflow = true }
overflowed c none = record c { overflow = true }

abbrev pub delivered : Client → Option (List Event) → Client
delivered c (some buffer) = record c { buffer = buffer }
delivered c none = overflowed c (offer resync_required (drain_channel c.buffer))

-- the body of Publish's loop
unfoldable pub deliver : Event → Client → Client
unfolding offer drain_channel
deliver evt c = if c.overflow then c else delivered c (offer evt c.buffer)

-- the map `clients`, with what belongs to each
abbrev pub Broker : Type 0
Broker = List Client

-- Subscribe, for a channel that is new
unfoldable pub subscribe : ℕ → Broker → Broker
subscribe i b = record { id = i; buffer = []; overflow = false; clearing = false } ∷ b

-- Unsubscribe
unfoldable pub unsubscribe : ℕ → Broker → Broker
unsubscribe i [] = []
unsubscribe i (c ∷ b) = let rest = unsubscribe i b in if c.id == i then rest else c ∷ rest

-- Publish
unfoldable pub publish : Event → Broker → Broker
publish evt b = map (deliver evt) b

-- clearOverflow, called by the client that is clearing
unfoldable pub clear_overflow : Client → Client
clear_overflow c = record c { overflow = false; clearing = false }

-- `case evt := <-ch` of ServeHTTP: the event that is written, and the client after it; `none` while
-- the buffer is empty or the loop is still about to clear
abbrev pub received : Client → List Event → Option (Event × Client)
received c [] = none
received c (e ∷ buffer) =
    some (e, record c { buffer = buffer; clearing = text_eq e.type (codes "resync_required") })

unfoldable pub receive : Client → Option (Event × Client)
receive c = if c.clearing then none else received c c.buffer

-- What ServeHTTP writes for an event: a line with its type, a line for each line of the payload,
-- and an empty line.
abbrev pub data_lines : List Text → Text
data_lines [] = []
data_lines (l ∷ ls) = codes "data: " ++ (l ++ (b'\n' ∷ data_lines ls))

unfoldable pub frame : Event → Text
frame e =
    codes "event: " ++ (e.type ++ (b'\n' ∷ data_lines (split b'\n' e.payload) ++ (b'\n' ∷ [])))

-- One step of the life of one client, whatever the others do. A label says what was published, or
-- what was written to the browser.
pub data Label : Type 0 where
  published written : Event → Label
  cleared : Label

pub data Step : Client → Label → Client → Type 0 where
  on_publish : {c d : Client} (e : Event) → d ≡ deliver e c → Step c (published e) d
  on_receive : {c d : Client} (e : Event) → receive c ≡ some (e, d) → Step c (written e) d
  on_clear : {c d : Client} → c.clearing ≡ true → d ≡ clear_overflow c → Step c cleared d

-- A run of a client from its subscription, with its labels, the latest first.
pub data Run (start : Client) : List Label → Client → Type 0 where
  begin : Run start [] start
  after :
      {ls : List Label} {c d : Client} {l : Label}
      → Run start ls c
      → Step c l d
      → Run start (l ∷ ls) d
