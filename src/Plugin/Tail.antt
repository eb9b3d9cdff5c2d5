-- ===== src/Plugin/Tail.antt =====
-- Tail of plugin/server.go and tail of plugin/adapter.go: the rows of a console panel from the module's
-- goroutine over a channel and a stream to the host, as the steps of the three. A step of the module's
-- own Tail is any row or any end. gRPC delivers in order what was sent, and then how the handler ended;
-- it may also break, with any error. A row that was received and not passed on counts as one on the
-- stream. The checks that come before the loops, and what userError makes of an error, are left out.
pub mod Delivered
mod Examples
use doze_sdk.Engine.Services.{Row}
use doze_sdk.Prelude.{
  Bool, List, Option, Text, [], ◌∷◌, ◌++◌, ◌≡◌, ◌<◌, ℕ, false, if◌then◌else◌, length, none, some,
  true,
}

-- The loop of Tail: it sends; or it drains the channel after a failed Send; or it has returned.
pub data Handler : Type 0 where
  sending : Handler
  draining : Text → Handler
  handler_done : Option Text → Handler

-- The loop of tail
pub data Taker : Type 0 where
  receiving : Taker
  tail_done : Option Text → Taker

-- The rows that the module made, that wait in the channel, that are on the stream, that the host has,
-- and that the handler read and did not send; how the module's Tail ended, if it did; the two loops;
-- and whether the host's context is done.
pub record Tailing : Type 0 where
  pub made : List Row
  pub channel : List Row
  pub stream : List Row
  pub seen : List Row
  pub dropped : List Row
  pub ended : Option (Option Text)
  pub handler : Handler
  pub taker : Taker
  pub cancelled : Bool

abbrev pub tail_start : Tailing
tail_start = record {
  made = [];
  channel = [];
  stream = [];
  seen = [];
  dropped = [];
  ended = none;
  handler = sending;
  taker = receiving;
  cancelled = false;
}

-- make(chan engine.Row, 64)
abbrev pub capacity : ℕ
capacity = 64

pub data TailStep (s t : Tailing) : Type 0 where
  makes :
      (r : Row)
      → s.ended ≡ none
      → length s.channel < capacity
      → t ≡ record s { made = s.made ++ r ∷ []; channel = s.channel ++ r ∷ [] }
      → TailStep s t
  ends : (e : Option Text) → s.ended ≡ none → t ≡ record s { ended = some e } → TailStep s t
  sends :
      (r : Row) (rest : List Row)
      → s.handler ≡ sending
      → s.channel ≡ r ∷ rest
      → t ≡ record s { channel = rest; stream = s.stream ++ r ∷ [] }
      → TailStep s t
  send_fails :
      (r : Row) (rest : List Row) (e : Text)
      → s.handler ≡ sending
      → s.channel ≡ r ∷ rest
      → t ≡ record s { channel = rest; dropped = s.dropped ++ r ∷ []; handler = draining e }
      → TailStep s t
  drains :
      (r : Row) (rest : List Row) (e : Text)
      → s.handler ≡ draining e
      → s.channel ≡ r ∷ rest
      → t ≡ record s { channel = rest; dropped = s.dropped ++ r ∷ [] }
      → TailStep s t
  returns :
      (e : Option Text)
      → s.handler ≡ sending
      → s.channel ≡ []
      → s.ended ≡ some e
      → t ≡ record s { handler = handler_done e }
      → TailStep s t
  returns_drained :
      (e : Text) (m : Option Text)
      → s.handler ≡ draining e
      → s.channel ≡ []
      → s.ended ≡ some m
      → t ≡ record s { handler = handler_done (some e) }
      → TailStep s t
  takes :
      (r : Row) (rest : List Row)
      → s.taker ≡ receiving
      → s.stream ≡ r ∷ rest
      → t ≡ record s { stream = rest; seen = s.seen ++ r ∷ [] }
      → TailStep s t
  cancels : t ≡ record s { cancelled = true } → TailStep s t
  gives_up :
      s.taker ≡ receiving
      → s.cancelled ≡ true
      → t ≡ record s { taker = tail_done none }
      → TailStep s t
  hears_end :
      (e : Option Text)
      → s.taker ≡ receiving
      → s.stream ≡ []
      → s.handler ≡ handler_done e
      → t ≡ record s { taker = tail_done (if s.cancelled then none else e) }
      → TailStep s t
  breaks :
      (e : Text)
      → s.taker ≡ receiving
      → s.cancelled ≡ false
      → t ≡ record s { taker = tail_done (some e) }
      → TailStep s t

-- Any number of steps
pub data TailSteps (s : Tailing) : Tailing → Type 0 where
  at_rest : TailSteps s s
  and_then : {u t : Tailing} → TailSteps s u → TailStep u t → TailSteps s t
