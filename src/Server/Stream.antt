-- ===== src/Server/Stream.antt =====
-- The event stream of crates/daemon/src/ipc.rs, and a client that reads it.
use mathlib.Core.List.{append_assoc, append-nil}
use travelmode.Base.{ℕ, ◌≡◌, List, [], ◌∷◌, ◌++◌, arith, All}
use travelmode.Types.{Event}
use travelmode.Ipc.{Request, Response, event, Json}
use travelmode.Ipc.Frames.{Travels, frame, working, write_frame-Travels}
use travelmode.Server.{Received, broadcast, lagged, channel_closed, stream_events}

-- The events that a subscriber is to get: lagging loses events before `recv` returns, and nothing
-- follows the end of the channel.
unfoldable pub delivered : List Received → List Event
delivered [] = []
delivered (broadcast e ∷ rx) = e ∷ delivered rx
delivered (lagged n ∷ rx) = delivered rx
delivered (channel_closed ∷ rx) = []

module _ (jr : Json Response) where
  -- The frames of the events.
  unfoldable pub frames : (es : List Event) → All (λ e. Travels jr (event e)) es → List ℕ
  frames [] t = []
  frames (e ∷ es) (t, ts) = frame t.body ++ frames es ts

  pub stream_events-sent :
      (jq : Json Request) (rx : List Received) (sent : List ℕ)
      (t : All (λ e. Travels jr (event e)) (delivered rx))
      → (stream_events jq jr (working sent) rx).1 ≡ working (sent ++ frames (delivered rx) t)
  unfolding stream_events delivered frames
  stream_events-sent jq [] sent t = ground (arith, append-nil sent)
  stream_events-sent jq (broadcast e ∷ rx) sent (t, ts) = ground (
    arith,
    write_frame-Travels jr (event e) sent t,
    stream_events-sent jq rx (sent ++ frame t.body) ts,
    append_assoc sent (frame t.body) (frames (delivered rx) ts),
  )
  stream_events-sent jq (lagged n ∷ rx) sent t = stream_events-sent jq rx sent t
  stream_events-sent jq (channel_closed ∷ rx) sent t = ground (arith, append-nil sent)
