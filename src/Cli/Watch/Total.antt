-- ===== src/Cli/Watch/Total.antt =====
-- `watch` of crates/cli/src/main.rs ends with every stream, and prints what the daemon streams.

use travelmode.Base.{
  ℕ, zero, suc, ◌≡◌, ◌≢◌, ◌<◌, List, [], ◌∷◌, none, some, arith, length, All, inl, inr,
  length-append,
}
use travelmode.Types.{Event}
use travelmode.Ipc.{Request, Response, event, IoError, Json, Reader}
use travelmode.Ipc.Frames.{
  Travels, frame, working, read_frame-Travels, read_frame-left_over, read_frame-nil, read_cases,
}
use travelmode.Server.{Received, stream_events}
use travelmode.Server.Stream.{delivered, frames, stream_events-sent}
use travelmode.Cli.Watch.{watch, watch_loop}

watch_loop_total :
    (jr : Json Response) (fuel : ℕ) (r : Reader)
    → length r.bytes < fuel
    → watch_loop jr fuel r ≢ none
unfolding watch_loop
watch_loop_total jr zero r h e = absurd (omega arith)
watch_loop_total jr (suc fuel) r h e = elim (read_cases jr r) [
  | inl (x, f) ↦ absurd (ground arith)
  | inr (v, rest, f) ↦
      watch_loop_total jr fuel rest (omega (arith, read_frame-left_over jr r v rest f))
        (ground arith)
]

-- `watch` ends on every stream that ends, whatever bytes it carries.
pub watch_total : (jr : Json Response) (r : Reader) → watch jr r ≢ none
unfolding watch
watch_total jr r = watch_loop_total jr (suc (length r.bytes)) r (omega arith)

watch_loop-frames :
    (jr : Json Response) (es : List Event) (t : All (λ e. Travels jr (event e)) es) (end : IoError)
    (fuel : ℕ)
    → length (frames jr es t) < fuel
    → watch_loop jr fuel (record { bytes = frames jr es t; end = end }) ≡ some es
unfolding watch_loop frames
watch_loop-frames jr [] t end zero h = absurd (omega arith)
watch_loop-frames jr [] t end (suc fuel) h = ground (arith, read_frame-nil jr end)
watch_loop-frames jr (e ∷ es) (t, ts) end zero h = absurd (omega arith)
watch_loop-frames jr (e ∷ es) (t, ts) end (suc fuel) h = ground (
  arith,
  read_frame-Travels jr (event e) (frames jr es ts) end t,
  length-append (frame t.body) (frames jr es ts),
  watch_loop-frames jr es ts end fuel,
)

-- The stream ends: what `watch` prints is every event that reached the subscriber's connection, in
-- order, those lost to lagging left out.
pub watch-stream_events :
    (jq : Json Request) (jr : Json Response) (rx : List Received) (end : IoError)
    → All (λ e. Travels jr (event e)) (delivered rx)
    → watch jr (record { bytes = (stream_events jq jr (working []) rx).1.sent; end = end })
      ≡ some (delivered rx)
unfolding watch
watch-stream_events jq jr rx end t =
    let bytes : List ℕ = frames jr (delivered rx) t in
    ground (
      arith,
      stream_events-sent jr jq rx [] t,
      watch_loop-frames jr (delivered rx) t end (suc (length bytes)),
    )
