-- ===== src/Server/Exchange.antt =====
-- One request between a client and the socket server of crates/daemon/src/ipc.rs.
use mathlib.Core.List.{append-nil}
use travelmode.Base.{ℕ, ◌≡◌, refl, false, List, [], Option, none, some, arith}
use travelmode.State.{DaemonState}
use travelmode.Ipc.{Request, Response, closed, unexpected_eof, success, Json, write_frame}
use travelmode.Ipc.Frames.{Travels, frame, working, write_frame-Travels, read_frame-Travels}
use travelmode.Ipc.Link.{Link, open_socket, exchange}
use travelmode.Daemon.{Effects}
use travelmode.Server.{Dispatcher, Received, Served, is_subscribe, handle_client}

-- What a client gets from a connection that is served: the bytes, and then the end of the stream.
abbrev pub bytes_of : Option Served → List ℕ
bytes_of none = []
bytes_of (some served) = served.sent.sent

module _ (jq : Json Request) (jr : Json Response) (dispatch : Dispatcher) (s : DaemonState) where
  -- The connection to a daemon in a state, for a client that sends and then waits.
  abbrev pub connected : List Received → Link
  connected rx = open_socket none (λ sent. record {
    bytes = bytes_of (
        handle_client jq jr dispatch s (record { bytes = sent; end = unexpected_eof }) (working [])
          rx);
    end = unexpected_eof;
  })

  handle_client-Travels :
      (request : Request) (response : Response) (s' : DaemonState) (fx : Effects)
      (rx : List Received) (q : Travels jq request) (r : Travels jr response)
      → is_subscribe request ≡ false
      → dispatch s request ≡ some (response, s', fx)
      → handle_client jq jr dispatch s
          (record { bytes = frame q.body; end = unexpected_eof })
          (working [])
          rx
        ≡ some (record {
          reason = some closed;
          sent = working (frame r.body);
          state = s';
          effects = fx;
        })
  unfolding handle_client
  handle_client-Travels request response s' fx rx q r sub d = ground (
    arith,
    append-nil (frame q.body),
    read_frame-Travels jq request [] unexpected_eof q,
    write_frame-Travels jr response [] r,
  )

  -- A client that sends a request, other than a subscription, over a working connection reads the
  -- response that the dispatcher gives; the daemon is left in the dispatcher's state, and the
  -- connection ends as closed.
  pub exchange-handle_client :
      (request : Request) (response : Response) (s' : DaemonState) (fx : Effects)
      (rx : List Received)
      → Travels jq request
      → Travels jr response
      → is_subscribe request ≡ false
      → dispatch s request ≡ some (response, s', fx)
      → (exchange jq jr (connected rx) request ≡ success response)
        × ((served : Served) × (handle_client jq jr dispatch s
                (record {
                  bytes = (write_frame jq (working []) request).1.sent;
                  end = unexpected_eof;
                })
                (working [])
                rx
              ≡ some served)
            × (served.state ≡ s')
            × (served.effects ≡ fx)
            × (served.reason ≡ some closed))
  unfolding exchange
  exchange-handle_client request response s' fx rx q r sub d = (
    ground (
      arith,
      write_frame-Travels jq request [] q,
      handle_client-Travels request response s' fx rx q r sub d,
      append-nil (frame r.body),
      read_frame-Travels jr response [] unexpected_eof r,
    ),
    (
      record { reason = some closed; sent = working (frame r.body); state = s'; effects = fx },
      ground (
        arith,
        write_frame-Travels jq request [] q,
        handle_client-Travels request response s' fx rx q r sub d,
      ),
      refl,
      refl,
      refl,
    ),
  )
