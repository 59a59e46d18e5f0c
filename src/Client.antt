-- ===== src/Client.antt =====
-- src/flexiv_control/client/remote_robot.py: `RemoteRobot`, with the server at the other end of its
-- connection. A call under the I/O lock is one step; what the network does to it, and what goes on
-- around the server's handler, are arguments. A request is as the server's handler decodes it.
pub mod Methods
pub mod Heartbeat
pub mod Answers
pub mod Renewal
pub mod Chunk
use flexiv_control.Common.{
  ℕ, ◌+◌, ◌==◌, String, Bool, true, false, Option, none, some, get_or_else, List, [], ◌∷◌, ◌++◌,
  if◌then◌else◌,
}
use flexiv_control.Common.Result.{Result, Error, ok, err, remote_error, timeout_error, value_error}
use flexiv_control.Common.Exec.{Exec, return, gets, modify, recover, ◌>>=◌, ◌>>◌}
use flexiv_control.Number.{Number}
use flexiv_control.Backend.{Backend}
use flexiv_control.Server.{Server}
use flexiv_control.Server.Motion.{Reply}
use flexiv_control.Server.Handlers.{Surroundings}
use flexiv_control.Server.Dispatch.{Request, Response, replied, failed, unknown_method, dispatch}

-- The streams `_rfile` and `_wfile`: None, open, or closed by `close`.
pub data Link : Type 0 where
  absent opened closed : Link

-- What the network does to a call: the request is lost in an error of the socket; or it is served and
-- its reply is queued, and then the read takes a line, raises such an error (a timeout is one), or
-- finds the stream at its end.
pub data Fate : Type 0 where
  unsent arrives fails ends : Fate

-- The client and what its connection leads to: the server, and the replies that wait to be read, each
-- with the number of its request.
pub record Remote (F B : Type 0) : Type 0 where
  pub owner : String
  pub link : Link
  pub next_id : ℕ
  pub has_lease : Bool
  pub hb_running : Bool
  pub server : Server F B
  pub queue : List (ℕ × Response F)

-- The surroundings of one call.
pub record Passage (F : Type 0) : Type 0 where
  pub around : Surroundings F
  pub fate : Fate

-- `resp["result"]`, or the error that the server reports.
abbrev pub outcome : {F : Type 0} → Response F → Result (Reply F)
outcome (replied r) = ok r
outcome (failed e) = err remote_error
outcome unknown_method = err remote_error

module _ {F B : Type 0} where
  -- The next line, which has to answer the request of this number.
  abbrev pub take_line : ℕ → List (ℕ × Response F) → Remote F B → Result (Reply F) × Remote F B
  take_line rid [] c = (err remote_error, record c { queue = [] })
  take_line rid ((i, resp) ∷ rest) c =
      (if i == rid then outcome resp else err remote_error, record c { queue = rest })

  abbrev pub read_line : Fate → ℕ → Remote F B → Result (Reply F) × Remote F B
  read_line unsent rid c = (err timeout_error, c)
  read_line arrives rid c = take_line rid c.queue c
  read_line fails rid c = (err timeout_error, c)
  read_line ends rid c = (err remote_error, c)

module _ {F : Type 0} ⦃n : Number F⦄ {B : Type 0} (ops : Backend F B) where
  -- The server handles the request and queues its reply.
  unfoldable pub served : Surroundings F → Request F → Remote F B → Remote F B
  served w req c =
      let (resp, s) = dispatch ops w (some req) c.server in
      record c { server = s; queue = c.queue ++ (c.next_id, resp) ∷ [] }

  abbrev pub sent : Surroundings F → Request F → Fate → Remote F B → Remote F B
  sent w req unsent c = c
  sent w req arrives c = served w req c
  sent w req fails c = served w req c
  sent w req ends c = served w req c

  abbrev pub over_link : Link → Passage F → Request F → Remote F B → Result (Reply F) × Remote F B
  over_link absent p req c = (err remote_error, c)
  over_link closed p req c = (err value_error, record c { next_id = c.next_id + 1 })
  over_link opened p req c =
      read_line p.fate (c.next_id + 1)
        (sent p.around req p.fate (record c { next_id = c.next_id + 1 }))

  -- `_call`
  unfoldable pub call : Passage F → Request F → Exec (Remote F B) (Reply F)
  call p req c = over_link c.link p req c

  -- `connect`, where the socket was made: its streams are new.
  unfoldable pub connect : Passage F → Exec (Remote F B) (Unit {0})
  connect p = do
    modify (λ c. record c { link = opened; queue = [] })
    call p Request.ping
    return tt

  unfoldable pub acquire_lease : Option String → Bool → Passage F → Exec (Remote F B) (Unit {0})
  acquire_lease owner force p = do
    modify (λ c. record c { owner = get_or_else c.owner owner })
    c ← gets (λ c. c)
    call p (Request.acquire_lease c.owner force)
    modify (λ c. record c { has_lease = true; hb_running = true })

  unfoldable pub release_lease : Passage F → Exec (Remote F B) (Unit {0})
  release_lease p = do
    modify (λ c. record c { hb_running = false })
    c ← gets (λ c. c)
    call p (Request.release_lease c.owner)
    modify (λ c. record c { has_lease = false })

  -- `close`, also `disconnect`. Only streams that were opened are closed.
  abbrev shut : Link → Link
  shut absent = absent
  shut opened = closed
  shut closed = closed

  unfoldable pub close : Passage F → Exec (Remote F B) (Unit {0})
  close p = do
    modify (λ c. record c { hb_running = false })
    c ← gets (λ c. c)
    recover tt (if c.has_lease then release_lease p else return tt)
    modify (λ c. record c { link = shut c.link })
