-- ===== src/Messages/Calls.antt =====
-- The server as a whole: any sequence of requests and scheduled rounds.
use open_cidn.Base.{Bytes, Option, List, [], ◌∷◌}
use open_cidn.Messages.Table.{Table}
use open_cidn.Messages.World.{World}
use open_cidn.Messages.Request.{MessageRequest, LeaseRequest, AttrRequest}
use open_cidn.Messages.Controller
use open_cidn.Messages.Schedule
use open_cidn.Messages.Issued.{TurnsIssued, IsStable}
use open_cidn.Messages.Handlers.{
  Keeps-create, Keeps-list, Keeps-get, Keeps-consume, Keeps-heartbeat, Keeps-complete, Keeps-fail,
  Keeps-cancel, Keeps-round,
}

-- The routes of `RegisterRoutes`, and the tick of `Schedule`.
pub data Call : Type 0 where
  create : Option MessageRequest → Call
  list : Bytes → Call
  get : Bytes → Bytes → Call
  consume : Bytes → Option LeaseRequest → Call
  heartbeat : Bytes → Option AttrRequest → Call
  complete : Bytes → Option LeaseRequest → Call
  fail : Bytes → Option AttrRequest → Call
  cancel : Bytes → Option LeaseRequest → Call
  tick : Call

-- What a call leaves behind.
unfoldable pub serve : Call → World → World
serve (create body) w = (Controller.create body w).1
serve (list watch) w = (Controller.list watch w).1
serve (get text watch) w = (Controller.get text watch w).1
serve (consume text body) w = (Controller.consume text body w).1
serve (heartbeat text body) w = (Controller.heartbeat text body w).1
serve (complete text body) w = (Controller.complete text body w).1
serve (fail text body) w = (Controller.fail text body w).1
serve (cancel text body) w = (Controller.cancel text body w).1
serve tick w = (Schedule.round w).1

unfoldable pub serve_all : List Call → World → World
serve_all [] w = w
serve_all (c ∷ cs) w = serve_all cs (serve c w)

module _ {P : Table → Type 0} (stable : IsStable P) where
  pub serve-keeps :
      (c : Call) (w : World)
      → TurnsIssued w.turns
      → P w.table
      → TurnsIssued (serve c w).turns × P (serve c w).table
  unfolding serve
  serve-keeps (create body) w ts h = (Keeps-create stable body).at w ts h
  serve-keeps (list watch) w ts h = (Keeps-list stable watch).at w ts h
  serve-keeps (get text watch) w ts h = (Keeps-get stable text watch).at w ts h
  serve-keeps (consume text body) w ts h = (Keeps-consume stable text body).at w ts h
  serve-keeps (heartbeat text body) w ts h = (Keeps-heartbeat stable text body).at w ts h
  serve-keeps (complete text body) w ts h = (Keeps-complete stable text body).at w ts h
  serve-keeps (fail text body) w ts h = (Keeps-fail stable text body).at w ts h
  serve-keeps (cancel text body) w ts h = (Keeps-cancel stable text body).at w ts h
  serve-keeps tick w ts h = (Keeps-round stable).at w ts h

  pub serve_all-keeps :
      (cs : List Call) (w : World) → TurnsIssued w.turns → P w.table → P (serve_all cs w).table
  unfolding serve_all
  serve_all-keeps [] w ts h = h
  serve_all-keeps (c ∷ cs) w ts h =
      let (ts', h') = serve-keeps c w ts h in serve_all-keeps cs (serve c w) ts' h'
