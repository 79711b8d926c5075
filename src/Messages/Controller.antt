-- ===== src/Messages/Controller.antt =====
-- The handlers of pkg/queue/controller/message.go. An early return with a response is `raise`.
use open_cidn.Base.{
  ℕ, Bool, not, ◌&&◌, ◌||◌, ◌==◌, if◌then◌else◌, ℤ, pos, int_eq, int_lt, Bytes, bytes, Option, List,
  [], ◌∷◌, map, Result, ok, err,
}
use open_cidn.Messages.Model.{MessageAttr, Message, status_pending, status_processing}
use open_cidn.Messages.Watch.{
  MessageResponse, response_of, append_watch_channel, append_watch_list_channels, get_watch_channel,
  get_watch_list_channel,
}
use open_cidn.Messages.World.{
  Exec, DbError, no_rows, failed, no_rows_affected, pure, raise, ◌>>=◌, ◌>>◌, ◌or◌, attempt, notify,
  register,
}
use open_cidn.Messages.Request.{
  MessageRequest, LeaseRequest, AttrRequest, Response, fails, entity, no_content, many, path_id,
  read_entity, require_lease, parse_bool,
}
use open_cidn.Messages.Service

-- What `WriteHeaderAndEntity` sends in the end.
abbrev pub answer : Result Response Response → Response
answer (ok r) = r
answer (err r) = r

unfoldable pub not_acceptable : DbError → Response
not_acceptable e = fails 406 (bytes "MessageNotAcceptableError")

unfoldable pub not_found : DbError → Response
not_found e = fails 404 (bytes "MessageNotFoundError")

-- The two appends that end each handler.
unfoldable pub announce : ℤ → MessageResponse → Exec Response (Unit {0})
announce id mr = do notify (append_watch_channel id mr); notify (append_watch_list_channels mr)

raise_priority : MessageRequest → Message → Exec Response Response
raise_priority request m =
    let mr = record (response_of m) { priority = request.priority } in
    do
      Service.update_priority_by_id m.message_id request.priority or λ e.
          fails 500 (bytes "MessageUpdateError")
      notify (append_watch_list_channels mr)
      pure (entity 200 mr)

create_found : MessageRequest → Message → Exec Response Response
unfolding raise_priority
create_found request m =
    if m.status == status_pending && int_lt m.priority request.priority
    then raise_priority request m
    else pure (entity 200 (response_of m))

abbrev created : ℕ → MessageRequest → MessageResponse
created id request = record {
  message_id = pos id;
  content = request.content;
  priority = request.priority;
  status = status_pending;
  attr = request.attr;
  last_heartbeat = 0;
}

create_new : MessageRequest → Exec Response Response
create_new request = do
  id ←
      Service.create (record {
        message_id = pos 0;
        content = request.content;
        lease = [];
        priority = request.priority;
        status = status_pending;
        attr = request.attr;
        last_heartbeat = 0;
      })
      or λ e. fails 500 (bytes "MessageCreationError")
  notify (append_watch_list_channels (created id request))
  pure (entity 201 (created id request))

unfoldable pub create_after : MessageRequest → Result DbError Message → Exec Response Response
unfolding create_found create_new
create_after request (ok m) = create_found request m
create_after request (err no_rows) = create_new request
create_after request (err failed) = raise (fails 500 (bytes "MessageRetrievalError"))
create_after request (err no_rows_affected) = raise (fails 500 (bytes "MessageRetrievalError"))

unfoldable pub create : Option MessageRequest → Exec Response Response
unfolding create_after
create body = do
  request ← read_entity body (bytes "MessageRequestError")
  found ← attempt (Service.get_by_content request.content)
  create_after request found

-- A handler replies, or goes on as a stream that reads the named channel.
pub data Answer : Type 0 where
  reply : Response → Answer
  stream : List MessageResponse → ℕ → Answer

unfoldable pub list : Bytes → Exec Response Answer
list watch = do
  messages ← Service.list or λ e. fails 500 (bytes "MessageListError")
  if not (parse_bool watch)
      then pure (reply (record { code = 200; body = many (map response_of messages) }))
      else do name ← register get_watch_list_channel; pure (stream (map response_of messages) name)

abbrev pub in_progress : ℕ → Bool
in_progress status = status == status_processing || status == status_pending

unfoldable pub get : Bytes → Bytes → Exec Response Answer
unfolding not_found
get text watch = do
  id ← path_id text
  curr ← Service.get_by_id id or not_found
  if not (parse_bool watch) || not (in_progress curr.status)
      then pure (reply (entity 200 (response_of curr)))
      else do
        name ← register (get_watch_channel id)
        notify (append_watch_channel id (response_of curr))
        pure (stream [] name)

-- The loop of `Get` over what arrives on its channel: it ends after the first status that is final.
unfoldable pub watch_loop : List MessageResponse → List MessageResponse
watch_loop [] = []
watch_loop (mr ∷ rest) =
    let more = watch_loop rest in if in_progress mr.status then mr ∷ more else mr ∷ []

unfoldable pub consume : Bytes → Option LeaseRequest → Exec Response Response
unfolding not_acceptable not_found
consume text body = do
  id ← path_id text
  request ← read_entity body (bytes "CompletedRequestError")
  require_lease request.lease
  Service.consume id request.lease or not_acceptable
  curr ← Service.get_by_id id or not_found
  announce id (response_of curr)
  pure (entity 200 (response_of curr))

-- Progress replaces the stored one unless it is 0, and the size only if it is above 0.
unfoldable pub merge : MessageAttr → MessageAttr → MessageAttr
merge sent stored = record stored {
  progress = if int_eq sent.progress (pos 0) then stored.progress else sent.progress;
  size = if int_lt (pos 0) sent.size then sent.size else stored.size;
}

unfoldable pub heartbeat : Bytes → Option AttrRequest → Exec Response Response
unfolding not_acceptable not_found merge
heartbeat text body = do
  id ← path_id text
  request ← read_entity body (bytes "HeartbeatRequestError")
  require_lease request.lease
  curr ← Service.get_by_id id or not_found
  let attr = merge request.attr curr.attr
  Service.heartbeat id attr request.lease or not_acceptable
  announce id (response_of (record curr { attr = attr }))
  pure no_content

unfoldable pub complete : Bytes → Option LeaseRequest → Exec Response Response
unfolding not_found
complete text body = do
  id ← path_id text
  request ← read_entity body (bytes "CompletedRequestError")
  require_lease request.lease
  Service.complete id request.lease or λ e. fails 406 (bytes "MessageNotAcceptabledError")
  curr ← Service.get_by_id id or not_found
  announce id (response_of curr)
  pure no_content

unfoldable pub fail : Bytes → Option AttrRequest → Exec Response Response
unfolding not_acceptable not_found
fail text body = do
  id ← path_id text
  request ← read_entity body (bytes "FailedRequestError")
  require_lease request.lease
  before ← Service.get_by_id id or not_found
  Service.fail id request.lease (record (before.attr) { error = request.attr.error })
      or not_acceptable
  curr ← Service.get_by_id id or not_found
  announce id (response_of curr)
  pure no_content

unfoldable pub cancel : Bytes → Option LeaseRequest → Exec Response Response
unfolding not_acceptable not_found
cancel text body = do
  id ← path_id text
  request ← read_entity body (bytes "FailedRequestError")
  require_lease request.lease
  Service.cancel id request.lease or not_acceptable
  curr ← Service.get_by_id id or not_found
  announce id (response_of curr)
  pure no_content
