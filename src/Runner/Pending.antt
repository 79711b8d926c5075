-- ===== src/Runner/Pending.antt =====
-- pkg/runner: the jobs that wait, as the watch of the queue tells them, and which of them is taken.
use open_cidn.Base.{
  Bool, ◌&&◌, ◌||◌, not, ◌==◌, if◌then◌else◌, bool_eq, ℤ, pos, int_eq, int_lt, Bytes, bytes, str_eq,
  Option, none, some, List, [], ◌∷◌, ◌++◌, Result, ok, err, map, filter,
}
use open_cidn.Maps.{set_key, delete_key}
use open_cidn.Messages.Model.{status_pending}
use open_cidn.Messages.Watch.{MessageResponse}
use open_cidn.Queues.Weighted.{int_key}

-- The maps, and whether a wake-up is in the channels, which hold one.
pub record Runner : Type 0 where
  pub blob_pending : List (ℤ × MessageResponse)
  pub sync_blob : Bool
  pub manifest_pending : List (ℤ × MessageResponse)
  pub sync_manifest : Bool

abbrev pub waits : MessageResponse → Bool
waits msg = msg.status == status_pending

unfoldable pub noted : MessageResponse → List (ℤ × MessageResponse) → List (ℤ × MessageResponse)
noted msg m =
    if waits msg then set_key int_key msg.message_id msg m else delete_key int_key msg.message_id m

-- One message of the watch.
unfoldable pub watched : MessageResponse → Runner → Runner
watched msg r =
    if str_eq msg.attr.kind (bytes "blob")
    then record r { blob_pending = noted msg r.blob_pending; sync_blob = waits msg || r.sync_blob }
    else if str_eq msg.attr.kind (bytes "manifest")
    then record r {
      manifest_pending = noted msg r.manifest_pending;
      sync_manifest = waits msg || r.sync_manifest;
    }
    else r

abbrev pub watch_all : List MessageResponse → Runner → Runner
watch_all [] r = r
watch_all (msg ∷ msgs) r = watch_all msgs (watched msg r)

-- `runWatch` up to the end of the channel, once `WatchList` is answered.
unfoldable pub run_watch : List MessageResponse → Runner → Runner
run_watch msgs r = watch_all msgs (record r { blob_pending = []; manifest_pending = [] })

-- The order in which jobs are tried.
unfoldable pub before : MessageResponse → MessageResponse → Bool
before a b =
    if not (int_eq a.priority b.priority)
    then int_lt b.priority a.priority
    else int_lt a.message_id b.message_id

unfoldable pub insert_before : MessageResponse → List MessageResponse → List MessageResponse
insert_before m [] = m ∷ []
insert_before m (x ∷ xs) =
    let rest = insert_before m xs in if before x m then x ∷ rest else m ∷ x ∷ xs

-- `sort.Slice` by the order.
unfoldable pub sort_pending : List MessageResponse → List MessageResponse
sort_pending [] = []
sort_pending (m ∷ ms) = insert_before m (sort_pending ms)

unfoldable pub get_blob_pending : Runner → List MessageResponse
get_blob_pending r = sort_pending (filter waits (map (λ e. e.1) r.blob_pending))

unfoldable pub get_manifest_pending : Bool → Runner → List MessageResponse
get_manifest_pending deep r =
    sort_pending
      (filter (λ m. waits m && bool_eq m.attr.deep deep) (map (λ e. e.1) r.manifest_pending))

-- What a round comes to: nothing to do, the errors of the queue, or a job that is taken.
pub data Round : Type 0 where
  idle : Round
  refused : List Bytes → Round
  taken : MessageResponse → Round

-- `Q` is the state of the queue, `consume` the call for the runner's lease.
module _ {Q : Type 0} (consume : ℤ → Q → Result Bytes MessageResponse × Q) where
  abbrev tried :
      List Bytes
      → Result Bytes MessageResponse × Q
      → (Bytes → Q → Option MessageResponse × List Bytes × Q)
      → Option MessageResponse × List Bytes × Q
  tried errs (ok resp, q) next = (some resp, errs, q)
  tried errs (err e, q) next = next e q

  -- The jobs are tried until one is given.
  unfoldable pub try_pending :
      List MessageResponse → List Bytes → Q → Option MessageResponse × List Bytes × Q
  try_pending [] errs q = (none, errs, q)
  try_pending (msg ∷ msgs) errs q =
      tried errs (consume msg.message_id q) (λ e q'. try_pending msgs (errs ++ e ∷ []) q')

  abbrev pub nothing_taken : List Bytes → Round
  nothing_taken [] = idle
  nothing_taken (e ∷ errs) = refused (e ∷ errs)

  abbrev pub round_of : Option MessageResponse × List Bytes × Q → Round × Q
  round_of (none, errs, q) = (nothing_taken errs, q)
  round_of (some resp, errs, q) =
      if int_eq resp.message_id (pos 0) || str_eq resp.content []
      then (nothing_taken errs, q)
      else (taken resp, q)

  abbrev pub run_pending : List MessageResponse → Q → Round × Q
  run_pending [] q = (idle, q)
  run_pending (msg ∷ msgs) q = round_of (try_pending (msg ∷ msgs) [] q)

  -- Up to the job that is taken; what is done with it follows.
  unfoldable pub run_once_blob_sync : Runner → Q → Round × Q
  run_once_blob_sync r q = run_pending (get_blob_pending r) q

  unfoldable pub run_once_manifest_sync : Bool → Runner → Q → Round × Q
  run_once_manifest_sync deep r q = run_pending (get_manifest_pending deep r) q
