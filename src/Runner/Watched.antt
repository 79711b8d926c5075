-- ===== src/Runner/Watched.antt =====
-- pkg/runner/runner.go: what the runner knows of the jobs that wait.
use open_cidn.Base.{
  ◌≡◌, refl, ◌∙◌, ap, inl, inr, true, false, ◌&&◌, if◌then◌else◌, Bool-cases, ℤ, int_eq, Bytes,
  bytes, str_eq, str_eq_iff, Option, none, some, List, [], ◌∷◌,
}
use open_cidn.Maps.{get_key, get_key-set_key, get_key-delete_key}
use open_cidn.Messages.Watch.{MessageResponse}
use open_cidn.Queues.Weighted.{int_key}
use open_cidn.Runner.Pending.{Runner, waits, noted, watched, watch_all, run_watch}

-- What a message says of a job: it waits, or it does not any more.
abbrev pub said : Bytes → ℤ → MessageResponse → Option MessageResponse → Option MessageResponse
said kind id msg known =
    if str_eq msg.attr.kind kind && int_eq msg.message_id id
    then if waits msg then some msg else none
    else known

-- What the last message about a job says.
abbrev pub last_said :
    Bytes → ℤ → List MessageResponse → Option MessageResponse → Option MessageResponse
last_said kind id [] known = known
last_said kind id (msg ∷ msgs) known = last_said kind id msgs (said kind id msg known)

get_key-noted :
    (id : ℤ) (msg : MessageResponse) (m : List (ℤ × MessageResponse))
    → get_key int_key id (noted msg m) ≡ (
        if int_eq msg.message_id id
        then if waits msg then some msg else none
        else get_key int_key id m)
unfolding noted
get_key-noted id msg m = elim (Bool-cases (waits msg)) [
  | inl w ↦ rw w (get_key-set_key int_key msg.message_id id msg m)
  | inr w ↦ rw w (get_key-delete_key int_key msg.message_id id m)
]

not_both :
    (kind : Bytes) → str_eq kind (bytes "blob") ≡ true → str_eq kind (bytes "manifest") ≡ false
unfolding str_eq
not_both kind h = rw ((str_eq_iff kind (bytes "blob")).0 h) refl

watched_blob :
    (id : ℤ) (msg : MessageResponse) (r : Runner)
    → get_key int_key id (watched msg r).blob_pending
      ≡ said (bytes "blob") id msg (get_key int_key id r.blob_pending)
unfolding watched
watched_blob id msg r = elim (Bool-cases (str_eq msg.attr.kind (bytes "blob"))) [
  | inl b ↦ rw b (get_key-noted id msg r.blob_pending)
  | inr b ↦ rw b (elim (Bool-cases (str_eq msg.attr.kind (bytes "manifest"))) [
    | inl m ↦ rw m refl
    | inr m ↦ rw m refl
  ])
]

watched_manifest :
    (id : ℤ) (msg : MessageResponse) (r : Runner)
    → get_key int_key id (watched msg r).manifest_pending
      ≡ said (bytes "manifest") id msg (get_key int_key id r.manifest_pending)
unfolding watched
watched_manifest id msg r = elim (Bool-cases (str_eq msg.attr.kind (bytes "blob"))) [
  | inl b ↦ rw b (rw (not_both msg.attr.kind b) refl)
  | inr b ↦ rw b (elim (Bool-cases (str_eq msg.attr.kind (bytes "manifest"))) [
    | inl m ↦ rw m (get_key-noted id msg r.manifest_pending)
    | inr m ↦ rw m refl
  ])
]

watch_all_blob :
    (id : ℤ) (msgs : List MessageResponse) (r : Runner)
    → get_key int_key id (watch_all msgs r).blob_pending
      ≡ last_said (bytes "blob") id msgs (get_key int_key id r.blob_pending)
watch_all_blob id [] r = refl
watch_all_blob id (msg ∷ msgs) r =
    watch_all_blob id msgs (watched msg r)
    ∙ ap (last_said (bytes "blob") id msgs) (watched_blob id msg r)

watch_all_manifest :
    (id : ℤ) (msgs : List MessageResponse) (r : Runner)
    → get_key int_key id (watch_all msgs r).manifest_pending
      ≡ last_said (bytes "manifest") id msgs (get_key int_key id r.manifest_pending)
watch_all_manifest id [] r = refl
watch_all_manifest id (msg ∷ msgs) r =
    watch_all_manifest id msgs (watched msg r)
    ∙ ap (last_said (bytes "manifest") id msgs) (watched_manifest id msg r)

-- After any messages of a watch the runner knows of a job of a kind, blob or manifest, what the last
-- message about it says, and nothing from before the watch.
pub run_watch_lem :
    (id : ℤ) (msgs : List MessageResponse) (r : Runner)
    → (get_key int_key id (run_watch msgs r).blob_pending ≡ last_said (bytes "blob") id msgs none)
      × (get_key int_key id (run_watch msgs r).manifest_pending
          ≡ last_said (bytes "manifest") id msgs none)
unfolding run_watch get_key
run_watch_lem id msgs r =
    let fresh : Runner = record r { blob_pending = []; manifest_pending = [] } in
    (watch_all_blob id msgs fresh, watch_all_manifest id msgs fresh)
