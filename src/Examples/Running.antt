-- ===== src/Examples/Running.antt =====
-- The theorems on the runner, for one job and a blob of six bytes.
use mathlib.Core.List.{append-nil}
use open_cidn.Base.{
  ℕ, ◌+◌, ◌≤◌, ◌≡◌, refl, true, false, inr, pos, negsuc, Bytes, bytes, contains_byte, Option, none,
  some, List, [], ◌∷◌, ◌++◌, Result, ok, length, drop, All,
}
use open_cidn.Maps.{get_key}
use open_cidn.Messages.Model.{zero_attr, status_pending, status_processing}
use open_cidn.Messages.Watch.{MessageResponse}
use open_cidn.Manifests.Cache.{PathInfo}
use open_cidn.Manifests.Proxy.{format_path_info}
use open_cidn.Queues.Weighted.{int_key}
use open_cidn.Runner.Pending.{Runner, run_watch}
use open_cidn.Runner.Watched.{last_said, run_watch_lem}
use open_cidn.Runner.Jobs.{job_of, job_of-format_path_info}
use open_cidn.Runner.Heartbeat.{done, tick, job_ended, Call, closing, heartbeat}
use open_cidn.Runner.Ended.{IsBeat, heartbeat_lem}
use open_cidn.Runner.Resume.{resume}
use open_cidn.Runner.Copied.{concat}
use open_cidn.Runner.Whole.{IsStarted, resume-IsWhole}

abbrev job : ℕ → MessageResponse
job status = record {
  message_id = pos 7;
  content = bytes "sha256:x";
  priority = pos 1;
  status = status;
  attr = record zero_attr { kind = bytes "blob" };
  last_heartbeat = 0;
}

abbrev told : List MessageResponse
told = job status_pending ∷ job status_processing ∷ []

abbrev idle : Runner
idle = record { blob_pending = []; sync_blob = false; manifest_pending = []; sync_manifest = false }

run_watch_lem_example :
    (get_key int_key (pos 7) (run_watch told idle).blob_pending
      ≡ last_said (bytes "blob") (pos 7) told none)
    × (get_key int_key (pos 7) (run_watch told idle).manifest_pending
        ≡ last_said (bytes "manifest") (pos 7) told none)
run_watch_lem_example = run_watch_lem (pos 7) told idle

abbrev busybox : PathInfo
busybox = record {
  host = bytes "docker.io";
  image = bytes "library/busybox";
  manifests = bytes "latest";
  is_digest_manifests = false;
}

lacks_in_host :
    (contains_byte 47 busybox.host ≡ false)
    × (contains_byte 64 busybox.host ≡ false)
    × (contains_byte 58 busybox.host ≡ false)
unfolding contains_byte
lacks_in_host = (refl, refl, refl)

lacks_in_image :
    (contains_byte 64 busybox.image ≡ false)
    × (contains_byte 58 busybox.image ≡ false)
    × (contains_byte 64 busybox.manifests ≡ false)
unfolding contains_byte
lacks_in_image = (refl, refl, refl)

job_of-format_path_info_example :
    job_of (format_path_info busybox)
    ≡ some (bytes "docker.io", bytes "library/busybox", bytes "latest")
job_of-format_path_info_example =
    job_of-format_path_info busybox lacks_in_host.0 lacks_in_host.1 lacks_in_host.2 lacks_in_image.0
      lacks_in_image.1 (inr lacks_in_image.2)

abbrev answered : Call → ℕ → Option Bytes × ℕ
answered c q = (none, q + 1)

heartbeat_lem_example :
    (beats : List Call) × ((rest : List Bytes × ℕ) × (All IsBeat beats
        × (heartbeat answered
              (negsuc 0)
              ((tick (pos 9) (pos 4) ∷ []) ++ job_ended done (pos 9) (pos 9) ∷ [])
              0
            ≡ some (beats ++ closing (job_ended done (pos 9) (pos 9)), rest.0, rest.1))))
heartbeat_lem_example =
    heartbeat_lem answered (negsuc 0) (tick (pos 9) (pos 4) ∷ []) (job_ended done (pos 9) (pos 9))
      [] 0 (tt, tt) tt

abbrev blob : Bytes
blob = bytes "abcdef"

abbrev append : Bytes → Bytes → ℕ × Option Bytes × Bytes
append p s = (length p, none, s ++ p)

abbrev text_of : Bytes → Bytes
text_of s = s

append_lem :
    (p s : Bytes)
    → (s' : Bytes) × ((append p s ≡ (length p, none, s')) × (text_of s' ≡ text_of s ++ p))
append_lem p s = (s ++ p, (refl, refl))

abbrev read : ℕ → Result Bytes (List Bytes × Option Bytes)
read n = ok (drop n blob ∷ [], none)

reads :
    (n : ℕ)
    → n ≤ length blob
    → (ps : List Bytes) × ((read n ≡ ok (ps, none)) × (concat ps ≡ drop n blob))
reads n h = (drop n blob ∷ [], (refl, append-nil (drop n blob)))

started :
    All
      (IsStarted Bytes append text_of append_lem blob)
      ((true, bytes "ab") ∷ (true, bytes "abcd") ∷ [])
unfolding IsStarted
started = ((bytes "cdef", refl), ((bytes "ef", refl), tt))

resume-IsWhole_example :
    (ended : List Bytes) × ((resume Bytes append
          (λ s. length (text_of s))
          (length blob)
          read
          ((true, bytes "ab") ∷ (true, bytes "abcd") ∷ [])
        ≡ ok ended)
      × All (λ s. text_of s ≡ blob) ended
      × (length ended ≡ 2))
resume-IsWhole_example =
    resume-IsWhole Bytes append text_of append_lem blob read (true, bytes "ab")
      ((true, bytes "abcd") ∷ []) reads started
