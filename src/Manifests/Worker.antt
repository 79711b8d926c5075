-- ===== src/Manifests/Worker.antt =====
-- The worker of pkg/manifests/manifest.go: what a request is answered that waits for it.
use open_cidn.Base.{ℕ, ◌≡◌, ◌⊎◌, Bytes, Option, none, some}
use open_cidn.Manifests.Imc.{Imc}
use open_cidn.Manifests.Cache.{PathInfo, TagValue, DigestValue, key_eq}
use open_cidn.Storage.Driver.{Driver}
use open_cidn.Storage.Manifests.{Content}
use open_cidn.Manifests.Upstream.{World, Store}
use open_cidn.Manifests.Proxy.{Answer, error, Asked}
use open_cidn.Manifests.Served.{answer_of}
use open_cidn.Manifests.Brought.{Served, IsHeld, IsFetched, WasThere}

module _ (tags : Imc key_eq TagValue) (digests : Imc key_eq DigestValue) (d : Driver) (w : World)
    (r : Asked) (info : PathInfo) where
  abbrev Stores : Type 0
  Stores = Store tags digests d w

  -- What the worker's outcome means for who waits.
  abbrev pub Settles : d.State → Option (ℕ × Bytes) × Stores → Option Answer → Type 0
  Settles before (some (sc, e), st) answer = answer ≡ some (error e sc)
  Settles before (none, st) answer =
      (found : Content) × ((answer ≡ some (answer_of r found))
        × IsHeld tags digests d w r info st.storage found
        × (IsFetched tags digests d w r info found ⊎ WasThere tags digests d w r info before found))
