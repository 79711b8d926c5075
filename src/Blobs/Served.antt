-- ===== src/Blobs/Served.antt =====
-- pkg/blobs/blobs.go: what a request is answered that waits for a download.
use open_cidn.Base.{
  ℕ, ℤ, pos, ◌≡◌, refl, ◌∙◌, ap, subst, inl, inr, ==_iff, ◌==◌, length, Bool, true, false,
  Bool-cases, Option-cases, Bytes, bytes, Option, none, some, Result, ok, err, text_eq,
}
use open_cidn.Maps.{beq_refl}
use open_cidn.Manifests.Imc.{Imc}
use open_cidn.Manifests.Upstream.{storage_error}
use open_cidn.Storage.Contents.{put_blob-size}
use open_cidn.Storage.Driver.{Driver}
use open_cidn.Storage.Blobs.{stat_blob, put_blob}
use open_cidn.Blobs.Cache.{BlobValue, BlobsCache, get, put, put_no_ttl, put_error}
use open_cidn.Blobs.Upstream.{
  BlobInfo, Response, World, Store, cache_blob, same_size, is_big, after_big, after_small,
  continue_func, downloaded, worked, work,
}
use open_cidn.Blobs.Proxy.{
  Answer, error, Settings, Asked, serve_sized, serve_value, serve_cache, at_last, serve_missing,
}
use open_cidn.Blobs.Delivered.{Delivers, sized_lem, delivered}

module _ (blobs : Imc text_eq BlobValue) where
  get-put :
      (k : Bytes) (size : ℤ) (b : Bool) (m : BlobsCache blobs)
      → get blobs k (put blobs k size b m)
        ≡ some (record { size = size; big_cache = b; error = none; status_code = 0 })
  unfolding get put
  get-put k size b m =
      rw (blobs.get-set_with_ttl k k _ m.duration m.digest) (rw (beq_refl text_eq k) refl)

  get-put_no_ttl :
      (k : Bytes) (size : ℤ) (b : Bool) (m : BlobsCache blobs)
      → get blobs k (put_no_ttl blobs k size b m)
        ≡ some (record { size = size; big_cache = b; error = none; status_code = 0 })
  unfolding get put_no_ttl
  get-put_no_ttl k size b m = rw (blobs.get-set k k _ m.digest) (rw (beq_refl text_eq k) refl)

  get-put_error :
      (k e : Bytes) (sc : ℕ) (m : BlobsCache blobs)
      → get blobs k (put_error blobs k e sc m)
        ≡ some (record { size = pos 0; big_cache = false; error = some e; status_code = sc })
  unfolding get put_error
  get-put_error k e sc m =
      rw (blobs.get-set_with_ttl k k _ m.duration m.digest) (rw (beq_refl text_eq k) refl)

module _ (blobs : Imc text_eq BlobValue) (d : Driver) (w : World) (c : Settings) (r : Asked)
    (info : BlobInfo) where
  abbrev Stores : Type 0
  Stores = Store blobs d w

  -- The outcome of the fetch and the download, as the workers have it.
  abbrev pub outcome : Result (ℕ × Bytes) Response → Stores → Option Bytes × Stores
  outcome (err e) st = (some e.1, st)
  outcome (ok resp) st = continue_func blobs d w info resp st

  -- The answer after an outcome: the error, or what there is to get for the body that was fetched,
  -- of which the storage has the size.
  abbrev pub Settles : Option Bytes × Stores → Option Answer → Type 0
  Settles (some e, st) answer = answer ≡ some (error e 0)
  Settles (none, st) answer =
      (resp : Response) × ((body : Bytes) × ((cache_blob w info ≡ ok resp)
          × (resp.body ≡ some body)
          × (stat_blob d w.sum info.blobs st.storage ≡ some (length body))
          × Delivers blobs d w c r info (is_big blobs d w resp) (length body) answer))

  served_error :
      (e : Bytes) (sc : ℕ) (st : Stores)
      → (at_last blobs d w c r info
          (record st { blob_cache = put_error blobs info.blobs e sc st.blob_cache })).0
        ≡ some (error e 0)
  unfolding at_last serve_cache serve_value
  served_error e sc st = rw (serve_cache, get-put_error blobs info.blobs e sc st.blob_cache) refl

  served_size :
      (size : ℤ) (big : Bool) (st : Stores)
      → get blobs info.blobs st.blob_cache
        ≡ some (record { size = size; big_cache = big; error = none; status_code = 0 })
      → (at_last blobs d w c r info st).0 ≡ (serve_sized blobs d w c big r info size st).0
  unfolding at_last serve_cache serve_value
  served_size size big st h =
      let (a, (st', e)) = sized_lem blobs d w c r info big size st in
      rw (at_last, serve_cache, h) (rw e refl)

  -- After a success the cache and the storage have the size of the body.
  abbrev IsNoted : Bool → Response → Option Bytes × Stores → Type 0
  IsNoted big resp (some e, st) = Unit
  IsNoted big resp (none, st) =
      (body : Bytes) × ((resp.body ≡ some body)
        × (stat_blob d w.sum info.blobs st.storage ≡ some (length body))
        × (get blobs info.blobs st.blob_cache
            ≡ some (record {
              size = pos (length body);
              big_cache = big;
              error = none;
              status_code = 0;
            })))

  same_size_lem : (o : Option ℕ) (size : ℕ) → same_size blobs d w o size ≡ none → o ≡ some size
  unfolding same_size
  same_size_lem none size h = cc
  same_size_lem (some stat) size h = elim (Bool-cases (stat == size)) [
    | inl e ↦ ap (λ (n : ℕ). some n) ((==_iff stat size).0 e)
    | inr e ↦ cc (rw e at h)
  ]

  after_big-IsNoted :
      (resp : Response) (o : Option ℕ × d.State) (st : Stores)
      → put_blob d w.sum info.blobs resp.body st.big ≡ o
      → IsNoted true resp (after_big blobs d w info o st)
  unfolding after_big
  after_big-IsNoted resp (none, s) st p = tt
  after_big-IsNoted resp (some size, s) st p =
      elim (Option-cases (same_size blobs d w (stat_blob d w.sum info.blobs st.storage) size)) [
        | inr e ↦ rw (after_big, e.1) tt
        | inl e ↦
            let (body, (read, long)) = put_blob-size d w.sum info.blobs resp.body size st.big s p in
            rw (after_big, e)
              (
                body,
                (
                  read,
                  same_size_lem (stat_blob d w.sum info.blobs st.storage) size e
                      ∙ ap (λ (n : ℕ). some n) long,
                  rw (← long) (get-put_no_ttl blobs info.blobs (pos size) true st.blob_cache),
                ),
              )
      ]

  after_small-IsNoted :
      (resp : Response) (o : Option ℕ × d.State) (st : Stores)
      → put_blob d w.sum info.blobs resp.body st.storage ≡ o
      → IsNoted false resp (after_small blobs d w info o st)
  unfolding after_small
  after_small-IsNoted resp (none, s) st p = tt
  after_small-IsNoted resp (some size, s) st p =
      elim (Option-cases (same_size blobs d w (stat_blob d w.sum info.blobs s) size)) [
        | inr e ↦ rw (after_small, e.1) tt
        | inl e ↦
            let (body, (read, long)) =
              put_blob-size d w.sum info.blobs resp.body size st.storage s p in
            rw (after_small, e)
              (
                body,
                (
                  read,
                  same_size_lem (stat_blob d w.sum info.blobs s) size e
                      ∙ ap (λ (n : ℕ). some n) long,
                  rw (← long) (get-put blobs info.blobs (pos size) false st.blob_cache),
                ),
              )
      ]

  continue_func-IsNoted :
      (resp : Response) (st : Stores)
      → IsNoted (is_big blobs d w resp) resp (continue_func blobs d w info resp st)
  unfolding continue_func
  continue_func-IsNoted resp st = elim (Bool-cases (is_big blobs d w resp)) [
    | inl e ↦ rw e (after_big-IsNoted resp _ st refl)
    | inr e ↦ rw e (after_small-IsNoted resp _ st refl)
  ]

  downloaded-Settles :
      (resp : Response) (o : Option Bytes × Stores)
      → cache_blob w info ≡ ok resp
      → IsNoted (is_big blobs d w resp) resp o
      → Settles
          (o.0, downloaded blobs d w info o)
          (at_last blobs d w c r info (downloaded blobs d w info o)).0
  unfolding downloaded
  downloaded-Settles resp (some e, st) f h = served_error e 0 st
  downloaded-Settles resp (none, st) f (body, (read, long, h)) =
      let big = is_big blobs d w resp in
      let size = length body in
      (
        resp,
        (
          body,
          (
            f,
            read,
            long,
            rw (served_size (pos size) big st h) (delivered blobs d w c r info big size st),
          ),
        ),
      )

  worked-Settles :
      (answer : Result (ℕ × Bytes) Response) (st : Stores)
      → cache_blob w info ≡ answer
      → Settles
          ((outcome answer st).0, worked blobs d w info answer st)
          (at_last blobs d w c r info (worked blobs d w info answer st)).0
  unfolding worked
  worked-Settles (err e) st f = served_error e.1 e.0 st
  worked-Settles (ok resp) st f =
      downloaded-Settles resp (continue_func blobs d w info resp st) f
        (continue_func-IsNoted resp st)

  -- A request that waits for the workers is answered by their outcome, never by the fallback at the
  -- end of `Serve`. On an error it gets that. Otherwise it gets what there is to get for a blob of
  -- the size of the body that was fetched, which the storage then has: that size for a HEAD, the
  -- blob, a link to it, an error if no link can be made, or nothing if the limit does not let it
  -- through.
  pub serve_missing-Settles :
      (st : Stores)
      → Settles
          ((outcome (cache_blob w info) st).0, work blobs d w info st)
          (serve_missing blobs d w c none false r info st).0
  unfolding serve_missing work
  serve_missing-Settles st = worked-Settles (cache_blob w info) st refl

  after_big_missing :
      (o : Option ℕ × d.State) (st : Stores)
      → stat_blob d w.sum info.blobs st.storage ≡ none
      → (e : Bytes) × ((after_big blobs d w info o st).0 ≡ some e)
  unfolding after_big same_size
  after_big_missing (none, s) st h = (bytes "Put to big cache", refl)
  after_big_missing (some size, s) st h = (storage_error, rw (after_big, h) refl)

  continued :
      (resp : Response) (st : Stores)
      → is_big blobs d w resp ≡ true
      → (continue_func blobs d w info resp st).0
        ≡ (after_big blobs d w info (put_blob d w.sum info.blobs resp.body st.big) st).0
  unfolding continue_func
  continued resp st big = rw (continue_func, big) refl

  -- A blob that goes to the big cache and is not in the small one as well is answered with an error,
  -- even if it was stored.
  pub serve_missing_big :
      (resp : Response) (st : Stores)
      → cache_blob w info ≡ ok resp
      → is_big blobs d w resp ≡ true
      → stat_blob d w.sum info.blobs st.storage ≡ none
      → (e : Bytes) × ((serve_missing blobs d w c none false r info st).0 ≡ some (error e 0))
  serve_missing_big resp st fetched big missing =
      let failed = after_big_missing (put_blob d w.sum info.blobs resp.body st.big) st missing in
      let same : (outcome (cache_blob w info) st).0 ≡ some failed.0 =
        rw fetched (continued resp st big ∙ failed.1) in
      (
        failed.0,
        subst
            (λ (x : Option Bytes).
              Settles (x, work blobs d w info st)
                (serve_missing blobs d w c none false r info st).0)
            same (serve_missing-Settles st),
      )
