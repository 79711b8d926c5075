-- ===== src/Blobs/Delivered.antt =====
-- pkg/blobs/blobs.go: what is answered for a blob of a known size.
use open_cidn.Base.{
  ℕ, ℤ, pos, ◌≡◌, ◌⊎◌, refl, sym, ap, inl, inr, some_inj, arith, if◌then◌else◌, ◌&&◌, not, int_eq,
  int_lt, Bool, true, false, Bool-cases, Option-cases, Bytes, Option, none, some, text_eq,
}
use open_cidn.Manifests.Imc.{Imc}
use open_cidn.Manifests.Upstream.{unknown}
use open_cidn.Storage.Links.{redirect_blob}
use open_cidn.Storage.Driver.{Driver}
use open_cidn.Blobs.Cache.{BlobValue}
use open_cidn.Blobs.Upstream.{BlobInfo, World, Store}
use open_cidn.Blobs.Proxy.{
  Answer, head, content, redirected, nothing, error, serve_cached_blob_redirect,
  serve_cached_blob_direct, Settings, Asked, serve_cached_blob_head, serve_big_cached_blob_redirect,
  serve_cached_blob, serve_sized,
}

module _ (blobs : Imc text_eq BlobValue) (d : Driver) (w : World) (c : Settings) (r : Asked)
    (info : BlobInfo) where
  abbrev Stores : Type 0
  Stores = Store blobs d w

  abbrev link : Bool → Option Bytes
  link big = redirect_blob (if big then c.big_links else c.links) info.blobs r.remote_addr

  -- What a request may get for a blob of a size: for a HEAD the size; the blob itself, if it is not
  -- a big one; a link to it, or an error if none can be made; or nothing, if the limit on the rate
  -- does not let it through before the request ends.
  abbrev pub Delivers : Bool → ℕ → Option Answer → Type 0
  Delivers big size answer =
      ((r.is_head ≡ true) × (answer ≡ some (head (pos size))))
      ⊎ ((big ≡ false) × (answer ≡ some (content info.blobs (pos size))))
      ⊎ ((u : Bytes) × ((link big ≡ some u) × (answer ≡ some (redirected u))))
      ⊎ ((link big ≡ none) × (answer ≡ some (error unknown 0)))
      ⊎ ((c.has_limit ≡ true) × (c.wait ≡ false) × (answer ≡ some nothing))

  -- A blob of a known size is always answered.
  pub sized_lem :
      (big : Bool) (size : ℤ) (st : Stores)
      → (a : Answer) × ((st' : Stores) × (serve_sized blobs d w c big r info size st
            ≡ (some a, st')))
  unfolding serve_sized
  sized_lem big size st = elim (Option-cases (serve_cached_blob_head r size)) [
    | inr asked ↦ (asked.0, (st, rw (serve_sized, asked.1) refl))
    | inl whole ↦ elim (Bool-cases big) [
      | inl e ↦
          let x = serve_big_cached_blob_redirect blobs d w c r info size st in
          (x.0, (x.1, rw (serve_sized, whole) (rw e refl)))
      | inr e ↦
          let x = serve_cached_blob blobs d w c r info size st in
          (x.0, (x.1, rw (serve_sized, whole) (rw e refl)))
    ]
  ]

  head_lem :
      (size : ℤ) (a : Answer)
      → serve_cached_blob_head r size ≡ some a
      → (r.is_head ≡ true) × (a ≡ head size)
  unfolding serve_cached_blob_head
  head_lem size a h = elim (Bool-cases (not (int_eq size (pos 0)) && r.is_head)) [
    | inl e ↦ (ground (arith, e), sym (some_inj (rw (serve_cached_blob_head, e) at h)))
    | inr e ↦ cc (rw (serve_cached_blob_head, e) at h)
  ]

  redirect_lem :
      (size : ℕ) (st : Stores)
      → Delivers false size (some (serve_cached_blob_redirect blobs d w c r info (pos size) st).0)
  unfolding serve_cached_blob_redirect
  redirect_lem size st = elim (Option-cases (link false)) [
    | inl n ↦ inr (inr (inr (inl (n, rw (serve_cached_blob_redirect, n) refl))))
    | inr y ↦ inr (inr (inl (y.0, (y.1, rw (serve_cached_blob_redirect, y.1) refl))))
  ]

  big_lem :
      (size : ℕ) (st : Stores)
      → Delivers true size
          (some (serve_big_cached_blob_redirect blobs d w c r info (pos size) st).0)
  unfolding serve_big_cached_blob_redirect
  big_lem size st = elim (Option-cases (link true)) [
    | inl n ↦ inr (inr (inr (inl (n, rw (serve_big_cached_blob_redirect, n) refl))))
    | inr y ↦ inr (inr (inl (y.0, (y.1, rw (serve_big_cached_blob_redirect, y.1) refl))))
  ]

  small_lem :
      (size : ℕ) (st : Stores)
      → Delivers false size (some (serve_cached_blob blobs d w c r info (pos size) st).0)
  unfolding serve_cached_blob serve_cached_blob_direct serve_cached_blob_redirect
  small_lem size st = elim (Bool-cases r.always_redirect) [
    | inl e ↦ rw e (redirect_lem size st)
    | inr e ↦ rw e (elim (Bool-cases c.force_blob_no_redirect) [
      | inl f ↦ rw f (elim (Bool-cases (c.has_limit && not c.wait)) [
        | inl g ↦ rw g (inr (inr (inr (inr (ground (arith, g), ground (arith, g), refl)))))
        | inr g ↦ rw g (inr (inl (refl, refl)))
      ])
      | inr f ↦
          rw f
            (elim (Bool-cases
              (int_lt (pos size) c.blob_no_redirect_size && (c.has_limit && c.allow))) [
                | inl g ↦ rw g (inr (inl (refl, refl)))
                | inr g ↦ rw g (redirect_lem size st)
              ])
    ])
  ]

  pub delivered :
      (big : Bool) (size : ℕ) (st : Stores)
      → Delivers big size (serve_sized blobs d w c big r info (pos size) st).0
  unfolding serve_sized
  delivered big size st = elim (Option-cases (serve_cached_blob_head r (pos size))) [
    | inr head_only ↦
        let (is_head, same) = head_lem (pos size) head_only.0 head_only.1 in
        rw (serve_sized, head_only.1) (inl (is_head, ap (λ (x : Answer). some x) same))
    | inl whole ↦
        rw (serve_sized, whole)
          (elim (Bool-cases big) [
            | inl e ↦ rw e (big_lem size st)
            | inr e ↦ rw e (small_lem size st)
          ])
  ]
