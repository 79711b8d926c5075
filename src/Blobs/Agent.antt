-- ===== src/Blobs/Agent.antt =====
-- pkg/gateway/blob.go and pkg/blobs/blobs.go: the URL to which the gateway sends a client, and the
-- agent that reads its path.
use mathlib.Core.List.{append_assoc}
use open_cidn.Base.{
  ◌≡◌, ◌≢◌, refl, ◌∙◌, ap, true, false, ltb, Bytes, bytes, str_eq_refl, has_prefix,
  trim_prefix-append, contains_byte, split, split-append, split-cons, split_plain, join-split,
  length, length-append, some, [], ◌∷◌, ◌++◌, arith,
}
use open_cidn.Tokens.Token.{Token}
use open_cidn.Tokens.Authenticator.{Request}
use open_cidn.Tokens.Allowed.{str_eq_nil}
use open_cidn.Gateway.Location.{
  hex_escape_non_ascii, hex_escape_non_ascii-append, hex_escape_non_ascii_lem, is_plain,
  is_plain-append, url_path, url_path_lem,
}
use open_cidn.Gateway.Paths.{slash, prefix, PathInfo}
use open_cidn.Gateway.RoundTrip.{take-append, tails_lem, but_two, kind_at, last_at}
use open_cidn.Gateway.Serve.{Gateway, redirected, blob}
use open_cidn.Blobs.Proxy.{parse_path}

abbrev tail_of : Bytes → Bytes → Bytes
tail_of image digest = image ++ slash ∷ (bytes "blobs" ++ slash ∷ digest)

parts_lem :
    (host image digest : Bytes)
    → contains_byte slash host ≡ false
    → contains_byte slash digest ≡ false
    → split slash (host ++ slash ∷ tail_of image digest)
      ≡ (host ∷ split slash image) ++ bytes "blobs" ∷ digest ∷ []
unfolding contains_byte
parts_lem host image digest h k =
    split-append slash host (tail_of image digest)
    ∙ rw (split_plain slash host h) (rw (tails_lem image (bytes "blobs") digest refl k) refl)

enough :
    (host image digest : Bytes)
    → ltb (length ((host ∷ split slash image) ++ bytes "blobs" ∷ digest ∷ [])) 4 ≡ false
enough host image digest =
    let first = split-cons slash image in
    rw (length-append (host ∷ split slash image) (bytes "blobs" ∷ digest ∷ []))
      (rw first.1.1 (ground arith))

-- The path is read as host, image and digest again.
pub parse_path_lem :
    (host image digest : Bytes)
    → contains_byte slash host ≡ false
    → contains_byte slash digest ≡ false
    → has_prefix digest (bytes "sha256:") ≡ true
    → parse_path (prefix ++ host ++ slash ∷ tail_of image digest) ≡ some (host, image, digest)
unfolding parse_path
parse_path_lem host image digest h k p =
    let xs = host ∷ split slash image in
    rw (trim_prefix-append prefix (host ++ slash ∷ tail_of image digest)) (
      rw (parts_lem host image digest h k) (
        rw (enough host image digest) (
          rw (kind_at xs (bytes "blobs") digest) (
            rw (str_eq_refl (bytes "blobs")) (
              rw (last_at xs (bytes "blobs") digest) (
                rw p (
                  rw (but_two xs (bytes "blobs") digest) (
                    rw (take-append xs (bytes "blobs" ∷ digest ∷ []))
                      (ap (λ (x : Bytes). some (host, x, digest)) (join-split slash image))))))))))

-- Of an agent's URL, scheme and authority; of the blob's, what stands before the query.
abbrev agent_of : Bytes → Bytes → Bytes
agent_of scheme authority = scheme ++ 58 ∷ 47 ∷ 47 ∷ authority

abbrev path_of : Bytes → Bytes → Bytes → Bytes
path_of host image digest = bytes "v2/" ++ host ++ slash ∷ tail_of image digest

there_lem : (scheme authority : Bytes) → agent_of scheme authority ≢ []
there_lem [] authority e = cc
there_lem (b ∷ scheme) authority e = cc

-- The text that the gateway puts together.
text_lem :
    (agent host image digest query : Bytes)
    → agent
        ++ bytes "/v2/"
        ++ host
        ++ slash ∷ image
        ++ bytes "/blobs/"
        ++ digest
        ++ bytes "?"
        ++ query
      ≡ (agent ++ 47 ∷ path_of host image digest) ++ 63 ∷ query
text_lem agent host image digest query = simp append_assoc

location_lem :
    (front query : Bytes)
    → is_plain front ≡ true
    → hex_escape_non_ascii (front ++ 63 ∷ query) ≡ front ++ 63 ∷ hex_escape_non_ascii query
unfolding hex_escape_non_ascii
location_lem front query h =
    hex_escape_non_ascii-append front (63 ∷ query)
    ∙ ap (λ (x : Bytes). x ++ hex_escape_non_ascii (63 ∷ query)) (hex_escape_non_ascii_lem front h)

regrouped :
    (scheme authority path query : Bytes)
    → (agent_of scheme authority ++ 47 ∷ path) ++ 63 ∷ query
      ≡ scheme ++ 58 ∷ 47 ∷ 47 ∷ (authority ++ 47 ∷ (path ++ 63 ∷ query))
regrouped scheme authority path query = simp append_assoc

plain_path :
    (host image digest : Bytes)
    → is_plain host ≡ true
    → is_plain image ≡ true
    → is_plain digest ≡ true
    → is_plain (47 ∷ path_of host image digest) ≡ true
plain_path host image digest h i d =
    is_plain-append (47 ∷ bytes "v2/" ++ host) (slash ∷ tail_of image digest)
      (is_plain-append (47 ∷ bytes "v2/") host refl h)
      (is_plain-append (slash ∷ image) (slash ∷ (bytes "blobs" ++ slash ∷ digest))
        (is_plain-append (slash ∷ []) image refl i)
        (is_plain-append (slash ∷ bytes "blobs") (slash ∷ digest) refl
          (is_plain-append (slash ∷ []) digest refl d)))

-- For a token with an agent, whose URL is a scheme and an authority, the gateway redirects to a URL
-- of which the agent reads the path as the registry, the image and the digest that the gateway
-- resolved. The registry and the digest are single parts of a path, the digest is one of SHA-256,
-- and none of these texts has bytes that are escaped in a URL or end its path.
pub blob-parse_path :
    (c : Gateway) (r : Request) (info : PathInfo) (t : Token) (auth_data scheme authority : Bytes)
    → t.attribute.blobs_agent_url ≡ scheme ++ 58 ∷ 47 ∷ 47 ∷ authority
    → t.attribute.no_blobs_agent ≡ false
    → (contains_byte 58 scheme ≡ false) × (is_plain scheme ≡ true)
    → (contains_byte slash authority ≡ false) × (is_plain authority ≡ true)
    → (contains_byte slash info.host ≡ false) × (is_plain info.host ≡ true)
    → is_plain info.image ≡ true
    → (contains_byte slash info.blobs ≡ false)
      × (is_plain info.blobs ≡ true)
      × (has_prefix info.blobs (bytes "sha256:") ≡ true)
    → (url : Bytes) × ((path : Bytes) × ((blob c r info t auth_data ≡ redirected info url)
          × (url_path url ≡ some path)
          × (parse_path path ≡ some (info.host, info.image, info.blobs))))
unfolding blob
blob-parse_path c r info t auth_data scheme authority agent allowed s a h i d =
    let query = c.encode r.remote_addr auth_data in
    let path = path_of info.host info.image info.blobs in
    let front = agent_of scheme authority ++ 47 ∷ path in
    let plain = plain_path info.host info.image info.blobs h.1 i d.1 in
    let plain_agent : is_plain (agent_of scheme authority) ≡ true =
      is_plain-append scheme (58 ∷ 47 ∷ 47 ∷ authority) s.1
        (is_plain-append (58 ∷ 47 ∷ 47 ∷ []) authority refl a.1) in
    let url = front ++ 63 ∷ hex_escape_non_ascii query in
    (
      url,
      (
        47 ∷ path,
        (
          rw (agent, str_eq_nil (agent_of scheme authority) (there_lem scheme authority), allowed)
              (ap (λ (x : Bytes). redirected info x)
                (ap hex_escape_non_ascii
                    (text_lem (agent_of scheme authority) info.host info.image info.blobs query)
                  ∙ location_lem front query
                      (is_plain-append (agent_of scheme authority) (47 ∷ path) plain_agent plain))),
          ap url_path (regrouped scheme authority path (hex_escape_non_ascii query))
              ∙ url_path_lem scheme authority path (hex_escape_non_ascii query) s.0 a.0 plain,
          parse_path_lem info.host info.image info.blobs h.0 d.0 d.2,
        ),
      ),
    )
