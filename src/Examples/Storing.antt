-- ===== src/Examples/Storing.antt =====
-- The theorems on the cache of manifests, the size classes and the reader that seeks.
use open_cidn.Base.{
  ℕ, zero, suc, ◌+◌, ◌≤◌, ◌≡◌, ◌≢◌, refl, ap, inr, false, ◌==◌, pos, negsuc, Bytes, bytes, some,
  none, List, [], ◌∷◌, length, take, drop, if◌then◌else◌, arith,
}
use open_cidn.Maps.{get_key}
use open_cidn.Manifests.Imc.{Imc, list_imc}
use open_cidn.Manifests.Cache.{
  PathInfo, CacheValue, TagValue, DigestValue, key_eq, ManifestCache, new_manifest_cache, get, put,
}
use open_cidn.Manifests.Lookup.{by_digest, stored, get-put, get-put_undigested}
use open_cidn.Seeking.Source.{fine, eof, Source}
use open_cidn.Seeking.Seeker.{new_read_seek_closer, seek_start, read}
use open_cidn.Seeking.Alignment.{Op, reads, seeks, run, read_anywhere}

abbrev tags : Imc key_eq TagValue
tags = list_imc key_eq TagValue

abbrev digests : Imc key_eq DigestValue
digests = list_imc key_eq DigestValue

abbrev cache : ManifestCache tags digests
cache = new_manifest_cache tags digests 5

abbrev latest : PathInfo
latest = record {
  host = bytes "docker.io";
  image = bytes "library/busybox";
  manifests = bytes "latest";
  is_digest_manifests = false;
}

abbrev manifest : CacheValue
manifest = record {
  digest = bytes "sha256:1";
  media_type = bytes "json";
  length = bytes "2";
  body = bytes "{}";
  error = none;
  status_code = 200;
}

has_digest : manifest.digest ≢ []
has_digest e = cc

has_tag : latest.manifests ≢ []
has_tag e = cc

get-put_example :
    get tags digests latest (put tags digests latest manifest cache)
    ≡ some (stored (bytes "sha256:1") manifest)
get-put_example = get-put tags digests latest manifest cache (inr has_digest)

nothing_stored : get tags digests (by_digest [] latest) cache ≡ none
unfolding get new_manifest_cache get_key
nothing_stored = refl

get-put_undigested_example :
    get tags digests latest (put tags digests latest (record manifest { digest = [] }) cache) ≡ none
get-put_undigested_example =
    get-put_undigested tags digests latest (record manifest { digest = [] }) cache refl has_tag refl
      nothing_stored

length-take : (n : ℕ) (xs : Bytes) → length (take n xs) ≤ n
length-take zero xs = omega arith
length-take (suc n) [] = omega arith
length-take (suc n) (x ∷ xs) = let ih = length-take n xs in omega arith

take_twice : (n : ℕ) (xs : Bytes) → take n xs ≡ take (length (take n xs)) xs
take_twice zero xs = refl
take_twice (suc n) [] = refl
take_twice (suc n) (x ∷ xs) = ap (◌∷◌ x) (take_twice n xs)

abbrev layer : Bytes
layer = bytes "abcdef"

same_start : (n r : ℕ) → some n ≡ some r → r ≡ n
same_start n r e = cc

abbrev file : Source
file = record {
  Reader = ℕ;
  content = layer;
  open_at = λ n. some n;
  read = λ n r. record {
    data_read = take n (drop r layer);
    error = if length (take n (drop r layer)) == 0 then eof else fine;
    next = r + length (take n (drop r layer));
  };
  position = λ r. r;
  position-open_at = same_start;
  read-within = λ n r. length-take n (drop r layer);
  read-data = λ n r. take_twice n (drop r layer);
  position-read = λ n r. refl;
}

abbrev moves : List Op
moves = reads 2 ∷ seeks (negsuc 0) seek_start ∷ seeks (pos 4) seek_start ∷ []

read_anywhere_example :
    ((read file 3 (run file moves (new_read_seek_closer file 6))).0.0
      ≡ take
          (length (read file 3 (run file moves (new_read_seek_closer file 6))).0.0)
          (drop (run file moves (new_read_seek_closer file 6)).offset layer))
    × ((read file 3 (run file moves (new_read_seek_closer file 6))).1.offset
        ≡ (run file moves (new_read_seek_closer file 6)).offset
          + length (read file 3 (run file moves (new_read_seek_closer file 6))).0.0)
read_anywhere_example = read_anywhere file moves 6 3
