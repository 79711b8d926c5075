-- ===== src/Examples/Naming.antt =====
-- The theorems on domain names and paths, for an image of gcr.io.
use open_cidn.Base.{◌≡◌, ◌≢◌, refl, true, bytes, contains_byte, some, [], ◌∷◌, ◌++◌}
use open_cidn.Gateway.Domain.{
  dot, is_domain_name, scan, scan_byte, scanned, is_name_letter, is_digit,
}
use open_cidn.Gateway.Labels.{is_name_by_labels, is_domain_name_lem}
use open_cidn.Gateway.Paths.{slash, prefix, path, parse_origin_path_info}
use open_cidn.Gateway.RoundTrip.{tags, info_of, parse_origin_path_info-path}

is_domain_name_lem_example : is_domain_name (bytes "a-1.io") ≡ is_name_by_labels (bytes "a-1.io")
is_domain_name_lem_example = is_domain_name_lem (bytes "a-1.io")

is_name : is_domain_name (bytes "gcr.io") ≡ true
unfolding is_domain_name scan scan_byte scanned is_name_letter is_digit
is_name = refl

dotted : contains_byte dot (bytes "gcr.io") ≡ true
unfolding contains_byte
dotted = refl

named : bytes "distroless" ≢ []
named e = cc

listing :
    path (info_of (bytes "gcr.io") (bytes "distroless") tags)
    ≡ some (prefix ++ bytes "distroless/tags/list")
unfolding path
listing = refl

parse_origin_path_info-path_example :
    parse_origin_path_info (prefix ++ bytes "gcr.io" ++ slash ∷ bytes "distroless/tags/list")
    ≡ some (info_of (bytes "gcr.io") (bytes "distroless") tags)
parse_origin_path_info-path_example =
    parse_origin_path_info-path (bytes "gcr.io") (bytes "distroless") (bytes "distroless/tags/list")
      tags is_name dotted named tt listing
