-- ===== src/Map/Deserializer/RoundTrip.antt =====
-- Writing and reading back a site map (runtime/src/map/serializer.rs and deserializer.rs).
use agentic_vision.Prelude.{
  ℕ, suc, ◌+◌, ◌-◌, ◌^◌, ◌%◌, ◌≡◌, ◌<◌, refl, ap, ◌∙◌, List, [], ◌∷◌, ◌++◌, map, append_assoc,
  append-nil, true, false, arith, length, All, not, ◌==◌, length-append, take-append_length,
  drop-append_length, ltb, if◌then◌else◌, le→ltb_false, map,
}
use agentic_vision.Prelude.Bytes.{to_le_bytes, length-to_le_bytes}
use agentic_vision.Map.Types.{SiteMap, MapHeader, sitemap_magic, format_version}
use agentic_vision.Map.Bytes.{
  ok, fail, read_uint, write_many, read_many-write_many, map_same, FitsBytes, read_uint-write_uint,
  read_exact-append, checksum_mismatch,
}
use agentic_vision.Map.Crc.{crc32, crc32-lt}
use agentic_vision.Map.Serializer.{
  write_header, url_data_of, url_offsets, write_urls, write_to, serialize,
}
use agentic_vision.Map.Deserializer.{
  read_string, read_header_fields, read_version, read_header, read_urls, read_url_table, read_map,
  deserialize,
}
use agentic_vision.Map.Utf8.{from_utf8}
use agentic_vision.Map.Serializer.Fits.{IsUrl, FitsHeader, IsWellFormed}
use agentic_vision.Map.Deserializer.Tables.{
  read_uints, read_vectors, node-Restores, edge-Restores, action-Restores, without_http,
  read_url_lem,
}

read_urls_lem :
    (before : List ℕ) (urls : List (List ℕ))
    → All IsUrl urls
    → length before + length (url_data_of urls) < 2 ^ 32
    → read_urls (before ++ url_data_of urls) (url_offsets (length before) urls) ≡ ok urls
unfolding read_urls url_offsets write_many
read_urls_lem before [] h fits = refl
read_urls_lem before (url ∷ urls) h fits =
    let data_left = url_data_of urls in
    let size = length-append url (0 ∷ data_left) in
    let next = before ++ (url ++ 0 ∷ []) in
    let next_size : length next ≡ length before + (length url + 1) =
      length-append before (url ++ 0 ∷ [])
      ∙ ap (λ t. length before + t) (length-append url (0 ∷ [])) in
    let regroup : next ++ data_left ≡ before ++ (url ++ 0 ∷ data_left) =
      append_assoc before (url ++ 0 ∷ []) data_left
      ∙ ap (λ t. before ++ t) (append_assoc url (0 ∷ []) data_left) in
    let small : length before % 2 ^ 32 ≡ length before = omega arith in
    let ih = read_urls_lem next urls h.1 (omega (arith, next_size, size)) in
    let rest_read : read_urls (before ++ (url ++ 0 ∷ data_left))
          (url_offsets (length before + (length url + 1)) urls)
        ≡ ok urls =
      rw (next_size, regroup) at ih in
    rw (small, read_url_lem before url data_left h.0, rest_read) refl

offsets-FitsBytes :
    (at_byte : ℕ) (urls : List (List ℕ)) → All (FitsBytes 4) (url_offsets at_byte urls)
unfolding url_offsets
offsets-FitsBytes at_byte [] = tt
offsets-FitsBytes at_byte (url ∷ urls) =
    (omega arith, offsets-FitsBytes (at_byte + (length url + 1)) urls)

length-url_offsets :
    (at_byte : ℕ) (urls : List (List ℕ)) → length (url_offsets at_byte urls) ≡ length urls
unfolding url_offsets
length-url_offsets at_byte [] = refl
length-url_offsets at_byte (url ∷ urls) =
    ap suc (length-url_offsets (at_byte + (length url + 1)) urls)

-- The table of URLs.
read_url_table_lem :
    (n : ℕ) (urls : List (List ℕ))
    → length urls ≡ n
    → All IsUrl urls
    → FitsBytes 4 (length (url_data_of urls))
    → read_url_table n (write_urls urls) ≡ ok urls
unfolding read_url_table write_urls
read_url_table_lem n urls e h fits =
    let bytes = url_data_of urls in
    let offsets = url_offsets 0 urls in
    rw
      (
        read_uint-write_uint 4 (length bytes) _ fits,
        read_exact-append bytes _ (length bytes) refl,
        read_uints 4 n offsets [] (length-url_offsets 0 urls ∙ e) (offsets-FitsBytes 0 urls),
      )
      (read_urls_lem [] urls h (omega arith))

read_string_lem :
    (bytes rest : List ℕ)
    → from_utf8 bytes ≡ true
    → read_string (length bytes) (bytes ++ rest) ≡ ok (bytes, rest)
unfolding read_string
read_string_lem bytes rest h = rw (read_exact-append bytes rest (length bytes) refl, h) refl

-- The header that is read: the version is that of the code.
abbrev pub current : MapHeader → MapHeader
current header = record {
  magic = header.magic;
  format_version = format_version;
  domain = header.domain;
  mapped_at = header.mapped_at;
  node_count = header.node_count;
  edge_count = header.edge_count;
  cluster_count = header.cluster_count;
  flags = header.flags;
}

read_header_lem :
    (site : SiteMap) (rest : List ℕ)
    → FitsHeader site
    → read_header (write_header site.header rest) ≡ ok (current site.header, rest)
unfolding read_header read_version read_header_fields write_header
read_header_lem site rest h =
    let magic_fits : FitsBytes 4 site.header.magic = omega (arith, h.magic) in
    let version_fits : FitsBytes 2 site.header.format_version = omega (arith, h.version) in
    let no_later : ltb format_version site.header.format_version ≡ false =
      le→ltb_false _ _ (omega (arith, h.version)) in
    let known : (site.header.magic == sitemap_magic) ≡ true = ground (arith, h.magic) in
    rw
      (
        read_uint-write_uint 4 site.header.magic _ magic_fits,
        known,
        read_uint-write_uint 2 site.header.format_version _ version_fits,
        no_later,
        read_uint-write_uint 2 (length site.header.domain) _ h.domain_length,
        read_string_lem site.header.domain _ h.domain,
        read_uint-write_uint 8 site.header.mapped_at _ h.mapped_at,
        read_uint-write_uint 4 site.header.node_count _ h.node_count,
        read_uint-write_uint 4 site.header.edge_count _ h.edge_count,
        read_uint-write_uint 2 site.header.cluster_count _ h.cluster_count,
        read_uint-write_uint 2 site.header.flags _ h.flags,
      )
      refl

-- What a file of `site` holds: not whether actions can be executed over HTTP, and the version is
-- that of the code.
abbrev pub stored : SiteMap → SiteMap
stored site = record {
  header = current site.header;
  nodes = site.nodes;
  edges = site.edges;
  edge_index = site.edge_index;
  features = site.features;
  actions = map without_http site.actions;
  action_index = site.action_index;
  cluster_assignments = site.cluster_assignments;
  cluster_centroids = site.cluster_centroids;
  urls = site.urls;
}

read_map-write_to :
    (site : SiteMap) → IsWellFormed site → read_map (write_to site) ≡ ok (stored site)
unfolding read_map write_to
read_map-write_to site h =
    let n = site.header.node_count in
    rw
      (
        read_header_lem site _ h.header,
        read_many-write_many node-Restores n site.nodes _ h.counts.nodes h.nodes,
        map_same site.nodes,
        read_many-write_many edge-Restores site.header.edge_count site.edges _ h.counts.edges
            h.edges,
        map_same site.edges,
        read_uints 4 (suc n) site.edge_index _ h.counts.edge_index h.edge_index,
        read_vectors n site.features _ h.counts.features h.features,
        read_uint-write_uint 4 (length site.actions) _ h.counts.actions,
        read_many-write_many action-Restores (length site.actions) site.actions _ refl h.actions,
        read_uints 4 (suc n) site.action_index _ h.counts.action_index h.action_index,
        read_uints 2 n site.cluster_assignments _ h.counts.assignments h.assignments,
        read_vectors site.header.cluster_count site.cluster_centroids _ h.counts.centroids
            h.centroids,
        read_url_table_lem n site.urls h.counts.urls h.urls h.counts.url_bytes,
      )
      refl

-- The end of a file is the checksum of what stands before it.
module _ (payload tail : List ℕ) (four : length tail ≡ 4) where
  long : ltb (length (payload ++ tail)) 4 ≡ false
  long = le→ltb_false _ _ (omega (arith, four, length-append payload tail))

  start : length (payload ++ tail) - 4 ≡ length payload
  start = omega (arith, four, length-append payload tail)

  -- A file is read if the checksum is right, and refused with both checksums if not.
  pub deserialize_lem :
      (checksum : ℕ)
      → tail ≡ to_le_bytes 4 checksum
      → FitsBytes 4 checksum
      → deserialize (payload ++ tail) ≡ (
          if not (checksum == crc32 payload)
          then fail (checksum_mismatch checksum (crc32 payload))
          else read_map payload)
  unfolding deserialize
  deserialize_lem checksum e fits =
      let checksum_read : read_uint 4 tail ≡ ok (checksum, []) =
        rw (e, ← append-nil (to_le_bytes 4 checksum)) (read_uint-write_uint 4 checksum [] fits) in
      rw
        (
          long,
          start,
          take-append_length payload tail,
          drop-append_length payload tail,
          checksum_read,
        )
        refl

pub deserialize-serialize :
    (site : SiteMap) → IsWellFormed site → deserialize (serialize site) ≡ ok (stored site)
unfolding serialize
deserialize-serialize site h =
    let payload = write_to site in
    let crc = crc32 payload in
    let same : (crc == crc) ≡ true = ground arith in
    deserialize_lem payload (to_le_bytes 4 crc) (length-to_le_bytes 4 crc) crc refl
      (omega (arith, crc32-lt payload))
    ∙ rw same (read_map-write_to site h)
