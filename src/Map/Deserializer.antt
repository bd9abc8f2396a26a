-- ===== src/Map/Deserializer.antt =====
-- runtime/src/map/deserializer.rs: `SiteMap::deserialize`. A vector's capacity is at most 2^41
-- bytes and taken to be available.
pub mod Tables
pub mod RoundTrip
use agentic_vision.Prelude.{
  ℕ, suc, ◌-◌, List, [], ◌∷◌, false, not, ◌==◌, leb, ltb, if◌then◌else◌, length, take, drop,
}
use agentic_vision.Map.Kinds.{page_type_from_u8, edge_type_from_u8}
use agentic_vision.Map.Types.{
  NodeRecord, EdgeRecord, from_u16, ActionRecord, MapHeader, SiteMap, sitemap_magic, format_version,
  feature_dim,
}
use agentic_vision.Map.Utf8.{from_utf8, from_utf8_lossy}
use agentic_vision.Map.Bytes.{
  Loaded, ok, fail, panic, ◌>>=◌, with_context, too_small, checksum_mismatch, invalid_magic,
  unsupported_version, invalid_utf8, read_uint, read_i32, read_exact, read_many,
}
use agentic_vision.Map.Crc.{crc32}

unfoldable pub read_string : ℕ → List ℕ → Loaded (List ℕ × List ℕ)
read_string n r = do
  (bytes, r) ← with_context "reading domain" (read_exact n r)
  if from_utf8 bytes
      then ok (bytes, r)
      else with_context "domain not valid utf8" (fail invalid_utf8)

-- The fields behind the version.
unfoldable pub read_header_fields : ℕ → List ℕ → Loaded (MapHeader × List ℕ)
unfolding read_string
read_header_fields magic r = do
  (domain_length, r) ← with_context "reading domain length" (read_uint 2 r)
  (domain, r) ← read_string domain_length r
  (mapped_at, r) ← with_context "reading mapped_at" (read_uint 8 r)
  (node_count, r) ← with_context "reading node_count" (read_uint 4 r)
  (edge_count, r) ← with_context "reading edge_count" (read_uint 4 r)
  (cluster_count, r) ← with_context "reading cluster_count" (read_uint 2 r)
  (flags, r) ← with_context "reading flags" (read_uint 2 r)
  ok (
    record {
      magic = magic;
      format_version = format_version;
      domain = domain;
      mapped_at = mapped_at;
      node_count = node_count;
      edge_count = edge_count;
      cluster_count = cluster_count;
      flags = flags;
    },
    r,
  )

unfoldable pub read_version : ℕ → List ℕ → Loaded (MapHeader × List ℕ)
unfolding read_header_fields
read_version magic r = do
  (version, r) ← with_context "reading version" (read_uint 2 r)
  if ltb format_version version
      then fail (unsupported_version version)
      else read_header_fields magic r

unfoldable pub read_header : List ℕ → Loaded (MapHeader × List ℕ)
unfolding read_version
read_header r = do
  (magic, r) ← with_context "reading magic" (read_uint 4 r)
  if not (magic == sitemap_magic) then fail (invalid_magic magic) else read_version magic r

unfoldable pub read_node : List ℕ → Loaded (NodeRecord × List ℕ)
read_node r = do
  (page_type, r) ← read_uint 1 r
  (confidence, r) ← read_uint 1 r
  (freshness, r) ← read_uint 1 r
  (flags, r) ← read_uint 1 r
  (content_hash, r) ← read_uint 4 r
  (rendered_at, r) ← read_uint 4 r
  (http_status, r) ← read_uint 2 r
  (depth, r) ← read_uint 2 r
  (inbound_count, r) ← read_uint 2 r
  (outbound_count, r) ← read_uint 2 r
  (feature_norm, r) ← read_uint 4 r
  (reserved, r) ← read_uint 4 r
  ok (
    record {
      page_type = page_type_from_u8 page_type;
      confidence = confidence;
      freshness = freshness;
      flags = flags;
      content_hash = content_hash;
      rendered_at = rendered_at;
      http_status = http_status;
      depth = depth;
      inbound_count = inbound_count;
      outbound_count = outbound_count;
      feature_norm = feature_norm;
      reserved = reserved;
    },
    r,
  )

unfoldable pub read_edge : List ℕ → Loaded (EdgeRecord × List ℕ)
read_edge r = do
  (target_node, r) ← read_uint 4 r
  (edge_type, r) ← read_uint 1 r
  (weight, r) ← read_uint 1 r
  (flags, r) ← read_uint 1 r
  (reserved, r) ← read_uint 1 r
  ok (
    record {
      target_node = target_node;
      edge_type = edge_type_from_u8 edge_type;
      weight = weight;
      flags = flags;
      reserved = reserved;
    },
    r,
  )

unfoldable pub read_action : List ℕ → Loaded (ActionRecord × List ℕ)
read_action r = do
  (opcode_raw, r) ← read_uint 2 r
  (target_node, r) ← read_i32 r
  (cost_hint, r) ← read_uint 1 r
  (risk, r) ← read_uint 1 r
  ok (
    record {
      opcode = from_u16 opcode_raw;
      target_node = target_node;
      cost_hint = cost_hint;
      risk = risk;
      http_executable = false;
    },
    r,
  )

abbrev pub read_vector : List ℕ → Loaded (List ℕ × List ℕ)
read_vector r = read_many (read_uint 4) feature_dim r

-- The bytes before the first 0.
unfoldable pub before_zero : List ℕ → List ℕ
before_zero [] = []
before_zero (b ∷ bs) = if b == 0 then [] else b ∷ before_zero bs

-- `url_data[offset..]` panics behind the end.
unfoldable pub read_url : List ℕ → ℕ → Loaded (List ℕ)
unfolding before_zero
read_url url_data offset =
    if leb offset (length url_data)
    then ok (from_utf8_lossy (before_zero (drop offset url_data)))
    else panic

unfoldable pub read_urls : List ℕ → List ℕ → Loaded (List (List ℕ))
unfolding read_url
read_urls url_data [] = ok []
read_urls url_data (offset ∷ offsets) = do
  url ← read_url url_data offset
  urls ← read_urls url_data offsets
  ok (url ∷ urls)

unfoldable pub read_url_table : ℕ → List ℕ → Loaded (List (List ℕ))
unfolding read_urls
read_url_table node_count r = do
  (url_data_len, r) ← read_uint 4 r
  (url_data, r) ← read_exact url_data_len r
  (offsets, r) ← read_many (read_uint 4) node_count r
  read_urls url_data offsets

unfoldable pub read_map : List ℕ → Loaded SiteMap
unfolding read_header read_node read_edge read_action read_url_table
read_map r = do
  (header, r) ← read_header r
  (nodes, r) ← read_many read_node header.node_count r
  (edges, r) ← read_many read_edge header.edge_count r
  (edge_index, r) ← read_many (read_uint 4) (suc header.node_count) r
  (features, r) ← read_many read_vector header.node_count r
  (action_count, r) ← read_uint 4 r
  (actions, r) ← read_many read_action action_count r
  (action_index, r) ← read_many (read_uint 4) (suc header.node_count) r
  (cluster_assignments, r) ← read_many (read_uint 2) header.node_count r
  (cluster_centroids, r) ← read_many read_vector header.cluster_count r
  urls ← read_url_table header.node_count r
  ok (record {
    header = header;
    nodes = nodes;
    edges = edges;
    edge_index = edge_index;
    features = features;
    actions = actions;
    action_index = action_index;
    cluster_assignments = cluster_assignments;
    cluster_centroids = cluster_centroids;
    urls = urls;
  })

-- The checksum behind the payload decides whether it is read.
unfoldable pub deserialize : List ℕ → Loaded SiteMap
unfolding read_map
deserialize bytes =
    if ltb (length bytes) 4
    then fail (too_small (length bytes))
    else let payload = take (length bytes - 4) bytes in
      do
        (stored, rest) ←
            with_context "reading checksum" (read_uint 4 (drop (length bytes - 4) bytes))
        if not (stored == crc32 payload)
            then fail (checksum_mismatch stored (crc32 payload))
            else read_map payload
