-- ===== src/Lib.antt =====
-- Verification of agentic-vision, a visual memory and a web runtime for agents, written in Rust.
--
-- The crate agentic-vision keeps observations of images in a store
-- (crates/agentic-vision/src/types.rs: the types in Vision.Types and Vision.Result, the methods
-- in Vision.Store), writes the store to .avis files and reads it back (storage.rs beside it:
-- Vision.Storage, and Vision.Files for the file that it is done to), compares two captures pixel
-- by pixel and reports the regions that changed (diff.rs: Vision.Diff), and ranks observations by
-- the cosine of their embeddings (similarity.rs: Vision.Similarity). Functions keep their names;
-- the methods of a type are the functions of its module.
--
-- The crate agentic-vision-mcp serves the store over MCP. Its session manager
-- (crates/agentic-vision-mcp/src/session/manager.rs: Mcp.Session, the methods that only read in
-- Mcp.Session.Reads, the errors in Mcp.Types) holds a store, opens and saves its file, and calls
-- the other parts. A method takes the manager and the world, which is the file with the answers
-- of the file system and the two clocks, and returns both with its result, also on an error.
--
-- The runtime answers queries in WQL over the sites that it has mapped (runtime/src/wql: Wql).
-- parser.rs is Wql.Syntax, Wql.Chars and Wql.Tokenizer for the characters, and Wql.Names and
-- Wql.Parser for the tokens, with the positions as what is left of them; Wql.Written says how a
-- query is written, which the code has no function for. planner.rs is Wql.Planner and executor.rs
-- Wql.Executor; Wql.Pipeline describes the result of both without their steps, and Wql.Conditions
-- what a condition asks of a row.
--
-- A site is kept as a map of its pages, links and actions (runtime/src/map: Map). types.rs is
-- Map.Kinds and Map.Types; the file of a map is written by Map.Serializer (serializer.rs) and
-- read by Map.Deserializer (deserializer.rs), with the bytes in Map.Bytes, the checksum in
-- Map.Crc and the standard library's reading of UTF-8 in Map.Utf8. builder.rs is Map.Builder for
-- the calls, Map.Build for `build`, and Map.Clusters for the k-means clusters; reader.rs is
-- Map.Reader for the reads by index and the update, Map.Queries and Map.Nearest for `filter` and
-- `nearest`, and Map.Paths for `shortest_path`, which navigation/pathfinder.rs calls.
-- runtime/src/collective/delta.rs, the deltas between two versions of a map, is Collective.Delta,
-- and Collective.Strip what is removed before a map is shared.
--
-- Numbers are natural numbers, and a sum that can pass the end of its type is written with its
-- wrap-around, as in a release build. A float is its bit pattern, and what the code computes with
-- floats is a parameter; so are serde_json, the crates image, base64 and ort, and the operating
-- system. What is asked of them stands in the hypotheses: that serde_json reads back a store with
-- finite embeddings, and that the comparison of floats is an order on numbers.
--
-- The loops of diff.rs run over their own ranges. The merging loop has as fuel the number of
-- rectangles: a round that merges leaves fewer of them. The loops of the WQL tokenizer and parser
-- and the recursion of its conditions have one more round than there are characters or tokens,
-- and each takes one at least. The search for a path has a round for each edge and two more,
-- since a node is expanded once. The other functions are structural.
--
-- Not modelled: the registry of maps, platform capture, thumbnails and the embedding model, the
-- transports, tools, resources and prompts of the server, and the web runtime in runtime/ except
-- for what is named above; the clients in other languages.
pub mod Prelude
pub mod Collective
pub mod Map
pub mod Mcp
pub mod Vision
pub mod Wql
