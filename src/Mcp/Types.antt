-- ===== src/Mcp/Types.antt =====
-- crates/agentic-vision-mcp/src/types/error.rs: the errors of the server with their JSON-RPC codes.
-- A message that the code formats is kept as the text that it begins with and the error that it
-- ends with.
use agentic_vision.Prelude.{ℕ, String, Option, some}
use agentic_vision.Prelude.Int.{ℤ, negsuc}
use agentic_vision.Vision.Result.{VisionError, VisionResult}
use agentic_vision.Vision.Result

pub data McpError : Type 0 where
  parse_error invalid_request method_not_found invalid_params internal_error : String → McpError
  request_cancelled : McpError
  content_too_large : (size limit : ℕ) → McpError
  resource_not_found tool_not_found prompt_not_found : String → McpError
  capture_not_found session_not_found : ℕ → McpError
  vision_error : (context : String) → Option VisionError → McpError
  transport : String → McpError
  io_error : McpError
  json_error : McpError
  unauthorized : McpError
  user_not_found : String → McpError

-- -32700 and so on: `negsuc n` is -(n + 1).
unfoldable pub code : McpError → ℤ
code (parse_error _) = negsuc 32699
code (invalid_request _) = negsuc 32599
code (method_not_found _) = negsuc 32600
code (invalid_params _) = negsuc 32601
code (internal_error _) = negsuc 32602
code request_cancelled = negsuc 32799
code (content_too_large _ _) = negsuc 32800
code (resource_not_found _) = negsuc 32801
code (tool_not_found _) = negsuc 32802
code (prompt_not_found _) = negsuc 32803
code (capture_not_found _) = negsuc 32849
code (session_not_found _) = negsuc 32850
code (vision_error _ _) = negsuc 32851
code (transport _) = negsuc 32602
code io_error = negsuc 32602
code json_error = negsuc 32699
code unauthorized = negsuc 32899
code (user_not_found _) = negsuc 32900

pub data McpResult {ℓ} (A : Type ℓ) : Type ℓ where
  ok : A → McpResult A
  err : McpError → McpResult A
  panic : McpResult A

-- `map_err(|e| McpError::VisionError(format!("…: {e}")))`.
abbrev pub or_vision_error {ℓ} : {A : Type ℓ} → String → VisionResult A → McpResult A
or_vision_error context (Result.ok a) = ok a
or_vision_error context (Result.err e) = err (vision_error context (some e))
or_vision_error context Result.panic = panic
