-- ===== src/Delivery/Errors.antt =====
-- src/application/errors.ts: what a caller is told of an error; src/application/request-execution.ts:
-- `assertRequestActive`; and `repositoryMemoryScope` of src/domain/repository-memory/types.ts.
use skillwire.Base.{
  ◌>>◌, ℕ, Bool, true, false, String, Option, none, some, Result, ok, error, throw_if, Failure,
  coded, ErrorCode, unauthenticated, is_sha256, ◌||◌, leb, not, ◌==◌, utf16_length,
  invalid_argument, internal, revision_unavailable, not_found, erasure_incomplete,
  resource_rejected, rate_limited, memory_conflict,
}

unfoldable pub safe_message : ErrorCode → String
safe_message unauthenticated = "Authentication is required."
safe_message invalid_argument = "The request is invalid."
safe_message not_found = "The requested item was not found."
safe_message revision_unavailable = "The exact revision is temporarily unavailable."
safe_message resource_rejected = "The requested resource was rejected."
safe_message memory_conflict = "The requested memory update cannot be applied."
safe_message erasure_incomplete = "Repository memory could not be erased."
safe_message rate_limited = "The request rate limit was exceeded."
safe_message internal = "The request could not be completed."

-- `RETRYABLE.has(code)`
unfoldable pub is_retryable : ErrorCode → Bool
is_retryable revision_unavailable = true
is_retryable erasure_incomplete = true
is_retryable rate_limited = true
is_retryable internal = true
is_retryable _ = false

-- The code of `safeSkillWireError`
unfoldable pub safe_code : Failure → ErrorCode
safe_code (coded code) = code
safe_code _ = internal

pub record ErrorEnvelope : Type 0 where
  pub code : ErrorCode
  pub message : String
  pub retryable : Bool
  pub request_id : String

-- `safeErrorEnvelope`
unfoldable pub safe_error_envelope : Failure → String → ErrorEnvelope
unfolding safe_code safe_message is_retryable
safe_error_envelope thrown request_id = record {
  code = safe_code thrown;
  message = safe_message (safe_code thrown);
  retryable = is_retryable (safe_code thrown);
  request_id = request_id;
}

-- `RequestExecution`, with whether its signal was aborted.
pub record RequestExecution : Type 0 where
  pub aborted : Bool
  pub deadline : Option ℕ

abbrev pub is_late : Option ℕ → ℕ → Bool
is_late none now = false
is_late (some deadline) now = leb deadline now

-- `assertRequestActive`, at the time `now`
unfoldable pub assert_request_active : RequestExecution → ℕ → Result (Unit {0})
assert_request_active e now = throw_if (e.aborted || is_late e.deadline now) (coded internal)

-- `assertCurrentRequestActive`, with the execution of the request that is being served, if any.
unfoldable pub assert_current_request_active : Option RequestExecution → ℕ → Result (Unit {0})
unfolding assert_request_active
assert_current_request_active none now = ok tt
assert_current_request_active (some e) now = assert_request_active e now

pub record MemoryScope : Type 0 where
  pub account_id : String
  pub repository_hash : String

unfoldable pub repository_memory_scope : String → String → Result MemoryScope
repository_memory_scope account_id repository_hash = do
  throw_if (utf16_length account_id == 0) (error "Account ID is required")
  throw_if (not (is_sha256 repository_hash))
      (error "Repository hash must be exactly 64 lowercase hexadecimal characters")
  ok (record { account_id = account_id; repository_hash = repository_hash })
