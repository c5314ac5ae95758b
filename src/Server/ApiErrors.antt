-- ===== src/Server/ApiErrors.antt =====
-- crates/flaps-server/src/error.rs, without the bytes of the body: its `detail` texts and the problem's URL prefix.
use Prim.Native.String.{◌++◌}
use flaps.Prelude.{ℕ, String, Option, none, some}
use flaps.Compiler.Errors.{CompileError}

-- `StoreError` of crates/flaps-store/src/error.rs, with the texts of the errors that it wraps.
pub data StoreError : Type 0 where
  sqlx serialization migrate conflict : String → StoreError
  not_found foreign_key_violation : StoreError

pub data ApiError : Type 0 where
  unauthorized forbidden not_found precondition_failed : ApiError
  invalid_body conflict internal : String → ApiError
  validation : CompileError → ApiError
  too_many_requests : ℕ → ApiError

-- `to_string()` of a store error.
abbrev pub show_store_error : StoreError → String
show_store_error (StoreError.sqlx text) = "database error: " ++ text
show_store_error (StoreError.serialization text) = "serialization error: " ++ text
show_store_error (StoreError.migrate text) = "migration error: " ++ text
show_store_error StoreError.not_found = "entity not found"
show_store_error (StoreError.conflict text) = "conflict: " ++ text
show_store_error StoreError.foreign_key_violation = "referenced entity does not exist"

-- `ApiError::from(StoreError)`
unfoldable pub from_store_error : StoreError → ApiError
from_store_error (StoreError.conflict text) = conflict text
from_store_error StoreError.not_found = not_found
from_store_error StoreError.foreign_key_violation = not_found
from_store_error other = internal (show_store_error other)

pub record Problem : Type 0 where
  pub status : ℕ
  pub type_suffix : String
  pub title : String
  pub retry_after : Option ℕ

-- `into_response`
unfoldable pub into_response : ApiError → Problem
into_response unauthorized = record {
  status = 401;
  type_suffix = "unauthorized";
  title = "Unauthorized";
  retry_after = none;
}
into_response forbidden = record {
  status = 403;
  type_suffix = "forbidden";
  title = "Forbidden";
  retry_after = none;
}
into_response (invalid_body text) = record {
  status = 422;
  type_suffix = "invalid-body";
  title = "Invalid request body";
  retry_after = none;
}
into_response (validation e) = record {
  status = 400;
  type_suffix = "validation-error";
  title = "Compile validation failed";
  retry_after = none;
}
into_response not_found = record {
  status = 404;
  type_suffix = "not-found";
  title = "Resource not found";
  retry_after = none;
}
into_response (conflict text) = record {
  status = 409;
  type_suffix = "conflict";
  title = "Conflict";
  retry_after = none;
}
into_response precondition_failed = record {
  status = 412;
  type_suffix = "precondition-failed";
  title = "Precondition failed";
  retry_after = none;
}
into_response (too_many_requests seconds) = record {
  status = 429;
  type_suffix = "too-many-requests";
  title = "Too many requests";
  retry_after = some seconds;
}
into_response (internal text) = record {
  status = 500;
  type_suffix = "internal-error";
  title = "Internal server error";
  retry_after = none;
}
