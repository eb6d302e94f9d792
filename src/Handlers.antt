-- ===== src/Handlers.antt =====
-- src/api/middleware/errors.py and the standard error answer of src/lib/utils.py: what a request
-- that raises is answered with. The `details` of an error are left out.
pub mod Ended
mod Tests
use mathlib.Core.Option.{get_or}
use workflow_automation_engi.Prelude.{
  ℕ, String, Message, Dict, AppError, Exception, app_error, other, part, get, [], ◌∷◌, nat_key,
}

pub record ErrorBody : Type 0 where
  pub code : String
  pub message : Message

-- The status and the content of the JSONResponse, which is {"error": ...}
pub record ErrorAnswer : Type 0 where
  pub status_code : ℕ
  pub error : ErrorBody

abbrev pub create_error_response : String → Message → ErrorBody
create_error_response code message = record { code = code; message = message }

unfoldable pub app_error_handler : AppError → ErrorAnswer
app_error_handler exc = record {
  status_code = exc.status_code;
  error = create_error_response exc.code exc.message;
}

abbrev pub code_map : Dict ℕ String
code_map =
    (400, "BAD_REQUEST")
    ∷ (401, "UNAUTHORIZED")
    ∷ (403, "FORBIDDEN")
    ∷ (404, "NOT_FOUND")
    ∷ (405, "METHOD_NOT_ALLOWED")
    ∷ (409, "CONFLICT")
    ∷ (422, "VALIDATION_ERROR")
    ∷ (429, "RATE_LIMIT_EXCEEDED")
    ∷ (500, "INTERNAL_ERROR")
    ∷ []

-- An HTTPException of Starlette has a status and a detail.
unfoldable pub http_exception_handler : ℕ → Message → ErrorAnswer
http_exception_handler status_code detail = record {
  status_code = status_code;
  error = create_error_response (get_or (get status_code code_map) "HTTP_ERROR") detail;
}

unfoldable pub unhandled_exception_handler : Message → ErrorAnswer
unhandled_exception_handler exc = record {
  status_code = 500;
  error = create_error_response "INTERNAL_ERROR" (part "An unexpected error occurred." ∷ []);
}

-- The handlers as src/main.py registers them for the classes of exceptions
unfoldable pub handle_exception : Exception → ErrorAnswer
unfolding app_error_handler unhandled_exception_handler
handle_exception (app_error exc) = app_error_handler exc
handle_exception (other exc) = unhandled_exception_handler exc
