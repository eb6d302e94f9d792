-- ===== src/Steps/Http.antt =====
-- src/steps/http.py: a step that makes an HTTP request. The client is a parameter.
use Prim.Native.String.{◌++◌ as text_append}
use workflow_automation_engi.Steps.{Jinja, is_falsy, config_error, evaluate_expression, get_or}
use workflow_automation_engi.Prelude.{
  ◌>>◌, ltb, leb, if◌then◌else◌, ◌==◌, Value, Fields, find, length, ℤ, Exception, Result, ◌>>=◌,
  raise_f, Dict, codes, ℕ, zero, suc, String, ◌&&◌, Option, none, some, [], ◌∷◌, null, int, str,
  obj, field, end, ok, err, other, part, shown, pos, string_key,
}
use workflow_automation_engi.Engine.Context.{StepInput}

pub record Response : Type 0 where
  pub status_code : ℕ
  pub headers : Fields
  pub text : String
  pub duration_ms : ℤ

-- How `client.request(...)` ends; `raised` is an exception that is none of httpx's.
pub data Answer : Type 0 where
  responded : Response → Answer
  timed_out http_error : String → Answer
  raised : Exception → Answer

pub record Request : Type 0 where
  pub method : String
  pub url : String
  pub headers : Dict String String
  pub content : Option String
  pub timeout : Value

-- `str.upper`, the text of a value, the client, and the two settings.
pub record HttpEnv : Type 0 where
  pub upper : String → String
  pub text_of : Value → String
  pub request : Request → Answer
  pub max_response_body_size : ℕ
  pub http_step_timeout : Value

-- `text[:n]` and `len(text)`
unfoldable pub text_prefix : ℕ → String → String
text_prefix zero s = ""
text_prefix (suc n) String.[] = ""
text_prefix (suc n) (String.◌∷◌ c s) = String.◌∷◌ c (text_prefix n s)

abbrev pub text_length : String → ℕ
text_length s = length (codes s)

method_of : HttpEnv → Option Value → Result String
method_of env none = ok (env.upper "GET")
method_of env (some (str s)) = ok (env.upper s)
method_of env (some _) = err (other (part "object has no attribute 'upper'" ∷ []))

with_header : String → String → Result (Dict String String) → Result (Dict String String)
with_header key value (ok rest) = ok ((key, value) ∷ rest)
with_header key value (err x) = err x

rendered_fields : Jinja → StepInput → Fields → Result (Dict String String)
unfolding with_header
rendered_fields jinja context end = ok []
rendered_fields jinja context (field key template headers) =
    evaluate_expression jinja template context >>= λ value.
    with_header key value (rendered_fields jinja context headers)

-- `_render_headers`
unfoldable pub render_headers : Jinja → StepInput → Value → Result (Dict String String)
unfolding rendered_fields is_falsy
render_headers jinja context (obj headers) = rendered_fields jinja context headers
render_headers jinja context v =
    if is_falsy v then ok [] else err (other (part "object has no attribute 'items'" ∷ []))

-- `_render_body`
unfoldable pub render_body : Jinja → StepInput → Option Value → Result (Option String)
unfolding is_falsy
render_body jinja context none = ok none
render_body jinja context (some body) =
    if is_falsy body
    then ok none
    else (evaluate_expression jinja body context >>= λ result. ok (some result))

-- `body.encode("utf-8") if body else None`
content_of : Option String → Option String
content_of none = none
content_of (some body) = if body == "" then none else some body

module _ (env : HttpEnv) where
  unfoldable pub capture_body : String → String
  unfolding text_prefix
  capture_body text =
      if ltb env.max_response_body_size (text_length text)
      then text_append (text_prefix env.max_response_body_size text) "... [truncated]"
      else text

  -- Only 2xx responses complete the step.
  unfoldable pub from_response : Request → Response → Result Fields
  unfolding capture_body
  from_response request response =
      let response_body = capture_body response.text in
      if leb 200 response.status_code && ltb response.status_code 300
      then ok (
          field "status_code" (int (pos response.status_code)) (
            field "headers" (obj response.headers) (
              field "body" (str response_body)
                (field "duration_ms" (int response.duration_ms) end))))
      else raise_f "HTTP_STEP_ERROR"
          (part "HTTP "
            ∷ part request.method
            ∷ part " "
            ∷ part request.url
            ∷ part " returned "
            ∷ shown response.status_code
            ∷ part ": "
            ∷ part (text_prefix 200 response_body)
            ∷ [])
          502

  unfoldable pub from_answer : Request → Answer → Result Fields
  unfolding from_response
  from_answer request (responded response) = from_response request response
  from_answer request (timed_out exc) =
      raise_f "HTTP_STEP_TIMEOUT"
        (part "HTTP request timed out after "
          ∷ part (env.text_of request.timeout)
          ∷ part "s: "
          ∷ part exc
          ∷ [])
        504
  from_answer request (http_error exc) =
      raise_f "HTTP_STEP_ERROR" (part "HTTP request failed: " ∷ part exc ∷ []) 502
  from_answer request (raised exc) = err exc

  module _ (jinja : Jinja) where
    -- Lines 53 to 83: the request that is made.
    unfoldable pub build_request : Fields → StepInput → Result Request
    unfolding method_of render_headers render_body content_of
    build_request config context = do
      let url_template = get_or (find "url" config) null
      if is_falsy url_template then config_error "HTTP step requires 'url' in config." else ok tt
      method ← method_of env (find "method" config)
      let timeout = get_or (find "timeout_seconds" config) env.http_step_timeout
      url ← evaluate_expression jinja url_template context
      headers ← render_headers jinja context (get_or (find "headers" config) (obj end))
      body ← render_body jinja context (find "body" config)
      ok (record {
        method = method;
        url = url;
        headers = headers;
        content = content_of body;
        timeout = timeout;
      })

    -- `HttpExecutor.execute`
    unfoldable pub execute_http : Fields → StepInput → Result Fields
    unfolding build_request from_answer
    execute_http config context = do
      request ← build_request config context
      from_answer request (env.request request)
