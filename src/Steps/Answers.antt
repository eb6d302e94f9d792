-- ===== src/Steps/Answers.antt =====
-- Which answers complete an HTTP step of src/steps/http.py, and how much of them it stores.
use Prim.Native.String.append
use Prim.Native.String.{◌++◌ as text_append}
use workflow_automation_engi.Steps.Http.{
  responded, timed_out, http_error, raised, Response, Request, Answer, HttpEnv, text_prefix,
  text_length, capture_body, from_response, from_answer, build_request, execute_http,
}
use workflow_automation_engi.Steps.{Jinja}
use workflow_automation_engi.Prelude.{
  ltb, leb, Bool-cases, Fields, find, Result-split, ℕ, zero, suc, ◌+◌, ◌≤◌, ◌<◌, String, ◌≡◌, refl,
  inl, inr, ◌&&◌, some, arith, int, str, ok, pos, ap, obj, field, end,
}
use workflow_automation_engi.Engine.Context.{StepInput}

text_length-append : (s t : String) → text_length (text_append s t) ≡ text_length s + text_length t
text_length-append String.[] t = rw (append.nil t) (omega arith)
text_length-append (String.◌∷◌ c s) t =
    rw (append.cons c s t) (omega (arith, text_length-append s t))

text_length-prefix : (n : ℕ) (s : String) → text_length (text_prefix n s) ≤ n
unfolding text_prefix
text_length-prefix zero s = omega arith
text_length-prefix (suc n) String.[] = omega arith
text_length-prefix (suc n) (String.◌∷◌ c s) = omega (arith, text_length-prefix n s)

module _ (env : HttpEnv) where
  text_length-capture_body :
      (text : String) → text_length (capture_body env text) ≤ env.max_response_body_size + 15
  unfolding capture_body
  text_length-capture_body text =
      elim (Bool-cases (ltb env.max_response_body_size (text_length text))) [
        | inl long ↦ rw long (
            omega (
              arith,
              text_length-append (text_prefix env.max_response_body_size text) "... [truncated]",
              text_length-prefix env.max_response_body_size text,
            ))
        | inr short ↦ rw short (ground arith)
      ]

  -- What an HTTP step that completed was answered.
  abbrev pub Succeeded : Fields → Type 0
  Succeeded output =
      (request : Request) × (response : Response) × (body : String) × (env.request request
        ≡ responded response)
      × (200 ≤ response.status_code)
      × (response.status_code < 300)
      × (find "status_code" output ≡ some (int (pos response.status_code)))
      × (find "body" output ≡ some (str body))
      × (text_length body ≤ env.max_response_body_size + 15)

  from_answer-Succeeded :
      (request : Request) (answer : Answer) (output : Fields)
      → env.request request ≡ answer
      → from_answer env request answer ≡ ok output
      → Succeeded output
  unfolding from_answer from_response find
  from_answer-Succeeded request (timed_out exc) output asked h = absurd (cc h)
  from_answer-Succeeded request (http_error exc) output asked h = absurd (cc h)
  from_answer-Succeeded request (raised exc) output asked h = absurd (cc h)
  from_answer-Succeeded request (responded response) output asked h =
      elim (Bool-cases (leb 200 response.status_code && ltb response.status_code 300)) [
        | inl success ↦
            let stored : Fields = field "status_code" (int (pos response.status_code)) (
              field "headers" (obj response.headers) (
                field "body" (str (capture_body env response.text))
                  (field "duration_ms" (int response.duration_ms) end))) in
            let e : ok stored ≡ ok output = rw success at h in
            let same : output ≡ stored = cc in
            (
              request,
              response,
              capture_body env response.text,
              asked,
              ground arith,
              ground arith,
              ap (find "status_code") same,
              ap (find "body") same,
              text_length-capture_body response.text,
            )
        | inr failure ↦ absurd (cc (rw failure at h))
      ]

  -- An HTTP step completes only on an answer with a status from 200 to 299, and what it stores is
  -- that status and a body of at most the configured size and the 15 characters of the mark.
  pub execute_http-Succeeded :
      (jinja : Jinja) (config : Fields) (context : StepInput) (output : Fields)
      → execute_http env jinja config context ≡ ok output
      → Succeeded output
  unfolding execute_http
  execute_http-Succeeded jinja config context output h =
      elim (Result-split (build_request env jinja config context)) [
        | inl (request, built) ↦
            from_answer-Succeeded request (env.request request) output refl (rw built at h)
        | inr (x, refused) ↦ absurd (cc (rw refused at h))
      ]
