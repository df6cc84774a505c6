-- ===== src/Psi/Client.antt =====
-- lib/psi/client.ts: which answers of the PageSpeed Insights API are worth another attempt. The
-- answer of `fetch` is an argument: its status, its text, and what `JSON.parse` makes of the text.
use Prim.Native.Char.{code}
use Prim.Native.String
use pagespeed_auditor.Prelude.{
  ℕ, zero, suc, ◌+◌, ◌-◌, ◌*◌, ◌/◌, ◌^◌, min, String, Bool, false, not, ◌&&◌, ◌||◌, Option, none,
  some, leb, ltb, ◌==◌, if◌then◌else◌, same, or_else, is_some,
}
use pagespeed_auditor.Run.Scope.{trim_start}
use pagespeed_auditor.Psi.Response.{PsiResponse, PsiLighthouseResult}

-- The `retry-after` header as `Number` and `Date.parse` read it.
pub data RetryAfter : Type 0 where
  in_seconds : ℕ → RetryAfter
  at_time : (ms : ℕ) → RetryAfter
  unreadable : RetryAfter

-- `body?.error`, of a body that is JSON
pub record ErrorBody : Type 0 where
  pub message : String
  pub reason : String

pub record HttpReply : Type 0 where
  pub status : ℕ
  pub text : String
  pub error_body : Option ErrorBody
  pub parsed : Option PsiResponse
  pub retry_after : Option RetryAfter

pub data Fetched : Type 0 where
  unreachable : (message : String) → Fetched
  replied : HttpReply → Fetched

pub data PsiFetchResult : Type 0 where
  fetched : PsiResponse → PsiFetchResult
  retryable : (status : Option ℕ) (retry_after_ms : Option ℕ) (message : String) → PsiFetchResult
  permanent : (status : ℕ) (message : String) → PsiFetchResult
  content : (code message : String) → PsiFetchResult

unfoldable pub parse_retry_after : (now : ℕ) → Option RetryAfter → Option ℕ
parse_retry_after now none = none
parse_retry_after now (some (in_seconds s)) = some (s * 1000)
parse_retry_after now (some (at_time t)) = some (t - now)
parse_retry_after now (some unreadable) = none

-- A code that is there and not empty.
abbrev pub is_truthy : Option String → Bool
is_truthy none = false
is_truthy (some code) = not (same code "")

abbrev pub is_complete : Option PsiLighthouseResult → Bool
is_complete none = false
is_complete (some lr) =
    is_truthy lr.runtime_error_code || is_some lr.categories && is_some lr.audits

unfoldable pub looks_complete : PsiResponse → Bool
looks_complete res = is_complete res.lighthouse_result

unfoldable pub strip_prefix : String → String → Option String
strip_prefix String.[] s = some s
strip_prefix (String.◌∷◌ c p) String.[] = none
strip_prefix (String.◌∷◌ c p) (String.◌∷◌ d s) = if code c == code d then strip_prefix p s else none

abbrev chars : String → ℕ
chars String.[] = 0
chars (String.◌∷◌ c s) = suc (chars s)

-- `text.split(apiKey).join('[redacted]')`. A round takes at least one character, so the number of
-- characters is fuel enough.
redact_from : ℕ → String → String → String
redact_from zero key s = s
redact_from (suc n) key String.[] = String.[]
redact_from (suc n) key (String.◌∷◌ c s) = elim (strip_prefix key (String.◌∷◌ c s)) [
  | some rest ↦ String.◌++◌ "[redacted]" (redact_from n key rest)
  | none ↦ String.◌∷◌ c (redact_from n key s)
]

unfoldable pub redact_key : (text api_key : String) → String
unfolding redact_from strip_prefix
redact_key text api_key = if same api_key "" then text else redact_from (chars text) api_key text

abbrev slice : ℕ → String → String
slice zero s = String.[]
slice (suc n) String.[] = String.[]
slice (suc n) (String.◌∷◌ c s) = String.◌∷◌ c (slice n s)

abbrev is_code : ℕ → Bool
is_code c = leb b'A' c && leb c b'Z' || c == b'_'

abbrev take_code : String → String
take_code String.[] = String.[]
take_code (String.◌∷◌ c s) = if is_code (code c) then String.◌∷◌ c (take_code s) else String.[]

abbrev non_empty : String → Option String
non_empty s = if same s "" then none else some s

abbrev code_here : Option String → Option String
code_here none = none
code_here (some rest) = non_empty (take_code (trim_start rest))

-- The first match of /Lighthouse returned error:\s*([A-Z_]+)/.
unfoldable pub lighthouse_code : String → Option String
lighthouse_code String.[] = none
lighthouse_code (String.◌∷◌ c s) =
    let rest = lighthouse_code s in
    elim (code_here (strip_prefix "Lighthouse returned error:" (String.◌∷◌ c s))) [
      | some found ↦ some found
      | none ↦ rest
    ]

abbrev or_text : String → String → String
or_text s d = if same s "" then d else s

abbrev api_message : HttpReply → String
api_message r = elim r.error_body [ none ↦ slice 200 r.text | some b ↦ b.message ]

abbrev pub api_reason : HttpReply → String
api_reason r = elim r.error_body [ none ↦ "" | some b ↦ b.reason ]

abbrev pub is_ok_status : ℕ → Bool
is_ok_status s = leb 200 s && ltb s 300

-- `HTTP ${status}`, with the decimal spelling as an argument.
unfoldable pub classify_error :
    (spell : ℕ → String) (now : ℕ) → (api_key : String) → HttpReply → PsiFetchResult
unfolding redact_key
classify_error spell now api_key r =
    let message = redact_key (api_message r) api_key in
    let fallback = String.◌++◌ "HTTP " (spell r.status) in
    if r.status == 400 && same (api_reason r) "lighthouseUserError"
    then content (or_else (lighthouse_code message) "LIGHTHOUSE_ERROR")
        (or_text message "Lighthouse could not measure this page")
    else if r.status == 429 || leb 500 r.status
    then retryable (some r.status) (parse_retry_after now r.retry_after) (or_text message fallback)
    else permanent r.status (or_text message fallback)

abbrev pub classify_body : Option PsiResponse → PsiFetchResult
classify_body none = retryable (some 200) none "malformed JSON body"
classify_body (some res) =
    if looks_complete res then fetched res else retryable (some 200) none "incomplete response body"

unfoldable pub run_pagespeed :
    (spell : ℕ → String) (now : ℕ) → (api_key : String) → Fetched → PsiFetchResult
unfolding classify_error looks_complete
run_pagespeed spell now api_key (unreachable m) =
    retryable none none (redact_key (String.◌++◌ "network: " m) api_key)
run_pagespeed spell now api_key (replied r) =
    if is_ok_status r.status then classify_body r.parsed else classify_error spell now api_key r

-- `15 * 60_000`, the longest wait of backoffMs before its jitter, and of sleepMs
abbrev pub fifteen_minutes : ℕ
fifteen_minutes = 900_000

-- The ceiling of a wait before its jitter, in milliseconds: 30 s, doubled, at most 15 minutes.
unfoldable pub backoff_base : (attempt : ℕ) → ℕ
backoff_base attempt = min (30_000 * 2 ^ (attempt - 1)) fifteen_minutes

-- `rand` is in thousandths, below 1000.
unfoldable pub backoff_ms : (attempt rand : ℕ) → ℕ
unfolding backoff_base
backoff_ms attempt rand = (2 * (backoff_base attempt * (500 + rand)) + 1000) / 2000
