-- ===== src/Doer/Replies.antt =====
-- What a reply is worth, and what `Do` makes of an error: the tests of `Do`, `doWithLease` and
-- `doDirect` in go-ingestion/internal/proxy/httpdo/doer.go.
use dota2_analysis.Base.{
  ℕ, ◌+◌, Bool, true, false, ◌||◌, List, ltb, leb, ◌==◌, if◌then◌else◌, length, take,
}

-- The errors of a transport, as `isProxyFault` tells them apart.
pub data NetError : Type 0 where
  certificate_invalid unknown_authority hostname record_header other_net : NetError

-- A body that is read to its end, or whose reading fails.
pub data Body : Type 0 where
  unreadable : NetError → Body
  bytes : List ℕ → Body

-- What `(*http.Client).Do` returns.
pub data Reply : Type 0 where
  unanswered : NetError → Reply
  answered : ℕ → Body → Reply

pub data DoError : Type 0 where
  ctx_done rewind_failed no_proxy_left acquire_failed bad_transport exhausted : DoError
  net_error : NetError → DoError
  proxy_status http_status rate_limited too_large : ℕ → DoError

-- A response with its status and its whole body, or an error.
pub data Done : Type 0 where
  response : ℕ → List ℕ → Done
  failed_with : DoError → Done

unfoldable pub is_proxy_fault : DoError → Bool
is_proxy_fault (net_error certificate_invalid) = true
is_proxy_fault (net_error unknown_authority) = true
is_proxy_fault (net_error hostname) = true
is_proxy_fault (net_error record_header) = true
is_proxy_fault _ = false

-- `IsPermanent` of an error that is a `permanentHTTPError`.
unfoldable pub is_permanent : DoError → Bool
is_permanent (http_status s) = s == 400 || s == 401 || s == 403 || s == 404 || s == 410
is_permanent _ = false

unfoldable pub is_rate_limited : DoError → Bool
is_rate_limited (rate_limited s) = true
is_rate_limited _ = false

abbrev pub max_response_body_bytes : ℕ
max_response_body_bytes = 52428800

-- `io.ReadAll` of at most one byte more than `limit`.
unfoldable pub read_limited : ℕ → ℕ → Body → Done
read_limited limit status (unreadable e) = failed_with (net_error e)
read_limited limit status (bytes b) =
    let got = take (limit + 1) b in
    if ltb limit (length got) then failed_with (too_large (length got)) else response status got

unfoldable pub read_body : ℕ → Body → Done
unfolding read_limited
read_body status body = read_limited max_response_body_bytes status body

-- The switch over the statuses that blame the proxy.
unfoldable pub is_proxy_status : ℕ → Bool
is_proxy_status s = s == 407 || s == 502 || s == 503 || s == 504

-- What a reply through a proxy is worth, and whether the lease is marked a success.
unfoldable pub judge : Reply → Bool × Done
unfolding is_proxy_status read_body
judge (unanswered e) = (false, failed_with (net_error e))
judge (answered status body) =
    if leb 400 status
    then if is_proxy_status status
      then (false, failed_with (proxy_status status))
      else if status == 429
      then (false, failed_with (rate_limited status))
      else (true, failed_with (http_status status))
    else elim (read_body status body) [
      | response s b ↦ (true, response s b)
      | failed_with e ↦ (false, failed_with e)
    ]

-- What a reply to a direct request is worth.
unfoldable pub judge_direct : Reply → Done
unfolding read_body
judge_direct (unanswered e) = failed_with (net_error e)
judge_direct (answered status body) =
    if leb 400 status
    then if status == 429
      then failed_with (rate_limited status)
      else failed_with (http_status status)
    else read_body status body

-- What the loop of `Do` does after an attempt.
pub data Next : Type 0 where
  stop : Done → Next
  at_once after_backoff : DoError → Next

unfoldable pub next_of : Bool → Done → Next
unfolding is_permanent is_rate_limited is_proxy_fault
next_of cancelled (response status b) = stop (response status b)
next_of cancelled (failed_with e) =
    if is_permanent e || is_rate_limited e
    then stop (failed_with e)
    else if cancelled
    then stop (failed_with ctx_done)
    else if is_proxy_fault e
    then at_once e
    else after_backoff e
