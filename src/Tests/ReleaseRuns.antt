-- ===== src/Tests/ReleaseRuns.antt =====
-- A download whose first response is retryable.
use xui_agent.Prelude.{ℕ, zero, suc, true, false, none, [], ◌∷◌}
use xui_agent.Spool.Bytes.{Bytes}
use xui_agent.Release.{Response, status, body, Setting, download_from}
use xui_agent.Release.Retry.{Ended, download-Ended}

abbrev served : Bytes
served = 1 ∷ 2 ∷ 3 ∷ []

abbrev second_time : ℕ → Response
second_time zero = status 503
second_time (suc n) = body served none

abbrev unemptied : Setting
unemptied = record {
  response = second_time;
  waits = λ _. true;
  limit = 10;
  retry_after_write = false;
}

download-Ended_example : Ended unemptied (9 ∷ []) (download_from unemptied 3 0 (9 ∷ []))
download-Ended_example = download-Ended unemptied (9 ∷ [])
