-- ===== src/Utils/Tests.antt =====
-- The helpers at concrete values.
use gopher_cron.Base.{
  ltb, if◌then◌else◌, ℕ, Text, codes, true, List, [], ◌∷◌, Option, none, some, ◌≡◌, ◌↔◌, arith,
}
use gopher_cron.Utils.Version.{
  compare_version, Triple, parse_triple, Before, compare_version-Before,
}
use gopher_cron.Utils.Version.Print.{Fits}
use gopher_cron.Utils.Signal.{
  Call, send_call, close_call, calls, wait_one, new_signal_channel, zero_value, wait_one-after,
}
use gopher_cron.Utils.Retry.{retry_func, Outcome, retry_func-Outcome}
use gopher_cron.Utils.Reason.{Write, back, front, AreNamed}

compare_version-Before_example : (compare_version (codes "v2.4.5") (codes "v2.5.0-beta") ≡ true) ↔ (
    (s : Triple) × (t : Triple) × (parse_triple (codes "v2.4.5") ≡ some s)
    × (parse_triple (codes "v2.5.0-beta") ≡ some t)
    × Before s t)
compare_version-Before_example = compare_version-Before (codes "v2.4.5") (codes "v2.5.0-beta")

abbrev release : Triple
release = record { major = 2; minor = 4; patch = 5 }

release-Fits : Fits release
release-Fits = omega arith

abbrev sends : List (Call ℕ)
sends = send_call 1 ∷ close_call ∷ send_call 2 ∷ []

wait_one-after_example :
    (wait_one (calls (send_call 3 ∷ []) ((wait_one (calls sends new_signal_channel)).0))).1
    ≡ zero_value
wait_one-after_example =
    wait_one-after (send_call 1) (close_call ∷ send_call 2 ∷ []) (send_call 3 ∷ [])

-- a function that fails twice
abbrev third_time : ℕ → Option Text
third_time n = if ltb n 2 then some (codes "no") else none

retry_func-Outcome_example : Outcome third_time 3 0 (retry_func third_time 3)
retry_func-Outcome_example = retry_func-Outcome third_time 3

abbrev writes : List Write
writes = back (codes "b") ∷ back (codes "c") ∷ front (codes "a") ∷ []

named_writes : AreNamed writes
named_writes = (λ e. cc, (λ e. cc, (λ e. cc, tt)))
