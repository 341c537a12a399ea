-- ===== src/Constants.antt =====
-- src/constants.js: the defaults of the dialer, in milliseconds and counts.
use js_libp2p_swarm.Prelude.{ℕ, ◌*◌}

abbrev pub deny_ttl : ℕ
deny_ttl = 5 * 60 * 1000

abbrev pub deny_attempts : ℕ
deny_attempts = 5

abbrev pub dial_timeout : ℕ
dial_timeout = 30000

abbrev pub max_cold_calls : ℕ
max_cold_calls = 50

abbrev pub max_parallel_dials : ℕ
max_parallel_dials = 100

abbrev pub quarter_hour : ℕ
quarter_hour = 15 * 60000

abbrev pub priority_high : ℕ
priority_high = 10

abbrev pub priority_low : ℕ
priority_low = 20
