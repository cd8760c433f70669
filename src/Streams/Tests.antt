-- ===== src/Streams/Tests.antt =====
-- Two registrations of one agent.
use gopher_cron.Base.{ℕ, codes, [], ◌≢◌}
use gopher_cron.Streams.{NodeMeta, StreamManager, generate_service_key}

abbrev agent : ℕ → NodeMeta
agent time = record {
  region = codes "r";
  system = 1;
  service_name = codes "s";
  host = codes "h";
  port = 80;
  register_time = time;
}

abbrev empty : StreamManager
empty = record { alive_srv = []; host_index = [] }

other_time : generate_service_key (agent 1) ≢ generate_service_key (agent 12)
unfolding generate_service_key gopher_cron.Keys.decimal
other_time e = cc
