-- ===== src/Streams.antt =====
-- app/registry.go: the table of the streams of agents, by project and service, with an index by
-- host. Each operation runs under the lock of the table. The stream itself and its cancel function
-- are left out of an entry.
pub mod Hosts
mod Tests
use gopher_cron.Base.{ℕ, Text, List, [], ◌∷◌, ◌++◌, eq_text, codes, Option, none, some}
use gopher_cron.Base.Map.{lookup, insert, erase}
use gopher_cron.Keys.{decimal, slash, underscore}

-- `infra.NodeMeta`, the fields that are read
pub record NodeMeta : Type 0 where
  pub region : Text
  pub system : ℕ
  pub service_name : Text
  pub host : Text
  pub port : ℕ
  pub register_time : ℕ

pub record Stream : Type 0 where
  pub create_time : ℕ
  pub host : Text
  pub port : ℕ
  pub service_name : Text
  pub region : Text
  pub system : ℕ

abbrev pub Services : Type 0
Services = List (Text × Stream)

pub record StreamManager : Type 0 where
  pub alive_srv : List (Text × Services)
  pub host_index : List (Text × (Text × Text))

unfoldable pub generate_key : ℕ → Text → Text
generate_key project_id srv_name = decimal project_id ++ slash ∷ srv_name

unfoldable pub generate_service_key : NodeMeta → Text
generate_service_key info =
    info.region
    ++ underscore
      ∷ (decimal info.system
          ++ underscore
            ∷ (info.service_name
                ++ underscore
                  ∷ (info.host
                      ++ underscore
                        ∷ (decimal info.port ++ underscore ∷ decimal info.register_time))))

abbrev pub level_one : NodeMeta → Text
level_one info = generate_key info.system info.service_name

unfoldable pub address : NodeMeta → Text
address info = info.host ++ codes ":" ++ decimal info.port

abbrev pub stream_of : NodeMeta → Stream
stream_of info = record {
  create_time = info.register_time;
  host = info.host;
  port = info.port;
  service_name = info.service_name;
  region = info.region;
  system = info.system;
}

-- a missing entry is an empty map
abbrev pub services : Option Services → Services
services none = []
services (some srv_list) = srv_list

unfoldable pub save_stream : NodeMeta → StreamManager → StreamManager
unfolding generate_service_key address
save_stream info c = record c {
  alive_srv =
      insert (level_one info)
        (insert (generate_service_key info) (stream_of info)
          (services (lookup (level_one info) c.alive_srv)))
        c.alive_srv;
  host_index = insert (address info) (level_one info, generate_service_key info) c.host_index;
}

-- The list of a service is dropped with its last stream.
unfoldable pub put_back : Text → Services → List (Text × Services) → List (Text × Services)
put_back k [] m = erase k m
put_back k (s ∷ srv_list) m = insert k (s ∷ srv_list) m

unfoldable pub remove_stream : NodeMeta → StreamManager → StreamManager
unfolding generate_service_key put_back
remove_stream info c = elim (lookup (level_one info) c.alive_srv) [
  | none ↦ c
  | some srv_list ↦ record c {
    alive_srv = put_back (level_one info) (erase (generate_service_key info) srv_list) c.alive_srv;
  }
]

unfoldable pub get_streams_by_host : Text → StreamManager → Option Stream
get_streams_by_host host c = elim (lookup host c.host_index) [
  | none ↦ none
  | some (one, two) ↦ lookup two (services (lookup one c.alive_srv))
]

unfoldable pub get_streams : ℕ → Text → StreamManager → Option Services
unfolding generate_key
get_streams system srv_name c = lookup (generate_key system srv_name) c.alive_srv
