-- ===== src/Containers/Samples.antt =====
-- Containers and an order of texts for the tests.
use vps_monitor.Common.{ℕ, Text, codes, length, none, some, List, [], ◌∷◌, compare}
use vps_monitor.Containers.{ContainerInfo, pm2}
use vps_monitor.Dashboard.Listing.{Locale, Filters}

abbrev pub container : Text → Text → ℕ → ContainerInfo
container id state created = record {
  id = id;
  names = id ∷ [];
  image = codes "nginx";
  image_id = codes "sha256";
  command = codes "run";
  ports = none;
  created = created;
  state = state;
  status = codes "Up";
  labels = none;
  host = codes "local";
  runtime = none;
  pm2 = none;
  process = none;
  historical_stats = none;
}

abbrev pub web : ContainerInfo
web = container (codes "web") (codes "running") 30

abbrev pub db : ContainerInfo
db = container (codes "db") (codes "exited") 20

abbrev pub worker : ContainerInfo
worker = record (container (codes "worker") (codes "running") 10) { runtime = some pm2 }

abbrev pub three : List ContainerInfo
three = web ∷ db ∷ worker ∷ []

-- Texts by their length, without lower case.
abbrev pub by_length : Locale
by_length = record { to_lower = λ s. s; compare = λ s t. compare (length s) (length t) }

abbrev pub no_filters : Filters
no_filters = record {
  search_term = [];
  host_filter = codes "all";
  state_filter = codes "all";
  range = none;
}
