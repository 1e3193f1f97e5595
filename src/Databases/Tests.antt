-- ===== src/Databases/Tests.antt =====
-- The database browser with one instance and its databases.
use vps_monitor.Common.{codes, some, none, [], ◌∷◌, ◌≡◌, refl, text_eq}
use vps_monitor.Common.Sets.{has}
use vps_monitor.Databases.{
  DatabaseInstance, postgres, DatabaseTable, Cache, Selection, render, selected_instance,
  version_from_image, handle, instance_picked,
}
use vps_monitor.Containers.Samples.{db}
use vps_monitor.Databases.Settled.{settled, IsFound}

abbrev main : DatabaseInstance
main = record {
  id = codes "1";
  host = codes "local";
  name = codes "main";
  image = codes "postgres:16-alpine";
  state = codes "running";
  status = codes "Up";
  engine = postgres;
  container = db;
}

abbrev users : DatabaseTable
users = record { schema = some (codes "public"); name = codes "users"; type = none }

abbrev cache : Cache
cache = record {
  instances = main ∷ [];
  databases = λ i. codes "app" ∷ codes "log" ∷ [];
  tables = λ i db. users ∷ [];
}

-- The instance that was selected is gone, and so is its database.
abbrev stale : Selection
stale = record {
  selected_instance_key = codes "local:0";
  selected_database = codes "old";
  selected_table_key = codes "public.old";
}

settled_example :
    (render cache (render cache (render cache stale)) ≡ render cache (render cache stale))
    × ((selected_instance cache (render cache (render cache stale)) ≡ selected_instance cache stale)
        × IsFound cache (render cache (render cache stale)))
settled_example = settled cache stale

-- After an instance is picked, its first database and that one's first table are selected.
picked : render cache (render cache (handle (instance_picked main) stale)) ≡ record {
  selected_instance_key = codes "local:1";
  selected_database = codes "app";
  selected_table_key = codes "public.users";
}
unfolding handle render has text_eq
picked = refl

version : version_from_image (codes "postgres:16-alpine") ≡ codes "16"
unfolding version_from_image
version = refl

-- With a registry's port, the version is not the tag.
version_port : version_from_image (codes "registry:5000/postgres:16") ≡ codes "5000/postgres"
unfolding version_from_image
version_port = refl
