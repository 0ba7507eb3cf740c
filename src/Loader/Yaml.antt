-- ===== src/Loader/Yaml.antt =====
-- `serde_yaml::Value`; a mapping is its entries in order, keys unique, and a key may be any value.
use chasm.Prelude.{Bool, Option, some, none, if◌then◌else◌}
use chasm.Text.{Text, text_eq}
use chasm.OpenApi.{Number}

mutual
  pub data Yaml : Type 0 where
    null : Yaml
    bool : Bool → Yaml
    number : Number → Yaml
    string : Text → Yaml
    sequence : Items → Yaml
    mapping : Entries → Yaml
    tagged : Text → Yaml → Yaml

  pub data Items : Type 0 where
    nil : Items
    cons : Yaml → Items → Items

  pub data Entries : Type 0 where
    end : Entries
    entry : Yaml → Yaml → Entries → Entries

-- `Mapping::get` of a string.
unfoldable pub value_at : Entries → Text → Option Yaml
value_at end k = none
value_at (entry (string j) v es) k = if text_eq j k then some v else value_at es k
value_at (entry j v es) k = value_at es k

-- `Mapping::insert` of a string key: a key that is there keeps its place.
unfoldable pub set_value : Entries → Text → Yaml → Entries
set_value end k v = entry (string k) v end
set_value (entry (string j) w es) k v =
    let rest = set_value es k v in
    if text_eq j k then entry (string j) v es else entry (string j) w rest
set_value (entry j w es) k v = entry j w (set_value es k v)
