-- ===== src/Builder/Template/Data.antt =====
-- The options as the data of a template, under the names that the fields have in options.go.
use flux_operator.Base.{String, Option, none, some, List, [], ◌∷◌, Result}
use flux_operator.Builder.Options.{ComponentImage, ArtifactStorage, Sync, Options}
use flux_operator.Builder.Template.Syntax.{Template}
use flux_operator.Builder.Template.Value.{
  Value, string, bool, nil, slice, struct, Values, no_values, value, Fields, no_fields, with_field,
}
use flux_operator.Builder.Template.Run.{run}

abbrev pub fields : List (String × Value) → Fields
fields [] = no_fields
fields ((name, v) ∷ fs) = with_field name v (fields fs)

unfoldable pub texts : List String → Values
texts [] = no_values
texts (s ∷ ss) = value (string s) (texts ss)

unfoldable pub image_value : ComponentImage → Value
image_value i = struct (
    fields (
      ("Name", string i.name)
      ∷ ("Repository", string i.repository)
      ∷ ("Tag", string i.tag)
      ∷ ("Digest", string i.digest)
      ∷ []))

unfoldable pub image_values : List ComponentImage → Values
unfolding image_value
image_values [] = no_values
image_values (i ∷ is) = value (image_value i) (image_values is)

unfoldable pub storage_fields : ArtifactStorage → Fields
storage_fields s = fields (("Class", string s.class) ∷ ("Size", string s.size) ∷ [])

unfoldable pub storage_value : Option ArtifactStorage → Value
unfolding storage_fields
storage_value none = nil
storage_value (some s) = struct (storage_fields s)

unfoldable pub sync_fields : Sync → Fields
sync_fields s = fields (
    ("Name", string s.name)
    ∷ ("Kind", string s.kind)
    ∷ ("URL", string s.url)
    ∷ ("Ref", string s.ref)
    ∷ ("Path", string s.path)
    ∷ ("Interval", string s.interval)
    ∷ ("PullSecret", string s.pull_secret)
    ∷ [])

unfoldable pub sync_value : Option Sync → Value
unfolding sync_fields
sync_value none = nil
sync_value (some s) = struct (sync_fields s)

unfoldable pub data_of : Options → Value
unfolding texts image_values storage_value sync_value
data_of o = struct (
    fields (
      ("Version", string o.version)
      ∷ ("Namespace", string o.namespace)
      ∷ ("Components", slice (texts o.components))
      ∷ ("ComponentImages", slice (image_values o.component_images))
      ∷ ("EventsAddr", string o.events_addr)
      ∷ ("Registry", string o.registry)
      ∷ ("ImagePullSecret", string o.image_pull_secret)
      ∷ ("WatchAllNamespaces", bool o.watch_all_namespaces)
      ∷ ("NetworkPolicy", bool o.network_policy)
      ∷ ("LogLevel", string o.log_level)
      ∷ ("NotificationController", string o.notification_controller)
      ∷ ("ClusterDomain", string o.cluster_domain)
      ∷ ("TolerationKeys", slice (texts o.toleration_keys))
      ∷ ("Patches", string o.patches)
      ∷ ("ArtifactStorage", storage_value o.artifact_storage)
      ∷ ("Sync", sync_value o.sync)
      ∷ ("ShardingKey", string o.sharding_key)
      ∷ ("Shards", slice (texts o.shards))
      ∷ ("ShardName", string o.shard_name)
      ∷ []))

-- `Parse` and `Execute` of a template of the program on the options.
unfoldable pub render : Template → Options → Result String
unfolding run data_of
render tmpl options = run tmpl (data_of options) []
