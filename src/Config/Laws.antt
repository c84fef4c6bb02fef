-- ===== src/Config/Laws.antt =====
-- Which configuration is loaded.
use cluster_machine_approver.Prelude.{
  ℕ, ◌≡◌, refl, ◌≢◌, List, [], ◌∷◌, String, eq_iff, Error, ok, err, arith,
}
use cluster_machine_approver.Config.{ConfigReader, default_config, load_config}

-- The file could not be used before the JSON was read into the configuration.
pub data IsUnusable (r : ConfigReader) (path : String) : Type 0 where
  no_path : path ≡ "" → IsUnusable r path
  not_read : (e : Error) → r.read_file path ≡ err e → IsUnusable r path
  empty : r.read_file path ≡ ok [] → IsUnusable r path
  no_json :
      (content : List ℕ) (e : Error)
      → r.read_file path ≡ ok content
      → r.to_json content ≡ err e
      → IsUnusable r path

-- Without a usable file the configuration is the default: the client flow is enabled.
pub load_config_unusable :
    (r : ConfigReader) (path : String) → IsUnusable r path → load_config r path ≡ default_config
unfolding load_config
load_config_unusable r path (no_path e) = ground (arith, eq_iff path "")
load_config_unusable r path (not_read e read) = ground (arith, read)
load_config_unusable r path (empty read) = ground (arith, read)
load_config_unusable r path (no_json content e read json) = ground (arith, read, json)

-- With a file that is read, is not empty and converts to JSON, the configuration is what reading the
-- JSON leaves of the default one, whether that reading fails or not.
pub load_config_usable :
    (r : ConfigReader) (path : String) (content json : List ℕ)
    → path ≢ ""
    → r.read_file path ≡ ok content
    → content ≢ []
    → r.to_json content ≡ ok json
    → load_config r path ≡ (r.unmarshal json default_config).0
unfolding load_config
load_config_usable r path [] json named read bytes converted = absurd (bytes refl)
load_config_usable r path (b ∷ bs) json named read bytes converted =
    ground (arith, eq_iff path "", named, read, converted)
