-- ===== src/HubConfig/Tests.antt =====
-- The theorems of the configuration at concrete files.
use plat.Base.{◌≡◌, ◌++◌, replicate, arith}
use plat.Base.Int.{pos}
use plat.Base.Text.{Text, codes}
use plat.Json.{json_find_key}
use plat.HubConfig.{content, load_config, zeros}
use plat.HubConfig.Reader.{find_config_key}
use plat.HubConfig.Ranges.{IsConfig, load_config-IsConfig}
use plat.HubConfig.Same.{config_reader-same}

-- A host name that does not fit.
abbrev odd_file : Text
odd_file =
    codes "{\"pool_block_count\": -3, \"mqtt_qos_report\": 7, \"mqtt_host\":\"" ++ replicate 200 97

load_config-IsConfig_example : IsConfig (load_config (content odd_file)).1
load_config-IsConfig_example = load_config-IsConfig (content odd_file)

config_reader-same_example :
    find_config_key odd_file (codes "mqtt_host") ≡ json_find_key 64 odd_file (codes "mqtt_host")
config_reader-same_example =
    (config_reader-same odd_file (codes "mqtt_host") (zeros 128) (pos 1) (omega arith)).0
