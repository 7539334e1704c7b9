-- ===== src/HubConfig.antt =====
-- smart_home_hub/src/core/hub_config.c and include/hub_config.h: the defaults, and the
-- values of a file that are put in range (its JSON reader is in Reader). A char array is the list of its bytes, and a null configuration is not
-- modelled.
pub mod Reader
pub mod Ranges
pub mod Same
mod Tests
use plat.Base.{
  ℕ, zero, suc, ◌+◌, ◌-◌, Bool, true, false, not, ◌||◌, Option, none, some, List, [], ◌∷◌, ◌++◌,
  leb, ◌==◌, if◌then◌else◌, take, length, replicate,
}
use plat.Base.Int.{ℤ, pos, negsuc}
use plat.Base.Text.{Text, codes}
use plat.HubConfig.Reader.{read_text, read_int}

-- `hub_config_t`.
pub record Config : Type 0 where
  pub mqtt_host : List ℕ
  pub mqtt_port : ℤ
  pub mqtt_client_id : List ℕ
  pub mqtt_username : List ℕ
  pub mqtt_password : List ℕ
  pub mqtt_topic_up : List ℕ
  pub mqtt_topic_down : List ℕ
  pub mqtt_topic_resp : List ℕ
  pub mqtt_qos_report : ℤ
  pub mqtt_qos_control : ℤ
  pub mqtt_qos_response : ℤ
  pub mqtt_keepalive_sec : ℤ
  pub mqtt_reconnect_sec : ℤ
  pub report_interval_sec : ℤ
  pub led_dev : List ℕ
  pub dht11_dev : List ℕ
  pub video_dev : List ℕ
  pub video_width : ℤ
  pub video_height : ℤ
  pub video_fps : ℤ
  pub pool_block_count : ℤ
  pub pool_block_size : ℤ
  pub media_default_file : List ℕ

abbrev pub zeros : ℕ → List ℕ
zeros n = replicate n 0

-- snprintf of a text into a cleared array of `n + 1` bytes.
unfoldable pub text_buffer : ℕ → Text → List ℕ
text_buffer zero s = 0 ∷ []
text_buffer (suc n) [] = 0 ∷ text_buffer n []
text_buffer (suc n) (c ∷ s) = c ∷ text_buffer n s

abbrev pub default_block_size : ℕ
default_block_size = 4147200

-- `hub_config_set_defaults`.
unfoldable pub default_config : Config
default_config = record {
  mqtt_host = text_buffer 127 (codes "127.0.0.1");
  mqtt_port = pos 1883;
  mqtt_client_id = text_buffer 127 (codes "smart_home_hub");
  mqtt_username = zeros 128;
  mqtt_password = zeros 128;
  mqtt_topic_up = text_buffer 127 (codes "/iot/up");
  mqtt_topic_down = text_buffer 127 (codes "/iot/down");
  mqtt_topic_resp = text_buffer 127 (codes "/iot/resp");
  mqtt_qos_report = pos 0;
  mqtt_qos_control = pos 1;
  mqtt_qos_response = pos 1;
  mqtt_keepalive_sec = pos 20;
  mqtt_reconnect_sec = pos 5;
  report_interval_sec = pos 5;
  led_dev = text_buffer 63 (codes "/dev/hub_led");
  dht11_dev = text_buffer 63 (codes "/dev/mydht11");
  video_dev = text_buffer 63 (codes "/dev/video0");
  video_width = pos 640;
  video_height = pos 480;
  video_fps = pos 30;
  pool_block_count = pos 4;
  pool_block_size = pos default_block_size;
  media_default_file = text_buffer 255 (codes "/root/media/test.wav");
}

-- Every value of the file in place of the one before.
unfoldable pub read_config : Text → Config → Config
read_config json c = record {
  mqtt_host = read_text json (codes "mqtt_host") c.mqtt_host;
  mqtt_port = read_int json (codes "mqtt_port") c.mqtt_port;
  mqtt_client_id = read_text json (codes "mqtt_client_id") c.mqtt_client_id;
  mqtt_username = read_text json (codes "mqtt_username") c.mqtt_username;
  mqtt_password = read_text json (codes "mqtt_password") c.mqtt_password;
  mqtt_topic_up = read_text json (codes "mqtt_topic_up") c.mqtt_topic_up;
  mqtt_topic_down = read_text json (codes "mqtt_topic_down") c.mqtt_topic_down;
  mqtt_topic_resp = read_text json (codes "mqtt_topic_resp") c.mqtt_topic_resp;
  mqtt_qos_report = read_int json (codes "mqtt_qos_report") c.mqtt_qos_report;
  mqtt_qos_control = read_int json (codes "mqtt_qos_control") c.mqtt_qos_control;
  mqtt_qos_response = read_int json (codes "mqtt_qos_response") c.mqtt_qos_response;
  mqtt_keepalive_sec = read_int json (codes "mqtt_keepalive_sec") c.mqtt_keepalive_sec;
  mqtt_reconnect_sec = read_int json (codes "mqtt_reconnect_sec") c.mqtt_reconnect_sec;
  report_interval_sec = read_int json (codes "report_interval_sec") c.report_interval_sec;
  led_dev = read_text json (codes "led_dev") c.led_dev;
  dht11_dev = read_text json (codes "dht11_dev") c.dht11_dev;
  video_dev = read_text json (codes "video_dev") c.video_dev;
  video_width = read_int json (codes "video_width") c.video_width;
  video_height = read_int json (codes "video_height") c.video_height;
  video_fps = read_int json (codes "video_fps") c.video_fps;
  pool_block_count = read_int json (codes "pool_block_count") c.pool_block_count;
  pool_block_size = read_int json (codes "pool_block_size") c.pool_block_size;
  media_default_file = read_text json (codes "media_default_file") c.media_default_file;
}

unfoldable pub positive_or : ℕ → ℤ → ℤ
positive_or d (pos n) = if n == 0 then pos d else pos n
positive_or d (negsuc n) = pos d

unfoldable pub qos_or : ℕ → ℤ → ℤ
qos_or d (pos n) = if leb n 2 then pos n else pos d
qos_or d (negsuc n) = pos d

-- The values that are put in range.
unfoldable pub fix_config : Config → Config
fix_config c = record c {
  pool_block_size = positive_or default_block_size c.pool_block_size;
  pool_block_count = positive_or 4 c.pool_block_count;
  mqtt_qos_report = qos_or 0 c.mqtt_qos_report;
  mqtt_qos_control = qos_or 1 c.mqtt_qos_control;
  mqtt_qos_response = qos_or 1 c.mqtt_qos_response;
}

-- What the file system gives: no file, a file that is empty or cannot be read whole, or its text.
pub data FileRead : Type 0 where
  missing : FileRead
  unreadable : FileRead
  content : Text → FileRead

-- `hub_config_load`: whether it returns 0, and the configuration.
unfoldable pub load_config : FileRead → Bool × Config
load_config missing = (true, default_config)
load_config unreadable = (false, default_config)
load_config (content []) = (false, default_config)
load_config (content (c ∷ json)) = (true, fix_config (read_config (c ∷ json) default_config))
