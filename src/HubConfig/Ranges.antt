-- ===== src/HubConfig/Ranges.antt =====
-- Whatever stands in the file: hub_config.c leaves texts that end within their arrays, and numbers in
-- their ranges.
use plat.Base.{
  ℕ, zero, suc, ◌+◌, ◌-◌, ◌≤◌, ◌≡◌, refl, Bool, false, Option, none, some, List, [], ◌∷◌, ◌++◌, leb,
  ◌==◌, drop, length, arith, if_both, Bool-cases, inl, inr,
}
use plat.Base.Int.{ℤ, pos, negsuc}
use plat.Base.Text.{Text, codes}
use plat.Json.{
  copy_string, starts_quote, read_string, quoted, next_text, json_find_key, json_get_string,
  c_string,
}
use plat.HubConfig.{
  Config, zeros, text_buffer, default_config, read_config, positive_or, qos_or, fix_config,
  FileRead, missing, unreadable, content, load_config, default_block_size,
}
use plat.HubConfig.Reader.{read_text, config_pattern}
use plat.HubConfig.Same.{read_text_lem}

-- An array of `n + 1` bytes, the last of which is 0.
abbrev pub EndsZero : ℕ → List ℕ → Type 0
EndsZero n [] = ⊥
EndsZero zero (b ∷ bs) = (b ≡ 0) × (bs ≡ [])
EndsZero (suc n) (b ∷ bs) = EndsZero n bs

EndsZero-length : (n : ℕ) (out : List ℕ) → EndsZero n out → length out ≡ n + 1
EndsZero-length n [] h = absurd h
EndsZero-length zero (b ∷ bs) (z, e) = rw e (omega arith)
EndsZero-length (suc n) (b ∷ bs) h = omega (arith, EndsZero-length n bs h)

-- Such an array holds a text.
pub EndsZero-text : (n : ℕ) (out : List ℕ) → EndsZero n out → (s : Text) × (c_string out ≡ some s)
unfolding c_string
EndsZero-text n [] h = absurd h
EndsZero-text zero (b ∷ bs) (z, e) = ([], rw (c_string, z) refl)
EndsZero-text (suc n) (b ∷ bs) h =
    let (s, e) = EndsZero-text n bs h in
    elim (Bool-cases (b == 0)) [
      | inl z ↦ ([], rw (c_string, z) refl)
      | inr z ↦ (b ∷ s, rw (c_string, z, e) refl)
    ]

copy_string-length : (room : ℕ) (p : Text) → length (copy_string room p).0 ≤ room
unfolding copy_string
copy_string-length zero p = omega arith
copy_string-length (suc room) [] = omega arith
copy_string-length (suc room) (c ∷ p) = ground (arith, copy_string-length room p)

overwrite-EndsZero :
    (n : ℕ) (copied out : List ℕ)
    → length copied ≤ n
    → EndsZero n out
    → EndsZero n (copied ++ drop (length copied) out)
      × EndsZero n (copied ++ 0 ∷ drop (suc (length copied)) out)
overwrite-EndsZero n copied [] h k = absurd k
overwrite-EndsZero zero [] (b ∷ bs) h k = (k, (refl, k.1))
overwrite-EndsZero zero (c ∷ copied) (b ∷ bs) h k = absurd (omega arith)
overwrite-EndsZero (suc n) [] (b ∷ bs) h k = (k, k)
overwrite-EndsZero (suc n) (c ∷ copied) (b ∷ bs) h k =
    overwrite-EndsZero n copied bs (omega arith) k

read_string-EndsZero :
    (n : ℕ) (p : Text) (out : List ℕ) → EndsZero n out → EndsZero n (read_string p out).1
unfolding read_string
read_string-EndsZero n p out h =
    let size = EndsZero-length n out h in
    let fits : length (copy_string (length out - 1) p).0 ≤ n =
      omega (arith, copy_string-length (length out - 1) p) in
    let (kept, ended) = overwrite-EndsZero n (copy_string (length out - 1) p).0 out fits h in
    if_both (λ (r : Bool × List ℕ). EndsZero n r.1)
      (starts_quote (copy_string (length out - 1) p).1) _ _ (λ e. ended) (λ e. kept)

quoted-EndsZero : (n : ℕ) (p : Text) (out : List ℕ) → EndsZero n out → EndsZero n (quoted p out).1
unfolding quoted
quoted-EndsZero n p out h =
    if_both (λ (r : Bool × List ℕ). EndsZero n r.1) (starts_quote p) _ _
      (λ e. read_string-EndsZero n (next_text p) out h) (λ e. h)

found-EndsZero :
    (n : ℕ) (found : Option Text) (out : List ℕ)
    → EndsZero n out
    → let r : Bool × List ℕ = elim found [ none ↦ (false, out) | some p ↦ quoted p out ] in
      EndsZero n r.1
found-EndsZero n none out h = h
found-EndsZero n (some p) out h = quoted-EndsZero n p out h

read_text-EndsZero :
    (n : ℕ) (json key : Text) (out : List ℕ) → EndsZero n out → EndsZero n (read_text json key out)
unfolding json_get_string
read_text-EndsZero n json key out h =
    rw (read_text_lem json key out) (found-EndsZero n (json_find_key config_pattern json key) out h)

text_buffer-EndsZero : (n : ℕ) (s : Text) → EndsZero n (text_buffer n s)
unfolding text_buffer
text_buffer-EndsZero zero s = (refl, refl)
text_buffer-EndsZero (suc n) [] = text_buffer-EndsZero n []
text_buffer-EndsZero (suc n) (c ∷ s) = text_buffer-EndsZero n s

zeros-EndsZero : (n : ℕ) → EndsZero n (zeros (suc n))
zeros-EndsZero zero = (refl, refl)
zeros-EndsZero (suc n) = zeros-EndsZero n

-- A configuration with arrays that end.
pub record IsTerminated (c : Config) : Type 0 where
  pub mqtt_host : EndsZero 127 c.mqtt_host
  pub mqtt_client_id : EndsZero 127 c.mqtt_client_id
  pub mqtt_username : EndsZero 127 c.mqtt_username
  pub mqtt_password : EndsZero 127 c.mqtt_password
  pub mqtt_topic_up : EndsZero 127 c.mqtt_topic_up
  pub mqtt_topic_down : EndsZero 127 c.mqtt_topic_down
  pub mqtt_topic_resp : EndsZero 127 c.mqtt_topic_resp
  pub led_dev : EndsZero 63 c.led_dev
  pub dht11_dev : EndsZero 63 c.dht11_dev
  pub video_dev : EndsZero 63 c.video_dev
  pub media_default_file : EndsZero 255 c.media_default_file

default_config-IsTerminated : IsTerminated default_config
unfolding default_config
default_config-IsTerminated = record {
  mqtt_host = text_buffer-EndsZero 127 _;
  mqtt_client_id = text_buffer-EndsZero 127 _;
  mqtt_username = zeros-EndsZero 127;
  mqtt_password = zeros-EndsZero 127;
  mqtt_topic_up = text_buffer-EndsZero 127 _;
  mqtt_topic_down = text_buffer-EndsZero 127 _;
  mqtt_topic_resp = text_buffer-EndsZero 127 _;
  led_dev = text_buffer-EndsZero 63 _;
  dht11_dev = text_buffer-EndsZero 63 _;
  video_dev = text_buffer-EndsZero 63 _;
  media_default_file = text_buffer-EndsZero 255 _;
}

read_config-IsTerminated :
    (json : Text) (c : Config) → IsTerminated c → IsTerminated (fix_config (read_config json c))
unfolding fix_config read_config
read_config-IsTerminated json c h = record {
  mqtt_host = read_text-EndsZero 127 json (codes "mqtt_host") c.mqtt_host h.mqtt_host;
  mqtt_client_id =
      read_text-EndsZero 127 json (codes "mqtt_client_id") c.mqtt_client_id h.mqtt_client_id;
  mqtt_username =
      read_text-EndsZero 127 json (codes "mqtt_username") c.mqtt_username h.mqtt_username;
  mqtt_password =
      read_text-EndsZero 127 json (codes "mqtt_password") c.mqtt_password h.mqtt_password;
  mqtt_topic_up =
      read_text-EndsZero 127 json (codes "mqtt_topic_up") c.mqtt_topic_up h.mqtt_topic_up;
  mqtt_topic_down =
      read_text-EndsZero 127 json (codes "mqtt_topic_down") c.mqtt_topic_down h.mqtt_topic_down;
  mqtt_topic_resp =
      read_text-EndsZero 127 json (codes "mqtt_topic_resp") c.mqtt_topic_resp h.mqtt_topic_resp;
  led_dev = read_text-EndsZero 63 json (codes "led_dev") c.led_dev h.led_dev;
  dht11_dev = read_text-EndsZero 63 json (codes "dht11_dev") c.dht11_dev h.dht11_dev;
  video_dev = read_text-EndsZero 63 json (codes "video_dev") c.video_dev h.video_dev;
  media_default_file =
      read_text-EndsZero 255 json (codes "media_default_file") c.media_default_file
        h.media_default_file;
}

-- The ranges of the numbers.
abbrev pub AtLeastOne : ℤ → Type 0
AtLeastOne (pos n) = 1 ≤ n
AtLeastOne (negsuc n) = ⊥

abbrev pub IsQos : ℤ → Type 0
IsQos (pos n) = n ≤ 2
IsQos (negsuc n) = ⊥

positive_or-range : (d : ℕ) (v : ℤ) → 1 ≤ d → AtLeastOne (positive_or d v)
unfolding positive_or
positive_or-range d (pos n) h = if_both AtLeastOne (n == 0) _ _ (λ e. h) (λ e. ground arith)
positive_or-range d (negsuc n) h = h

qos_or-range : (d : ℕ) (v : ℤ) → d ≤ 2 → IsQos (qos_or d v)
unfolding qos_or
qos_or-range d (pos n) h = if_both IsQos (leb n 2) _ _ (λ e. ground arith) (λ e. h)
qos_or-range d (negsuc n) h = h

pub record IsConfig (c : Config) : Type 0 where
  pub texts : IsTerminated c
  pub block_size : AtLeastOne c.pool_block_size
  pub block_count : AtLeastOne c.pool_block_count
  pub qos_report : IsQos c.mqtt_qos_report
  pub qos_control : IsQos c.mqtt_qos_control
  pub qos_response : IsQos c.mqtt_qos_response

default_config-IsConfig : IsConfig default_config
unfolding default_config
default_config-IsConfig = record {
  texts = default_config-IsTerminated;
  block_size = omega arith;
  block_count = omega arith;
  qos_report = omega arith;
  qos_control = omega arith;
  qos_response = omega arith;
}

fix_config-IsConfig :
    (json : Text) (c : Config) → IsTerminated c → IsConfig (fix_config (read_config json c))
unfolding fix_config
fix_config-IsConfig json c h = record {
  texts = read_config-IsTerminated json c h;
  block_size = positive_or-range default_block_size _ (omega arith);
  block_count = positive_or-range 4 _ (omega arith);
  qos_report = qos_or-range 0 _ (omega arith);
  qos_control = qos_or-range 1 _ (omega arith);
  qos_response = qos_or-range 1 _ (omega arith);
}

-- Whatever the file holds, and whether or not it can be read: in the configuration that
-- `hub_config_load` leaves, every text ends within its array, so that it can be read as a text, the
-- block size and the block count of the frame pool are at least 1, and each QoS is 0 to 2.
pub load_config-IsConfig : (file : FileRead) → IsConfig (load_config file).1
unfolding load_config
load_config-IsConfig missing = default_config-IsConfig
load_config-IsConfig unreadable = default_config-IsConfig
load_config-IsConfig (content []) = default_config-IsConfig
load_config-IsConfig (content (c ∷ json)) =
    fix_config-IsConfig (c ∷ json) default_config default_config-IsTerminated
