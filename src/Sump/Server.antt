-- ===== src/Sump/Server.antt =====
-- The listening socket of sump_server.c: init, start, stop and the connections that its thread accepts.
-- The socket calls are given by their results; a result is 0, or n for -n.
use plat.Base.{ℕ, Bool, true, false, not, ◌&&◌, Option, none, some, List, ◌∷◌, ◌==◌, if◌then◌else◌}
use plat.Base.Text.{Text, codes}

pub record ServerConfig : Type 0 where
  pub bind_ip : Option Text
  pub port : ℕ
  pub capture_samples : ℕ

-- `edt_sump_server_t` without its analyser and its thread. A descriptor that is -1 is `none`.
pub record Server : Type 0 where
  pub bind_ip : Text
  pub port : ℕ
  pub capture_samples : ℕ
  pub running : Bool
  pub listen_fd : Option ℕ

abbrev any_address : Text
any_address = codes "0.0.0.0"

-- A number of the configuration, or what stands in for 0.
unfoldable pub or_default : ℕ → ℕ → ℕ
or_default value d = if value == 0 then d else value

unfoldable pub server_init : Option ServerConfig → Server
server_init none = record {
  bind_ip = any_address;
  port = 9527;
  capture_samples = 4096;
  running = false;
  listen_fd = none;
}
server_init (some c) = record {
  bind_ip = elim c.bind_ip [ none ↦ any_address | some ip ↦ ip ];
  port = or_default c.port 9527;
  capture_samples = or_default c.capture_samples 4096;
  running = false;
  listen_fd = none;
}

unfoldable pub unbound : Server → Server
unbound s = record s { listen_fd = none }

-- The results of socket, inet_pton, bind, listen and pthread_create.
pub record SocketCalls : Type 0 where
  pub socket : Option ℕ
  pub is_address : Bool
  pub bound : Bool
  pub listens : Bool
  pub made : Bool

-- `errno n` is what the C variable holds after the n-th of the calls.
unfoldable pub server_start : SocketCalls → (ℕ → ℕ) → Server → ℕ × Server
server_start calls errno s = if s.running then (0, s) else elim calls.socket [
  | none ↦ (errno 0, unbound s)
  | some fd ↦
      if not calls.is_address
      then (22, unbound s)
      else if not calls.bound
      then (errno 2, unbound s)
      else if not calls.listens
      then (errno 3, unbound s)
      else if not calls.made
      then (errno 4, record s { running = false; listen_fd = none })
      else (0, record s { running = true; listen_fd = some fd })
]

unfoldable pub server_stop : Server → ℕ × Server
server_stop s = if s.running then (0, record s { running = false; listen_fd = none }) else (0, s)

unfoldable pub server_destroy : Server → Server
server_destroy s = (server_stop s).1

-- A round of the listener thread, on the connections that are open: `accepted` is accept's result,
-- `allocated` and `made` are whether the client's context and its thread can be made. A connection
-- that gets no thread is closed.
unfoldable pub on_accept : Option ℕ → Bool → Bool → List ℕ → List ℕ
on_accept none allocated made clients = clients
on_accept (some fd) allocated made clients = if allocated && made then fd ∷ clients else clients
