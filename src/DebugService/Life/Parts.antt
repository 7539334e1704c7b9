-- ===== src/DebugService/Life/Parts.antt =====
-- Start and stop of each part of debug_service.c.
use plat.Base.{ℕ, ◌≡◌, ◌≢◌, Bool, false, Option, none, arith}
use plat.LogicAnalyzer.{Analyzer}
use plat.LogicAnalyzer.Control.{start, stop}
use plat.Sump.Server.{Server, SocketCalls, server_start, server_stop, unbound}
use plat.NetCapture.{Capture, capture_stop, without_socket}
use plat.NetCapture.Counts.{IsConsistent}
use plat.SystemMonitor.{Monitor, monitor_start, monitor_stop}

abbrev pub IsConsistentServer : Server → Type 0
IsConsistentServer s = (s.running ≡ false → s.listen_fd ≡ none)

-- A part with a socket, when it does not run.
abbrev pub IsShut : Bool → Option ℕ → Type 0
IsShut running fd = (running ≡ false) × (fd ≡ none)

pub capture_stop-IsShut :
    (c : Capture) → IsConsistent c → IsShut (capture_stop c).1.running (capture_stop c).1.socket_fd
unfolding capture_stop without_socket
capture_stop-IsShut c h = ground (arith, h)

pub server_start-IsConsistent :
    (calls : SocketCalls) (errno : ℕ → ℕ) (s : Server)
    → IsConsistentServer s
    → IsConsistentServer (server_start calls errno s).1
unfolding server_start unbound
server_start-IsConsistent calls errno s h = ground (arith, h)

pub server_stop-IsShut :
    (s : Server)
    → IsConsistentServer s
    → IsShut (server_stop s).1.running (server_stop s).1.listen_fd
unfolding server_stop
server_stop-IsShut s h = ground (arith, h)

-- A part's start that fails leaves it as it rests.
pub start-rests :
    (la : Analyzer) (made : Bool) (errno : ℕ)
    → la.running ≡ false
    → (start la made errno).0 ≢ 0
    → (start la made errno).1.running ≡ false
unfolding start
start-rests la made errno h failed = ground (arith, h, failed)

pub monitor_start-rests :
    (m : Monitor) (made : Bool) (errno : ℕ)
    → m.running ≡ false
    → (monitor_start made errno m).0 ≢ 0
    → (monitor_start made errno m).1.running ≡ false
unfolding monitor_start
monitor_start-rests m made errno h failed = ground (arith, h, failed)

pub stop-running : (la : Analyzer) → (stop la).1.running ≡ false
unfolding stop
stop-running la = ground arith

pub monitor_stop-running : (m : Monitor) → (monitor_stop m).1.running ≡ false
unfolding monitor_stop
monitor_stop-running m = ground arith
