-- ===== src/DebugService/Life.antt =====
-- Start and stop of debug_service.c: what runs, and which sockets are open.
pub mod Parts
use plat.Base.{
  ℕ, ◌≡◌, ◌≢◌, refl, Bool, true, false, not, Option, none, List, [], ◌∷◌, ◌==◌, arith, if_both, inl,
  inr, ◌⊎◌,
}
use plat.LogicAnalyzer.{Analyzer}
use plat.LogicAnalyzer.Control.{start, stop, analyzer_destroy}
use plat.Sump.Server.{Server, SocketCalls, server_start, server_stop, server_destroy, unbound}
use plat.NetCapture.{Capture, capture_stop, capture_destroy, without_socket}
use plat.NetCapture.Counts.{IsConsistent, capture_start-IsConsistent}
use plat.SystemMonitor.{Monitor, monitor_start, monitor_stop, monitor_destroy}
use plat.DebugService.{
  Service, StartCalls, start_net, start_sump, service_start, service_stop, service_destroy,
  poll_plugins,
}
use plat.DebugService.Life.Parts.{
  IsConsistentServer, IsShut, capture_stop-IsShut, server_start-IsConsistent, server_stop-IsShut,
  start-rests, monitor_start-rests, stop-running, monitor_stop-running,
}

module _ {V C : Type 0} where
  abbrev pub SocketsAgree : Service V C → Type 0
  SocketsAgree s = IsConsistent s.net_capture × IsConsistentServer s.sump_server

  abbrev pub IsStarted : Service V C → Type 0
  IsStarted s = (s.started ≡ true) × SocketsAgree s

  abbrev pub IsStopped : Service V C → Type 0
  IsStopped s =
      (s.started ≡ false)
      × (s.logic.running ≡ false)
      × (s.system_monitor.running ≡ false)
      × IsShut s.net_capture.running s.net_capture.socket_fd
      × IsShut s.sump_server.running s.sump_server.listen_fd

  abbrev pub IsWhole : Service V C → Type 0
  IsWhole s = IsStarted s ⊎ IsStopped s

  start_net-SocketsAgree :
      (calls : StartCalls) (s : Service V C) → SocketsAgree s → SocketsAgree (start_net calls s)
  unfolding start_net
  start_net-SocketsAgree calls s (net, sump) =
      let (net', stopped) =
        capture_start-IsConsistent calls.net_socket calls.net_index calls.net_bound calls.net_made
          calls.net_errno s.net_capture net in
      if_both SocketsAgree (not s.config.enable_net_capture) _ _ (λ e. (net, sump))
        (λ e. if_both SocketsAgree (_ == 0) _ _ (λ f. (net', sump)) (λ f. (net', sump)))

  start_sump-SocketsAgree :
      (calls : StartCalls) (s : Service V C) → SocketsAgree s → SocketsAgree (start_sump calls s)
  unfolding start_sump
  start_sump-SocketsAgree calls s (net, sump) =
      let sump' = server_start-IsConsistent calls.sump calls.sump_errno s.sump_server sump in
      if_both SocketsAgree (not s.config.enable_sump_server) _ _ (λ e. (net, sump))
        (λ e. if_both SocketsAgree (_ == 0) _ _ (λ f. (net, sump')) (λ f. (net, sump')))

  -- The result of a service's start: 0 just if the service is started.
  abbrev pub Starts : ℕ × Service V C → Type 0
  Starts (code, s) = ((code ≡ 0) × IsStarted s) ⊎ ((code ≢ 0) × IsStopped s)

  service_start-stopped :
      (calls : StartCalls) (s : Service V C) → IsStopped s → Starts (service_start calls s)
  unfolding service_start
  service_start-stopped calls s (off, logic_off, monitor_off, net_off, sump_off) =
      let logic = start s.logic calls.logic_made calls.logic_errno in
      let monitor = monitor_start calls.monitor_made calls.monitor_errno s.system_monitor in
      let both : Service V C = record s { logic = logic.1; system_monitor = monitor.1 } in
      let agree : SocketsAgree both = (λ e. net_off.1, λ e. sump_off.1) in
      let sockets =
        start_sump-SocketsAgree calls (start_net calls both)
          (start_net-SocketsAgree calls both agree) in
      if_both Starts s.started _ _ (λ e. absurd (ground (arith, e, off)))
        (λ e.
          if_both Starts (not (logic.0 == 0)) _ _
            (λ f.
              let failed : logic.0 ≢ 0 = ground (arith, f) in
              let rests = start-rests s.logic calls.logic_made calls.logic_errno logic_off failed in
              inr (failed, (off, rests, monitor_off, net_off, sump_off)))
            (λ f.
              if_both Starts (not (monitor.0 == 0)) _ _
                (λ g.
                  let failed : monitor.0 ≢ 0 = ground (arith, g) in
                  let rests =
                    monitor_start-rests s.system_monitor calls.monitor_made calls.monitor_errno
                      monitor_off failed in
                  inr (failed, (off, stop-running logic.1, rests, net_off, sump_off)))
                (λ g. inl (refl, (refl, sockets)))))

  service_stop-IsStopped : (s : Service V C) → IsWhole s → IsStopped (service_stop s)
  unfolding service_stop
  service_stop-IsStopped s (inr h) =
      if_both IsStopped s.started _ _ (λ e. absurd (ground (arith, e, h.0))) (λ e. h)
  service_stop-IsStopped s (inl (on, (net, sump))) =
      if_both IsStopped s.started _ _
        (λ e. (
          refl,
          stop-running s.logic,
          monitor_stop-running s.system_monitor,
          capture_stop-IsShut s.net_capture net,
          server_stop-IsShut s.sump_server sump,
        ))
        (λ e. absurd (ground (arith, e, on)))

  pub service_start-IsWhole :
      (calls : StartCalls) (s : Service V C) → IsWhole s → IsWhole (service_start calls s).1
  unfolding service_start
  service_start-IsWhole calls s (inl h) =
      if_both (λ (r : ℕ × Service V C). IsWhole r.1) s.started _ _ (λ e. inl h)
        (λ e. absurd (ground (arith, e, h.0)))
  service_start-IsWhole calls s (inr h) = elim (service_start-stopped calls s h) [
    | inl (code, w) ↦ inl w
    | inr (code, w) ↦ inr w
  ]

  pub service_destroy-IsStopped : (s : Service V C) → IsWhole s → IsStopped (service_destroy s)
  unfolding service_destroy analyzer_destroy monitor_destroy capture_destroy server_destroy
  service_destroy-IsStopped s h =
      let (off, logic_off, monitor_off, net_off, sump_off) = service_stop-IsStopped s h in
      let stopped = service_stop s in
      (
        off,
        stop-running stopped.logic,
        monitor_stop-running stopped.system_monitor,
        capture_stop-IsShut stopped.net_capture (λ e. net_off.1),
        server_stop-IsShut stopped.sump_server (λ e. sump_off.1),
      )

-- The calls of a client.
pub data Call : Type 0 where
  starts : StartCalls → Call
  stops : Call
  polls : Call

module _ {V C : Type 0} where
  abbrev pub after_calls : Service V C → List Call → Service V C
  after_calls s [] = s
  after_calls s (starts calls ∷ rest) = after_calls (service_start calls s).1 rest
  after_calls s (stops ∷ rest) = after_calls (service_stop s) rest
  after_calls s (polls ∷ rest) = after_calls (poll_plugins s) rest

  after_calls-IsWhole :
      (s : Service V C) (calls : List Call) → IsWhole s → IsWhole (after_calls s calls)
  unfolding poll_plugins
  after_calls-IsWhole s [] h = h
  after_calls-IsWhole s (starts calls ∷ rest) h =
      after_calls-IsWhole (service_start calls s).1 rest (service_start-IsWhole calls s h)
  after_calls-IsWhole s (stops ∷ rest) h =
      after_calls-IsWhole (service_stop s) rest (inr (service_stop-IsStopped s h))
  after_calls-IsWhole s (polls ∷ rest) h = after_calls-IsWhole (poll_plugins s) rest h

  pub calls_keep-IsWhole :
      (s : Service V C) (calls : List Call)
      → IsStopped s
      → let s' = after_calls s calls in IsWhole s' × IsStopped (service_destroy s')
  calls_keep-IsWhole s calls h =
      let whole = after_calls-IsWhole s calls (inr h) in
      (whole, service_destroy-IsStopped (after_calls s calls) whole)
