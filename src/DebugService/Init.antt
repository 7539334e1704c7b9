-- ===== src/DebugService/Init.antt =====
-- The service of debug_service.c from its init to its end.
use plat.Base.{ℕ, ◌≡◌, refl, false, not, Option, none, some, List, [], ◌==◌, if◌then◌else◌, if_both}
use plat.Base.Text.{Text}
use mathlib.Core.Path.{subst}
use plat.Base.Words.{mul_size}
use plat.RingBuffer.{init, failed, hangs, ready}
use plat.PluginManager.{Api, manager_init}
use plat.LogicAnalyzer.{Analyzer, LogicConfig, sample_size}
use plat.LogicAnalyzer.Control.{
  AnalyzerInit, no_memory, never, created, analyzer_init, fixed_config, config_or_default,
  idle_analyzer,
}
use plat.Sump.Server.{server_init}
use plat.NetCapture.{capture_init}
use plat.SystemMonitor.{monitor_init}
use plat.DebugService.{
  Service, ServiceConfig, ServiceInit, refused, endless, made, InitCalls, after_lock, init_parts,
  fresh_service, service_init, service_destroy, merged_config,
}
use plat.DebugService.Life.{IsStopped, IsWhole, Call, after_calls, calls_keep-IsWhole}

-- What is said of an analyser, or of a service, if an init makes one.
abbrev IfCreated : AnalyzerInit → Type 0
IfCreated no_memory = Unit
IfCreated never = Unit
IfCreated (created la) = la.running ≡ false

abbrev IfMade : {V C : Type 0} → (Service V C → Type 0) → ServiceInit V C → Type 0
IfMade P (refused code) = Unit
IfMade P endless = Unit
IfMade P (made s) = P s

analyzer_init-IfCreated :
    (calloc : ℕ → Option (List ℕ)) (config : Option LogicConfig)
    → IfCreated (analyzer_init calloc config)
unfolding analyzer_init idle_analyzer
analyzer_init-IfCreated calloc config =
    let c = fixed_config (config_or_default config) in
    elim (init calloc (mul_size c.ring_capacity_samples sample_size))
      as (λ r. IfCreated (elim r as (λ x. AnalyzerInit) [
        | failed ↦ no_memory
        | hangs ↦ never
        | ready ring ↦ created (idle_analyzer c ring)
      ])) [ failed ↦ tt | hangs ↦ tt | ready ring ↦ refl ]

module _ {V C : Type 0} where
  after_lock-IfMade :
      (P : Service V C → Type 0) (error : Option ℕ) (rest : ServiceInit V C)
      → IfMade P rest
      → IfMade P (after_lock error rest)
  unfolding after_lock
  after_lock-IfMade P none rest h = h
  after_lock-IfMade P (some errno) rest h = if_both (IfMade P) (errno == 0) _ _ (λ e. h) (λ e. tt)

  checked-IfMade :
      (P : Service V C → Type 0) (code code' : ℕ) (s : Service V C)
      → P s
      → IfMade P (
          if not (code == 0)
          then refused code
          else if not (code' == 0)
          then refused code'
          else made s)
  checked-IfMade P code code' s h =
      if_both (IfMade P) (not (code == 0)) _ _ (λ e. tt)
        (λ e. if_both (IfMade P) (not (code' == 0)) (refused code') (made s) (λ f. tt) (λ f. h))

  module _ (probe : Text → V) (dlopen : Text → Option ℕ) (exported : ℕ → Option (Option (Api C)))
      (context : C) (calls : InitCalls) where
    init_parts-IfMade :
        (cfg : ServiceConfig) (la : Analyzer)
        → la.running ≡ false
        → IfMade IsStopped (init_parts probe dlopen exported context calls cfg la)
    unfolding init_parts fresh_service server_init capture_init monitor_init
    init_parts-IfMade cfg la idle = after_lock-IfMade IsStopped calls.net_lock _ (
        checked-IfMade IsStopped
          (monitor_init (some (cfg.monitor_interval_ms, cfg.monitor_iface)) calls.monitor_lock).0
          (manager_init calls.slots_allocated 16 context []).0
          (fresh_service probe dlopen exported context calls cfg la)
          (refl, idle, refl, (refl, refl), (refl, refl)))

    service_init-IfMade :
        (config : Option ServiceConfig)
        → IfMade IsStopped (service_init probe dlopen exported context calls config)
    unfolding service_init
    service_init-IfMade config =
        let cfg = merged_config config in
        elim (analyzer_init calls.ring_calloc (some cfg.logic))
            as (λ r.
              IfCreated r
              → IfMade IsStopped (elim r as (λ x. ServiceInit V C) [
                | no_memory ↦ refused 12
                | never ↦ endless
                | created la ↦ init_parts probe dlopen exported context calls cfg la
              ])) [
                | no_memory ↦ λ h. tt
                | never ↦ λ h. tt
                | created la ↦ λ h. init_parts-IfMade cfg la h
              ]
          (analyzer_init-IfCreated calls.ring_calloc (some cfg.logic))

    -- A service that an init makes does not run.
    pub service_init-IsStopped :
        (config : Option ServiceConfig) (s : Service V C)
        → service_init probe dlopen exported context calls config ≡ made s
        → IsStopped s
    service_init-IsStopped config s begun =
        subst (IfMade IsStopped) begun (service_init-IfMade config)

    -- Whatever calls of start, stop and poll follow an init that makes a service, and whichever calls of
    -- the system fail in them: the service is started, and neither of the parts that have a socket
    -- keeps one while it does not run; or it is not started, no part runs, and no socket is open. After a
    -- destroy it is the latter.
    pub service_calls-IsWhole :
        (config : Option ServiceConfig) (s : Service V C) (history : List Call)
        → service_init probe dlopen exported context calls config ≡ made s
        → IsWhole (after_calls s history) × IsStopped (service_destroy (after_calls s history))
    service_calls-IsWhole config s history begun =
        calls_keep-IsWhole s history (service_init-IsStopped config s begun)
