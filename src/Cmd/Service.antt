-- ===== src/Cmd/Service.antt =====
-- cmd/cee-exporter/service_windows.go: the program under the Windows service manager. The calls of
-- kardianos/service are fields of a record, on a world that holds what is registered.
pub mod Boot
use cee_exporter.Common.{
  ℕ, ◌+◌, Bool, true, false, List, [], ◌∷◌, if◌then◌else◌, Bytes, codes, bytes_eq,
}
use cee_exporter.Cmd.{parse_cfg_path}

-- service.Config, with the options of the code.
pub record ServiceConfig : Type 0 where
  pub name : Bytes
  pub display_name : Bytes
  pub description : Bytes
  pub arguments : List Bytes
  pub start_type : Bytes
  pub delayed_auto_start : Bool
  pub on_failure : Bytes
  pub on_failure_delay_duration : Bytes
  pub on_failure_reset_period : ℕ

unfoldable pub svc_config : Bytes → ServiceConfig
svc_config cfg_path = record {
  name = codes "cee-exporter";
  display_name = codes "CEE Exporter";
  description = codes "Dell PowerStore CEPA audit event bridge to GELF / Windows Event Log";
  arguments = codes "-config" ∷ cfg_path ∷ [];
  start_type = codes "automatic";
  delayed_auto_start = true;
  on_failure = codes "restart";
  on_failure_delay_duration = codes "5s";
  on_failure_reset_period = 86400;
}

-- The calls of the service that `New` makes for a configuration; `false` is an error.
pub record ServiceManager (S : Type 0) : Type 0 where
  pub new : ServiceConfig → Bool
  pub install : ServiceConfig → S → S × Bool
  pub uninstall : ServiceConfig → S → S × Bool
  pub run : ServiceConfig → S → S × Bool

-- How runWithServiceManager ends: it returns, or exits with a code.
pub data Ending : Type 0 where
  returns : Ending
  exits : ℕ → Ending

abbrev pub ending_of : Bool → Ending
ending_of ok = if ok then returns else exits 1

abbrev pub ended : {S : Type 0} → S × Bool → S × Ending
ended r = (r.0, ending_of r.1)

module _ {S : Type 0} (manager : ServiceManager S) where
  -- The subcommand, from os.Args.
  unfoldable pub dispatch : ServiceConfig → List Bytes → S → S × Ending
  dispatch c (exe ∷ command ∷ rest) s =
      if bytes_eq command (codes "install")
      then ended (manager.install c s)
      else if bytes_eq command (codes "uninstall")
      then ended (manager.uninstall c s)
      else ended (manager.run c s)
  dispatch c _ s = ended (manager.run c s)

  abbrev arguments_of : List Bytes → List Bytes
  arguments_of [] = []
  arguments_of (exe ∷ args) = args

  unfoldable pub run_with_service_manager : List Bytes → S → S × Ending
  run_with_service_manager os_args s =
      let c = svc_config (parse_cfg_path (arguments_of os_args)) in
      if manager.new c then dispatch c os_args s else (s, exits 1)

-- svcProgram: whether `cancel` is set, whether it was called, and the goroutines that run.
pub record SvcProgram : Type 0 where
  pub cancel_set : Bool
  pub cancelled : Bool
  pub runs : ℕ

unfoldable pub svc_start : SvcProgram → SvcProgram
svc_start p = record { cancel_set = true; cancelled = false; runs = p.runs + 1 }

unfoldable pub svc_stop : SvcProgram → SvcProgram
svc_stop p = if p.cancel_set then record p { cancelled = true } else p
