-- ===== src/Cmd/Service/Boot.antt =====
-- What service_windows.go registers, and what comes of it at boot.
use cee_exporter.Common.{◌≡◌, refl, true, List, [], ◌∷◌, Bytes, codes, bytes_eq}
use cee_exporter.Cmd.{parse_cfg_path}
use cee_exporter.Cmd.Service.{
  ServiceConfig, ServiceManager, dispatch, ended, svc_config, run_with_service_manager,
}

-- The configuration path that was registered is the one that is read from what was registered.
parse_cfg_path-svc_config : (path : Bytes) → parse_cfg_path (svc_config path).arguments ≡ path
unfolding parse_cfg_path svc_config codes bytes_eq
parse_cfg_path-svc_config path = refl

parse_cfg_path-install :
    (args : List Bytes) → parse_cfg_path (codes "install" ∷ args) ≡ parse_cfg_path args
unfolding parse_cfg_path codes bytes_eq
parse_cfg_path-install [] = refl
parse_cfg_path-install (a ∷ args) = refl

-- What a call of `install` with these arguments registers.
abbrev pub registered : List Bytes → ServiceConfig
registered args = svc_config (parse_cfg_path args)

-- The subcommand `install` registers arguments with which the program, started at boot, does not
-- install again: it runs the service, under the very service configuration that was registered.
-- This is so if the service manager takes that configuration. Which file `run` then reads,
-- flag.Parse says.
pub installed_runs :
    {S : Type 0} (manager : ServiceManager S) (exe : Bytes) (args : List Bytes) (s : S)
    → manager.new (registered args) ≡ true
    → (run_with_service_manager manager (exe ∷ codes "install" ∷ args) s
        ≡ ended (manager.install (registered args) s))
      × ((t : S)
          → run_with_service_manager manager (exe ∷ (registered args).arguments) t
            ≡ ended (manager.run (registered args) t))
unfolding run_with_service_manager dispatch
installed_runs manager exe args s h = (
  rw (parse_cfg_path-install args, h) (unfold codes bytes_eq in refl),
  λ t.
      rw (parse_cfg_path-svc_config (parse_cfg_path args), h)
        (unfold codes bytes_eq svc_config in refl),
)
