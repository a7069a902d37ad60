-- ===== src/Tests/Setup.antt =====
-- The theorem on `Setup` at a manager that takes every controller but that of the log stores.
use provider_alibaba.Base.{◌<>◌, ◌==◌, ◌≡◌, ◌⊎◌, arith, List, [], ◌∷◌, ◌++◌, if◌then◌else◌}
use provider_alibaba.Go.{M, ok, err, panic, Err, message}
use provider_alibaba.Controller.Setup.{Controller, Manager, setup}
use provider_alibaba.Controller.Setup.Laws.{Registers, Stopped, controllers, setup-registers}

abbrev complete : Controller → M (List Controller) (Unit {0})
complete c w =
    if c.for_type == "LogStore" then (err (message "no such kind"), w) else (ok tt, w ++ (c ∷ []))

abbrev manager : Manager (List Controller)
manager = record {
  group_kind = λ group kind. kind <> ("." <> group);
  managed_name = λ s. "managed/" <> s;
  provider_config_name = λ s. "providerconfig/" <> s;
  complete = complete;
}

manager-Registers : Registers manager (λ w. w)
manager-Registers = record { adds = λ c w h. ground arith; refuses = λ c w h. ground arith }

setup-registers_example :
    (((setup manager []).0 ≡ ok tt) × ((setup manager []).1 ≡ controllers manager))
    ⊎ ((e : Err) × ((setup manager []).0 ≡ err e)
        × Stopped manager (λ w. w) (controllers manager) [] (setup manager []).1 e)
    ⊎ ((setup manager []).0 ≡ panic)
setup-registers_example = setup-registers manager (λ w. w) manager-Registers []
