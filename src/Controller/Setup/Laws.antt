-- ===== src/Controller/Setup/Laws.antt =====
-- What `Setup` of pkg/controller/alibaba.go registers.
use provider_alibaba.Base.{◌≡◌, refl, arith, sym, ap, List, [], ◌∷◌, ◌++◌, map, ◌⊎◌, inl, inr}
use mathlib.Core.List.{append-nil, append_assoc}
use provider_alibaba.Go.Laws.{bind-ok}
use provider_alibaba.Go.{Outcome, ok, err, panic, Err}
use provider_alibaba.Controller.Setup.{
  Controller, Manager, run_all, setup, config_controller, rds_instance_controller,
  redis_instance_controller, project_controller, store_controller, logtail_controller,
  index_controller, machine_group_controller, machine_group_binding_controller, bucket_controller,
  nas_file_system_controller, nas_mount_target_controller, clb_controller,
}

-- The controllers in the order of `Setup`.
abbrev pub controllers : {W : Type 0} → Manager W → List Controller
controllers m =
    config_controller m
    ∷ rds_instance_controller m
    ∷ redis_instance_controller m
    ∷ project_controller m
    ∷ store_controller m
    ∷ logtail_controller m
    ∷ index_controller m
    ∷ machine_group_controller m
    ∷ machine_group_binding_controller m
    ∷ bucket_controller m
    ∷ nas_file_system_controller m
    ∷ nas_mount_target_controller m
    ∷ clb_controller m
    ∷ []

module _ {W : Type 0} (m : Manager W) (log : W → List Controller) where
  -- `log` shows the controllers that the manager has, the latest last: `Complete` adds its own where it
  -- succeeds.
  pub record Registers : Type 0 where
    pub adds :
        (c : Controller) (w : W)
        → (m.complete c w).0 ≡ ok tt
        → log (m.complete c w).1 ≡ log w ++ (c ∷ [])
    pub refuses :
        (c : Controller) (w : W) {e : Err}
        → (m.complete c w).0 ≡ err e
        → log (m.complete c w).1 ≡ log w

  -- A run that stopped at a controller, after some others.
  pub record Stopped (l : List Controller) (w v : W) (e : Err) : Type 0 where
    pub registered : List Controller
    pub refused : Controller
    pub left : List Controller
    pub split : l ≡ registered ++ (refused ∷ left)
    pub logged : log v ≡ log w ++ registered
    pub at : W
    pub reason : (m.complete refused at).0 ≡ err e

  module _ (K : Registers) where
    run_all-logs :
        (l : List Controller) (w : W)
        → (run_all (map m.complete l) w).0 ≡ ok tt
        → log (run_all (map m.complete l) w).1 ≡ log w ++ l
    unfolding run_all
    run_all-logs [] w h = sym (append-nil (log w))
    run_all-logs (c ∷ l) w h =
        let (_, first, rest) = bind-ok (m.complete c) (λ _. run_all (map m.complete l)) w h in
        ground (
          arith,
          K.adds c w first,
          run_all-logs l (m.complete c w).1 rest,
          append_assoc (log w) (c ∷ []) l,
        )

    run_all-stops :
        (l : List Controller) (w : W) {e : Err}
        → (run_all (map m.complete l) w).0 ≡ err e
        → Stopped l w (run_all (map m.complete l) w).1 e
    unfolding run_all
    run_all-stops [] w h = absurd (cc)
    run_all-stops (c ∷ l) w {e} h =
        at_first (run_all-stops l (m.complete c w).1 {e = e}) (m.complete c w).0 refl
      where
        at_first :
            ((run_all (map m.complete l) (m.complete c w).1).0 ≡ err e
              → Stopped l (m.complete c w).1 (run_all (map m.complete l) (m.complete c w).1).1 e)
            → (r : Outcome (Unit {0})) → (m.complete c w).0 ≡ r
            → Stopped (c ∷ l) w (run_all (map m.complete (c ∷ l)) w).1 e
        at_first again (ok _) first =
            let s = again (ground arith) in
            record {
              registered = c ∷ s.registered;
              refused = s.refused;
              left = s.left;
              split = ap (λ l. c ∷ l) s.split;
              logged =
                  ground
                    (arith, s.logged, K.adds c w first, append_assoc (log w) (c ∷ []) s.registered);
              at = s.at;
              reason = s.reason;
            }
        at_first again (err x) first = record {
          registered = [];
          refused = c;
          left = l;
          split = refl;
          logged = ground (arith, K.refuses c w {e = x} first, append-nil (log w));
          at = w;
          reason = ground arith;
        }
        at_first again panic first = absurd (ground arith)

    -- At a manager that keeps what it completes: `Setup` succeeds and has registered all thirteen
    -- controllers in the order of its list; or it returns an error, has registered the controllers
    -- before one that the manager refused with that error, and none after it; or it panics.
    pub setup-registers :
        (w : W)
        → (((setup m w).0 ≡ ok tt) × (log (setup m w).1 ≡ log w ++ controllers m))
          ⊎ ((e : Err) × ((setup m w).0 ≡ err e) × Stopped (controllers m) w (setup m w).1 e)
          ⊎ ((setup m w).0 ≡ panic)
    unfolding setup run_all
    setup-registers w = ended (setup m w).0 refl
      where
        ended :
            (r : Outcome (Unit {0}))
            → (setup m w).0 ≡ r
            → (((setup m w).0 ≡ ok tt) × (log (setup m w).1 ≡ log w ++ controllers m))
              ⊎ ((e : Err) × ((setup m w).0 ≡ err e) × Stopped (controllers m) w (setup m w).1 e)
              ⊎ ((setup m w).0 ≡ panic)
        ended (ok _) h = inl (h, run_all-logs (controllers m) w h)
        ended (err e) h = inr (inl (e, h, run_all-stops (controllers m) w h))
        ended panic h = inr (inr h)
