-- ===== src/Clients/Sls/Applied.antt =====
-- What pkg/clients/sls relies on of the configs that the log service applies to machine groups.
use provider_alibaba.Base.{String, Bool, true, false, ◌||◌, ◌==◌, ◌≡◌, ◌≢◌, List, [], ◌∷◌}
use provider_alibaba.Go.{ok}
use provider_alibaba.Clients.Sls.Sdk.{SdkClient}

abbrev pub contains : String → List String → Bool
contains name [] = false
contains name (x ∷ xs) = (x == name) || contains name xs

-- `applied` shows the configs of a group, by the project and the group. Any call may fail; each law is
-- about an answer without an error.
pub record Applies {W : Type 0} (c : SdkClient W) : Type 0 where
  pub applied : W → String → String → List String
  pub got :
      (p g : String) (w : W) {l : List String}
      → (c.get_applied_configs p g w).0 ≡ ok l
      → l ≡ applied w p g
  pub applies :
      (p f g : String) (w : W)
      → (c.apply_config_to_machine_group p f g w).0 ≡ ok tt
      → contains f (applied (c.apply_config_to_machine_group p f g w).1 p g) ≡ true
  pub removes_one :
      (p f g : String) (w : W) {other : String}
      → other ≢ f
      → contains other (applied w p g) ≡ true
      → contains other (applied (c.remove_config_from_machine_group p f g w).1 p g) ≡ true
