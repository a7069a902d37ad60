-- ===== src/Clients/Sls/Projects.antt =====
-- What pkg/clients/sls relies on of the projects that the log service keeps.
use provider_alibaba.Base.{String, ◌≡◌, Option, some}
use provider_alibaba.Go.{ok}
use provider_alibaba.Clients.Sls.Sdk.{SdkClient, LogProject}

-- A project as it was asked for.
pub record Wanted (name description : String) (p : LogProject) : Type 0 where
  pub name_kept : p.name ≡ name
  pub description_kept : p.description ≡ description

-- `project` shows the projects by name. Any call may fail; the laws are about the calls that succeed.
pub record KeepsProjects {W : Type 0} (c : SdkClient W) : Type 0 where
  pub project : W → String → Option LogProject
  pub got :
      (n : String) (w : W) {r : Option LogProject} → (c.get_project n w).0 ≡ ok r → project w n ≡ r
  pub made :
      (n d : String) (w : W) {r : Option LogProject}
      → (c.create_project n d w).0 ≡ ok r
      → (p : LogProject) × (project (c.create_project n d w).1 n ≡ some p) × Wanted n d p
  pub updated :
      (n d : String) (w : W) {r : Option LogProject}
      → (c.update_project n d w).0 ≡ ok r
      → (p : LogProject) × (project (c.update_project n d w).1 n ≡ some p) × Wanted n d p
