-- ===== src/Tests/Sls/Projects.antt =====
-- The theorems on the projects of SLS, at a service that keeps them in a table, which is the world.
use provider_alibaba.Base.{
  String, ◌≡◌, refl, arith, Option, none, some, [], ◌∷◌, eq_refl, ◌==◌, if◌then◌else◌,
}
use provider_alibaba.Go.{Env, ok, err, log_error}
use provider_alibaba.Crossplane.{ExternalObservation}
use provider_alibaba.Apis
use provider_alibaba.Apis.{Managed, project}
use provider_alibaba.Clients.Sls.{client}
use provider_alibaba.Clients.Sls.Sdk.{SdkClient, LogProject}
use provider_alibaba.Clients.Sls.Projects.{KeepsProjects, Wanted}
use provider_alibaba.Clients.Sls.Project.{create, update, describe}
use provider_alibaba.Controller.External.{observe}
use provider_alibaba.Controller.External.ReadOnly.{ReadOnly, observe-reads}
use provider_alibaba.Controller.Sls.Project.{
  observe_cr, create_cr, update_project, get_connection_details,
}
use provider_alibaba.Controller.Sls.Project.Observed.{
  Settled, create_project-observed, update_project-observed,
}
use provider_alibaba.Controller.External.{External, sls_external}
use provider_alibaba.Controller.Sls.Connect.{project_external}
use provider_alibaba.Tests.Sls.Resources.{idle, logs}

abbrev Table : Type 0
Table = String → Option LogProject

abbrev made_project : String → String → LogProject
made_project n d = record {
  name = n;
  description = d;
  status = "Normal";
  owner = "";
  region = "cn-beijing";
  create_time = "1";
  last_modify_time = "1";
  endpoint = "cn-beijing.log.aliyuncs.com";
}

put : String → LogProject → Table → Table
put n p t m = if m == n then some p else t m

abbrev store : SdkClient Table
store = record idle {
  get_project = λ n t. elim (t n) [
    | none ↦ (err (log_error "ProjectNotExist"), t)
    | some p ↦ (ok (some p), t)
  ];
  create_project = λ n d t. (ok (some (made_project n d)), put n (made_project n d) t);
  update_project = λ n d t. elim (t n) [
    | none ↦ (err (log_error "ProjectNotExist"), t)
    | some p ↦
        (ok (some (record p { description = d })), put n (record p { name = n; description = d }) t)
  ];
}

made-Wanted : (n d : String) → Wanted n d (made_project n d)
made-Wanted n d = record { name_kept = refl; description_kept = refl }

updated_of :
    (n d : String) (t : Table) (found : Option LogProject) {r : Option LogProject}
    → t n ≡ found
    → (store.update_project n d t).0 ≡ ok r
    → (p : LogProject) × ((store.update_project n d t).1 n ≡ some p) × Wanted n d p
unfolding put
updated_of n d t none h1 h2 = absurd (ground arith)
updated_of n d t (some p) h1 h2 = (
  record p { name = n; description = d },
  ground (arith, eq_refl n),
  record { name_kept = refl; description_kept = refl },
)

store-KeepsProjects : KeepsProjects store
unfolding put
store-KeepsProjects = record {
  project = λ t. t;
  got = λ n t h. ground arith;
  made = λ n d t h. (made_project n d, ground (arith, eq_refl n), made-Wanted n d);
  updated = λ n d t {r} h. updated_of n d t (t n) {r = r} refl h;
}

-- No project at first.
abbrev nothing : Table
nothing n = none

abbrev start : Env Apis.Sls.Project Table
start = record { cr = logs; world = nothing }

abbrev created : Env Apis.Sls.Project Table
created = (create_cr (client store) start).1

create_project-observed_example :
    (o : ExternalObservation) × ((observe_cr (client store) created).0 ≡ ok o)
    × Settled created o (observe_cr (client store) created).1
unfolding create_cr create get_connection_details store-KeepsProjects put
create_project-observed_example =
    create_project-observed store store-KeepsProjects start
      {made = record {
        connection_details = ("Name", "logs") ∷ ("Endpoint", "cn-beijing.log.aliyuncs.com") ∷ [];
      }}
      {r = some (made_project "logs" "all logs")} refl refl

-- The project has another description than the wanted one.
abbrev described : Env Apis.Sls.Project Table
described = record { cr = logs; world = put "logs" (made_project "logs" "old") nothing }

abbrev updated : Env Apis.Sls.Project Table
updated = (update_project (client store) described).1

update_project-observed_example :
    (o : ExternalObservation) × ((observe_cr (client store) updated).0 ≡ ok o)
    × Settled updated o (observe_cr (client store) updated).1
unfolding update_project update store-KeepsProjects put
update_project-observed_example =
    update_project-observed store store-KeepsProjects described
      {r = some (made_project "logs" "all logs")} refl refl

abbrev seen : Env Managed Table
seen = record { cr = project logs; world = described.world }

abbrev of_projects : External Table
of_projects = sls_external (project_external (client store))

store_describe-reads : (n : String) (t : Table) → ((client store).describe n t).1 ≡ t
unfolding describe
store_describe-reads n t = ground arith

observe-reads_example : (observe of_projects seen).1.world ≡ seen.world
observe-reads_example =
    observe-reads (λ t. t) {e = of_projects}
      (ReadOnly.project_reads (client store) store_describe-reads) seen
