-- ===== src/Controller/Sls/Project/Observed.antt =====
-- What `Observe` of project_controller.go says after `Create` and after `Update`.
use provider_alibaba.Base.{true, ◌≡◌, refl, arith, Option, some, eq_refl, ◌∷◌}
use provider_alibaba.Go.{Env, Outcome, ok, err, panic}
use provider_alibaba.Crossplane.{ExternalObservation, ExternalCreation, available}
use provider_alibaba.Apis
use provider_alibaba.Clients.Sls.{client}
use provider_alibaba.Clients.Sls.Sdk.{SdkClient, LogProject}
use provider_alibaba.Clients.Sls.Projects.{KeepsProjects, Wanted}
use provider_alibaba.Clients.Sls.Project.{describe, create, update}
use provider_alibaba.Controller.Sls.Project.{
  observe_cr, observe_described, create_cr, update_project, get_connection_details,
}

-- An observation that asks for nothing, of a resource that is available.
pub record Settled {W : Type 0} (s : Env Apis.Sls.Project W) (o : ExternalObservation)
    (t : Env Apis.Sls.Project W) : Type 0 where
  exists : o.resource_exists ≡ true
  up_to_date : o.resource_up_to_date ≡ true
  is_available : t.cr.conditions ≡ available ∷ s.cr.conditions

module _ {W : Type 0} (c : SdkClient W) (K : KeepsProjects c) where
  observe_cr-Wanted :
      (s : Env Apis.Sls.Project W) (p : LogProject) {r : Option LogProject}
      → K.project s.world s.cr.external_name ≡ some p
      → Wanted s.cr.external_name s.cr.for_provider.description p
      → (c.get_project s.cr.external_name s.world).0 ≡ ok r
      → (o : ExternalObservation) × ((observe_cr (client c) s).0 ≡ ok o)
        × Settled s o (observe_cr (client c) s).1
  unfolding observe_cr observe_described describe
  observe_cr-Wanted s p {r} kept k h =
      let got : K.project s.world s.cr.external_name ≡ r =
        K.got s.cr.external_name s.world {r = r} h in
      let o : ExternalObservation = record {
        resource_exists = true;
        resource_up_to_date = true;
        connection_details = get_connection_details p;
      } in
      (
        o,
        ground (
          arith,
          k.name_kept,
          k.description_kept,
          eq_refl s.cr.external_name,
          eq_refl s.cr.for_provider.description,
        ),
        record {
          exists = refl;
          up_to_date = refl;
          is_available = ground (
            arith,
            k.name_kept,
            k.description_kept,
            eq_refl s.cr.external_name,
            eq_refl s.cr.for_provider.description,
          );
        },
      )

  create_cr-cr : (s : Env Apis.Sls.Project W) → (create_cr (client c) s).1.cr ≡ s.cr
  unfolding create_cr
  create_cr-cr s = ground arith

  update_project-cr : (s : Env Apis.Sls.Project W) → (update_project (client c) s).1.cr ≡ s.cr
  unfolding update_project
  update_project-cr s = ground arith

  create_cr-kept_of :
      (s : Env Apis.Sls.Project W) (r : Outcome (Option LogProject)) {made : ExternalCreation}
      → (c.create_project s.cr.external_name s.cr.for_provider.description s.world).0 ≡ r
      → (create_cr (client c) s).0 ≡ ok made
      → (p : LogProject) × (K.project (create_cr (client c) s).1.world s.cr.external_name ≡ some p)
        × Wanted s.cr.external_name s.cr.for_provider.description p
  unfolding create_cr create
  create_cr-kept_of s (ok r) asked h =
      let (p, kept, k) =
        K.made s.cr.external_name s.cr.for_provider.description s.world {r = r} asked in
      (p, ground arith, k)
  create_cr-kept_of s (err e) asked h = absurd (ground arith)
  create_cr-kept_of s panic asked h = absurd (ground arith)

  update_project-kept_of :
      (s : Env Apis.Sls.Project W) (r : Outcome (Option LogProject))
      → (c.update_project s.cr.external_name s.cr.for_provider.description s.world).0 ≡ r
      → (update_project (client c) s).0 ≡ ok tt
      → (p : LogProject) × (K.project (update_project (client c) s).1.world s.cr.external_name
          ≡ some p)
        × Wanted s.cr.external_name s.cr.for_provider.description p
  unfolding update_project update
  update_project-kept_of s (ok r) asked h =
      let (p, kept, k) =
        K.updated s.cr.external_name s.cr.for_provider.description s.world {r = r} asked in
      (p, ground arith, k)
  update_project-kept_of s (err e) asked h = absurd (ground arith)
  update_project-kept_of s panic asked h = absurd (ground arith)

  -- Over a service that keeps projects: where `Create` of a project succeeds and the service then
  -- answers the request for this project, the next `Observe` succeeds, reports that the project
  -- exists and is up to date, and leaves it available.
  pub create_project-observed :
      (s : Env Apis.Sls.Project W) {made : ExternalCreation} {r : Option LogProject}
      → (create_cr (client c) s).0 ≡ ok made
      → let t = (create_cr (client c) s).1 in
        (c.get_project s.cr.external_name t.world).0 ≡ ok r
        → (o : ExternalObservation) × ((observe_cr (client c) t).0 ≡ ok o)
          × Settled t o (observe_cr (client c) t).1
  create_project-observed s {r = r} created answered =
      let t = (create_cr (client c) s).1 in
      let same : t.cr ≡ s.cr = create_cr-cr s in
      let asked = (c.create_project s.cr.external_name s.cr.for_provider.description s.world).0 in
      let (p, kept, k) = create_cr-kept_of s asked refl created in
      observe_cr-Wanted t p {r = r} (rw same kept) (rw same k) (rw same answered)

  -- Over a service that keeps projects: where `Update` of a project succeeds and the service then
  -- answers the request for this project, the next `Observe` succeeds, reports that the project
  -- exists and is up to date, and leaves it available.
  pub update_project-observed :
      (s : Env Apis.Sls.Project W) {r : Option LogProject}
      → (update_project (client c) s).0 ≡ ok tt
      → let t = (update_project (client c) s).1 in
        (c.get_project s.cr.external_name t.world).0 ≡ ok r
        → (o : ExternalObservation) × ((observe_cr (client c) t).0 ≡ ok o)
          × Settled t o (observe_cr (client c) t).1
  update_project-observed s {r} done answered =
      let t = (update_project (client c) s).1 in
      let same : t.cr ≡ s.cr = update_project-cr s in
      let asked = (c.update_project s.cr.external_name s.cr.for_provider.description s.world).0 in
      let (p, kept, k) = update_project-kept_of s asked refl done in
      observe_cr-Wanted t p {r = r} (rw same kept) (rw same k) (rw same answered)
