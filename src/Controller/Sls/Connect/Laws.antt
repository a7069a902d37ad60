-- ===== src/Controller/Sls/Connect/Laws.antt =====
-- What the `Connect` methods of pkg/controller/sls give.
use mathlib.Core.Path.{subst}
use mathlib.Core.Option.{some-injective}
use provider_alibaba.Base.{String, ◌≡◌, ◌≢◌, sym, ap, ◌∙◌, some}
use provider_alibaba.Go.{M, Env, ok, err, message}
use provider_alibaba.Crossplane.{Resource}
use provider_alibaba.Apis.{
  Managed, project_kind, log_store_kind, logtail_kind, logstore_index_kind, machine_group_kind,
  machine_group_binding_kind, project, log_store, logtail, logstore_index, machine_group,
  machine_group_binding,
}
use provider_alibaba.Apis
use provider_alibaba.Util.Kube.{JoinsGroupKind}
use provider_alibaba.Util.Endpoint.Laws.{IsUnserved}
use provider_alibaba.Util.Connect.Laws.{connect_with-unserved}
use provider_alibaba.Controller.Sls.{Connector}
use provider_alibaba.Controller.Sls.Project
use provider_alibaba.Controller.Sls.Connect.{
  External, observe, create, delete, connect_project, connect_store, connect_logtail, connect_index,
  connect_machine_group, connect_machine_group_binding,
}

unserved :
    {P O : Type 0} {kind : String} {cr : Resource P O}
    → IsUnserved kind
    → cr.kind ≡ kind
    → (cr' : Resource P O) → some cr ≡ some cr'
    → IsUnserved cr'.kind
unserved u k cr' same =
    subst IsUnserved (sym k ∙ ap (λ (r : Resource _ _). r.kind) (some-injective _ _ same)) u

-- The three methods answer with the error for a resource that is no project, and do nothing.
unfoldable pub Refuses : {W : Type 0} → External W → Env Managed W → Type 0
Refuses e s =
    let refusal = message Project.err_not_project in
    (observe e s ≡ (err refusal, s))
    × (create e s ≡ (err refusal, s))
    × (delete e s ≡ (err refusal, s))

module _ {W : Type 0} (x : Connector W) where
  -- The `Connect` methods with a resource of their own, which bears its kind.
  pub data IsOwn : (Managed → M W (External W)) → Managed → Type 0 where
    of_project :
        (cr : Apis.Sls.Project) → cr.kind ≡ "Project" → IsOwn (connect_project x) (project cr)
    of_log_store :
        (cr : Apis.Sls.LogStore) → cr.kind ≡ "LogStore" → IsOwn (connect_store x) (log_store cr)
    of_logtail :
        (cr : Apis.Sls.Logtail) → cr.kind ≡ "Logtail" → IsOwn (connect_logtail x) (logtail cr)
    of_logstore_index :
        (cr : Apis.Sls.LogstoreIndex)
        → cr.kind ≡ "LogstoreIndex"
        → IsOwn (connect_index x) (logstore_index cr)
    of_machine_group :
        (cr : Apis.Sls.MachineGroup)
        → cr.kind ≡ "MachineGroup"
        → IsOwn (connect_machine_group x) (machine_group cr)
    of_machine_group_binding :
        (cr : Apis.Sls.MachineGroupBinding)
        → cr.kind ≡ "MachineGroupBinding"
        → IsOwn (connect_machine_group_binding x) (machine_group_binding cr)

  -- Where GroupKind prints as documented, none of the six SLS `Connect` methods gives a client for
  -- a resource of its own type that bears its kind, whatever the cluster answers: `GetEndpoint` has
  -- no case for it.
  pub connect_project-never :
      JoinsGroupKind x.kube
      → {connect : Managed → M W (External W)} {mg : Managed} → IsOwn connect mg
      → (w : W) (e : External W) → (connect mg w).0 ≢ ok e
  unfolding connect_project connect_store connect_logtail connect_index connect_machine_group
      connect_machine_group_binding
  connect_project-never joins (of_project cr k) w e =
      connect_with-unserved x.kube _ joins project_kind _ _ (project cr) w
        (unserved IsUnserved.project k) e
  connect_project-never joins (of_log_store cr k) w e =
      connect_with-unserved x.kube _ joins log_store_kind _ _ (log_store cr) w
        (unserved IsUnserved.log_store k) e
  connect_project-never joins (of_logtail cr k) w e =
      connect_with-unserved x.kube _ joins logtail_kind _ _ (logtail cr) w
        (unserved IsUnserved.logtail k) e
  connect_project-never joins (of_logstore_index cr k) w e =
      connect_with-unserved x.kube _ joins logstore_index_kind _ _ (logstore_index cr) w
        (unserved IsUnserved.logstore_index k) e
  connect_project-never joins (of_machine_group cr k) w e =
      connect_with-unserved x.kube _ joins machine_group_kind _ _ (machine_group cr) w
        (unserved IsUnserved.machine_group k) e
  connect_project-never joins (of_machine_group_binding cr k) w e =
      connect_with-unserved x.kube _ joins machine_group_binding_kind _ _ (machine_group_binding cr)
        w (unserved IsUnserved.machine_group_binding k) e
