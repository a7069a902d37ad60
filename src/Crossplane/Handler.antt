-- ===== src/Crossplane/Handler.antt =====
-- The frame of every handler: the type assertion on the managed resource.
use provider_alibaba.Base.{String, none, some}
use provider_alibaba.Go.{M, Env, err, message}
use provider_alibaba.Apis.{Kind, Managed}

-- `cr, ok := mg.(*T); if !ok { return …, errors.New(not_kind) }`, and then the body on `cr`. The body
-- writes to the object behind the pointer, so its writes are seen in `mg`.
abbrev pub on_kind : {C W A : Type 0} → Kind C → String → M (Env C W) A → M (Env Managed W) A
on_kind k not_kind body s = elim (k.of_managed s.cr) [
  | none ↦ (err (message not_kind), s)
  | some cr ↦
      let (r, t) = body (record { cr = cr; world = s.world }) in
      (r, record { cr = k.to_managed t.cr; world = t.world })
]
