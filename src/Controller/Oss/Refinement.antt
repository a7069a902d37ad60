-- ===== src/Controller/Oss/Refinement.antt =====
-- The handlers of pkg/controller/oss as operations on the buckets of the service: a specification over a
-- table of buckets, which the handlers refine over any service that keeps them.
use provider_alibaba.Base.{
  String, ◌≡◌, ◌≢◌, refl, ap, ◌∙◌, arith, Option, none, some, List, [], ◌∷◌, eq_iff, fun_ext,
}
use provider_alibaba.Go.{Env, ok}
use provider_alibaba.Crossplane.{ExternalObservation, ExternalCreation}
use provider_alibaba.Apis.Oss.{Bucket}
use provider_alibaba.Clients.Oss.{Names, SdkClient, BucketInfo, client}
use provider_alibaba.Clients.Oss.Laws.{IsDocumented}
use provider_alibaba.Clients.Oss.Service.{
  Buckets, put_bucket, Keeps, wanted, create-made, create-others,
}
use provider_alibaba.Controller.Oss.{observe_cr, create_cr, update_bucket, delete_cr}
use provider_alibaba.Controller.Oss.Effect.{
  parameters, with_acl, observe_cr-world, create_cr-world, create_cr-made, delete_cr-world,
  delete_cr-gone, update_bucket-made, update_bucket-others,
}

-- The handlers, as operations on the table of buckets.
pub data Request : Type 0 where
  observes creates updates deletes : Request

-- The specification: the bucket of a resource after a request, from the bucket before.
unfoldable pub after : BucketInfo → Request → Bucket → Option BucketInfo → Option BucketInfo
after blank observes cr b = b
after blank creates cr b = some (wanted (parameters cr) blank)
after blank updates cr b = with_acl cr.for_provider.acl b
after blank deletes cr b = none

-- The request on the table, and a list of requests, of which the last one stands first.
unfoldable pub apply : (String → BucketInfo) → Request → Bucket → Buckets → Buckets
apply blank q cr t =
    put_bucket cr.external_name (after (blank cr.external_name) q cr (t cr.external_name)) t

unfoldable pub replay : (String → BucketInfo) → List (Request × Bucket) → Buckets → Buckets
replay blank [] t = t
replay blank (call ∷ calls) t = apply blank call.0 call.1 (replay blank calls t)

module _ (N : Names) (D : IsDocumented N) {W : Type 0} (c : SdkClient W) (K : Keeps c) where
  -- One call of a handler for a resource, from a world to a world.
  pub data Call (cr : Bucket) : Request → W → W → Type 0 where
    observed :
        (w : W)
        → Call cr observes w (observe_cr (client N c) (record { cr = cr; world = w })).1.world
    created :
        (w : W) → Call cr creates w (create_cr (client N c) (record { cr = cr; world = w })).1.world
    updated :
        (w : W)
        → Call cr updates w (update_bucket (client N c) (record { cr = cr; world = w })).1.world
    deleted :
        (w : W) → Call cr deletes w (delete_cr (client N c) (record { cr = cr; world = w })).1.world

  -- Whatever a handler for a resource returns, it leaves every bucket of another name alone.
  Call-others :
      {cr : Bucket} {q : Request} {w v : W}
      → Call cr q w v
      → (m : String) → m ≢ cr.external_name
      → K.view v m ≡ K.view w m
  Call-others {cr = cr} (observed w) m other =
      let s : Env Bucket W = record { cr = cr; world = w } in
      ap (λ v. K.view v m) (observe_cr-world N D c K s)
      ∙ ap (λ v. v m) (K.get_reads cr.external_name w)
  Call-others {cr = cr} (created w) m other =
      let s : Env Bucket W = record { cr = cr; world = w } in
      ap (λ v. K.view v m) (create_cr-world N D c K s)
      ∙ create-others N D c K cr.external_name (parameters cr) w m other
  Call-others {cr = cr} (updated w) m other =
      let s : Env Bucket W = record { cr = cr; world = w } in
      update_bucket-others N D c K s (c.get_bucket_info cr.external_name w).0 m refl other
  Call-others {cr = cr} (deleted w) m other =
      let s : Env Bucket W = record { cr = cr; world = w } in
      ap (λ v. K.view v m) (delete_cr-world N D c K s) ∙ K.delete_others cr.external_name w m other

  -- Any number of calls, for any resources of which none has the name.
  pub data Spares (name : String) (w : W) : W → Type 0 where
    none_yet : Spares name w w
    one_more :
        {cr : Bucket} {q : Request} {v u : W}
        → Spares name w v
        → Call cr q v u
        → name ≢ cr.external_name
        → Spares name w u

  -- Over a service that keeps its buckets, any number of handler calls, whatever they return, for
  -- resources of which none has a bucket's name, leaves that bucket as it was.
  pub Spares-kept : {name : String} {w v : W} → Spares name w v → K.view v name ≡ K.view w name
  Spares-kept none_yet = refl
  Spares-kept {name = name} (one_more r call other) = Call-others call name other ∙ Spares-kept r

  -- A call that succeeds. `Create` is called where the bucket does not exist.
  pub data Served (cr : Bucket) : Request → W → W → Type 0 where
    observed :
        (w : W) {o : ExternalObservation}
        → (observe_cr (client N c) (record { cr = cr; world = w })).0 ≡ ok o
        → Served cr observes w (observe_cr (client N c) (record { cr = cr; world = w })).1.world
    created :
        (w : W) {o : ExternalCreation}
        → K.view w cr.external_name ≡ none
        → (create_cr (client N c) (record { cr = cr; world = w })).0 ≡ ok o
        → Served cr creates w (create_cr (client N c) (record { cr = cr; world = w })).1.world
    updated :
        (w : W)
        → (update_bucket (client N c) (record { cr = cr; world = w })).0 ≡ ok tt
        → Served cr updates w (update_bucket (client N c) (record { cr = cr; world = w })).1.world
    deleted :
        (w : W)
        → (delete_cr (client N c) (record { cr = cr; world = w })).0 ≡ ok tt
        → Served cr deletes w (delete_cr (client N c) (record { cr = cr; world = w })).1.world

  Served-Call : {cr : Bucket} {q : Request} {w v : W} → Served cr q w v → Call cr q w v
  Served-Call (observed w h) = observed w
  Served-Call (created w free h) = created w
  Served-Call (updated w h) = updated w
  Served-Call (deleted w h) = deleted w

  Served-own :
      {cr : Bucket} {q : Request} {w v : W}
      → Served cr q w v
      → K.view v cr.external_name
        ≡ after (K.blank cr.external_name) q cr (K.view w cr.external_name)
  unfolding after
  Served-own {cr = cr} (observed w h) =
      let s : Env Bucket W = record { cr = cr; world = w } in
      ap (λ v. K.view v cr.external_name) (observe_cr-world N D c K s)
      ∙ ap (λ v. v cr.external_name) (K.get_reads cr.external_name w)
  Served-own {cr = cr} (created w free h) =
      let s : Env Bucket W = record { cr = cr; world = w } in
      ap (λ v. K.view v cr.external_name) (create_cr-world N D c K s)
      ∙ create-made N D c K cr.external_name (parameters cr) w free (create_cr-made N D c K s h)
  Served-own {cr = cr} (updated w h) =
      let s : Env Bucket W = record { cr = cr; world = w } in
      update_bucket-made N D c K s (c.get_bucket_info cr.external_name w).0 refl h
  Served-own {cr = cr} (deleted w h) =
      let s : Env Bucket W = record { cr = cr; world = w } in
      delete_cr-gone N D c K s (c.delete_bucket cr.external_name w).0 refl h

  Served-refines :
      {cr : Bucket} {q : Request} {w v : W}
      → Served cr q w v
      → (m : String) → K.view v m ≡ apply K.blank q cr (K.view w) m
  unfolding apply put_bucket
  Served-refines {cr = cr} {q = q} sv m =
      ground (arith, eq_iff m cr.external_name, Served-own sv, Call-others (Served-Call sv) m)

  -- Any number of calls that succeed, the last one first, for any resources.
  pub data Run (w : W) : List (Request × Bucket) → W → Type 0 where
    start : Run w [] w
    next :
        {l : List (Request × Bucket)} {q : Request} {cr : Bucket} {v u : W}
        → Run w l v
        → Served cr q v u
        → Run w ((q, cr) ∷ l) u

  -- Over a service that keeps its buckets, any number of handler calls that succeed, for any
  -- resources, `Create` only where the bucket does not exist, leaves the table of buckets that the
  -- specification gives: `Create` puts the wanted bucket, `Update` sets an ACL that is given,
  -- `Delete` removes the bucket, `Observe` changes nothing, and no call touches another bucket.
  pub Run-refines :
      {w : W} {l : List (Request × Bucket)} {v : W}
      → Run w l v
      → K.view v ≡ replay K.blank l (K.view w)
  unfolding replay
  Run-refines start = refl
  Run-refines (next {q = q} {cr = cr} r sv) =
      fun_ext (Served-refines sv) ∙ ap (apply K.blank q cr) (Run-refines r)
