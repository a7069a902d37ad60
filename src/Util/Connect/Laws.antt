-- ===== src/Util/Connect/Laws.antt =====
-- What a successful `Connect` rests on, and the kinds for which it cannot succeed.
use provider_alibaba.Base.{String, Option, none, some, ◌≡◌, ◌≢◌, refl, arith}
use provider_alibaba.Go.{M, Result, Outcome, ok, err, panic, value, error, message, fail, ◌>>=◌}
use provider_alibaba.Crossplane.{Resource}
use provider_alibaba.Apis.{Managed, Kind}
use provider_alibaba.Util.Kube.{Kube, JoinsGroupKind}
use provider_alibaba.Util.Endpoint.{get_endpoint}
use provider_alibaba.Util.Endpoint.Laws.{IsUnserved, get_endpoint-unserved}
use provider_alibaba.Util.Client.{ClientEstablishmentInfo, prepare_client}
use provider_alibaba.Util.Client.Laws.{prepare_client-endpoint}
use provider_alibaba.Util.Connect.{finish, connect_named, connect_with}

module _ {W Cl : Type 0} (K : Kube W) (make : ClientEstablishmentInfo → Result Cl) where
  -- The information that a client was made from: an endpoint for the kind in the region, and both keys.
  abbrev pub MadeFrom : String → Cl → ClientEstablishmentInfo → Type 0
  MadeFrom kind client info =
      (make info ≡ value client)
      × (get_endpoint K (some kind) info.region ≡ value info.endpoint)
      × (info.access_key_id ≢ "")
      × (info.access_key_secret ≢ "")

  finish-ok :
      (msg : String) (r : Result Cl) (w : W) {client : Cl}
      → (finish K make msg r w).0 ≡ ok client
      → r ≡ value client
  finish-ok msg (value _) w h = ground arith
  finish-ok msg (error _) w h = ground arith

  after_prepare :
      (msg : String) (r : Outcome ClientEstablishmentInfo × W) (w : W) {client : Cl}
      → (((λ (_ : W). r) >>= λ info. finish K make msg (make info)) w).0 ≡ ok client
      → (info : ClientEstablishmentInfo) × (r.0 ≡ ok info) × (make info ≡ value client)
  after_prepare msg (ok info, t) w h = (info, refl, finish-ok msg (make info) t h)
  after_prepare msg (err x, t) w h = absurd (cc)
  after_prepare msg (panic, t) w h = absurd (cc)

  connect_named-ok :
      (mg : Managed) (msg kind : String) (reference : Option String) (w : W) {client : Cl}
      → (connect_named K make mg msg kind reference w).0 ≡ ok client
      → (info : ClientEstablishmentInfo) × MadeFrom kind client info
  connect_named-ok mg msg kind none w h = absurd (cc)
  connect_named-ok mg msg kind (some name) w h =
      let (info, prepared, made) = after_prepare msg (prepare_client K mg (some kind) name w) w h in
      let (endpoint, id, secret) = prepare_client-endpoint K mg (some kind) name w prepared in
      (info, (made, endpoint, id, secret))

  -- Where `Connect` gives a client, the resource is of the controller's own kind, and the client
  -- was made from an endpoint that `GetEndpoint` has for the resource's kind in the handed out
  -- region and from a key id and a secret that are not empty.
  pub connect_with-ok :
      {P O : Type 0} (k : Kind (Resource P O)) (not_kind msg : String) (mg : Managed) (w : W)
      {client : Cl}
      → (connect_with K make k not_kind msg mg w).0 ≡ ok client
      → (cr : Resource P O) × (k.of_managed mg ≡ some cr)
        × (info : ClientEstablishmentInfo) × MadeFrom cr.kind client info
  unfolding connect_with
  connect_with-ok {P} {O} k not_kind msg mg w {client} h = go (k.of_managed mg) refl h
    where
      go :
          (o : Option (Resource P O))
          → k.of_managed mg ≡ o
          → (elim o as (λ _. M W Cl) [
            | none ↦ fail (message not_kind)
            | some cr ↦ connect_named K make mg msg cr.kind cr.provider_config_reference
          ]
              w).0
            ≡ ok client
          → (cr : Resource P O) × (k.of_managed mg ≡ some cr)
            × (info : ClientEstablishmentInfo) × MadeFrom cr.kind client info
      go none e g = absurd (cc)
      go (some cr) e g =
          let (info, made) = connect_named-ok mg msg cr.kind cr.provider_config_reference w g in
          (cr, e, info, made)

  -- For a resource that bears a kind which `GetEndpoint` does not serve no client is ever made,
  -- whatever the cluster answers.
  pub connect_with-unserved :
      JoinsGroupKind K
      → {P O : Type 0} (k : Kind (Resource P O)) (not_kind msg : String) (mg : Managed) (w : W)
      → ((cr : Resource P O) → k.of_managed mg ≡ some cr → IsUnserved cr.kind)
      → (client : Cl) → (connect_with K make k not_kind msg mg w).0 ≢ ok client
  connect_with-unserved joins k not_kind msg mg w unserved client h =
      let (cr, is_cr, info, made) = connect_with-ok k not_kind msg mg w h in
      get_endpoint-unserved K joins (unserved cr is_cr) info.region info.endpoint made.1
