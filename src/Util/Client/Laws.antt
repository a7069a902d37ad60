-- ===== src/Util/Client/Laws.antt =====
-- What `PrepareClient` promises.
use provider_alibaba.Base.{String, Option, some, ◌≡◌, ◌≢◌, arith, eq_iff}
use provider_alibaba.Go.{Err, wrap, ok, err, value}
use provider_alibaba.Apis.{Managed}
use provider_alibaba.Util.Kube.{Kube, JoinsGroupKind, AlibabaCredentials}
use provider_alibaba.Util.Endpoint.{get_endpoint}
use provider_alibaba.Util.Endpoint.Laws.{IsUnserved, get_endpoint-unserved}
use provider_alibaba.Util.Provider.{get_credentials}
use provider_alibaba.Util.Client.{ClientEstablishmentInfo, prepare_client, err_track_usage}

module _ {W : Type 0} (K : Kube W) where
  -- Credentials that are handed out have both keys.
  pub get_credentials_complete :
      (name : String) (w : W) {c : AlibabaCredentials}
      → (get_credentials K name w).0 ≡ ok c
      → (c.access_key_id ≢ "") × (c.access_key_secret ≢ "")
  unfolding get_credentials
  get_credentials_complete name w {c} h =
      ground (arith, eq_iff c.access_key_id "", eq_iff c.access_key_secret "")

  -- Where `PrepareClient` succeeds, it hands out the endpoint that `GetEndpoint` gives for the
  -- region it hands out, and a key id and a secret that are not empty.
  pub prepare_client-endpoint :
      (mg : Managed) (res : Option String) (name : String) (w : W) {i : ClientEstablishmentInfo}
      → (prepare_client K mg res name w).0 ≡ ok i
      → (get_endpoint K res i.region ≡ value i.endpoint)
        × (i.access_key_id ≢ "")
        × (i.access_key_secret ≢ "")
  unfolding prepare_client
  prepare_client-endpoint mg res name w {i} h = grind (arith, get_credentials_complete)

  -- No client can be prepared for a kind that `GetEndpoint` does not serve, whatever the cluster
  -- answers.
  pub prepare_client-unserved :
      JoinsGroupKind K
      → (mg : Managed) {kind : String} → IsUnserved kind
      → (name : String) (w : W) (i : ClientEstablishmentInfo)
      → (prepare_client K mg (some kind) name w).0 ≢ ok i
  prepare_client-unserved joins mg {kind} u name w i h =
      get_endpoint-unserved K joins u i.region i.endpoint
        (prepare_client-endpoint mg (some kind) name w h).0

  -- Where the tracker of provider configs refuses a resource, `PrepareClient` wraps its error and
  -- reads nothing.
  pub prepare_client-untracked :
      (mg : Managed) (res : Option String) (name : String) (w : W) {e : Err}
      → (K.track mg w).0 ≡ err e
      → prepare_client K mg res name w ≡ (err (wrap err_track_usage e), (K.track mg w).1)
  unfolding prepare_client
  prepare_client-untracked mg res name w h = ground arith
