-- ===== src/Util/Connect/Served.antt =====
-- When `Connect` gives a client: exactly where the cluster and the service answer as it needs.
use provider_alibaba.Base.{
  String, Option-cases, some, ◌≡◌, ◌≢◌, ◌↔◌, ◌⊎◌, inl, inr, refl, arith, eq_iff,
}
use provider_alibaba.Go.{Result, Outcome, ok, err, panic, Err, value, error}
use provider_alibaba.Crossplane.{Resource}
use provider_alibaba.Apis.{Managed, Kind}
use provider_alibaba.Util.Kube.{Kube, ProviderConfig, AlibabaCredentials}
use provider_alibaba.Util.Endpoint.{get_endpoint}
use provider_alibaba.Util.Provider.{get_credentials, get_region}
use provider_alibaba.Util.Client.{ClientEstablishmentInfo, prepare_client}
use provider_alibaba.Util.Connect.{connect_with}

-- What the client is made from.
abbrev pub info_of : AlibabaCredentials → ProviderConfig → String → ClientEstablishmentInfo
info_of cred config endpoint = record {
  access_key_id = cred.access_key_id;
  access_key_secret = cred.access_key_secret;
  security_token = cred.security_token;
  region = config.spec.region;
  endpoint = endpoint;
}

Outcome-cases :
    {A : Type 0} (r : Outcome A)
    → ((a : A) × (r ≡ ok a)) ⊎ (((e : Err) × (r ≡ err e)) ⊎ (r ≡ panic))
Outcome-cases (ok a) = inl (a, refl)
Outcome-cases (err e) = inr (inl (e, refl))
Outcome-cases panic = inr (inr refl)

Result-cases : {A : Type 0} (r : Result A) → ((a : A) × (r ≡ value a)) ⊎ ((e : Err) × (r ≡ error e))
Result-cases (value a) = inl (a, refl)
Result-cases (error e) = inr (e, refl)

module _ {W Cl : Type 0} (K : Kube W) (make : ClientEstablishmentInfo → Result Cl) where
  -- The answers that `PrepareClient` needs, in the order in which it asks: the usage is tracked, the
  -- ProviderConfig is found and its credentials are read and have both keys, the ProviderConfig is found
  -- again, and the kind has an endpoint in its region, from which a client is made.
  pub record Answers (mg : Managed) (kind name : String) (w : W) (client : Cl) : Type 0 where
    config : ProviderConfig
    bytes : String
    cred : AlibabaCredentials
    again : ProviderConfig
    endpoint : String
    tracked : (K.track mg w).0 ≡ ok tt
    found : (K.get_provider_config name (K.track mg w).1).0 ≡ ok config
    extracted :
        (K.extract_credentials config.spec.credentials
          (K.get_provider_config name (K.track mg w).1).1).0
        ≡ ok bytes
    parsed : K.unmarshal bytes ≡ value cred
    id_given : cred.access_key_id ≢ ""
    secret_given : cred.access_key_secret ≢ ""
    found_again :
        (K.get_provider_config name
          (K.extract_credentials config.spec.credentials
            (K.get_provider_config name (K.track mg w).1).1).1).0
        ≡ ok again
    served : get_endpoint K (some kind) again.spec.region ≡ value endpoint
    made : make (info_of cred again endpoint) ≡ value client

  connect_with_of_Answers :
      {P O : Type 0} (k : Kind (Resource P O)) (not_kind msg : String) (mg : Managed) (w : W)
      {client : Cl} (cr : Resource P O) (name : String)
      → k.of_managed mg ≡ some cr
      → cr.provider_config_reference ≡ some name
      → Answers mg cr.kind name w client
      → (connect_with K make k not_kind msg mg w).0 ≡ ok client
  unfolding connect_with prepare_client get_credentials get_region
  connect_with_of_Answers k not_kind msg mg w cr name own named a = ground (
    arith,
    a.tracked,
    a.found,
    a.extracted,
    a.parsed,
    a.id_given,
    a.secret_given,
    a.found_again,
    a.served,
    a.made,
    eq_iff a.cred.access_key_id "",
    eq_iff a.cred.access_key_secret "",
  )

  prepared-Answers :
      (mg : Managed) (kind name : String) (w : W) {info : ClientEstablishmentInfo} {client : Cl}
      → (prepare_client K mg (some kind) name w).0 ≡ ok info
      → make info ≡ value client
      → Answers mg kind name w client
  unfolding prepare_client get_credentials get_region
  prepared-Answers mg kind name w {info} {client} h made =
      let w1 = (K.track mg w).1 in
      let w2 = (K.get_provider_config name w1).1 in
      elim (Outcome-cases (K.track mg w).0) [
        | inr bad ↦ absurd (ground arith)
        | inl (_, tracked) ↦ elim (Outcome-cases (K.get_provider_config name w1).0) [
          | inr bad ↦ absurd (ground arith)
          | inl (config, found) ↦
              let w3 = (K.extract_credentials config.spec.credentials w2).1 in
              elim (Outcome-cases (K.extract_credentials config.spec.credentials w2).0) [
                | inr bad ↦ absurd (ground arith)
                | inl (bytes, extracted) ↦ elim (Result-cases (K.unmarshal bytes)) [
                  | inr bad ↦ absurd (ground arith)
                  | inl (cred, parsed) ↦ elim (Outcome-cases (K.get_provider_config name w3).0) [
                    | inr bad ↦ absurd (ground arith)
                    | inl (again, found_again) ↦
                        elim (Result-cases (get_endpoint K (some kind) again.spec.region)) [
                          | inr bad ↦ absurd (ground arith)
                          | inl (endpoint, served) ↦ record {
                            config = config;
                            bytes = bytes;
                            cred = cred;
                            again = again;
                            endpoint = endpoint;
                            tracked = tracked;
                            found = found;
                            extracted = extracted;
                            parsed = parsed;
                            id_given = ground (arith, eq_iff cred.access_key_id "");
                            secret_given = ground (arith, eq_iff cred.access_key_secret "");
                            found_again = found_again;
                            served = served;
                            made = ground arith;
                          }
                        ]
                  ]
                ]
              ]
        ]
      ]

  -- The resource is of the controller's own kind and names a ProviderConfig, and the answers follow.
  pub record Served {P O : Type 0} (k : Kind (Resource P O)) (mg : Managed) (w : W) (client : Cl)
      : Type 0 where
    cr : Resource P O
    name : String
    own : k.of_managed mg ≡ some cr
    named : cr.provider_config_reference ≡ some name
    answers : Answers mg cr.kind name w client

  connect_with-Served :
      {P O : Type 0} (k : Kind (Resource P O)) (not_kind msg : String) (mg : Managed) (w : W)
      {client : Cl}
      → (connect_with K make k not_kind msg mg w).0 ≡ ok client
      → Served k mg w client
  unfolding connect_with
  connect_with-Served k not_kind msg mg w {client} h = elim (Option-cases (k.of_managed mg)) [
    | inl missing ↦ absurd (ground arith)
    | inr (cr, own) ↦ elim (Option-cases cr.provider_config_reference) [
      | inl missing ↦ absurd (ground arith)
      | inr (name, named) ↦ elim (Outcome-cases (prepare_client K mg (some cr.kind) name w).0) [
        | inr bad ↦ absurd (ground arith)
        | inl (info, prepared) ↦ record {
          cr = cr;
          name = name;
          own = own;
          named = named;
          answers =
              prepared-Answers mg cr.kind name w {info = info} {client = client} prepared
                (ground (arith, Result-cases (make info)));
        }
      ]
    ]
  ]

  -- `Connect` gives a client exactly where the resource is of the own kind of the controller and
  -- names a ProviderConfig, its usage is tracked, the ProviderConfig is found, its credentials are
  -- extracted and parsed and have both keys, the ProviderConfig is found again, GetEndpoint has an
  -- endpoint for the kind in its region, and the client is the one that the constructor makes from
  -- these.
  pub connect_with_iff :
      {P O : Type 0} (k : Kind (Resource P O)) (not_kind msg : String) (mg : Managed) (w : W)
      (client : Cl)
      → ((connect_with K make k not_kind msg mg w).0 ≡ ok client) ↔ Served k mg w client
  connect_with_iff k not_kind msg mg w client = (
    connect_with-Served k not_kind msg mg w,
    λ s. connect_with_of_Answers k not_kind msg mg w s.cr s.name s.own s.named s.answers,
  )
