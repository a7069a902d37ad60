-- ===== src/Clients/Sls/Panics.antt =====
-- Where CreateIndex and CreateConfig of pkg/clients/sls read a nil pointer.
use provider_alibaba.Base.{
  String, Bool, true, false, ◌||◌, ◌&&◌, not, ◌==◌, ◌≡◌, refl, arith, Option, none, some, is_some,
  [], ◌∷◌,
}
use provider_alibaba.Base.Dict.{Dict}
use provider_alibaba.Go.{Outcome, ok, err, panic, panics}
use provider_alibaba.Apis
use provider_alibaba.Apis.Sls.{LogtailParameters, LogstoreIndexParameters}
use provider_alibaba.Clients.Sls.Sdk
use provider_alibaba.Clients.Sls.Sdk.{SdkClient, LogConfig}
use provider_alibaba.Clients.Sls.Index.{make_key, make_keys, create_index}
use provider_alibaba.Clients.Sls.Config.{make_input_detail, make_config, create_config}

abbrev pub is_nil : {A : Type 0} → Option A → Bool
is_nil p = not (is_some p)

-- One of the pointers that every key must have is nil.
abbrev pub lacks_key : Apis.Sls.IndexKey → Bool
lacks_key v = is_nil v.token || is_nil v.case_sensitive || is_nil v.key_type

abbrev pub lacks_keys : Dict Apis.Sls.IndexKey → Bool
lacks_keys [] = false
lacks_keys (entry ∷ rest) = lacks_key entry.1 || lacks_keys rest

abbrev fails : {A : Type 0} → Outcome A → Bool
fails (ok _) = false
fails (err _) = true
fails panic = false

module _ {S : Type 0} where
  make_key-fails : (v : Apis.Sls.IndexKey) (s : S) → fails (make_key v s).0 ≡ false
  unfolding make_key
  make_key-fails v s = ground arith

  make_keys-fails : (keys : Dict Apis.Sls.IndexKey) (s : S) → fails (make_keys keys s).0 ≡ false
  unfolding make_keys
  make_keys-fails [] s = refl
  make_keys-fails (entry ∷ rest) s =
      ground (arith, make_key-fails entry.1 s, make_keys-fails rest (make_key entry.1 s).1)

  make_key-panics : (v : Apis.Sls.IndexKey) (s : S) → panics (make_key v s).0 ≡ lacks_key v
  unfolding make_key
  make_key-panics v s = ground arith

  make_keys-panics :
      (keys : Dict Apis.Sls.IndexKey) (s : S) → panics (make_keys keys s).0 ≡ lacks_keys keys
  unfolding make_keys
  make_keys-panics [] s = refl
  make_keys-panics (entry ∷ rest) s = ground (
    arith,
    make_key-fails entry.1 s,
    make_key-panics entry.1 s,
    make_keys-panics rest (make_key entry.1 s).1,
  )

-- A pointer that the code reads for an input of this type, whatever the log type, or for
-- common_reg_log.
abbrev pub lacks_config : LogtailParameters → Bool
lacks_config t = elim t.input_type [
  | none ↦ true
  | some input_type ↦
      (input_type == "file")
      && (is_nil t.output_type || elim t.input_detail.log_type [
        | none ↦ true
        | some log_type ↦
            (log_type == "common_reg_log")
            && (is_nil t.input_detail.log_path
                || is_nil t.input_detail.file_pattern
                || is_nil t.input_detail.topic_format)
      ])
]

module _ {S : Type 0} where
  make_config-panics :
      (name : String) (t : LogtailParameters) (s : S)
      → panics (make_config name t s).0 ≡ lacks_config t
  unfolding make_config make_input_detail
  make_config-panics name t s = ground arith

module _ {W : Type 0} (c : SdkClient W) where
  -- Where the request itself does not panic, CreateIndex panics exactly where a key has no token,
  -- case flag or type, or the project or the log store is not given.
  pub create_index-panics :
      ((p l : String) (index : Sdk.Index) (w : W) → panics (c.create_index p l index w).0 ≡ false)
      → (param : LogstoreIndexParameters) (w : W)
      → panics (create_index c param w).0
        ≡ (lacks_keys param.keys || (is_nil param.project_name || is_nil param.logstore_name))
  unfolding create_index
  create_index-panics returns param w =
      grind (arith, make_keys-fails param.keys w, make_keys-panics param.keys w, returns)

  -- Where the request itself does not panic, CreateConfig panics exactly where the input type is
  -- not given, or where it is file and the output type or the log type is not given, or the log
  -- type is common_reg_log and the path, the pattern or the topic format is not given.
  pub create_config-panics :
      ((p : String) (config : LogConfig) (w : W) → panics (c.create_config p config w).0 ≡ false)
      → (name : String) (t : LogtailParameters) (w : W)
      → panics (create_config c name t w).0 ≡ lacks_config t
  unfolding create_config
  create_config-panics returns name t w = grind (arith, make_config-panics name t w, returns)
