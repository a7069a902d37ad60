-- ===== src/Clients/Sls/Laws.antt =====
-- Theorems on the requests and the comparisons of pkg/clients/sls.
use provider_alibaba.Base.{
  String, true, false, ◌≡◌, ◌≢◌, arith, refl, some, List, [], ◌∷◌, eq_iff, eq_refl,
}
use provider_alibaba.Base.Dict.{Dict}
use provider_alibaba.Go.{ok, wrap_err}
use provider_alibaba.Apis.Sls.{LogtailParameters, MachineGroupParameters, MachineGroupAttribute}
use provider_alibaba.Apis
use provider_alibaba.Clients.Sls.Sdk.{SdkClient}
use provider_alibaba.Clients.Sls.Sdk
use provider_alibaba.Clients.Sls.Config.{
  make_input_detail, make_config, with_optional, empty_input_detail, or_keep, create_config,
}
use provider_alibaba.Clients.Sls.Project.{err_failed_to_create_sls_store}
use provider_alibaba.Clients.Sls.MachineGroup.{
  deep_equal, matches_machine_group, type_differs, is_machine_group_update_to_date,
}

module _ {S : Type 0} where
  make_input_detail-supported :
      (t : LogtailParameters) (s : S) {path pattern topic : String}
      → t.input_type ≡ some "file"
      → t.input_detail.log_type ≡ some "common_reg_log"
      → t.input_detail.log_path ≡ some path
      → t.input_detail.file_pattern ≡ some pattern
      → t.input_detail.topic_format ≡ some topic
      → make_input_detail t s ≡ (
        ok (
            with_optional t.input_detail (record empty_input_detail {
              log_path = path;
              file_pattern = pattern;
              log_type = "common_reg_log";
              topic_format = topic;
            })),
        s,
      )
  unfolding make_input_detail
  make_input_detail-supported t s it lt lp fp tf =
      ground (arith, eq_refl "file", eq_refl "common_reg_log")

  -- A log type that the switch does not know is not refused: the config carries an input detail with
  -- nothing in it.
  pub make_input_detail-unknown :
      (t : LogtailParameters) (s : S) {log_type : String}
      → t.input_type ≡ some "file"
      → t.input_detail.log_type ≡ some log_type
      → log_type ≢ "common_reg_log"
      → make_input_detail t s ≡ (ok empty_input_detail, s)
  unfolding make_input_detail
  make_input_detail-unknown t s {log_type} it lt h =
      ground (arith, eq_refl "file", eq_iff log_type "common_reg_log")

pub deep_equal_sound : (xs ys : List String) → deep_equal xs ys ≡ true → xs ≡ ys
unfolding deep_equal
deep_equal_sound [] [] h = refl
deep_equal_sound [] (y ∷ ys) h = ground arith
deep_equal_sound (x ∷ xs) [] h = ground arith
deep_equal_sound (x ∷ xs) (y ∷ ys) h = ground (arith, eq_iff x y, deep_equal_sound xs ys)

module _ {S : Type 0} where
  matches_machine_group-fits :
      (p : MachineGroupParameters) (g : Sdk.MachineGroup) (s : S) {t : String} {l : List String}
      {a : MachineGroupAttribute}
      → p.machine_id_type ≡ some t
      → p.machine_id_list ≡ some l
      → p.attribute ≡ some a
      → (matches_machine_group p g s).0 ≡ ok true
      → (g.machine_id_type ≡ t)
        × (g.machine_id_list ≡ l)
        × (type_differs p.group_type g.group_type ≡ false)
        × (g.attribute.external_name ≡ a.external_name)
        × (g.attribute.topic_name ≡ a.topic_name)
  matches_machine_group-fits p g s {t} {l} {a} pt pl pa h = ground (
    arith,
    eq_iff g.machine_id_type t,
    deep_equal_sound g.machine_id_list l,
    eq_iff g.attribute.external_name a.external_name,
    eq_iff g.attribute.topic_name a.topic_name,
  )

  -- Where the comparison of machine groups answers true and the id type, the id list and the
  -- attribute are given, the group of the service has them, the members in the same order, and the
  -- wanted type where one is given.
  pub is_machine_group_update_to_date_sound :
      (cr : Apis.Sls.MachineGroup) (g : Sdk.MachineGroup) (s : S) {t : String} {l : List String}
      {a : MachineGroupAttribute}
      → cr.for_provider.machine_id_type ≡ some t
      → cr.for_provider.machine_id_list ≡ some l
      → cr.for_provider.attribute ≡ some a
      → (is_machine_group_update_to_date cr (some g) s).0 ≡ ok true
      → (g.machine_id_type ≡ t)
        × (g.machine_id_list ≡ l)
        × (type_differs cr.for_provider.group_type g.group_type ≡ false)
        × (g.attribute.external_name ≡ a.external_name)
        × (g.attribute.topic_name ≡ a.topic_name)
  unfolding is_machine_group_update_to_date
  is_machine_group_update_to_date_sound cr g s pt pl pa h =
      matches_machine_group-fits cr.for_provider g s pt pl pa h

module _ {W : Type 0} (c : SdkClient W) where
  -- CreateConfig for a file input of type common_reg_log whose required texts are given sends one
  -- request to the project of the output detail, with these texts and the optional settings, and
  -- wraps what the service answers.
  pub create_config-supported :
      (name : String) (t : LogtailParameters) (w : W) {path pattern topic output_type : String}
      → t.input_type ≡ some "file"
      → t.input_detail.log_type ≡ some "common_reg_log"
      → t.input_detail.log_path ≡ some path
      → t.input_detail.file_pattern ≡ some pattern
      → t.input_detail.topic_format ≡ some topic
      → t.output_type ≡ some output_type
      → create_config c name t w
        ≡ wrap_err err_failed_to_create_sls_store
            (c.create_config t.output_detail.project_name (record {
              name = name;
              input_type = "file";
              input_detail = with_optional t.input_detail (record empty_input_detail {
                log_path = path;
                file_pattern = pattern;
                log_type = "common_reg_log";
                topic_format = topic;
              });
              output_type = output_type;
              project_name = t.output_detail.project_name;
              log_store_name = t.output_detail.log_store_name;
              log_sample = or_keep "" t.log_sample;
            }))
            w
  unfolding create_config make_config
  create_config-supported name t w it lt lp fp tf ot =
      ground (arith, make_input_detail-supported t w it lt lp fp tf)
