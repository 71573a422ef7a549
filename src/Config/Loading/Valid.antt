-- ===== src/Config/Loading/Valid.antt =====
-- What a configuration that was loaded is like.
use zigbee_control.Prelude.{
  ◌≡◌, refl, sym, ap, ◌∙◌, ◌≢◌, ◌<◌, String, Option, none, some, List, [], ◌∷◌, arith, inl, inr,
}
use zigbee_control.Prelude.Results.{Result, ok, err, ◌>>=◌, Result-cases, >>=-eq-ok}
use zigbee_control.Json.{Fields}
use zigbee_control.Config.{
  TabConfig, Invalid, ConfigService, validate_tabs, create, validate_all, tab_count,
}
use zigbee_control.Config.Laws.{validate_tabs_twice}
use zigbee_control.Config.Loading.{
  TabsFile, missing, not_a_file, undecodable, read_failed, content, YamlOutcome, loaded, yaml_error,
  AppSettings, invalid_text, wrap_validation, parse_yaml, model_validate, load_tabs_config,
  validate_root, root_of, or_empty, create_config_service, value_error, created,
}

validated : (raw tabs : List TabConfig) → validate_tabs raw ≡ ok tabs → validate_tabs tabs ≡ ok tabs
validated raw tabs h = sym (ap (λ r. r >>= validate_tabs) h) ∙ validate_tabs_twice raw ∙ h

module _ (safe_load : String → YamlOutcome) (typed : Fields → Result String (List TabConfig))
    (shown : Invalid → String) where
  valid-ok :
      (r : Result Invalid (List TabConfig)) (tabs : List TabConfig)
      → invalid_text safe_load typed shown r ≡ ok tabs
      → r ≡ ok tabs
  valid-ok (ok a) tabs h = cc
  valid-ok (err e) tabs h = cc

  model_validate-ok :
      (fields : Fields) (tabs : List TabConfig)
      → model_validate safe_load typed shown fields ≡ ok tabs
      → validate_tabs tabs ≡ ok tabs
  unfolding model_validate
  model_validate-ok fields tabs h =
      let (raw, read, rest) =
        >>=-eq-ok (typed fields) (λ raw. invalid_text safe_load typed shown (validate_tabs raw))
          h in
      validated raw tabs (valid-ok (validate_tabs raw) tabs rest)

  module _ (path : String) where
    wrapped-ok :
        (r : Result String (List TabConfig)) (tabs : List TabConfig)
        → wrap_validation safe_load typed shown path r ≡ ok tabs
        → r ≡ ok tabs
    wrapped-ok (ok a) tabs h = cc
    wrapped-ok (err e) tabs h = absurd (cc h)

    root-ok :
        (root : Option Fields) (tabs : List TabConfig)
        → validate_root safe_load typed shown path root ≡ ok tabs
        → validate_tabs tabs ≡ ok tabs
    root-ok none tabs h = absurd (cc h)
    root-ok (some fields) tabs h =
        model_validate-ok fields tabs
          (wrapped-ok (model_validate safe_load typed shown fields) tabs h)

    yaml-ok :
        (out : YamlOutcome) (tabs : List TabConfig)
        → parse_yaml safe_load typed shown path out ≡ ok tabs
        → validate_tabs tabs ≡ ok tabs
    yaml-ok (yaml_error message mark) tabs h = absurd (cc h)
    yaml-ok (loaded payload) tabs h = root-ok (root_of (or_empty payload)) tabs h

    load_tabs_config-ok :
        (file : TabsFile) (tabs : List TabConfig)
        → load_tabs_config safe_load typed shown path file ≡ ok tabs
        → validate_tabs tabs ≡ ok tabs
    unfolding load_tabs_config
    load_tabs_config-ok missing tabs h = absurd (cc h)
    load_tabs_config-ok not_a_file tabs h = absurd (cc h)
    load_tabs_config-ok undecodable tabs h = absurd (cc h)
    load_tabs_config-ok (read_failed strerror) tabs h = absurd (cc h)
    load_tabs_config-ok (content raw) tabs h = yaml-ok (safe_load raw) tabs h

module _ (safe_load : String → YamlOutcome) (typed : Fields → Result String (List TabConfig))
    (shown : Invalid → String) (path : String) where
  found_content :
      (file : TabsFile) (tabs : List TabConfig)
      → load_tabs_config safe_load typed shown path file ≡ ok tabs
      → (raw : String) × (file ≡ content raw)
  unfolding load_tabs_config
  found_content missing tabs h = absurd (cc h)
  found_content not_a_file tabs h = absurd (cc h)
  found_content undecodable tabs h = absurd (cc h)
  found_content (read_failed strerror) tabs h = absurd (cc h)
  found_content (content raw) tabs h = (raw, refl)

created-tabs :
    (tabs : List TabConfig) (service : ConfigService)
    → created (create tabs) ≡ ok service
    → (service.tabs ≡ tabs) × (0 < tab_count service)
unfolding create tab_count
created-tabs [] service h = absurd (cc h)
created-tabs (tab ∷ tabs) service h = ground arith

-- Validated tabs are never empty, so that the service is created.
created_of_valid :
    (tabs : List TabConfig) → validate_tabs tabs ≡ ok tabs → created (create tabs) ≢ err value_error
unfolding validate_tabs create validate_all
created_of_valid [] h = absurd (cc h)
created_of_valid (tab ∷ tabs) h = λ e. cc

module _ (safe_load : String → YamlOutcome) (typed : Fields → Result String (List TabConfig))
    (shown : Invalid → String) (files : String → TabsFile) where
  -- The service never refuses the tabs that the loader returned.
  pub create_config_service_no_value_error :
      (settings : AppSettings)
      → create_config_service safe_load typed shown files settings ≢ err value_error
  unfolding create_config_service
  create_config_service_no_value_error settings =
      let path = settings.tabs_config_path in
      elim (Result-cases (load_tabs_config safe_load typed shown path (files path))) [
        | inl (tabs, read) ↦ rw read (
            created_of_valid tabs
              (load_tabs_config-ok safe_load typed shown path (files path) tabs read))
        | inr (e, failed) ↦ rw failed (λ h. cc)
      ]

  -- A configuration service that the container creates was read from a file that is there, and has at
  -- least one tab; its tabs are valid as they stand: validating them again returns the same tabs.
  pub create_config_service-valid :
      (settings : AppSettings) (service : ConfigService)
      → create_config_service safe_load typed shown files settings ≡ ok service
      → ((raw : String) × (files settings.tabs_config_path ≡ content raw))
        × (validate_tabs service.tabs ≡ ok service.tabs)
        × (0 < tab_count service)
  unfolding create_config_service
  create_config_service-valid settings service =
      let path = settings.tabs_config_path in
      elim (Result-cases (load_tabs_config safe_load typed shown path (files path))) [
        | inl (tabs, read) ↦ rw read (λ h.
            let valid = load_tabs_config-ok safe_load typed shown path (files path) tabs read in
            let (same, some_tab) = created-tabs tabs service h in
            (
              found_content safe_load typed shown path (files path) tabs read,
              rw same valid,
              some_tab,
            ))
        | inr (e, failed) ↦ rw failed (λ h. absurd (cc h))
      ]
