-- ===== src/Config/Tests.antt =====
-- The theorems about the configuration at concrete tabs.
use zigbee_control.Prelude.{String, List, none, some, [], ◌∷◌}
use zigbee_control.Prelude.Int.{pos}
use zigbee_control.Prelude.Results.{Result, ok}
use zigbee_control.Json.{Fields, null, array, cons, nil}
use zigbee_control.Config.{TabConfig, ConfigService, Invalid}
use zigbee_control.Config.Loading.{TabsFile, content, YamlOutcome, loaded, AppSettings}

abbrev lights : TabConfig
lights = record {
  text = " Lights ";
  icon_url = "/icon.svg";
  iframe_url = "http://lights";
  tab_color = none;
  k8s = some (record { namespace = "home"; deployment = "lights " });
}

abbrev one_tab : ConfigService
one_tab = record { tabs = lights ∷ [] }

abbrev clean_lights : TabConfig
clean_lights = record lights {
  text = "Lights";
  k8s = some (record { namespace = "home"; deployment = "lights" });
}

abbrev clean_tab : ConfigService
clean_tab = record { tabs = clean_lights ∷ [] }

abbrev safe_load : String → YamlOutcome
safe_load raw = loaded (array (cons null nil))

abbrev typed : Fields → Result String (List TabConfig)
typed fields = ok (lights ∷ [])

abbrev shown : Invalid → String
shown e = "invalid"

abbrev files : String → TabsFile
files path = content "- text: Lights"

abbrev app_settings : AppSettings
app_settings = record { tabs_config_path = "tabs.yaml"; k8s_restart_timeout = pos 180 }
