-- ===== src/Device/Print.antt =====
-- src/devicelist.cpp: drivers as text. The conversions of `vscp_str_format` (`%d`, `%u`, `%lu`,
-- `%04X`) and `cguid::getAsString` are not in the repository: they are the parameters `dec`,
-- `hex4` and `guid_string`.
use vscp_mqtt_daemon.Prelude.{
  ℕ, Bool, List, [], ◌∷◌, ◌++◌, Text, bytes, ◌==◌, length, if◌then◌else◌,
}
use vscp_mqtt_daemon.Device.{Guid, DeviceItem}

pub record Formats : Type 0 where
  pub dec : ℕ → Text
  pub hex4 : ℕ → Text
  pub guid_string : Guid → Text

abbrev pub comma : Text
comma = bytes ","

abbrev pub bool_text : Bool → Text
bool_text b = if b then bytes "true" else bytes "false"

module _ (f : Formats) where
  unfoldable pub get_as_string : DeviceItem → Text
  get_as_string d =
      bool_text d.enable
      ++ (comma
          ++ (bool_text d.active
              ++ (comma
                  ++ (d.name
                      ++ (comma
                          ++ (d.path
                              ++ (comma
                                  ++ (d.parameter
                                      ++ (comma
                                          ++ (f.dec d.driver_level
                                              ++ (comma
                                                  ++ ((f.dec d.device_flags ++ bytes "l")
                                                      ++ (comma
                                                          ++ (f.guid_string d.guid
                                                            ++ (comma
                                                            ++ f.hex4 d.translation)))))))))))))))

  -- JSON_DRV_TEMPLATE with its conversions filled in.
  unfoldable pub get_as_json : DeviceItem → Text
  get_as_json d =
      bytes "{                \"enable\"      : "
      ++ (bool_text d.enable
          ++ (bytes ",                 \"active\"      : "
              ++ (bool_text d.active
                  ++ (bytes ",                 \"name\"        : \""
                      ++ (d.name
                          ++ (bytes "\",             \"path\"        : \""
                              ++ (d.path
                                  ++ (bytes "\",             \"param\"       : \""
                                      ++ (d.parameter
                                          ++ (bytes "\",             \"level\"       : "
                                              ++ (f.dec d.driver_level
                                                  ++ (bytes ",                 \"flags\"       : "
                                                      ++ (f.dec d.device_flags
                                                          ++ (bytes
                                                            ",                \"guid\"        : \""
                                                            ++ (f.guid_string d.guid
                                                            ++ (bytes
                                                            "\",             \"translation\" : "
                                                            ++ (f.dec d.translation
                                                            ++ bytes
                                                            "             }")))))))))))))))))

  -- getAllAsString
  unfoldable pub get_all_as_string : List DeviceItem → Text
  get_all_as_string [] = []
  get_all_as_string (d ∷ ds) = get_as_string d ++ (bytes "\r\n" ++ get_all_as_string ds)

  -- The loop of getAllAsJSON, `str` being the text so far.
  unfoldable pub drivers_json : Text → List DeviceItem → Text
  drivers_json str [] = str
  drivers_json str (d ∷ ds) =
      drivers_json ((if length str == 0 then str else str ++ comma) ++ get_as_json d) ds

  -- getAllAsJSON, with `driver_template` around the loop's text.
  unfoldable pub get_all_as_json : List DeviceItem → Text
  get_all_as_json ds = bytes "{    \"drivers\" : [" ++ (drivers_json [] ds ++ bytes "]}")
