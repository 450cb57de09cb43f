-- ===== src/Tests/Items.antt =====
-- The theorems on drivers and their list, on the samples.
use vscp_mqtt_daemon.Prelude.{◌%◌, true, false, List, [], ◌∷◌, bytes, ◌≡◌, refl}
use vscp_mqtt_daemon.Device.{DeviceItem}
use vscp_mqtt_daemon.Device.Print.{Formats, get_as_string}
use vscp_mqtt_daemon.Device.Fields.{IsPlain}
use vscp_mqtt_daemon.DeviceList.{get_count_drivers}
use vscp_mqtt_daemon.DeviceList.Count.{counts_for, number_of, get_count_drivers-number_of}
use vscp_mqtt_daemon.Tests.Samples.{driver, driver2}

-- Every number as one digit.
abbrev formats : Formats
formats = record {
  dec = λ n. bytes "7";
  hex4 = λ n. bytes "0004";
  guid_string = λ g. bytes "FF:FE";
}

formats-IsPlain : IsPlain formats
formats-IsPlain = record {
  dec_comma = λ n. refl;
  hex4_comma = λ n. refl;
  guid_comma = λ g. refl;
  dec_newline = λ n. refl;
  hex4_newline = λ n. refl;
  guid_newline = λ g. refl;
}

abbrev drivers : List DeviceItem
drivers = driver ∷ driver2 ∷ record driver { enable = false } ∷ []

driver-line :
    get_as_string formats driver
    ≡ bytes "true,true,can4vscp,/lib/can.so,/dev/ttyUSB0,7,7l,FF:FE,0004"
unfolding get_as_string
driver-line = refl

get_count_drivers-number_of_example :
    get_count_drivers 1 true drivers ≡ number_of (counts_for 1) drivers % 65536
get_count_drivers-number_of_example = get_count_drivers-number_of 1 true drivers
