-- ===== src/DeviceList/Count.antt =====
-- What getCountDrivers counts.
use vscp_mqtt_daemon.Prelude.{
  ℕ, suc, ◌+◌, ◌%◌, ◌<◌, Bool, not, ◌&&◌, ◌||◌, List, [], ◌∷◌, ◌==◌, ◌≡◌, arith, if◌then◌else◌, ◌∙◌,
  sym,
}
use vscp_mqtt_daemon.Device.{DeviceItem}
use vscp_mqtt_daemon.DeviceList.{count_enabled, count_round, count_from, get_count_drivers}

-- An enabled driver counts for type 0, and for types 1 and 2 alike if its level is not 0.
abbrev pub counts_for : ℕ → DeviceItem → Bool
counts_for type d =
    d.enable && (type == 0 || ((type == 1 || type == 2) && not (d.driver_level == 0)))

abbrev pub number_of : (DeviceItem → Bool) → List DeviceItem → ℕ
number_of p [] = 0
number_of p (d ∷ ds) = if p d then suc (number_of p ds) else number_of p ds

count_from-number_of :
    (type : ℕ) (only_active : Bool) (ds : List DeviceItem) (count : ℕ)
    → count < 65536
    → count_from type only_active ds count ≡ (count + number_of (counts_for type) ds) % 65536
unfolding count_from count_round count_enabled
count_from-number_of type only_active [] count h = omega arith
count_from-number_of type only_active (d ∷ ds) count h = ground (
  arith,
  count_from-number_of type only_active ds ((count + 1) % 65536),
  count_from-number_of type only_active ds count,
)

-- getCountDrivers returns the number of drivers that count for the type, modulo 65536. Its second
-- argument changes nothing.
pub get_count_drivers-number_of :
    (type : ℕ) (only_active : Bool) (ds : List DeviceItem)
    → get_count_drivers type only_active ds ≡ number_of (counts_for type) ds % 65536
unfolding get_count_drivers
get_count_drivers-number_of type only_active ds =
    omega (arith, count_from-number_of type only_active ds 0 (omega arith))

-- Level I and Level II drivers are not told apart: both types give the same count.
pub get_count_drivers-levels :
    (only_active : Bool) (ds : List DeviceItem)
    → get_count_drivers 1 only_active ds ≡ get_count_drivers 2 only_active ds
get_count_drivers-levels only_active ds =
    get_count_drivers-number_of 1 only_active ds
    ∙ sym (get_count_drivers-number_of 2 only_active ds)
