-- ===== src/DeviceList/Configured.antt =====
-- The list as the configuration builds it, by one addItem after the other.
use vscp_mqtt_daemon.Prelude.{true, false, List, [], ◌∷◌, ◌++◌, ◌≡◌, arith, All, is_zero}
use vscp_mqtt_daemon.Device.{DeviceItem}
use vscp_mqtt_daemon.DeviceList.{NewItem, Site, filled_item, add_item}

-- The list after the calls.
unfoldable pub add_items : Site → List NewItem → List DeviceItem → List DeviceItem
add_items s [] ds = ds
add_items s (a ∷ as') ds = add_items s as' (add_item s a ds).0

-- A driver as it should stand before `run`: its file is there, it is to be started, and nothing of
-- a session has touched it yet.
pub record IsReady (s : Site) (d : DeviceItem) : Type 0 where
  pub present : s.file_exists d.path ≡ true
  pub enabled : d.enable ≡ true
  pub unpaused : d.active ≡ true
  pub running : d.quit ≡ false
  pub unstarted : d.thread_started ≡ false
  pub unopened : is_zero d.open_handle ≡ true

All-append {ℓ} :
    (P : DeviceItem → Type ℓ) (ds es : List DeviceItem) → All P ds → All P es → All P (ds ++ es)
All-append P [] es h k = k
All-append P (d ∷ ds) es h k = (h.0, All-append P ds es h.1 k)

pub add_item-IsReady :
    (s : Site) (a : NewItem) (ds : List DeviceItem)
    → All (IsReady s) ds
    → All (IsReady s) (add_item s a ds).0
unfolding add_item filled_item
add_item-IsReady s a ds h = ground (arith, All-append (IsReady s) ds (filled_item s a ∷ []) h)

-- Whatever items are configured, every driver in the list is ready; a driver whose file is missing
-- is not in it.
pub add_items-IsReady :
    (s : Site) (as' : List NewItem) (ds : List DeviceItem)
    → All (IsReady s) ds
    → All (IsReady s) (add_items s as' ds)
unfolding add_items
add_items-IsReady s [] ds h = h
add_items-IsReady s (a ∷ as') ds h = add_items-IsReady s as' _ (add_item-IsReady s a ds h)
