-- ===== src/DeviceThread/Symbols.antt =====
-- src/devicethread.cpp: looking up the driver's functions in its library, by `dlsym`.
use vscp_mqtt_daemon.Prelude.{
  ◌≡◌, arith, ℕ, Bool, true, false, ◌||◌, List, [], ◌∷◌, ◌==◌, if◌then◌else◌,
}
use vscp_mqtt_daemon.Device.{
  Proc, canal_open, canal_close, canal_get_level, canal_send, canal_data_available, canal_receive,
  canal_get_status, canal_get_statistics, canal_set_filter, canal_set_mask, canal_get_version,
  canal_get_dll_version, canal_get_vendor_string, canal_blocking_send, canal_blocking_receive,
  canal_get_driver_info, vscp_open, vscp_close, vscp_write, vscp_read, vscp_get_version,
}

unfoldable pub proc_number : Proc → ℕ
proc_number canal_open = 0
proc_number canal_close = 1
proc_number canal_get_level = 2
proc_number canal_send = 3
proc_number canal_data_available = 4
proc_number canal_receive = 5
proc_number canal_get_status = 6
proc_number canal_get_statistics = 7
proc_number canal_set_filter = 8
proc_number canal_set_mask = 9
proc_number canal_get_version = 10
proc_number canal_get_dll_version = 11
proc_number canal_get_vendor_string = 12
proc_number canal_blocking_send = 13
proc_number canal_blocking_receive = 14
proc_number canal_get_driver_info = 15
proc_number vscp_open = 16
proc_number vscp_close = 17
proc_number vscp_write = 18
proc_number vscp_read = 19
proc_number vscp_get_version = 20

-- The pointer is not NULL.
abbrev pub has_proc : Proc → List Proc → Bool
has_proc p [] = false
has_proc p (q ∷ qs) = proc_number p == proc_number q || has_proc p qs

abbrev remove_proc : Proc → List Proc → List Proc
remove_proc p [] = []
remove_proc p (q ∷ qs) =
    let rest = remove_proc p qs in if proc_number p == proc_number q then rest else q ∷ rest

-- The pointer is set to what `dlsym` found, or to NULL.
unfoldable pub assign : Proc → Bool → List Proc → List Proc
assign p is_there qs = if is_there then p ∷ qs else remove_proc p qs

has_proc-remove_proc :
    (p q : Proc) (ps : List Proc)
    → has_proc p (remove_proc q ps)
      ≡ (if proc_number p == proc_number q then false else has_proc p ps)
has_proc-remove_proc p q [] = ground arith
has_proc-remove_proc p q (r ∷ ps) = ground (arith, has_proc-remove_proc p q ps)

pub has_proc-assign :
    (p q : Proc) (is_there : Bool) (ps : List Proc)
    → has_proc p (assign q is_there ps)
      ≡ (if proc_number p == proc_number q then is_there else has_proc p ps)
unfolding assign
has_proc-assign p q true ps = ground arith
has_proc-assign p q false ps = has_proc-remove_proc p q ps

-- All functions were there; or one was not, and the thread returns, after `dlclose` or without.
pub data Resolution : Type 0 where
  found : List Proc → Resolution
  missing : List Proc → Bool → Resolution

-- The lookups one after the other. Beside each function stands whether its failure calls `dlclose`.
unfoldable pub resolve : (Proc → Bool) → List (Proc × Bool) → List Proc → Resolution
resolve has [] ps = found ps
resolve has ((p, closes) ∷ rest) ps =
    let more = resolve has rest (assign p true ps) in
    if has p then more else missing (assign p false ps) closes

-- A function of generation 2 that is missing leaves its pointer NULL.
unfoldable pub resolve_optional : (Proc → Bool) → List Proc → List Proc → List Proc
resolve_optional has [] ps = ps
resolve_optional has (p ∷ rest) ps = resolve_optional has rest (assign p (has p) ps)

-- What a Level I driver has to export, in the order of the lookups.
unfoldable pub required1 : List (Proc × Bool)
required1 =
    (canal_open, false)
    ∷ (canal_close, true)
    ∷ (canal_get_level, true)
    ∷ (canal_send, true)
    ∷ (canal_data_available, true)
    ∷ (canal_receive, true)
    ∷ (canal_get_status, true)
    ∷ (canal_get_statistics, true)
    ∷ (canal_set_filter, true)
    ∷ (canal_set_mask, true)
    ∷ (canal_get_version, true)
    ∷ (canal_get_dll_version, true)
    ∷ (canal_get_vendor_string, true)
    ∷ []

unfoldable pub optional1 : List Proc
optional1 = canal_blocking_send ∷ canal_blocking_receive ∷ canal_get_driver_info ∷ []

-- What a Level II driver has to export.
unfoldable pub required2 : List (Proc × Bool)
required2 =
    (vscp_open, false)
    ∷ (vscp_close, false)
    ∷ (vscp_write, false)
    ∷ (vscp_read, false)
    ∷ (vscp_get_version, false)
    ∷ []

pub has_proc-resolve_optional :
    (has : Proc → Bool) (ps : List Proc)
    → has_proc canal_blocking_receive (resolve_optional has optional1 ps)
      ≡ has canal_blocking_receive
unfolding resolve_optional optional1 proc_number
has_proc-resolve_optional has ps = simp has_proc-assign
