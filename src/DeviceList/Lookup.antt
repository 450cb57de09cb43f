-- ===== src/DeviceList/Lookup.antt =====
-- Which item the lookups of CDeviceList return, and how addItem changes that.
use vscp_mqtt_daemon.Prelude.{
  ℕ, zero, suc, ◌+◌, Bool, true, false, ◌&&◌, List, [], ◌∷◌, ◌++◌, Option, none, some, Text,
  text_eq, if◌then◌else◌, length, all, not, ◌≡◌, refl, arith, Bool-cases, inl, inr,
}
use vscp_mqtt_daemon.Device.{DeviceItem, Guid}
use vscp_mqtt_daemon.DeviceList.{
  NewItem, Site, filled_item, add_item, find_from, get_device_item_from_name,
  get_device_item_from_guid,
}

abbrev pub or_else {ℓ} : {A : Type ℓ} → Option A → Option A → Option A
or_else none o = o
or_else (some a) o = some a

-- The item at position `k` passes the test, and no item before it does.
abbrev pub FirstAt : (DeviceItem → Bool) → ℕ → List DeviceItem → Type 0
FirstAt test k [] = ⊥
FirstAt test zero (d ∷ ds) = test d ≡ true
FirstAt test (suc k) (d ∷ ds) = (test d ≡ false) × FirstAt test k ds

-- What a lookup may return: nothing if no item passes, else the position of the first that does.
abbrev pub Finds : (DeviceItem → Bool) → List DeviceItem → Option ℕ → Type 0
Finds test ds none = all (λ d. not (test d)) ds ≡ true
Finds test ds (some k) = FirstAt test k ds

abbrev FindsFrom : (DeviceItem → Bool) → ℕ → List DeviceItem → Option ℕ → Type 0
FindsFrom test i ds none = all (λ d. not (test d)) ds ≡ true
FindsFrom test i ds (some j) = (k : ℕ) × (j ≡ i + k) × FirstAt test k ds

FindsFrom-cons :
    (test : DeviceItem → Bool) (i : ℕ) (d : DeviceItem) (ds : List DeviceItem) (o : Option ℕ)
    → test d ≡ false
    → FindsFrom test (suc i) ds o
    → FindsFrom test i (d ∷ ds) o
FindsFrom-cons test i d ds none e h = ground arith
FindsFrom-cons test i d ds (some j) e (k, p, h) = (suc k, omega arith, (e, h))

find_from-FindsFrom :
    (test : DeviceItem → Bool) (i : ℕ) (ds : List DeviceItem)
    → FindsFrom test i ds (find_from test i ds)
unfolding find_from
find_from-FindsFrom test i [] = refl
find_from-FindsFrom test i (d ∷ ds) = elim (Bool-cases (test d)) [
  | inl e ↦ rw e (0, omega arith, e)
  | inr e ↦ rw e (FindsFrom-cons test i d ds _ e (find_from-FindsFrom test (suc i) ds))
]

find_from-Finds :
    (test : DeviceItem → Bool) (ds : List DeviceItem) (o : Option ℕ)
    → FindsFrom test 0 ds o
    → Finds test ds o
find_from-Finds test ds none h = h
find_from-Finds test ds (some j) (k, p, h) = let e : j ≡ k = omega arith in rw e h

-- Both lookups return the position of the first item that has the name, or the GUID, and nothing
-- exactly when no item has it.
pub lookups-Finds :
    (same : Guid → Guid → Bool) (g : Guid) (n : Text) (ds : List DeviceItem)
    → Finds (λ d. text_eq d.name n) ds (get_device_item_from_name n ds)
      × Finds (λ d. same d.guid g) ds (get_device_item_from_guid same g ds)
unfolding get_device_item_from_name get_device_item_from_guid
lookups-Finds same g n ds = (
  find_from-Finds _ ds _ (find_from-FindsFrom _ 0 ds),
  find_from-Finds _ ds _ (find_from-FindsFrom _ 0 ds),
)

find_from-append :
    (test : DeviceItem → Bool) (i : ℕ) (ds : List DeviceItem) (d : DeviceItem)
    → find_from test i (ds ++ (d ∷ []))
      ≡ or_else (find_from test i ds) (if test d then some (i + length ds) else none)
unfolding find_from
find_from-append test i [] d = ground arith
find_from-append test i (x ∷ ds) d = ground (arith, find_from-append test (suc i) ds d)

-- addItem keeps what a name refers to. A name that was free refers to the new item, which stands
-- behind the others, if the driver's file exists and the name is the item's; otherwise to nothing.
pub get_device_item_from_name-add_item :
    (s : Site) (a : NewItem) (ds : List DeviceItem) (n : Text)
    → get_device_item_from_name n (add_item s a ds).0
      ≡ or_else
          (get_device_item_from_name n ds)
          (if s.file_exists a.path && text_eq a.name n then some (length ds) else none)
unfolding get_device_item_from_name add_item filled_item
get_device_item_from_name-add_item s a ds n =
    ground (arith, find_from-append (λ d. text_eq d.name n) 0 ds (filled_item s a))
