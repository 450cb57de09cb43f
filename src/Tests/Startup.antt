-- ===== src/Tests/Startup.antt =====
-- The theorems on createDirectoryRecursive, on a file system that is a list of paths.
use vscp_mqtt_daemon.Prelude.{
  Bool, true, false, ◌||◌, List, [], ◌∷◌, ◌++◌, Text, bytes, text_eq, text_eq_iff, ◌≡◌, refl, arith,
  if◌then◌else◌,
}
use vscp_mqtt_daemon.Startup.{made, already, FileSystem, create_directory_recursive}
use vscp_mqtt_daemon.Startup.LogFolder.{make_log_folder, make_log_folder_lem}
use vscp_mqtt_daemon.Startup.Folders.{IsFileSystem, Takes, Exists, Keeps}

abbrev finds : Text → List Text → Bool
finds p [] = false
finds p (q ∷ qs) = text_eq q p || finds p qs

-- Another process makes /var/log just before the program does.
abbrev disk : FileSystem
disk = record {
  S = List Text;
  finds = finds;
  make_dir = λ p s.
      if text_eq p (bytes "/var/log") then already else if finds p s then already else made (p ∷ s);
}

disk-IsFileSystem : IsFileSystem disk
disk-IsFileSystem = record {
  made_law = λ p s {s'} e. ground (arith, text_eq_iff p p);
  kept_law = λ p q s {s'} e h. ground arith;
}

-- The folders that are made for the log file, the last one first.
log_folders :
    (create_directory_recursive disk (bytes "/var/log/vscp") []).1
    ≡ bytes "/var/log/vscp" ∷ bytes "/var" ∷ []
unfolding create_directory_recursive text_eq
log_folders = refl

made_log : (create_directory_recursive disk (bytes "/var/log/vscp") []).0 ≡ true
unfolding create_directory_recursive text_eq
made_log = refl

disk-Takes : Takes disk
disk-Takes p s named above = ground arith

made_log_folder :
    make_log_folder disk (bytes "/var/log/vscp/a.log") []
    ≡ bytes "/var/log/vscp" ∷ bytes "/var" ∷ []
unfolding make_log_folder text_eq
made_log_folder = refl

make_log_folder_lem_example :
    let t = make_log_folder disk (bytes "/var/log/vscp" ++ (b'/' ∷ bytes "a.log")) [] in
    Exists disk (bytes "/var/log/vscp") t × Keeps disk [] t
make_log_folder_lem_example =
    make_log_folder_lem disk disk-IsFileSystem disk-Takes (bytes "/var/log/vscp") (bytes "a.log") []
      refl (λ e. ground arith) (λ e. ground arith)
