-- ===== src/Startup/LogFolder.antt =====
-- src/mqttvscpd.cpp: how `main` makes the folder of the log file. vscp_fileExists finds what `stat`
-- finds.
use vscp_mqtt_daemon.Prelude.{
  true, [], ◌∷◌, ◌++◌, none, some, Text, bytes, lacks, ◌≡◌, ◌≢◌, refl, inl, inr, Bool-cases,
  if◌then◌else◌,
}
use vscp_mqtt_daemon.Startup.{FileSystem, create_directory_recursive}
use vscp_mqtt_daemon.Startup.Folders.{
  IsFileSystem, Exists, Takes, Keeps, folder_of, folder_of-append, create_directory_recursive_lem,
}

module _ (F : FileSystem) where
  -- A folder that has a name is made if it is missing. That it cannot be made is only logged.
  unfoldable pub make_missing : Text → F.S → F.S
  unfolding create_directory_recursive
  make_missing [] s = s
  make_missing (c ∷ folder) s =
      if F.finds (c ∷ folder) s then s else (create_directory_recursive F (c ∷ folder) s).1

  unfoldable pub make_log_folder : Text → F.S → F.S
  unfolding folder_of make_missing
  make_log_folder path s = elim (folder_of path) [ none ↦ s | some folder ↦ make_missing folder s ]

module _ (F : FileSystem) (law : IsFileSystem F) (takes : Takes F) where
  -- If `mkdir` meets no error but EEXIST for a name whose folder exists, then afterwards the folder
  -- of the log file is there, and nothing that was there is lost. A folder is there if `stat` finds
  -- it, or if `mkdir` says that it exists although `stat` does not find it. The folder is what stands in
  -- front of the last slash of the path, other than nothing and than the root.
  pub make_log_folder_lem :
      (folder name : Text) (s : F.S)
      → lacks b'/' name ≡ true
      → folder ≢ []
      → folder ≢ bytes "/"
      → let t = make_log_folder F (folder ++ (b'/' ∷ name)) s in Exists F folder t × Keeps F s t
  unfolding make_log_folder
  make_log_folder_lem [] name s h ne root = absurd (ne refl)
  make_log_folder_lem (c ∷ r) name s h ne root = elim (Bool-cases (F.finds (c ∷ r) s)) [
    | inl e ↦ rw (make_log_folder, folder_of-append (c ∷ r) name h, e) (inl e, λ q k. k)
    | inr e ↦
        let (ok, keeps, there) = create_directory_recursive_lem F law takes c r s in
        rw (make_log_folder, folder_of-append (c ∷ r) name h, e) (there ne root, keeps)
  ]
