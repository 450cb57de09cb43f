-- ===== src/Startup.antt =====
-- src/mqttvscpd.cpp: createDirectoryRecursive, by which `main` makes the folder of the log file. The
-- file system is an interface.
pub mod Folders
pub mod Options
pub mod Daemonize
pub mod LogFolder
pub mod Program
pub mod Object
pub mod Nodes
pub mod Exits
pub mod Logger
pub mod Signals
pub mod HelpTexts
use vscp_mqtt_daemon.Prelude.{
  ℕ, Bool, true, false, ◌||◌, List, [], ◌∷◌, ◌++◌, Text, bytes, text_eq, length, ◌==◌,
  if◌then◌else◌,
}

-- How `mkdir` ends: the folder is made, `errno` is EEXIST, or another error.
pub data MakeDir (S : Type 0) : Type 0 where
  made : S → MakeDir S
  already refused : MakeDir S

-- Whether `stat` finds a path, and `mkdir`.
pub record FileSystem : Type 1 where
  pub S : Type 0
  pub finds : Text → S → Bool
  pub make_dir : Text → S → MakeDir S

module _ (F : FileSystem) where
  -- A round of the loop, for the path up to a slash or to its end. The result false ends the loop.
  unfoldable pub create_sub : Text → F.S → Bool × F.S
  create_sub sub s =
      if length sub == 0 || text_eq sub (bytes "/")
      then (true, s)
      else if F.finds sub s
      then (true, s)
      else elim (F.make_dir sub s) [
        | made s' ↦ (true, s')
        | already ↦ (true, s)
        | refused ↦ (false, s)
      ]

  -- The loop, from `pos + 1` on: `front` is the path up to there, and a slash is searched in `rest`.
  unfoldable pub create_from : Text → Text → F.S → Bool × F.S
  unfolding create_sub
  create_from front [] s = create_sub front s
  create_from front (c ∷ rest) s =
      let (going, s') = if c == b'/' then create_sub front s else (true, s) in
      let more = create_from (front ++ (c ∷ [])) rest s' in if going then more else (false, s')

  unfoldable pub create_directory_recursive : Text → F.S → Bool × F.S
  unfolding create_from
  create_directory_recursive [] s = (false, s)
  create_directory_recursive (c ∷ rest) s = create_from (c ∷ []) rest s
