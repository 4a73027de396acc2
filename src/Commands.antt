-- ===== src/Commands.antt =====
-- cmd/root.go, and the version's text of pkg/version.go.
-- cobra, viper and go-homedir are parameters: what they return. That
-- viper also reads the environment and the file that is found is left to it.
pub mod Servers
pub mod Mount
use crypt_fs.Prelude.{
  ℕ, Option, none, some, Bool, true, false, ◌==◌, [], ◌∷◌, ◌++◌, Bytes, if◌then◌else◌, length,
}
use crypt_fs.Prelude.Text.{codes}
use crypt_fs.Storage.{Error}

-- The levels of logrus that are used.
pub data LogLevel : Type 0 where
  debug_level info_level : LogLevel

unfoldable pub log_level : Bool → LogLevel
log_level debug = if debug then debug_level else info_level

-- The status with which the process ends; none where Execute returns.
unfoldable pub execute : Option Error → Option ℕ
execute (some err) = some 1
execute none = none

-- Where the configuration is read from, or the end of the process with a status.
pub data ConfigSource : Type 0 where
  config_file : Bytes → ConfigSource
  search : (path name : Bytes) → ConfigSource
  exits : ℕ → ConfigSource

abbrev pub found_home : Option Bytes → ConfigSource
found_home none = exits 1
found_home (some home) = search home (codes ".dinofs.yaml")

-- `home` is homedir.Dir, or none for its error.
unfoldable pub init_config : Bytes → Option Bytes → ConfigSource
init_config file home = if length file == 0 then found_home home else config_file file

-- debug.BuildInfo, as far as it is used.
pub record BuildInfo : Type 0 where
  pub main_version : Bytes
  pub go_version : Bytes
  pub main_sum : Bytes

abbrev pub built_with : Option BuildInfo → Bytes
built_with none = []
built_with (some info) =
    codes " "
    ++ info.main_version
    ++ codes " built with "
    ++ info.go_version
    ++ (if length info.main_sum == 0
        then []
        else codes " (checksum: " ++ info.main_sum ++ codes ")")

-- The release version, the commit, and the build information, if there is one.
unfoldable pub full_version : Bytes → Bytes → Option BuildInfo → Bytes
full_version version commit info = version ++ codes "@" ++ commit ++ built_with info
