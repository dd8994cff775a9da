-- ===== src/Log/Level.antt =====
-- log/log.go: levels. A `Level` is a uint8, and a lower one is more severe.
pub mod Parse
use rxd.Base.{ℕ, String, ◌==◌, if◌then◌else◌}

abbrev pub Level : Type 0
Level = ℕ

abbrev pub emergency : Level
emergency = 0

abbrev pub alert : Level
alert = 1

abbrev pub critical : Level
critical = 2

abbrev pub error : Level
error = 3

abbrev pub warning : Level
warning = 4

abbrev pub notice : Level
notice = 5

abbrev pub info : Level
info = 6

abbrev pub debug : Level
debug = 7

unfoldable pub level_string : Level → String
level_string l =
    if l == emergency
    then "EMERGENCY"
    else if l == alert
    then "ALERT"
    else if l == critical
    then "CRITICAL"
    else if l == error
    then "ERROR"
    else if l == warning
    then "WARNING"
    else if l == notice
    then "NOTICE"
    else if l == info
    then "INFO"
    else if l == debug
    then "DEBUG"
    else "INFO"
