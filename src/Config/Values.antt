-- ===== src/Config/Values.antt =====
-- src/app/config.c: the texts of values, and the settings that a key and a value make.
use static_fire.Base.Int.{ℤ, pos, negsuc}
use static_fire.Base.{
  Bytes, ℕ, ◌%◌, ◌^◌, Bool, true, false, not, ◌&&◌, ◌||◌, Option, none, some, List, [], ◌∷◌, ltb,
  ◌==◌, if◌then◌else◌,
}
use static_fire.Text.Print.{truncated}
use static_fire.Text.Scan.{is_space, skip_space}
use static_fire.Text.Strto.{strtoul, strtol, to_int}
use static_fire.Text.{lit, equal, equal_case, is_empty}
use static_fire.App.{AppConfig}

-- `IF_NAMESIZE`
abbrev pub name_size : ℕ
name_size = 16

abbrev pub dir_size : ℕ
dir_size = 256

-- The loop from the end of the text.
unfoldable pub strip_end : Bytes → Bytes
unfolding is_space
strip_end [] = []
strip_end (c ∷ s) = let rest = strip_end s in if is_space c && is_empty rest then [] else c ∷ rest

unfoldable pub trim_whitespace : Bytes → Bytes
unfolding strip_end skip_space
trim_whitespace s = strip_end (skip_space s)

unfoldable pub is_word : List Bytes → Bytes → Bool
unfolding equal_case
is_word [] value = false
is_word (w ∷ ws) value = equal_case value w || is_word ws value

unfoldable pub parse_bool_value : Bytes → Option Bool
unfolding is_word lit
parse_bool_value value =
    if is_word (lit "1" ∷ lit "true" ∷ lit "yes" ∷ lit "on" ∷ lit "enable" ∷ []) value
    then some true
    else if is_word (lit "0" ∷ lit "false" ∷ lit "no" ∷ lit "off" ∷ lit "disable" ∷ []) value
    then some false
    else none

-- `*value == '\0' || *endptr != '\0'`
abbrev pub is_malformed : Bytes → Bytes → Bool
is_malformed value rest = is_empty value || not (is_empty rest)

-- `v > 0`
abbrev pub is_positive : ℤ → Bool
is_positive (pos n) = ltb 0 n
is_positive (negsuc n) = false

unfoldable pub set_ws_port : AppConfig → Bytes → Option AppConfig
set_ws_port cfg value =
    let (v, rest) = strtoul value in
    if is_malformed value rest || v == 0 || ltb 65535 v
    then none
    else some (record cfg { ws_port = v % 2 ^ 16 })

-- The value that `max_clients` and `tick_interval_ms` take.
unfoldable pub positive_int : Bytes → Option ℤ
positive_int value =
    let (v, rest) = strtol value in
    if is_malformed value rest || not (is_positive v) then none else some (to_int v)

unfoldable pub set_max_clients : AppConfig → Option ℤ → Option AppConfig
set_max_clients cfg none = none
set_max_clients cfg (some v) = some (record cfg { max_clients = v })

unfoldable pub set_tick_interval : AppConfig → Option ℤ → Option AppConfig
set_tick_interval cfg none = none
set_tick_interval cfg (some v) = some (record cfg { tick_interval_ms = v })

unfoldable pub set_can_bitrate : AppConfig → Bytes → Option AppConfig
set_can_bitrate cfg value =
    let (v, rest) = strtoul value in
    if is_malformed value rest || v == 0
    then none
    else some (record cfg { can_bitrate = v % 2 ^ 32 })

unfoldable pub set_read_only : AppConfig → Option Bool → Option AppConfig
set_read_only cfg none = none
set_read_only cfg (some b) = some (record cfg { read_only = b })

unfoldable pub set_testing_mode : AppConfig → Option Bool → Option AppConfig
set_testing_mode cfg none = none
set_testing_mode cfg (some b) = some (record cfg { testing_mode = b })

unfoldable pub set_logging : AppConfig → Option Bool → Option AppConfig
set_logging cfg none = none
set_logging cfg (some b) = some (record cfg { logging_enabled = b })

unfoldable pub set_auto_config : AppConfig → Option Bool → Option AppConfig
set_auto_config cfg none = none
set_auto_config cfg (some b) = some (record cfg { auto_config_can = b })

-- `none` is the result -1.
unfoldable pub apply_config_kv : AppConfig → Bytes → Bytes → Option AppConfig
apply_config_kv cfg key value =
    if equal key (lit "ws_port") || equal key (lit "port")
    then set_ws_port cfg value
    else if equal key (lit "max_clients")
    then set_max_clients cfg (positive_int value)
    else if equal key (lit "read_only")
    then set_read_only cfg (parse_bool_value value)
    else if equal key (lit "testing_mode") || equal key (lit "testing")
    then set_testing_mode cfg (parse_bool_value value)
    else if equal key (lit "logging_enabled") || equal key (lit "logging")
    then set_logging cfg (parse_bool_value value)
    else if equal key (lit "auto_config_can")
    then set_auto_config cfg (parse_bool_value value)
    else if equal key (lit "tick_interval_ms") || equal key (lit "tick_ms")
    then set_tick_interval cfg (positive_int value)
    else if equal key (lit "can_bitrate")
    then set_can_bitrate cfg value
    else if equal key (lit "can_ifname") || equal key (lit "can_if")
    then some (record cfg { can_ifname = truncated name_size value })
    else if equal key (lit "log_dir") || equal key (lit "log_path")
    then some (record cfg { log_dir = truncated dir_size value })
    else none
