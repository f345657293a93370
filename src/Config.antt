-- ===== src/Config.antt =====
-- src/app/config.c: the configuration, from the defaults, a file and the command line.
pub mod Values
pub mod Bounds
pub mod Lines
pub mod Grammar
pub mod Numbers
use static_fire.Base.Int.{ℤ, pos, negsuc}
use static_fire.Base.{
  Bytes, ℕ, zero, suc, ◌%◌, ◌^◌, Bool, true, false, not, ◌&&◌, ◌||◌, Option, none, some, List, [],
  ◌∷◌, ltb, leb, ◌==◌, if◌then◌else◌,
}
use static_fire.Text.Print.{truncated}
use static_fire.Text.Strto.{strtoul, atoi, to_uint16}
use static_fire.Text.{lit, equal, is_empty, prepend, drop_empty, c_string, split_at}
use static_fire.App.{AppConfig}
use Values.{trim_whitespace, apply_config_kv, is_positive, name_size, dir_size}

-- `app_config_init_defaults`
unfoldable pub default_config : AppConfig
unfolding lit
default_config = record {
  ws_port = 8080;
  max_clients = pos 128;
  read_only = false;
  testing_mode = false;
  logging_enabled = false;
  auto_config_can = true;
  tick_interval_ms = pos 5;
  can_bitrate = 500000;
  can_ifname = lit "can0";
  log_dir = lit "/var/log/simple_ws";
}

-- The lines that `fgets` returns for a buffer of 512 bytes: up to 511 bytes each, the newline
-- included. The first has `room` bytes.
unfoldable pub chunks : ℕ → Bytes → List Bytes
chunks room [] = [] ∷ []
chunks zero (c ∷ s) = elim (c == b'\n') [
  | true ↦ [] ∷ (c ∷ []) ∷ chunks 511 s
  | false ↦ [] ∷ prepend c (chunks 510 s)
]
chunks (suc room) (c ∷ s) = elim (c == b'\n') [
  | true ↦ (c ∷ []) ∷ chunks 511 s
  | false ↦ prepend c (chunks room s)
]

unfoldable pub file_lines : Bytes → List Bytes
unfolding chunks drop_empty
file_lines content = drop_empty (chunks 511 content)

-- Two quotes around a value are taken off.
unfoldable pub drop_last_quote : Bytes → Option Bytes
drop_last_quote [] = none
drop_last_quote (c ∷ []) = if c == b'"' then some [] else none
drop_last_quote (c ∷ d ∷ s) = elim (drop_last_quote (d ∷ s)) [ none ↦ none | some t ↦ some (c ∷ t) ]

unfoldable pub unquote : Bytes → Bytes
unfolding drop_last_quote
unquote [] = []
unquote (c ∷ s) =
    if c == b'"' then elim (drop_last_quote s) [ none ↦ c ∷ s | some t ↦ t ] else c ∷ s

unfoldable pub apply_pair : AppConfig → Option (Bytes × Bytes) → Option AppConfig
unfolding unquote
apply_pair cfg none = none
apply_pair cfg (some (key, value)) =
    apply_config_kv cfg (trim_whitespace key) (unquote (trim_whitespace value))

unfoldable pub apply_trimmed : AppConfig → Bytes → Option AppConfig
unfolding apply_pair
apply_trimmed cfg [] = some cfg
apply_trimmed cfg (c ∷ s) =
    if c == b'#' || c == b';' then some cfg else apply_pair cfg (split_at b'=' (c ∷ s))

-- One round of the loop of `app_config_load_file`.
unfoldable pub apply_line : AppConfig → Bytes → Option AppConfig
unfolding apply_trimmed
apply_line cfg line = apply_trimmed cfg (trim_whitespace (c_string line))

unfoldable pub apply_lines : AppConfig → List Bytes → Option AppConfig
unfolding apply_line
apply_lines cfg [] = some cfg
apply_lines cfg (l ∷ ls) = elim (apply_line cfg l) [ none ↦ none | some c ↦ apply_lines c ls ]

-- What the path of a file leads to: nothing, a file that cannot be opened, or its bytes and whether
-- reading ended in an error.
pub data Source : Type 0 where
  missing unreadable : Source
  opened : Bytes → Bool → Source

pub data LoadResult : Type 0 where
  loaded : AppConfig → LoadResult
  not_found load_failed : LoadResult

unfoldable pub load_content : Bool → Option AppConfig → LoadResult
load_content read_error none = load_failed
load_content true (some cfg) = load_failed
load_content false (some cfg) = loaded cfg

unfoldable pub app_config_load_file : AppConfig → Source → LoadResult
unfolding file_lines load_content apply_lines
app_config_load_file cfg missing = not_found
app_config_load_file cfg unreadable = load_failed
app_config_load_file cfg (opened content read_error) =
    load_content read_error (apply_lines cfg (file_lines content))

-- The first loop over the arguments: the path, and whether it was given. `none` exits with the usage.
unfoldable pub find_path : Bytes → Bool → List Bytes → Option (Bytes × Bool)
find_path path given [] = some (path, given)
find_path path given (a ∷ []) = if equal a (lit "--config") then none else some (path, given)
find_path path given (a ∷ b ∷ rest) = elim (equal a (lit "--config")) [
  | true ↦ find_path b true rest
  | false ↦ find_path path given (b ∷ rest)
]

-- The options with a value. "--config" has been seen to before.
unfoldable pub apply_option : AppConfig → Bytes → Bytes → Option AppConfig
apply_option cfg name value =
    if equal name (lit "--config")
    then some cfg
    else if equal name (lit "--port")
    then some (record cfg { ws_port = to_uint16 (atoi value) })
    else if equal name (lit "--max-clients")
    then some (record cfg { max_clients = atoi value })
    else if equal name (lit "--can-if")
    then some (record cfg { can_ifname = truncated name_size value })
    else if equal name (lit "--can-bitrate")
    then some (record cfg { can_bitrate = (strtoul value).0 % 2 ^ 32 })
    else if equal name (lit "--tick-ms")
    then some (record cfg { tick_interval_ms = atoi value })
    else if equal name (lit "--log-dir") || equal name (lit "--log-path")
    then some (record cfg { log_dir = truncated dir_size value })
    else none

unfoldable pub apply_flag : AppConfig → Bytes → Option AppConfig
apply_flag cfg name =
    if equal name (lit "--read-only")
    then some (record cfg { read_only = true })
    else if equal name (lit "--testing")
    then some (record cfg { testing_mode = true })
    else if equal name (lit "--logging")
    then some (record cfg { logging_enabled = true })
    else if equal name (lit "--no-can-config")
    then some (record cfg { auto_config_can = false })
    else none

-- The second loop; `none` exits with the usage.
unfoldable pub apply_args : AppConfig → List Bytes → Option AppConfig
unfolding apply_option apply_flag
apply_args cfg [] = some cfg
apply_args cfg (a ∷ []) = apply_flag cfg a
apply_args cfg (a ∷ b ∷ rest) = elim (apply_option cfg a b) [
  | some c ↦ apply_args c rest
  | none ↦ elim (apply_flag cfg a) [ none ↦ none | some c ↦ apply_args c (b ∷ rest) ]
]

-- How `app_config_parse` ends: with a configuration, with -1, or with the usage and the exit.
pub data Outcome : Type 0 where
  accepted : AppConfig → Outcome
  rejected usage : Outcome

unfoldable pub check_config : Option AppConfig → Outcome
check_config none = usage
check_config (some c) =
    if c.ws_port == 0
      || not (is_positive c.max_clients)
      || not (is_positive c.tick_interval_ms)
      || c.can_bitrate == 0
    then rejected
    else accepted c

unfoldable pub after_load : AppConfig → List Bytes → Bool → LoadResult → Outcome
unfolding check_config
after_load cfg args given (loaded c) = check_config (apply_args c args)
after_load cfg args given load_failed = rejected
after_load cfg args true not_found = rejected
after_load cfg args false not_found = check_config (apply_args cfg args)

-- `args` are the arguments behind the name of the program, and `files` is the file system.
unfoldable pub app_config_parse : (Bytes → Source) → AppConfig → List Bytes → Outcome
unfolding find_path after_load
app_config_parse files cfg args =
    elim (find_path (lit "/etc/ws_server/ws_server.conf") false args) [
      | none ↦ usage
      | some (path, given) ↦ after_load cfg args given (app_config_load_file cfg (files path))
    ]
