-- ===== src/Config/Bounds.antt =====
-- src/app/config.c: the ranges of the fields of a configuration.
use static_fire.Base.Int.{ℤ, pos, negsuc}
use static_fire.Base.{
  Bytes, ℕ, ◌-◌, ◌^◌, ◌<◌, Bool, true, false, Option, none, some, List, [], ◌∷◌, ◌≡◌, arith, length,
  subst, length-take, Option-cases, inl, inr,
}
use static_fire.Text.Print.{truncated}
use static_fire.Text.Strto.{strtol, atoi, to_int, to_uint16}
use static_fire.Text.{lit, c_string, split_at}
use static_fire.App.{AppConfig}
use static_fire.Config.Values.{
  trim_whitespace, apply_config_kv, parse_bool_value, positive_int, set_ws_port, set_max_clients,
  set_tick_interval, set_can_bitrate, set_read_only, set_testing_mode, set_logging, set_auto_config,
  is_positive, name_size, dir_size,
}
use static_fire.Config.{
  default_config, file_lines, apply_pair, apply_trimmed, apply_line, apply_lines, load_content,
  Source, missing, unreadable, opened, LoadResult, loaded, not_found, load_failed,
  app_config_load_file, apply_option, apply_flag, apply_args, Outcome, accepted, rejected, usage,
  check_config, after_load, find_path, app_config_parse,
}

-- The values of `int`.
abbrev pub IsInt : ℤ → Type 0
IsInt (pos n) = n < 2 ^ 31
IsInt (negsuc n) = n < 2 ^ 31

-- Each field fits its C type, and each text its buffer, with the zero byte.
pub record IsSized (c : AppConfig) : Type 0 where
  pub port : c.ws_port < 2 ^ 16
  pub clients : IsInt c.max_clients
  pub tick : IsInt c.tick_interval_ms
  pub bitrate : c.can_bitrate < 2 ^ 32
  pub name : length c.can_ifname < 16
  pub dir : length c.log_dir < 256

-- A configuration that the server may run with: the numbers are positive as well.
pub record IsValid (c : AppConfig) : Type 0 where
  pub sized : IsSized c
  pub port_pos : 0 < c.ws_port
  pub clients_pos : is_positive c.max_clients ≡ true
  pub tick_pos : is_positive c.tick_interval_ms ≡ true
  pub bitrate_pos : 0 < c.can_bitrate

to_int-IsInt : (z : ℤ) → IsInt (to_int z)
unfolding to_int
to_int-IsInt (pos n) = ground arith
to_int-IsInt (negsuc n) = ground arith

atoi-IsInt : (s : Bytes) → IsInt (atoi s)
unfolding atoi
atoi-IsInt s = to_int-IsInt (strtol s).0

to_uint16-lt : (z : ℤ) → to_uint16 z < 2 ^ 16
unfolding to_uint16
to_uint16-lt (pos n) = omega arith
to_uint16-lt (negsuc n) = omega arith

truncated-length : (size : ℕ) (s : Bytes) → 0 < size → length (truncated size s) < size
unfolding truncated
truncated-length size s h = rw (length-take (size - 1) s) (omega arith)

-- Of a step that may fail: the configuration that it gives is sized.
abbrev Sized : Option AppConfig → Type 0
Sized none = Unit
Sized (some c) = IsSized c

module _ (c : AppConfig) (x : IsSized c) where
  set_ws_port-Sized : (value : Bytes) → Sized (set_ws_port c value)
  unfolding set_ws_port
  set_ws_port-Sized value = ground (arith, x)

  set_can_bitrate-Sized : (value : Bytes) → Sized (set_can_bitrate c value)
  unfolding set_can_bitrate
  set_can_bitrate-Sized value = ground (arith, x)

  bools-Sized :
      (b : Option Bool)
      → Sized (set_read_only c b)
        × Sized (set_testing_mode c b)
        × Sized (set_logging c b)
        × Sized (set_auto_config c b)
  unfolding set_read_only set_testing_mode set_logging set_auto_config
  bools-Sized none = (tt, tt, tt, tt)
  bools-Sized (some b) = ground (arith, x)

  positive_int-Sized :
      (value : Bytes)
      → Sized (set_max_clients c (positive_int value))
        × Sized (set_tick_interval c (positive_int value))
  unfolding positive_int set_max_clients set_tick_interval
  positive_int-Sized value = ground (arith, x, to_int-IsInt (strtol value).0)

  texts-Sized :
      (value : Bytes)
      → IsSized (record c { can_ifname = truncated name_size value })
        × IsSized (record c { log_dir = truncated dir_size value })
  texts-Sized value = ground (arith, x, truncated-length 16 value, truncated-length 256 value)

  apply_config_kv-Sized : (key value : Bytes) → Sized (apply_config_kv c key value)
  unfolding apply_config_kv
  apply_config_kv-Sized key value = ground (
    arith,
    set_ws_port-Sized value,
    set_can_bitrate-Sized value,
    bools-Sized (parse_bool_value value),
    positive_int-Sized value,
    texts-Sized value,
  )

  apply_flag-Sized : (a : Bytes) → Sized (apply_flag c a)
  unfolding apply_flag
  apply_flag-Sized a = ground (arith, x)

  apply_option-Sized : (a b : Bytes) → Sized (apply_option c a b)
  unfolding apply_option
  apply_option-Sized a b = ground (arith, x, atoi-IsInt b, to_uint16-lt (atoi b), texts-Sized b)

apply_pair-Sized : (c : AppConfig) (o : Option (Bytes × Bytes)) → IsSized c → Sized (apply_pair c o)
unfolding apply_pair
apply_pair-Sized c none x = tt
apply_pair-Sized c (some (k, v)) x = apply_config_kv-Sized c x _ _

apply_line-Sized : (c : AppConfig) (line : Bytes) → IsSized c → Sized (apply_line c line)
unfolding apply_line
apply_line-Sized c line x = go (trim_whitespace (c_string line))
  where
    go : (s : Bytes) → Sized (apply_trimmed c s)
    go [] = unfold apply_trimmed in x
    go (d ∷ s) =
        unfold apply_trimmed in ground (arith, x, apply_pair-Sized c (split_at b'=' (d ∷ s)) x)

apply_lines-Sized : (c : AppConfig) (ls : List Bytes) → IsSized c → Sized (apply_lines c ls)
unfolding apply_lines
apply_lines-Sized c [] x = x
apply_lines-Sized c (l ∷ ls) x = elim (Option-cases (apply_line c l)) [
  | inl e ↦ rw (e, apply_lines) tt
  | inr (d, e) ↦
      let y = apply_line-Sized c l x in rw (e, apply_lines) (apply_lines-Sized d ls (rw e at y))
]

apply_args-Sized : (c : AppConfig) (args : List Bytes) → IsSized c → Sized (apply_args c args)
unfolding apply_args
apply_args-Sized c [] x = x
apply_args-Sized c (a ∷ []) x = apply_flag-Sized c x a
apply_args-Sized c (a ∷ b ∷ rest) x =
    let y = apply_option-Sized c x a b in
    let z = apply_flag-Sized c x a in
    elim (Option-cases (apply_option c a b)) [
      | inr (d, e) ↦ rw (e, apply_args) (apply_args-Sized d rest (rw e at y))
      | inl e ↦ elim (Option-cases (apply_flag c a)) [
        | inl f ↦ rw (e, f, apply_args) tt
        | inr (d, f) ↦ rw (e, f, apply_args) (apply_args-Sized d (b ∷ rest) (rw f at z))
      ]
    ]

-- Of an outcome: a configuration that is accepted is valid.
abbrev Accepted : Outcome → Type 0
Accepted (accepted c) = IsValid c
Accepted rejected = Unit
Accepted usage = Unit

check_config-Accepted : (o : Option AppConfig) → Sized o → Accepted (check_config o)
unfolding check_config
check_config-Accepted none x = tt
check_config-Accepted (some c) x = ground (arith, x)

Loaded : LoadResult → Type 0
Loaded (loaded c) = IsSized c
Loaded not_found = Unit
Loaded load_failed = Unit

load_content-Loaded : (b : Bool) (o : Option AppConfig) → Sized o → Loaded (load_content b o)
unfolding load_content Loaded
load_content-Loaded b none x = tt
load_content-Loaded true (some c) x = tt
load_content-Loaded false (some c) x = x

load_file-Loaded : (c : AppConfig) (s : Source) → IsSized c → Loaded (app_config_load_file c s)
unfolding app_config_load_file Loaded
load_file-Loaded c missing x = tt
load_file-Loaded c unreadable x = tt
load_file-Loaded c (opened content e) x =
    load_content-Loaded e _ (apply_lines-Sized c (file_lines content) x)

after_load-Accepted :
    (c : AppConfig) (args : List Bytes) (given : Bool) (r : LoadResult)
    → IsSized c
    → Loaded r
    → Accepted (after_load c args given r)
unfolding after_load Loaded
after_load-Accepted c args given (loaded d) x y =
    check_config-Accepted _ (apply_args-Sized d args y)
after_load-Accepted c args given load_failed x y = tt
after_load-Accepted c args true not_found x y = tt
after_load-Accepted c args false not_found x y = check_config-Accepted _ (apply_args-Sized c args x)

parse-Accepted :
    (files : Bytes → Source) (c : AppConfig) (args : List Bytes)
    → IsSized c
    → Accepted (app_config_parse files c args)
unfolding app_config_parse
parse-Accepted files c args x =
    elim (Option-cases (find_path (lit "/etc/ws_server/ws_server.conf") false args)) [
      | inl e ↦ rw (e, Accepted, app_config_parse) tt
      | inr ((path, given), e) ↦
          rw (e, Accepted, app_config_parse)
            (after_load-Accepted c args given _ x (load_file-Loaded c (files path) x))
    ]

pub default_config-IsSized : IsSized default_config
unfolding default_config
default_config-IsSized = record {
  port = omega arith;
  clients = omega arith;
  tick = omega arith;
  bitrate = omega arith;
  name = omega arith;
  dir = omega arith;
}

-- Whatever stands in the file and on the command line, a configuration that is accepted from the
-- defaults is valid: each number fits its type and is positive, and each text fits its buffer.
pub app_config_parse-IsValid :
    (files : Bytes → Source) (args : List Bytes) {c : AppConfig}
    → app_config_parse files default_config args ≡ accepted c
    → IsValid c
app_config_parse-IsValid files args e =
    subst Accepted e (parse-Accepted files default_config args default_config-IsSized)
