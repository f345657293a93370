-- ===== src/Config/Numbers.antt =====
-- src/app/config.c: the numbers of a configuration file.
use static_fire.Base.Int.{pos}
use static_fire.Base.{Bytes, ℕ, ◌<◌, ◌≤◌, ◌^◌, false, some, [], ◌∷◌, ◌≡◌, refl, arith, length}
use static_fire.Text.Integers.{strtoul-decimal, strtol-decimal, decimal-some}
use static_fire.Text.Print.{decimal}
use static_fire.Text.Strto.{to_int}
use static_fire.Text.{lit, equal, is_empty}
use static_fire.App.{AppConfig}
use static_fire.Config.Values.{
  apply_config_kv, set_ws_port, set_can_bitrate, set_max_clients, set_tick_interval, positive_int,
}

some_bytes : (s : Bytes) → 0 < length s → is_empty s ≡ false
some_bytes [] h = absurd (omega arith)
some_bytes (c ∷ s) h = refl

module _ (cfg : AppConfig) (n : ℕ) where
  set_ws_port-decimal :
      0 < n → n ≤ 65535 → set_ws_port cfg (decimal n) ≡ some (record cfg { ws_port = n })
  unfolding set_ws_port
  set_ws_port-decimal p h =
      rw (strtoul-decimal n (omega arith), some_bytes (decimal n) (decimal-some n)) (ground arith)

  set_can_bitrate-decimal :
      0 < n → n < 2 ^ 32 → set_can_bitrate cfg (decimal n) ≡ some (record cfg { can_bitrate = n })
  unfolding set_can_bitrate
  set_can_bitrate-decimal p h =
      rw (strtoul-decimal n (omega arith), some_bytes (decimal n) (decimal-some n)) (ground arith)

  positive_int-decimal : 0 < n → n < 2 ^ 31 → positive_int (decimal n) ≡ some (pos n)
  unfolding positive_int to_int
  positive_int-decimal p h =
      rw (strtol-decimal n (omega arith), some_bytes (decimal n) (decimal-some n)) (ground arith)

  -- A number from 1 to 65535, printed in decimal, is taken as it is for a port, a count of clients, a
  -- tick and a bit rate.
  pub apply_config_kv-decimal :
      0 < n
      → n ≤ 65535
      → (apply_config_kv cfg (lit "ws_port") (decimal n) ≡ some (record cfg { ws_port = n }))
        × (apply_config_kv cfg (lit "max_clients") (decimal n)
            ≡ some (record cfg { max_clients = pos n }))
        × (apply_config_kv cfg (lit "tick_ms") (decimal n)
            ≡ some (record cfg { tick_interval_ms = pos n }))
        × (apply_config_kv cfg (lit "can_bitrate") (decimal n)
            ≡ some (record cfg { can_bitrate = n }))
  unfolding apply_config_kv equal lit set_max_clients set_tick_interval
  apply_config_kv-decimal p h =
      let i = positive_int-decimal p (omega arith) in
      (set_ws_port-decimal p h, rw i refl, rw i refl, set_can_bitrate-decimal p (omega arith))
