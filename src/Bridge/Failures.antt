-- ===== src/Bridge/Failures.antt =====
-- src/ws/ws_bridge.c: what the two callbacks for failures print. `strerror` is the one of the C library.
use static_fire.Base.Int.{ℤ, pos}
use static_fire.Base.{Bytes, ℕ, zero, Option, none, some, [], ◌∷◌, ◌++◌}
use static_fire.Text.{lit}
use static_fire.Text.Print.{decimal}

-- `s ? s : "unknown"`
unfoldable or_unknown : Option Bytes → Bytes
or_unknown none = lit "unknown"
or_unknown (some s) = s

-- Behind the place, unless the code is 0.
unfoldable explained : (ℤ → Bytes) → ℤ → Bytes
explained strerror (pos zero) = []
explained strerror code = lit ": " ++ strerror code

unfoldable pub on_error : (ℤ → Bytes) → Option Bytes → ℤ → Bytes
unfolding or_unknown explained
on_error strerror place error_code =
    lit "ws error at " ++ (or_unknown place ++ (explained strerror error_code ++ (b'\n' ∷ [])))

-- The address is what `ws_client_ip` returns.
unfoldable pub on_handshake_fail : Option Bytes → ℕ → Option Bytes → Bytes
unfolding or_unknown
on_handshake_fail address port reason =
    lit "Handshake failed for "
    ++ (or_unknown address
        ++ (b':' ∷ (decimal port ++ (lit " (" ++ (or_unknown reason ++ (b')' ∷ b'\n' ∷ []))))))
