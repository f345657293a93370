-- ===== src/Safety/Modes.antt =====
-- src/control/command.c: what the testing mode and the read-only mode keep back.
use static_fire.Base.{ℕ, Bool, Option, none, some, List, ◌≡◌, ◌⊎◌}
use static_fire.App.{App, ClientCtx, Env}
use static_fire.Bridge.{set_write_only}
use static_fire.Safety.Answers.{Answered}

-- The client's own entries in the list are set write-only, or no longer write-only, or stay; beyond
-- that, nothing but texts to this client and calls whose result comes from outside.
abbrev pub Passive : ℕ → App → App → Type 0
Passive c s t =
    (xs : List ClientCtx) × ((xs ≡ s.clients) ⊎ ((b : Bool) × (xs ≡ set_write_only c b s.clients)))
    × Answered c (record s { clients = xs }) t

module _ (env : Env) (s : App) (c : ℕ) where
  Toggled : Option App → Type 0
  Toggled none = Unit
  Toggled (some t) = Passive c s t
