-- ===== src/App/View.antt =====
-- The state of the server without what every call leaves behind: the texts sent, the log lines and
-- the number of calls. Of the events only the frames on the bus and the threads are kept.
use static_fire.Base.Int.{ℤ}
use static_fire.Base.{
  ℕ, ◌≤◌, ◌<◌, Bool, Option, List, [], ◌++◌, ◌≡◌, refl, ap, append_assoc, All, All-append, length,
  ◌∙◌,
}
use static_fire.App.{
  App, AppConfig, AppState, ClientCtx, WiggleCommand, ValveProfile, CanFrame, WorkerArgs, frames,
  threads, called,
}

pub record View : Type 0 where
  pub config : AppConfig
  pub can_fd : Option ℕ
  pub ws : Bool
  pub clients : List ClientCtx
  pub state : AppState
  pub wiggles : List WiggleCommand
  pub can_values : ℕ → ℤ
  pub can_dirty : ℕ → Bool
  pub sequence_active : Bool
  pub sequence_abort : Bool
  pub valve_profile : ValveProfile
  pub on_bus : List CanFrame
  pub running : List WorkerArgs

unfoldable pub view : App → View
view s = record {
  config = s.config;
  can_fd = s.can_fd;
  ws = s.ws;
  clients = s.clients;
  state = s.state;
  wiggles = s.wiggles;
  can_values = s.can_values;
  can_dirty = s.can_dirty;
  sequence_active = s.sequence_active;
  sequence_abort = s.sequence_abort;
  valve_profile = s.valve_profile;
  on_bus = frames s.events;
  running = threads s.events;
}

-- A classic CAN data frame: an 11-bit id and eight bytes.
pub record IsClassic (f : CanFrame) : Type 0 where
  pub standard_id : f.can_id ≤ 0x7FF
  pub full : f.can_dlc ≡ 8
  pub eight : length f.payload ≡ 8
  pub bytes : All (λ b. b < 256) f.payload

-- Nothing but frames on the bus is new.
pub record Wrote (v w : View) : Type 0 where
  pub new : List CanFrame
  pub classic : All IsClassic new
  pub after : w ≡ record v { on_bus = new ++ v.on_bus }

append_assoc_back : (x y z : List CanFrame) → x ++ (y ++ z) ≡ (x ++ y) ++ z
append_assoc_back x y z = simp append_assoc

pub Wrote-none : {v w : View} → w ≡ v → Wrote v w
Wrote-none e = record { new = []; classic = tt; after = e }

pub Wrote-trans : {u v w : View} → Wrote u v → Wrote v w → Wrote u w
Wrote-trans {u} {v} {w} a b = record {
  new = b.new ++ a.new;
  classic = All-append IsClassic b.new a.new b.classic a.classic;
  after =
      b.after
      ∙ ap (λ (x : View). record x { on_bus = b.new ++ x.on_bus }) a.after
      ∙ ap (λ (l : List CanFrame). record u { on_bus = l })
          (append_assoc_back b.new a.new u.on_bus);
}

-- So is the table of wiggles, but nothing else.
pub record Moved (v w : View) : Type 0 where
  pub new : List CanFrame
  pub classic : All IsClassic new
  pub after : w ≡ record v { on_bus = new ++ v.on_bus; wiggles = w.wiggles }

pub Moved-trans : {u v w : View} → Moved u v → Moved v w → Moved u w
Moved-trans {u} {v} {w} a b = record {
  new = b.new ++ a.new;
  classic = All-append IsClassic b.new a.new b.classic a.classic;
  after =
      b.after
      ∙ ap (λ (x : View). record x { on_bus = b.new ++ x.on_bus; wiggles = w.wiggles }) a.after
      ∙ ap (λ (l : List CanFrame). record u { on_bus = l; wiggles = w.wiggles })
          (append_assoc_back b.new a.new u.on_bus);
}

pub view-called : (s : App) → view (called s) ≡ view s
unfolding view
view-called s = refl

pub Moved-none : (s : App) → Moved (view s) (view s)
unfolding view
Moved-none s = record { new = []; classic = tt; after = refl }

-- Of the events only those on the bus and the threads are seen.
pub Moved-called : {v : View} (s : App) → Moved (view (called s)) v → Moved (view s) v
unfolding view
Moved-called s m = m

pub Moved-set :
    (s t : App) (ws : List WiggleCommand)
    → Wrote (view s) (view t)
    → Moved (view s) (view (record t { wiggles = ws }))
unfolding view
Moved-set s t ws a = record {
  new = a.new;
  classic = a.classic;
  after = ap (λ (y : View). record y { wiggles = ws }) a.after;
}
