-- ===== src/Safety/Stays.antt =====
-- What a step beside the commands of the clients leaves of a safe server.
use static_fire.Base.{Bytes, ℕ, Bool, true, false, ◌≡◌, refl, ◌∙◌, sym, ap, if◌then◌else◌}
use static_fire.App.View.{View, view, Wrote, Wrote-none}
use static_fire.App.{App, Env, called, emit, logged, frames, threads}
use static_fire.Bridge.{send_text, broadcast_text}
use static_fire.Bridge.Silent.{view-send_text, view-broadcast_text}
use static_fire.Bus.{send_command}
use static_fire.Bus.Frames.{send_command-Wrote}
use static_fire.Safety.{IsSound, IsSound-Wrote, IsQuiet, IsSafe, IsSafe-Wrote}

-- All of a sound server, the state, and the quiet of the wiggles.
pub record Stays (s t : App) : Type 0 where
  pub sound : IsSound s → IsSound t
  pub same_state : t.state ≡ s.state
  pub quiet : IsSafe s → IsQuiet t

pub Stays-trans : {s t u : App} → Stays s t → Stays t u → Stays s u
Stays-trans a b = record {
  sound = λ x. b.sound (a.sound x);
  same_state = b.same_state ∙ a.same_state;
  quiet = λ x. b.quiet (record { sound = a.sound x.sound; quiet = a.quiet x });
}

pub Stays-IsSafe : {s t : App} → Stays s t → IsSafe s → IsSafe t
Stays-IsSafe a x = record { sound = a.sound x.sound; quiet = a.quiet x }

-- Nothing that matters here is changed at all.
pub Stays-same :
    (s t : App)
    → t.wiggles ≡ s.wiggles
    → t.state ≡ s.state
    → t.valve_profile ≡ s.valve_profile
    → frames t.events ≡ frames s.events
    → threads t.events ≡ threads s.events
    → Stays s t
Stays-same s t w st p e r = record {
  sound = λ x. record {
    table = rw w x.table;
    profile = rw p x.profile;
    bus = rw e x.bus;
    workers = rw r x.workers;
  };
  same_state = st;
  quiet = λ x h. rw w (x.quiet (sym st ∙ h));
}

pub Stays-refl : (s : App) → Stays s s
Stays-refl s = Stays-same s s refl refl refl refl refl

state-Wrote : (s t : App) → Wrote (view s) (view t) → t.state ≡ s.state
unfolding view
state-Wrote s t m = ap (λ (v : View). v.state) m.after

pub Stays-Wrote : (s t : App) → Wrote (view s) (view t) → Stays s t
Stays-Wrote s t m = record {
  sound = IsSound-Wrote s t m;
  same_state = state-Wrote s t m;
  quiet = λ x. (IsSafe-Wrote s t m x).quiet;
}

pub either-Stays : (b : Bool) (s t u : App) → Stays s t → Stays s u → Stays s (if b then t else u)
either-Stays true s t u x y = x
either-Stays false s t u x y = y

pub called-Stays : (s : App) → Stays s (called s)
called-Stays s = Stays-same s (called s) refl refl refl refl refl

pub logged-Stays : (s : App) (kind text : Bytes) → Stays s (emit (logged kind text) s)
logged-Stays s kind text = Stays-same s (emit (logged kind text) s) refl refl refl refl refl

module _ (env : Env) where
  pub send_text-Stays : (s : App) (c : ℕ) (msg : Bytes) → Stays s (send_text env s c msg)
  send_text-Stays s c msg = Stays-Wrote s _ (Wrote-none (view-send_text env s c msg))

  pub broadcast_text-Stays :
      (s : App) (msg : Bytes) (stamp : Bool) → Stays s (broadcast_text env s msg stamp)
  broadcast_text-Stays s msg stamp =
      Stays-Wrote s _ (Wrote-none (view-broadcast_text env s msg stamp))

  pub send_command-Stays : (s : App) (id value d : ℕ) → Stays s (send_command env s id value d).0
  send_command-Stays s id value d = Stays-Wrote s _ (send_command-Wrote env s id value d)
