-- ===== src/Config/Grammar.antt =====
-- src/app/config.c: what a line of a configuration file says, and the numbers that it gives.
use static_fire.Base.{
  ap₂, length-append, Bytes, ℕ, ◌<◌, true, false, ◌||◌, some, [], ◌∷◌, ◌++◌, ◌≡◌, refl, ◌∙◌, ap,
  arith, ◌==◌, length, All, All-append, append_assoc, append-nil,
}
use static_fire.Text.Scan.{is_space}
use static_fire.Text.{c_string, split_at}
use static_fire.App.{AppConfig}
use static_fire.Config.Values.{apply_config_kv, trim_whitespace}
use static_fire.Config.{apply_pair, apply_trimmed, apply_line, unquote}
use static_fire.Config.Lines.{IsBlank, Ends, trim_whitespace-framed, trim_whitespace-starts}

-- A byte of a key.
abbrev pub IsPlain : ℕ → Type 0
IsPlain c = ((c == b'=') ≡ false) × ((c == 0) ≡ false)

-- A key: not empty, with no blank at its ends, no equals sign, and not a comment.
pub record IsKey (c : ℕ) (k : Bytes) : Type 0 where
  pub plain : All IsPlain (c ∷ k)
  pub starts : is_space c ≡ false
  pub ends : Ends (c ∷ k)
  pub no_comment : (c == b'#' || c == b';') ≡ false

-- A value: not empty, and with no blank at its ends.
pub record IsValue (d : ℕ) (v : Bytes) : Type 0 where
  pub no_zero : All (λ c. (c == 0) ≡ false) (d ∷ v)
  pub starts : is_space d ≡ false
  pub ends : Ends (d ∷ v)

-- A text that goes on behind another ends as it does.
abbrev Some : Bytes → Type 0
Some s = 0 < length s

Some-append : (u t : Bytes) → Some t → Some (u ++ t)
Some-append u t h = rw (length-append u t) (omega arith)

Ends-append : (u t : Bytes) → Some t → Ends t → Ends (u ++ t)
Ends-append [] t h e = e
Ends-append (c ∷ []) [] h e = absurd (omega arith)
Ends-append (c ∷ []) (d ∷ t) h e = e
Ends-append (c ∷ b ∷ u) t h e = Ends-append (b ∷ u) t h e

c_string-All : (s : Bytes) → All (λ c. (c == 0) ≡ false) s → c_string s ≡ s
unfolding c_string
c_string-All [] a = refl
c_string-All (c ∷ s) a = rw (a.0, c_string-All s a.1, c_string) refl

split_at-append :
    (d : ℕ) (k v : Bytes)
    → All (λ c. (c == d) ≡ false) k
    → (d == d) ≡ true
    → split_at d (k ++ (d ∷ v)) ≡ some (k, v)
unfolding split_at
split_at-append d [] v a e = rw (e, split_at) refl
split_at-append d (c ∷ k) v a e = rw (a.0, split_at-append d k v a.1 e, split_at) refl

blank-IsPlain : (s : Bytes) → IsBlank s → All IsPlain s
unfolding is_space
blank-IsPlain [] b = tt
blank-IsPlain (c ∷ s) b = (ground (arith, b.0), blank-IsPlain s b.1)

plain_equals : (s : Bytes) → All IsPlain s → All (λ c. (c == b'=') ≡ false) s
plain_equals [] a = tt
plain_equals (c ∷ s) a = (a.0.0, plain_equals s a.1)

plain_zero : (s : Bytes) → All IsPlain s → All (λ c. (c == 0) ≡ false) s
plain_zero [] a = tt
plain_zero (c ∷ s) a = (a.0.1, plain_zero s a.1)

-- The line: blanks, the key, blanks, the equals sign, blanks, the value, blanks.
abbrev pub line : Bytes → Bytes → Bytes → Bytes → Bytes → Bytes → Bytes
line pre key mid next value post = pre ++ ((key ++ (mid ++ (b'=' ∷ (next ++ value)))) ++ post)

module _ (cfg : AppConfig) (pre mid next post : Bytes) (c : ℕ) (k : Bytes) (d : ℕ) (v : Bytes) where
  abbrev core : Bytes
  core = (c ∷ k) ++ (mid ++ (b'=' ∷ (next ++ (d ∷ v))))

  core-zero :
      IsKey c k → IsValue d v → IsBlank mid → IsBlank next → All (λ x. (x == 0) ≡ false) core
  core-zero key val m n = All-append _ (c ∷ k) _ (plain_zero (c ∷ k) key.plain) (
      All-append _ mid _ (plain_zero mid (blank-IsPlain mid m))
        (refl, All-append _ next (d ∷ v) (plain_zero next (blank-IsPlain next n)) val.no_zero))

  core-Ends : IsValue d v → Ends core
  core-Ends val =
      let value = Ends-append next (d ∷ v) (omega arith) val.ends in
      let behind = Some-append next (d ∷ v) (omega arith) in
      let equals = Ends-append (b'=' ∷ []) (next ++ (d ∷ v)) behind value in
      let some_equals : Some (b'=' ∷ (next ++ (d ∷ v))) = omega arith in
      Ends-append (c ∷ k) (mid ++ (b'=' ∷ (next ++ (d ∷ v)))) (Some-append mid _ some_equals)
        (Ends-append mid (b'=' ∷ (next ++ (d ∷ v))) some_equals equals)

  split_at-core :
      IsKey c k → IsBlank mid → split_at b'=' core ≡ some ((c ∷ k) ++ mid, next ++ (d ∷ v))
  split_at-core key m = rw⁻¹ (append_assoc (c ∷ k) mid (b'=' ∷ (next ++ (d ∷ v)))) (
      split_at-append b'=' ((c ∷ k) ++ mid) (next ++ (d ∷ v))
        (All-append _ (c ∷ k) mid (plain_equals (c ∷ k) key.plain)
          (plain_equals mid (blank-IsPlain mid m)))
        refl)

  apply_pair-trimmed :
      IsKey c k
      → IsValue d v
      → IsBlank mid
      → IsBlank next
      → apply_pair cfg (some ((c ∷ k) ++ mid, next ++ (d ∷ v)))
        ≡ apply_config_kv cfg (c ∷ k) (unquote (d ∷ v))
  unfolding apply_pair
  apply_pair-trimmed key val m n =
      ap₂ (apply_config_kv cfg) (trim_whitespace-framed [] (c ∷ k) mid tt key.starts key.ends m) (
        ap unquote
          (rw append-nil at (trim_whitespace-framed next (d ∷ v) [] n val.starts val.ends tt)))

  apply_trimmed-core :
      IsKey c k
      → IsValue d v
      → IsBlank mid
      → IsBlank next
      → apply_trimmed cfg core ≡ apply_config_kv cfg (c ∷ k) (unquote (d ∷ v))
  apply_trimmed-core key val m n =
      let split = split_at-core key m in
      let pair = apply_pair-trimmed key val m n in
      unfold apply_trimmed in rw (key.no_comment, split) pair

  -- A line with a key and a value, with blanks before, between and behind, does what the key and the
  -- value do, the quotes taken off.
  pub apply_line-pair :
      IsKey c k
      → IsValue d v
      → IsBlank pre
      → IsBlank mid
      → IsBlank next
      → IsBlank post
      → apply_line cfg (line pre (c ∷ k) mid next (d ∷ v) post)
        ≡ apply_config_kv cfg (c ∷ k) (unquote (d ∷ v))
  unfolding apply_line
  apply_line-pair key val a m n b =
      let zero_free =
        All-append _ pre (core ++ post) (plain_zero pre (blank-IsPlain pre a)) (
          All-append _ core post (core-zero key val m n)
            (plain_zero post (blank-IsPlain post b))) in
      ap (λ s. apply_trimmed cfg (trim_whitespace s))
        (c_string-All (pre ++ (core ++ post)) zero_free)
      ∙ ap (apply_trimmed cfg) (trim_whitespace-framed pre core post a key.starts (core-Ends val) b)
      ∙ apply_trimmed-core key val m n

c_string-append : (pre s : Bytes) → IsBlank pre → c_string (pre ++ s) ≡ pre ++ c_string s
unfolding c_string is_space
c_string-append [] s a = refl
c_string-append (c ∷ pre) s a =
    let z : (c == 0) ≡ false = ground (arith, a.0) in
    rw (z, c_string) (ap (λ t. c ∷ t) (c_string-append pre s a.1))

apply_line-marked :
    (cfg : AppConfig) (pre : Bytes) (c : ℕ) (text : Bytes)
    → IsBlank pre
    → (c == 0) ≡ false
    → is_space c ≡ false
    → (c == b'#' || c == b';') ≡ true
    → apply_line cfg (pre ++ (c ∷ text)) ≡ some cfg
unfolding apply_line c_string
apply_line-marked cfg pre c text a z h m =
    ap (λ s. apply_trimmed cfg (trim_whitespace s)) (c_string-append pre (c ∷ text) a)
    ∙ rw (z, c_string)
        (ap (apply_trimmed cfg) (trim_whitespace-starts pre c (c_string text) a h)
          ∙ unfold apply_trimmed in rw m refl)

apply_line-blank : (cfg : AppConfig) (pre : Bytes) → IsBlank pre → apply_line cfg pre ≡ some cfg
unfolding apply_line
apply_line-blank cfg pre a =
    ap (λ s. apply_trimmed cfg (trim_whitespace s))
      (c_string-All pre (plain_zero pre (blank-IsPlain pre a)))
    ∙ ap (apply_trimmed cfg) (rw append-nil at (trim_whitespace-framed pre [] [] a tt tt tt))
    ∙ unfold apply_trimmed in refl

-- Blank lines, and comments behind blanks, leave the configuration as it is, whatever they say.
pub apply_line-comment :
    (cfg : AppConfig) (pre : Bytes) (text : Bytes)
    → IsBlank pre
    → (apply_line cfg (pre ++ (b'#' ∷ text)) ≡ some cfg)
      × (apply_line cfg (pre ++ (b';' ∷ text)) ≡ some cfg)
      × (apply_line cfg pre ≡ some cfg)
unfolding is_space
apply_line-comment cfg pre text a = (
  apply_line-marked cfg pre b'#' text a refl refl refl,
  apply_line-marked cfg pre b';' text a refl refl refl,
  apply_line-blank cfg pre a,
)
