-- ===== src/Firing/Parse.antt =====
-- src/control/firing_sequence.c: what `firing_sequence_parse` accepts.
use static_fire.Base.{
  Bytes, ℕ, zero, suc, ◌≤◌, ◌<◌, ◌^◌, Bool, true, false, Option, none, some, List, [], ◌∷◌, ◌≡◌,
  refl, arith, All, length, ap, subst, ◌++◌,
}
use mathlib.Core.Option.{some-injective}
use static_fire.Text.Bounds.{Assigned, sscanf-Assigned}
use static_fire.Text.Scan.{sscanf}
use static_fire.Text.{tokens, after_first}
use static_fire.App.{FiringBlock, FiringConfig}
use static_fire.Firing.{
  block_format, wait_format, block_of_three, block_of_four, check_id, parse_block, prepend,
  parse_blocks, some_blocks, parse_payload, firing_sequence_parse,
}

-- A block that may be sent: a standard id other than 0, and 16-bit numbers.
pub record IsBlock (b : FiringBlock) : Type 0 where
  pub id_pos : 0 < b.id
  pub id_standard : b.id ≤ 0x7FF
  pub value_fits : b.value < 2 ^ 16
  pub duration_fits : b.duration_ms < 2 ^ 16
  pub wait_fits : b.wait_ms < 2 ^ 16

abbrev IsShort : Option FiringBlock → Type 0
IsShort none = Unit
IsShort (some b) = (b.value < 2 ^ 16) × (b.duration_ms < 2 ^ 16) × (b.wait_ms < 2 ^ 16)

block_of_three-IsShort : (vs : List ℕ) → Assigned block_format vs → IsShort (block_of_three vs)
unfolding block_of_three
block_of_three-IsShort (a ∷ b ∷ c ∷ []) h = (h.1.0, h.1.1.0, omega arith)
block_of_three-IsShort _ h = tt

block_of_four-IsShort :
    (vs : List ℕ) (o : Option FiringBlock)
    → Assigned wait_format vs
    → IsShort o
    → IsShort (block_of_four vs o)
unfolding block_of_four
block_of_four-IsShort (a ∷ b ∷ c ∷ d ∷ []) o h k = (h.1.0, h.1.1.0, h.1.1.1.0)
block_of_four-IsShort _ o h k = k

check_id-IsBlock :
    (o : Option FiringBlock) {b : FiringBlock} → IsShort o → check_id o ≡ some b → IsBlock b
unfolding check_id
check_id-IsBlock none h e = cc
check_id-IsBlock (some b) h e = ground arith

pub parse_block-IsBlock : (token : Bytes) {b : FiringBlock} → parse_block token ≡ some b → IsBlock b
unfolding parse_block
parse_block-IsBlock token e =
    check_id-IsBlock
      (block_of_four (sscanf token wait_format) (block_of_three (sscanf token block_format)))
      (block_of_four-IsShort _ _ (sscanf-Assigned token wait_format)
        (block_of_three-IsShort _ (sscanf-Assigned token block_format)))
      e

prepend-some :
    (o : Option FiringBlock) (r : Option (List FiringBlock)) {bs : List FiringBlock}
    → prepend o r ≡ some bs
    → (b : FiringBlock) × (rest : List FiringBlock) × (o ≡ some b)
      × (r ≡ some rest)
      × (b ∷ rest ≡ bs)
unfolding prepend
prepend-some none r e = cc
prepend-some (some b) none e = cc
prepend-some (some b) (some rest) e = (b, rest, refl, refl, ground arith)

abbrev Accepted : ℕ → List FiringBlock → Type 0
Accepted n bs = All IsBlock bs × (length bs ≤ n)

pub parse_blocks-Accepted :
    (room : ℕ) (ts : List Bytes) {bs : List FiringBlock}
    → parse_blocks room ts ≡ some bs
    → Accepted room bs
unfolding parse_blocks
parse_blocks-Accepted zero ts {bs} e =
    subst (Accepted zero) {x = []} (ground arith) (tt, omega arith)
parse_blocks-Accepted (suc room) [] {bs} e =
    subst (Accepted (suc room)) {x = []} (ground arith) (tt, omega arith)
parse_blocks-Accepted (suc room) (t ∷ ts) {bs} e =
    let (b, rest, one, others, eq) = prepend-some (parse_block t) (parse_blocks room ts) e in
    let (ok, n) = parse_blocks-Accepted room ts others in
    subst (Accepted (suc room)) eq ((parse_block-IsBlock t one, ok), omega arith)

some_blocks-Accepted :
    (o : Option (List FiringBlock)) {config : FiringConfig}
    → ((bs : List FiringBlock) → o ≡ some bs → Accepted 24 bs)
    → some_blocks o ≡ some config
    → Accepted 24 config.blocks × (1 ≤ length config.blocks) × (config.drown_injector ≡ false)
unfolding some_blocks
some_blocks-Accepted none h e = cc
some_blocks-Accepted (some []) h e = cc
some_blocks-Accepted (some (b ∷ bs)) {config} h e =
    subst
      (λ (c : FiringConfig).
        Accepted 24 c.blocks × (1 ≤ length c.blocks) × (c.drown_injector ≡ false))
      (some-injective _ _ e) (h (b ∷ bs) refl, omega arith, refl)

parse_payload-Accepted :
    (ok : Bool) (payload : Option Bytes) {config : FiringConfig}
    → parse_payload ok payload ≡ some config
    → Accepted 24 config.blocks × (1 ≤ length config.blocks) × (config.drown_injector ≡ false)
unfolding parse_payload
parse_payload-Accepted ok none e = cc
parse_payload-Accepted false (some p) e = cc
parse_payload-Accepted true (some p) e =
    some_blocks-Accepted (parse_blocks 24 (tokens b'|' p)) (λ bs h. parse_blocks-Accepted 24 _ h) e

-- What the parser accepts has 1 to 24 blocks, each with a standard id other than 0 and 16-bit
-- numbers, and is not a drowning.
pub firing_sequence_parse-IsBlock :
    (ok : Bool) (command : Bytes) {config : FiringConfig}
    → firing_sequence_parse ok command ≡ some config
    → (All IsBlock config.blocks × (length config.blocks ≤ 24))
      × (1 ≤ length config.blocks)
      × (config.drown_injector ≡ false)
unfolding firing_sequence_parse
firing_sequence_parse-IsBlock ok command e = parse_payload-Accepted ok (after_first b'|' command) e

-- Behind as many tokens as there is room for blocks, the loop of the parser looks at nothing: what
-- stands there does not change its result.
pub parse_blocks-append :
    (room : ℕ) (ts us : List Bytes)
    → room ≤ length ts
    → parse_blocks room (ts ++ us) ≡ parse_blocks room ts
unfolding parse_blocks
parse_blocks-append zero ts us h = refl
parse_blocks-append (suc room) [] us h = absurd (omega arith)
parse_blocks-append (suc room) (t ∷ ts) us h =
    ap (prepend (parse_block t)) (parse_blocks-append room ts us (omega arith))
