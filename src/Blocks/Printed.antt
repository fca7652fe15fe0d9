-- ===== src/Blocks/Printed.antt =====
-- What is read back from a text in which blocks were printed.
use Prim.Native.Char.{Char, code}
use krakey_bot.Base.{
  zero, ◌≡◌, refl, ap, ◌∙◌, String, Bool, true, false, not, ◌&&◌, List, [], ◌∷◌, some, map, nat_beq,
  arith,
}
use krakey_bot.Blocks.{exact, any_case, starts, opened, scan, blocks}

-- The text `s` in front of `t`.
abbrev pub glue : String → String → String
glue String.[] t = t
glue (String.◌∷◌ c s) t = String.◌∷◌ c (glue s t)

-- No character of the text opens a tag.
abbrev pub is_plain : String → Bool
is_plain String.[] = true
is_plain (String.◌∷◌ c s) = not (nat_beq (code c) 60) && is_plain s

-- Each block with the text in front of it.
abbrev pub printed : List (String × String) → String
printed [] = ""
printed ((gap, payload) ∷ l) =
    glue gap (glue "<tool_call>" (glue payload (glue "</tool_call>" (printed l))))

abbrev pub all_plain : List (String × String) → Bool
all_plain [] = true
all_plain ((gap, payload) ∷ l) = is_plain gap && (is_plain payload && all_plain l)

record IsMatcher (same : Char → Char → Bool) : Type 0 where
  reflexive : (c : Char) → same c c ≡ true
  only_itself : (c : Char) → nat_beq (code c) 60 ≡ false → same "<" c ≡ false

exact-IsMatcher : IsMatcher exact
exact-IsMatcher = record { reflexive = λ c. ground arith; only_itself = λ c h. ground arith }

any_case-IsMatcher : IsMatcher any_case
any_case-IsMatcher = record { reflexive = λ c. ground arith; only_itself = λ c h. ground arith }

module _ (same : Char → Char → Bool) (m : IsMatcher same) where
  starts-glue : (t s : String) → starts same t (glue t s) ≡ true
  starts-glue String.[] s = refl
  starts-glue (String.◌∷◌ c t) s = rw (m.reflexive c) (starts-glue t s)

  scan_close :
      (s : String)
      → scan same zero true (glue "</tool_call>" s)
        ≡ record { text = some ""; blocks = blocks same s }
  unfolding scan blocks
  scan_close s = rw (starts-glue "</tool_call>" s) refl

  scan_payload :
      (p s : String)
      → is_plain p ≡ true
      → scan same zero true (glue p (glue "</tool_call>" s))
        ≡ record { text = some p; blocks = blocks same s }
  unfolding scan
  scan_payload String.[] s h = scan_close s
  scan_payload (String.◌∷◌ c p) s h =
      rw (m.only_itself c (ground arith), scan_payload p s (ground arith)) refl

  blocks_open :
      (p s : String)
      → is_plain p ≡ true
      → blocks same (glue "<tool_call>" (glue p (glue "</tool_call>" s))) ≡ p ∷ blocks same s
  unfolding blocks scan
  blocks_open p s h =
      rw (starts-glue "<tool_call>" (glue p (glue "</tool_call>" s)), blocks)
        (ap opened (scan_payload p s h))

  blocks_gap : (gap s : String) → is_plain gap ≡ true → blocks same (glue gap s) ≡ blocks same s
  unfolding blocks scan
  blocks_gap String.[] s h = refl
  blocks_gap (String.◌∷◌ c gap) s h =
      rw (m.only_itself c (ground arith), blocks) (blocks_gap gap s (ground arith))

  blocks-printed :
      (l : List (String × String)) → all_plain l ≡ true → blocks same (printed l) ≡ map (λ b. b.1) l
  unfolding blocks scan
  blocks-printed [] h = refl
  blocks-printed ((gap, p) ∷ l) h =
      blocks_gap gap _ (ground arith)
      ∙ blocks_open p (printed l) (ground arith)
      ∙ ap (λ ps. p ∷ ps) (blocks-printed l (ground arith))

-- Where blocks were printed one behind the other, with text between, and neither the payloads nor the
-- text has the character that opens a tag, both patterns find the payloads, all of them, in order and
-- as they were.
pub printed_round_trip :
    (l : List (String × String))
    → all_plain l ≡ true
    → (blocks any_case (printed l) ≡ map (λ b. b.1) l)
      × (blocks exact (printed l) ≡ map (λ b. b.1) l)
printed_round_trip l h =
    (blocks-printed any_case any_case-IsMatcher l h, blocks-printed exact exact-IsMatcher l h)
