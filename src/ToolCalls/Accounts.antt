-- ===== src/ToolCalls/Accounts.antt =====
-- What becomes of each block of a decision, and that the count which Self is told is right.
use krakey_bot.Base.{
  ℕ, suc, ◌+◌, ◌≤◌, ◌≡◌, refl, ap, sym, subst, ◌∙◌, String, Bool, true, false, not, ◌&&◌, List, [],
  ◌∷◌, ◌++◌, Option, none, some, keep, length, length-append, keep-append, if◌then◌else◌, if-both,
  ltb, leb, ◌==◌, string_eq, arith, Option-cases, Bool-cases, inl, inr,
}
use krakey_bot.Base.Text.{text_take}
use krakey_bot.Base.Strip.{strip}
use krakey_bot.Base.Action.{Outcome, returned, raised}
use krakey_bot.Json.{Json, null, bool, int, float, str, arr, obj, get}
use krakey_bot.Decision.{ToolCall, ParseFailure}
use krakey_bot.Heartbeat.Decide.{count_salvaged}
use krakey_bot.Blocks.{any_case, blocks}
use krakey_bot.ToolCalls.{
  LoadError, decode_error, other_error, Python, Parsed, name_of, validate, salvage_failure,
  salvaged_from, parse_loaded, parse_one_call, then_rest, parse_blocks,
  parse_tool_calls_with_failures,
}

-- The blocks that are not blank.
abbrev pub filled : List String → List String
unfolding strip
filled [] = []
filled (b ∷ bs) = let rest = filled bs in if strip b == "" then rest else b ∷ rest

abbrev pub all_named : List ToolCall → Bool
all_named [] = true
all_named (c ∷ cs) = not (c.tool == "") && all_named cs

-- The failures' block indices ascend, from `lo` on and below `hi`.
abbrev pub ascend : ℕ → ℕ → List ParseFailure → Bool
ascend lo hi [] = true
ascend lo hi (f ∷ fs) =
    leb lo f.block_index && (ltb f.block_index hi && ascend (suc f.block_index) hi fs)

-- `n` blocks that are not blank, with indices from `lo` on and below `hi`, gave the calls and the failures.
pub record Accounts (n lo hi : ℕ) (p : Parsed) : Type 0 where
  pub total : length p.calls + length p.failures ≡ n + count_salvaged p.failures
  pub salvaged : count_salvaged p.failures ≤ length p.calls
  pub named : all_named p.calls ≡ true
  pub indices : ascend lo hi p.failures ≡ true

ascend-weaken :
    (lo m hi : ℕ) (fs : List ParseFailure) → lo ≤ m → ascend m hi fs ≡ true → ascend lo hi fs ≡ true
ascend-weaken lo m hi [] h a = refl
ascend-weaken lo m hi (f ∷ fs) h a = ground arith

ascend-append :
    (lo m hi : ℕ) (fs gs : List ParseFailure)
    → lo ≤ m
    → m ≤ hi
    → ascend lo m fs ≡ true
    → ascend m hi gs ≡ true
    → ascend lo hi (fs ++ gs) ≡ true
ascend-append lo m hi [] gs h k a b = ascend-weaken lo m hi gs h b
ascend-append lo m hi (f ∷ fs) gs h k a b =
    ground (arith, ascend-append (suc f.block_index) m hi fs gs)

all_named-append :
    (cs ds : List ToolCall)
    → all_named cs ≡ true
    → all_named ds ≡ true
    → all_named (cs ++ ds) ≡ true
all_named-append [] ds h k = k
all_named-append (c ∷ cs) ds h k = ground (arith, all_named-append cs ds)

if-ne_empty :
    (s name : String) → (if s == "" then none else some s) ≡ some name → (name == "") ≡ false
if-ne_empty s name h = elim (Bool-cases (s == "")) [
  | inl e ↦ absurd (cc (sym (rw e at h)))
  | inr e ↦ ground (arith, e, h)
]

name_of-ne_empty : (v : Option Json) (name : String) → name_of v ≡ some name → (name == "") ≡ false
name_of-ne_empty none name h = cc
name_of-ne_empty (some (str s)) name h = if-ne_empty s name h
name_of-ne_empty (some null) name h = cc
name_of-ne_empty (some (bool b)) name h = cc
name_of-ne_empty (some (int b n)) name h = cc
name_of-ne_empty (some (float r z)) name h = cc
name_of-ne_empty (some (arr l)) name h = cc
name_of-ne_empty (some (obj d)) name h = cc

lost-Accounts :
    (f : ParseFailure) (i : ℕ)
    → f.salvaged ≡ false
    → f.block_index ≡ i
    → Accounts 1 i (suc i) (record { calls = []; failures = f ∷ [] })
lost-Accounts f i h k = record {
  total = ground arith;
  salvaged = ground arith;
  named = refl;
  indices = ground arith;
}

module _ (python : Python) where
  -- How the parsing of `n` blocks ends.
  pub data Ends (n lo hi : ℕ) (o : Outcome String Parsed) : Type 0 where
    raises :
        (s x : String) → python.loads s ≡ raised (other_error x) → o ≡ raised x → Ends n lo hi o
    returns : (p : Parsed) → o ≡ returned p → Accounts n lo hi p → Ends n lo hi o

  -- A value gives a call with the salvage failures, or one failure.
  validate-Accounts :
      (payload : String) (i : ℕ) (salvage : List ParseFailure) (v : Json)
      → count_salvaged salvage ≡ length salvage
      → length salvage ≤ 1
      → ascend i (suc i) salvage ≡ true
      → Accounts 1 i (suc i) (validate python payload i salvage v)
  unfolding validate
  validate-Accounts payload i salvage (obj d) h k a = elim (Option-cases (name_of (get "name" d))) [
    | inl e ↦ rw (e, validate) (lost-Accounts _ i refl refl)
    | inr (name, e) ↦
        rw (e, validate)
          (record {
            total = omega (arith, h);
            salvaged = omega (arith, h);
            named = ground (arith, name_of-ne_empty (get "name" d) name e);
            indices = a;
          })
  ]
  validate-Accounts payload i salvage null h k a = lost-Accounts _ i refl refl
  validate-Accounts payload i salvage (bool b) h k a = lost-Accounts _ i refl refl
  validate-Accounts payload i salvage (int b n) h k a = lost-Accounts _ i refl refl
  validate-Accounts payload i salvage (float r z) h k a = lost-Accounts _ i refl refl
  validate-Accounts payload i salvage (str s) h k a = lost-Accounts _ i refl refl
  validate-Accounts payload i salvage (arr l) h k a = lost-Accounts _ i refl refl

  salvages :
      (payload text : String) (pos i : ℕ) (v : Json)
      → Ends 1 i
          (suc i)
          (returned (validate python payload i (salvage_failure python payload text pos i ∷ []) v))
  salvages payload text pos i v = returns _ refl (
      validate-Accounts payload i (salvage_failure python payload text pos i ∷ []) v refl
        (omega arith) (ground arith))

  salvaged_from-Ends :
      (payload text front : String) (pos i : ℕ) (o : Outcome LoadError Json)
      → python.loads front ≡ o
      → Ends 1 i (suc i) (salvaged_from python payload text pos i o)
  unfolding salvaged_from
  salvaged_from-Ends payload text front pos i (raised (other_error x)) e = raises front x e refl
  salvaged_from-Ends payload text front pos i (raised (decode_error t extra at)) e =
      returns _ refl (lost-Accounts _ i refl refl)
  salvaged_from-Ends payload text front pos i (returned null) e =
      returns _ refl (lost-Accounts _ i refl refl)
  salvaged_from-Ends payload text front pos i (returned (bool b)) e =
      salvages payload text pos i (bool b)
  salvaged_from-Ends payload text front pos i (returned (int b n)) e =
      salvages payload text pos i (int b n)
  salvaged_from-Ends payload text front pos i (returned (float r z)) e =
      salvages payload text pos i (float r z)
  salvaged_from-Ends payload text front pos i (returned (str s)) e =
      salvages payload text pos i (str s)
  salvaged_from-Ends payload text front pos i (returned (arr l)) e =
      salvages payload text pos i (arr l)
  salvaged_from-Ends payload text front pos i (returned (obj d)) e =
      salvages payload text pos i (obj d)

  parse_loaded-Ends :
      (payload : String) (i : ℕ) (o : Outcome LoadError Json)
      → python.loads payload ≡ o
      → Ends 1 i (suc i) (parse_loaded python payload i o)
  unfolding parse_loaded
  parse_loaded-Ends payload i (returned v) e =
      returns _ refl (validate-Accounts payload i [] v refl (omega arith) refl)
  parse_loaded-Ends payload i (raised (other_error x)) e = raises payload x e refl
  parse_loaded-Ends payload i (raised (decode_error text extra pos)) e =
      if-both (Ends 1 i (suc i)) (extra && ltb 0 pos) _ _
        (salvaged_from-Ends payload text (text_take pos payload) pos i _ refl)
        (returns _ refl (lost-Accounts _ i refl refl))

  joined-Accounts :
      (n lo hi : ℕ) (p q : Parsed)
      → suc lo ≤ hi
      → Accounts 1 lo (suc lo) p
      → Accounts n (suc lo) hi q
      → Accounts
          (suc n)
          lo
          hi
          (record { calls = p.calls ++ q.calls; failures = p.failures ++ q.failures })
  joined-Accounts n lo hi p q h a b =
      let c = length-append p.calls q.calls in
      let f = length-append p.failures q.failures in
      let s =
        ap length (keep-append (λ x. x.salvaged) p.failures q.failures)
        ∙ length-append (keep (λ x. x.salvaged) p.failures) (keep (λ x. x.salvaged) q.failures) in
      record {
        total = omega (arith, a.total, b.total, c, f, s);
        salvaged = omega (arith, a.salvaged, b.salvaged, c, s);
        named = all_named-append p.calls q.calls a.named b.named;
        indices =
            ascend-append lo (suc lo) hi p.failures q.failures (omega arith) h a.indices b.indices;
      }

  then_rest-Ends :
      (n lo hi : ℕ) (o r : Outcome String Parsed)
      → suc lo ≤ hi
      → Ends 1 lo (suc lo) o
      → Ends n (suc lo) hi r
      → Ends (suc n) lo hi (then_rest python o r)
  then_rest-Ends n lo hi o r h (raises s x l e) k = raises s x l (rw e refl)
  then_rest-Ends n lo hi o r h (returns p e a) (raises s x l f) = raises s x l (rw (e, f) refl)
  then_rest-Ends n lo hi o r h (returns p e a) (returns q f b) =
      returns _ (rw (e, f) refl) (joined-Accounts n lo hi p q h a b)

  earlier-Ends : (n lo hi : ℕ) (o : Outcome String Parsed) → Ends n (suc lo) hi o → Ends n lo hi o
  earlier-Ends n lo hi o (raises s x l e) = raises s x l e
  earlier-Ends n lo hi o (returns p e a) = returns p e (record {
    total = a.total;
    salvaged = a.salvaged;
    named = a.named;
    indices = ascend-weaken lo (suc lo) hi p.failures (omega arith) a.indices;
  })

  parse_blocks-Ends :
      (i : ℕ) (bs : List String)
      → Ends (length (filled bs)) i (i + length bs) (parse_blocks python i bs)
  unfolding parse_blocks parse_one_call strip
  parse_blocks-Ends i [] =
      returns _ refl (record { total = refl; salvaged = omega arith; named = refl; indices = refl })
  parse_blocks-Ends i (b ∷ bs) =
      let e : suc i + length bs ≡ i + suc (length bs) = omega arith in
      let more =
        subst (λ hi. Ends (length (filled bs)) (suc i) hi (parse_blocks python (suc i) bs)) e
          (parse_blocks-Ends (suc i) bs) in
      elim (Bool-cases (strip b == "")) [
        | inl blank ↦ rw (blank, parse_blocks, filled) (earlier-Ends _ i _ _ more)
        | inr full ↦
            rw (full, parse_blocks, filled)
              (then_rest-Ends _ i _ _ _ (omega arith) (parse_loaded-Ends (strip b) i _ refl) more)
      ]

-- Every block of a decision is accounted for, whatever `json.loads` does. Either it raised an error other
-- than a decode error on some text, and the parsing raises that error; or the parsing returns. Then the
-- blocks that are not blank are as many as the calls and the failures together, less the salvaged
-- failures, which have a call too; each call has a name; and the failures' indices ascend and
-- lie below the number of blocks.
pub parse_tool_calls_with_failures-Ends :
    (python : Python) (text : String)
    → let bs = blocks any_case text in
      Ends python (length (filled bs)) 0 (length bs) (parse_tool_calls_with_failures python text)
unfolding parse_tool_calls_with_failures
parse_tool_calls_with_failures-Ends python text =
    subst
      (λ hi.
        Ends python (length (filled (blocks any_case text))) 0 hi
          (parse_tool_calls_with_failures python text))
      (omega arith) (parse_blocks-Ends python 0 (blocks any_case text))
