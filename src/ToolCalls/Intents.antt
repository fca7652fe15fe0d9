-- ===== src/ToolCalls/Intents.antt =====
-- How long the label of a dispatched call can get.
use Prim.Native.String.{◌++◌}
use krakey_bot.Base.{ℕ, ◌+◌, ◌≤◌, String, Option, none, some, ltb, if-split, arith, List, [], ◌∷◌}
use krakey_bot.Base.Text.{
  join, text_length, text_take, text_length-append, text_length-take-le, concat,
}
use krakey_bot.Json.{Items, Fields, str, arr, end, field}
use krakey_bot.ToolCalls.{
  Python, cut, format_items, rendered_list, parts_of, format_primitive, format_arg_value,
  synth_intent,
}

module _ (python : Python) where
  cut-le :
      (limit kept : ℕ) (tail s : String)
      → limit ≤ kept + text_length tail
      → text_length (cut python limit kept tail s) ≤ kept + text_length tail
  unfolding cut
  cut-le limit kept tail s h =
      if-split (λ r. text_length r ≤ kept + text_length tail) (ltb limit (text_length s)) _ _
        (λ e. omega (arith, text_length-append (text_take kept s) tail, text_length-take-le kept s))
        λ e. ground (arith, e)

  rendered_list-le : (o : Option (List String)) → text_length (rendered_list python o) ≤ 41
  unfolding rendered_list cut
  rendered_list-le none = omega arith
  rendered_list-le (some parts) =
      cut-le 40 37 "...]" (concat ("[" ∷ join ", " parts ∷ "]" ∷ [])) (omega arith)

  intent-le :
      (name : String) (d : Fields)
      → text_length (synth_intent python name d) ≤ text_length name + 122
  unfolding synth_intent
  intent-le name end = omega arith
  intent-le name (field k v d) =
      let shown = cut python 120 117 "..." (join ", " (parts_of python (field k v d))) in
      omega (
        arith,
        text_length-append name ("(" ++ (shown ++ ")")),
        text_length-append "(" (shown ++ ")"),
        text_length-append shown ")",
        cut-le 120 117 "..." (join ", " (parts_of python (field k v d))) (omega arith),
      )

  -- The intent has at most 122 characters beyond the tool's name; in it a text shows as at most 40
  -- characters, and a list as at most 41.
  pub synth_intent_bounds :
      (name : String) (arguments : Fields)
      → (text_length (synth_intent python name arguments) ≤ text_length name + 122)
        × ((s : String) → text_length (format_arg_value python (str s)) ≤ 40)
        × ((l : Items) → text_length (format_arg_value python (arr l)) ≤ 41)
  unfolding format_arg_value format_primitive
  synth_intent_bounds name arguments = (
    intent-le name arguments,
    λ s. cut-le 40 36 "...'" (python.repr (str s)) (omega arith),
    λ l. rendered_list-le (format_items python l),
  )
