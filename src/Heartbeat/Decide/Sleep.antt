-- ===== src/Heartbeat/Decide/Sleep.antt =====
-- When a sleep that Self asks for happens.
use krakey_bot.Base.{
  ℕ, ◌≡◌, refl, ap, sym, ◌∙◌, String, Bool, true, false, not, ◌&&◌, ◌||◌, nat_beq, List, [], ◌∷◌,
  ◌++◌, Option, none, some, keep, any, is_empty, if◌then◌else◌, ltb, leb, Bool-cases, inl, inr,
  arith,
}
use krakey_bot.Base.Dict
use krakey_bot.Base.Dict.{Dict}
use krakey_bot.Base.Action.{returned}
use krakey_bot.Stimuli.{Stamp}
use krakey_bot.Decision.{ToolCall, DecisionResult}
use krakey_bot.Heartbeat.Fatigue.{matched_threshold, fatigue_hint, low_fatigue_hint}
use krakey_bot.Heartbeat.Fatigue.Hint.{is_highest, matched_threshold-is_highest}
use krakey_bot.Heartbeat.Decide.{
  State, is_sleep, intercept_sleep, minimum, refuses_sleep, guard_sleep, report_failures,
  apply_translation,
}

minimum-below :
    (pct t : ℕ) (ts : List ℕ) → ltb pct (minimum t ts) ≡ not (any (λ s. leb s pct) (t ∷ ts))
minimum-below pct t [] = ground arith
minimum-below pct t (u ∷ us) = ground (arith, minimum-below pct u us, minimum-below pct t us)

abbrev pub is_none {ℓ} : {A : Type ℓ} → Option A → Bool
is_none none = true
is_none (some a) = false

found-below :
    (pct t : ℕ) (ts : List ℕ)
    → any (λ s. nat_beq s t) ts ≡ true
    → leb t pct ≡ true
    → any (λ s. leb s pct) ts ≡ true
found-below pct t [] h l = absurd (ground arith)
found-below pct t (s ∷ ts) h l = ground (arith, found-below pct t ts)

matched-none :
    (pct : ℕ) (ts : List ℕ) (m : Option ℕ)
    → is_highest pct ts m ≡ true
    → is_none m ≡ not (any (λ s. leb s pct) ts)
matched-none pct ts none h = sym h
matched-none pct ts (some t) h = ground (arith, found-below pct t ts)

-- A sleep is refused exactly where there are thresholds and the loop of `fatigue_hint` matches none of
-- them, and there the hint is the one for high energy.
pub refuses_sleep_lem :
    (pct : ℕ) (thresholds : Dict ℕ String)
    → (refuses_sleep pct thresholds
        ≡ (not (is_empty thresholds) && is_none (matched_threshold pct thresholds)))
      × ((if refuses_sleep pct thresholds then fatigue_hint pct thresholds else low_fatigue_hint)
          ≡ low_fatigue_hint)
unfolding refuses_sleep fatigue_hint
refuses_sleep_lem pct [] = (refl, refl)
refuses_sleep_lem pct ((t, hint) ∷ thresholds) =
    let all = (t, hint) ∷ thresholds in
    let same : refuses_sleep pct all ≡ is_none (matched_threshold pct all) =
      minimum-below pct t (Dict.keys thresholds)
      ∙ sym (
          matched-none pct (Dict.keys all) (matched_threshold pct all)
            (matched_threshold-is_highest pct all)) in
    (same, hinted (matched_threshold pct all) refl same)
  where
    hinted :
        (m : Option ℕ)
        → matched_threshold pct ((t, hint) ∷ thresholds) ≡ m
        → refuses_sleep pct ((t, hint) ∷ thresholds)
          ≡ is_none (matched_threshold pct ((t, hint) ∷ thresholds))
        → (if refuses_sleep pct ((t, hint) ∷ thresholds)
            then fatigue_hint pct ((t, hint) ∷ thresholds)
            else low_fatigue_hint)
          ≡ low_fatigue_hint
    hinted none e same = rw (same ∙ ap is_none e) (rw e refl)
    hinted (some u) e same = rw (same ∙ ap is_none e) refl

module _ (stamps : ℕ → Stamp) (pct : ℕ) (thresholds : Dict ℕ String) where
  abbrev pub requests_sleep : DecisionResult → Bool
  requests_sleep r = any is_sleep r.tool_calls || r.sleep

  keep-all : (l : List ToolCall) → any is_sleep l ≡ false → keep (λ c. not (is_sleep c)) l ≡ l
  keep-all [] h = refl
  keep-all (c ∷ l) h = ground (arith, keep-all l)

  abbrev without_sleep : List ToolCall → List ToolCall
  without_sleep l = keep (λ c. not (is_sleep c)) l

  intercept_sleep_lem :
      (r : DecisionResult)
      → intercept_sleep r
        ≡ record r { sleep = requests_sleep r; tool_calls = without_sleep r.tool_calls }
  unfolding intercept_sleep
  intercept_sleep_lem r = elim (Bool-cases (any is_sleep r.tool_calls)) [
    | inl e ↦ rw e refl
    | inr e ↦ rw e (ap (λ l. record r { tool_calls = l }) (sym (keep-all r.tool_calls e)))
  ]

  guard_sleep_lem :
      (r : DecisionResult) (s : State)
      → ((guard_sleep stamps pct thresholds r s).0
          ≡ record r { sleep = r.sleep && not (refuses_sleep pct thresholds) })
        × ((guard_sleep stamps pct thresholds r s).1.dispatched ≡ s.dispatched)
  unfolding guard_sleep
  guard_sleep_lem r s = go r.sleep (refuses_sleep pct thresholds) refl refl
    where
      go :
          (a b : Bool)
          → r.sleep ≡ a
          → refuses_sleep pct thresholds ≡ b
          → ((guard_sleep stamps pct thresholds r s).0
              ≡ record r { sleep = r.sleep && not (refuses_sleep pct thresholds) })
            × ((guard_sleep stamps pct thresholds r s).1.dispatched ≡ s.dispatched)
      go true true e f =
          let refused : (r.sleep && refuses_sleep pct thresholds) ≡ true = rw (e, f) refl in
          let flag : (r.sleep && not (refuses_sleep pct thresholds)) ≡ false = rw (e, f) refl in
          (rw (refused, flag) refl, rw refused refl)
      go true false e f =
          let allowed : (r.sleep && refuses_sleep pct thresholds) ≡ false = rw (e, f) refl in
          let flag : (r.sleep && not (refuses_sleep pct thresholds)) ≡ r.sleep = rw (e, f) refl in
          (rw allowed (ap (λ v. record r { sleep = v }) (sym flag)), rw allowed refl)
      go false b e f =
          let allowed : (r.sleep && refuses_sleep pct thresholds) ≡ false = rw e refl in
          let flag : (r.sleep && not (refuses_sleep pct thresholds)) ≡ r.sleep = rw e refl in
          (rw allowed (ap (λ v. record r { sleep = v }) (sym flag)), rw allowed refl)

  report-dispatched :
      (r : DecisionResult) (s : State)
      → (report_failures stamps pct thresholds r s).dispatched ≡ s.dispatched
  unfolding report_failures
  report-dispatched r s = elim (Bool-cases (is_empty r.parse_failures)) [
    | inl e ↦ rw e refl
    | inr e ↦ rw e refl
  ]

  -- A translated decision is dispatched once, without its calls of the sleep tool, and the beat goes
  -- to sleep exactly where a call of the tool or the engine's flag asked for it and the energy is not
  -- too high; the flag of what is dispatched says the same.
  pub apply_translation_lem :
      (r : DecisionResult) (s : State)
      → let sleeps = requests_sleep r && not (refuses_sleep pct thresholds) in
        let (slept, t) = apply_translation stamps pct thresholds (returned r) s in
        (slept ≡ sleeps)
        × (t.dispatched
            ≡ s.dispatched
              ++ record r { sleep = sleeps; tool_calls = keep (λ c. not (is_sleep c)) r.tool_calls }
                ∷ [])
  unfolding apply_translation guard_sleep intercept_sleep
  apply_translation_lem r s =
      let told = report_failures stamps pct thresholds r s in
      let (guarded, kept) = guard_sleep_lem (intercept_sleep r) told in
      let final =
        guarded
        ∙ ap {A = DecisionResult} {B = DecisionResult}
            (λ q. record q { sleep = q.sleep && not (refuses_sleep pct thresholds) })
            (intercept_sleep_lem r) in
      (
        ap {A = DecisionResult} (λ q. q.sleep) final,
        ap (λ l. l ++ (guard_sleep stamps pct thresholds (intercept_sleep r) told).0 ∷ [])
              (kept ∙ report-dispatched r s)
            ∙ ap {A = DecisionResult} (λ q. s.dispatched ++ q ∷ []) final,
      )
