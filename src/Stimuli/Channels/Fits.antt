-- ===== src/Stimuli/Channels/Fits.antt =====
-- Each method of the channels, step by step: what runs or is paused stays among the registered.
use krakey_bot.Base.{
  String, true, ◌≡◌, List, [], ◌∷◌, elem, elem-add, elem-discard, not, ◌&&◌, ==_iff, ==_refl, arith,
  string_eq,
}
use krakey_bot.Base.Dict
use krakey_bot.Base.Dict.{Dict, get-put, get-pop, has-put, has-pop}
use krakey_bot.Base.Action.{Preserves, Preserves-bind, modify, Preserves-pure, Preserves-test}
use krakey_bot.Stimuli.Channels.{
  Channel, Channels, Error, World, Method, hook, start, start_unless_running, for_each,
  pause_if_calm, lookup, resume_names, stop_if_running, mark_running, unmark_running, mark_paused,
  unmark_paused, Hook, started, stopped,
}

-- Each channel is stored under its own name.
abbrev pub Named : Dict String Channel → Type 0
Named [] = Unit
Named ((n, c) ∷ d) = (c.name ≡ n) × Named d

-- The registered channels are `d`, and what runs or is paused is among them.
pub record Fits (d : Dict String Channel) (s : Channels) : Type 0 where
  pub same : s.channels ≡ d
  pub running : (n : String) → elem n s.running ≡ true → Dict.has n d ≡ true
  pub paused : (n : String) → elem n s.paused ≡ true → Dict.has n d ≡ true

abbrev pub AllHave : Dict String Channel → List Channel → Type 0
AllHave d [] = Unit
AllHave d (c ∷ cs) = (Dict.has c.name d ≡ true) × AllHave d cs

abbrev pub AllListed : Dict String Channel → List String → Type 0
AllListed d [] = Unit
AllListed d (n ∷ ns) = (Dict.has n d ≡ true) × AllListed d ns

pub AllListed-of :
    (d : Dict String Channel) (ns : List String)
    → ((n : String) → elem n ns ≡ true → Dict.has n d ≡ true)
    → AllListed d ns
AllListed-of d [] h = tt
AllListed-of d (n ∷ ns) h =
    (h n (ground (arith, ==_refl n)), AllListed-of d ns (λ m e. h m (ground arith)))

pub values-AllHave :
    (d e : Dict String Channel)
    → Named d
    → ((n : String) → Dict.has n d ≡ true → Dict.has n e ≡ true)
    → AllHave e (Dict.values d)
values-AllHave [] e named sub = tt
values-AllHave ((n, c) ∷ d) e named sub = (
  sub c.name (ground (arith, ==_iff n c.name)),
  values-AllHave d e named.1 (λ m h. sub m (ground (arith, ==_iff n m))),
)

pub AllListed-at :
    (d : Dict String Channel) (ns : List String)
    → AllListed d ns
    → (n : String) → elem n ns ≡ true
    → Dict.has n d ≡ true
AllListed-at d [] h n e = absurd (ground arith)
AllListed-at d (m ∷ ns) h n e = ground (arith, AllListed-at d ns h.1 n, ==_iff m n, h.0)

module _ (raises : World) (d : Dict String Channel) where
  pub hook-Fits : (h : Hook) → Preserves {E = Error} (Fits d) (hook raises h)
  unfolding hook
  hook-Fits h = record {
    at = λ s v. record {
      same = ground arith;
      running = λ n e. v.running n (ground arith);
      paused = λ n e. v.paused n (ground arith);
    };
  }

  pub mark_running-Fits :
      (n : String) → Dict.has n d ≡ true → Preserves {E = Error} (Fits d) (modify (mark_running n))
  mark_running-Fits n h = record {
    at = λ s v. record {
      same = v.same;
      running = λ m e. ground (arith, elem-add m n s.running, ==_iff n m, v.running m);
      paused = v.paused;
    };
  }

  pub mark_paused-Fits :
      (n : String) → Dict.has n d ≡ true → Preserves {E = Error} (Fits d) (modify (mark_paused n))
  mark_paused-Fits n h = record {
    at = λ s v. record {
      same = v.same;
      running = v.running;
      paused = λ m e. ground (arith, elem-add m n s.paused, ==_iff n m, v.paused m);
    };
  }

  pub unmark_running-Fits :
      (n : String) → Preserves {E = Error} (Fits d) (modify (unmark_running n))
  unmark_running-Fits n = record {
    at = λ s v. record {
      same = v.same;
      running = λ m e. ground (arith, elem-discard m n s.running, v.running m);
      paused = v.paused;
    };
  }

  pub unmark_paused-Fits : (n : String) → Preserves {E = Error} (Fits d) (modify (unmark_paused n))
  unmark_paused-Fits n = record {
    at = λ s v. record {
      same = v.same;
      running = v.running;
      paused = λ m e. ground (arith, elem-discard m n s.paused, v.paused m);
    };
  }

  pub start-Fits :
      (n : String) → Dict.has n d ≡ true → Preserves {E = Error} (Fits d) (start raises n)
  unfolding start
  start-Fits n h = search (Preserves-bind, hook-Fits, mark_running-Fits)

  pub lookup-Fits : (n : String) → Preserves {E = Error} (Fits d) (lookup raises n)
  unfolding lookup
  lookup-Fits n = record {
    at = λ s v. record {
      same = ground arith;
      running = λ m e. v.running m (ground arith);
      paused = λ m e. v.paused m (ground arith);
    };
  }

  pub start_unless_running-Fits :
      (n : String)
      → Dict.has n d ≡ true
      → Preserves {E = Error} (Fits d) (start_unless_running raises n)
  unfolding start_unless_running
  start_unless_running-Fits n h =
      Preserves-test (λ s. elem n s.running) _ _ (λ s e v. v) (λ s e v. (start-Fits n h).at s v)

  pub for_each-Fits :
      (body : Channel → Method (Unit {0}))
      → ((c : Channel) → Dict.has c.name d ≡ true → Preserves {E = Error} (Fits d) (body c))
      → (cs : List Channel) → AllHave d cs
      → Preserves {E = Error} (Fits d) (for_each raises body cs)
  unfolding for_each
  for_each-Fits body keeps [] h = Preserves-pure tt
  for_each-Fits body keeps (c ∷ cs) h =
      Preserves-bind (keeps c h.0) (λ _. for_each-Fits body keeps cs h.1)

  pub pause_if_calm-Fits :
      (c : Channel)
      → Dict.has c.name d ≡ true
      → Preserves {E = Error} (Fits d) (pause_if_calm raises c)
  unfolding pause_if_calm
  pause_if_calm-Fits c h =
      Preserves-test (λ s. not c.default_adrenalin && elem c.name s.running) _ _
        (λ s e v.
          (Preserves-bind
              (Preserves-bind (hook-Fits (stopped c.name)) (λ _. unmark_running-Fits c.name))
              (λ _. mark_paused-Fits c.name h)).at
            s v)
        (λ s e v. v)

  pub stop_if_running-Fits :
      (c : Channel) → Preserves {E = Error} (Fits d) (stop_if_running raises c)
  unfolding stop_if_running
  stop_if_running-Fits c =
      Preserves-test (λ s. elem c.name s.running) _ _
        (λ s e v.
          (Preserves-bind (hook-Fits (stopped c.name)) (λ _. unmark_running-Fits c.name)).at s v)
        (λ s e v. v)

  pub resume_names-Fits :
      (ns : List String) → AllListed d ns → Preserves {E = Error} (Fits d) (resume_names raises ns)
  unfolding resume_names
  resume_names-Fits [] h = Preserves-pure tt
  resume_names-Fits (n ∷ ns) h = Preserves-bind (lookup-Fits n) λ c.
      Preserves-bind (hook-Fits (started c.name)) λ _.
        Preserves-bind (mark_running-Fits n h.0)
          λ _. Preserves-bind (unmark_paused-Fits n) λ _. resume_names-Fits ns h.1
