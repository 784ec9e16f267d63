-- ===== src/RateLimit/Sweeps.antt =====
-- The cleanup loop of internal/ratelimit/limiter.go does not show in the replies.
use safe_road.Base.{
  ℕ, ◌+◌, ◌-◌, ◌*◌, ◌≤◌, ◌<◌, min, Bool, List, [], ◌∷◌, ◌≡◌, refl, arith, leb, Bool-cases, inl, inr,
  Text, text_eq, text_eq_sound, ap, sym, ◌∙◌, ap₂,
}
use safe_road.RateLimit.{token, Limiter, capacity, allow, on_tick}
use safe_road.RateLimit.Level.{
  level, spent, allow-rate, reply-allow, level-allow_self, level-allow_ne, level-on_tick,
}
use safe_road.RateLimit.Trace.{
  request, tick, Event, step, Ordered, IsPrompt, on_tick-rate, step-IsPrompt,
}

-- The reply of an event, if it has one, before the later replies.
abbrev pub reply_then : Limiter → Event → List Bool → List Bool
reply_then l (request now key) rest = (allow l key now).1 ∷ rest
reply_then l (tick now) rest = rest

unfoldable pub replies : Limiter → List Event → List Bool
replies l [] = []
replies l (e ∷ es) = reply_then l e (replies (step l e) es)

-- The same requests without the rounds of the cleanup loop.
unfoldable pub without_ticks : List Event → List Event
without_ticks [] = []
without_ticks (request now key ∷ es) = request now key ∷ without_ticks es
without_ticks (tick now ∷ es) = without_ticks es

-- Nothing that is asked from now on tells the limiters apart.
record Agree (now : ℕ) (l m : Limiter) : Type 0 where
  rate : l.rate ≡ m.rate
  burst : l.burst ≡ m.burst
  levels : (key : Text) (t : ℕ) → now ≤ t → level l key t ≡ level m key t

Agree-allow :
    (l m : Limiter) (key : Text) (now : ℕ)
    → 0 < l.rate
    → Agree now l m
    → Agree now (allow l key now).0 (allow m key now).0
Agree-allow l m key now on a = record {
  rate = ground (arith, a.rate, allow-rate l key now, allow-rate m key now);
  burst = ground (arith, a.burst, allow-rate l key now, allow-rate m key now);
  levels = λ j t le. elim (Bool-cases (text_eq key j)) [
    | inl same ↦ same_key j t le (text_eq_sound key j same)
    | inr other ↦
        level-allow_ne l key j now t on other
        ∙ a.levels j t le
        ∙ sym (level-allow_ne m key j now t on' other)
  ];
}
  where
    on' : 0 < m.rate
    on' = omega (arith, a.rate)

    self_key : (t : ℕ) → now ≤ t → level (allow l key now).0 key t ≡ level (allow m key now).0 key t
    self_key t le =
        level-allow_self l key now t on
        ∙ ap₂ (λ x r. min (x - spent x + (t - now) * r) (capacity l))
            (a.levels key now (omega arith)) a.rate
        ∙ ap (λ b. min (level m key now - spent (level m key now) + (t - now) * m.rate) (b * token))
            a.burst
        ∙ sym (level-allow_self m key now t on')

    same_key :
        (j : Text) (t : ℕ)
        → now ≤ t
        → key ≡ j
        → level (allow l key now).0 j t ≡ level (allow m key now).0 j t
    same_key j t le e = rw (← e) (self_key t le)

Agree-tick : (l m : Limiter) (now : ℕ) → IsPrompt l → Agree now l m → Agree now (on_tick l now) m
Agree-tick l m now p a = record {
  rate = (on_tick-rate l now).0 ∙ a.rate;
  burst = (on_tick-rate l now).1 ∙ a.burst;
  levels = λ j t le. level-on_tick l j now t p.refills le ∙ a.levels j t le;
}

Agree-later : (l m : Limiter) (now later : ℕ) → now ≤ later → Agree now l m → Agree later l m
Agree-later l m now later h a = record {
  rate = a.rate;
  burst = a.burst;
  levels = λ j t le. a.levels j t (omega arith);
}

Agree-replies :
    (l m : Limiter) (now : ℕ) (es : List Event)
    → IsPrompt l
    → Agree now l m
    → Ordered now es
    → replies l es ≡ replies m (without_ticks es)
unfolding replies without_ticks step
Agree-replies l m now [] p a o = refl
Agree-replies l m now (request t key ∷ es) p a o =
    let b = Agree-later l m now t o.0 a in
    ap₂ ◌∷◌
      (reply-allow l key t p.is_on
        ∙ ap (leb token) (b.levels key t (omega arith))
        ∙ sym (reply-allow m key t (omega (arith, b.rate, p.is_on))))
      (Agree-replies (allow l key t).0 (allow m key t).0 t es (step-IsPrompt l (request t key) p)
        (Agree-allow l m key t p.is_on b) o.1)
Agree-replies l m now (tick t ∷ es) p a o =
    Agree-replies (on_tick l t) m t es (step-IsPrompt l (tick t) p)
      (Agree-tick l m t p (Agree-later l m now t o.0 a)) o.1

-- From a limiter that is on and whose full bucket refills in ten minutes, requests in the order of
-- their times get the same replies as if no round of the cleanup loop had run.
pub replies-without_ticks :
    (l : Limiter) (now : ℕ) (es : List Event)
    → IsPrompt l
    → Ordered now es
    → replies l es ≡ replies l (without_ticks es)
replies-without_ticks l now es p o =
    Agree-replies l l now es p (record { rate = refl; burst = refl; levels = λ key t h. refl }) o
