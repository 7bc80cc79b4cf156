-- ===== src/Detection/Alerts.antt =====
-- The alerts that src/detection.c raises.
use trace_glass.Base.{
  ℕ, ◌≤◌, ◌≡◌, refl, Bool, true, false, ◌&&◌, ◌||◌, List, [], ◌∷◌, ◌++◌, ltb, ◌==◌, if◌then◌else◌,
  length, arith, Bool-cases, inl, inr, All, All-append, length-append,
}
use trace_glass.Events.{TraceGlassEvent, alert, is_alert}
use trace_glass.Detection.{
  Platform, office_alert, temporary_alert, network_alert, rule, office_rule, temporary_rule,
  network_rule, detection_evaluate,
}

-- The alert of a rule, if its condition holds.
abbrev pub raised : Bool → TraceGlassEvent → List TraceGlassEvent
raised condition a = if condition then a ∷ [] else []

-- What an alert takes over from the event that raised it.
pub record IsAlertFor (event a : TraceGlassEvent) : Type 0 where
  pub type : a.type ≡ alert
  pub process : a.process ≡ event.process
  pub parent : a.parent ≡ event.parent
  pub timestamp : a.timestamp ≡ event.timestamp
  pub process_name : a.process_name ≡ event.process_name

module _ (w : Platform) where
  -- The rules one after the other, where the last one's condition excludes the others'.
  rules-raised :
      (first second third : Bool) (a b c : TraceGlassEvent) (capacity : ℕ)
      → 2 ≤ capacity
      → (third ≡ true → (first ≡ false) × (second ≡ false))
      → rule w third capacity c (rule w second capacity b (rule w first capacity a []))
        ≡ raised first a ++ (raised second b ++ raised third c)
  unfolding rule
  rules-raised true true true a b c capacity h apart = absurd (ground (arith, apart refl))
  rules-raised true false true a b c capacity h apart = absurd (ground (arith, apart refl))
  rules-raised false true true a b c capacity h apart = absurd (ground (arith, apart refl))
  rules-raised true true false a b c capacity h apart = ground arith
  rules-raised true false false a b c capacity h apart = ground arith
  rules-raised false true false a b c capacity h apart = ground arith
  rules-raised false false t a b c capacity h apart = ground arith

  network-apart :
      (event : TraceGlassEvent)
      → network_rule w event ≡ true
      → (office_rule w event ≡ false) × (temporary_rule w event ≡ false)
  network-apart event e = ground arith

  -- In an array of two alerts or more no rule stands in another's way: an event that is no alert
  -- raises exactly the alerts of the rules whose conditions hold, in the order of the rules.
  pub detection_evaluate-raised :
      (event : TraceGlassEvent) (capacity : ℕ)
      → 2 ≤ capacity
      → is_alert event.type ≡ false
      → detection_evaluate w event capacity
        ≡ raised (office_rule w event) (office_alert w event)
          ++ (raised (temporary_rule w event) (temporary_alert w event)
              ++ raised (network_rule w event) (network_alert w event))
  unfolding detection_evaluate
  detection_evaluate-raised event capacity h n =
      let open_ : (capacity == 0) ≡ false = ground arith in
      rw (open_, detection_evaluate, n)
        (rules-raised (office_rule w event) (temporary_rule w event) (network_rule w event)
          (office_alert w event) (temporary_alert w event) (network_alert w event) capacity h
          (network-apart event))

  rule-All :
      (P : TraceGlassEvent → Type 0) (condition : Bool) (capacity : ℕ) (a : TraceGlassEvent)
      (alerts : List TraceGlassEvent)
      → P a
      → All P alerts × (length alerts ≤ capacity)
      → All P (rule w condition capacity a alerts)
        × (length (rule w condition capacity a alerts) ≤ capacity)
  unfolding rule
  rule-All P condition capacity a alerts h (all, fits) =
      elim (Bool-cases (condition && ltb (length alerts) capacity)) [
        | inl t ↦ rw t (
          All-append P alerts (a ∷ []) all (h, tt),
          ground (arith, length-append alerts (a ∷ [])),
        )
        | inr f ↦ rw f (all, fits)
      ]

  -- Whatever the event, the array is not overrun, and each alert written is of the alert type and
  -- names the process, the parent and the time of the event that raised it.
  pub detection_evaluate-IsAlertFor :
      (event : TraceGlassEvent) (capacity : ℕ)
      → All (IsAlertFor event) (detection_evaluate w event capacity)
        × (length (detection_evaluate w event capacity) ≤ capacity)
  unfolding detection_evaluate office_alert temporary_alert network_alert
  detection_evaluate-IsAlertFor event capacity =
      elim (Bool-cases (capacity == 0 || is_alert event.type)) [
        | inl t ↦ rw (t, detection_evaluate) (tt, omega arith)
        | inr f ↦
            rw (f, detection_evaluate)
              (rule-All (IsAlertFor event) (network_rule w event) capacity _ _
                (record {
                  type = refl;
                  process = refl;
                  parent = refl;
                  timestamp = refl;
                  process_name = refl;
                })
                (rule-All (IsAlertFor event) (temporary_rule w event) capacity _ _
                  (record {
                    type = refl;
                    process = refl;
                    parent = refl;
                    timestamp = refl;
                    process_name = refl;
                  })
                  (rule-All (IsAlertFor event) (office_rule w event) capacity _ []
                    (record {
                      type = refl;
                      process = refl;
                      parent = refl;
                      timestamp = refl;
                      process_name = refl;
                    })
                    (tt, omega arith))))
      ]
