-- ===== src/Gpio/Opening.antt =====
-- gpio/manager.go: the outputs are opened all or not at all.
use mqtt_raspberry_controlle.Base.{
  true, none, List, [], ◌∷◌, Bytes, same, same_iff, contains, sort_strings, contains-sort_strings,
  ◌≡◌, refl, ap, ◌∙◌, arith, Option-cases, Bool-cases, inl, inr, ◌⊎◌, ◌≢◌, subst,
}
use mqtt_raspberry_controlle.Base.Dict.{Dict, keys, lookup, has, has-insert, lookup-has}
use mqtt_raspberry_controlle.Base.Result.{ok, err}
use mqtt_raspberry_controlle.Gpio.Lines.{Library, request_gpio_line}
use mqtt_raspberry_controlle.Config.{Gpio, GpioOutput}
use mqtt_raspberry_controlle.Gpio.{
  Manager, GpioError, Outcome, open_output, open_each, on_success, open_outputs, output_request,
  close_locked, close,
}

-- No line is in use.
pub record Closed {L : Type 0} (m : Manager L) : Type 0 where
  pub no_outputs : m.outputs ≡ []
  pub no_inputs : m.inputs ≡ []

contains-keys : (j : Bytes) (m : Dict GpioOutput) → contains (keys m) j ≡ has j m
unfolding contains keys has
contains-keys j [] = refl
contains-keys j ((k, o) ∷ m) = ground (arith, contains-keys j m)

has-lookup : (j : Bytes) (m : Dict GpioOutput) → has j m ≡ true → lookup j m ≢ none
has-lookup j m h gone = let (v, e) = lookup-has j m h in cc

module _ {C L H : Type 0} (library : Library C L H) where
  close_locked-Closed : (m : Manager L) (hw : H) → Closed (close_locked library m hw).1
  unfolding close_locked
  close_locked-Closed m hw = record { no_outputs = refl; no_inputs = refl }

  pub close-Closed : (m : Manager L) (hw : H) → Closed (close library m hw).1
  unfolding close
  close-Closed m hw = close_locked-Closed m hw

  -- What a round does: on success it opens its name and keeps the others; on failure nothing stays open.
  abbrev Round : Bytes → Manager L → Outcome library → Type 0
  Round name m (ok _, m', hw') =
      (m'.config ≡ m.config)
      × ((lookup name m.config.outputs ≡ none) ⊎ (has name m'.outputs ≡ true))
      × ((j : Bytes) → has j m.outputs ≡ true → has j m'.outputs ≡ true)
  Round name m (err _, m', hw') = Closed m'

  open_output-Round :
      (name : Bytes) (m : Manager L) (hw : H) → Round name m (open_output library name m hw)
  unfolding open_output
  open_output-Round name m hw = elim (Option-cases (lookup name m.config.outputs)) [
    | inl e ↦ rw (e, open_output) (refl, inl e, λ j h. h)
    | inr (cfg, e) ↦ elim (Bool-cases (has name m.outputs)) [
      | inl there ↦ rw (e, there, open_output) (refl, inr there, λ j h. h)
      | inr absent ↦
          elim (Option-cases (request_gpio_line library (output_request library name cfg) hw).0) [
            | inl failed ↦
                rw (e, absent, failed, open_output)
                  (close_locked-Closed m
                    (request_gpio_line library (output_request library name cfg) hw).1)
            | inr (h, opened) ↦
                rw (e, absent, opened, open_output)
                  (
                    refl,
                    inr (ground (arith, has-insert name name h m.outputs, same_iff name name)),
                    λ j kept. ground (arith, has-insert j name h m.outputs),
                  )
          ]
    ]
  ]

  -- What the loop does.
  abbrev Rounds : List Bytes → Manager L → Outcome library → Type 0
  Rounds names m (ok _, m', hw') =
      (m'.config ≡ m.config)
      × ((j : Bytes)
          → contains names j ≡ true
          → (lookup j m.config.outputs ≡ none) ⊎ (has j m'.outputs ≡ true))
      × ((j : Bytes) → has j m.outputs ≡ true → has j m'.outputs ≡ true)
  Rounds names m (err _, m', hw') = Closed m'

  Rounds-cons :
      (name : Bytes) (names : List Bytes) (m m1 : Manager L) (r : Outcome library)
      → m1.config ≡ m.config
      → ((lookup name m.config.outputs ≡ none) ⊎ (has name m1.outputs ≡ true))
      → ((j : Bytes) → has j m.outputs ≡ true → has j m1.outputs ≡ true)
      → Rounds names m1 r
      → Rounds (name ∷ names) m r
  unfolding contains
  Rounds-cons name names m m1 (ok _, m2, hw2) same_config here kept (same_later, all, kept_later) =
      (
        same_later ∙ same_config,
        λ j listed. elim (Bool-cases (same name j)) [
          | inl e ↦
              let this : name ≡ j = (same_iff name j).0 e in
              rw (← this)
                (elim here [ inl gone ↦ inl gone | inr opened ↦ inr (kept_later name opened) ])
          | inr e ↦
              rw (ap (λ (c : Gpio). lookup j c.outputs) same_config) at (all j (rw e at listed))
        ],
        λ j h. kept_later j (kept j h),
      )
  Rounds-cons name names m m1 (err _, m2, hw2) same_config here kept closed = closed

  Rounds-next :
      (name : Bytes) (names : List Bytes) (m : Manager L) (r : Outcome library)
      → ((m1 : Manager L) (hw1 : H)
          → Rounds names m1 (open_each library (open_output library) names m1 hw1))
      → Round name m r
      → Rounds
          (name ∷ names)
          m
          (on_success library (open_each library (open_output library) names) r)
  unfolding on_success
  Rounds-next name names m (ok _, m1, hw1) rest (same_config, here, kept) =
      Rounds-cons name names m m1 (open_each library (open_output library) names m1 hw1) same_config
        here kept (rest m1 hw1)
  Rounds-next name names m (err _, m1, hw1) rest closed = closed

  open_each-Rounds :
      (names : List Bytes) (m : Manager L) (hw : H)
      → Rounds names m (open_each library (open_output library) names m hw)
  unfolding open_each contains
  open_each-Rounds [] m hw = (refl, λ j h. cc, λ j h. h)
  open_each-Rounds (name ∷ names) m hw =
      Rounds-next name names m (open_output library name m hw) (open_each-Rounds names)
        (open_output-Round name m hw)

  -- Where OpenOutputs succeeds, every configured output has a line.
  pub open_outputs_opened :
      (m m' : Manager L) (hw hw' : H)
      → open_outputs library m hw ≡ (ok tt, m', hw')
      → (name : Bytes) → has name m.config.outputs ≡ true
      → has name m'.outputs ≡ true
  unfolding open_outputs
  open_outputs_opened m m' hw hw' e name configured =
      let names = sort_strings (keys m.config.outputs) in
      let (_, all, _) = subst (Rounds names m) e (open_each-Rounds names m hw) in
      elim (all name (
        contains-sort_strings name (keys m.config.outputs)
        ∙ contains-keys name m.config.outputs
        ∙ configured)) [
          | inl gone ↦ absurd (has-lookup name m.config.outputs configured gone)
          | inr opened ↦ opened
        ]

  -- Where OpenOutputs fails, the manager holds no line, neither an output nor an input.
  pub open_outputs_failed :
      (m m' : Manager L) (hw hw' : H) (error : GpioError)
      → open_outputs library m hw ≡ (err error, m', hw')
      → Closed m'
  unfolding open_outputs
  open_outputs_failed m m' hw hw' error e =
      let names = sort_strings (keys m.config.outputs) in
      subst (Rounds names m) e (open_each-Rounds names m hw)
