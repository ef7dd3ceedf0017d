-- ===== src/Mqtt/Client/Callbacks.antt =====
-- mqtt/client.go: callbacks, `StopAccepting` and the wait in `Close`, in any interleaving. A step is one
-- access to the client's shared fields, or a piece of work that a callback does.
use mqtt_raspberry_controlle.Base.{
  ℕ, zero, suc, ◌-◌, ◌<◌, Bool, true, false, if◌then◌else◌, ◌≡◌, refl, sym, ◌∙◌, inl, inr, arith,
  Bool-cases,
}
use mqtt_raspberry_controlle.Mqtt.Client.{
  Client, idle_client, begin_callback, end_callback, stop_accepting,
}

-- Where Close stands: not called, behind StopAccepting, behind the wait, or given up.
pub data Phase : Type 0 where
  running_on closing quiet given_up : Phase

-- `running` callbacks have begun and not ended; `work` counts what callbacks have done.
pub record System (S : Type 0) : Type 0 where
  pub client : Client S
  pub running : ℕ
  pub work : ℕ
  pub phase : Phase

-- Behind StopAccepting.
unfoldable pub has_stopped : Phase → Bool
has_stopped running_on = false
has_stopped _ = true

unfoldable pub is_quiet : Phase → Bool
is_quiet quiet = true
is_quiet _ = false

quiet_stopped : (phase : Phase) → is_quiet phase ≡ true → has_stopped phase ≡ true
unfolding is_quiet has_stopped
quiet_stopped running_on h = cc
quiet_stopped closing h = refl
quiet_stopped quiet h = refl
quiet_stopped given_up h = refl

module _ {S : Type 0} where
  unfoldable pub begin : System S → System S
  begin s =
      let (begun, c) = begin_callback s.client in
      record s { client = c; running = if begun then suc s.running else s.running }

  unfoldable pub end : System S → System S
  end s = record s { client = end_callback s.client; running = s.running - 1 }

  unfoldable pub enter_close : System S → System S
  enter_close s = record s { client = stop_accepting s.client; phase = closing }

  -- WaitGroup.Wait goes on when its counter is zero; a second Close starts over.
  pub data Step : System S → System S → Type 0 where
    begins : (s : System S) → Step s (begin s)
    works : (s : System S) → zero < s.running → Step s (record s { work = suc s.work })
    ends : (s : System S) → zero < s.running → Step s (end s)
    stops : (s : System S) → Step s (record s { client = stop_accepting s.client })
    closes : (s : System S) → Step s (enter_close s)
    waited :
        (s : System S)
        → s.phase ≡ closing
        → s.client.callbacks ≡ 0
        → Step s (record s { phase = quiet })
    times_out : (s : System S) → s.phase ≡ closing → Step s (record s { phase = given_up })

  pub data Steps : System S → System S → Type 0 where
    done : (s : System S) → Steps s s
    then_step : (s t u : System S) → Steps s t → Step t u → Steps s u

  -- The counter is the number of callbacks in flight; Close has stopped new ones; and behind the wait
  -- there is none.
  pub record Inv (s : System S) : Type 0 where
    pub counted : s.client.callbacks ≡ s.running
    pub refused : has_stopped s.phase ≡ true → s.client.accepting ≡ false
    pub nobody : is_quiet s.phase ≡ true → s.running ≡ 0

  begin-Inv : (s : System S) → Inv s → Inv (begin s)
  unfolding begin begin_callback
  begin-Inv s i =
      let counted = i.counted in
      let refused = i.refused in
      let nobody = i.nobody in
      let stopped = quiet_stopped s.phase in
      elim (Bool-cases s.client.accepting) [
        | inl e ↦ rw e (record {
          counted = ground (arith, counted);
          refused = λ h. absurd (ground (arith, refused h, e));
          nobody = λ h. absurd (ground (arith, refused (stopped h), e));
        })
        | inr e ↦ rw e (record { counted = counted; refused = λ h. refl; nobody = nobody })
      ]

  end-Inv : (s : System S) → zero < s.running → Inv s → Inv (end s)
  unfolding end end_callback
  end-Inv s busy i =
      let counted = i.counted in
      let nobody = i.nobody in
      record {
        counted = ground (arith, counted);
        refused = i.refused;
        nobody = λ h. ground (arith, nobody h);
      }

  pub Step-Inv : (s t : System S) → Step s t → Inv s → Inv t
  unfolding stop_accepting enter_close has_stopped is_quiet
  Step-Inv s t (begins s') i = begin-Inv s i
  Step-Inv s t (works s' busy) i = record {
    counted = i.counted;
    refused = i.refused;
    nobody = i.nobody;
  }
  Step-Inv s t (ends s' busy) i = end-Inv s busy i
  Step-Inv s t (stops s') i = record { counted = i.counted; refused = λ h. refl; nobody = i.nobody }
  Step-Inv s t (closes s') i = record { counted = i.counted; refused = λ h. refl; nobody = λ h. cc }
  Step-Inv s t (waited s' at_wait zero_left) i = record {
    counted = i.counted;
    refused = λ h. i.refused (rw at_wait refl);
    nobody = λ h. sym i.counted ∙ zero_left;
  }
  Step-Inv s t (times_out s' at_wait) i = record {
    counted = i.counted;
    refused = λ h. i.refused (rw at_wait refl);
    nobody = λ h. cc;
  }

  pub Steps-Inv : (s t : System S) → Steps s t → Inv s → Inv t
  Steps-Inv s t (done s') i = i
  Steps-Inv s t (then_step s' u t' before last) i = Step-Inv u t last (Steps-Inv s u before i)

  -- The client that `New` returns.
  unfoldable pub initial : System S
  initial = record { client = idle_client; running = 0; work = 0; phase = running_on }

  pub initial-Inv : Inv initial
  unfolding initial idle_client has_stopped is_quiet
  initial-Inv = record { counted = refl; refused = λ h. cc; nobody = λ h. refl }

  Step-quiet :
      (s t : System S)
      → Step s t
      → s.client.accepting ≡ false
      → s.running ≡ 0
      → (t.client.accepting ≡ false) × (t.running ≡ 0) × (t.work ≡ s.work)
  unfolding begin begin_callback end end_callback enter_close stop_accepting
  Step-quiet s t (begins s') a r = rw a (refl, r, refl)
  Step-quiet s t (works s' busy) a r = absurd (ground (arith, busy, r))
  Step-quiet s t (ends s' busy) a r = absurd (ground (arith, busy, r))
  Step-quiet s t (stops s') a r = (refl, r, refl)
  Step-quiet s t (closes s') a r = (refl, r, refl)
  Step-quiet s t (waited s' _ _) a r = (a, r, refl)
  Step-quiet s t (times_out s' _) a r = (a, r, refl)

  Steps-quiet :
      (s t : System S)
      → Steps s t
      → s.client.accepting ≡ false
      → s.running ≡ 0
      → (t.client.accepting ≡ false) × (t.running ≡ 0) × (t.work ≡ s.work)
  Steps-quiet s t (done s') a r = (a, r, refl)
  Steps-quiet s t (then_step s' u t' before last) a r =
      let (a1, r1, w1) = Steps-quiet s u before a r in
      let (a2, r2, w2) = Step-quiet u t last a1 r1 in (a2, r2, w2 ∙ w1)

  -- Whatever the interleaving: once the wait in `Close` has succeeded, no callback is in flight, the
  -- counter stays zero, and no callback does any work from then on.
  pub no_work_after_wait :
      (s t : System S)
      → Steps initial s
      → is_quiet s.phase ≡ true
      → Steps s t
      → (t.running ≡ 0) × (t.client.callbacks ≡ 0) × (t.work ≡ s.work)
  no_work_after_wait s t before waited_for later =
      let i = Steps-Inv initial s before initial-Inv in
      let (_, r, w) =
        Steps-quiet s t later (i.refused (quiet_stopped s.phase waited_for))
          (i.nobody waited_for) in
      (r, (Steps-Inv s t later i).counted ∙ r, w)
