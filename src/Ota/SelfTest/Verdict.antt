-- ===== src/Ota/SelfTest/Verdict.antt =====
-- What the self-test of core/src/ota/selftest.rs decides, and that it ends.
use garagelight.Prelude.{
  leb→le, Bool-cases, some_inj, subst, ◌∙◌, Option-cases, ℕ, zero, suc, ◌+◌, ◌*◌, ◌-◌, ◌≤◌, ◌≡◌,
  ◌≢◌, inl, inr, refl, Bool, true, false, ◌&&◌, ◌||◌, Option, none, some, arith,
}
use garagelight.Ota.SelfTest.{
  leb, Signals, report, Outcome, confirm, revert, Report, Board, poll, self_test,
}

-- A clock that does not run backwards, and on which a wait takes its time: `time` is the true
-- time of a state of the world.
pub record IsSteady {World : Type 0} (board : Board World) : Type 0 where
  pub time : World → ℕ
  pub sampled : (w : World) → time w ≤ time (board.sample w).1
  pub read_least : (w : World) → time w ≤ (board.now_ms w).0
  pub read_most : (w : World) → (board.now_ms w).0 ≤ time (board.now_ms w).1
  pub waited : (ms : ℕ) (w : World) → time w + ms ≤ time (board.wait ms w)

module _ {World : Type 0} (board : Board World) where
  -- The world before a sample of the probe, `n` rounds behind `w`.
  abbrev pub round : ℕ → World → World
  round zero w = w
  round (suc n) w = round n (board.wait 250 (board.now_ms (board.sample w).1).1)

  -- Whether one of the first `n + 1` samples shows a signal.
  abbrev pub seen : (Signals → Bool) → ℕ → World → Bool
  seen signal zero w = signal (board.sample w).0
  seen signal (suc n) w =
      signal (board.sample w).0
      || seen signal n (board.wait 250 (board.now_ms (board.sample w).1).1)

  -- A report on the samples from `w` on, by a clock that showed `start` and with the latches `ble` and
  -- `lamp`, and the world behind it.
  pub record IsLatched (start : ℕ) (ble lamp : Bool) (w : World) (r : Report) (w' : World)
      : Type 0 where
    pub rounds : ℕ
    pub ble_seen : r.ble_advertising ≡ (ble || seen Signals.ble_advertising rounds w)
    pub lamp_seen : r.lamp_ready ≡ (lamp || seen Signals.lamp_ready rounds w)
    pub wifi_last : r.wifi_associated ≡ (board.sample (round rounds w)).0.wifi_associated
    pub mqtt_last : r.mqtt_connected ≡ (board.sample (round rounds w)).0.mqtt_connected
    pub elapsed : r.elapsed_ms ≡ (board.now_ms (board.sample (round rounds w)).1).0 - start
    pub left : w' ≡ (board.now_ms (board.sample (round rounds w)).1).1
    pub confirmed : r.verdict ≡ confirm → (r.ble_advertising ≡ true) × (r.lamp_ready ≡ true)
    pub reverted :
        r.verdict ≡ revert → (r.ble_advertising && r.lamp_ready ≡ false) × (30_000 ≤ r.elapsed_ms)

  -- The same of a self-test, whose latches start down.
  abbrev pub IsSound : ℕ → World → Report → World → Type 0
  IsSound start w r w' = IsLatched start false false w r w'

  or_assoc : (a b c : Bool) → (a || b) || c ≡ a || (b || c)
  or_assoc true b c = refl
  or_assoc false b c = refl

  later-IsLatched :
      (start : ℕ) (ble lamp : Bool) (w : World) (r : Report) (w' : World)
      → IsLatched start
          (ble || (board.sample w).0.ble_advertising)
          (lamp || (board.sample w).0.lamp_ready)
          (board.wait 250 (board.now_ms (board.sample w).1).1)
          r
          w'
      → IsLatched start ble lamp w r w'
  later-IsLatched start ble lamp w r w' l = record {
    rounds = suc l.rounds;
    ble_seen = l.ble_seen ∙ or_assoc ble _ _;
    lamp_seen = l.lamp_seen ∙ or_assoc lamp _ _;
    wifi_last = l.wifi_last;
    mqtt_last = l.mqtt_last;
    elapsed = l.elapsed;
    left = l.left;
    confirmed = l.confirmed;
    reverted = l.reverted;
  }

  &&-both : (a b : Bool) → a && b ≡ true → (a ≡ true) × (b ≡ true)
  &&-both true b h = (refl, h)
  &&-both false b h = absurd cc

  poll-IsLatched :
      (fuel start : ℕ) (ble lamp : Bool) (w : World) {r : Report} {w' : World}
      → poll board fuel start ble lamp w ≡ some (r, w')
      → IsLatched start ble lamp w r w'
  unfolding poll report
  poll-IsLatched zero start ble lamp w h = cc
  poll-IsLatched (suc fuel) start ble lamp w {r} {w'} h = elim (Bool-cases (both ble lamp)) [
    | inl up ↦ found confirm (rw up at h) (λ _. &&-both _ _ up) (λ q. cc)
    | inr down ↦ elim (Bool-cases (leb 30_000 taken)) [
      | inl late ↦
          found revert (rw (down, late) at h) (λ q. cc) (λ _. (down, leb→le 30_000 taken late))
      | inr early ↦ later-IsLatched start ble lamp w r w' (
          poll-IsLatched fuel start (ble || s.ble_advertising) (lamp || s.lamp_ready)
            (board.wait 250 (board.now_ms (board.sample w).1).1) {r = r} {w' = w'}
            (rw (down, early) at h))
    ]
  ]
    where
      s : Signals
      s = (board.sample w).0

      taken : ℕ
      taken = (board.now_ms (board.sample w).1).0 - start

      both : Bool → Bool → Bool
      both b l = (b || s.ble_advertising) && (l || s.lamp_ready)

      found :
          (v : Outcome)
          → Path
              (Option (Report × World))
              (some (
                report board v (ble || s.ble_advertising) (lamp || s.lamp_ready) s taken,
                (board.now_ms (board.sample w).1).1,
              ))
              (some (r, w'))
          → (v ≡ confirm → ((ble || s.ble_advertising) ≡ true) × ((lamp || s.lamp_ready) ≡ true))
          → (v ≡ revert → (both ble lamp ≡ false) × (30_000 ≤ taken))
          → IsLatched start ble lamp w r w'
      found v e good bad =
          subst (λ (p : Report × World). IsLatched start ble lamp w p.0 p.1) (some_inj e)
            (record {
              rounds = 0;
              ble_seen = refl;
              lamp_seen = refl;
              wifi_last = refl;
              mqtt_last = refl;
              elapsed = refl;
              left = refl;
              confirmed = good;
              reverted = bad;
            })

  module _ (steady : IsSteady board) where
    poll-ne-none :
        (fuel rounds start : ℕ) (ble lamp : Bool) (w : World)
        → start + rounds * 250 ≤ steady.time w
        → fuel + rounds ≡ 121
        → rounds ≤ 120
        → poll board fuel start ble lamp w ≢ none
    unfolding poll
    poll-ne-none zero rounds start ble lamp w t f m = absurd (omega arith)
    poll-ne-none (suc fuel) rounds start ble lamp w t f m =
        let s = (board.sample w).0 in
        let w₁ = (board.sample w).1 in
        let w₂ = (board.now_ms w₁).1 in
        ground (
          arith,
          steady.sampled w,
          steady.read_least w₁,
          steady.read_most w₁,
          steady.waited 250 w₂,
          poll-ne-none fuel (suc rounds) start (ble || s.ble_advertising) (lamp || s.lamp_ready)
              (board.wait 250 w₂),
        )

    -- On a clock that keeps time the self-test ends within 121 polls, right behind a sample and a look
    -- at the clock. The report says of BLE advertising and of lamp readiness whether one of the samples
    -- so far showed it, and of WiFi and MQTT what the last one showed. It confirms the image only when
    -- BLE advertising and lamp readiness were both seen, and reverts it only when they were not and
    -- 30 s had gone by.
    pub self_test_lem :
        (w : World)
        → (r : Report) × (w' : World) × (self_test board 121 w ≡ some (r, w'))
          × IsSound (board.now_ms w).0 (board.now_ms w).1 r w'
    unfolding self_test
    self_test_lem w =
        elim (Option-cases (poll board 121 (board.now_ms w).0 false false (board.now_ms w).1)) [
          | inl e ↦ absurd (
              poll-ne-none 121 0 _ false false _ (omega (arith, steady.read_most w)) (omega arith)
                (omega arith) e)
          | inr ((r, w'), e) ↦ (r, w', e, poll-IsLatched 121 _ false false _ e)
        ]

  -- What a report says of the control path, and the state it left.
  abbrev pub judgement : Option (Report × World) → Option (Outcome × Bool × Bool × ℕ × World)
  judgement none = none
  judgement (some (r, w)) = some (r.verdict, r.ble_advertising, r.lamp_ready, r.elapsed_ms, w)

  -- The same board, but for the WiFi and MQTT signals that its probe reports.
  abbrev pub with_network : (World → Bool × Bool) → Board World
  with_network net = record board {
    sample = λ w.
        let (s, w') = board.sample w in
        (record s { wifi_associated = (net w).0; mqtt_connected = (net w).1 }, w');
  }

  poll-with_network :
      (net : World → Bool × Bool) (fuel start : ℕ) (ble lamp : Bool) (w : World)
      → judgement (poll (with_network net) fuel start ble lamp w)
        ≡ judgement (poll board fuel start ble lamp w)
  unfolding poll
  poll-with_network net zero start ble lamp w = refl
  poll-with_network net (suc fuel) start ble lamp w =
      let s = (board.sample w).0 in
      let w₂ = (board.now_ms (board.sample w).1).1 in
      ground (
        arith,
        poll-with_network net fuel start (ble || s.ble_advertising) (lamp || s.lamp_ready)
            (board.wait 250 w₂),
      )

  -- WiFi and MQTT are best effort: whatever the probe says of them, the verdict, the latched
  -- signals, the time taken and the state after the self-test are the same.
  pub self_test-with_network :
      (net : World → Bool × Bool) (fuel : ℕ) (w : World)
      → judgement (self_test (with_network net) fuel w) ≡ judgement (self_test board fuel w)
  unfolding self_test
  self_test-with_network net fuel w = poll-with_network net fuel _ false false _
