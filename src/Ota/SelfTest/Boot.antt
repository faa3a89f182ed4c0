-- ===== src/Ota/SelfTest/Boot.antt =====
-- What a boot does about a freshly swapped image: app/src/selftest.rs. The updater of embassy-boot
-- and the clock are outside the sources: `Firmware` holds their calls, and the flags of the other
-- tasks as they are in a state of the world.
use garagelight.Prelude.{
  subst, sym, zero, suc, ℕ, ◌≤◌, ◌≡◌, ◌≢◌, refl, Bool, true, false, ◌&&◌, Option, none, some,
  if◌then◌else◌,
}
use garagelight.Result.{Result, ok, err, ok_inj}
use garagelight.Ota.SelfTest.{suc, Signals, Outcome, confirm, revert, Report, Board, self_test}
use garagelight.Ota.SelfTest.Verdict.{self_test_lem, IsSteady, IsSound, seen}

-- `embassy_boot::State`.
pub data BootState : Type 0 where
  boot swap reverted dfu_detach : BootState

pub record Firmware (World : Type 0) : Type 0 where
  pub get_state : World → Result Unit BootState × World
  pub mark_booted : World → Result Unit Unit × World
  pub ble_advertising : World → Bool
  pub lamp_ready : World → Bool
  pub wifi_associated : World → Bool
  pub mqtt_connected : World → Bool
  pub now_ms : World → ℕ × World
  pub wait : ℕ → World → World

-- How `run` ends: no self-test in a state, or with the state unknown; an image confirmed, and whether
-- the mark was written; or a reset.
pub data End : Type 0 where
  untested : BootState → End
  unknown : End
  confirmed : Report → Result Unit Unit → End
  reset : Report → End

module _ {World : Type 0} (firmware : Firmware World) (fail_ble : Bool) where
  -- `BoardProbe::sample`; `fail_ble` is the feature `selftest-fail-ble`.
  abbrev pub sample : World → Signals × World
  sample w = (
    record {
      ble_advertising = if fail_ble then false else firmware.ble_advertising w;
      lamp_ready = firmware.lamp_ready w;
      wifi_associated = firmware.wifi_associated w;
      mqtt_connected = firmware.mqtt_connected w;
    },
    w,
  )

  abbrev pub board : Board World
  board = record { sample = sample; now_ms = firmware.now_ms; wait = firmware.wait }

  unfoldable pub decided : Report × World → End × World
  decided (r, w) = elim r.verdict [
    | confirm ↦ let (answer, w') = firmware.mark_booted w in (confirmed r answer, w')
    | revert ↦ (reset r, w)
  ]

  unfoldable pub swapped : Option (Report × World) → Option (End × World)
  unfolding decided
  swapped none = none
  swapped (some tested) = some (decided tested)

  -- The fuel is that of the self-test.
  unfoldable pub run : ℕ → World → Option (End × World)
  unfolding swapped
  run fuel w =
      let (answer, w') = firmware.get_state w in
      elim answer [
        | err _ ↦ some (unknown, w')
        | ok boot ↦ some (untested boot, w')
        | ok swap ↦ swapped (self_test board fuel w')
        | ok reverted ↦ some (untested reverted, w')
        | ok dfu_detach ↦ some (untested dfu_detach, w')
      ]

  -- What a boot may come to, behind the state that the updater reports.
  abbrev pub IsRight : Result Unit BootState × World → End × World → Type 0
  IsRight (answer, w) (untested s, w') = (answer ≡ ok s) × (s ≢ swap) × (w' ≡ w)
  IsRight (answer, w) (unknown, w') = (answer ≡ err tt) × (w' ≡ w)
  IsRight (answer, w) (confirmed r marked, w') =
      (answer ≡ ok swap)
      × (r.verdict ≡ confirm)
      × (r.ble_advertising ≡ true)
      × (r.lamp_ready ≡ true)
      × ((tested : World) × IsSound board (firmware.now_ms w).0 (firmware.now_ms w).1 r tested
          × (firmware.mark_booted tested ≡ (marked, w')))
  IsRight (answer, w) (reset r, w') =
      (answer ≡ ok swap)
      × (r.ble_advertising && r.lamp_ready ≡ false)
      × (30_000 ≤ r.elapsed_ms)
      × IsSound board (firmware.now_ms w).0 (firmware.now_ms w).1 r w'

  module _ (steady : IsSteady board) where
    decided-IsRight :
        (w w' : World) (r : Report)
        → IsSound board (firmware.now_ms w).0 (firmware.now_ms w).1 r w'
        → IsRight (ok swap, w) (decided (r, w'))
    unfolding decided
    decided-IsRight w w' r sound = by_verdict r.verdict refl
      where
        by_verdict : (v : Outcome) → r.verdict ≡ v → IsRight (ok swap, w) (decided (r, w'))
        by_verdict confirm q =
            let (ble, lamp) = sound.confirmed q in
            rw (decided, q) (refl, q, ble, lamp, (w', sound, refl))
        by_verdict revert q =
            let (short, late) = sound.reverted q in rw (decided, q) (refl, short, late, sound)

    -- A boot comes to an end within 121 polls of the self-test. It runs the self-test only if the
    -- updater reports a swap, and in every other state neither marks the image nor resets. Behind a
    -- swap it marks the image only when one sample of the probe showed BLE advertising and one showed
    -- lamp readiness, right after the self-test; otherwise, when no sample had shown one of the two and
    -- 30 s had gone by, it resets without a mark.
    pub run_lem :
        (w : World) → (r : End × World) × (run 121 w ≡ some r) × IsRight (firmware.get_state w) r
    unfolding run
    run_lem w = by_state (firmware.get_state w).0 refl
      where
        w₁ : World
        w₁ = (firmware.get_state w).1

        Right : Result Unit BootState → Type 0
        Right answer = (r : End × World) × (run 121 w ≡ some r) × IsRight (answer, w₁) r

        behind :
            (answer : Result Unit BootState)
            → (firmware.get_state w).0 ≡ answer
            → Right answer
            → Right (firmware.get_state w).0
        behind answer q right = rw q right

        by_state :
            (answer : Result Unit BootState)
            → (firmware.get_state w).0 ≡ answer
            → Right (firmware.get_state w).0
        by_state (err tt) q = behind _ q ((unknown, w₁), rw (run, q) refl, (refl, refl))
        by_state (ok boot) q =
            behind _ q ((untested boot, w₁), rw (run, q) refl, (refl, (λ e. cc e), refl))
        by_state (ok reverted) q =
            behind _ q ((untested reverted, w₁), rw (run, q) refl, (refl, (λ e. cc e), refl))
        by_state (ok dfu_detach) q =
            behind _ q ((untested dfu_detach, w₁), rw (run, q) refl, (refl, (λ e. cc e), refl))
        by_state (ok swap) q =
            let (r, w', e, sound) = self_test_lem board steady w₁ in
            behind _ q (decided (r, w'), rw (run, q, e) refl, decided-IsRight w₁ w' r sound)

-- No sample of a probe that hides BLE advertising shows it.
seen-blind :
    {World : Type 0} (firmware : Firmware World) (n : ℕ) (w : World)
    → seen (board firmware true) Signals.ble_advertising n w ≡ false
seen-blind firmware zero w = refl
seen-blind firmware (suc n) w = seen-blind firmware n (firmware.wait 250 (firmware.now_ms w).1)

-- With the feature that hides BLE advertising from the probe, a freshly swapped image is never
-- confirmed: behind a swap the boot ends in a reset.
pub run-fail_ble :
    {World : Type 0} (firmware : Firmware World) (w : World)
    → IsSteady (board firmware true)
    → (firmware.get_state w).0 ≡ ok swap
    → (r : Report) × (w' : World) × (run firmware true 121 w ≡ some (reset r, w'))
unfolding run self_test
run-fail_ble {World} firmware w steady q =
    let ((end, w'), e, right) = run_lem firmware true steady w in
    ended end w' e
      (subst (λ a. IsRight firmware true (a, (firmware.get_state w).1) (end, w')) q right)
  where
    ended :
        (end : End) (w' : World)
        → run firmware true 121 w ≡ some (end, w')
        → IsRight firmware true (ok swap, (firmware.get_state w).1) (end, w')
        → (r : Report) × (w'' : World) × (run firmware true 121 w ≡ some (reset r, w''))
    ended (untested s) w' e (a, n, same) = absurd (n (sym (ok_inj _ _ a)))
    ended unknown w' e (a, same) = absurd cc
    ended (confirmed r marked) w' e (a, v, ble, lamp, (tested, sound, m)) =
        let blind = seen-blind firmware sound.rounds (firmware.now_ms (firmware.get_state w).1).1 in
        let shown = sound.ble_seen in absurd cc
    ended (reset r) w' e right = (r, w', e)
