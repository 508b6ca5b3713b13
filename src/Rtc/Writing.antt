-- ===== src/Rtc/Writing.antt =====
-- Setting the time, of src/rtc.c.
use shogun_os.Base.{ℕ, ◌≡◌, refl, inl, inr, some, Bool-cases, arith, ◌∷◌}
use mathlib.Core.Path.{subst}
use shogun_os.Io.{Bus, inp, out, next_byte}
use shogun_os.PortManager.{Ports}
use shogun_os.Idt.Pic.{port_of}
use shogun_os.Rtc.{
  RtcDriver, TimeData, returned, reg_select, read_cmos_register, write_cmos_register,
  update_in_progress, write_time_guarded_op, update_guarded_op, write_rtc_time,
}
use shogun_os.Rtc.Polling.{IsPeriodic}
use shogun_os.Rtc.Update.{Advances, guarded_rounds_lem}
use shogun_os.Rtc.Cmos.{Cmos, cmos_after}

-- The registers of the clock hold this time.
pub record Shows (x : TimeData) (c : Cmos) : Type 0 where
  pub seconds : c.register 0x00 ≡ x.seconds
  pub minutes : c.register 0x02 ≡ x.minutes
  pub hours : c.register 0x04 ≡ x.hours

module _ (s : Ports) (d : RtcDriver) (has_control : port_of s d.control_port ≡ some 0x70)
    (has_data : port_of s d.data_port ≡ some 0x71) where
  write_time_guarded_op-Advances :
      Advances s d 0x70 0x71 has_control has_data 0 write_time_guarded_op
  unfolding write_time_guarded_op write_cmos_register
  write_time_guarded_op-Advances x b =
      (rw (has_control, has_data) (omega arith), rw (has_control, has_data) refl)

  -- The bus behind a write of the time and a poll.
  abbrev written_and_polled : TimeData → Bus → Bus
  written_and_polled x b =
      (update_in_progress s (some d) (write_time_guarded_op s (some d) x b).2).1

  -- The accesses of a write of the time and of the poll behind it.
  accesses :
      (x : TimeData) (b : Bus)
      → (update_in_progress s (some d) (write_time_guarded_op s (some d) x b).2).1.trace
        ≡ inp 0x71 (next_byte b)
          ∷ out 0x70 (reg_select d 0x0A)
          ∷ out 0x71 x.hours
          ∷ out 0x70 (reg_select d 0x04)
          ∷ out 0x71 x.minutes
          ∷ out 0x70 (reg_select d 0x02)
          ∷ out 0x71 x.seconds
          ∷ out 0x70 (reg_select d 0x00)
          ∷ b.trace
  unfolding write_time_guarded_op write_cmos_register read_cmos_register update_in_progress
  accesses x b = rw (has_control, has_data) refl

  -- They leave the time in the registers, in whatever state these were.
  shown :
      (x : TimeData) (b : Bus) (c : Cmos) → Shows x (cmos_after (written_and_polled x b).trace c)
  unfolding cmos_after
  shown x b c = rw (accesses x b) (elim (Bool-cases d.nmi_enabled) [
    | inl on ↦ rw on record { seconds = refl; minutes = refl; hours = refl }
    | inr off ↦ rw off record { seconds = refl; minutes = refl; hours = refl }
  ])

  -- With a driver that holds the ports of the clock and a periodic clock, two rounds are enough:
  -- `write_rtc_time` returns 0, and then the registers for seconds, minutes and hours hold the three
  -- values, in whatever state the registers were, whether an update got in between or not.
  pub write_rtc_time_lem :
      (polls seconds minutes hours : ℕ) (b : Bus)
      → IsPeriodic polls 0 b.reply
      → (b' : Bus) × (write_rtc_time 2 polls s (some d) seconds minutes hours b
          ≡ some (returned 0, b'))
        × (b'.reply ≡ b.reply)
        × ((c : Cmos)
            → Shows
                (record { seconds = seconds; minutes = minutes; hours = hours })
                (cmos_after b'.trace c))
  unfolding write_rtc_time update_guarded_op write_time_guarded_op
  write_rtc_time_lem polls seconds minutes hours b clock =
      let x : TimeData = record { seconds = seconds; minutes = minutes; hours = hours } in
      let g =
        guarded_rounds_lem s d 0x70 0x71 has_control has_data b.reply polls 0 write_time_guarded_op
          x b clock write_time_guarded_op-Advances refl in
      let same : g.start ≡ x = elim g.given [ inl e ↦ e | inr (b1, e) ↦ e ] in
      (
        written_and_polled g.start g.from,
        rw (write_rtc_time, g.runs) refl,
        g.after,
        λ c.
            subst (λ t. Shows t (cmos_after (written_and_polled g.start g.from).trace c)) same
              (shown g.start g.from c),
      )
