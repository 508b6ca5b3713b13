-- ===== src/Rtc/Polling.antt =====
-- Polls of the update flag and reads of the registers, of src/rtc.c, against the clock's data sheet.
use shogun_os.Base.{
  ℕ, zero, suc, ◌+◌, ◌%◌, ◌^◌, ◌≤◌, ◌<◌, ◌≡◌, refl, ap, ◌∙◌, ◌⊎◌, inl, inr, Bool, true, false, not,
  some, List, ◌∷◌, ◌==◌, bit_and, Bool-cases, arith,
}
use shogun_os.Io.{Access, inp, out, Bus}
use shogun_os.PortManager.{Ports}
use shogun_os.Idt.Pic.{port_of}
use shogun_os.Rtc.{RtcDriver, reg_select, read_cmos_register, update_in_progress, wait_for_update}

-- The update flag, if the k-th read of the environment is one of register A.
unfoldable pub busy_at : (ℕ → ℕ) → ℕ → Bool
busy_at reply k = not (bit_and (reply k % 256) (2 ^ 7) == 0)

-- The clock as its data sheet has it, for operations of `len` accesses: an update ends within
-- `polls` polls, and the next one does not begin until `len` reads and a poll behind its end.
pub record IsPeriodic (polls len : ℕ) (reply : ℕ → ℕ) : Type 0 where
  pub ends : (k : ℕ) → (j : ℕ) × (j < polls) × (busy_at reply (k + j) ≡ false)
  pub calm :
      (k j : ℕ)
      → busy_at reply k ≡ true
      → busy_at reply (k + 1) ≡ false
      → j ≤ len
      → busy_at reply (k + 2 + j) ≡ false

-- The accesses with which a register is read, and what the k-th read of the environment brings in.
abbrev pub seen :
    (control data_port : ℕ) → RtcDriver → (ℕ → ℕ) → (k reg : ℕ) → List Access → List Access
seen control data_port d r k reg t = inp data_port (r k % 256) ∷ out control (reg_select d reg) ∷ t

module _ (s : Ports) (d : RtcDriver) (control data_port : ℕ)
    (has_control : port_of s d.control_port ≡ some control)
    (has_data : port_of s d.data_port ≡ some data_port) where
  -- A register is read by one read of the data port.
  pub read_cmos_register_lem :
      (r : ℕ → ℕ) (k reg : ℕ) (b : Bus)
      → b.reply ≡ r
      → b.reads ≡ k
      → ((read_cmos_register s (some d) reg b).0 ≡ r k % 256)
        × ((read_cmos_register s (some d) reg b).1.reads ≡ k + 1)
        × ((read_cmos_register s (some d) reg b).1.reply ≡ r)
        × ((read_cmos_register s (some d) reg b).1.trace ≡ seen control data_port d r k reg b.trace)
  unfolding read_cmos_register
  read_cmos_register_lem r k reg b same at = (
    rw (has_control, has_data) (ap (λ f. f b.reads % 256) same ∙ ap (λ n. r n % 256) at),
    rw (has_control, has_data) (ap (λ n. n + 1) at),
    rw (has_control, has_data) same,
    rw (has_control, has_data)
        (ap (λ f. seen control data_port d f b.reads reg b.trace) same
          ∙ ap (λ n. seen control data_port d r n reg b.trace) at),
  )

  -- A poll from the k-th read on.
  pub update_in_progress_lem :
      (r : ℕ → ℕ) (k : ℕ) (b : Bus)
      → b.reply ≡ r
      → b.reads ≡ k
      → ((update_in_progress s (some d) b).0 ≡ busy_at r k)
        × ((update_in_progress s (some d) b).1.reads ≡ k + 1)
        × ((update_in_progress s (some d) b).1.reply ≡ r)
        × ((update_in_progress s (some d) b).1.trace ≡ seen control data_port d r k 0x0A b.trace)
  unfolding update_in_progress busy_at
  update_in_progress_lem r k b same at =
      let (value, reads, reply, trace) = read_cmos_register_lem r k 0x0A b same at in
      (ap (λ v. not (bit_and v (2 ^ 7) == 0)) value, reads, reply, trace)

  -- The wait stops at the first poll that finds no update.
  pub wait_for_update_lem :
      (r : ℕ → ℕ) (polls j k : ℕ) (b : Bus)
      → b.reply ≡ r
      → b.reads ≡ k
      → j < polls
      → busy_at r (k + j) ≡ false
      → (p : ℕ) × (b' : Bus) × (wait_for_update polls s (some d) b ≡ some b')
        × (b'.reply ≡ r)
        × (b'.reads ≡ p + 1)
        × (busy_at r p ≡ false)
        × (k ≤ p)
        × ((t : List Access) × (b'.trace ≡ seen control data_port d r p 0x0A t))
        × ((p ≡ k) ⊎ ((q : ℕ) × (p ≡ q + 1) × (busy_at r q ≡ true)))
  unfolding wait_for_update
  wait_for_update_lem r zero j k b same at h calm = absurd (omega arith)
  wait_for_update_lem r (suc polls) zero k b same at h calm =
      let (busy, reads, reply, trace) = update_in_progress_lem r k b same at in
      let clear = ap (busy_at r) {x = k} {y = k + 0} (omega arith) ∙ calm in
      let stops = busy ∙ clear in
      (
        k,
        (update_in_progress s (some d) b).1,
        rw (wait_for_update, stops) refl,
        reply,
        reads,
        clear,
        omega arith,
        (b.trace, trace),
        inl refl,
      )
  wait_for_update_lem r (suc polls) (suc j) k b same at h calm =
      let (busy, reads, reply, trace) = update_in_progress_lem r k b same at in
      elim (Bool-cases (busy_at r k)) [
        | inr clear ↦
            let stops = busy ∙ clear in
            (
              k,
              (update_in_progress s (some d) b).1,
              rw (wait_for_update, stops) refl,
              reply,
              reads,
              clear,
              omega arith,
              (b.trace, trace),
              inl refl,
            )
        | inl updating ↦
            let goes_on = busy ∙ updating in
            let calm' = ap (busy_at r) {x = k + 1 + j} {y = k + suc j} (omega arith) ∙ calm in
            let (p, b', runs, reply', reads', clear, later, last, before) =
              wait_for_update_lem r polls j (k + 1) (update_in_progress s (some d) b).1 reply reads
                (omega (arith, h)) calm' in
            (
              p,
              b',
              rw (wait_for_update, goes_on) runs,
              reply',
              reads',
              clear,
              omega (arith, later),
              last,
              elim before [ inl e ↦ inr (k, e, updating) | inr seen ↦ inr seen ],
            )
      ]
