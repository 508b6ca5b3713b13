-- ===== src/Rtc/Update.antt =====
-- Reading the time between two updates of the clock, of src/rtc.c.
use shogun_os.Base.{
  ℕ, suc, ◌+◌, ◌%◌, ◌≤◌, List, ◌≡◌, refl, ap, sym, ◌∙◌, ◌⊎◌, inl, inr, true, false, Option, some,
  Bool-cases, arith,
}
use shogun_os.Io.{Access, Bus}
use shogun_os.PortManager.{Ports}
use shogun_os.Idt.Pic.{port_of}
use shogun_os.Rtc.{
  RtcDriver, TimeData, GuardedOp, returned, read_cmos_register, update_in_progress,
  read_time_guarded_op, wait_for_update, guarded_rounds, update_guarded_op, read_rtc_time,
}
use shogun_os.Rtc.Polling.{
  busy_at, IsPeriodic, seen, read_cmos_register_lem, update_in_progress_lem, wait_for_update_lem,
}

module _ (s : Ports) (d : RtcDriver) (control data_port : ℕ)
    (has_control : port_of s d.control_port ≡ some control)
    (has_data : port_of s d.data_port ≡ some data_port) where
  -- The operation makes `len` reads.
  abbrev pub Advances {ℓ} : {D : Type ℓ} → ℕ → GuardedOp D → Type ℓ
  Advances {D = D} len op =
      (x : D) (b : Bus)
      → ((op s (some d) x b).2.reads ≡ b.reads + len) × ((op s (some d) x b).2.reply ≡ b.reply)

  -- The bus behind an operation and the poll that follows it.
  abbrev pub polled_after {ℓ} : {D : Type ℓ} → GuardedOp D → D → Bus → Bus
  polled_after op x b1 = (update_in_progress s (some d) (op s (some d) x b1).2).1

  -- One round of the guarded loop from the k-th read on: the operation starts from `b1`, behind a
  -- poll number `p` that found no update.
  record Attempt {ℓ} {D : Type ℓ} (r : ℕ → ℕ) (polls len k : ℕ) (op : GuardedOp D) (x : D)
      (b b1 : Bus) (p : ℕ) : Type ℓ where
    waited : wait_for_update polls s (some d) b ≡ some b1
    reply : b1.reply ≡ r
    reads : b1.reads ≡ p + 1
    before : busy_at r p ≡ false
    later : k ≤ p
    last : (t : List Access) × (b1.trace ≡ seen control data_port d r p 0x0A t)
    edge : (p ≡ k) ⊎ ((q : ℕ) × (p ≡ q + 1) × (busy_at r q ≡ true))
    test : (update_in_progress s (some d) (op s (some d) x b1).2).0 ≡ busy_at r (p + 1 + len)
    reply' : (polled_after op x b1).reply ≡ r
    reads' : (polled_after op x b1).reads ≡ p + 1 + len + 1

  attempt_lem {ℓ} :
      {D : Type ℓ} (r : ℕ → ℕ) (polls len k : ℕ) (op : GuardedOp D) (x : D) (b : Bus)
      → IsPeriodic polls len r
      → Advances len op
      → b.reply ≡ r
      → b.reads ≡ k
      → (b1 : Bus) × (p : ℕ) × Attempt r polls len k op x b b1 p
  attempt_lem r polls len k op x b clock steps same at =
      let (j, small, calm) = clock.ends k in
      let (p, b1, waited, reply, reads, before, later, last, edge) =
        wait_for_update_lem s d control data_port has_control has_data r polls j k b same at small
          calm in
      let moved = steps x b1 in
      let (test, reads', reply', _) =
        update_in_progress_lem s d control data_port has_control has_data r (p + 1 + len)
          (op s (some d) x b1).2 (moved.1 ∙ reply) (moved.0 ∙ ap (λ n. n + len) reads) in
      (
        b1,
        p,
        record {
          waited = waited;
          reply = reply;
          reads = reads;
          before = before;
          later = later;
          last = last;
          edge = edge;
          test = test;
          reply' = reply';
          reads' = reads';
        },
      )

  abbrev pub outcome {ℓ} : {D : Type ℓ} → GuardedOp D → D → Bus → ℕ × D × Bus
  outcome op x b1 = ((op s (some d) x b1).0, (op s (some d) x b1).1, polled_after op x b1)

  -- A round whose last poll finds no update is the last one.
  round_ends {ℓ} :
      {D : Type ℓ} (r : ℕ → ℕ) (rounds polls len k : ℕ) (op : GuardedOp D) (x : D) (b b1 : Bus)
      (p : ℕ)
      → Attempt r polls len k op x b b1 p
      → busy_at r (p + 1 + len) ≡ false
      → guarded_rounds (suc rounds) polls s (some d) op x b ≡ some (outcome op x b1)
  unfolding guarded_rounds
  round_ends r rounds polls len k op x b b1 p a calm =
      let stops = a.test ∙ calm in rw (guarded_rounds, a.waited, stops) refl

  round_repeats {ℓ} :
      {D : Type ℓ} (r : ℕ → ℕ) (rounds polls len k : ℕ) (op : GuardedOp D) (x : D) (b b1 : Bus)
      (p : ℕ)
      → Attempt r polls len k op x b b1 p
      → busy_at r (p + 1 + len) ≡ true
      → guarded_rounds (suc rounds) polls s (some d) op x b
        ≡ guarded_rounds rounds polls s (some d) op (op s (some d) x b1).1 (polled_after op x b1)
  unfolding guarded_rounds
  round_repeats r rounds polls len k op x b b1 p a busy =
      let repeats = a.test ∙ busy in rw (guarded_rounds, a.waited, repeats) refl

  -- Behind an update there is time for the operation.
  calm_after :
      (r : ℕ → ℕ) (polls len q p : ℕ)
      → IsPeriodic polls len r
      → p ≡ q + 1
      → busy_at r q ≡ true
      → busy_at r p ≡ false
      → busy_at r (p + 1 + len) ≡ false
  calm_after r polls len q p clock e updating clear =
      ap (busy_at r) {x = p + 1 + len} {y = q + 2 + len} (omega arith)
      ∙ clock.calm q len updating (ap (busy_at r) (sym e) ∙ clear) (omega arith)

  -- What the guarded loop returns: the result of a run of the operation that no update meets.
  pub record Guarded {ℓ} {D : Type ℓ} (r : ℕ → ℕ) (len k : ℕ) (op : GuardedOp D) (x : D)
      (res : Option (ℕ × D × Bus)) : Type ℓ where
    pub start : D
    pub from : Bus
    pub at : ℕ
    pub same : from.reply ≡ r
    pub reads : from.reads ≡ at + 1
    pub before : busy_at r at ≡ false
    pub behind : busy_at r (at + 1 + len) ≡ false
    -- The poll at `at` comes behind the k-th read, and is the last access before the run.
    pub later : k ≤ at
    pub last : (t : List Access) × (from.trace ≡ seen control data_port d r at 0x0A t)
    pub runs : res ≡ some (outcome op start from)
    pub after : (polled_after op start from).reply ≡ r
    -- The data is the caller's, or what an earlier run of the operation left.
    pub given : (start ≡ x) ⊎ ((b1 : Bus) × (start ≡ (op s (some d) x b1).1))

  pub guarded_rounds_lem {ℓ} :
      {D : Type ℓ} (r : ℕ → ℕ) (polls len : ℕ) (op : GuardedOp D) (x : D) (b : Bus)
      → IsPeriodic polls len r
      → Advances len op
      → b.reply ≡ r
      → Guarded r len b.reads op x (guarded_rounds 2 polls s (some d) op x b)
  guarded_rounds_lem r polls len op x b clock steps same =
      let (b1, p, a) = attempt_lem r polls len b.reads op x b clock steps same refl in
      elim (Bool-cases (busy_at r (p + 1 + len))) [
        | inr calm ↦ record {
          start = x;
          from = b1;
          at = p;
          same = a.reply;
          reads = a.reads;
          before = a.before;
          behind = calm;
          later = a.later;
          last = a.last;
          runs = round_ends r 1 polls len b.reads op x b b1 p a calm;
          after = a.reply';
          given = inl refl;
        }
        | inl busy ↦
            let x' = (op s (some d) x b1).1 in
            let b2 = polled_after op x b1 in
            let (b3, p', a') =
              attempt_lem r polls len (p + 1 + len + 1) op x' b2 clock steps a.reply' a.reads' in
            let calm : busy_at r (p' + 1 + len) ≡ false = elim (a'.edge) [
              | inl e ↦ calm_after r polls len (p + 1 + len) p' clock e busy a'.before
              | inr (q, e, updating) ↦ calm_after r polls len q p' clock e updating a'.before
            ] in
            record {
              start = x';
              from = b3;
              at = p';
              same = a'.reply;
              reads = a'.reads;
              before = a'.before;
              behind = calm;
              later = omega (arith, a.later, a'.later);
              last = a'.last;
              runs =
                  round_repeats r 1 polls len b.reads op x b b1 p a busy
                  ∙ round_ends r 0 polls len (p + 1 + len + 1) op x' b2 b3 p' a' calm;
              after = a'.reply';
              given = inr (b1, refl);
            }
      ]

  -- The three registers, from the k-th read on.
  read_time_guarded_op_lem :
      (r : ℕ → ℕ) (k : ℕ) (x : TimeData) (b : Bus)
      → b.reply ≡ r
      → b.reads ≡ k
      → ((read_time_guarded_op s (some d) x b).0 ≡ 0)
        × ((read_time_guarded_op s (some d) x b).1 ≡ record {
          seconds = r k % 256;
          minutes = r (k + 1) % 256;
          hours = r (k + 1 + 1) % 256;
        })
        × ((read_time_guarded_op s (some d) x b).2.reads ≡ k + 1 + 1 + 1)
        × ((read_time_guarded_op s (some d) x b).2.reply ≡ r)
        × ((read_time_guarded_op s (some d) x b).2.trace
            ≡ seen control data_port d r (k + 1 + 1) 0x04 (
                seen control data_port d r
                  (k + 1)
                  0x02
                  (seen control data_port d r k 0x00 b.trace)))
  unfolding read_time_guarded_op
  read_time_guarded_op_lem r k x b same at =
      let (v1, reads1, reply1, trace1) =
        read_cmos_register_lem s d control data_port has_control has_data r k 0x00 b same at in
      let b1 = (read_cmos_register s (some d) 0x00 b).1 in
      let (v2, reads2, reply2, trace2) =
        read_cmos_register_lem s d control data_port has_control has_data r (k + 1) 0x02 b1 reply1
          reads1 in
      let b2 = (read_cmos_register s (some d) 0x02 b1).1 in
      let (v3, reads3, reply3, trace3) =
        read_cmos_register_lem s d control data_port has_control has_data r (k + 1 + 1) 0x04 b2
          reply2 reads2 in
      (
        refl,
        rw (v1, v2, v3) refl,
        reads3,
        reply3,
        trace3
            ∙ ap (seen control data_port d r (k + 1 + 1) 0x04)
                (trace2 ∙ ap (seen control data_port d r (k + 1) 0x02) trace1),
      )

  read_time_guarded_op-Advances : Advances 3 read_time_guarded_op
  read_time_guarded_op-Advances x b =
      let (zero_result, time, reads, reply, _) =
        read_time_guarded_op_lem b.reply b.reads x b refl refl in
      (reads ∙ omega arith, reply)

  -- The accesses of a run of the operation between two polls, the first of them at the `at`-th read.
  abbrev pub between_polls : (ℕ → ℕ) → (at : ℕ) → List Access → List Access
  between_polls r at t = seen control data_port d r (at + 4) 0x0A (
      seen control data_port d r (at + 3) 0x04 (
        seen control data_port d r (at + 2) 0x02
          (seen control data_port d r (at + 1) 0x00 (seen control data_port d r at 0x0A t))))

  -- They are the last ones of the guarded loop.
  between_polls_lem :
      (r : ℕ → ℕ) (at : ℕ) (x : TimeData) (from : Bus) (t : List Access)
      → from.reply ≡ r
      → from.reads ≡ at + 1
      → from.trace ≡ seen control data_port d r at 0x0A t
      → (polled_after read_time_guarded_op x from).trace ≡ between_polls r at t
  between_polls_lem r at x from t same reads trace =
      let (_, _, reads', reply', trace') = read_time_guarded_op_lem r (at + 1) x from same reads in
      let (_, _, _, polled) =
        update_in_progress_lem s d control data_port has_control has_data r (at + 4)
          (read_time_guarded_op s (some d) x from).2 reply' (reads' ∙ omega arith) in
      let second : at + 1 + 1 ≡ at + 2 = omega arith in
      let third : at + 2 + 1 ≡ at + 3 = omega arith in
      polled
      ∙ ap (seen control data_port d r (at + 4) 0x0A) (trace' ∙ rw (second, third, trace) refl)

  -- With a periodic clock two rounds are enough: `read_rtc_time` returns 0. Its last ten accesses are a
  -- poll of register A, a read of each of the registers 0, 2 and 4, and another poll of register A, none
  -- of them before the call; the seconds, minutes and hours are what these three reads brought in, and
  -- the update flag is clear at both polls.
  pub read_rtc_time_lem :
      (polls : ℕ) (stack : TimeData) (b : Bus)
      → IsPeriodic polls 3 b.reply
      → (at : ℕ) × (b' : Bus) × (read_rtc_time 2 polls s (some d) true stack b
          ≡ some (
            returned 0,
            some (record {
              seconds = b.reply (at + 1) % 256;
              minutes = b.reply (at + 2) % 256;
              hours = b.reply (at + 3) % 256;
            }),
            b',
          ))
        × (busy_at b.reply at ≡ false)
        × (busy_at b.reply (at + 4) ≡ false)
        × (b.reads ≤ at)
        × ((t : List Access) × (b'.trace ≡ between_polls b.reply at t))
  unfolding read_rtc_time update_guarded_op
  read_rtc_time_lem polls stack b clock =
      let g =
        guarded_rounds_lem b.reply polls 3 read_time_guarded_op stack b clock
          read_time_guarded_op-Advances refl in
      let (zero_result, time, _, _, _) =
        read_time_guarded_op_lem b.reply (g.at + 1) g.start g.from g.same g.reads in
      let second : g.at + 1 + 1 ≡ g.at + 2 = omega arith in
      let third : g.at + 2 + 1 ≡ g.at + 3 = omega arith in
      let last : g.at + 1 + 3 ≡ g.at + 4 = omega arith in
      let values = time ∙ rw (second, third) refl in
      (
        g.at,
        polled_after read_time_guarded_op g.start g.from,
        rw (read_rtc_time, g.runs, zero_result, values) refl,
        g.before,
        rw last at (g.behind),
        g.later,
        (g.last.0, between_polls_lem b.reply g.at g.start g.from g.last.0 g.same g.reads g.last.1),
      )

  -- The environment is the same behind it.
  pub read_rtc_time_keeps :
      (polls : ℕ) (stack : TimeData) (b : Bus)
      → IsPeriodic polls 3 b.reply
      → (time : TimeData) × (b' : Bus) × (read_rtc_time 2 polls s (some d) true stack b
          ≡ some (returned 0, some time, b'))
        × (b'.reply ≡ b.reply)
  unfolding read_rtc_time update_guarded_op
  read_rtc_time_keeps polls stack b clock =
      let g =
        guarded_rounds_lem b.reply polls 3 read_time_guarded_op stack b clock
          read_time_guarded_op-Advances refl in
      let (zero_result, _, _, _, _) =
        read_time_guarded_op_lem b.reply (g.at + 1) g.start g.from g.same g.reads in
      (
        (read_time_guarded_op s (some d) g.start g.from).1,
        polled_after read_time_guarded_op g.start g.from,
        rw (read_rtc_time, g.runs, zero_result) refl,
        g.after,
      )
