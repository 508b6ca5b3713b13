-- ===== src/Io/Serial.antt =====
-- src/io.c: the serial line COM1.
use shogun_os.Base.{
  ℕ, zero, suc, ◌+◌, ◌<◌, ◌≡◌, ◌≢◌, refl, false, inl, inr, Option, none, some, List, [], ◌∷◌, ◌==◌,
  if◌then◌else◌, Bool-cases, bit_and, arith, ◌%◌, ◌++◌, ◌∙◌, ap, sym, append_assoc, Option-cases,
}
use mathlib.Core.Option
use mathlib.Core.Path.{subst}
use shogun_os.Io.{Access, inp, out, Bus, in_b, out_b, next_byte}

abbrev pub serial_com1 : ℕ
serial_com1 = 0x3F8

abbrev pub serial_line_status_empty : ℕ
serial_line_status_empty = 0x40

-- The port of the line status register.
abbrev pub line_status_port : ℕ
line_status_port = serial_com1 + 5

-- The result as a number, not 0 if the transmitter is empty.
unfoldable pub serial_is_transmit_empty : Bus → ℕ × Bus
unfolding in_b
serial_is_transmit_empty b =
    let (status, b') = in_b line_status_port b in (bit_and status serial_line_status_empty, b')

-- `while (serial_is_transmit_empty() == 0);` and the write behind it. `none` means that the fuel
-- ran out: the device was not ready in that many polls.
unfoldable pub write_serial : ℕ → (c : ℕ) → Bus → Option Bus
unfolding serial_is_transmit_empty out_b
write_serial zero c b = none
write_serial (suc fuel) c b =
    let (ready, b') = serial_is_transmit_empty b in
    let rest = write_serial fuel c b' in if ready == 0 then rest else some (out_b serial_com1 c b')

-- The loop of `write_serial_string`: a carriage return goes before each newline. Each character has
-- `fuel` polls.
unfoldable pub write_serial_string : ℕ → (str : List ℕ) → Bus → Option Bus
unfolding write_serial
write_serial_string fuel [] b = some b
write_serial_string fuel (c ∷ cs) b =
    elim (if c == b'\n' then write_serial fuel b'\r' b else some b) [
      | none ↦ none
      | some b1 ↦ elim (write_serial fuel c b1) [
        | none ↦ none
        | some b2 ↦ write_serial_string fuel cs b2
      ]
    ]

-- The bytes that went out on the data port, the newest first.
unfoldable pub sent : List Access → List ℕ
sent [] = []
sent (inp port value ∷ t) = sent t
sent (out port value ∷ t) = if port == serial_com1 then value ∷ sent t else sent t

-- What goes over the line for a text, the newest first.
unfoldable pub on_the_line : List ℕ → List ℕ → List ℕ
on_the_line [] before = before
on_the_line (c ∷ cs) before = on_the_line cs (c ∷ (if c == b'\n' then b'\r' ∷ before else before))

-- The device becomes ready within `fuel` polls, from whichever read on.
abbrev pub ReadyWithin : ℕ → Bus → Type 0
ReadyWithin fuel b =
    (k : ℕ) → (j : ℕ) × (j < fuel) × (bit_and (b.reply (k + j) % 256) serial_line_status_empty ≢ 0)

-- The bus after a poll of the line status.
abbrev polled : Bus → Bus
polled b = record b { reads = b.reads + 1; trace = inp line_status_port (next_byte b) ∷ b.trace }

-- Polls of the line status and bytes for the line, and nothing else.
abbrev pub OnLine : List Access → Type 0
OnLine [] = Unit
OnLine (inp port value ∷ t) = (port ≡ line_status_port) × OnLine t
OnLine (out port value ∷ t) = (port ≡ serial_com1) × OnLine t

-- From the one trace to the other there are only accesses to the line.
pub record Printed (before after : List Access) : Type 0 where
  pub more : List Access
  pub trace : after ≡ more ++ before
  pub line : OnLine more

OnLine-append : (u v : List Access) → OnLine u → OnLine v → OnLine (u ++ v)
OnLine-append [] v none_there there = there
OnLine-append (inp port value ∷ u) v (e, rest) there = (e, OnLine-append u v rest there)
OnLine-append (out port value ∷ u) v (e, rest) there = (e, OnLine-append u v rest there)

pub Printed_none : (t : List Access) → Printed t t
Printed_none t = record { more = []; trace = refl; line = tt }

Printed_trans : {t u v : List Access} → Printed t u → Printed u v → Printed t v
Printed_trans {t} first second = record {
  more = second.more ++ first.more;
  trace =
      second.trace
      ∙ ap (λ l. second.more ++ l) first.trace
      ∙ sym (append_assoc second.more first.more t);
  line = OnLine-append second.more first.more second.line first.line;
}

write_serial_waits :
    (fuel j c : ℕ) (b : Bus)
    → j < fuel
    → bit_and (b.reply (b.reads + j) % 256) serial_line_status_empty ≢ 0
    → (b' : Bus) × (write_serial fuel c b ≡ some b')
      × (sent b'.trace ≡ c ∷ sent b.trace)
      × (b'.reply ≡ b.reply)
unfolding write_serial sent
write_serial_waits zero j c b h ready = absurd (omega arith)
write_serial_waits (suc fuel) zero c b h ready =
    let now : (bit_and (next_byte b) serial_line_status_empty == 0) ≡ false = ground arith in
    (out_b serial_com1 c (polled b), rw now, refl, refl)
write_serial_waits (suc fuel) (suc j) c b h ready =
    let shift : b.reads + 1 + j ≡ b.reads + suc j = omega arith in
    let (b', runs, text, reply) =
      write_serial_waits fuel j c (polled b) (omega arith) (rw shift ready) in
    elim (Bool-cases (bit_and (next_byte b) serial_line_status_empty == 0)) [
      | inr now ↦ (out_b serial_com1 c (polled b), rw now, refl, refl)
      | inl later ↦ (b', rw later runs, text, reply)
    ]

-- With a device that becomes ready within `fuel` polls, each character is sent.
pub write_serial_sends :
    (fuel c : ℕ) (b : Bus)
    → ReadyWithin fuel b
    → (b' : Bus) × (write_serial fuel c b ≡ some b')
      × (sent b'.trace ≡ c ∷ sent b.trace)
      × ReadyWithin fuel b'
write_serial_sends fuel c b ready =
    let (j, below_fuel, now) = ready b.reads in
    let (b', runs, text, reply) = write_serial_waits fuel j c b below_fuel now in
    (b', runs, text, λ k. let (i, small, good) = ready k in (i, small, rw reply good))

-- When the device becomes ready within `fuel` polls at any time, the whole text goes over the
-- line, in order, with a carriage return before each newline.
pub write_serial_string_lem :
    (fuel : ℕ) (str : List ℕ) (b : Bus)
    → ReadyWithin fuel b
    → (b' : Bus) × (write_serial_string fuel str b ≡ some b')
      × (sent b'.trace ≡ on_the_line str (sent b.trace))
unfolding write_serial_string on_the_line
write_serial_string_lem fuel [] b ready = (b, refl, refl)
write_serial_string_lem fuel (c ∷ cs) b ready =
    let (b1, runs1, text1, ready1) = write_serial_sends fuel b'\r' b ready in
    elim (Bool-cases (c == b'\n')) [
      | inl newline ↦
          let (b2, runs2, text2, ready2) = write_serial_sends fuel c b1 ready1 in
          let (b3, runs3, text3) = write_serial_string_lem fuel cs b2 ready2 in
          (
            b3,
            rw (write_serial_string, newline, runs1, runs2) runs3,
            rw (newline, text3, text2, text1),
          )
      | inr plain ↦
          let (b2, runs2, text2, ready2) = write_serial_sends fuel c b ready in
          let (b3, runs3, text3) = write_serial_string_lem fuel cs b2 ready2 in
          (b3, rw (write_serial_string, plain, runs2) runs3, rw (plain, text3, text2))
    ]

-- A character that is sent takes nothing but polls and one write.
write_serial-Printed :
    (fuel c : ℕ) (b b' : Bus) → write_serial fuel c b ≡ some b' → Printed b.trace b'.trace
unfolding write_serial
write_serial-Printed zero c b b' runs = absurd (Option.none-ne-some b' runs)
write_serial-Printed (suc fuel) c b b' runs =
    elim (Bool-cases (bit_and (next_byte b) serial_line_status_empty == 0)) [
      | inl later ↦
          Printed_trans
            (record {
              more = inp line_status_port (next_byte b) ∷ [];
              trace = refl;
              line = (refl, tt);
            })
            (write_serial-Printed fuel c (polled b) b' (rw later at runs))
      | inr now ↦
          subst (λ u. Printed b.trace u.trace)
            (Option.some-injective (out_b serial_com1 c (polled b)) b' (rw now at runs))
            (record {
              more = out serial_com1 c ∷ inp line_status_port (next_byte b) ∷ [];
              trace = refl;
              line = (refl, (refl, tt));
            })
    ]

-- The carriage return, where there is one.
Printed_return :
    (fuel c : ℕ) (b b1 : Bus)
    → (if c == b'\n' then write_serial fuel b'\r' b else some b) ≡ some b1
    → Printed b.trace b1.trace
Printed_return fuel c b b1 returns = elim (Bool-cases (c == b'\n')) [
  | inl newline ↦ write_serial-Printed fuel b'\r' b b1 (rw newline at returns)
  | inr plain ↦
      subst (λ u. Printed b.trace u.trace) (Option.some-injective b b1 (rw plain at returns))
        (Printed_none b.trace)
]

pub write_serial_string-Printed :
    (fuel : ℕ) (str : List ℕ) (b b' : Bus)
    → write_serial_string fuel str b ≡ some b'
    → Printed b.trace b'.trace
unfolding write_serial_string
write_serial_string-Printed fuel [] b b' runs =
    subst (λ u. Printed b.trace u.trace) (Option.some-injective b b' runs) (Printed_none b.trace)
write_serial_string-Printed fuel (c ∷ cs) b b' runs =
    elim (Option-cases (if c == b'\n' then write_serial fuel b'\r' b else some b)) [
      | inl stops ↦ absurd (Option.none-ne-some b' (rw (write_serial_string, stops) at runs))
      | inr (b1, returns) ↦ elim (Option-cases (write_serial fuel c b1)) [
        | inl stops ↦
            absurd (Option.none-ne-some b' (rw (write_serial_string, returns, stops) at runs))
        | inr (b2, sends) ↦ Printed_trans (Printed_return fuel c b b1 returns) (
            Printed_trans (write_serial-Printed fuel c b1 b2 sends) (
              write_serial_string-Printed fuel cs b2 b'
                (rw (write_serial_string, returns, sends) at runs)))
      ]
    ]
