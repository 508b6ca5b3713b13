-- ===== src/Executor/SerialWrite.antt =====
-- The future of src/async_executor.c that writes a text to the serial line, one character a poll.
pub mod Sending
use shogun_os.Base.{
  ℕ, zero, suc, ◌+◌, ◌*◌, ◌%◌, ◌<◌, ◌≡◌, ◌≢◌, refl, ap, ◌∙◌, Bool, true, false, not, Option, none,
  some, List, [], ◌∷◌, ltb, ◌==◌, if◌then◌else◌, get_or, length, arith, Bool-cases, inl, inr,
  bit_and,
}
use shogun_os.Io.{Bus, in_b, inp, next_byte}
use shogun_os.Io.Serial.{
  serial_is_transmit_empty, serial_line_status_empty, write_serial, sent, ReadyWithin,
  write_serial_sends, line_status_port,
}
use shogun_os.Executor.{FutureState, future_ready, future_pending}

pub record AsyncSerialWrite : Type 0 where
  pub text : List ℕ
  pub len : ℕ
  pub written : ℕ

-- `none` for no memory.
unfoldable pub async_serial_write_create :
    (memory : Bool) → (text : List ℕ) (len : ℕ) → Option AsyncSerialWrite
async_serial_write_create false text len = none
async_serial_write_create true text len = some (record { text = text; len = len; written = 0 })

-- `none` when the line is not ready within `polls` polls of `write_serial`.
unfoldable pub async_serial_write_poll :
    (polls : ℕ) → AsyncSerialWrite → Bus → Option (FutureState × AsyncSerialWrite × Bus)
unfolding serial_is_transmit_empty write_serial
async_serial_write_poll polls f b =
    if ltb f.written f.len
    then (let (empty, b1) = serial_is_transmit_empty b in
        if not (empty == 0)
        then elim (write_serial polls (get_or f.text f.written 0) b1) [
          | none ↦ none
          | some b2 ↦
              let f' = record f { written = f.written + 1 } in
              some (if ltb f'.written f'.len then future_pending else future_ready, f', b2)
        ]
        else some (future_pending, f, b1))
    else some (future_ready, f, b)

-- The polls of an executor that has nothing else to do, until the future is ready.
unfoldable pub poll_until_ready :
    (rounds polls : ℕ) → AsyncSerialWrite → Bus → Option (AsyncSerialWrite × Bus)
poll_until_ready zero polls f b = none
poll_until_ready (suc rounds) polls f b = elim (async_serial_write_poll polls f b) [
  | none ↦ none
  | some (state, f', b') ↦ elim state [
    | future_ready ↦ some (f', b')
    | future_pending ↦ poll_until_ready rounds polls f' b'
  ]
]

-- Bytes behind what was sent, the newest first.
unfoldable pub pushed : List ℕ → List ℕ → List ℕ
pushed [] before = before
pushed (c ∷ cs) before = pushed cs (c ∷ before)

-- The bus behind the poll of the line status.
abbrev pub asked : Bus → Bus
asked b = record b { reads = b.reads + 1; trace = inp line_status_port (next_byte b) ∷ b.trace }

-- The line is not ready: the future is as it was.
pub poll_waits :
    (polls : ℕ) (f : AsyncSerialWrite) (b : Bus)
    → ltb f.written f.len ≡ true
    → (bit_and (next_byte b) serial_line_status_empty == 0) ≡ true
    → async_serial_write_poll polls f b ≡ some (future_pending, f, asked b)
unfolding async_serial_write_poll serial_is_transmit_empty in_b
poll_waits polls f b more busy = rw (async_serial_write_poll, more, busy) refl

-- The line is ready: the next character is sent.
pub poll_sends :
    (polls : ℕ) (f : AsyncSerialWrite) (b b' : Bus)
    → ltb f.written f.len ≡ true
    → (bit_and (next_byte b) serial_line_status_empty == 0) ≡ false
    → write_serial polls (get_or f.text f.written 0) (asked b) ≡ some b'
    → async_serial_write_poll polls f b
      ≡ some (
        if ltb (f.written + 1) f.len then future_pending else future_ready,
        record f { written = f.written + 1 },
        b',
      )
unfolding async_serial_write_poll serial_is_transmit_empty in_b
poll_sends polls f b b' more empty runs = rw (async_serial_write_poll, more, empty, runs) refl

pub goes_on :
    (rounds polls : ℕ) (f f' : AsyncSerialWrite) (b b' : Bus)
    → async_serial_write_poll polls f b ≡ some (future_pending, f', b')
    → poll_until_ready (suc rounds) polls f b ≡ poll_until_ready rounds polls f' b'
unfolding poll_until_ready
goes_on rounds polls f f' b b' polled = rw (poll_until_ready, polled) refl

pub stops :
    (rounds polls : ℕ) (f f' : AsyncSerialWrite) (b b' : Bus)
    → async_serial_write_poll polls f b ≡ some (future_ready, f', b')
    → poll_until_ready (suc rounds) polls f b ≡ some (f', b')
unfolding poll_until_ready
stops rounds polls f f' b b' polled = rw (poll_until_ready, polled) refl
