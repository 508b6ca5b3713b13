-- ===== src/Executor/SerialWrite/Sending.antt =====
-- Polling the future of src/async_executor.c that writes a text, until it is ready.
use shogun_os.Base.{
  ℕ, zero, suc, ◌+◌, ◌*◌, ◌%◌, ◌<◌, ◌≡◌, ◌≢◌, refl, ap, ◌∙◌, true, false, some, List, [], ◌∷◌, ltb,
  ◌==◌, if◌then◌else◌, get_or, length, arith, Bool-cases, inl, inr, bit_and,
}
use shogun_os.Io.{Bus, next_byte}
use shogun_os.Io.Serial.{serial_line_status_empty, sent, ReadyWithin, write_serial_sends}
use shogun_os.Executor.{future_ready, future_pending}
use shogun_os.Executor.SerialWrite.{
  AsyncSerialWrite, async_serial_write_create, async_serial_write_poll, poll_until_ready, pushed,
  asked, poll_waits, poll_sends, goes_on, stops,
}

-- The characters from `written` on are these.
abbrev Remaining : AsyncSerialWrite → List ℕ → Type 0
Remaining f rest =
    (f.written + length rest ≡ f.len)
    × ((i : ℕ) → get_or f.text (f.written + i) 0 ≡ get_or rest i 0)

Remaining-next :
    (f : AsyncSerialWrite) (c : ℕ) (rest : List ℕ)
    → Remaining f (c ∷ rest)
    → Remaining (record f { written = f.written + 1 }) rest
Remaining-next f c rest (size, same) = (
  omega arith,
  λ i.
      ap (λ k. get_or f.text k 0) {x = f.written + 1 + i} {y = f.written + suc i} (omega arith)
      ∙ same (suc i),
)

-- The future gets ready in these rounds, and the characters were sent.
abbrev Finishes : (rounds polls : ℕ) → AsyncSerialWrite → List ℕ → Bus → Type 0
Finishes rounds polls f rest b =
    (f' : AsyncSerialWrite) × (b' : Bus) × (poll_until_ready rounds polls f b ≡ some (f', b'))
    × (f'.written ≡ f.len)
    × (sent b'.trace ≡ pushed rest (sent b.trace))

-- What a poll does on a line that is ready.
record Sends (polls : ℕ) (f : AsyncSerialWrite) (c : ℕ) (b : Bus) : Type 0 where
  bus : Bus
  polled :
      async_serial_write_poll polls f b
      ≡ some (
        if ltb (f.written + 1) f.len then future_pending else future_ready,
        record f { written = f.written + 1 },
        bus,
      )
  text : sent bus.trace ≡ c ∷ sent b.trace
  ready : ReadyWithin polls bus

sends :
    (polls : ℕ) (f : AsyncSerialWrite) (c : ℕ) (rest : List ℕ) (b : Bus)
    → Remaining f (c ∷ rest)
    → ReadyWithin polls b
    → (bit_and (next_byte b) serial_line_status_empty == 0) ≡ false
    → Sends polls f c b
unfolding sent
sends polls f c rest b r ready empty =
    let more : ltb f.written f.len ≡ true = ground (arith, r.0) in
    let char : get_or f.text f.written 0 ≡ c =
      ap (λ k. get_or f.text k 0) {x = f.written} {y = f.written + 0} (omega arith) ∙ r.1 0 in
    let (b', runs, text, ready') =
      write_serial_sends polls (get_or f.text f.written 0) (asked b) ready in
    record {
      bus = b';
      polled = poll_sends polls f b b' more empty runs;
      text = text ∙ ap (λ x. x ∷ sent b.trace) char;
      ready = ready';
    }

last_sent :
    (rounds polls : ℕ) (f : AsyncSerialWrite) (c : ℕ) (b : Bus)
    → Remaining f (c ∷ [])
    → Sends polls f c b
    → Finishes (suc rounds) polls f (c ∷ []) b
unfolding pushed
last_sent rounds polls f c b r s =
    let last : ltb (f.written + 1) f.len ≡ false = ground (arith, r.0) in
    let polled = rw last at (s.polled) in
    (
      record f { written = f.written + 1 },
      s.bus,
      stops rounds polls f (record f { written = f.written + 1 }) b s.bus polled,
      omega (arith, r.0),
      s.text,
    )

more_sent :
    (rounds polls : ℕ) (f : AsyncSerialWrite) (c c' : ℕ) (rest : List ℕ) (b : Bus)
    → Remaining f (c ∷ c' ∷ rest)
    → (s : Sends polls f c b)
    → Finishes rounds polls (record f { written = f.written + 1 }) (c' ∷ rest) s.bus
    → Finishes (suc rounds) polls f (c ∷ c' ∷ rest) b
unfolding pushed
more_sent rounds polls f c c' rest b r s (f', b', runs, done, text) =
    let more : ltb (f.written + 1) f.len ≡ true = ground (arith, r.0) in
    let polled = rw more at (s.polled) in
    (
      f',
      b',
      goes_on rounds polls f (record f { written = f.written + 1 }) b s.bus polled ∙ runs,
      done,
      text ∙ ap (λ x. pushed rest (c' ∷ x)) (s.text),
    )

waits :
    (rounds polls : ℕ) (f : AsyncSerialWrite) (c : ℕ) (rest : List ℕ) (b : Bus)
    → Remaining f (c ∷ rest)
    → (bit_and (next_byte b) serial_line_status_empty == 0) ≡ true
    → Finishes rounds polls f (c ∷ rest) (asked b)
    → Finishes (suc rounds) polls f (c ∷ rest) b
unfolding sent
waits rounds polls f c rest b r busy (f', b', runs, done, text) =
    let more : ltb f.written f.len ≡ true = ground (arith, r.0) in
    (
      f',
      b',
      goes_on rounds polls f f b (asked b) (poll_waits polls f b more busy) ∙ runs,
      done,
      text,
    )

-- The rounds are enough, when the line is ready after `j` polls.
abbrev Enough : ℕ → Type 0
Enough rounds =
    (polls j : ℕ) (f : AsyncSerialWrite) (c : ℕ) (rest : List ℕ) (b : Bus)
    → Remaining f (c ∷ rest)
    → ReadyWithin polls b
    → j < polls
    → bit_and (b.reply (b.reads + j) % 256) serial_line_status_empty ≢ 0
    → polls * length rest + j < rounds
    → Finishes rounds polls f (c ∷ rest) b

not_yet :
    (rounds polls j : ℕ) (enough : Enough rounds) (f : AsyncSerialWrite) (c : ℕ) (rest : List ℕ)
    (b : Bus)
    → Remaining f (c ∷ rest)
    → ReadyWithin polls b
    → j < polls
    → bit_and (b.reply (b.reads + j) % 256) serial_line_status_empty ≢ 0
    → polls * length rest + j < suc rounds
    → (bit_and (next_byte b) serial_line_status_empty == 0) ≡ true
    → Finishes (suc rounds) polls f (c ∷ rest) b
not_yet rounds polls zero enough f c rest b r ready small now h busy = absurd (now (ground arith))
not_yet rounds polls (suc j) enough f c rest b r ready small now h busy =
    let shift : b.reads + suc j ≡ b.reads + 1 + j = omega arith in
    waits rounds polls f c rest b r busy
      (enough polls j f c rest (asked b) r ready (omega arith) (rw shift at now) (omega (arith, h)))

at_once :
    (rounds polls j : ℕ) (enough : Enough rounds) (f : AsyncSerialWrite) (c : ℕ) (rest : List ℕ)
    (b : Bus)
    → Remaining f (c ∷ rest)
    → polls * length rest + j < suc rounds
    → Sends polls f c b
    → Finishes (suc rounds) polls f (c ∷ rest) b
at_once rounds polls j enough f c [] b r h s = last_sent rounds polls f c b r s
at_once rounds polls j enough f c (c' ∷ rest) b r h s =
    let (j', small', now') = s.ready s.bus.reads in
    more_sent rounds polls f c c' rest b r s (
      enough polls j' (record f { written = f.written + 1 }) c' rest s.bus
        (Remaining-next f c (c' ∷ rest) r) (s.ready) small' now' (omega (arith, h, small')))

finishes : (rounds : ℕ) → Enough rounds
finishes zero polls j f c rest b r ready small now h = absurd (omega arith)
finishes (suc rounds) polls j f c rest b r ready small now h =
    elim (Bool-cases (bit_and (next_byte b) serial_line_status_empty == 0)) [
      | inl busy ↦ not_yet rounds polls j (finishes rounds) f c rest b r ready small now h busy
      | inr empty ↦
          at_once rounds polls j (finishes rounds) f c rest b r h
            (sends polls f c rest b r ready empty)
    ]

-- A future that was created for a whole text, on a line that becomes ready within `polls` polls at any
-- time, gets ready within `polls` rounds for each character and one more; then it has sent each
-- character once, in order. There is no carriage return before a newline.
pub async_serial_write_lem :
    (polls : ℕ) (text : List ℕ) (b : Bus)
    → ReadyWithin polls b
    → (f : AsyncSerialWrite) × (f' : AsyncSerialWrite) × (b' : Bus) × (async_serial_write_create
          true text
          (length text)
        ≡ some f)
      × (poll_until_ready (polls * length text + 1) polls f b ≡ some (f', b'))
      × (f'.written ≡ length text)
      × (sent b'.trace ≡ pushed text (sent b.trace))
unfolding async_serial_write_create async_serial_write_poll poll_until_ready pushed
async_serial_write_lem polls [] b ready =
    let f : AsyncSerialWrite = record { text = []; len = 0; written = 0 } in
    let one : polls * 0 + 1 ≡ suc 0 = omega arith in (f, f, b, refl, rw one refl, refl, refl)
async_serial_write_lem polls (c ∷ cs) b ready =
    let f : AsyncSerialWrite = record { text = c ∷ cs; len = suc (length cs); written = 0 } in
    let (j, small, now) = ready b.reads in
    let (f', b', runs, done, text) =
      finishes (polls * suc (length cs) + 1) polls j f c cs b
        (omega arith, λ i. ap (λ k. get_or (c ∷ cs) k 0) {x = 0 + i} {y = i} (omega arith)) ready
        small now (omega (arith, small)) in
    (f, f', b', refl, runs, done, text)
