-- ===== src/Idt/Registry.antt =====
-- src/idt.c: the registry of interrupt handlers. `H` is the type of the pointers to handlers.
use shogun_os.Base.{
  ℕ, zero, suc, ◌+◌, ◌%◌, ◌^◌, ◌<◌, ◌≡◌, refl, ◌∙◌, Bool, true, false, Option, none, List, leb,
  ◌==◌, if◌then◌else◌, get_or, set, replicate, length, length-set, length-replicate, get_or-set,
  arith,
}

pub record Registry {ℓ} (H : Type ℓ) : Type ℓ where
  pub interrupt_handlers : List (Option H)
  pub handlers_initialized : Bool

abbrev pub vectors : ℕ
vectors = 256

pub data IrqIdType : Type 0 where
  irq_internal irq_pic1 irq_pic2 : IrqIdType

pub record IrqId : Type 0 where
  pub type : IrqIdType
  pub index : ℕ

-- The result is a `uint8_t`. The `default` of the switch is for no constant of the enumeration.
unfoldable pub irq_id_to_vector : IrqId → ℕ
irq_id_to_vector irq = elim (irq.type) [
  | irq_internal ↦ irq.index
  | irq_pic1 ↦ (64 + irq.index) % 2 ^ 8
  | irq_pic2 ↦ (72 + irq.index) % 2 ^ 8
]

get_or-replicate {ℓ} : {A : Type ℓ} (n i : ℕ) (d : A) → get_or (replicate n d) i d ≡ d
get_or-replicate zero zero d = refl
get_or-replicate zero (suc i) d = refl
get_or-replicate (suc n) zero d = refl
get_or-replicate (suc n) (suc i) d = get_or-replicate n i d

module _ {ℓ} {H : Type ℓ} where
  abbrev pub no_handlers : List (Option H)
  no_handlers = replicate vectors none

  unfoldable pub init_interrupt_registry : Registry H → Registry H
  init_interrupt_registry r =
      if r.handlers_initialized
      then r
      else record { interrupt_handlers = no_handlers; handlers_initialized = true }

  -- `if (!handlers_initialized) init_interrupt_registry();`
  abbrev pub ready : Registry H → Registry H
  ready r = if r.handlers_initialized then r else init_interrupt_registry r

  -- `true` is the result 0, `false` the result -1. The vector is a `uint8_t`.
  unfoldable pub register_interrupt_handler :
      Registry H → (vector : ℕ) → Option H → Bool × Registry H
  unfolding init_interrupt_registry
  register_interrupt_handler r vector handler = if leb vectors vector then (false, ready r) else (
    true,
    record (ready r) { interrupt_handlers = set (ready r).interrupt_handlers vector handler },
  )

  unfoldable pub unregister_interrupt_handler : Registry H → (vector : ℕ) → Bool × Registry H
  unfolding init_interrupt_registry
  unregister_interrupt_handler r vector = if leb vectors vector then (false, ready r) else (
    true,
    record (ready r) { interrupt_handlers = set (ready r).interrupt_handlers vector none },
  )

  unfoldable pub get_interrupt_handler : Registry H → (vector : ℕ) → Option H × Registry H
  unfolding init_interrupt_registry
  get_interrupt_handler r vector =
      if leb vectors vector
      then (none, ready r)
      else (get_or (ready r).interrupt_handlers vector none, ready r)

  unfoldable pub register_interrupt_handler_irq : Registry H → IrqId → Option H → Bool × Registry H
  register_interrupt_handler_irq r irq handler =
      register_interrupt_handler r (irq_id_to_vector irq) handler

  unfoldable pub unregister_interrupt_handler_irq : Registry H → IrqId → Bool × Registry H
  unregister_interrupt_handler_irq r irq = unregister_interrupt_handler r (irq_id_to_vector irq)

  -- The handler that a vector has, before the lazy initialisation or after it.
  unfoldable pub handler_of : Registry H → ℕ → Option H
  handler_of r vector =
      if r.handlers_initialized then get_or r.interrupt_handlers vector none else none

  -- A registry by its two fields.
  abbrev at : List (Option H) → Bool → Registry H
  at hs on = record { interrupt_handlers = hs; handlers_initialized = on }

  pub record IsValid (r : Registry H) : Type 0 where
    pub size : length r.interrupt_handlers ≡ vectors

  -- The two cases of the lazy initialisation.
  register_at :
      (hs : List (Option H)) (on : Bool) (vector : ℕ) (handler : Option H) (v : ℕ)
      → length hs ≡ vectors
      → vector < 256
      → ((register_interrupt_handler (at hs on) vector handler).0 ≡ true)
        × IsValid (register_interrupt_handler (at hs on) vector handler).1
        × (handler_of (register_interrupt_handler (at hs on) vector handler).1 v
            ≡ (if vector == v then handler else handler_of (at hs on) v))
  unfolding register_interrupt_handler handler_of
  register_at hs true vector handler v size h =
      let small : leb 256 vector ≡ false = ground arith in
      (
        rw small,
        rw small record { size = length-set _ _ _ ∙ size },
        rw (small, get_or-set hs vector v handler none (omega arith)),
      )
  register_at hs false vector handler v size h =
      let small : leb 256 vector ≡ false = ground arith in
      (
        rw small,
        rw small record {
          size =
              length-set no_handlers vector handler ∙ length-replicate {A = Option H} vectors none;
        },
        rw (
          small,
          get_or-set no_handlers vector v handler none
              (omega (arith, length-replicate {A = Option H} vectors none)),
          get_or-replicate {A = Option H} vectors v none,
        ),
      )

  -- On a valid registry and for a vector below 256, registering returns 0, keeps the registry valid,
  -- and changes the handler of its vector and of no other, whether the registry was initialised or
  -- not.
  pub register_lem :
      (r : Registry H) (vector : ℕ) (handler : Option H) (v : ℕ)
      → IsValid r
      → vector < 256
      → ((register_interrupt_handler r vector handler).0 ≡ true)
        × IsValid (register_interrupt_handler r vector handler).1
        × (handler_of (register_interrupt_handler r vector handler).1 v
            ≡ (if vector == v then handler else handler_of r v))
  register_lem r vector handler v ok h =
      register_at r.interrupt_handlers r.handlers_initialized vector handler v ok.size h

  unregister_at :
      (hs : List (Option H)) (on : Bool) (vector v : ℕ)
      → length hs ≡ vectors
      → vector < 256
      → ((unregister_interrupt_handler (at hs on) vector).0 ≡ true)
        × IsValid (unregister_interrupt_handler (at hs on) vector).1
        × (handler_of (unregister_interrupt_handler (at hs on) vector).1 v
            ≡ (if vector == v then none else handler_of (at hs on) v))
  unfolding unregister_interrupt_handler register_interrupt_handler
  unregister_at hs on vector v size h = register_at hs on vector none v size h

  -- On a valid registry and for a vector below 256, unregistering returns 0, keeps the registry
  -- valid, and takes the handler off its vector and no other.
  pub unregister_lem :
      (r : Registry H) (vector v : ℕ)
      → IsValid r
      → vector < 256
      → ((unregister_interrupt_handler r vector).0 ≡ true)
        × IsValid (unregister_interrupt_handler r vector).1
        × (handler_of (unregister_interrupt_handler r vector).1 v
            ≡ (if vector == v then none else handler_of r v))
  unregister_lem r vector v ok h =
      unregister_at r.interrupt_handlers r.handlers_initialized vector v ok.size h
