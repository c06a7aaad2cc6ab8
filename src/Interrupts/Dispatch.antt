-- ===== src/Interrupts/Dispatch.antt =====
-- What an interrupt request runs and acknowledges, and what the timer is told.
use zenix.Prelude.{
  ℕ, ◌+◌, ◌*◌, ◌/◌, ◌%◌, ◌^◌, ◌≤◌, ◌<◌, bit_and, ◌≡◌, refl, sym, subst, ◌∙◌, ◌≢◌, inl, inr, Bool,
  true, false, not, ◌&&◌, ◌||◌, Option, none, some, List, [], ◌∷◌, arith, ltb, leb, ◌==◌,
  if◌then◌else◌, lt→ltb, ==_iff, Bool-cases, length, get_or, set, length-set, get_or-set_self,
  get_or-set_ne, u8, sub32,
}
use native.Mathlib.Nat.{div-le_of_le-mul}
use zenix.Prelude.Bits.{bit_at, mask_test}
use zenix.Prelude.Masks.{and-ones}
use zenix.Interrupts.{
  PortWrite, pic1_command, pic2_command, pic_eoi, pic_send_eoi, pic_get_isr, irq_register_handler,
  Service, serve, irq_handler, timer_init,
}

-- The controller that the byte is written to is told that the interrupt has been served.
pub eois : ℕ → List PortWrite → ℕ
eois command [] = 0
eois command (w ∷ ws) =
    (if (w.port == command) && (w.val == pic_eoi) then 1 else 0) + eois command ws

-- The lines 7 and 15 are spurious unless the highest bit of the answer is set.
pub is_spurious : ℕ → ℕ → Bool
is_spurious irq answer = (irq == 7 || irq == 15) && (bit_at answer 7 == 0)

-- The handler of a line, if one is registered
pub handler_of : List ℕ → ℕ → Option ℕ
handler_of hs irq = if get_or hs irq 0 == 0 then none else some (get_or hs irq 0)

-- What a request on the line `irq` should do.
pub record Serves (hs : List ℕ) (irq : ℕ) (spurious : Bool) (r : Service) : Type 0 where
  pub handler : r.called ≡ (if spurious then none else handler_of hs irq)
  pub slave : eois pic2_command r.writes ≡ (if leb 8 irq && not spurious then 1 else 0)
  pub master : eois pic1_command r.writes ≡ (if (irq == 7) && spurious then 0 else 1)

line_of : (irq : ℕ) → irq < 16 → u8 (sub32 (32 + irq) 32) ≡ irq
line_of irq h = omega arith

asked_7 : (hs : List ℕ) (answer : ℕ) → Serves hs 7 (bit_at answer 7 == 0) (irq_handler hs 39 answer)
unfolding irq_handler serve pic_send_eoi pic_get_isr eois handler_of
asked_7 hs answer = elim (Bool-cases (bit_at answer 7 == 0)) [
  | inl off ↦
      let e : (bit_and answer 128 == 0) ≡ true = mask_test answer 7 ∙ off in
      rw off (rw e (record { handler = refl; slave = refl; master = refl }))
  | inr on ↦
      let e : (bit_and answer 128 == 0) ≡ false = mask_test answer 7 ∙ on in
      rw on (rw e (record { handler = ground arith; slave = refl; master = refl }))
]

asked_15 :
    (hs : List ℕ) (answer : ℕ) → Serves hs 15 (bit_at answer 7 == 0) (irq_handler hs 47 answer)
unfolding irq_handler serve pic_send_eoi pic_get_isr eois handler_of
asked_15 hs answer = elim (Bool-cases (bit_at answer 7 == 0)) [
  | inl off ↦
      let e : (bit_and answer 128 == 0) ≡ true = mask_test answer 7 ∙ off in
      rw off (rw e (record { handler = refl; slave = refl; master = refl }))
  | inr on ↦
      let e : (bit_and answer 128 == 0) ≡ false = mask_test answer 7 ∙ on in
      rw on (rw e (record { handler = ground arith; slave = refl; master = refl }))
]

plain :
    (hs : List ℕ) (irq : ℕ)
    → irq < 16
    → (irq == 7) ≡ false
    → Serves hs irq false (serve hs (32 + irq) [])
unfolding serve pic_send_eoi eois handler_of
plain hs irq h not7 =
    let low : ltb irq 16 ≡ true = lt→ltb _ _ h in
    rw (line_of irq h) (record {
      handler = rw low (ground arith);
      slave = ground arith;
      master = ground (arith, not7);
    })

-- One interrupt request on a line below 16: a spurious one calls nothing, and any other calls the handler
-- that is registered for the line, if there is one. The slave is told the end once exactly for a request of
-- its lines that is not spurious, and the master once, except for a spurious request on line 7.
pub irq_handler_lem :
    (hs : List ℕ) (irq answer : ℕ)
    → irq < 16
    → Serves hs irq (is_spurious irq answer) (irq_handler hs (32 + irq) answer)
unfolding irq_handler is_spurious
irq_handler_lem hs irq answer h = elim (Bool-cases (irq == 7)) [
  | inl seven ↦
      let e : irq ≡ 7 = (==_iff _ _).0 seven in
      subst
        (λ irq.
          Serves hs irq ((irq == 7 || irq == 15) && (bit_at answer 7 == 0))
            (irq_handler hs (32 + irq) answer))
        (sym e) (asked_7 hs answer)
  | inr not7 ↦ elim (Bool-cases (irq == 15)) [
    | inl fifteen ↦
        let e : irq ≡ 15 = (==_iff _ _).0 fifteen in
        subst
          (λ irq.
            Serves hs irq ((irq == 7 || irq == 15) && (bit_at answer 7 == 0))
              (irq_handler hs (32 + irq) answer))
          (sym e) (asked_15 hs answer)
    | inr not15 ↦
        let a : (32 + irq == 39) ≡ false = ground (arith, not7) in
        let b : (32 + irq == 47) ≡ false = ground (arith, not15) in
        rw a (rw b (rw not7 (rw not15 (plain hs irq h not7))))
  ]
]

-- Of two registrations for the same line, below 16 and in a table of 16, the second is the handler of the
-- line, if it is not null; the other lines keep theirs.
pub register_lem :
    (hs : List ℕ) (irq other first second : ℕ)
    → length hs ≡ 16
    → irq < 16
    → second ≢ 0
    → (handler_of (irq_register_handler (irq_register_handler hs irq first) irq second) irq
        ≡ some second)
      × (other ≢ irq
          → handler_of (irq_register_handler (irq_register_handler hs irq first) irq second) other
            ≡ handler_of hs other)
unfolding irq_register_handler handler_of
register_lem hs irq other first second size h nz =
    let low : ltb irq 16 ≡ true = lt→ltb _ _ h in
    let got =
      get_or-set_self (set hs irq first) irq second 0
        (omega (arith, length-set hs irq first, size)) in
    let z : (second == 0) ≡ false = ground (arith, nz) in
    rw low (
      (rw got (rw z refl)),
      λ ne.
          let ne' : irq ≢ other = λ e. ne (sym e) in
          rw
            (get_or-set_ne (set hs irq first) irq other second 0 ne'
              ∙ get_or-set_ne hs irq other first 0 ne')
            refl,
    )

-- The divisor that the two bytes stand for
pub divisor_of : List PortWrite → ℕ
divisor_of [] = 0
divisor_of (w ∷ ws) = if w.port == 0x40 then w.val + 256 * divisor_of ws else divisor_of ws

-- For a frequency from 19 Hz on, the two bytes that the timer gets make up the divisor.
pub timer_init_lem :
    (frequency : ℕ) → 19 ≤ frequency → divisor_of (timer_init frequency) ≡ 1193180 / frequency
unfolding timer_init divisor_of
timer_init_lem frequency h =
    let d = 1193180 / frequency in
    let lo : bit_and d 0xFF ≡ d % 256 = and-ones 8 d ∙ omega arith in
    let hi : bit_and (d / 2 ^ 8) 0xFF ≡ d / 256 % 256 = and-ones 8 (d / 256) ∙ omega arith in
    let below : d ≤ 65535 = div-le_of_le-mul frequency (omega arith) in omega (arith, lo, hi, below)
