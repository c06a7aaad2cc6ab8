-- ===== src/Syscall/Sleep.antt =====
-- `sys_sleep`: how long it halts, over the wrap-around of the ticks, and what it does when nothing wakes it.
use zenix.Prelude.{
  ℕ, zero, suc, ◌+◌, ◌/◌, ◌^◌, ◌<◌, ◌≡◌, refl, ap, ◌∙◌, Bool, true, false, not, Option, none, some,
  arith, ltb, if◌then◌else◌, u32, sub32,
}
use zenix.Prelude.Int.{pos}
use zenix.Proc.{Kernel}
use zenix.Syscall.{System, sleep_loop, wake_up, sys_sleep}

-- Each halt ends with an interrupt of the timer, which counts one tick.
abbrev pub Wakes : (Kernel → Option Kernel) → Type 0
Wakes hlt =
    (k : Kernel) → (k' : Kernel) × (hlt k ≡ some k') × (k'.system_ticks ≡ u32 (k.system_ticks + 1))

-- The ticks that have gone since `start`, one later
tick-gone :
    (ticks start gone : ℕ)
    → start < 2 ^ 32
    → ticks < 2 ^ 32
    → sub32 ticks start ≡ gone
    → gone + 1 < 2 ^ 32
    → sub32 (u32 (ticks + 1)) start ≡ gone + 1
tick-gone ticks start gone hs ht e h = omega (arith, hs, ht, e, h)

sleep_loop-ends :
    (hlt : Kernel → Option Kernel) (wakes : Wakes hlt) (left fuel start gone wait : ℕ) (k : Kernel)
    → start < 2 ^ 32
    → k.system_ticks < 2 ^ 32
    → sub32 k.system_ticks start ≡ gone
    → gone + left ≡ wait
    → wait < 2 ^ 32
    → left < fuel
    → (k' : Kernel) × (sleep_loop hlt fuel start wait k ≡ some k')
      × (sub32 k'.system_ticks start ≡ wait)
unfolding sleep_loop
sleep_loop-ends hlt wakes left zero start gone wait k hs ht e w h f = elim f [ ]
sleep_loop-ends hlt wakes zero (suc fuel) start gone wait k hs ht e w h f =
    let ends : ltb (sub32 k.system_ticks start) wait ≡ false = ground (arith, e, w) in
    (k, rw ends refl, omega (arith, e, w))
sleep_loop-ends hlt wakes (suc left) (suc fuel) start gone wait k hs ht e w h f =
    let goes : ltb (sub32 k.system_ticks start) wait ≡ true = ground (arith, e, w) in
    let (k1, woken, ticked) = wakes k in
    let gone1 : sub32 k1.system_ticks start ≡ gone + 1 =
      ap (λ t. sub32 t start) ticked
      ∙ tick-gone k.system_ticks start gone hs ht e (omega (arith, w, h)) in
    let (k', run, total) =
      sleep_loop-ends hlt wakes left fuel start (gone + 1) wait k1 hs (omega (arith, ticked)) gone1
        (omega (arith, w)) h (omega (arith, f)) in
    (k', rw (goes, woken) run, total)

-- If each halt is ended by one tick of the timer, `sys_sleep` returns 0 once ms / 10 ticks have gone since the call,
-- the count wrapping around at 2^32 included; ms / 10 + 1 rounds of its loop are enough.
pub sys_sleep_lem :
    (hlt : Kernel → Option Kernel) (wakes : Wakes hlt) (fuel : ℕ) (s : System) (ms a2 a3 a4 a5 : ℕ)
    → s.kernel.system_ticks < 2 ^ 32
    → ms < 2 ^ 32
    → ms / 10 < fuel
    → (k : Kernel) × (sys_sleep hlt fuel s ms a2 a3 a4 a5 ≡ some (pos 0, record s { kernel = k }))
      × (sub32 k.system_ticks s.kernel.system_ticks ≡ ms / 10)
unfolding sys_sleep
sys_sleep_lem hlt wakes fuel s ms a2 a3 a4 a5 ht hm hf =
    let start = s.kernel.system_ticks in
    let none_gone : sub32 start start ≡ 0 = omega (arith, ht) in
    let (k, run, total) =
      sleep_loop-ends hlt wakes (ms / 10) fuel start 0 (ms / 10) s.kernel ht ht none_gone
        (omega arith) (omega (arith, hm)) hf in
    (k, rw run refl, total)

if_not :
    (short : Bool) (s : System)
    → wake_up s (if not short then none else some s.kernel)
      ≡ (if short then some (pos 0, s) else none)
if_not true s = refl
if_not false s = refl

-- If nothing wakes a halted processor, `sys_sleep` returns for ms below 10, without a halt, and for no other ms,
-- however many rounds its loop has.
pub sys_sleep-masked :
    (fuel : ℕ) (s : System) (ms a2 a3 a4 a5 : ℕ)
    → s.kernel.system_ticks < 2 ^ 32
    → sys_sleep (λ k. none) (suc fuel) s ms a2 a3 a4 a5
      ≡ (if ltb ms 10 then some (pos 0, s) else none)
unfolding sys_sleep sleep_loop
sys_sleep-masked fuel s ms a2 a3 a4 a5 ht =
    let e : ltb (sub32 s.kernel.system_ticks s.kernel.system_ticks) (ms / 10) ≡ not (ltb ms 10) =
      ground (arith, ht) in
    rw e (if_not (ltb ms 10) s)
