-- ===== src/Irq/Dispatch.antt =====
-- What the dispatch of src/irq.c does with every vector.
use god_os.Base.{
  ℕ, ◌+◌, ◌-◌, ◌%◌, ◌^◌, ◌≡◌, ◌≢◌, ◌<◌, refl, sym, ap, ◌∙◌, ◌==◌, ltb, leb, if◌then◌else◌, Bool,
  true, false, not, ==_true, ◌&&◌, Option, none, some, List, [], ◌∷◌, ◌++◌, length, replicate,
  arith, Bool-cases, inl, inr,
}
use mathlib.Core.Path.{subst}
use god_os.Base.Text.{codes}
use god_os.Io.{Bus}
use god_os.Regs.{Regs}
use god_os.Vga.{vga_puts}
use god_os.Vga.Format.{
  word, Arg, done, digits_of, parse_conversion, parse_flag, parse_width, parse_length, skip_l,
  split_first,
}
use god_os.Vga.Render.{Prints, finish, plain, item, unsigned, decimal}
use god_os.Vga.Refine.{vga_printf-Prints}
use god_os.Irq.{
  irq_of_vector, Handlers, irq_register, System, unhandled_format, acknowledge, then_acknowledge,
  run_handler, irq_dispatch,
}

-- The message for a line without a handler.
abbrev pub unhandled : ℕ → List ℕ
unhandled irq = codes "unhandled IRQ " ++ (digits_of 10 false irq ++ (10 ∷ []))

unfoldable pub no_percent : List ℕ → Bool
no_percent [] = true
no_percent (c ∷ cs) = not (c == b'%') && no_percent cs

pub plain_all :
    (cs : List ℕ) {p out : List ℕ} {args : List Arg}
    → no_percent cs ≡ true
    → Prints p args out
    → Prints (cs ++ p) args (cs ++ out)
unfolding no_percent
plain_all [] e prints = prints
plain_all (c ∷ cs) e prints =
    let (ne, later) = both (c == b'%') (no_percent cs) e in
    plain (differs c ne) (plain_all cs later prints)
  where
    both : (a b : Bool) → (not a && b) ≡ true → (a ≡ false) × (b ≡ true)
    both a b h = ground arith

    differs : (c : ℕ) → (c == b'%') ≡ false → c ≢ b'%'
    differs c e = ground arith

-- `%lu` at the end of a line.
line_number :
    (irq : ℕ)
    → irq < 16
    → Prints (b'%' ∷ b'l' ∷ b'u' ∷ 10 ∷ []) (word irq ∷ []) (digits_of 10 false irq ++ (10 ∷ []))
unfolding parse_conversion parse_flag parse_width parse_length skip_l split_first
line_number irq h =
    let tail = b'l' ∷ b'u' ∷ 10 ∷ [] in
    let digits = digits_of 10 false irq in
    let value : irq % 2 ^ 64 ≡ irq = omega arith in
    let no_pad : 0 - length digits ≡ 0 = omega arith in
    let number : decimal (parse_conversion tail) (irq % 2 ^ 64) ≡ digits =
      ap (λ v. decimal (parse_conversion tail) v) value
      ∙ ap (λ n. replicate n b' ' ++ digits) no_pad in
    subst (λ out. Prints (b'%' ∷ tail) (word irq ∷ []) (out ++ (10 ∷ []))) number
      (item {c = b'u'} {p = tail} refl (unsigned {w = irq}) (plain (omega arith) finish))

unhandled-Prints : (irq : ℕ) → irq < 16 → Prints unhandled_format (word irq ∷ []) (unhandled irq)
unfolding no_percent
unhandled-Prints irq h = plain_all (codes "unhandled IRQ ") refl (line_number irq h)

module _ {D K H : Type 0} (bus : Bus D) (call : H → Regs → System D K → System D K) where
  -- The state after the handler of a line, or the message that there is none.
  abbrev pub handled : Option H → ℕ → Regs → System D K → System D K
  handled (some fn) irq r s = call fn r s
  handled none irq r s = record s { screen = vga_puts bus (unhandled irq) s.screen }

  run_handler-handled :
      (fn : Option H) (irq : ℕ) (r : Regs) (s : System D K)
      → irq < 16
      → run_handler bus call fn irq r s ≡ done (acknowledge bus irq (handled fn irq r s))
  unfolding run_handler then_acknowledge
  run_handler-handled (some fn) irq r s h = let byte : irq % 256 ≡ irq = omega arith in rw byte
  run_handler-handled none irq r s h =
      let byte : irq % 256 ≡ irq = omega arith in
      rw (byte, vga_printf-Prints bus s.screen (unhandled-Prints irq h))

  -- `irq_dispatch` for every 64-bit vector: from 32 to 47 it runs the handler registered for the line, or
  -- prints that there is none, and then in both cases, with the line's number, `pic_send_eoi`;
  -- any other vector changes nothing. It always returns.
  pub irq_dispatch_lem :
      (handlers : Handlers H) (r : Regs) (s : System D K)
      → r.vector < 2 ^ 64
      → let irq = r.vector - 32 in
        irq_dispatch bus call handlers r s ≡ (
          if leb 32 r.vector && ltb r.vector 48
          then done (acknowledge bus irq (handled (handlers irq) irq r s))
          else done s)
  unfolding irq_dispatch irq_of_vector
  irq_dispatch_lem handlers r s h =
      let irq = (r.vector + (2 ^ 64 - 32)) % 2 ^ 64 in
      elim (Bool-cases (leb 32 r.vector && ltb r.vector 48)) [
        | inl line ↦
            let number : irq ≡ r.vector - 32 = ground arith in
            let valid : leb 16 (r.vector - 32) ≡ false = ground arith in
            rw (line, number, valid)
              (run_handler-handled (handlers (r.vector - 32)) (r.vector - 32) r s (ground arith))
        | inr other ↦ let outside : leb 16 irq ≡ true = ground arith in rw (other, outside)
      ]

  at_line :
      (handlers : Handlers H) (line : ℕ) (r : Regs) (s : System D K)
      → line < 16
      → r.vector ≡ 32 + line
      → irq_dispatch bus call handlers r s
        ≡ done (acknowledge bus line (handled (handlers line) line r s))
  at_line handlers line r s h e =
      let number : r.vector - 32 ≡ line = omega arith in
      let inside : (leb 32 r.vector && ltb r.vector 48) ≡ true = ground arith in
      irq_dispatch_lem handlers r s (omega arith) ∙ rw (inside, number)

  -- A handler registered for a line of the 16 is the one that the line's vector runs, and every other
  -- line of the 16 keeps what it had.
  pub irq_register-dispatch :
      (irq other : ℕ) (fn : H) (handlers : Handlers H) (r : Regs) (s : System D K)
      → irq < 16
      → other < 16
      → r.vector ≡ 32 + other
      → irq_dispatch bus call (irq_register irq (some fn) handlers) r s ≡ (
          if other == irq
          then done (acknowledge bus irq (call fn r s))
          else irq_dispatch bus call handlers r s)
  unfolding irq_register
  irq_register-dispatch irq other fn handlers r s h ho e =
      let after = at_line (irq_register irq (some fn) handlers) other r s ho e in
      let before = at_line handlers other r s ho e in
      let valid : leb 16 irq ≡ false = ground arith in
      elim (Bool-cases (other == irq)) [
        | inl same ↦
            let found : irq_register irq (some fn) handlers other ≡ some fn = rw (valid, same) in
            rw same (
              after
              ∙ ap (λ o. done (acknowledge bus other (handled o other r s))) found
              ∙ ap (λ l. done (acknowledge bus l (call fn r s))) (==_true other irq same))
        | inr different ↦
            let kept : irq_register irq (some fn) handlers other ≡ handlers other =
              rw (valid, different) in
            rw different (
              after
              ∙ ap (λ o. done (acknowledge bus other (handled o other r s))) kept
              ∙ sym before)
      ]
