-- ===== src/Idt/Handler.antt =====
-- What the C entry of src/idt.c does with each vector.
use god_os.Base.{
  ℕ, ◌-◌, ◌≡◌, ◌<◌, ◌≤◌, refl, sym, ap, ◌∙◌, ◌==◌, ltb, leb, if◌then◌else◌, Bool, true, false, ◌%◌,
  ◌&&◌, arith, Bool-cases, inl, inr, ◌^◌, List, [], ◌∷◌, ◌++◌, get_or, bit_and,
}
use god_os.Base.Text.{codes}
use god_os.Base.Bits.{bit_and-mask}
use god_os.Io.{Bus}
use god_os.Regs.{Regs}
use god_os.Vga.{vga_puts}
use god_os.Vga.Format.{
  Arg, word, text, parse_conversion, parse_flag, parse_width, parse_length, skip_l, split_first,
  digits_of,
}
use god_os.Vga.Render.{Prints, finish, plain, item, upper_hex, lower_hex, string, padded}
use god_os.Vga.Refine.{vga_printf-Prints, vga_puts-append}
use god_os.Irq.{Handlers, System, acknowledge, irq_dispatch}
use god_os.Irq.Dispatch.{handled, irq_dispatch_lem, no_percent, plain_all}
use god_os.Idt.{
  Exit, exception_names, resumed, halted, report, panic_report, after_dispatch, isr_handler,
}

-- A word in hexadecimal, padded with zeros.
abbrev pub hex : Bool → ℕ → ℕ → List ℕ
hex upper width w = padded width b'0' (digits_of 16 upper (w % 2 ^ 64))

-- The lines of the report: the exception with its name, the error code, the address of a page fault,
-- and the place.
abbrev pub exception_text : ℕ → List ℕ
exception_text v =
    codes "EXCEPTION 0x"
    ++ (hex true 2 v ++ (codes " " ++ (get_or exception_names v [] ++ codes "\n")))

abbrev pub hex_text : List ℕ → ℕ → List ℕ
hex_text prefix w = prefix ++ (hex false 16 w ++ codes "\n")

abbrev pub place_text : Regs → List ℕ
place_text r =
    codes "rip=0x"
    ++ (hex false 16 r.rip
        ++ (codes " cs=0x"
            ++ (hex false 4 r.cs ++ (codes " rflags=0x" ++ (hex false 16 r.rflags ++ codes "\n")))))

unfoldable pub report_text : ℕ → Regs → List ℕ
report_text cr2 r =
    exception_text r.vector
    ++ (hex_text (codes "error=0x") r.error_code
        ++ (if r.vector == 14 then hex_text (codes "cr2=0x") cr2 ++ place_text r else place_text r))

-- The formats of the report, each with what follows.
hex_line :
    (prefix : List ℕ) (w : ℕ)
    → no_percent prefix ≡ true
    → Prints (prefix ++ codes "%016lx\n") (word w ∷ []) (hex_text prefix w)
unfolding parse_conversion parse_flag parse_width parse_length skip_l split_first
hex_line prefix w plain_prefix =
    plain_all prefix plain_prefix
      (item {c = b'x'} {p = codes "016lx\n"} refl (lower_hex {w = w}) (plain (omega arith) finish))

exception_line :
    (v : ℕ) (name : List ℕ)
    → Prints
        (codes "EXCEPTION 0x%02lX %s\n")
        (word v ∷ text name ∷ [])
        (codes "EXCEPTION 0x" ++ (hex true 2 v ++ (codes " " ++ (name ++ codes "\n"))))
unfolding parse_conversion parse_flag parse_width parse_length skip_l split_first no_percent
exception_line v name = plain_all (codes "EXCEPTION 0x") refl (
    item {c = b'X'} {p = codes "02lX %s\n"} refl (upper_hex {w = v}) (
      plain (omega arith)
        (item {c = b's'} {p = codes "s\n"} refl (string {cs = name}) (plain (omega arith) finish))))

place_line :
    (r : Regs)
    → Prints
        (codes "rip=0x%016lx cs=0x%04lx rflags=0x%016lx\n")
        (word r.rip ∷ word r.cs ∷ word r.rflags ∷ [])
        (place_text r)
unfolding parse_conversion parse_flag parse_width parse_length skip_l split_first no_percent
place_line r = plain_all (codes "rip=0x") refl (
    item {c = b'x'} {p = codes "016lx cs=0x%04lx rflags=0x%016lx\n"} refl (lower_hex {w = r.rip}) (
      plain_all (codes " cs=0x") refl (
        item {c = b'x'} {p = codes "04lx rflags=0x%016lx\n"} refl (lower_hex {w = r.cs}) (
          plain_all (codes " rflags=0x") refl (
            item {c = b'x'} {p = codes "016lx\n"} refl (lower_hex {w = r.rflags})
              (plain (omega arith) finish))))))

module _ {D K : Type 0} (bus : Bus D) where
  -- The state after more text on the screen.
  abbrev pub printed : List ℕ → System D K → System D K
  printed out s = record s { screen = vga_puts bus out s.screen }

  report-done :
      {fmt : List ℕ} {args : List Arg} {out : List ℕ} (rest : System D K → Exit (System D K))
      (s : System D K)
      → Prints fmt args out
      → report bus fmt args rest s ≡ rest (printed out s)
  unfolding report
  report-done rest s prints = rw (vga_printf-Prints bus s.screen prints, report)

  -- A line before the rest of the report.
  report-line :
      {fmt : List ℕ} {args : List Arg} {out : List ℕ} (out' : List ℕ)
      (rest : System D K → Exit (System D K)) (s : System D K)
      → Prints fmt args out
      → ((t : System D K) → rest t ≡ halted (printed out' t))
      → report bus fmt args rest s ≡ halted (printed (out ++ out') s)
  report-line {out = out} out' rest s prints later =
      report-done rest s prints
      ∙ later (printed out s)
      ∙ ap (λ t. halted (record s { screen = t })) (sym (vga_puts-append bus out out' s.screen))

  -- The report of an exception is printed in full, and then the machine halts.
  panic_report_lem :
      (cr2 : ℕ) (r : Regs) (s : System D K)
      → r.vector < 32
      → panic_report bus cr2 r s ≡ halted (printed (report_text cr2 r) s)
  unfolding panic_report no_percent report_text
  panic_report_lem cr2 r s small =
      let index : bit_and r.vector 31 ≡ r.vector = omega (arith, bit_and-mask 5 r.vector) in
      let name = get_or exception_names r.vector [] in
      let place = λ (t : System D K). report-done (λ u. halted u) t (place_line r) in
      let error = hex_line (codes "error=0x") r.error_code refl in
      let address = hex_line (codes "cr2=0x") cr2 refl in
      elim (Bool-cases (r.vector == 14)) [
        | inr other ↦
            rw (other, index)
              (report-line _ _ s (exception_line r.vector name)
                (λ t. report-line (place_text r) _ t error place))
        | inl page ↦
            rw (page, index)
              (report-line _ _ s (exception_line r.vector name) (λ t.
                report-line (hex_text (codes "cr2=0x") cr2 ++ place_text r) _ t error
                  (λ u. report-line (place_text r) _ u address place)))
      ]

module _ {D K H : Type 0} (bus : Bus D) (call : H → Regs → System D K → System D K)
    (page_fault : Regs → System D K → Bool × System D K) where
  after_line :
      (handlers : Handlers H) (r : Regs) (s : System D K)
      → r.vector < 2 ^ 64
      → 32 ≤ r.vector
      → let irq = r.vector - 32 in
        after_dispatch (irq_dispatch bus call handlers r s) ≡ (
          if ltb r.vector 48
          then resumed (acknowledge bus irq (handled bus call (handlers irq) irq r s))
          else resumed s)
  unfolding after_dispatch
  after_line handlers r s h lo =
      let from : leb 32 r.vector ≡ true = ground arith in
      elim (Bool-cases (ltb r.vector 48)) [
        | inl line ↦ rw (irq_dispatch_lem bus call handlers r s h, from, line)
        | inr far ↦ rw (irq_dispatch_lem bus call handlers r s h, from, far)
      ]

  -- The entry for all interrupts, for every 64-bit vector. From 32 to 47 it runs the line's handler, or
  -- reports that there is none, acknowledges the interrupt and resumes; from 48 on it resumes; vector 14
  -- resumes if the page-fault handler says that the page is there now. Every other exception, and a page
  -- fault that is not repaired, prints its number and name, the error code, for a page fault the address,
  -- and the place and flags, and halts.
  pub isr_handler_lem :
      (cr2 : ℕ) (handlers : Handlers H) (r : Regs) (s : System D K)
      → r.vector < 2 ^ 64
      → let irq = r.vector - 32 in
        let is_fault = r.vector == 14 in
        isr_handler bus call page_fault cr2 handlers r s ≡ (
          if leb 32 r.vector
          then (if ltb r.vector 48
              then resumed (acknowledge bus irq (handled bus call (handlers irq) irq r s))
              else resumed s)
          else if is_fault && (page_fault r s).0
          then resumed (page_fault r s).1
          else halted
              (printed bus (report_text cr2 r) (if is_fault then (page_fault r s).1 else s)))
  unfolding isr_handler
  isr_handler_lem cr2 handlers r s h = elim (Bool-cases (leb 32 r.vector)) [
    | inl line ↦ rw line (after_line handlers r s h (ground arith))
    | inr exception ↦
        let small : r.vector < 32 = ground arith in
        elim (Bool-cases (r.vector == 14)) [
          | inr other ↦ rw (exception, other) (panic_report_lem bus cr2 r s small)
          | inl fault ↦ elim (Bool-cases ((page_fault r s).0)) [
            | inl fixed ↦ rw (exception, fault, fixed)
            | inr lost ↦
                rw (exception, fault, lost) (panic_report_lem bus cr2 r (page_fault r s).1 small)
          ]
        ]
  ]
