-- ===== src/Vm/Fault.antt =====
-- Which page faults `vm_handle_page_fault` of src/vm.c takes, and what it puts back.
use god_os.Base.{
  ℕ, ◌+◌, ◌-◌, ◌*◌, ◌/◌, ◌%◌, ◌^◌, ◌≡◌, refl, sym, ap, ◌∙◌, ◌==◌, ltb, leb, if◌then◌else◌, Bool,
  true, false, not, ◌&&◌, bit_and, bit_or, arith, Bool-cases, inl, inr,
}
use mathlib.Core.Path.{subst}
use god_os.Base.Bits.{bit_and-mask, bit_and-shift}
use god_os.Heap.{heap_base, heap_size}
use god_os.Pmm.{alloc_frame}
use god_os.Regs.{Regs}
use god_os.Vm.{Vm, clear_page, not_ours, finish_fault, vm_handle_page_fault, vm_current_space}
use god_os.Vm.Tables.{Keeps, vm_map-Keeps}

-- A fault of a page that is not present, by data and with sound tables, in the heap's 16 MB of
-- addresses, outside of the handler.
abbrev pub ours : ℕ → Vm → Bool
ours err s =
    not s.in_fault
    && (err % 2 == 0)
    && (err / 8 % 2 == 0)
    && (err / 16 % 2 == 0)
    && (leb heap_base s.cr2 && ltb s.cr2 (heap_base + heap_size))

not_ours-ours : (err : ℕ) (s : Vm) → not_ours err s ≡ not (ours err s)
unfolding not_ours
not_ours-ours err s =
    let p : bit_and err 1 ≡ err % 2 = bit_and-mask 1 err in
    let r : bit_and err 8 ≡ bit_and (err / 8) 1 * 8 = bit_and-shift 3 err 1 in
    let i : bit_and err 16 ≡ bit_and (err / 16) 1 * 16 = bit_and-shift 4 err 1 in
    let r' : bit_and (err / 8) 1 ≡ err / 8 % 2 = bit_and-mask 1 (err / 8) in
    let i' : bit_and (err / 16) 1 ≡ err / 16 % 2 = bit_and-mask 1 (err / 16) in
    ground (arith, p, r, i, r', i')

-- What an answer of the handler keeps of the state before it.
pub record Restores (s : Vm) (answer : Bool) (s' : Vm) : Type 0 where
  pub in_fault : s'.in_fault ≡ s.in_fault
  pub space : (s'.cr3 ≡ s.cr3) × (s'.kernel_space ≡ s.kernel_space)
  pub counted : s'.faults ≡ (if answer then (s.faults + 1) % 2 ^ 64 else s.faults)

finish-Restores :
    (s t : Vm) (frame : ℕ) (x : Bool × Vm)
    → s.in_fault ≡ false
    → t.cr3 ≡ s.cr3
    → t.kernel_space ≡ s.kernel_space
    → t.faults ≡ s.faults
    → Keeps t x.1
    → let (answer, s') = finish_fault frame x in Restores s answer s'
unfolding finish_fault
finish-Restores s t frame (false, u) idle a b c k = record {
  in_fault = sym idle;
  space = (k.cr3 ∙ a, k.kernel_space ∙ b);
  counted = k.faults ∙ c;
}
finish-Restores s t frame (true, u) idle a b c k = record {
  in_fault = sym idle;
  space = (k.cr3 ∙ a, k.kernel_space ∙ b);
  counted = ap (λ n. (n + 1) % 2 ^ 64) (k.faults ∙ c);
}

handled-Restores :
    (r : Regs) (s : Vm)
    → not_ours r.error_code s ≡ false
    → let (answer, s') = vm_handle_page_fault r s in Restores s answer s'
unfolding vm_handle_page_fault
handled-Restores r s mine =
    let idle : s.in_fault ≡ false = ground (arith, mine, not_ours-ours r.error_code s) in
    let got = alloc_frame s.pmm in
    elim (Bool-cases (got.0 == 0)) [
      | inl empty ↦
          rw (mine, empty) (record { in_fault = sym idle; space = (refl, refl); counted = refl })
      | inr frame ↦
          let t = record s { pmm = got.1; in_fault = true; words = clear_page got.0 s.words } in
          rw (mine, frame)
            (finish-Restores s t got.0 _ idle refl refl refl (
              vm_map-Keeps (vm_current_space t) (bit_and s.cr2 (2 ^ 64 - 4096)) got.0 (bit_or 1 2)
                t))
    ]

refuse :
    (r : Regs) (s : Vm) → not_ours r.error_code s ≡ true → vm_handle_page_fault r s ≡ (false, s)
unfolding vm_handle_page_fault
refuse r s foreign = rw foreign

-- Whatever fault it is asked about, the handler leaves the guard against its own faults as it was, and the
-- current and the kernel's address space; it counts one fault if it answers that the page is there,
-- and none otherwise. A fault that is not one of a missing page of the heap, or that comes while a fault
-- is handled, is refused and changes nothing.
pub vm_handle_page_fault-Restores :
    (r : Regs) (s : Vm)
    → let (answer, s') = vm_handle_page_fault r s in
      Restores s answer s'
      × (vm_handle_page_fault r s
          ≡ (if ours r.error_code s then vm_handle_page_fault r s else (false, s)))
vm_handle_page_fault-Restores r s = elim (Bool-cases (not_ours r.error_code s)) [
  | inr mine ↦
      let yes' : ours r.error_code s ≡ true = flip (not_ours-ours r.error_code s) mine in
      (handled-Restores r s mine, rw yes')
  | inl foreign ↦
      let no' : ours r.error_code s ≡ false = flip' (not_ours-ours r.error_code s) foreign in
      let refused = refuse r s foreign in
      (
        subst (λ x. Restores s x.0 x.1) (sym refused)
            (record { in_fault = refl; space = (refl, refl); counted = refl }),
        refused ∙ rw no',
      )
]
  where
    flip : {a b : Bool} → a ≡ not b → a ≡ false → b ≡ true
    flip e h = ground arith

    flip' : {a b : Bool} → a ≡ not b → a ≡ true → b ≡ false
    flip' e h = ground arith
