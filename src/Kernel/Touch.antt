-- ===== src/Kernel/Touch.antt =====
-- The first write of `heap_init` of src/heap.c, which src/kernel.c makes with the heap's page not there: the
-- page fault that it raises.
use god_os.Base.{
  ℕ, suc, ◌+◌, ◌-◌, ◌*◌, ◌%◌, ◌^◌, ◌≡◌, ◌<◌, ◌≤◌, refl, sym, ap, ◌∙◌, ◌==◌, ltb, not, ◌||◌, ◌&&◌,
  if◌then◌else◌, Bool, true, false, some, bit_and, arith, Bool-cases, inl, inr, ◌⊎◌,
}
use god_os.Io.{Bus}
use god_os.Regs.{Regs}
use god_os.Heap.{heap_base}
use god_os.Pmm.{Pmm, align_up_4k, low_reserved}
use god_os.Pmm.Bitmap.{is_used}
use god_os.Pmm.Init.{reserved}
use god_os.Pmm.Ranges.{align_up_lem}
use god_os.Vm.{Vm, index_at, vm_current_space, vm_handle_page_fault}
use god_os.Vm.Entries.{child_of}
use god_os.Vm.Forest.{Roles, IsForest}
use god_os.Vm.Lookup.{lookup, some-lookup}
use god_os.Vm.Fault.{vm_handle_page_fault-Restores}
use god_os.Vm.Serves.{vm_handle_page_fault-Maps}
use god_os.Irq.{System}
use god_os.Idt.{resumed, halted as stopped}
use god_os.Idt.Handler.{printed, report_text, isr_handler_lem}
use god_os.Boot.{Machine}
use god_os.Boot.Ready.{Ready}
use god_os.Kernel.{
  Kernel, Started, up, halted, call, page_fault, interrupt, reaches, write_fault, with_vm, touch,
}

-- What a lookup finds the processor reaches.
lookup-reaches :
    (words : ℕ → ℕ) (space va e : ℕ)
    → lookup words space va ≡ some e
    → reaches words space va ≡ true
unfolding reaches
lookup-reaches words space va e found =
    let (pte, path, odd, is) = some-lookup found in
    let last : words (path.pt + 8 * index_at va 12) % 2 ≡ 1 =
      ap (λ a. words a % 2) (sym path.last) ∙ odd in
    rw (path.to_pdpt, path.to_pd, path.to_pt, reaches) (either _ _ _ last)
  where
    either : (a b : Bool) (w : ℕ) → w % 2 ≡ 1 → (a || (b || (w % 2 == 1))) ≡ true
    either a b w h = ground arith

-- The tables that the boot code leaves: a PML4 in CR3, each table with one place, and all of them pages of
-- the kernel's image or below it.
pub record HasTables (r : Roles) (bss_end : ℕ) (vm : Vm) : Type 0 where
  pub top : r.level (bit_and vm.cr3 0x000FFFFFFFFFF000) ≡ 4
  pub aligned : (p : ℕ) → 0 < r.level p → p % 4096 ≡ 0
  pub below : (p : ℕ) → 0 < r.level p → (p < bss_end) × (p < 2 ^ 30)
  pub child :
      (p i c : ℕ)
      → 2 ≤ r.level p
      → i < 512
      → child_of (vm.words (p + 8 * i)) ≡ some c
      → (r.level c + 1 ≡ r.level p) × (r.key c ≡ r.key p * 512 + i)

-- A frame of the image, or below it, is kept back.
frame-reserved :
    (bss_end f : ℕ) (pmm : Pmm)
    → bss_end + 4095 < 2 ^ 64
    → f * 4096 < bss_end
    → reserved bss_end pmm f ≡ true
frame-reserved bss_end f pmm image h =
    let up = align_up_lem bss_end image in kept (align_up_4k bss_end) f _ (omega (arith, up))
  where
    kept :
        (top f : ℕ) (b : Bool)
        → f * 4096 < top
        → ((not (low_reserved == 0)
              && (ltb 0 (f * 4096 + 4096) && ltb (f * 4096) (0 + low_reserved)))
            || ((ltb low_reserved top
                  && (not (top - low_reserved == 0)
                      && (ltb low_reserved (f * 4096 + 4096)
                          && ltb (f * 4096) (low_reserved + (top - low_reserved)))))
                || b))
          ≡ true
    kept top f b h = ground arith

-- The shape of the tables after `pmm_init`.
pub Ready-IsForest :
    {D : Type 0} {r : Roles} {bss_end mb_info : ℕ} {bytes : ℕ → ℕ} {registers : ℕ × ℕ × ℕ × Bool}
    {vm : Vm} {m : Machine D} (a : ℕ)
    → bss_end + 4095 < 2 ^ 64
    → HasTables r bss_end vm
    → Ready bss_end mb_info bytes registers vm.words m
    → IsForest r (record (m.vm) { cr2 = a })
Ready-IsForest {r = r} {bss_end = bss_end} {m = m} a image tables ready = record {
  allocator = ready.allocator;
  aligned = tables.aligned;
  spare = λ f free. spare f free;
  child = λ p i c h hi e. tables.child p i c h hi (ready.children (p + 8 * i) c e);
}
  where
    true-false : {b : Bool} → b ≡ true → b ≡ false → ⊥
    true-false e e' = cc

    spare : (f : ℕ) → is_used m.vm.pmm.bitmap f ≡ false → r.level (f * 4096) ≡ 0
    spare f free = elim (Bool-cases (r.level (f * 4096) == 0)) [
      | inl no_table ↦ ground arith
      | inr table ↦
          let (image_page, low) = tables.below (f * 4096) (ground arith) in
          absurd (
            true-false (frame-reserved bss_end f m.vm.pmm image image_page)
              (ready.free_spared f (omega arith) free))
    ]

-- The tables are as they were, or the handler has served a page fault at the start of the heap.
abbrev pub Paged : Regs → Vm → Vm → Type 0
Paged place v v' =
    (v' ≡ v)
    ⊎ (((vm_handle_page_fault (write_fault place) (record v { cr2 = heap_base })).0 ≡ true)
        × (v' ≡ (vm_handle_page_fault (write_fault place) (record v { cr2 = heap_base })).1))

touch-there :
    {D : Type 0} (bus : Bus D) (place : Regs) (s : System D Kernel) (n : ℕ)
    → reaches s.kernel.vm.words (vm_current_space s.kernel.vm) heap_base ≡ true
    → touch bus (suc n) place s ≡ up s
unfolding touch
touch-there bus place s n e = rw (e, touch)

module _ {D : Type 0} (bus : Bus D) (place : Regs) (s : System D Kernel) where
  -- The write is done, with the page there, or the machine halts in the report of the fault.
  abbrev pub Touched : Started (System D Kernel) → Type 0
  Touched out =
      ((s' : System D Kernel) × (out ≡ halted s'))
      ⊎ ((v : Vm) × (out ≡ up (with_vm v s))
          × Paged place s.kernel.vm v
          × (reaches v.words (vm_current_space v) heap_base ≡ true))

  abbrev absent : System D Kernel
  absent = with_vm (record (s.kernel.vm) { cr2 = heap_base }) s

  touch-resumed :
      (n : ℕ) (s' : System D Kernel)
      → reaches s.kernel.vm.words (vm_current_space s.kernel.vm) heap_base ≡ false
      → interrupt bus (write_fault place) absent ≡ resumed s'
      → touch bus (suc n) place s ≡ touch bus n place s'
  unfolding touch
  touch-resumed n s' e e' = rw (e, e', touch)

  touch-stopped :
      (n : ℕ) (s' : System D Kernel)
      → reaches s.kernel.vm.words (vm_current_space s.kernel.vm) heap_base ≡ false
      → interrupt bus (write_fault place) absent ≡ stopped s'
      → touch bus (suc n) place s ≡ halted s'
  unfolding touch
  touch-stopped n s' e e' = rw (e, e', touch)

  -- The answer of the entry to the fault.
  interrupt-fault :
      (b : Bool)
      → (vm_handle_page_fault (write_fault place) absent.kernel.vm).0 ≡ b
      → interrupt bus (write_fault place) absent ≡ (
          if b
          then resumed (with_vm (vm_handle_page_fault (write_fault place) absent.kernel.vm).1 s)
          else stopped (
              printed bus
                (report_text heap_base (write_fault place))
                (with_vm (vm_handle_page_fault (write_fault place) absent.kernel.vm).1 s)))
  unfolding interrupt page_fault
  interrupt-fault b is =
      isr_handler_lem bus (call bus) page_fault heap_base s.kernel.handlers (write_fault place)
        absent (omega arith)
      ∙ ap
          (λ c.
            if c
            then resumed (with_vm (vm_handle_page_fault (write_fault place) absent.kernel.vm).1 s)
            else stopped (
                printed bus (report_text heap_base (write_fault place))
                  (with_vm (vm_handle_page_fault (write_fault place) absent.kernel.vm).1 s)))
          is

  -- The page of a fault that was served is there.
  served-reaches :
      {r : Roles}
      → IsForest r absent.kernel.vm
      → r.level (vm_current_space absent.kernel.vm) ≡ 4
      → (vm_handle_page_fault (write_fault place) absent.kernel.vm).0 ≡ true
      → let v = (vm_handle_page_fault (write_fault place) absent.kernel.vm).1 in
        reaches v.words (vm_current_space v) heap_base ≡ true
  unfolding vm_current_space
  served-reaches forest top served =
      let v = (vm_handle_page_fault (write_fault place) absent.kernel.vm).1 in
      let (frame, free, (r', (looks, _, _))) =
        vm_handle_page_fault-Maps (write_fault place) forest top served in
      let restores = vm_handle_page_fault-Restores (write_fault place) absent.kernel.vm in
      let space = ap (λ c. bit_and c 0x000FFFFFFFFFF000) restores.0.space.0 in
      lookup-reaches v.words (bit_and v.cr3 0x000FFFFFFFFFF000) heap_base (frame * 4096 + 3)
        (ap (λ c. lookup v.words c heap_base) space ∙ looks heap_base)

  pub touch-Touched :
      {r : Roles}
      → IsForest r absent.kernel.vm
      → r.level (vm_current_space absent.kernel.vm) ≡ 4
      → Touched (touch bus 2 place s)
  touch-Touched forest top =
      elim (Bool-cases (reaches s.kernel.vm.words (vm_current_space s.kernel.vm) heap_base)) [
        | inl there ↦ inr (s.kernel.vm, touch-there bus place s 1 there, inl refl, there)
        | inr missing ↦
            let served = (vm_handle_page_fault (write_fault place) absent.kernel.vm).0 in
            let v = (vm_handle_page_fault (write_fault place) absent.kernel.vm).1 in
            elim (Bool-cases served) [
              | inr refused ↦ inl (_, touch-stopped 1 _ missing (interrupt-fault false refused))
              | inl fixed ↦
                  let there = served-reaches forest top fixed in
                  inr (
                    v,
                    touch-resumed 1 (with_vm v s) missing (interrupt-fault true fixed)
                        ∙ touch-there bus place (with_vm v s) 0 there,
                    inr (fixed, refl),
                    there,
                  )
            ]
      ]
