-- ===== src/Vm/Serves.antt =====
-- What a page fault that `vm_handle_page_fault` of src/vm.c serves leaves in the tables.
use god_os.Base.{
  if◌then◌else◌, Option, ℕ, ◌+◌, ◌-◌, ◌*◌, ◌/◌, ◌%◌, ◌^◌, ◌≡◌, ◌≢◌, ◌<◌, refl, ap, sym, ◌∙◌, ◌==◌,
  Bool, true, false, some, bit_and, arith, Bool-cases, inl, inr,
}
use mathlib.Core.Path.{subst}
use god_os.Base.Bits.{bit_and-mask, bit_and-shift}
use god_os.Vm.{Vm, vm_map}
use god_os.Vm.Entries.{child_of}
use god_os.Vm.Forest.{Roles, IsForest, Grows}
use god_os.Vm.Lookup.{page_of}
use god_os.Vm.Same.{lookup-Grows}
use god_os.Vm.Written.{Maps}
use god_os.Regs.{Regs}
use god_os.Pmm.{Pmm, alloc_frame}
use god_os.Pmm.Bitmap.{is_used}
use god_os.Pmm.Alloc.{alloc_frame-Handed, Lowest}
use god_os.Vm.{clear_page, vm_current_space, not_ours, finish_fault, vm_handle_page_fault}
use god_os.Vm.Tables.{clear_page_lem}
use god_os.Vm.Map.{vm_map-Maps}

-- The state in which the handler maps the page: the frame is taken and 0.
module _ {r : Roles} {s : Vm} (forest : IsForest r s) (f : ℕ) (pmm : Pmm)
    (lowest : Lowest s.pmm f pmm) where
  abbrev started : Vm
  started = record s { words = clear_page (f * 4096) s.words; pmm = pmm; in_fault = true }

  started_word :
      (p j : ℕ) → 0 < r.level p → j < 512 → started.words (p + 8 * j) ≡ s.words (p + 8 * j)
  started_word p j h hj =
      let aligned = forest.aligned p h in
      let away : p ≢ f * 4096 =
        λ e. absurd (omega (arith, forest.spare f lowest.was_free, ap r.level e)) in
      ground (arith, clear_page_lem (f * 4096) s.words (p + 8 * j))

  started-IsForest : IsForest r started
  started-IsForest = record {
    allocator = lowest.valid;
    aligned = forest.aligned;
    spare = λ g free. forest.spare g (was_free g free);
    child = λ p j c h hj e.
        forest.child p j c h hj (sym (ap child_of (started_word p j (omega arith) hj)) ∙ e);
  }
    where
      true-false : true ≢ false
      true-false e = cc

      was_free : (g : ℕ) → is_used pmm.bitmap g ≡ false → is_used s.pmm.bitmap g ≡ false
      was_free g free = elim (Bool-cases (g == f)) [
        | inl taken ↦ absurd (true-false (sym (lowest.takes g ∙ rw taken) ∙ free))
        | inr other ↦ sym (lowest.takes g ∙ rw other) ∙ free
      ]

  started-Grows : Grows r s r started
  started-Grows = record {
    levels = λ p h. (refl, refl);
    entries = λ p i c h hi e. ap child_of (started_word p i (omega arith) hi) ∙ e;
    pages = λ p i h hi. started_word p i (omega arith) hi;
    back = λ p i c h hi e. inl (h, sym (ap child_of (started_word p i (omega arith) hi)) ∙ e);
    fresh = λ p i h none hi. absurd (omega arith);
  }

-- The handler maps the page of the address.
page_of-page : (va : ℕ) → page_of (bit_and va (2 ^ 64 - 4096)) ≡ page_of va
page_of-page va =
    let page : bit_and va (2 ^ 64 - 4096) ≡ va / 2 ^ 12 % 2 ^ 52 * 2 ^ 12 =
      bit_and-shift 12 va (2 ^ 52 - 1) ∙ ap (λ x. x * 2 ^ 12) (bit_and-mask 52 (va / 2 ^ 12)) in
    omega (arith, page)

handled :
    (regs : Regs) (s : Vm)
    → (vm_handle_page_fault regs s).0 ≡ true
    → let got = alloc_frame s.pmm in
      let t = record s { words = clear_page got.0 s.words; pmm = got.1; in_fault = true } in
      (got.0 ≢ 0)
      × (vm_handle_page_fault regs s
          ≡ finish_fault got.0
              (vm_map (vm_current_space s) (bit_and s.cr2 (2 ^ 64 - 4096)) got.0 3 t))
unfolding vm_handle_page_fault vm_current_space
handled regs s done = elim (Bool-cases (not_ours regs.error_code s)) [
  | inl foreign ↦ absurd (false_true (rw foreign at done))
  | inr mine ↦
      let got = alloc_frame s.pmm in
      elim (Bool-cases (got.0 == 0)) [
        | inl empty ↦ absurd (false_true (rw (mine, empty) at done))
        | inr frame ↦ (ground arith, rw (mine, frame))
      ]
]
  where
    false_true : false ≢ true
    false_true e = cc

finished :
    (frame : ℕ) (x : Bool × Vm)
    → (finish_fault frame x).0 ≡ true
    → (x.0 ≡ true)
      × ((finish_fault frame x).1
          ≡ record x.1 { faults = (x.1.faults + 1) % 2 ^ 64; in_fault = false })
unfolding finish_fault
finished frame (true, s) h = (refl, refl)
finished frame (false, s) h = cc

pub vm_handle_page_fault-Maps :
    {r : Roles} {s : Vm} (regs : Regs)
    → IsForest r s
    → r.level (vm_current_space s) ≡ 4
    → (vm_handle_page_fault regs s).0 ≡ true
    → (frame : ℕ) × (is_used s.pmm.bitmap frame ≡ false)
      × ((r' : Roles) × Maps r'
            (vm_current_space s)
            s.cr2
            (some (frame * 4096 + 3))
            s
            (vm_handle_page_fault regs s).1)
vm_handle_page_fault-Maps {r} {s} regs forest top done =
    let space = vm_current_space s in
    let page = bit_and s.cr2 (2 ^ 64 - 4096) in
    let (nonzero, step) = handled regs s done in
    let pmm = (alloc_frame s.pmm).1 in
    elim (alloc_frame-Handed s.pmm forest.allocator) [
      | inl (zero_address, _, _, _) ↦ absurd (nonzero zero_address)
      | inr (f, address, _, lowest) ↦
          let t = started forest f pmm lowest in
          let step' =
            step
            ∙ ap
                (λ a. finish_fault a (
                  vm_map space page a 3
                    (record s { words = clear_page a s.words; pmm = pmm; in_fault = true })))
                address in
          let (mapped, final) =
            finished (f * 4096) (vm_map space page (f * 4096) 3 t)
              (sym (ap (λ y. y.0) step') ∙ done) in
          let begun = started-IsForest forest f pmm lowest in
          let (r', (looks, kept, top')) =
            vm_map-Maps space page (f * 4096) 3 begun top (omega arith) (omega arith) mapped in
          let before = lookup-Grows forest begun (started-Grows forest f pmm lowest) space top in
          (
            f,
            lowest.was_free,
            (
              r',
              subst (λ x. Maps r' space s.cr2 (some (f * 4096 + 3)) s x)
                  (sym (ap (λ y. y.1) step' ∙ final))
                  (λ va'. looks va' ∙ settle va' _ (before va'), idle kept, top'),
            ),
          )
    ]
  where
    settle :
        (va' : ℕ) {x x' : Option ℕ} (o : Option ℕ)
        → x ≡ x'
        → (if page_of va' == page_of (bit_and s.cr2 (2 ^ 64 - 4096)) then o else x)
          ≡ (if page_of va' == page_of s.cr2 then o else x')
    settle va' o e = rw (page_of-page s.cr2, e)

    idle :
        {r' : Roles} {u : Vm}
        → IsForest r' u
        → IsForest r' (record u { faults = (u.faults + 1) % 2 ^ 64; in_fault = false })
    idle kept = record {
      allocator = kept.allocator;
      aligned = kept.aligned;
      spare = kept.spare;
      child = kept.child;
    }
