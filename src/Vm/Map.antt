-- ===== src/Vm/Map.antt =====
-- What `vm_map` of src/vm.c does to the address space, as the processor reads it.
use god_os.Base.{
  ℕ, ◌+◌, ◌%◌, ◌≡◌, ◌≢◌, ◌<◌, refl, ap, sym, ◌∙◌, ◌==◌, true, false, Option, none, some, bit_and,
  bit_or, arith, if◌then◌else◌, Bool-cases, inl, inr, ◌∷◌, ==_true,
}
use mathlib.Core.Path.{subst}
use god_os.Base.Bits.{bit_and-mask}
use god_os.Pmm.{max_phys}
use god_os.Vm.{Vm, put_word, vm_walk, map_rejects, map_at, vm_map, addr_mask}
use god_os.Vm.Entries.{entry_lem, present_lem}
use god_os.Vm.Forest.{Roles, IsForest}
use god_os.Vm.Route.{vm_walk-Walks}
use god_os.Vm.Lookup.{if_present, page_of}
use god_os.Vm.Same.{lookup-Grows}
use god_os.Vm.Written.{is_present, Maps, written-Maps, written}

-- The state after the entry at `pte` was written.
abbrev mapped : ℕ → ℕ → ℕ → ℕ → Vm → Vm
mapped va pa flags pte t = record t {
  words = put_word pte (bit_or (bit_and pa addr_mask) flags) t.words;
  flushed = va ∷ t.flushed;
}

-- A mapping that is accepted found an entry that is not present, and wrote it.
map_at-true :
    (va pa flags : ℕ) (x : Option ℕ × Vm)
    → (map_at va pa flags x).0 ≡ true
    → (pte : ℕ) × (x.0 ≡ some pte)
      × (x.1.words pte % 2 ≡ 0)
      × (map_at va pa flags x ≡ (true, mapped va pa flags pte x.1))
unfolding map_at
map_at-true va pa flags (none, t) e = cc
map_at-true va pa flags (some pte, t) e = elim (Bool-cases (bit_and (t.words pte) 1 == 0)) [
  | inl empty ↦ (pte, refl, omega (arith, ==_true _ _ empty, present_lem (t.words pte)), rw empty)
  | inr present ↦ absurd (refused (rw present at e))
]
  where
    refused : false ≢ true
    refused e = cc

pub not_rejected :
    (space va pa : ℕ)
    → map_rejects space va pa ≡ false
    → (pa % 4096 ≡ 0) × (pa < max_phys) × ((space == 0) ≡ false)
unfolding map_rejects
not_rejected space va pa h = ground (arith, bit_and-mask 12 pa)

pub vm_map-true :
    (space va pa flags : ℕ) (s : Vm)
    → (vm_map space va pa flags s).0 ≡ true
    → (map_rejects space va pa ≡ false)
      × (vm_map space va pa flags s ≡ map_at va pa flags (vm_walk space va true s))
unfolding vm_map
vm_map-true space va pa flags s e = elim (Bool-cases (map_rejects space va pa)) [
  | inl bad ↦ absurd (refused (rw bad at e))
  | inr good ↦ (good, rw good)
]
  where
    refused : false ≢ true
    refused e = cc

pub vm_map-Maps :
    {r : Roles} {s : Vm} (space va pa flags : ℕ)
    → IsForest r s
    → r.level space ≡ 4
    → flags < 4096
    → flags % 2 ≡ 1
    → (vm_map space va pa flags s).0 ≡ true
    → (r' : Roles) × Maps r' space va (some (pa + flags)) s (vm_map space va pa flags s).1
vm_map-Maps {r} {s} space va pa flags forest top low odd done =
    let (good, step) = vm_map-true space va pa flags s done in
    let (aligned, small, given) = not_rejected space va pa good in
    let walk = vm_walk space va true s in
    let t = walk.1 in
    let (pte, found, empty, written) =
      map_at-true va pa flags walk (sym (ap (λ y. y.0) step) ∙ done) in
    let (r', w) = vm_walk-Walks space va true forest top given (ap (λ o. (o, t)) found) in
    let top' : r'.level space ≡ 4 = omega (arith, top, w.grows.levels space) in
    let new = bit_or (bit_and pa addr_mask) flags in
    let entry : new ≡ pa + flags = entry_lem pa flags aligned (omega arith) low in
    let odd_new : new % 2 ≡ 1 = omega arith in
    let (looks, forest', top'') = written-Maps w.forest top' w.path new in
    let value : if_present new ≡ some (pa + flags) = is_present new odd_new ∙ ap some entry in
    let before = lookup-Grows forest w.forest w.grows space top in
    (
      r',
      subst (λ x. Maps r' space va (some (pa + flags)) s x) (ap (λ y. y.1) (sym (step ∙ written)))
          (λ va'. looks va' ∙ settle va' value (before va'), forest', top''),
    )
  where
    settle :
        (va' : ℕ) {o o' x x' : Option ℕ}
        → o ≡ o'
        → x ≡ x'
        → (if page_of va' == page_of va then o else x)
          ≡ (if page_of va' == page_of va then o' else x')
    settle va' e e' = rw (e, e')
