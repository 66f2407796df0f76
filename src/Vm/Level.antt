-- ===== src/Vm/Level.antt =====
-- One level of the walk of src/vm.c keeps the shape of the page tables.
use god_os.Base.{
  ℕ, ◌+◌, ◌*◌, ◌%◌, ◌≡◌, ◌<◌, ◌≤◌, ap, sym, ◌∙◌, ◌==◌, if◌then◌else◌, Bool, true, false, Option,
  none, some, bit_and, bit_or, arith, Bool-cases, inl, inr, ==_refl,
}
use god_os.Pmm.{frame_count, Pmm, alloc_frame}
use god_os.Pmm.Alloc.{alloc_frame-Handed}
use god_os.Vm.{Vm, add_table, descend, addr_mask}
use god_os.Vm.Entries.{child_of, entry_address_lem, present_lem, huge_lem}
use mathlib.Core.Path.{subst}
use god_os.Vm.Forest.{Roles, IsForest, Grows-refl, Descends}
use god_os.Vm.Grow.{new_words, table_entry, none-some, some_inj, grown_roles, grown, grown-Descends}

descend-present :
    (t i : ℕ) (create : Bool) (s : Vm)
    → (s.words (t + 8 * i) % 2 == 0) ≡ false
    → descend t i create s ≡ (child_of (s.words (t + 8 * i)), s)
unfolding descend
descend-present t i create s h =
    let e = s.words (t + 8 * i) in ground (arith, present_lem e, huge_lem e, entry_address_lem e)

descend-missing :
    (t i : ℕ) (create : Bool) (s : Vm)
    → (s.words (t + 8 * i) % 2 == 0) ≡ true
    → descend t i create s ≡ (if create then add_table (t + 8 * i) s else (none, s))
unfolding descend
descend-missing t i create s h =
    let missing : (bit_and (s.words (t + 8 * i)) 1 == 0) ≡ true =
      ground (arith, present_lem (s.words (t + 8 * i))) in
    rw missing

-- Without a free frame there is no new table.
add_table-none : (slot : ℕ) (s : Vm) → (alloc_frame s.pmm).0 ≡ 0 → (add_table slot s).0 ≡ none
unfolding add_table
add_table-none slot s h =
    let failed : ((alloc_frame s.pmm).0 == 0) ≡ true = ground arith in rw failed

add_table-some :
    (slot f : ℕ) (s : Vm) (pmm : Pmm)
    → alloc_frame s.pmm ≡ (f * 4096, pmm)
    → 0 < f
    → f < frame_count
    → add_table slot s
      ≡ (some (f * 4096), record s { words = new_words slot (f * 4096) s.words; pmm = pmm })
unfolding add_table new_words
add_table-some slot f s pmm got pos small =
    let made : (f * 4096 == 0) ≡ false = ground arith in
    let entry : bit_or (bit_or (bit_and (f * 4096) addr_mask) 1) 2 ≡ f * 4096 + 3 =
      table_entry (f * 4096) (omega arith) (omega arith) in
    let self : (slot == slot) ≡ true = ==_refl slot in
    let address : bit_and (f * 4096 + 3) addr_mask ≡ f * 4096 =
      omega (arith, entry_address_lem (f * 4096 + 3)) in
    rw (got, made, entry, self, address)

relocate :
    {r : Roles} {s : Vm} {t i : ℕ} {r' : Roles} (c0 : ℕ) (s0 : Vm) (c : ℕ) (s' : Vm)
    → ◌≡◌ {A = Option ℕ × Vm} (some c0, s0) (some c, s')
    → Descends r s t i r' c0 s0
    → Descends r s t i r' c s'
relocate {r} {s} {t} {i} {r'} c0 s0 c s' e d =
    subst (λ x. Descends r s t i r' c x) (ap (λ y. y.1) e)
      (subst (λ x. Descends r s t i r' x s0) (some_inj (ap (λ y. y.0) e)) d)

-- One level of the walk, with or without creation, from a table above the last level.
pub descend-Descends :
    {r : Roles} {s : Vm} (t i : ℕ) (create : Bool) {c : ℕ} {s' : Vm}
    → IsForest r s
    → i < 512
    → 2 ≤ r.level t
    → descend t i create s ≡ (some c, s')
    → (r' : Roles) × Descends r s t i r' c s'
descend-Descends {r} {s} t i create {c} {s'} forest hi lt e =
    let word = s.words (t + 8 * i) in
    elim (Bool-cases (word % 2 == 0)) [
      | inr present ↦
          let here = sym (descend-present t i create s present) ∙ e in
          let entry = ap (λ y. y.0) here in
          let (level, key) = forest.child t i c lt hi entry in
          (
            r,
            relocate c s c s' (ap (λ o. (o, s)) (sym entry) ∙ here) (record {
              forest = forest;
              grows = Grows-refl r s;
              entry = entry;
              level = level;
              key = key;
            }),
          )
      | inl missing ↦ make create missing e
    ]
  where
    vacant : (w : ℕ) → (w % 2 == 0) ≡ true → child_of w ≡ none
    vacant w h = let even : (w % 2 == 1) ≡ false = ground arith in rw even

    make :
        (create : Bool)
        → (s.words (t + 8 * i) % 2 == 0) ≡ true
        → descend t i create s ≡ (some c, s')
        → (r' : Roles) × Descends r s t i r' c s'
    make false missing e =
        absurd (none-some (ap (λ y. y.0) (sym (descend-missing t i false s missing) ∙ e)))
    make true missing e =
        let made = sym (descend-missing t i true s missing) ∙ e in
        elim (alloc_frame-Handed s.pmm forest.allocator) [
          | inl (zero_address, _, _, _) ↦
              absurd
                (none-some (sym (add_table-none (t + 8 * i) s zero_address) ∙ ap (λ y. y.0) made))
          | inr (f, address, nonzero, lowest) ↦
              let pmm = (alloc_frame s.pmm).1 in
              let got : alloc_frame s.pmm ≡ (f * 4096, pmm) = ap (λ a. (a, pmm)) address in
              let table = add_table-some (t + 8 * i) f s pmm got (omega arith) lowest.small in
              (
                grown_roles forest t i f hi lt pmm lowest,
                relocate (f * 4096) (grown forest t i f hi lt pmm lowest) c s' (sym table ∙ made) (
                    grown-Descends forest t i f hi lt pmm lowest
                      (vacant (s.words (t + 8 * i)) missing)),
              )
        ]
