-- ===== src/Vm/Entries.antt =====
-- Page-table entries of src/vm.c: what their bits say, and that the walk without creation only reads.
use god_os.Base.{
  ℕ, ◌+◌, ◌-◌, ◌*◌, ◌/◌, ◌%◌, ◌^◌, ◌≡◌, ◌<◌, refl, ap, ◌∙◌, ◌==◌, if◌then◌else◌, false, ◌&&◌,
  Option, none, some, bit_and, bit_or, arith,
}
use god_os.Base.Bits.{bit_and-mask, bit_and-shift, bit_or-disjoint}
use god_os.Vm.{Vm, addr_mask, index_at, and_then, descend, last_entry, walk_pd, walk_pdpt, vm_walk}

-- The address in an entry, and the table that an entry leads to.
abbrev pub entry_address : ℕ → ℕ
entry_address e = e / 4096 % 2 ^ 40 * 4096

abbrev pub child_of : ℕ → Option ℕ
child_of e = if (e % 2 == 1) && (e / 128 % 2 == 0) then some (entry_address e) else none

pub entry_address_lem : (e : ℕ) → bit_and e addr_mask ≡ entry_address e
entry_address_lem e =
    let down : bit_and e addr_mask ≡ bit_and (e / 2 ^ 12) (2 ^ 40 - 1) * 2 ^ 12 =
      bit_and-shift 12 e (2 ^ 40 - 1) in
    omega (arith, down, bit_and-mask 40 (e / 2 ^ 12))

pub present_lem : (e : ℕ) → bit_and e 1 ≡ e % 2
present_lem e = bit_and-mask 1 e

pub huge_lem : (e : ℕ) → bit_and e (2 ^ 7) ≡ e / 128 % 2 * 128
huge_lem e =
    let down : bit_and e (2 ^ 7) ≡ bit_and (e / 2 ^ 7) 1 * 2 ^ 7 = bit_and-shift 7 e 1 in
    omega (arith, down, bit_and-mask 1 (e / 2 ^ 7))

-- `(pa & VM_ADDR_MASK) | flags` for a page below 1 GB.
pub entry_lem :
    (pa flags : ℕ)
    → pa % 4096 ≡ 0
    → pa < 2 ^ 52
    → flags < 4096
    → bit_or (bit_and pa addr_mask) flags ≡ pa + flags
entry_lem pa flags aligned small low =
    let whole : bit_and pa addr_mask ≡ pa / 4096 * 2 ^ 12 = omega (arith, entry_address_lem pa) in
    ap (λ x. bit_or x flags) whole ∙ bit_or-disjoint 12 (pa / 4096) flags low ∙ omega arith

-- Without creation, one level reads the entry and changes nothing.
descend_reads :
    (table index : ℕ) (s : Vm)
    → descend table index false s ≡ (child_of (s.words (table + 8 * index)), s)
unfolding descend
descend_reads table index s =
    let e = s.words (table + 8 * index) in
    ground (arith, present_lem e, huge_lem e, entry_address_lem e)

abbrev pub chain : Option ℕ → (ℕ → Option ℕ) → Option ℕ
chain none f = none
chain (some a) f = f a

-- The address of the last entry, as the tables give it.
unfoldable pub leaf : (ℕ → ℕ) → ℕ → ℕ → Option ℕ
leaf words space va = chain (child_of (words (space + 8 * index_at va 39))) (λ pdpt.
    chain (child_of (words (pdpt + 8 * index_at va 30))) (λ pd.
      chain (child_of (words (pd + 8 * index_at va 21))) (λ pt. some (pt + 8 * index_at va 12))))

and_then_reads :
    (o : Option ℕ) (s : Vm) (f : ℕ → Vm → Option ℕ × Vm) (g : ℕ → Option ℕ)
    → ((a : ℕ) → f a s ≡ (g a, s))
    → and_then (o, s) f ≡ (chain o g, s)
and_then_reads none s f g h = refl
and_then_reads (some a) s f g h = h a

pub vm_walk_reads :
    (space va : ℕ) (s : Vm)
    → (space == 0) ≡ false
    → vm_walk space va false s ≡ (leaf s.words space va, s)
unfolding vm_walk walk_pdpt walk_pd last_entry leaf
vm_walk_reads space va s h =
    let from_pd : (pd : ℕ)
        → walk_pd va false pd s ≡ (
          chain (child_of (s.words (pd + 8 * index_at va 21)))
              (λ pt. some (pt + 8 * index_at va 12)),
          s,
        ) =
      λ pd.
        ap (λ r. and_then r (last_entry va)) (descend_reads pd (index_at va 21) s)
        ∙ and_then_reads (child_of (s.words (pd + 8 * index_at va 21))) s (last_entry va) _
            (λ pt. refl) in
    let from_pdpt = λ (pdpt : ℕ).
      ap (λ r. and_then r (walk_pd va false)) (descend_reads pdpt (index_at va 30) s)
      ∙ and_then_reads (child_of (s.words (pdpt + 8 * index_at va 30))) s (walk_pd va false) _
          from_pd in
    rw h (
      ap (λ r. and_then r (walk_pdpt va false)) (descend_reads space (index_at va 39) s)
      ∙ and_then_reads (child_of (s.words (space + 8 * index_at va 39))) s (walk_pdpt va false) _
          from_pdpt)
