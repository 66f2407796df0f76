-- ===== src/Vm/Tables.antt =====
-- What the page-table code of src/vm.c leaves alone, and the pages it clears.
use god_os.Base.{
  ℕ, ◌+◌, ◌-◌, ◌*◌, ◌%◌, ◌^◌, ◌≡◌, refl, ◌∙◌, ◌==◌, ltb, leb, if◌then◌else◌, Bool, true, false,
  ◌&&◌, Option, none, some, bit_and, arith, Bool-cases, inl, inr,
}
use god_os.Base.Loop.{count_to_inv}
use god_os.Pmm.{alloc_frame}
use god_os.Vm.{
  Vm, clear_page, add_table, descend, last_entry, walk_pd, walk_pdpt, vm_walk, map_rejects, map_at,
  vm_map, index_at, and_then,
}

-- The 512 words of the page are 0 and no other word changes.
pub clear_page_lem :
    (pa : ℕ) (words : ℕ → ℕ) (j : ℕ)
    → clear_page pa words j
      ≡ (if leb pa j && (ltb j (pa + 4096) && (j - pa) % 8 == 0) then 0 else words j)
unfolding clear_page
clear_page_lem pa words j =
    count_to_inv
      (λ k (w : ℕ → ℕ).
        (j : ℕ)
        → w j ≡ (if leb pa j && (ltb j (pa + 8 * k) && (j - pa) % 8 == 0) then 0 else words j))
      512 (λ k w lt so_far j. ground (arith, so_far j)) (λ j. ground arith) j

-- What a walk keeps: all but memory and the frame allocator.
pub record Keeps (s s' : Vm) : Type 0 where
  pub cr3 : s'.cr3 ≡ s.cr3
  pub cr2 : s'.cr2 ≡ s.cr2
  pub kernel_space : s'.kernel_space ≡ s.kernel_space
  pub faults : s'.faults ≡ s.faults
  pub in_fault : s'.in_fault ≡ s.in_fault

Keeps-refl : (s : Vm) → Keeps s s
Keeps-refl s = record {
  cr3 = refl;
  cr2 = refl;
  kernel_space = refl;
  faults = refl;
  in_fault = refl;
}

Keeps-trans : {s t u : Vm} → Keeps s t → Keeps t u → Keeps s u
Keeps-trans a b = record {
  cr3 = b.cr3 ∙ a.cr3;
  cr2 = b.cr2 ∙ a.cr2;
  kernel_space = b.kernel_space ∙ a.kernel_space;
  faults = b.faults ∙ a.faults;
  in_fault = b.in_fault ∙ a.in_fault;
}

add_table-Keeps : (slot : ℕ) (s : Vm) → Keeps s (add_table slot s).1
unfolding add_table
add_table-Keeps slot s =
    let got = alloc_frame s.pmm in
    elim (Bool-cases (got.0 == 0)) [
      | inl none_left ↦
          rw none_left
            (record { cr3 = refl; cr2 = refl; kernel_space = refl; faults = refl; in_fault = refl })
      | inr frame ↦
          rw frame
            (record { cr3 = refl; cr2 = refl; kernel_space = refl; faults = refl; in_fault = refl })
    ]

descend-Keeps :
    (table index : ℕ) (create : Bool) (s : Vm) → Keeps s (descend table index create s).1
unfolding descend
descend-Keeps table index create s =
    elim (Bool-cases (bit_and (s.words (table + 8 * index)) 1 == 0)) [
      | inl missing ↦ rw missing (new_table create)
      | inr present ↦ elim (Bool-cases (bit_and (s.words (table + 8 * index)) (2 ^ 7) == 0)) [
        | inl table' ↦ rw (present, table') (Keeps-refl s)
        | inr huge ↦ rw (present, huge) (Keeps-refl s)
      ]
    ]
  where
    new_table :
        (create : Bool) → Keeps s (if create then add_table (table + 8 * index) s else (none, s)).1
    new_table true = add_table-Keeps (table + 8 * index) s
    new_table false = Keeps-refl s

and_then-Keeps :
    {s : Vm} (x : Option ℕ × Vm) (f : ℕ → Vm → Option ℕ × Vm)
    → Keeps s x.1
    → ((a : ℕ) (t : Vm) → Keeps t (f a t).1)
    → Keeps s (and_then x f).1
and_then-Keeps (none, t) f h k = h
and_then-Keeps (some a, t) f h k = Keeps-trans h (k a t)

walk_pd-Keeps : (va : ℕ) (create : Bool) (pd : ℕ) (s : Vm) → Keeps s (walk_pd va create pd s).1
unfolding walk_pd last_entry
walk_pd-Keeps va create pd s =
    and_then-Keeps (descend pd (index_at va 21) create s) (last_entry va)
      (descend-Keeps pd (index_at va 21) create s) (λ pt t. Keeps-refl t)

walk_pdpt-Keeps :
    (va : ℕ) (create : Bool) (pdpt : ℕ) (s : Vm) → Keeps s (walk_pdpt va create pdpt s).1
unfolding walk_pdpt
walk_pdpt-Keeps va create pdpt s =
    and_then-Keeps (descend pdpt (index_at va 30) create s) (walk_pd va create)
      (descend-Keeps pdpt (index_at va 30) create s) (walk_pd-Keeps va create)

vm_walk-Keeps : (space va : ℕ) (create : Bool) (s : Vm) → Keeps s (vm_walk space va create s).1
unfolding vm_walk
vm_walk-Keeps space va create s = elim (Bool-cases (space == 0)) [
  | inl null ↦ rw null (Keeps-refl s)
  | inr given ↦ rw given (
      and_then-Keeps (descend space (index_at va 39) create s) (walk_pdpt va create)
        (descend-Keeps space (index_at va 39) create s) (walk_pdpt-Keeps va create))
]

map_at-Keeps :
    {s : Vm} (va pa flags : ℕ) (x : Option ℕ × Vm) → Keeps s x.1 → Keeps s (map_at va pa flags x).1
unfolding map_at
map_at-Keeps va pa flags (none, t) h = h
map_at-Keeps va pa flags (some pte, t) h = elim (Bool-cases (bit_and (t.words pte) 1 == 0)) [
  | inl empty ↦ rw empty (record {
    cr3 = h.cr3;
    cr2 = h.cr2;
    kernel_space = h.kernel_space;
    faults = h.faults;
    in_fault = h.in_fault;
  })
  | inr present ↦ rw present h
]

pub vm_map-Keeps : (space va pa flags : ℕ) (s : Vm) → Keeps s (vm_map space va pa flags s).1
unfolding vm_map
vm_map-Keeps space va pa flags s = elim (Bool-cases (map_rejects space va pa)) [
  | inl bad ↦ rw bad (Keeps-refl s)
  | inr good ↦
      rw good (map_at-Keeps va pa flags (vm_walk space va true s) (vm_walk-Keeps space va true s))
]
