-- ===== src/Vm/Grow.antt =====
-- A new table of src/vm.c keeps the shape of the page tables.
use god_os.Base.{
  ℕ, ◌+◌, ◌-◌, ◌*◌, ◌/◌, ◌%◌, ◌^◌, ◌≡◌, ◌≢◌, ◌<◌, ◌≤◌, refl, ap, sym, ◌∙◌, ◌==◌, ltb, leb,
  if◌then◌else◌, true, false, ◌&&◌, none, some, bit_and, bit_or, arith, Bool-cases, inl, inr, ◌⊎◌,
  ==_ne, ==_true, ==_refl,
}
use god_os.Pmm.{frame_count, Pmm}
use god_os.Pmm.Bitmap.{is_used}
use god_os.Pmm.Alloc.{Lowest}
use god_os.Vm.{Vm, put_word, clear_page, addr_mask}
use god_os.Vm.Tables.{clear_page_lem}
use god_os.Vm.Entries.{child_of, entry_address, entry_lem}
use god_os.Base.Bits.{bit_or-shift, bit_or-disjoint}
use god_os.Vm.Forest.{Roles, IsForest, Grows, Descends, slot_ne}

-- The new words after `add_table`, on entries of tables: the new page is 0, the slot leads to it, and
-- all else is as before.
unfoldable pub new_words : (slot pa : ℕ) (words : ℕ → ℕ) → ℕ → ℕ
new_words slot pa words = put_word slot (pa + 3) (clear_page pa words)

module _ (words : ℕ → ℕ) (t i pa : ℕ) (ht : t % 4096 ≡ 0) (hpa : pa % 4096 ≡ 0) (hi : i < 512)
    (ne : t ≢ pa) where
  new_words-fresh : (j : ℕ) → j < 512 → new_words (t + 8 * i) pa words (pa + 8 * j) ≡ 0
  unfolding new_words
  new_words-fresh j hj = ground (arith, clear_page_lem pa words (pa + 8 * j))

  new_words-slot : new_words (t + 8 * i) pa words (t + 8 * i) ≡ pa + 3
  unfolding new_words
  new_words-slot = ground arith

  new_words-other :
      (p j : ℕ)
      → p % 4096 ≡ 0
      → j < 512
      → p ≢ pa
      → ((p ≢ t) ⊎ (j ≢ i))
      → new_words (t + 8 * i) pa words (p + 8 * j) ≡ words (p + 8 * j)
  unfolding new_words
  new_words-other p j hp hj away other =
      let apart = slot_ne p j t i hp ht hj hi other in
      let outside : (leb pa (p + 8 * j)
            && (ltb (p + 8 * j) (pa + 4096) && (p + 8 * j - pa) % 8 == 0))
          ≡ false =
        ground arith in
      ground (arith, clear_page_lem pa words (p + 8 * j), outside)

-- `(pa & VM_ADDR_MASK) | VM_PTE_PRESENT | VM_PTE_WRITE`
pub table_entry :
    (pa : ℕ) → pa % 4096 ≡ 0 → pa < 2 ^ 30 → bit_or (bit_or (bit_and pa addr_mask) 1) 2 ≡ pa + 3
table_entry pa aligned small =
    let one : bit_or (bit_and pa addr_mask) 1 ≡ pa / 2 * 2 ^ 1 + 1 =
      entry_lem pa 1 aligned (omega arith) (omega arith) ∙ omega arith in
    let two : bit_or (pa / 2 * 2 ^ 1 + 1) (1 * 2 ^ 1) ≡ bit_or (pa / 2) 1 * 2 ^ 1 + 1 =
      bit_or-shift 1 (pa / 2) 1 1 (omega arith) in
    let half : bit_or (pa / 2) 1 ≡ pa / 4 * 2 ^ 1 + 1 =
      ap (λ x. bit_or x 1) (omega arith) ∙ bit_or-disjoint 1 (pa / 4) 1 (omega arith) in
    ap (λ x. bit_or x 2) one ∙ omega (arith, two, half)

entry_cases : (p t j i : ℕ) → ((p ≡ t) × (j ≡ i)) ⊎ ((p ≢ t) ⊎ (j ≢ i))
entry_cases p t j i = elim (Bool-cases (p == t)) [
  | inr differ ↦ inr (inl (ground arith))
  | inl same ↦ elim (Bool-cases (j == i)) [
    | inr differ ↦ inr (inr (ground arith))
    | inl same' ↦ inl (==_true p t same, ==_true j i same')
  ]
]

pub none-some : {c : ℕ} → none ≢ some c
none-some e = cc

pub some_inj : {a b : ℕ} → some a ≡ some b → a ≡ b
some_inj e = cc

true-false : true ≢ false
true-false e = cc

-- The roles with the page `pa` as a table of level `l` for the key `k`.
abbrev with_table : Roles → ℕ → ℕ → ℕ → Roles
with_table r pa l k = record {
  level = λ p. if p == pa then l else r.level p;
  key = λ p. if p == pa then k else r.key p;
}

module _ {r : Roles} {s : Vm} (forest : IsForest r s) (t i f : ℕ) (hi : i < 512)
    (lt : 2 ≤ r.level t) (pmm : Pmm) (lowest : Lowest s.pmm f pmm) where
  -- The state after the new table.
  abbrev pub grown : Vm
  grown = record s { words = new_words (t + 8 * i) (f * 4096) s.words; pmm = pmm }

  abbrev pub grown_roles : Roles
  grown_roles = with_table r (f * 4096) (r.level t - 1) (r.key t * 512 + i)

  unused : r.level (f * 4096) ≡ 0
  unused = forest.spare f lowest.was_free

  away : (p : ℕ) → 0 < r.level p → p ≢ f * 4096
  away p h e = absurd (omega (arith, unused, ap r.level e))

  slot_child : child_of (new_words (t + 8 * i) (f * 4096) s.words (t + 8 * i)) ≡ some (f * 4096)
  slot_child =
      let entry =
        new_words-slot s.words t i (f * 4096) (forest.aligned t (omega arith)) (omega arith) hi
          (away t (omega arith)) in
      ap child_of entry ∙ leads f lowest.small
    where
      leads : (f : ℕ) → f < frame_count → child_of (f * 4096 + 3) ≡ some (f * 4096)
      leads f small =
          let present : (f * 4096 + 3) % 2 ≡ 1 = omega arith in
          let small_page : (f * 4096 + 3) / 128 % 2 ≡ 0 = omega arith in
          let address : entry_address (f * 4096 + 3) ≡ f * 4096 = omega arith in
          rw (present, small_page, address)

  -- Every other entry of a table is as before.
  old_word :
      (p j : ℕ)
      → 0 < r.level p
      → j < 512
      → ((p ≢ t) ⊎ (j ≢ i))
      → new_words (t + 8 * i) (f * 4096) s.words (p + 8 * j) ≡ s.words (p + 8 * j)
  old_word p j h hj other =
      new_words-other s.words t i (f * 4096) (forest.aligned t (omega arith)) (omega arith) hi
        (away t (omega arith)) p j (forest.aligned p h) hj (away p h) other

  fresh_word : (j : ℕ) → j < 512 → new_words (t + 8 * i) (f * 4096) s.words (f * 4096 + 8 * j) ≡ 0
  fresh_word j hj =
      new_words-fresh s.words t i (f * 4096) (forest.aligned t (omega arith)) (omega arith) hi
        (away t (omega arith)) j hj

  grown-child :
      (p j c : ℕ)
      → 2 ≤ grown_roles.level p
      → j < 512
      → child_of (grown.words (p + 8 * j)) ≡ some c
      → (grown_roles.level c + 1 ≡ grown_roles.level p)
        × (grown_roles.key c ≡ grown_roles.key p * 512 + j)
  grown-child p j c h hj e = elim (Bool-cases (p == f * 4096)) [
    | inl fresh ↦ absurd (no_child j hj p (==_true p (f * 4096) fresh) e)
    | inr old ↦
        let above : 2 ≤ r.level p = ground arith in
        elim (entry_cases p t j i) [
          | inl (same_page, same_index) ↦
              let there : c ≡ f * 4096 = some_inj (
                sym e
                ∙ ap child_of (ap grown.words (omega (arith, same_page, same_index)))
                ∙ slot_child) in
              let fresh : (c == f * 4096) ≡ true = ground arith in
              rw (old, fresh)
                (omega (arith, ap r.level same_page), omega (arith, ap r.key same_page))
          | inr apart ↦
              let (level, key) =
                forest.child p j c above hj
                  (sym (ap child_of (old_word p j (omega arith) hj apart)) ∙ e) in
              let known : (c == f * 4096) ≡ false = ==_ne c (f * 4096) (away c (omega arith)) in
              rw (old, known) (level, key)
        ]
  ]
    where
      no_child :
          (j : ℕ) → j < 512 → (p : ℕ) → p ≡ f * 4096 → child_of (grown.words (p + 8 * j)) ≢ some c
      no_child j hj p same e =
          none-some
            (sym (ap child_of (ap (λ q. grown.words (q + 8 * j)) same ∙ fresh_word j hj)) ∙ e)

  grown-IsForest : IsForest grown_roles grown
  grown-IsForest = record {
    allocator = lowest.valid;
    aligned = λ p h. elim (Bool-cases (p == f * 4096)) [
      | inl fresh ↦ omega (arith, ==_true p (f * 4096) fresh)
      | inr old ↦ forest.aligned p (ground arith)
    ];
    spare = λ g free. spare g free;
    child = grown-child;
  }
    where
      spare : (g : ℕ) → is_used pmm.bitmap g ≡ false → grown_roles.level (g * 4096) ≡ 0
      spare g free = elim (Bool-cases (g == f)) [
        | inl taken ↦ absurd (true-false (sym (lowest.takes g ∙ rw taken) ∙ free))
        | inr other ↦
            let apart : (g * 4096 == f * 4096) ≡ false = ground arith in
            rw apart (forest.spare g (sym (lowest.takes g ∙ rw other) ∙ free))
      ]

  -- An entry that leads on is an old one, or leads to the new table.
  grown-back :
      (p j c : ℕ)
      → 2 ≤ grown_roles.level p
      → j < 512
      → child_of (grown.words (p + 8 * j)) ≡ some c
      → ((2 ≤ r.level p) × (child_of (s.words (p + 8 * j)) ≡ some c)) ⊎ (r.level c ≡ 0)
  grown-back p j c h hj e = elim (Bool-cases (p == f * 4096)) [
    | inl new ↦
        let empty : grown.words (p + 8 * j) ≡ 0 =
          ap (λ q. grown.words (q + 8 * j)) (==_true p (f * 4096) new) ∙ fresh_word j hj in
        absurd (none-some (sym (ap child_of empty) ∙ e))
    | inr old ↦
        let above : 2 ≤ r.level p = ground arith in
        elim (entry_cases p t j i) [
          | inl (same_page, same_index) ↦
              let there : c ≡ f * 4096 = some_inj (
                sym e
                ∙ ap child_of (ap grown.words (omega (arith, same_page, same_index)))
                ∙ slot_child) in
              inr (ap r.level there ∙ unused)
          | inr apart ↦ inl (above, sym (ap child_of (old_word p j (omega arith) hj apart)) ∙ e)
        ]
  ]

  grown-Grows : child_of (s.words (t + 8 * i)) ≡ none → Grows r s grown_roles grown
  grown-Grows vacant = record {
    levels = λ p h.
        let old : (p == f * 4096) ≡ false = ==_ne p (f * 4096) (away p h) in rw old (refl, refl);
    entries = λ p j c h hj e. elim (entry_cases p t j i) [
      | inl (same_page, same_index) ↦ absurd (
          none-some
            (sym vacant ∙ ap child_of (ap s.words (omega (arith, same_page, same_index))) ∙ e))
      | inr apart ↦ ap child_of (old_word p j (omega arith) hj apart) ∙ e
    ];
    pages =
        λ p j h hj. old_word p j (omega arith) hj (inl (λ e. absurd (omega (arith, ap r.level e))));
    back = grown-back;
    fresh = λ p j h none hj. elim (Bool-cases (p == f * 4096)) [
      | inl new ↦ ap (λ q. grown.words (q + 8 * j)) (==_true p (f * 4096) new) ∙ fresh_word j hj
      | inr old ↦ absurd (ground arith)
    ];
  }

  pub grown-Descends :
      child_of (s.words (t + 8 * i)) ≡ none → Descends r s t i grown_roles (f * 4096) grown
  grown-Descends vacant =
      let old : (t == f * 4096) ≡ false = ==_ne t (f * 4096) (away t (omega arith)) in
      let fresh : (f * 4096 == f * 4096) ≡ true = ==_refl (f * 4096) in
      record {
        forest = grown-IsForest;
        grows = grown-Grows vacant;
        entry = slot_child;
        level = rw (fresh, old) (omega arith);
        key = rw (fresh, old);
      }
